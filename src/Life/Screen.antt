-- ===== src/Life/Screen.antt =====
-- The window of GameOfLife.c, a part of the unbounded plane on the screen.
use mimuw.Prelude.{ℕ, zero, suc, ◌<◌, ◌≡◌, refl, ap, ◌∙◌, Bool, true, false, ◌&&◌, not}
use mimuw.Prelude.{List, [], ◌∷◌, ◌++◌, replicate, ◌==◌, if◌then◌else◌, arith}
use mimuw.Prelude.Int.{ℤ, pos, ◌+ℤ◌, ◌-ℤ◌, ltb_ℤ, pos_part}
use mimuw.Life.Cells.{Cell, is_at, contains, ◌==ℤ◌}

-- `a` of `drukowanie_generacji`, by the row and the column
abbrev pub Grid : Type 0
Grid = ℕ → ℕ → ℕ

-- `wypelnij`
abbrev pub blank : Grid
blank w k = 46

-- One bound pair of the test of `drukowanie_generacji`: first <= x and x <= first + size - 1.
unfoldable pub in_window : (size : ℕ) (first x : ℤ) → Bool
in_window size first x = not (ltb_ℤ x first) && not (ltb_ℤ (first +ℤ pos size -ℤ pos 1) x)

unfoldable pub mark : Grid → (w k : ℕ) → Grid
mark a w k r c = if (w == r) && (k == c) then 48 else a r c

unfoldable pub draw_cell : (rows columns : ℕ) (i j : ℤ) → Cell → Grid → Grid
unfolding in_window mark
draw_cell rows columns i j c a =
    if in_window rows i c.nr_wiersza && in_window columns j c.nr_kolumny
    then mark a (pos_part (c.nr_wiersza -ℤ i)) (pos_part (c.nr_kolumny -ℤ j))
    else a

-- The loop of `drukowanie_generacji`
unfoldable pub draw : (rows columns : ℕ) (i j : ℤ) → List Cell → Grid → Grid
unfolding draw_cell
draw rows columns i j [] a = a
draw rows columns i j (c ∷ cs) a = draw rows columns i j cs (draw_cell rows columns i j c a)

unfoldable pub print_line : Grid → (w k left : ℕ) → List ℕ
print_line a w k zero = 10 ∷ []
print_line a w k (suc left) = a w k ∷ print_line a w (suc k) left

-- `drukuj`, from the row `w` on
unfoldable pub print_lines : (columns : ℕ) → Grid → (w left : ℕ) → List ℕ
unfolding print_line
print_lines columns a w zero = replicate columns 61 ++ 10 ∷ []
print_lines columns a w (suc left) = print_line a w 0 columns ++ print_lines columns a (suc w) left

-- `drukowanie_generacji`
unfoldable pub print_generation : (rows columns : ℕ) → List Cell → (i j : ℤ) → List ℕ
unfolding draw print_lines
print_generation rows columns l i j = print_lines columns (draw rows columns i j l blank) 0 rows

in_window-axis :
    (size r : ℕ) (first x : ℤ)
    → r < size
    → (in_window size first x && (pos_part (x -ℤ first) == r)) ≡ (x ==ℤ (first +ℤ pos r))
unfolding in_window ◌+ℤ◌ ◌-ℤ◌
in_window-axis size r first x h = ground arith

-- The two ways to write the tests of the two axes.
split_axes :
    (p q s t : Bool) (a b : Grid) (r k : ℕ)
    → b r k ≡ (if s && t then 48 else a r k)
    → (if p && q then b else a) r k ≡ (if (p && s) && (q && t) then 48 else a r k)
split_axes true true s t a b r k e = e
split_axes true false true t a b r k e = refl
split_axes true false false t a b r k e = refl
split_axes false q s t a b r k e = refl

choose :
    (p q : Bool) (x y : ℕ)
    → (if q then x else (if p then x else y)) ≡ (if (if p then true else q) then x else y)
choose true true x y = refl
choose true false x y = refl
choose false q x y = refl

draw_cell-is_at :
    (rows columns : ℕ) (i j : ℤ) (c : Cell) (a : Grid) (r k : ℕ)
    → r < rows
    → k < columns
    → draw_cell rows columns i j c a r k ≡ (if is_at (i +ℤ pos r) (j +ℤ pos k) c then 48 else a r k)
unfolding draw_cell mark is_at
draw_cell-is_at rows columns i j c a r k lr lk =
    split_axes (in_window rows i c.nr_wiersza) (in_window columns j c.nr_kolumny) _ _ a _ r k refl
    ∙ ap (λ t. if t && column then 48 else a r k) (in_window-axis rows r i c.nr_wiersza lr)
    ∙ ap (λ t. if (c.nr_wiersza ==ℤ (i +ℤ pos r)) && t then 48 else a r k)
        (in_window-axis columns k j c.nr_kolumny lk)
  where
    column : Bool
    column = in_window columns j c.nr_kolumny && (pos_part (c.nr_kolumny -ℤ j) == k)

draw-over :
    (rows columns : ℕ) (i j : ℤ) (l : List Cell) (a : Grid) (r k : ℕ)
    → r < rows
    → k < columns
    → draw rows columns i j l a r k ≡ (if contains l (i +ℤ pos r) (j +ℤ pos k) then 48 else a r k)
unfolding draw contains
draw-over rows columns i j [] a r k lr lk = refl
draw-over rows columns i j (c ∷ cs) a r k lr lk =
    draw-over rows columns i j cs (draw_cell rows columns i j c a) r k lr lk
    ∙ ap (λ t. if contains cs (i +ℤ pos r) (j +ℤ pos k) then 48 else t)
        (draw_cell-is_at rows columns i j c a r k lr lk)
    ∙ choose (is_at (i +ℤ pos r) (j +ℤ pos k) c) (contains cs (i +ℤ pos r) (j +ℤ pos k)) 48 (a r k)

-- A field of the screen shows '0' when the list has a cell at its place in the plane, and '.' when
-- it has none, for every upper left corner of the window.
pub draw-contains :
    (rows columns : ℕ) (i j : ℤ) (l : List Cell) (r k : ℕ)
    → r < rows
    → k < columns
    → draw rows columns i j l blank r k ≡ (if contains l (i +ℤ pos r) (j +ℤ pos k) then 48 else 46)
draw-contains rows columns i j l r k lr lk = draw-over rows columns i j l blank r k lr lk
