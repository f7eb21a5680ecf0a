-- ===== src/Crosswords/Printed.antt =====
-- Where the printed text of crosswords.h shows a cell.
use native.Mathlib.Nat.{mod-eq_of_lt}
use mimuw.Prelude.{ℕ, zero, suc, ◌+◌, ◌-◌, ◌*◌, ◌%◌, ◌<◌, ◌≤◌, ◌≡◌, refl, ap, ◌∙◌, arith, leb}
use mimuw.Prelude.{◌==◌, ◌&&◌, ◌||◌}
use mimuw.Prelude.{false, some, List, [], ◌∷◌, ◌++◌, length, get_elem?}
use mimuw.Crosswords.Board.{Letters}
use mimuw.Crosswords.Crossword.{Crossword}
use mimuw.Crosswords.Print.{
  background, shown, row_cells, row_text, rows_text, print, crossword_background, blank_char,
}

length-background : (n : ℕ) → length (background n) ≡ 2 * n + 2
unfolding background
length-background zero = refl
length-background (suc n) = omega (arith, length-background n)

length-row_cells : (ls : Letters) (r n c : ℕ) → length (row_cells ls r n c) ≡ 2 * n + 2
unfolding row_cells
length-row_cells ls r zero c = refl
length-row_cells ls r (suc n) c = omega (arith, length-row_cells ls r n (suc c))

get_elem?-append_right :
    (xs ys : List ℕ) (i : ℕ) → get_elem? (xs ++ ys) (length xs + i) ≡ get_elem? ys i
get_elem?-append_right [] ys i = ap (get_elem? ys) {x = 0 + i} {y = i} (omega arith)
get_elem?-append_right (x ∷ xs) ys i =
    ap (get_elem? (x ∷ (xs ++ ys))) {x = suc (length xs) + i} {y = suc (length xs + i)}
      (omega arith)
    ∙ get_elem?-append_right xs ys i

get_elem?-append_left :
    (xs ys : List ℕ) (i v : ℕ) → get_elem? xs i ≡ some v → get_elem? (xs ++ ys) i ≡ some v
get_elem?-append_left [] ys i v e = ground (arith, e)
get_elem?-append_left (x ∷ xs) ys zero v e = e
get_elem?-append_left (x ∷ xs) ys (suc i) v e = get_elem?-append_left xs ys i v e

two_on : (x y : ℕ) (xs : List ℕ) (i : ℕ) → get_elem? (x ∷ y ∷ xs) (2 * suc i) ≡ get_elem? xs (2 * i)
two_on x y xs i = ap (get_elem? (x ∷ y ∷ xs)) {x = 2 * suc i} {y = suc (suc (2 * i))} (omega arith)

row_cells-shown :
    (ls : Letters) (r n c k : ℕ)
    → k < n
    → get_elem? (row_cells ls r n c) (2 * k)
      ≡ some (shown (ls (record { first = c + k; second = r })))
unfolding row_cells
row_cells-shown ls r zero c k h = absurd (omega (arith, h))
row_cells-shown ls r (suc n) c zero h =
    ap (λ z. some (shown (ls (record { first = z; second = r })))) {x = c} {y = c + 0} (omega arith)
row_cells-shown ls r (suc n) c (suc k) h =
    two_on _ _ (row_cells ls r n (suc c)) k
    ∙ row_cells-shown ls r n (suc c) k (omega (arith, h))
    ∙ ap (λ z. some (shown (ls (record { first = z; second = r })))) {x = suc c + k} {y = c + suc k}
        (omega arith)

rows_text-shown :
    (ls : Letters) (n left rows top i k : ℕ)
    → i < rows
    → k < n
    → get_elem? (rows_text ls n left rows top) (i * (2 * n + 4) + 2 * suc k)
      ≡ some (shown (ls (record { first = left + k; second = top + i })))
unfolding rows_text row_text
rows_text-shown ls n left zero top i k h g = absurd (omega (arith, h))
rows_text-shown ls n left (suc rows) top zero k h g =
    let cells = row_cells ls top n left in
    let rest = rows_text ls n left rows (suc top) in
    ap (get_elem? (crossword_background ∷ blank_char ∷ (cells ++ rest)))
      {x = 0 * (2 * n + 4) + 2 * suc k} {y = 2 * suc k} (omega arith)
    ∙ two_on _ _ (cells ++ rest) k
    ∙ get_elem?-append_left cells rest (2 * k) _ (row_cells-shown ls top n left k g)
    ∙ ap (λ z. some (shown (ls (record { first = left + k; second = z })))) {x = top} {y = top + 0}
        (omega arith)
rows_text-shown ls n left (suc rows) top (suc i) k h g =
    let row = row_text ls top n left in
    let rest = rows_text ls n left rows (suc top) in
    let l : length row ≡ 2 * n + 4 = omega (arith, length-row_cells ls top n left) in
    let m : suc i * (2 * n + 4) ≡ (2 * n + 4) + i * (2 * n + 4) = omega arith in
    let e : suc i * (2 * n + 4) + 2 * suc k ≡ length row + (i * (2 * n + 4) + 2 * suc k) =
      omega (arith, l, m) in
    ap (get_elem? (row ++ rest)) e
    ∙ get_elem?-append_right row rest (i * (2 * n + 4) + 2 * suc k)
    ∙ rows_text-shown ls n left rows (suc top) i k (omega (arith, h)) g
    ∙ ap (λ z. some (shown (ls (record { first = left + k; second = z })))) {x = suc top + i}
        {y = top + suc i} (omega arith)

-- For a crossword with rows and columns, whose area ends two columns and a row before size_max: the
-- operator << ends, with a text that has at place 2 (k + 1) of line i + 1, where lines have
-- 2 (columns + 2) chars, the char that the cell in column k and row i of the area shows.
pub print-shown :
    (m i k : ℕ) (c : Crossword)
    → c.area.right_bottom.first + 2 ≤ m
    → c.area.right_bottom.second < m
    → c.area.left_top.first + k ≤ c.area.right_bottom.first
    → c.area.left_top.second + i ≤ c.area.right_bottom.second
    → let columns = suc c.area.right_bottom.first - c.area.left_top.first in
      (text : List ℕ) × (print m c ≡ some text)
      × (get_elem? text (suc i * (2 * columns + 4) + 2 * suc k)
          ≡ some (
              shown (
                c.crossword_letters (record {
                  first = c.area.left_top.first + k;
                  second = c.area.left_top.second + i;
                }))))
unfolding print
print-shown m i k c x y u v =
    let left = c.area.left_top.first in
    let right = c.area.right_bottom.first in
    let top = c.area.left_top.second in
    let bottom = c.area.right_bottom.second in
    let n = suc right - left in
    let a : (right + 2) % suc m ≡ right + 2 =
      mod-eq_of_lt {n = right + 2} {m = suc m} (omega (arith, x)) in
    let b : (leb top bottom && ((bottom == m) || leb left right && (right == m))) ≡ false =
      ground (arith, x, y) in
    let border = background (right + 2 - left) in
    let rows = rows_text c.crossword_letters n left (suc bottom - top) top in
    let l : length border ≡ 2 * n + 4 = omega (arith, length-background (right + 2 - left), u) in
    let j : suc i * (2 * n + 4) ≡ (2 * n + 4) + i * (2 * n + 4) = omega arith in
    let e : suc i * (2 * n + 4) + 2 * suc k ≡ length border + (i * (2 * n + 4) + 2 * suc k) =
      omega (arith, l, j) in
    rw (a, b)
      (
        border ++ (rows ++ border),
        refl,
        ap (get_elem? (border ++ (rows ++ border))) e
            ∙ get_elem?-append_right border (rows ++ border) (i * (2 * n + 4) + 2 * suc k)
            ∙ get_elem?-append_left rows border (i * (2 * n + 4) + 2 * suc k) _ (
                rows_text-shown c.crossword_letters n left (suc bottom - top) top i k
                  (omega (arith, v)) (omega (arith, u))),
      )
