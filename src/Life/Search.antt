-- ===== src/Life/Search.antt =====
-- Which cells are in the list of GameOfLife.c after the operations on it.
use mimuw.Prelude.{◌≡◌, refl, sym, ap, ◌∙◌, Bool, true, false, ◌&&◌, ◌||◌, not, arith}
use mimuw.Prelude.{List, [], ◌∷◌, ◌++◌, Bool-cases, inl, inr}
use mimuw.Prelude.Int.{ℤ, pos, ◌+ℤ◌, ◌-ℤ◌}
use mimuw.Life.Cells.{Cell, dead, ◌==ℤ◌, is_at, contains, insert, remove_all}
use mimuw.Life.Generation.{Place, whole, insert_at, insert_missing, insert_row, surround}

-- The position x, y is the position i, j.
abbrev pub here : (i j x y : ℤ) → Bool
here i j x y = (i ==ℤ x) && (j ==ℤ y)

==ℤ_eq : (a b : ℤ) → (a ==ℤ b) ≡ true → a ≡ b
==ℤ_eq a b h = ground arith

pub contains-insert :
    (l : List Cell) (i j k x y : ℤ)
    → contains (insert l i j k) x y ≡ (contains l x y || here i j x y)
unfolding contains insert is_at
contains-insert [] i j k x y = ground arith
contains-insert (c ∷ cs) i j k x y = let ih = contains-insert cs i j k x y in ground arith

pub here_eq : (i j x y : ℤ) → here i j x y ≡ true → (i ≡ x) × (j ≡ y)
here_eq i j x y h = (==ℤ_eq i x (ground arith), ==ℤ_eq j y (ground arith))

is_at-here : (c : Cell) (i j x y : ℤ) → is_at i j c ≡ true → is_at x y c ≡ here i j x y
unfolding is_at
is_at-here c i j x y h = let e = here_eq c.nr_wiersza c.nr_kolumny i j h in rw (e.0, e.1) refl

is_at-apart :
    (c : Cell) (i j x y : ℤ) → is_at i j c ≡ false → is_at x y c ≡ true → here i j x y ≡ false
unfolding is_at
is_at-apart c i j x y h h' = elim (Bool-cases (here i j x y)) [
  | inr e ↦ e
  | inl e ↦
      let (same_i, same_j) = here_eq i j x y e in
      e ∙ (sym h' ∙ sym (ap (λ b. is_at x b c) same_j) ∙ sym (ap (λ a. is_at a j c) same_i) ∙ h)
]

-- `usun_wszystkie_wskazane` takes out the cells at one position, and no others.
pub contains-remove_all :
    (l : List Cell) (i j x y : ℤ)
    → contains (remove_all l i j) x y ≡ (contains l x y && not (here i j x y))
unfolding contains remove_all is_at
contains-remove_all [] i j x y = refl
contains-remove_all (c ∷ cs) i j x y =
    let ih = contains-remove_all cs i j x y in
    let same = is_at-here c i j x y in let apart = is_at-apart c i j x y in ground arith

insert_append :
    (b : List Cell) (c : Cell) (cs : List Cell) (i j k : ℤ)
    → insert (b ++ c ∷ cs) i j k ≡ b ++ insert (c ∷ cs) i j k
unfolding insert
insert_append [] c cs i j k = refl
insert_append (x ∷ b) c cs i j k = ap (λ t. x ∷ t) (insert_append b c cs i j k)

insert_nil : (b : List Cell) (i j k : ℤ) → insert (b ++ []) i j k ≡ insert b i j k ++ []
unfolding insert
insert_nil [] i j k = refl
insert_nil (x ∷ b) i j k = ap (λ t. x ∷ t) (insert_nil b i j k)

pub whole-insert_at : (p : Place) (i j : ℤ) → whole (insert_at p i j) ≡ insert (whole p) i j dead
unfolding whole insert_at
whole-insert_at p i j = go p.behind p.ahead
  where
    go :
        (b a : List Cell)
        → whole (insert_at (record { behind = b; ahead = a }) i j)
          ≡ insert (whole (record { behind = b; ahead = a })) i j dead
    go b [] = sym (insert_nil b i j dead)
    go b (c ∷ cs) = sym (insert_append b c cs i j dead)

contains_same :
    (l : List Cell) (i j x y : ℤ)
    → contains l i j ≡ true
    → contains l x y ≡ (contains l x y || here i j x y)
contains_same l i j x y h = elim (Bool-cases (here i j x y)) [
  | inl e ↦ rw (there e) refl
  | inr e ↦ ground arith
]
  where
    there : here i j x y ≡ true → contains l x y ≡ true
    there e =
        let (same_i, same_j) = here_eq i j x y e in
        sym (ap (λ a. contains l a j) same_i ∙ ap (λ b. contains l x b) same_j) ∙ h

contains-insert_missing :
    (p : Place) (i j x y : ℤ)
    → contains (whole (insert_missing p i j)) x y ≡ (contains (whole p) x y || here i j x y)
unfolding insert_missing
contains-insert_missing p i j x y = elim (Bool-cases (contains (whole p) i j)) [
  | inl e ↦ rw (insert_missing, e) (contains_same (whole p) i j x y e)
  | inr e ↦ rw (insert_missing, e, whole-insert_at p i j) (contains-insert (whole p) i j dead x y)
]

or_assoc3 : (a b c d : Bool) → (((a || b) || c) || d) ≡ (a || ((b || c) || d))
or_assoc3 true b c d = refl
or_assoc3 false b c d = refl

-- The position x, y is in the row w and at most one column from j.
abbrev pub near_row : (w j x y : ℤ) → Bool
near_row w j x y = here w (j -ℤ pos 1) x y || here w j x y || here w (j +ℤ pos 1) x y

contains-insert_row :
    (p : Place) (w j x y : ℤ)
    → contains (whole (insert_row p w j)) x y ≡ (contains (whole p) x y || near_row w j x y)
unfolding insert_row
contains-insert_row p w j x y =
    contains-insert_missing p2 w (j +ℤ pos 1) x y
    ∙ ap (λ t. t || here w (j +ℤ pos 1) x y)
        (contains-insert_missing p1 w j x y
          ∙ ap (λ t. t || here w j x y) (contains-insert_missing p w (j -ℤ pos 1) x y))
    ∙ or_assoc3 (contains (whole p) x y) _ _ _
  where
    p1 : Place
    p1 = insert_missing p w (j -ℤ pos 1)

    p2 : Place
    p2 = insert_missing p1 w j

-- The position x, y is at most one row and one column from i, j.
abbrev pub near : (i j x y : ℤ) → Bool
near i j x y = near_row (i -ℤ pos 1) j x y || near_row i j x y || near_row (i +ℤ pos 1) j x y

-- The two inner loops of `nowa_generacja_lista` bring the nine positions around a cell into the
-- list, and no other positions; those that were there stay.
pub contains-surround :
    (p : Place) (i j x y : ℤ)
    → contains (whole (surround p i j)) x y ≡ (contains (whole p) x y || near i j x y)
unfolding surround
contains-surround p i j x y =
    contains-insert_row p2 (i +ℤ pos 1) j x y
    ∙ ap (λ t. t || near_row (i +ℤ pos 1) j x y)
        (contains-insert_row p1 i j x y
          ∙ ap (λ t. t || near_row i j x y) (contains-insert_row p (i -ℤ pos 1) j x y))
    ∙ or_assoc3 (contains (whole p) x y) _ _ _
  where
    p1 : Place
    p1 = insert_row p (i -ℤ pos 1) j

    p2 : Place
    p2 = insert_row p1 i j
