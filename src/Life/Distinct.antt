-- ===== src/Life/Distinct.antt =====
-- The operations on the list of GameOfLife.c, when no two cells of it are at one position.
use mimuw.Prelude.{◌≡◌, refl, sym, ap, ◌∙◌, Bool, true, false, ◌&&◌, ◌||◌, not}
use mimuw.Prelude.{arith, List, [], ◌∷◌, ◌++◌}
use mimuw.Prelude.{Bool-cases, inl, inr}
use mimuw.Prelude.Int.{ℤ}
use mimuw.Life.Cells.{Cell, ◌==ℤ◌, is_at, contains, insert, remove_all}
use mimuw.Life.Cells.{set_neighbours, cull}
use mimuw.Life.Search.{here, here_eq, contains-insert, contains-remove_all}

-- No two cells are at one position.
abbrev pub distinct : List Cell → Bool
distinct [] = true
distinct (c ∷ cs) = not (contains cs c.nr_wiersza c.nr_kolumny) && distinct cs

pub contains_append :
    (b a : List Cell) (i j : ℤ) → contains (b ++ a) i j ≡ (contains b i j || contains a i j)
unfolding contains
contains_append [] a i j = refl
contains_append (c ∷ b) a i j = let ih = contains_append b a i j in ground arith

-- A position behind the pointer is not ahead of it.
pub distinct-apart :
    (b a : List Cell) (i j : ℤ)
    → distinct (b ++ a) ≡ true
    → contains b i j ≡ true
    → contains a i j ≡ false
unfolding contains
distinct-apart [] a i j d h = absurd (ground arith)
distinct-apart (c ∷ b) a i j d h = elim (Bool-cases (is_at i j c)) [
  | inr e ↦ distinct-apart b a i j (ground arith) (ground (arith, h, e))
  | inl e ↦
      let (same_i, same_j) = here_eq c.nr_wiersza c.nr_kolumny i j (unfold is_at in e) in
      let joined = contains_append b a c.nr_wiersza c.nr_kolumny in
      let lost : contains a c.nr_wiersza c.nr_kolumny ≡ false = ground (arith, d) in
      sym (ap (λ x. contains a x c.nr_kolumny) same_i ∙ ap (λ y. contains a i y) same_j) ∙ lost
]

pub distinct-remove_all :
    (l : List Cell) (i j : ℤ) → distinct l ≡ true → distinct (remove_all l i j) ≡ true
unfolding remove_all
distinct-remove_all [] i j d = refl
distinct-remove_all (c ∷ cs) i j d =
    let ih = distinct-remove_all cs i j (ground arith) in
    let gone = contains-remove_all cs i j c.nr_wiersza c.nr_kolumny in ground arith

contains-set_neighbours :
    (l : List Cell) (i j k x y : ℤ) → contains (set_neighbours l i j k) x y ≡ contains l x y
unfolding contains set_neighbours is_at
contains-set_neighbours [] i j k x y = refl
contains-set_neighbours (c ∷ cs) i j k x y =
    let ih = contains-set_neighbours cs i j k x y in ground arith

pub distinct-set_neighbours :
    (l : List Cell) (i j k : ℤ) → distinct l ≡ true → distinct (set_neighbours l i j k) ≡ true
unfolding set_neighbours
distinct-set_neighbours [] i j k d = refl
distinct-set_neighbours (c ∷ cs) i j k d =
    let ih = distinct-set_neighbours cs i j k (ground arith) in
    let same = contains-set_neighbours cs i j k c.nr_wiersza c.nr_kolumny in ground arith

==ℤ_comm : (a b : ℤ) → (a ==ℤ b) ≡ (b ==ℤ a)
==ℤ_comm a b = ground arith

here_comm : (i j x y : ℤ) → here i j x y ≡ here x y i j
here_comm i j x y = rw (==ℤ_comm i x, ==ℤ_comm j y) refl

pub distinct-insert :
    (l : List Cell) (i j k : ℤ)
    → distinct l ≡ true
    → contains l i j ≡ false
    → distinct (insert l i j k) ≡ true
unfolding insert contains is_at
distinct-insert [] i j k d h = refl
distinct-insert (c ∷ cs) i j k d h =
    let ih = distinct-insert cs i j k (ground arith) (ground arith) in
    let joined = contains-insert cs i j k c.nr_wiersza c.nr_kolumny in
    let turned = here_comm i j c.nr_wiersza c.nr_kolumny in ground arith

contains-cull : (l : List Cell) (x y : ℤ) → contains l x y ≡ false → contains (cull l) x y ≡ false
unfolding contains cull is_at
contains-cull [] x y h = refl
contains-cull (c ∷ cs) x y h = let ih = contains-cull cs x y in ground arith

pub distinct-cull : (l : List Cell) → distinct l ≡ true → distinct (cull l) ≡ true
unfolding cull
distinct-cull [] d = refl
distinct-cull (c ∷ cs) d =
    let ih = distinct-cull cs (ground arith) in
    let same = contains-cull cs c.nr_wiersza c.nr_kolumny in ground arith
