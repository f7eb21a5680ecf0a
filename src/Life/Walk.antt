-- ===== src/Life/Walk.antt =====
-- The walk of `nowa_generacja_lista` of GameOfLife.c over the list that it changes.
use mimuw.Prelude.{ℕ, zero, suc, ◌≡◌, refl, sym, ap, ◌∙◌, Bool, true, false, ◌≤◌, arith, length}
use mimuw.Prelude.{Option, some, List, [], ◌∷◌, ◌++◌, ◌>>=◌, ◌==◌, Bool-cases, inl, inr}
use mimuw.Prelude.{if◌then◌else◌}
use mimuw.Prelude.Int.{ℤ, pos, ◌+ℤ◌, ◌-ℤ◌}
use mimuw.Life.Cells.{Cell, dead, ◌==ℤ◌, is_at, remove_all, set_neighbours, contains, cull}
use mimuw.Life.Cells.{mark_of, count_neighbours}
use mimuw.Life.Generation.{Place, place, whole, remove_ahead, remove_there, note_neighbours, judge}
use mimuw.Life.Generation.{insert_at, insert_missing, insert_row, surround}
use mimuw.Life.Generation.{advance, visit_living, visit_rest, next_generation}
use mimuw.Life.Search.{contains-insert, whole-insert_at}
use mimuw.Life.Distinct.{distinct, contains_append, distinct-apart, distinct-remove_all}
use mimuw.Life.Distinct.{distinct-set_neighbours, distinct-insert, distinct-cull}

length-remove_all : (l : List Cell) (i j : ℤ) → length (remove_all l i j) ≤ length l
unfolding remove_all
length-remove_all [] i j = omega arith
length-remove_all (c ∷ cs) i j = let ih = length-remove_all cs i j in ground arith

remove_all_append :
    (b a : List Cell) (i j : ℤ) → remove_all (b ++ a) i j ≡ remove_all b i j ++ remove_all a i j
unfolding remove_all
remove_all_append [] a i j = refl
remove_all_append (c ∷ b) a i j = let ih = remove_all_append b a i j in ground arith

set_neighbours_append :
    (b a : List Cell) (i j k : ℤ)
    → contains b i j ≡ true
    → set_neighbours (b ++ a) i j k ≡ set_neighbours b i j k ++ a
unfolding set_neighbours contains
set_neighbours_append [] a i j k h = absurd (ground arith)
set_neighbours_append (c ∷ b) a i j k h = elim (Bool-cases (is_at i j c)) [
  | inl e ↦ rw e refl
  | inr e ↦ rw e (ap (λ t. c ∷ t) (set_neighbours_append b a i j k (ground arith)))
]

append_nil : (l : List Cell) → l ++ [] ≡ l
append_nil [] = refl
append_nil (c ∷ l) = ap (λ t. c ∷ t) (append_nil l)

append_assoc : (b : List Cell) (c : Cell) (cs : List Cell) → (b ++ c ∷ []) ++ cs ≡ b ++ c ∷ cs
append_assoc [] c cs = refl
append_assoc (x ∷ b) c cs = ap (λ t. x ∷ t) (append_assoc b c cs)

==ℤ_refl : (a : ℤ) → (a ==ℤ a) ≡ true
==ℤ_refl a = ground arith

-- The list is distinct, and the position is behind the pointer.
abbrev Passed : Place → (i j : ℤ) → Type 0
Passed p i j = (distinct (whole p) ≡ true) × (contains p.behind i j ≡ true)

-- The pointer is on a cell of the list or at its end, and the list is distinct, after a step that
-- brings no cell ahead.
abbrev Steps : Place → Option Place → Type 0
Steps p o =
    (q : Place) × (o ≡ some q) × (distinct (whole q) ≡ true) × (length q.ahead ≤ length p.ahead)

remove_ahead-apart :
    (l : List Cell) (i j : ℤ)
    → contains l i j ≡ false
    → remove_ahead i j l ≡ some (remove_all l i j)
unfolding remove_ahead contains remove_all
remove_ahead-apart [] i j h = refl
remove_ahead-apart (c ∷ cs) i j h = let e : is_at i j c ≡ false = ground (arith, h) in rw e refl

remove_there-Steps : (p : Place) (i j : ℤ) → Passed p i j → Steps p (remove_there p i j)
unfolding remove_there whole
remove_there-Steps p i j (d, h) =
    let apart = remove_ahead-apart p.ahead i j (distinct-apart p.behind p.ahead i j d h) in
    (
      place (remove_all p.behind i j) (remove_all p.ahead i j),
      rw (remove_there, apart) refl,
      ap distinct (sym (remove_all_append p.behind p.ahead i j))
          ∙ distinct-remove_all (p.behind ++ p.ahead) i j d,
      length-remove_all p.ahead i j,
    )

note_neighbours-Steps :
    (p : Place) (i j k : ℤ) → Passed p i j → Steps p (some (note_neighbours p i j k))
unfolding note_neighbours whole
note_neighbours-Steps p i j k (d, h) = (
  place (set_neighbours p.behind i j k) p.ahead,
  rw (note_neighbours, h) refl,
  ap distinct (sym (set_neighbours_append p.behind p.ahead i j k h))
      ∙ distinct-set_neighbours (p.behind ++ p.ahead) i j k d,
  omega arith,
)

pick-Steps :
    (t s : Bool) (p : Place) (a b c : Option Place)
    → Steps p a
    → Steps p b
    → Steps p c
    → Steps p (if t then (if s then a else b) else c)
pick-Steps true true p a b c u v w = u
pick-Steps true false p a b c u v w = v
pick-Steps false s p a b c u v w = w

judge-Steps : (p : Place) (i j : ℤ) → Passed p i j → Steps p (judge p i j)
unfolding judge
judge-Steps p i j h =
    pick-Steps (mark_of (whole p) i j (pos 0) ==ℤ dead) (count_neighbours (whole p) i j == 3) p
      (some p) _ _ (p, refl, h.0, omega arith) (remove_there-Steps p i j h)
      (note_neighbours-Steps p i j (pos (count_neighbours (whole p) i j)) h)

advance-Passed :
    (b : List Cell) (c : Cell) (cs : List Cell)
    → distinct (b ++ c ∷ cs) ≡ true
    → Passed (advance b c cs) c.nr_wiersza c.nr_kolumny
unfolding advance whole contains is_at
advance-Passed b c cs d = (
  ap distinct (append_assoc b c cs) ∙ d,
  contains_append b (c ∷ []) c.nr_wiersza c.nr_kolumny
      ∙ ground (arith, ==ℤ_refl c.nr_wiersza, ==ℤ_refl c.nr_kolumny),
)

insert_at-behind :
    (p : Place) (i j x y : ℤ)
    → contains p.behind x y ≡ true
    → contains (insert_at p i j).behind x y ≡ true
unfolding insert_at
insert_at-behind p i j x y h = go p.ahead
  where
    go :
        (a : List Cell)
        → contains (insert_at (record { behind = p.behind; ahead = a }) i j).behind x y ≡ true
    go [] = contains-insert p.behind i j dead x y ∙ ground (arith, h)
    go (c ∷ cs) = h

insert_missing-Passed : (p : Place) (i j x y : ℤ) → Passed p x y → Passed (insert_missing p i j) x y
unfolding insert_missing
insert_missing-Passed p i j x y (d, h) = elim (Bool-cases (contains (whole p) i j)) [
  | inl e ↦ rw (insert_missing, e) (d, h)
  | inr e ↦
      rw (insert_missing, e)
        (
          ap distinct (whole-insert_at p i j) ∙ distinct-insert (whole p) i j dead d e,
          insert_at-behind p i j x y h,
        )
]

insert_row-Passed : (p : Place) (w j x y : ℤ) → Passed p x y → Passed (insert_row p w j) x y
unfolding insert_row
insert_row-Passed p w j x y h =
    insert_missing-Passed _ w (j +ℤ pos 1) x y
      (insert_missing-Passed _ w j x y (insert_missing-Passed p w (j -ℤ pos 1) x y h))

surround-Passed : (p : Place) (i j x y : ℤ) → Passed p x y → Passed (surround p i j) x y
unfolding surround
surround-Passed p i j x y h =
    insert_row-Passed _ (i +ℤ pos 1) j x y
      (insert_row-Passed _ i j x y (insert_row-Passed p (i -ℤ pos 1) j x y h))

ahead-advance : (b : List Cell) (c : Cell) (cs : List Cell) → (advance b c cs).ahead ≡ cs
unfolding advance
ahead-advance b c cs = refl

-- A loop that touches no freed cell, and leaves the list distinct.
abbrev Walks : Option Place → Type 0
Walks o = (q : Place) × (o ≡ some q) × (distinct (whole q) ≡ true)

visit_living-Walks :
    (count : ℕ) (b a : List Cell) → distinct (b ++ a) ≡ true → Walks (visit_living count b a)
unfolding visit_living whole
visit_living-Walks zero b a d = (place b a, refl, d)
visit_living-Walks (suc count) b [] d = (place b [], refl, d)
visit_living-Walks (suc count) b (c ∷ cs) d =
    let i = c.nr_wiersza in
    let j = c.nr_kolumny in
    let (q, step, q_distinct, shorter) =
      judge-Steps (surround (advance b c cs) i j) i j
        (surround-Passed (advance b c cs) i j i j (advance-Passed b c cs d)) in
    let (r, run, r_distinct) = visit_living-Walks count q.behind q.ahead q_distinct in
    (r, ap (λ o. o >>= λ q. visit_living count q.behind q.ahead) step ∙ run, r_distinct)

-- With as much fuel as cells ahead, the second loop gets to the end of a distinct list.
visit_rest-Walks :
    (fuel : ℕ) (b a : List Cell)
    → length a ≤ fuel
    → distinct (b ++ a) ≡ true
    → (q : List Cell) × (visit_rest fuel b a ≡ some (place q [])) × (distinct q ≡ true)
unfolding visit_rest
visit_rest-Walks zero b [] h d = (b, refl, ap distinct (sym (append_nil b)) ∙ d)
visit_rest-Walks zero b (c ∷ cs) h d = absurd (omega arith)
visit_rest-Walks (suc fuel) b [] h d = (b, refl, ap distinct (sym (append_nil b)) ∙ d)
visit_rest-Walks (suc fuel) b (c ∷ cs) h d =
    let i = c.nr_wiersza in
    let j = c.nr_kolumny in
    let (q, step, q_distinct, shorter) =
      judge-Steps (advance b c cs) i j (advance-Passed b c cs d) in
    let fits : length q.ahead ≤ fuel =
      omega (arith, shorter, ap length (ahead-advance b c cs), h) in
    let (r, run, r_distinct) = visit_rest-Walks fuel q.behind q.ahead fits q_distinct in
    (r, ap (λ o. o >>= λ q. visit_rest fuel q.behind q.ahead) step ∙ run, r_distinct)

-- On a list without two cells at one position, neither loop of `nowa_generacja_lista` touches a freed
-- cell, the second one gets to the end of the list, and the next generation is again a list without
-- two cells at one position.
pub next_generation-safe :
    (l : List Cell)
    → distinct l ≡ true
    → (p : Place) × (rest : List Cell) × (visit_living (length l) [] l ≡ some p)
      × (visit_rest (length p.ahead) p.behind p.ahead ≡ some (place rest []))
      × (next_generation l ≡ some (cull rest))
      × (distinct (cull rest) ≡ true)
unfolding next_generation whole
next_generation-safe l d =
    let (p, first, p_distinct) = visit_living-Walks (length l) [] l d in
    let (rest, second, rest_distinct) =
      visit_rest-Walks (length p.ahead) p.behind p.ahead (omega arith) p_distinct in
    (
      p,
      rest,
      first,
      second,
      ap
            (λ o. o >>= λ p.
              visit_rest (length p.ahead) p.behind p.ahead >>= λ q. some (cull (whole q)))
            first
          ∙ ap (λ o. o >>= λ q. some (cull (whole q))) second
          ∙ ap (λ t. some (cull t)) (append_nil rest),
      distinct-cull rest rest_distinct,
    )
