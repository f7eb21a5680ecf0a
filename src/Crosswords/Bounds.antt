-- ===== src/Crosswords/Bounds.antt =====
-- Words of crosswords.h at the edge of the coordinates, and their order.
use native.Mathlib.Nat.{mod-eq_of_lt, add-mod_right}
use mimuw.Prelude.{ℕ, zero, suc, ◌+◌, ◌-◌, ◌%◌, ◌<◌, ◌≤◌, ◌≡◌, ◌↔◌, refl, sym, ap, ◌∙◌, arith}
use mimuw.Prelude.{true, List, [], ◌∷◌, Bool-cases, ◌⊎◌, inl, inr}
use mimuw.Prelude.{ltb, if◌then◌else◌, length, take, length-take}
use mimuw.Crosswords.Area.{Pos}
use mimuw.Crosswords.Word.{
  is_empty_text, default_word, Orientation, horizontal, vertical, Word, less,
}
use mimuw.Crosswords.Word.{greater, equal, equal_words, compare_words, too_long, fitted}
use mimuw.Crosswords.Word.{make_word, last_place, get_end_position}

-- The place of an orientation in the order
abbrev pub rank : Orientation → ℕ
rank horizontal = 0
rank vertical = 1

-- By column, then by row, then horizontal words before vertical ones
abbrev pub Before : Word → Word → Type 0
Before v w =
    (v.coordinates.first < w.coordinates.first)
    ⊎ (v.coordinates.first ≡ w.coordinates.first)
      × ((v.coordinates.second < w.coordinates.second)
          ⊎ (v.coordinates.second ≡ w.coordinates.second)
            × (rank v.orientation < rank w.orientation))

-- The order of words is by column, then by row, then by orientation, and gives equal exactly where
-- the operator == holds.
pub compare_words-Before :
    (v w : Word)
    → (compare_words v w ≡ less ↔ Before v w)
      × (compare_words v w ≡ greater ↔ Before w v)
      × (compare_words v w ≡ equal ↔ equal_words v w ≡ true)
unfolding compare_words equal_words
compare_words-Before v w = go v.orientation w.orientation
  where
    go :
        (o u : Orientation)
        → let x = record v { orientation = o } in
          let y = record w { orientation = u } in
          (compare_words x y ≡ less ↔ Before x y)
          × (compare_words x y ≡ greater ↔ Before y x)
          × (compare_words x y ≡ equal ↔ equal_words x y ≡ true)
    go horizontal horizontal = ground arith
    go horizontal vertical = ground arith
    go vertical horizontal = ground arith
    go vertical vertical = ground arith

last_place-sum : (m start n : ℕ) → 0 < n → start + n ≤ suc m → last_place m start n ≡ start + n - 1
unfolding last_place
last_place-sum m start n h k = elim (Bool-cases (ltb (m - start) n)) [
  | inl e ↦ rw e (ground (arith, e, h, k))
  | inr e ↦
      let i : n + m ≡ (n - 1) + suc m = omega (arith, h) in
      let a : (n + m) % suc m ≡ n - 1 =
        ap (λ x. x % suc m) i
        ∙ add-mod_right (n - 1) (suc m)
        ∙ mod-eq_of_lt {n = n - 1} {m = suc m} (omega (arith, h, k)) in
      let b : (start + (n - 1)) % suc m ≡ start + (n - 1) =
        mod-eq_of_lt {n = start + (n - 1)} {m = suc m} (omega (arith, h, k)) in
      rw (e, a, b) (omega (arith, h))
]

take_all : (k : ℕ) (t : List ℕ) → length t ≤ k → take k t ≡ t
take_all zero [] h = refl
take_all (suc k) [] h = refl
take_all zero (x ∷ t) h = ground (arith, h)
take_all (suc k) (x ∷ t) h = ap (λ u. x ∷ u) (take_all k t (omega (arith, h)))

if_empty : (t : List ℕ) → 0 < length t → (if is_empty_text t then default_word else t) ≡ t
if_empty [] h = ground (arith, h)
if_empty (x ∷ t) h = refl

fitted-take :
    (m : ℕ) (p : Pos) (t : List ℕ)
    → p.first ≤ m
    → 0 < length t
    → length t < m
    → fitted m p horizontal t ≡ take (suc (m - p.first)) t
unfolding fitted too_long
fitted-take m p t f n h =
    let a : (length t + 1) % suc m ≡ length t + 1 =
      mod-eq_of_lt {n = length t + 1} {m = suc m} (omega (arith, h)) in
    elim (Bool-cases (ltb (m - p.first) (length t + 1))) [
      | inl e ↦
          let b : ((m - p.first) + 1) % suc m ≡ (m - p.first) + 1 =
            mod-eq_of_lt {n = (m - p.first) + 1} {m = suc m} (ground (arith, e, h)) in
          rw (a, e, b)
            (ap (λ k. take k t) {x = (m - p.first) + 1} {y = suc (m - p.first)} (omega arith))
      | inr e ↦ rw (a, e) (if_empty t n ∙ sym (take_all (suc (m - p.first)) t (ground (arith, e))))
    ]

-- A horizontal word made of at least one letter, at a column up to size_max: it is the beginning of
-- the letters that goes no further than the last column, it is not empty, and it ends at the column
-- of its last letter.
pub make_word-rect :
    (m : ℕ) (p : Pos) (t : List ℕ)
    → p.first ≤ m
    → 0 < length t
    → length t < m
    → let w = make_word m p horizontal t in
      (w.word ≡ take (suc (m - p.first)) t)
      × (0 < length w.word)
      × (p.first + length w.word ≤ suc m)
      × ((get_end_position m w).first ≡ p.first + length w.word - 1)
unfolding make_word get_end_position
make_word-rect m p t f n h =
    let a = fitted-take m p t f n h in
    let l = length-take (suc (m - p.first)) t in
    rw a (
      refl,
      omega (arith, l, n),
      omega (arith, l, f),
      last_place-sum m p.first _ (omega (arith, l, n)) (omega (arith, l, f)),
    )
