-- ===== src/Poset/Names.antt =====
-- The elements of a poset of poset.cc by their names, and the order between names.
use Prim.Native.String.{String}
use text.Mathlib.Text.{◌==◌ as str_eq}
use text.Mathlib.TextEquality.{eq_iff}
use mathlib.Core.Option
use mimuw.Prelude.{ℕ, zero, suc, ◌<◌, ◌≡◌, ◌≢◌, refl, ap, sym, ◌∙◌, arith, Bool, true, false}
use mimuw.Prelude.{◌⊎◌, ◌-◌, Option, none, some, List, [], ◌∷◌, ◌++◌, length, ◌==◌}
use mimuw.Prelude.{if◌then◌else◌, Bool-cases, Option-cases, inl, inr, ==_iff}
use mimuw.Poset.Matrix.{skip}
use mimuw.Poset.State.{Poset, index_of, erase_name}
use mimuw.Poset.Order.{le}

abbrev pub both : (ℕ → ℕ → Bool) → Option ℕ → Option ℕ → Bool
both f (some i) (some j) = f i j
both f (some i) none = false
both f none j = false

-- The first element precedes the second one, or is it.
abbrev pub precedes : Poset → (x y : String) → Bool
precedes p x y = both (le p.relations) (index_of p.names x) (index_of p.names y)

abbrev pub is_some : Option ℕ → Bool
is_some none = false
is_some (some i) = true

abbrev pub has : Poset → String → Bool
has p x = is_some (index_of p.names x)

-- No name stands twice in the list.
unfoldable pub Distinct : List String → Type 0
Distinct [] = Unit {0}
Distinct (x ∷ xs) = (index_of xs x ≡ none) × Distinct xs

pub index_of-lt : (l : List String) (x : String) (i : ℕ) → index_of l x ≡ some i → i < length l
unfolding index_of
index_of-lt [] x i e = cc
index_of-lt (y ∷ l) x i e = elim (Option-cases (index_of l x)) [
  | inl n ↦ ground arith
  | inr (k, s) ↦ ground (arith, index_of-lt l x k)
]

-- A name at the end is found there, if it is new.
pub index_of-append :
    (l : List String) (v x : String)
    → index_of (l ++ v ∷ []) x ≡ (
        if is_some (index_of l x)
        then index_of l x
        else if str_eq v x
        then some (length l)
        else none)
unfolding index_of
index_of-append [] v x = ground arith
index_of-append (y ∷ l) v x = elim (Option-cases (index_of l x)) [
  | inl n ↦ let ih = index_of-append l v x in ground arith
  | inr (k, s) ↦ let ih = index_of-append l v x in ground arith
]

pub append-Distinct :
    (l : List String) (v : String) → Distinct l → index_of l v ≡ none → Distinct (l ++ v ∷ [])
unfolding Distinct index_of
append-Distinct [] v d e = (refl, tt)
append-Distinct (y ∷ l) v (n, d) e =
    (ground (arith, index_of-append l v y, eq_iff v y, eq_iff y v), append-Distinct l v d (later e))
  where
    later : index_of (y ∷ l) v ≡ none → index_of l v ≡ none
    later e' = elim (Option-cases (index_of l v)) [
      | inl none_there ↦ none_there
      | inr (k, s) ↦ ground arith
    ]

-- The place of the first name, and that of a later one.
cons_cases :
    (y v : String) (l : List String) (i : ℕ)
    → index_of (y ∷ l) v ≡ some i
    → (y ≡ v) × (i ≡ 0) ⊎ (k : ℕ) × (y ≢ v) × (index_of l v ≡ some k) × (i ≡ suc k)
unfolding index_of
cons_cases y v l i e = elim (Bool-cases (str_eq y v)) [
  | inl same ↦ inl ((eq_iff y v).0 same, ground arith)
  | inr other ↦ elim (Option-cases (index_of l v)) [
    | inl none_there ↦ ground arith
    | inr (k, s) ↦ inr (k, (λ h. ground (arith, eq_iff y v)), s, ground arith)
  ]
]

map-skip-suc :
    (i : ℕ) (o : Option ℕ)
    → Option.map suc (Option.map (skip i) o) ≡ Option.map (skip (suc i)) (Option.map suc o)
map-skip-suc i none = refl
map-skip-suc i (some k) = ground arith

map-skip-zero : (o : Option ℕ) → Option.map suc o ≡ Option.map (skip 0) o
map-skip-zero none = refl
map-skip-zero (some k) = ground arith

-- A name keeps its place, but for the one that is erased.
pub index_of-erase_name :
    (l : List String) (v x : String) (i : ℕ)
    → index_of l v ≡ some i
    → index_of l x
      ≡ (if str_eq v x then some i else Option.map (skip i) (index_of (erase_name l i) x))
unfolding index_of erase_name
index_of-erase_name [] v x i e = cc
index_of-erase_name (y ∷ l) v x zero e = elim (cons_cases y v l zero e) [
  | inl (same, z) ↦
      rw same (ap (λ t. if str_eq v x then some 0 else t) (map-skip-zero (index_of l x)))
  | inr (k, ne, there, z) ↦ absurd (omega arith)
]
index_of-erase_name (y ∷ l) v x (suc i) e = elim (cons_cases y v l (suc i) e) [
  | inl (same, z) ↦ absurd (omega arith)
  | inr (k, ne, there, z) ↦
      let ih = index_of-erase_name l v x i (ground arith) in
      let law = map-skip-suc i (index_of (erase_name l i) x) in
      elim (Bool-cases (str_eq y x)) [
        | inl first ↦ ground (arith, eq_iff y x, eq_iff v x)
        | inr later ↦ elim (Bool-cases (str_eq v x)) [
          | inl gone ↦ ground arith
          | inr stays ↦ ground arith
        ]
      ]
]

pub erase_name-none :
    (l : List String) (v : String) (i : ℕ)
    → Distinct l
    → index_of l v ≡ some i
    → index_of (erase_name l i) v ≡ none
unfolding Distinct index_of erase_name
erase_name-none [] v i d e = cc
erase_name-none (y ∷ l) v zero (n, d) e = elim (cons_cases y v l zero e) [
  | inl (same, z) ↦ ap (index_of l) (sym same) ∙ n
  | inr (k, ne, there, z) ↦ absurd (omega arith)
]
erase_name-none (y ∷ l) v (suc i) (n, d) e = elim (cons_cases y v l (suc i) e) [
  | inl (same, z) ↦ absurd (omega arith)
  | inr (k, ne, there, z) ↦
      let ih = erase_name-none l v i d (ground arith) in ground (arith, eq_iff y v)
]

-- A name that is not in the list is not in a part of it.
erase_name-absent :
    (l : List String) (v : String) (i : ℕ)
    → index_of l v ≡ none
    → index_of (erase_name l i) v ≡ none
unfolding index_of erase_name
erase_name-absent [] v i e = refl
erase_name-absent (y ∷ l) v zero e = elim (Option-cases (index_of l v)) [
  | inl none_there ↦ none_there
  | inr (k, s) ↦ ground arith
]
erase_name-absent (y ∷ l) v (suc i) e = elim (Option-cases (index_of l v)) [
  | inl none_there ↦ let ih = erase_name-absent l v i none_there in ground arith
  | inr (k, s) ↦ ground arith
]

pub erase_name-Distinct : (l : List String) (i : ℕ) → Distinct l → Distinct (erase_name l i)
unfolding Distinct index_of erase_name
erase_name-Distinct [] i d = tt
erase_name-Distinct (y ∷ l) zero (n, d) = d
erase_name-Distinct (y ∷ l) (suc i) (n, d) = (erase_name-absent l y i n, erase_name-Distinct l i d)

pub length-erase_name :
    (l : List String) (i : ℕ) → i < length l → length (erase_name l i) ≡ length l - 1
unfolding erase_name
length-erase_name [] i h = absurd (omega arith)
length-erase_name (y ∷ l) zero h = omega arith
length-erase_name (y ∷ l) (suc i) h = omega (arith, length-erase_name l i)

-- Two names at one place are one name.
pub index_of_inj :
    (l : List String) (x y : String) (i : ℕ) → index_of l x ≡ some i → index_of l y ≡ some i → x ≡ y
unfolding index_of
index_of_inj [] x y i e e' = cc
index_of_inj (z ∷ l) x y i e e' = elim (cons_cases z x l i e) [
  | inl (same, zero_i) ↦ elim (cons_cases z y l i e') [
    | inl (same', z') ↦ sym same ∙ same'
    | inr (k, ne, there, suc_i) ↦ absurd (omega arith)
  ]
  | inr (k, ne, there, suc_i) ↦ elim (cons_cases z y l i e') [
    | inl (same', z') ↦ absurd (omega arith)
    | inr (k', ne', there', suc_i') ↦ index_of_inj l x y k there (there' ∙ ap some (omega arith))
  ]
]

pub index-eq-name :
    (l : List String) (v x : String) (i k : ℕ)
    → index_of l v ≡ some i
    → index_of l x ≡ some k
    → (k == i) ≡ str_eq v x
index-eq-name l v x i k e e' = elim (Bool-cases (k == i)) [
  | inl h ↦ h ∙ sym ((eq_iff v x).1 (index_of_inj l v x i e (e' ∙ ap some ((==_iff k i).0 h))))
  | inr h ↦ elim (Bool-cases (str_eq v x)) [
    | inr h' ↦ h ∙ sym h'
    | inl h' ↦ let same = sym e ∙ (ap (index_of l) ((eq_iff v x).0 h') ∙ e') in ground arith
  ]
]

-- The name at a place.
pub name_at :
    (l : List String) (i : ℕ) → Distinct l → i < length l → (x : String) × (index_of l x ≡ some i)
unfolding Distinct index_of
name_at [] i d h = absurd (omega arith)
name_at (y ∷ l) zero d h = (y, ground (arith, eq_iff y y))
name_at (y ∷ l) (suc i) (n, d) h =
    let (x, e) = name_at l i d (omega arith) in
    (
      x,
      elim (Bool-cases (str_eq y x)) [
        | inr other ↦ rw (other, e)
        | inl same ↦ let clash = sym n ∙ (ap (index_of l) ((eq_iff y x).0 same) ∙ e) in cc
      ],
    )
