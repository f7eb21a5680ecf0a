-- ===== src/Seq/Refs/Write.antt =====
-- The tree of seq.c after a class pointer was written: its sequences, and what the pointers read.
use mimuw.Prelude.{ℕ, ◌≡◌, refl, ◌≢◌, true, false}
use mimuw.Prelude.{Option, List, [], ◌∷◌, Bool-cases, inl, inr}
use mimuw.Prelude.{sym}
use mathlib.Core.Path.{ap₂}
use mimuw.Seq.Node.{Digit, lo, mid, hi, Node, null, node, child, set_child, class}
use mimuw.Seq.Node.{set_class, has, is_null, at, update}
use mimuw.Seq.Node.Laws.{has-set_child, has-set_child_nil, has_nil, digit_eq, digit_eq_lem}
use mimuw.Seq.Walk.Laws.{has-child, is_null_of_has}

-- The tree keeps its shape when a class pointer is written.
has-set_class : (c : Option ℕ) (p : Node) (xs : List Digit) → has (set_class c p) xs ≡ has p xs
has-set_class c null xs = refl
has-set_class c (node w l m r c') [] = refl
has-set_class c (node w l m r c') (lo ∷ xs) = refl
has-set_class c (node w l m r c') (mid ∷ xs) = refl
has-set_class c (node w l m r c') (hi ∷ xs) = refl

class-set_class : (c : Option ℕ) (p : Node) → is_null p ≡ false → class (set_class c p) ≡ c
class-set_class c null h = cc
class-set_class c (node w l m r c') h = refl

child-set_child_self :
    (p : Node) (d : Digit) (q : Node) → is_null p ≡ false → child d (set_child d q p) ≡ q
child-set_child_self null d q h = cc
child-set_child_self (node w l m r c) lo q h = refl
child-set_child_self (node w l m r c) mid q h = refl
child-set_child_self (node w l m r c) hi q h = refl

child-set_child_ne :
    (p : Node) (d d' : Digit) (q : Node)
    → digit_eq d d' ≡ false
    → child d' (set_child d q p) ≡ child d' p
child-set_child_ne null d d' q h = refl
child-set_child_ne (node w l m r c) lo lo q h = cc
child-set_child_ne (node w l m r c) lo mid q h = refl
child-set_child_ne (node w l m r c) lo hi q h = refl
child-set_child_ne (node w l m r c) mid lo q h = refl
child-set_child_ne (node w l m r c) mid mid q h = cc
child-set_child_ne (node w l m r c) mid hi q h = refl
child-set_child_ne (node w l m r c) hi lo q h = refl
child-set_child_ne (node w l m r c) hi mid q h = refl
child-set_child_ne (node w l m r c) hi hi q h = cc

class-set_child : (p : Node) (d : Digit) (q : Node) → class (set_child d q p) ≡ class p
class-set_child null d q = refl
class-set_child (node w l m r c) lo q = refl
class-set_child (node w l m r c) mid q = refl
class-set_child (node w l m r c) hi q = refl

null_eq : (p : Node) → is_null p ≡ true → p ≡ null
null_eq null h = refl
null_eq (node w l m r c) h = cc

-- Reading the class of a node after the class of another was written.
pub class-update_self :
    (p : Node) (ds : List Digit) (c : Option ℕ)
    → has p ds ≡ true
    → class (at ds (update ds (set_class c) p)) ≡ c
unfolding update at
class-update_self p [] c h = class-set_class c p (is_null_of_has p [] h)
class-update_self p (d ∷ ds) c h =
    rw
      (child-set_child_self p d (update ds (set_class c) (child d p)) (is_null_of_has p (d ∷ ds) h))
      (class-update_self (child d p) ds c (rw has-child at h))

class-at_same :
    (p : Node) (d e : Digit) (ds es : List Digit) (c : Option ℕ)
    → d ≡ e
    → class (at es (update ds (set_class c) (child d p))) ≡ class (at es (child d p))
    → class (at es (child e (set_child d (update ds (set_class c) (child d p)) p)))
      ≡ class (at es (child e p))
class-at_same p d e ds es c q h = elim (Bool-cases (is_null p)) [
  | inl n ↦ rw (null_eq p n)
  | inr n ↦ rw (← q, child-set_child_self p d (update ds (set_class c) (child d p)) n) h
]

pub class-update_ne :
    (p : Node) (ds es : List Digit) (c : Option ℕ)
    → ds ≢ es
    → class (at es (update ds (set_class c) p)) ≡ class (at es p)
unfolding update at
class-update_ne p [] [] c h = absurd (h refl)
class-update_ne null [] (e ∷ es) c h = refl
class-update_ne (node w l m r c') [] (lo ∷ es) c h = refl
class-update_ne (node w l m r c') [] (mid ∷ es) c h = refl
class-update_ne (node w l m r c') [] (hi ∷ es) c h = refl
class-update_ne p (d ∷ ds) [] c h = class-set_child p d (update ds (set_class c) (child d p))
class-update_ne p (d ∷ ds) (e ∷ es) c h = elim (Bool-cases (digit_eq d e)) [
  | inl same ↦
      class-at_same p d e ds es c (digit_eq_lem d e same)
        (class-update_ne (child d p) ds es c (λ q. h (ap₂ ◌∷◌ (digit_eq_lem d e same) q)))
  | inr other ↦ rw (child-set_child_ne p d e (update ds (set_class c) (child d p)) other)
]

pub has-update :
    (p : Node) (ds : List Digit) (c : Option ℕ)
    → has p ds ≡ true
    → (xs : List Digit) → has (update ds (set_class c) p) xs ≡ has p xs
unfolding update
has-update p [] c h xs = has-set_class c p xs
has-update p (d ∷ ds) c h [] =
    rw (has-set_child_nil p d (update ds (set_class c) (child d p)) (is_null_of_has p (d ∷ ds) h))
      (sym (has_nil p (is_null_of_has p (d ∷ ds) h)))
has-update p (d ∷ ds) c h (x ∷ xs) =
    rw
      (
        has-set_child p d x (update ds (set_class c) (child d p)) xs (is_null_of_has p (d ∷ ds) h),
        has-child p x xs,
      )
      (elim (Bool-cases (digit_eq x d)) [
        | inl e ↦ rw (e, digit_eq_lem x d e, has-update (child d p) ds c (rw has-child at h) xs)
        | inr e ↦ rw e
      ])
