-- ===== src/Hazard/Retired.antt =====
-- HazardPointer.c: no pointer that a thread protects is freed, and the counters are right.
use mimuw.Prelude.{ℕ, zero, suc, ◌+◌, ◌<◌, ◌≡◌, refl, sym, ap, ◌∙◌, arith, Bool, true, false}
use mimuw.Prelude.{◌||◌, some, List, [], ◌∷◌, length, ltb, ◌==◌, Bool-cases, inl, inr}
use mimuw.Prelude.{Option, ==_iff}
use mimuw.Hazard.Pointers.{HazardPointer, retired_threshold, is_reserved, scan}
use mimuw.Hazard.Pointers.{collect, add_retired, retire}

abbrev pub occurs : ℕ → List ℕ → Bool
occurs p [] = false
occurs p (x ∷ xs) = (x == p) || occurs p xs

true_ne_false : true ≡ false → ⊥
true_ne_false h = ground arith

or_true : (b : Bool) → (b || true) ≡ true
or_true true = refl
or_true false = refl

is_reserved-true :
    (threads j : ℕ) (pointer : ℕ → Option ℕ) (p : ℕ)
    → j < threads
    → pointer j ≡ some p
    → is_reserved threads pointer p ≡ true
unfolding is_reserved
is_reserved-true zero j pointer p lt e = absurd (omega arith)
is_reserved-true (suc k) j pointer p lt e = elim (Bool-cases (k == j)) [
  | inl h ↦ last (ap pointer ((==_iff k j).0 h) ∙ e)
  | inr h ↦ rw (is_reserved-true k j pointer p (ground arith) e) refl
]
  where
    last : pointer k ≡ some p → is_reserved (suc k) pointer p ≡ true
    last e' = rw (is_reserved, e', (==_iff p p).1 refl) (or_true (is_reserved k pointer p))

scan-occurs :
    (threads : ℕ) (pointer : ℕ → Option ℕ) (l : List ℕ) (p : ℕ)
    → is_reserved threads pointer p ≡ true
    → occurs p (scan threads pointer l).1 ≡ false
unfolding scan
scan-occurs threads pointer [] p e = refl
scan-occurs threads pointer (x ∷ xs) p e = elim (Bool-cases (is_reserved threads pointer x)) [
  | inl h ↦ rw (scan, h) (scan-occurs threads pointer xs p e)
  | inr h ↦ rw (scan, h, other h) (scan-occurs threads pointer xs p e)
]
  where
    other : is_reserved threads pointer x ≡ false → (x == p) ≡ false
    other h = elim (Bool-cases (x == p)) [
      | inr ne ↦ ne
      | inl same ↦ absurd (
          true_ne_false
            (sym e ∙ (ap (is_reserved threads pointer) (sym ((==_iff x p).0 same)) ∙ h)))
    ]

length-scan :
    (threads : ℕ) (pointer : ℕ → Option ℕ) (l : List ℕ)
    → length (scan threads pointer l).0 + length (scan threads pointer l).1 ≡ length l
unfolding scan
length-scan threads pointer [] = refl
length-scan threads pointer (x ∷ xs) = elim (Bool-cases (is_reserved threads pointer x)) [
  | inl h ↦ rw (scan, h) (omega (arith, length-scan threads pointer xs))
  | inr h ↦ rw (scan, h) (omega (arith, length-scan threads pointer xs))
]

-- `HazardPointer_retire` frees no pointer that a thread protects, its own argument included.
pub retire-occurs :
    (threads me : ℕ) (ok : Bool) (p : ℕ) (hp : HazardPointer) (j q : ℕ)
    → j < threads
    → hp.pointer j ≡ some q
    → occurs q (retire threads me ok p hp).1 ≡ false
unfolding retire collect add_retired
retire-occurs threads me false p hp j q lt e = refl
retire-occurs threads me true p hp j q lt e =
    elim (Bool-cases (ltb retired_threshold ((add_retired me p hp).retired_count me))) [
      | inl h ↦
          rw (retire, h)
            (scan-occurs threads hp.pointer _ q (is_reserved-true threads j hp.pointer q lt e))
      | inr h ↦ rw (retire, h) refl
    ]

-- The counter of each thread is the length of its list.
abbrev pub IsCounted : HazardPointer → Type 0
IsCounted hp = (i : ℕ) → hp.retired_count i ≡ length (hp.retired i)

add_retired-IsCounted :
    (me p : ℕ) (hp : HazardPointer) → IsCounted hp → IsCounted (add_retired me p hp)
unfolding add_retired
add_retired-IsCounted me p hp h i = elim (Bool-cases (me == i)) [
  | inl e ↦ rw (e) (ap suc (h me))
  | inr e ↦ rw (e) (h i)
]

collect-IsCounted :
    (threads me : ℕ) (hp : HazardPointer) → IsCounted hp → IsCounted (collect threads me hp).0
unfolding collect
collect-IsCounted threads me hp h i = elim (Bool-cases (me == i)) [
  | inl e ↦ rw (e) (omega (arith, h me, length-scan threads hp.pointer (hp.retired me)))
  | inr e ↦ rw (e) (h i)
]

-- `HazardPointer_retire` keeps the counters right, also when it frees pointers.
pub retire-IsCounted :
    (threads me : ℕ) (ok : Bool) (p : ℕ) (hp : HazardPointer)
    → IsCounted hp
    → IsCounted (retire threads me ok p hp).0
unfolding retire collect add_retired
retire-IsCounted threads me false p hp h = λ i. h i
retire-IsCounted threads me true p hp h =
    elim (Bool-cases (ltb retired_threshold ((add_retired me p hp).retired_count me))) [
      | inl e ↦ rw (retire, e) (collect-IsCounted threads me (add_retired me p hp) added)
      | inr e ↦ rw (retire, e) added
    ]
  where
    added : IsCounted (add_retired me p hp)
    added = add_retired-IsCounted me p hp h
