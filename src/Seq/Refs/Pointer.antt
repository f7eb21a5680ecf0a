-- ===== src/Seq/Refs/Pointer.antt =====
-- The references of a tree of seq.c: at one node, and after a class pointer was written.
use mimuw.Prelude.{ℕ, ◌+◌, ◌≤◌, ◌<◌, ◌≡◌, refl, Bool, true, false, none}
use mimuw.Prelude.{Option, some, List, [], ◌∷◌, arith, Bool-cases, Option-cases, inl, inr}
use mimuw.Prelude.{get_elem?}
use mathlib.Core.Path.{subst}
use mimuw.Seq.Node.{Digit, lo, mid, hi, CString, digit, Node, null, node, child, class}
use mimuw.Seq.Node.{set_class, has, is_null, at, update}
use mimuw.Seq.Node.Laws.{has_nil}
use mimuw.Seq.Env.{Class, Env, Errno}
use mimuw.Seq.Walk.{walk_loop, seq_walk}
use mimuw.Seq.Walk.Laws.{has-child, is_null_of_has}
use mimuw.Seq.Refs.{one, refs, IsCounted, IsValid}
use mimuw.Seq.Refs.Release.{Counted-at}
use mimuw.Seq.Refs.Remove.{refs-set_child}

-- Only the heap of classes matters.
pub keep :
    {e : Env} {f : ℕ → ℕ} (n : Errno) (ms : List Bool)
    → IsCounted e f
    → IsCounted (record e { errno = n; mallocs = ms }) f
keep n ms i = record { counted = i.counted; fresh = i.fresh }

refs-child : (a : ℕ) (p : Node) (d : Digit) → refs a (child d p) ≤ refs a p
refs-child a null lo = omega arith
refs-child a null mid = omega arith
refs-child a null hi = omega arith
refs-child a (node w l m r c) lo = omega arith
refs-child a (node w l m r c) mid = omega arith
refs-child a (node w l m r c) hi = omega arith

one-class : (a : ℕ) (p : Node) → one a (class p) ≤ refs a p
one-class a null = omega arith
one-class a (node w l m r c) = omega arith

pub refs-at : (a : ℕ) (p : Node) (ds : List Digit) → one a (class (at ds p)) ≤ refs a p
unfolding at
refs-at a p [] = one-class a p
refs-at a p (d ∷ ds) = omega (arith, refs-at a (child d p) ds, refs-child a p d)

set_class-refs :
    (a : ℕ) (p : Node) (c : Option ℕ)
    → is_null p ≡ false
    → refs a (set_class c p) + one a (class p) ≡ refs a p + one a c
set_class-refs a null c h = cc
set_class-refs a (node w l m r c') c h = omega arith

-- A new class pointer at the node `ds`.
pub refs-set_class :
    (a : ℕ) (p : Node) (ds : List Digit) (c : Option ℕ)
    → has p ds ≡ true
    → refs a (update ds (set_class c) p) + one a (class (at ds p)) ≡ refs a p + one a c
unfolding update at
refs-set_class a p [] c h = set_class-refs a p c (is_null_of_has p [] h)
refs-set_class a p (d ∷ ds) c h = omega (
  arith,
  refs-set_child a p d (update ds (set_class c) (child d p)) (is_null_of_has p (d ∷ ds) h),
  refs-set_class a (child d p) ds c (rw has-child at h),
)

-- Wherever the walk ends, there is a node.
has-walk :
    (step : ℕ) (p : Node) (s : CString) → is_null p ≡ false → has p (walk_loop step p s).path ≡ true
unfolding walk_loop
has-walk step p [] n = has_nil p n
has-walk step p (c ∷ cs) n = elim (Option-cases (get_elem? (c ∷ cs) step)) [
  | inl stop ↦ rw (walk_loop, stop) (has_nil p n)
  | inr (x, more) ↦ elim (Option-cases (digit c)) [
    | inl other ↦ rw (walk_loop, more, other) (has-walk step p cs n)
    | inr (d, q) ↦ elim (Bool-cases (is_null (child d p))) [
      | inl gone ↦ rw (walk_loop, more, q, gone) (has_nil p n)
      | inr there ↦ rw (walk_loop, more, q, there, has-child) (has-walk step (child d p) cs there)
    ]
  ]
]

pub has-seq_walk :
    (step : ℕ) (counted : Bool) (p : Node) (s : CString) {h : List Digit}
    → is_null p ≡ false
    → (seq_walk step counted p s).0 ≡ some h
    → has p h ≡ true
unfolding seq_walk
has-seq_walk step counted p s {h} n e =
    subst (λ x. has p x ≡ true) (ground arith) (has-walk step p s n)

-- The class of a node is allocated, and it has a name.
pub record Holds (e : Env) (a : ℕ) : Type 0 where
  pub held : Class
  pub name : CString
  pub allocated : e.classes a ≡ some held
  pub named : held.s ≡ some name

pub class-Holds : {e : Env} (a : ℕ) (f : ℕ → ℕ) → IsCounted e f → 0 < f a → Holds e a
class-Holds {e} a f i h = go (e.classes a) refl
  where
    named : (k : Class) (s : Option CString) → k.s ≡ s → e.classes a ≡ some k → Holds e a
    named k none q r = absurd ((Counted-at a (some k) i r).2 q)
    named k (some s) q r = record { held = k; name = s; allocated = r; named = q }

    go : (o : Option Class) → e.classes a ≡ o → Holds e a
    go none q = absurd (omega (arith, Counted-at a none i q))
    go (some k) q = named k k.s refl q

pub node-Holds :
    (p : Node) {e : Env} (ds : List Digit) (a : ℕ)
    → IsValid p e
    → class (at ds p) ≡ some a
    → Holds e a
node-Holds p ds a i q =
    let one : one a (class (at ds p)) ≡ 1 = rw q (ground arith) in
    class-Holds a (λ x. refs x p) i (omega (arith, refs-at a p ds))
