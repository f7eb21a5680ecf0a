-- ===== src/Seq/Refs/Name.antt =====
-- `class_new` and `seq_set_name` of seq.c keep the counters exact, and run without a fault.
use mimuw.Prelude.{ℕ, ◌+◌, ◌≡◌, refl, Bool, true, false, ◌||◌, none}
use mimuw.Prelude.{Option, some, List, arith, Bool-cases, Option-cases, inl, inr}
use mimuw.Seq.Node.{Digit, CString, Node, class, set_class, has, is_null, at, update}
use mimuw.Seq.Env.{Code, failed, unchanged, done, Class, Env, store, allocate, class_new}
use mimuw.Seq.Env.{malloc, set_errno, enomem, einval}
use mimuw.Seq.Walk.{seq_walk, bad}
use mimuw.Seq.Query.{str_eq, is_empty, rename, name_node, name_new, set_name_walked, set_name_valid}
use mimuw.Seq.Query.{seq_set_name}
use mimuw.Seq.Refs.{one, IsCounted, IsValid}
use mimuw.Seq.Refs.Release.{Counted-at, put-Counted, put-fresh, in_use, recount, one_ne, one_self}
use mimuw.Seq.Refs.Pointer.{keep, refs-set_class, has-seq_walk, node-Holds}

-- An operation that ends without a fault, with exact counters.
abbrev pub Safe : Option (Code × Node × Env) → Type 0
Safe r = (o : Code × Node × Env) × (r ≡ some o) × IsValid o.1 o.2

pub allocate-IsCounted :
    {e : Env} {f : ℕ → ℕ} (s : CString) (ms : List Bool)
    → IsCounted e f
    → IsCounted (allocate s ms e) (λ a. f a + one a (some e.next))
allocate-IsCounted {e} {f} s ms i = record {
  counted =
      put-Counted e.classes f _ e.next _ i.counted (λ a ne. omega (arith, one_ne a e.next ne))
        (
          omega (arith, one_self e.next, Counted-at e.next none i (i.fresh e.next (omega arith))),
          omega (arith, one_self e.next),
          λ q. cc,
        );
  fresh = λ a le. ground (arith, i.fresh a);
}

pub class_new-ok :
    (s : CString) (e : Env)
    → (malloc e.mallocs).0 ≡ true
    → class_new s e ≡ (some e.next, allocate s (malloc e.mallocs).1 e)
unfolding class_new
class_new-ok s e ok = rw ok

pub class_new-full :
    (s : CString) (e : Env)
    → (malloc e.mallocs).0 ≡ false
    → class_new s e ≡ (none, record e { errno = enomem; mallocs = (malloc e.mallocs).1 })
unfolding class_new
class_new-full s e full = rw full

-- The counters do not change when a class that is allocated gets another name.
pub rename-IsCounted :
    {e : Env} {f : ℕ → ℕ} (a : ℕ) (k : Class) (n : CString)
    → IsCounted e f
    → e.classes a ≡ some k
    → IsCounted (store a (record k { s = some n }) e) f
rename-IsCounted {e} {f} a k n i q = record {
  counted =
      put-Counted e.classes f f a _ i.counted (λ b ne. refl)
        ((Counted-at a (some k) i q).0, (Counted-at a (some k) i q).1, λ w. cc);
  fresh = put-fresh a _ i (in_use a k i q);
}

no_class : (a : ℕ) (p : Node) (h : List Digit) → class (at h p) ≡ none → one a (class (at h p)) ≡ 0
no_class a p h q = rw q

module _ (p : Node) (n : CString) where
  name_held :
      (e : Env) (h : List Digit) (a : ℕ)
      → IsValid p e
      → class (at h p) ≡ some a
      → Safe (name_node p h (class (at h p)) n e)
  unfolding name_node rename
  name_held e h a i q =
      let open_held = node-Holds p h a i q in
      elim (Bool-cases (str_eq n open_held.name)) [
        | inl same ↦
            ((unchanged, p, e), rw (q, name_node, open_held.allocated, open_held.named, same), i)
        | inr other ↦ (
          (done, p, store a (record open_held.held { s = some n }) e),
          rw (q, name_node, open_held.allocated, open_held.named, other),
          rename-IsCounted a open_held.held n i open_held.allocated,
        )
      ]

  name_fresh :
      (e : Env) (h : List Digit)
      → IsValid p e
      → has p h ≡ true
      → class (at h p) ≡ none
      → Safe (name_node p h (class (at h p)) n e)
  unfolding name_node class_new name_new
  name_fresh e h i there q = elim (Bool-cases (malloc e.mallocs).0) [
    | inl ok ↦ (
      (done, update h (set_class (some e.next)) p, allocate n (malloc e.mallocs).1 e),
      rw (q, ok),
      recount (allocate-IsCounted n (malloc e.mallocs).1 i)
          (λ a. omega (arith, refs-set_class a p h (some e.next) there, no_class a p h q)),
    )
    | inr full ↦ (
      (failed, p, record e { errno = enomem; mallocs = (malloc e.mallocs).1 }),
      rw (q, full),
      keep _ _ i,
    )
  ]

  name-Safe :
      (e : Env) (h : List Digit)
      → IsValid p e
      → has p h ≡ true
      → Safe (name_node p h (class (at h p)) n e)
  name-Safe e h i there = elim (Option-cases (class (at h p))) [
    | inl q ↦ name_fresh e h i there q
    | inr (a, q) ↦ name_held e h a i q
  ]

  walked-Safe :
      (e : Env) (s : CString)
      → IsValid p e
      → is_null p ≡ false
      → Safe (set_name_walked p (seq_walk 0 false p s).0 n e)
  unfolding set_name_walked
  walked-Safe e s i there = elim (Option-cases (seq_walk 0 false p s).0) [
    | inl q ↦ ((unchanged, p, e), rw q, i)
    | inr (h, q) ↦ rw q (name-Safe e h i (has-seq_walk 0 false p s there q))
  ]

  valid-Safe :
      (e : Env) (s : CString) → IsValid p e → is_null p ≡ false → Safe (set_name_valid p s n e)
  unfolding set_name_valid
  valid-Safe e s i there = elim (Bool-cases (malloc e.mallocs).0) [
    | inl ok ↦
        rw ok (walked-Safe (record e { mallocs = (malloc e.mallocs).1 }) s (keep _ _ i) there)
    | inr full ↦ (
      (failed, p, record e { errno = enomem; mallocs = (malloc e.mallocs).1 }),
      rw full,
      keep _ _ i,
    )
  ]

-- On a valid tree `seq_set_name` ends without a fault on every input, whatever the allocator
-- answers, and the counters of the classes are exact after it.
pub seq_set_name-Safe :
    (p : Node) (s n : Option CString) (e : Env) → IsValid p e → Safe (seq_set_name p s n e)
unfolding seq_set_name
seq_set_name-Safe p none n e i = ((failed, p, set_errno einval e), refl, keep _ _ i)
seq_set_name-Safe p (some s) none e i = ((failed, p, set_errno einval e), refl, keep _ _ i)
seq_set_name-Safe p (some s) (some n) e i =
    elim (Bool-cases (is_null p || bad (some s) || is_empty n)) [
      | inl refused ↦ rw refused ((failed, p, set_errno einval e), refl, keep _ _ i)
      | inr fine ↦ rw fine (valid-Safe p n e s i (ground arith))
    ]
