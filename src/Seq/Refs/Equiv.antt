-- ===== src/Seq/Refs/Equiv.antt =====
-- `seq_equiv` of seq.c: no fault, exact counters, and one class for both sequences.
use mimuw.Prelude.{ℕ, suc, ◌+◌, ◌≡◌, refl, ◌≢◌, Bool, true, ◌||◌, none}
use mimuw.Prelude.{some, List, ◌++◌, arith, Bool-cases, Option-cases, inl, inr, ap}
use mimuw.Prelude.{◌==◌, ==_iff, ◌∙◌, sym}
use mimuw.Seq.Node.{Digit, CString, Node, class}
use mimuw.Seq.Node.{set_class, has, at, update}
use mimuw.Seq.Env.{failed, unchanged, done, Class, Env, store}
use mimuw.Seq.Env.{malloc, enomem}
use mimuw.Seq.Query.{str_eq}
use mimuw.Seq.Equiv.{retain}
use mimuw.Seq.Equiv.{merge_into, merge_new, merge_named, merge_classes, join}
use mimuw.Seq.Refs.{one, refs, IsValid}
use mimuw.Seq.Refs.Release.{Counted-at, put-Counted, put-fresh, in_use, one_ne, one_self}
use mimuw.Seq.Refs.Pointer.{keep, refs-set_class, node-Holds}
use mimuw.Seq.Refs.Change.{class-relabel, relabel}
use mimuw.Seq.Refs.Name.{class_new-ok, class_new-full}
use mimuw.Seq.Refs.Merge.{replace_both-lem}
use mimuw.Seq.Refs.Pair.{Joins, refused-Joins, join_neither}
use mimuw.Seq.Refs.Write.{class-update_self, class-update_ne}

module _ (p : Node) (h1 h2 : List Digit) (e : Env) (i : IsValid p e) (there1 : has p h1 ≡ true)
    (there2 : has p h2 ≡ true) (ne : h1 ≢ h2) where
  abbrev bumped : ℕ → Class → Env
  bumped c k = store c (record k { counter = suc k.counter }) e

  -- One more node for a class that is allocated.
  bumped-IsValid :
      (h : List Digit) (c : ℕ) (k : Class)
      → e.classes c ≡ some k
      → has p h ≡ true
      → class (at h p) ≡ none
      → IsValid (update h (set_class (some c)) p) (bumped c k)
  bumped-IsValid h c k q there empty = record {
    counted =
        put-Counted e.classes (λ a. refs a p) _ c _ i.counted
          (λ a na. omega (arith, grows a, one_ne a c na))
          (
            omega (arith, grows c, one_self c, (Counted-at c (some k) i q).0),
            omega (arith, grows c, one_self c),
            (Counted-at c (some k) i q).2,
          );
    fresh = put-fresh c _ i (in_use c k i q);
  }
    where
      grows : (a : ℕ) → refs a (update h (set_class (some c)) p) ≡ refs a p + one a (some c)
      grows a =
          let before : one a (class (at h p)) ≡ 0 = rw empty in
          omega (arith, refs-set_class a p h (some c) there)

  join_left :
      (c : ℕ)
      → class (at h1 p) ≡ none
      → class (at h2 p) ≡ some c
      → Joins p h1 h2 (join p h1 h2 none (some c) e)
  unfolding join retain
  join_left c q1 q2 =
      let held = node-Holds p h2 c i q2 in
      (
        (done, update h1 (set_class (some c)) p, bumped c held.held),
        rw held.allocated,
        bumped-IsValid h1 c held.held held.allocated there1 q1,
        inr (
          λ w. cc,
          (c, class-update_self p h1 (some c) there1, class-update_ne p h1 h2 (some c) ne ∙ q2),
        ),
      )

  join_right :
      (c : ℕ)
      → class (at h1 p) ≡ some c
      → class (at h2 p) ≡ none
      → Joins p h1 h2 (join p h1 h2 (some c) none e)
  unfolding join retain
  join_right c q1 q2 =
      let held = node-Holds p h1 c i q1 in
      (
        (done, update h2 (set_class (some c)) p, bumped c held.held),
        rw held.allocated,
        bumped-IsValid h2 c held.held held.allocated there2 q2,
        inr (
          λ w. cc,
          (
            c,
            class-update_ne p h2 h1 (some c) (λ w. ne (sym w)) ∙ q1,
            class-update_self p h2 (some c) there2,
          ),
        ),
      )

  -- Where the two classes were, the merged one is.
  class-merged :
      (c c1 c2 : ℕ) (h : List Digit) (a : ℕ)
      → class (at h p) ≡ some a
      → ((a == c1) || (a == c2)) ≡ true
      → class (at h (relabel c2 c (relabel c1 c p))) ≡ some c
  class-merged c c1 c2 h a q t =
      rw (class-relabel c2 c (relabel c1 c p) h, class-relabel c1 c p h, q) (ground arith)

  merge_into-Joins :
      (s : CString) (c1 c2 : ℕ) (k1 k2 : Class) (ms : List Bool)
      → class (at h1 p) ≡ some c1
      → class (at h2 p) ≡ some c2
      → c1 ≢ c2
      → e.classes c1 ≡ some k1
      → e.classes c2 ≡ some k2
      → Joins p h1 h2 (merge_into s p c1 c2 (record e { mallocs = ms }))
  unfolding merge_into merge_new
  merge_into-Joins s c1 c2 k1 k2 ms q1 q2 nc g1 g2 = elim (Bool-cases (malloc ms).0) [
    | inl ok ↦
        let (e', run, v, k) =
          replace_both-lem p c1 c2 (record e { mallocs = ms }) k1 k2 s (malloc ms).1
            (keep e.errno ms i) nc g1 g2 in
        (
          (done, relabel c2 e.next (relabel c1 e.next p), e'),
          rw (merge_into, class_new-ok s (record e { mallocs = ms }) ok) run,
          v,
          inr (
            λ w. cc,
            (
              e.next,
              class-merged e.next c1 c2 h1 c1 q1 (ground arith),
              class-merged e.next c1 c2 h2 c2 q2 (ground arith),
            ),
          ),
        )
    | inr full ↦ (
      (failed, p, record e { errno = enomem; mallocs = (malloc ms).1 }),
      rw (merge_into, class_new-full s (record e { mallocs = ms }) full),
      keep _ _ i,
      inl (refl, refl),
    )
  ]

  merge_named-Joins :
      (s1 s2 : CString) (c1 c2 : ℕ) (k1 k2 : Class)
      → class (at h1 p) ≡ some c1
      → class (at h2 p) ≡ some c2
      → c1 ≢ c2
      → e.classes c1 ≡ some k1
      → e.classes c2 ≡ some k2
      → Joins p h1 h2 (merge_named s1 s2 p c1 c2 e)
  unfolding merge_named
  merge_named-Joins s1 s2 c1 c2 k1 k2 q1 q2 nc g1 g2 = elim (Bool-cases (str_eq s1 s2)) [
    | inl same ↦ rw (merge_named, same) (merge_into-Joins s1 c1 c2 k1 k2 e.mallocs q1 q2 nc g1 g2)
    | inr other ↦ elim (Bool-cases (malloc e.mallocs).0) [
      | inl ok ↦
          rw (merge_named, other, ok)
            (merge_into-Joins (s1 ++ s2) c1 c2 k1 k2 (malloc e.mallocs).1 q1 q2 nc g1 g2)
      | inr full ↦ rw (merge_named, other, full) (refused-Joins p h1 h2 e (malloc e.mallocs).1 i)
    ]
  ]

  join_both :
      (c1 c2 : ℕ)
      → class (at h1 p) ≡ some c1
      → class (at h2 p) ≡ some c2
      → Joins p h1 h2 (join p h1 h2 (some c1) (some c2) e)
  unfolding join merge_classes
  join_both c1 c2 q1 q2 =
      let held1 = node-Holds p h1 c1 i q1 in
      let held2 = node-Holds p h2 c2 i q2 in
      elim (Bool-cases (c1 == c2)) [
        | inl same ↦
            rw (join, same)
              (
                (unchanged, p, e),
                refl,
                i,
                inr (λ w. cc, (c1, q1, q2 ∙ ap some (sym ((==_iff c1 c2).0 same)))),
              )
        | inr other ↦
            rw
              (
                join, other, merge_classes, held1.allocated, held2.allocated, held1.named,
                held2.named,
              )
              (merge_named-Joins held1.name held2.name c1 c2 held1.held held2.held q1 q2
                (λ w. ground arith) held1.allocated held2.allocated)
      ]

  -- The four cases of `seq_equiv` together.
  pub join-Joins : Joins p h1 h2 (join p h1 h2 (class (at h1 p)) (class (at h2 p)) e)
  join-Joins = elim (Option-cases (class (at h1 p))) [
    | inl q1 ↦ elim (Option-cases (class (at h2 p))) [
      | inl q2 ↦ rw (q1, q2) (join_neither p h1 h2 e i there1 there2 ne q1 q2)
      | inr (c2, q2) ↦ rw (q1, q2) (join_left c2 q1 q2)
    ]
    | inr (c1, q1) ↦ elim (Option-cases (class (at h2 p))) [
      | inl q2 ↦ rw (q1, q2) (join_right c1 q1 q2)
      | inr (c2, q2) ↦ rw (q1, q2) (join_both c1 c2 q1 q2)
    ]
  ]
