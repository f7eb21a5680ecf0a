-- ===== src/Seq/Refs/Pair.antt =====
-- What `seq_equiv` of seq.c promises, and its case of two nodes without a class.
use mimuw.Prelude.{ℕ, ◌+◌, ◌≡◌, refl, ◌≢◌, Bool, true, none}
use mimuw.Prelude.{Option, some, List, [], arith, Bool-cases, inl, inr}
use mimuw.Prelude.{◌⊎◌, ◌∙◌, sym}
use mimuw.Seq.Node.{Digit, Node, class}
use mimuw.Seq.Node.{set_class, has, at, update}
use mimuw.Seq.Env.{Code, failed, done, Class, Env, store, allocate}
use mimuw.Seq.Env.{malloc, enomem}
use mimuw.Seq.Equiv.{set_counter, equiv_new}
use mimuw.Seq.Equiv.{share_new, join}
use mimuw.Seq.Refs.{one, refs, IsValid}
use mimuw.Seq.Refs.Release.{Counted-at, put-Counted, put-fresh, one_ne, one_self}
use mimuw.Seq.Refs.Pointer.{keep, refs-set_class}
use mimuw.Seq.Refs.Name.{allocate-IsCounted, class_new-ok, class_new-full}
use mimuw.Seq.Refs.Merge.{put_self}
use mimuw.Seq.Refs.Write.{class-update_self, class-update_ne, has-update}

-- Two nodes point to one class.
abbrev pub Together : Option ℕ → Option ℕ → Type 0
Together c c' = (a : ℕ) × (c ≡ some a) × (c' ≡ some a)

-- An operation that ends without a fault: it failed and the tree is the old one, or the nodes at
-- `h1` and `h2` are in one class; the counters are exact in both cases.
abbrev pub Joins : Node → (h1 h2 : List Digit) → Option (Code × Node × Env) → Type 0
Joins p h1 h2 r =
    (o : Code × Node × Env) × (r ≡ some o)
    × IsValid o.1 o.2
    × (((o.0 ≡ failed) × (o.1 ≡ p))
        ⊎ ((o.0 ≢ failed) × Together (class (at h1 o.1)) (class (at h2 o.1))))

pub refused-Joins :
    (p : Node) (h1 h2 : List Digit) (e : Env) (ms : List Bool)
    → IsValid p e
    → Joins p h1 h2 (some (failed, p, record e { errno = enomem; mallocs = ms }))
refused-Joins p h1 h2 e ms i = (_, refl, keep enomem ms i, inl (refl, refl))

module _ (p : Node) (h1 h2 : List Digit) (e : Env) (i : IsValid p e) (there1 : has p h1 ≡ true)
    (there2 : has p h2 ≡ true) (ne : h1 ≢ h2) where
  -- The environment after `equiv_new`: a class with an empty name and the counter 2.
  abbrev pair_class : Class
  pair_class = record { counter = 2; s = some [] }

  abbrev paired : List Bool → Env
  paired ms = store e.next pair_class (allocate [] ms e)

  abbrev pair_tree : Node
  pair_tree = update h2 (set_class (some e.next)) (update h1 (set_class (some e.next)) p)

  there2' : has (update h1 (set_class (some e.next)) p) h2 ≡ true
  there2' = rw (has-update p h1 (some e.next) there1 h2) there2

  refs-pair :
      (a : ℕ)
      → class (at h1 p) ≡ none
      → class (at h2 p) ≡ none
      → refs a pair_tree ≡ refs a p + one a (some e.next) + one a (some e.next)
  refs-pair a q1 q2 =
      let first : one a (class (at h1 p)) ≡ 0 = rw q1 in
      let second : one a (class (at h2 (update h1 (set_class (some e.next)) p))) ≡ 0 =
        rw (class-update_ne p h1 h2 (some e.next) ne, q2) in
      omega (
        arith,
        refs-set_class a p h1 (some e.next) there1,
        refs-set_class a (update h1 (set_class (some e.next)) p) h2 (some e.next) there2',
      )

  paired-IsValid :
      (ms : List Bool)
      → class (at h1 p) ≡ none
      → class (at h2 p) ≡ none
      → IsValid pair_tree (paired ms)
  paired-IsValid ms q1 q2 = record {
    counted =
        put-Counted (allocate [] ms e).classes (λ a. refs a p + one a (some e.next)) _ e.next _
          (allocate-IsCounted [] ms i).counted
          (λ a na. omega (arith, refs-pair a q1 q2, one_ne a e.next na))
          (
            omega (arith, refs-pair e.next q1 q2, one_self e.next, unused),
            omega (arith, refs-pair e.next q1 q2, one_self e.next),
            λ w. cc,
          );
    fresh = put-fresh e.next _ (allocate-IsCounted [] ms i) (omega arith);
  }
    where
      unused : refs e.next p ≡ 0
      unused = Counted-at e.next none i (i.fresh e.next (omega arith))

  pub join_neither :
      class (at h1 p) ≡ none → class (at h2 p) ≡ none → Joins p h1 h2 (join p h1 h2 none none e)
  unfolding join equiv_new share_new set_counter
  join_neither q1 q2 =
      let ms : List Bool = (malloc e.mallocs).1 in
      elim (Bool-cases (malloc e.mallocs).0) [
        | inr full ↦ rw (equiv_new, full) (refused-Joins p h1 h2 e ms i)
        | inl first ↦ elim (Bool-cases (malloc ms).0) [
          | inr full ↦
              rw (equiv_new, first, class_new-full [] (record e { mallocs = ms }) full)
                (refused-Joins p h1 h2 e (malloc ms).1 i)
          | inl ok ↦
              rw
                (
                  equiv_new,
                  first,
                  class_new-ok [] (record e { mallocs = ms }) ok,
                  put_self e.classes e.next (some (record { counter = 1; s = some [] })),
                )
                (
                  (done, pair_tree, paired (malloc ms).1),
                  refl,
                  paired-IsValid (malloc ms).1 q1 q2,
                  inr (
                    λ w. cc,
                    (
                      e.next,
                      class-update_ne (update h1 (set_class (some e.next)) p) h2 h1 (some e.next)
                            (λ w. ne (sym w))
                          ∙ class-update_self p h1 (some e.next) there1,
                      class-update_self (update h1 (set_class (some e.next)) p) h2 (some e.next)
                          there2',
                    ),
                  ),
                )
        ]
      ]
