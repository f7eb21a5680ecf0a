-- ===== src/Seq/Refs/Merge.antt =====
-- Merging two classes in seq.c: the counters after `class_change` ran for both and both were freed.
use mimuw.Prelude.{ℕ, suc, ◌+◌, ◌≤◌, ◌<◌, ◌≡◌, refl, ◌≢◌, Bool, none}
use mimuw.Prelude.{Option, some, List, arith, ap, ◌∙◌, sym}
use mathlib.Core.Path.{subst}
use native.Mathlib.Decide.{ℕ_discrete}
use mimuw.Seq.Node.{CString, Node}
use mimuw.Seq.Env.{done, Class, Env, put, store, allocate, free}
use mimuw.Seq.Equiv.{set_counter, replace_both}
use mimuw.Seq.Refs.{refs, Counted, IsValid}
use mimuw.Seq.Refs.Release.{Counted-at, in_use}
use mimuw.Seq.Refs.Change.{relabel, refs-relabel-new, refs-relabel_old, refs-relabel_ne}
use mimuw.Seq.Refs.Change.{class_change-Moves}

pub put_self : (m : ℕ → Option Class) (a : ℕ) (o : Option Class) → put m a o a ≡ o
put_self m a o = ground arith

Counted-of : {o o' : Option Class} {n n' : ℕ} → o ≡ o' → n ≡ n' → Counted o' n' → Counted o n
Counted-of {o'} {n} q r h = subst (λ x. Counted x n) (sym q) (subst (Counted o') (sym r) h)

module _ (p : Node) (c1 c2 : ℕ) (e : Env) (k1 k2 : Class) (s : CString) (ms : List Bool)
    (i : IsValid p e) (ne : c1 ≢ c2) (h1 : e.classes c1 ≡ some k1)
    (h2 : e.classes c2 ≡ some k2) where
  -- The address of the merged class, the class as `replace_both` starts it, and the final tree.
  abbrev c : ℕ
  c = e.next

  abbrev start : Class
  start = record { counter = 0; s = some s }

  abbrev started : Env
  started = store c start (allocate s ms e)

  abbrev pub merged : Node
  merged = relabel c2 c (relabel c1 c p)

  c1-ne : c1 ≢ c
  c1-ne = omega (arith, in_use c1 k1 i h1)

  c2-ne : c2 ≢ c
  c2-ne = omega (arith, in_use c2 k2 i h2)

  new_unused : refs c p ≡ 0
  new_unused = Counted-at c none i (i.fresh c (omega arith))

  started_ne : (a : ℕ) → a ≢ c → started.classes a ≡ e.classes a
  started_ne a h = ground arith

  refs-merged-c : refs c merged ≡ refs c1 p + refs c2 p
  refs-merged-c = omega (
    arith,
    refs-relabel-new c2 c c2-ne (relabel c1 c p),
    refs-relabel-new c1 c c1-ne p,
    refs-relabel_ne c1 c c1-ne c2 (λ q. ne (sym q)) c2-ne p,
    new_unused,
  )

  refs-merged_ne : (a : ℕ) → a ≢ c → a ≢ c1 → a ≢ c2 → refs a merged ≡ refs a p
  refs-merged_ne a n n1 n2 =
      refs-relabel_ne c2 c c2-ne a n2 n (relabel c1 c p) ∙ refs-relabel_ne c1 c c1-ne a n1 n p

  refs-merged_1 : refs c1 merged ≡ 0
  refs-merged_1 =
      refs-relabel_ne c2 c c2-ne c1 ne c1-ne (relabel c1 c p) ∙ refs-relabel_old c1 c c1-ne p

  refs-merged_2 : refs c2 merged ≡ 0
  refs-merged_2 = refs-relabel_old c2 c c2-ne (relabel c1 c p)

  -- What is known of the environment after both calls of `class_change`.
  record Ready (e' : Env) : Type 0 where
    ready_next : e'.next ≡ suc e.next
    ready_new : e'.classes c ≡ some (record start { counter = refs c1 p + refs c2 p })
    ready_ne : (a : ℕ) → a ≢ c → a ≢ c1 → a ≢ c2 → e'.classes a ≡ e.classes a

  final-IsValid : (e' : Env) → Ready e' → IsValid merged (free c2 (free c1 e'))
  final-IsValid e' r = record { counted = λ a. at_address a; fresh = λ a le. unused a le }
    where
      open r use {ready_next, ready_new, ready_ne}

      after : ℕ → Option Class
      after = (free c2 (free c1 e')).classes

      refs_pos : 0 < refs c1 p
      refs_pos = (Counted-at c1 (some k1) i h1).1

      at_address : (a : ℕ) → Counted (after a) (refs a merged)
      at_address a = elim (ℕ_discrete a c2) [
        | yes q ↦ Counted-of {o' = none} (ground arith) (ap (λ x. refs x merged) q) refs-merged_2
        | no n2 ↦ elim (ℕ_discrete a c1) [
          | yes q ↦ Counted-of {o' = none} (ground arith) (ap (λ x. refs x merged) q) refs-merged_1
          | no n1 ↦ elim (ℕ_discrete a c) [
            | yes q ↦
                Counted-of {o' = some (record start { counter = refs c1 p + refs c2 p })}
                  (ground (arith, c1-ne, c2-ne)) (ap (λ x. refs x merged) q ∙ refs-merged-c)
                  (refl, omega (arith, refs_pos), λ w. cc)
            | no n ↦
                Counted-of (ground (arith, ready_ne a n n1 n2)) (refs-merged_ne a n n1 n2)
                  (i.counted a)
          ]
        ]
      ]

      unused : (a : ℕ) → e'.next ≤ a → after a ≡ none
      unused a le =
          let b1 = in_use c1 k1 i h1 in
          let b2 = in_use c2 k2 i h2 in
          ground
            (arith, ready_ne a (omega arith) (omega arith) (omega arith), i.fresh a (omega arith))

  -- `replace_both` ends without a fault: both classes are gone, the new one counts the nodes of both.
  pub replace_both-lem :
      (e' : Env) × (replace_both p c1 c2 c (allocate s ms e) ≡ some (done, merged, e'))
      × IsValid merged e'
      × (e'.classes c ≡ some (record start { counter = refs c1 p + refs c2 p }))
  unfolding replace_both set_counter
  replace_both-lem =
      let (e2, q2, m2) =
        class_change-Moves c1 c c1-ne p started k1 start (started_ne c1 c1-ne ∙ h1)
          (put_self (allocate s ms e).classes c (some start)) in
      let (e3, q3, m3) =
        class_change-Moves c2 c c2-ne (relabel c1 c p) e2 k2 _
          (m2.others c2 (λ q. ne (sym q)) c2-ne ∙ started_ne c2 c2-ne ∙ h2) m2.new_now in
      let ready : Ready e3 = record {
        ready_next = m3.next ∙ m2.next;
        ready_new =
            m3.new_now
            ∙ ap (λ (x : ℕ). some (record start { counter = x }))
                (omega (arith, refs-relabel_ne c1 c c1-ne c2 (λ q. ne (sym q)) c2-ne p));
        ready_ne = λ a n n1 n2. m3.others a n2 n ∙ (m2.others a n1 n ∙ started_ne a n);
      } in
      (
        free c2 (free c1 e3),
        rw (put_self e.classes c (some (record { counter = 1; s = some s })), q2, q3),
        final-IsValid e3 ready,
        ground (arith, ready.ready_new, c1-ne, c2-ne),
      )
