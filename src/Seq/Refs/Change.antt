-- ===== src/Seq/Refs/Change.antt =====
-- `class_change` of seq.c: every pointer to one class becomes a pointer to another, and the
-- counter of the new class grows by the pointers that were moved.
use mimuw.Prelude.{ℕ, suc, ◌+◌, ◌≡◌, refl, ◌≢◌, false, none}
use mimuw.Prelude.{Option, some, List, [], ◌∷◌, arith, Bool-cases, inl, inr, ap, ◌∙◌}
use mimuw.Prelude.{if◌then◌else◌, ◌==◌}
use mathlib.Core.Path.{subst}
use mimuw.Seq.Node.{Digit, lo, mid, hi, Node, null, node, class, at}
use mimuw.Seq.Env.{Class, Env, store}
use mimuw.Seq.Equiv.{refers, move_reference, change_node, class_change}
use mimuw.Seq.Refs.{one, refs}

-- The tree with every pointer to `old` turned to `new`.
abbrev pub relabelled : (old new : ℕ) → Option ℕ → Option ℕ
relabelled old new c = if refers c old then some new else c

abbrev pub relabel : (old new : ℕ) → Node → Node
relabel old new null = null
relabel old new (node w l m r c) =
    node w (relabel old new l) (relabel old new m) (relabel old new r) (relabelled old new c)

pub class-relabel :
    (old new : ℕ) (p : Node) (ds : List Digit)
    → class (at ds (relabel old new p)) ≡ relabelled old new (class (at ds p))
unfolding at
class-relabel old new null [] = refl
class-relabel old new (node w l m r c) [] = refl
class-relabel old new null (d ∷ ds) = class-relabel old new null ds
class-relabel old new (node w l m r c) (lo ∷ ds) = class-relabel old new l ds
class-relabel old new (node w l m r c) (mid ∷ ds) = class-relabel old new m ds
class-relabel old new (node w l m r c) (hi ∷ ds) = class-relabel old new r ds

module _ (old new : ℕ) (ne : old ≢ new) where
  one-relabelled-new : (c : Option ℕ) → one new (relabelled old new c) ≡ one new c + one old c
  one-relabelled-new none = omega arith
  one-relabelled-new (some b) = ground arith

  one-relabelled_old : (c : Option ℕ) → one old (relabelled old new c) ≡ 0
  one-relabelled_old none = refl
  one-relabelled_old (some b) = ground arith

  one-relabelled_ne :
      (a : ℕ) (c : Option ℕ) → a ≢ old → a ≢ new → one a (relabelled old new c) ≡ one a c
  one-relabelled_ne a none h k = refl
  one-relabelled_ne a (some b) h k = ground arith

  pub refs-relabel-new : (p : Node) → refs new (relabel old new p) ≡ refs new p + refs old p
  refs-relabel-new null = omega arith
  refs-relabel-new (node w l m r c) =
      omega
        (arith, one-relabelled-new c, refs-relabel-new l, refs-relabel-new m, refs-relabel-new r)

  pub refs-relabel_old : (p : Node) → refs old (relabel old new p) ≡ 0
  refs-relabel_old null = refl
  refs-relabel_old (node w l m r c) =
      omega
        (arith, one-relabelled_old c, refs-relabel_old l, refs-relabel_old m, refs-relabel_old r)

  pub refs-relabel_ne :
      (a : ℕ) → a ≢ old → a ≢ new → (p : Node) → refs a (relabel old new p) ≡ refs a p
  refs-relabel_ne a h k null = refl
  refs-relabel_ne a h k (node w l m r c) = omega (
    arith,
    one-relabelled_ne a c h k,
    refs-relabel_ne a h k l,
    refs-relabel_ne a h k m,
    refs-relabel_ne a h k r,
  )

  -- From `e` to `e'` the new class, which was `k`, gained `n` references; besides, only the old
  -- class may differ.
  pub record Moved (n : ℕ) (k : Class) (e e' : Env) : Type 0 where
    pub next : e'.next ≡ e.next
    pub others : (a : ℕ) → a ≢ old → a ≢ new → e'.classes a ≡ e.classes a
    pub old_class : Class
    pub old_live : e'.classes old ≡ some old_class
    pub new_now : e'.classes new ≡ some (record k { counter = k.counter + n })

  -- A run that ends in the node `q` and moves `n` references.
  abbrev pub Moves : ℕ → Class → Env → {A : Type 0} → Option (A × Env) → A → Type 0
  Moves n k e r q = (e' : Env) × (r ≡ some (q, e')) × Moved n k e e'

  stay : (e : Env) (c k : Class) → e.classes old ≡ some c → e.classes new ≡ some k → Moved 0 k e e
  stay e c k hc hk = record {
    next = refl;
    others = λ a h h'. refl;
    old_class = c;
    old_live = hc;
    new_now = hk ∙ ap some (ground arith);
  }

  test_ne : (old == new) ≡ false
  test_ne = ground arith

  moved_one : Class → Class → Env → Env
  moved_one o k e =
      store new (record k { counter = suc k.counter }) (store old (record o { s = none }) e)

  move_reference_lem :
      (e : Env) (o k : Class)
      → e.classes old ≡ some o
      → e.classes new ≡ some k
      → move_reference old new e ≡ some (moved_one o k e)
  unfolding move_reference moved_one
  move_reference_lem e o k ho hk = rw (ho, test_ne, hk)

  moved_one-Moved :
      (e : Env) (o k : Class)
      → e.classes old ≡ some o
      → e.classes new ≡ some k
      → Moved 1 k e (moved_one o k e)
  unfolding moved_one
  moved_one-Moved e o k ho hk = record {
    next = refl;
    others = λ a h h'. ground arith;
    old_class = record o { s = none };
    old_live = ground arith;
    new_now = ground arith;
  }

  change_node-Moves :
      (c : Option ℕ) (e : Env) (o k : Class)
      → e.classes old ≡ some o
      → e.classes new ≡ some k
      → Moves (one old c) k e (change_node c old new e) (relabelled old new c)
  unfolding change_node
  change_node-Moves c e o k ho hk = elim (Bool-cases (refers c old)) [
    | inl hit ↦
        rw (hit, move_reference_lem e o k ho hk)
          (moved_one o k e, refl, moved_one-Moved e o k ho hk)
    | inr miss ↦ rw miss (e, refl, stay e o k ho hk)
  ]

  Moved-trans :
      {n m : ℕ} {k : Class} {e e' e'' : Env}
      → Moved n k e e'
      → Moved m (record k { counter = k.counter + n }) e' e''
      → Moved (n + m) k e e''
  Moved-trans {n} {m} {k} f g = record {
    next = g.next ∙ f.next;
    others = λ a h h'. g.others a h h' ∙ f.others a h h';
    old_class = g.old_class;
    old_live = g.old_live;
    new_now = g.new_now ∙ ap (λ (x : ℕ). some (record k { counter = x })) (omega arith);
  }

  Moved-count : {n m : ℕ} {k : Class} {e e' : Env} → Moved n k e e' → n ≡ m → Moved m k e e'
  Moved-count {k} {e} {e'} f q = subst (λ x. Moved x k e e') q f

  -- `class_change` never faults while both classes are allocated: it relabels the tree, and adds the
  -- references that were moved to the new counter.
  pub class_change-Moves :
      (p : Node) (e : Env) (o k : Class)
      → e.classes old ≡ some o
      → e.classes new ≡ some k
      → Moves (refs old p) k e (class_change p old new e) (relabel old new p)
  unfolding class_change
  class_change-Moves null e o k ho hk = (e, refl, stay e o k ho hk)
  class_change-Moves (node w l m r c) e o k ho hk =
      let (e1, q1, m1) = change_node-Moves c e o k ho hk in
      let (e2, q2, m2) = class_change-Moves l e1 m1.old_class _ m1.old_live m1.new_now in
      let (e3, q3, m3) = class_change-Moves m e2 m2.old_class _ m2.old_live m2.new_now in
      let (e4, q4, m4) = class_change-Moves r e3 m3.old_class _ m3.old_live m3.new_now in
      (
        e4,
        rw (q1, q2, q3, q4),
        Moved-count (Moved-trans m1 (Moved-trans m2 (Moved-trans m3 m4))) (omega arith),
      )
