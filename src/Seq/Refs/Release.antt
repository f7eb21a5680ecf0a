-- ===== src/Seq/Refs/Release.antt =====
-- `seq_delete_all` and `seq_class_remove` on counted classes: no fault, and exact counters after.
use mimuw.Prelude.{ℕ, ◌+◌, ◌-◌, ◌≤◌, ◌<◌, ◌≡◌, refl, ◌≢◌, Option, none, some, arith, ◌==◌}
use mimuw.Prelude.{Bool-cases, inl, inr, ==_iff, lt→ltb}
use mathlib.Core.Path.{subst}
use native.Mathlib.Decide.{dec_lt}
use mimuw.Seq.Node.{Node, null, node}
use mimuw.Seq.Env.{Class, Env, release, release_class, put, store, free}
use mimuw.Seq.Remove.{seq_delete_all, seq_delete, seq_class_remove}
use mimuw.Seq.Refs.{one, refs, Counted, IsCounted, IsValid}

-- Only the references matter pointwise.
pub recount : {e : Env} {f g : ℕ → ℕ} → IsCounted e f → ((a : ℕ) → f a ≡ g a) → IsCounted e g
recount {e} {f} {g} i h = record {
  counted = λ a. go (e.classes a) a (i.counted a);
  fresh = i.fresh;
}
  where
    go : (o : Option Class) (a : ℕ) → Counted o (f a) → Counted o (g a)
    go none a c = omega (arith, h a)
    go (some k) a c = (omega (arith, h a, c.0), omega (arith, h a, c.1), c.2)

no_class : (o : Option Class) (n : ℕ) → Counted o n → n ≡ 0 → o ≡ none
no_class none n c h = refl
no_class (some k) n c h = absurd (omega arith)

-- A run that ends without a fault in a counted environment.
abbrev pub Ends : Option Env → (ℕ → ℕ) → Type 0
Ends r f = (e : Env) × (r ≡ some e) × IsCounted e f

pub put-Counted :
    (m : ℕ → Option Class) (f g : ℕ → ℕ) (b : ℕ) (o : Option Class)
    → ((a : ℕ) → Counted (m a) (f a))
    → ((a : ℕ) → a ≢ b → f a ≡ g a)
    → Counted o (g b)
    → (a : ℕ) → Counted (put m b o a) (g a)
put-Counted m f g b o i h c a = elim (Bool-cases (b == a)) [
  | inl e ↦ rw e (subst (λ (x : ℕ). Counted o (g x)) ((==_iff b a).0 e) c)
  | inr e ↦ rw e (subst (Counted (m a)) (h a (λ q. ground arith)) (i a))
]

pub in_use :
    {e : Env} {f : ℕ → ℕ} (b : ℕ) (k : Class) → IsCounted e f → e.classes b ≡ some k → b < e.next
in_use {e} b k i q = elim (dec_lt b e.next) [ yes h ↦ h | no h ↦ cc (i.fresh b (omega arith)) ]

pub put-fresh :
    {e : Env} {f : ℕ → ℕ} (b : ℕ) (o : Option Class)
    → IsCounted e f
    → b < e.next
    → (a : ℕ) → e.next ≤ a
    → put e.classes b o a ≡ none
put-fresh b o i h a le = ground (arith, i.fresh a)

-- What the invariant says of the class at one address.
pub Counted-at :
    {e : Env} {f : ℕ → ℕ} (b : ℕ) (o : Option Class)
    → IsCounted e f
    → e.classes b ≡ o
    → Counted o (f b)
Counted-at {f} b o i q = subst (λ o. Counted o (f b)) q (i.counted b)

pub one_self : (b : ℕ) → one b (some b) ≡ 1
one_self b = ground arith

pub one_ne : (a b : ℕ) → a ≢ b → one a (some b) ≡ 0
one_ne a b h = ground arith

-- One reference to a counted class is given up.
release_class-Ends :
    (e : Env) (f : ℕ → ℕ) (b : ℕ) (o : Option Class)
    → e.classes b ≡ o
    → IsCounted e (λ a. f a + one a (some b))
    → Ends (release_class b o e) f
unfolding release_class
release_class-Ends e f b none q i = absurd (omega (arith, Counted-at b none i q, one_self b))
release_class-Ends e f b (some k) q i = elim (Bool-cases (k.counter == 1)) [
  | inl last ↦ rw last (
    free b e,
    refl,
    record {
      counted =
          put-Counted e.classes _ f b none i.counted (λ a ne. omega (arith, one_ne a b ne))
            (omega (arith, (==_iff k.counter 1).0 last, one_self b, here.0));
      fresh = put-fresh b none i (in_use b k i q);
    },
  )
  | inr more ↦
      rw (more, lt→ltb 1 k.counter (ground (arith, here.1, here.0)))
        (
          store b (record k { counter = k.counter - 1 }) e,
          refl,
          record {
            counted =
                put-Counted e.classes _ f b _ i.counted (λ a ne. omega (arith, one_ne a b ne))
                  (
                    omega (arith, one_self b, here.0),
                    ground (arith, one_self b, here.0, here.1),
                    here.2,
                  );
            fresh = put-fresh b _ i (in_use b k i q);
          },
        )
]
  where
    here : Counted (some k) (f b + one b (some b))
    here = Counted-at b (some k) i q

pub release-Ends :
    (c : Option ℕ) (e : Env) (f : ℕ → ℕ) → IsCounted e (λ a. f a + one a c) → Ends (release c e) f
unfolding release
release-Ends none e f i = (e, refl, recount i (λ a. omega arith))
release-Ends (some b) e f i = release_class-Ends e f b (e.classes b) refl i

-- Freeing a tree gives up exactly the references of its nodes, and never faults.
pub seq_delete_all-Ends :
    (p : Node) (e : Env) (f : ℕ → ℕ)
    → IsCounted e (λ a. f a + refs a p)
    → Ends (seq_delete_all p e) f
unfolding seq_delete_all
seq_delete_all-Ends null e f i = (e, refl, recount i (λ a. omega arith))
seq_delete_all-Ends (node w l m r c) e f i =
    let (e1, q1, i1) =
      seq_delete_all-Ends l e (λ a. f a + one a c + refs a m + refs a r)
        (recount i (λ a. omega arith)) in
    let (e2, q2, i2) =
      seq_delete_all-Ends m e1 (λ a. f a + one a c + refs a r) (recount i1 (λ a. omega arith)) in
    let (e3, q3, i3) =
      seq_delete_all-Ends r e2 (λ a. f a + one a c) (recount i2 (λ a. omega arith)) in
    rw (q1, q2, q3) (release-Ends c e3 f i3)

pub seq_class_remove-Ends :
    (p : Node) (e : Env) (f : ℕ → ℕ)
    → IsCounted e (λ a. f a + refs a p)
    → Ends (seq_class_remove p e) f
unfolding seq_class_remove
seq_class_remove-Ends null e f i = (e, refl, recount i (λ a. omega arith))
seq_class_remove-Ends (node w l m r c) e f i =
    let (e1, q1, i1) =
      release-Ends c e (λ a. f a + refs a l + refs a m + refs a r) (recount i (λ a. omega arith)) in
    let (e2, q2, i2) =
      seq_class_remove-Ends l e1 (λ a. f a + refs a m + refs a r) (recount i1 (λ a. omega arith)) in
    let (e3, q3, i3) =
      seq_class_remove-Ends m e2 (λ a. f a + refs a r) (recount i2 (λ a. omega arith)) in
    rw (q1, q2, q3) (seq_class_remove-Ends r e3 f i3)

-- `seq_delete` of a valid tree runs without a fault, and leaves no class allocated.
pub seq_delete-frees_all :
    (p : Node) (e : Env)
    → IsValid p e
    → (e' : Env) × (seq_delete p e ≡ some e') × ((a : ℕ) → e'.classes a ≡ none)
unfolding seq_delete
seq_delete-frees_all null e i = (e, refl, λ a. no_class (e.classes a) 0 (i.counted a) refl)
seq_delete-frees_all (node w l m r c) e i =
    let (e', q, i') =
      seq_delete_all-Ends (node w l m r c) e (λ a. 0) (recount i (λ a. omega arith)) in
    (e', q, λ a. no_class (e'.classes a) 0 (i'.counted a) refl)
