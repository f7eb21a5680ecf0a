-- ===== src/Seq/Refs.antt =====
-- Reference counting in seq.c: the counter of a class against the nodes that point to it.
pub mod Pointer
pub mod Release
pub mod Change
pub mod Pair
pub mod Equiv
pub mod Merge
pub mod Name
pub mod Remove
pub mod Write
use mimuw.Prelude.{ℕ, suc, ◌+◌, ◌≤◌, ◌<◌, ◌≡◌, ◌≢◌, Option, none, some, if◌then◌else◌}
use mimuw.Seq.Node.{Node, null, node}
use mimuw.Seq.Env.{Class, Env}
use mimuw.Seq.Equiv.{refers}

-- What one class pointer adds to the references to `a`.
abbrev pub one : ℕ → Option ℕ → ℕ
one a c = if refers c a then 1 else 0

-- The nodes of a tree that point to the class at `a`.
abbrev pub refs : ℕ → Node → ℕ
refs a null = 0
refs a (node w l m r c) = one a c + refs a l + refs a m + refs a r

-- A free address has no references, and an allocated class has a name and a counter that is exact.
abbrev pub Counted : Option Class → ℕ → Type 0
Counted none n = n ≡ 0
Counted (some c) n = (c.counter ≡ n) × (0 < n) × (c.s ≢ none)

-- The counters agree with the references `f`, and addresses from `next` on are free.
pub record IsCounted (e : Env) (f : ℕ → ℕ) : Type 0 where
  pub counted : (a : ℕ) → Counted (e.classes a) (f a)
  pub fresh : (a : ℕ) → e.next ≤ a → e.classes a ≡ none

-- The invariant of a tree with its environment.
abbrev pub IsValid : Node → Env → Type 0
IsValid p e = IsCounted e (λ a. refs a p)
