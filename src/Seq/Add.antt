-- ===== src/Seq/Add.antt =====
-- `seq_add_new` and `seq_add` of seq.c.
pub mod Grow
pub mod Laws
use mimuw.Prelude.{ℕ, ◌-◌, Bool, true, false, ◌||◌, Option, none, some, List, []}
use mimuw.Prelude.{◌∷◌, if◌then◌else◌, get_elem?, drop}
use mimuw.Seq.Node.{Digit, CString, digit, Node, null, node, child, set_child, weight, is_null, at}
use mimuw.Seq.Node.{update}
use mimuw.Seq.Env.{einval, enomem, Code, failed, unchanged, done, Env, set_errno, malloc}
use mimuw.Seq.Walk.{bad, seq_walk}

-- `seq_add_new` with an allocation that succeeds; a character that is no digit attaches nothing.
unfoldable pub seq_add_new : Node → ℕ → Node
seq_add_new p c = elim (digit c) [
  | none ↦ p
  | some d ↦ set_child d (node (weight d) null null null none) p
]

-- What the loop of `seq_add` leaves: whether it came to the end, the node, the allocator's answers.
pub record Grown : Type 0 where
  pub ok : Bool
  pub tree : Node
  pub mallocs : List Bool

abbrev pub grown : Bool → Node → List Bool → Grown
grown b t ms = record { ok = b; tree = t; mallocs = ms }

abbrev pub attach : Digit → Node → Grown → Grown
attach d p g = record g { tree = set_child d g.tree p }

-- The loop of `seq_add`, at the node that `h` points to and the string `s + l[0]`.
unfoldable pub grow : Node → CString → List Bool → Grown
unfolding seq_add_new
grow h [] ms = grown true h ms
grow h (c ∷ cs) ms = elim (malloc ms).0 [
  | false ↦ grown false h (malloc ms).1
  | true ↦ elim (digit c) [
    | none ↦ grow (seq_add_new h c) cs (malloc ms).1
    | some d ↦ attach d (seq_add_new h c) (grow (child d (seq_add_new h c)) cs (malloc ms).1)
  ]
]

-- `seq_add_delete` of the child behind `s[j]`, when an allocation failed. Nodes have no address
-- of their own, so freeing them leaves nothing behind.
unfoldable pub prune : Option ℕ → Node → Node
prune none h = h
prune (some c) h = elim (digit c) [ none ↦ h | some d ↦ set_child d null h ]

-- The end of `seq_add`, with `h2` the node where the walk stopped.
unfoldable pub finish_add : Node → CString → List Digit → ℕ → Env → Code × Node × Env
unfolding grow prune at update
finish_add p s h2 j e =
    let g = grow (at h2 p) (drop j s) e.mallocs in
    if g.ok then (done, update h2 (λ _. g.tree) p, record e { mallocs = g.mallocs }) else (
      failed,
      update h2 (λ _. prune (get_elem? s j) g.tree) p,
      record e { errno = enomem; mallocs = g.mallocs },
    )

unfoldable pub add_valid : Node → CString → Env → Code × Node × Env
unfolding seq_walk finish_add
add_valid p s e = elim (seq_walk 0 true p s).0 [
  | none ↦ (unchanged, p, e)
  | some h2 ↦ finish_add p s h2 ((seq_walk 0 true p s).1 - 1) e
]

-- `seq_add`
unfoldable pub seq_add : Node → Option CString → Env → Code × Node × Env
unfolding add_valid
seq_add p none e = (failed, p, set_errno einval e)
seq_add p (some s) e =
    if is_null p || bad (some s) then (failed, p, set_errno einval e) else add_valid p s e
