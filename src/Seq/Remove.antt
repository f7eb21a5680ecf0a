-- ===== src/Seq/Remove.antt =====
-- `seq_delete_all`, `seq_delete`, `seq_class_remove` and `seq_remove` of seq.c.
use mimuw.Prelude.{ℕ, true, ◌||◌, Option, none, some, List}
use mimuw.Prelude.{if◌then◌else◌, get_elem?}
use mimuw.Seq.Node.{Digit, CString, digit, Node, null, node, child, set_child, is_null, at, update}
use mimuw.Seq.Env.{einval, Code, failed, unchanged, done, Env, set_errno, ◌>>=◌, release}
use mimuw.Seq.Walk.{bad, seq_walk}

unfoldable pub seq_delete_all : Node → Env → Option Env
unfolding release
seq_delete_all null e = some e
seq_delete_all (node w l m r c) e = do
  e ← seq_delete_all l e
  e ← seq_delete_all m e
  e ← seq_delete_all r e
  release c e

unfoldable pub seq_delete : Node → Env → Option Env
unfolding seq_delete_all
seq_delete p e = if is_null p then some e else seq_delete_all p e

-- `seq_class_remove` lets go of a node's class before it visits the children.
unfoldable pub seq_class_remove : Node → Env → Option Env
unfolding release
seq_class_remove null e = some e
seq_class_remove (node w l m r c) e = do
  e ← release c e
  e ← seq_class_remove l e
  e ← seq_class_remove m e
  seq_class_remove r e

-- The branch of `seq_remove` for the child `d` of the node that `h1` points to.
unfoldable pub cut : Node → List Digit → Digit → Env → Option (Code × Node × Env)
unfolding seq_class_remove at update
cut p h1 d e = if is_null (child d (at h1 p)) then some (unchanged, p, e) else (do
  e' ← seq_class_remove (child d (at h1 p)) e
  some (done, update h1 (set_child d null) p, e'))

-- `seq_remove` after the walk, which ended at `h1` after `l` rounds.
unfoldable pub remove_at :
    Node → CString → Option (List Digit) → (l : ℕ) → Env → Option (Code × Node × Env)
unfolding cut
remove_at p s none l e = some (unchanged, p, e)
remove_at p s (some h1) l e = elim (get_elem? s l >>= digit) [
  | none ↦ some (done, p, e)
  | some d ↦ cut p h1 d e
]

unfoldable pub remove_valid : Node → CString → Env → Option (Code × Node × Env)
unfolding seq_walk remove_at
remove_valid p s e = let (h1, l) = seq_walk 1 true p s in remove_at p s h1 l e

-- `seq_remove`
unfoldable pub seq_remove : Node → Option CString → Env → Option (Code × Node × Env)
unfolding remove_valid
seq_remove p none e = some (failed, p, set_errno einval e)
seq_remove p (some s) e =
    if is_null p || bad (some s) then some (failed, p, set_errno einval e) else remove_valid p s e
