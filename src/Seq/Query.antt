-- ===== src/Seq/Query.antt =====
-- `seq_valid`, `seq_set_name` and `seq_get_name` of seq.c.
use mimuw.Prelude.{ℕ, Bool, true, false, ◌||◌, ◌&&◌, Option, none, some, List, []}
use mimuw.Prelude.{◌∷◌, ◌==◌, if◌then◌else◌}
use mimuw.Seq.Node.{Digit, CString, Node, class, set_class, is_null, at, update}
use mimuw.Seq.Env.{cleared, einval, enomem, Code, failed, unchanged, done, Class, Env, set_errno}
use mimuw.Seq.Env.{◌>>=◌, malloc, class_new, store}
use mimuw.Seq.Walk.{bad, seq_walk}

-- `strcmp(s, t) == 0`
abbrev pub str_eq : CString → CString → Bool
str_eq [] [] = true
str_eq (a ∷ s) (b ∷ t) = (a == b) && str_eq s t
str_eq _ _ = false

abbrev pub is_empty : CString → Bool
is_empty [] = true
is_empty (c ∷ cs) = false

-- `seq_valid`: the answer, and the environment with `errno`.
unfoldable pub seq_valid : Node → Option CString → Env → Code × Env
unfolding seq_walk
seq_valid p none e = (failed, set_errno einval e)
seq_valid p (some s) e =
    if is_null p || bad (some s)
    then (failed, set_errno einval e)
    else (elim (seq_walk 0 false p s).0 [ none ↦ unchanged | some _ ↦ done ], e)

-- The last test of `seq_set_name`, at a node whose class is `c`, stored at `a`.
unfoldable pub rename : ℕ → CString → Env → Class → Option CString → Option (Code × Env)
rename a n e c none = none
rename a n e c (some old) =
    if str_eq n old then some (unchanged, e) else some (done, store a (record c { s = some n }) e)

-- `seq_set_name` at a node without a class, given what `class_new` returned.
unfoldable pub name_new : Node → List Digit → Option ℕ × Env → Option (Code × Node × Env)
unfolding update
name_new p h (none, e) = some (failed, p, set_errno enomem e)
name_new p h (some a, e) = some (done, update h (set_class (some a)) p, e)

-- `seq_set_name` at the node that `h` points to, whose class is `c`, after the name was copied.
unfoldable pub name_node : Node → List Digit → Option ℕ → CString → Env → Option (Code × Node × Env)
unfolding class_new name_new rename
name_node p h none n e = name_new p h (class_new n e)
name_node p h (some a) n e = do c ← e.classes a; r ← rename a n e c c.s; some (r.0, p, r.1)

unfoldable pub set_name_walked :
    Node → Option (List Digit) → CString → Env → Option (Code × Node × Env)
unfolding name_node at
set_name_walked p none n e = some (unchanged, p, e)
set_name_walked p (some h) n e = name_node p h (class (at h p)) n e

unfoldable pub set_name_valid : Node → CString → CString → Env → Option (Code × Node × Env)
unfolding seq_walk set_name_walked
set_name_valid p s n e =
    let (ok, ms) = malloc e.mallocs in
    if ok
    then set_name_walked p (seq_walk 0 false p s).0 n (record e { mallocs = ms })
    else some (failed, p, record e { errno = enomem; mallocs = ms })

-- `seq_set_name`
unfoldable pub seq_set_name :
    Node → Option CString → Option CString → Env → Option (Code × Node × Env)
unfolding set_name_valid
seq_set_name p none n e = some (failed, p, set_errno einval e)
seq_set_name p (some s) none e = some (failed, p, set_errno einval e)
seq_set_name p (some s) (some n) e =
    if is_null p || bad (some s) || is_empty n
    then some (failed, p, set_errno einval e)
    else set_name_valid p s n e

-- The name of the class that a node holds; `none` for a class without a name.
unfoldable pub read_name : Option ℕ → Env → Option (Option CString × Env)
read_name none e = some (none, set_errno cleared e)
read_name (some a) e = do
  c ← e.classes a
  s ← c.s
  some (if is_empty s then (none, set_errno cleared e) else (some s, e))

unfoldable pub get_name_walked : Node → Option (List Digit) → Env → Option (Option CString × Env)
unfolding read_name at
get_name_walked p none e = some (none, set_errno cleared e)
get_name_walked p (some h) e = read_name (class (at h p)) e

-- `seq_get_name`
unfoldable pub seq_get_name : Node → Option CString → Env → Option (Option CString × Env)
unfolding seq_walk get_name_walked
seq_get_name p none e = some (none, set_errno einval e)
seq_get_name p (some s) e =
    if is_null p || bad (some s)
    then some (none, set_errno einval e)
    else get_name_walked p (seq_walk 0 false p s).0 e
