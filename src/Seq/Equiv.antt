-- ===== src/Seq/Equiv.antt =====
-- `class_change` and `seq_equiv` of seq.c: two sequences are put into one class.
use mimuw.Prelude.{ℕ, suc, Bool, false, ◌||◌, Option, none, some, List, ◌++◌, []}
use mimuw.Prelude.{◌==◌, if◌then◌else◌}
use mimuw.Seq.Node.{Digit, CString, Node, null, node, class, set_class, is_null, at, update}
use mimuw.Seq.Env.{einval, enomem, Code, failed, unchanged, done, Env, set_errno, ◌>>=◌}
use mimuw.Seq.Env.{malloc, class_new, store, free}
use mimuw.Seq.Walk.{bad, seq_walk}
use mimuw.Seq.Query.{str_eq}

-- `p->class->s = NULL` for the old class, then `(p->class->counter)++` for the new one.
unfoldable pub move_reference : (old new : ℕ) → Env → Option Env
move_reference old new e = do
  c ← e.classes old
  let e' = store old (record c { s = none }) e
  d ← e'.classes new
  some (store new (record d { counter = suc d.counter }) e')

abbrev pub refers : Option ℕ → ℕ → Bool
refers none a = false
refers (some b) a = b == a

-- The test of `class_change` at one node: the new value of `p->class`.
unfoldable pub change_node : Option ℕ → (old new : ℕ) → Env → Option (Option ℕ × Env)
unfolding move_reference
change_node c old new e =
    if refers c old then (do e' ← move_reference old new e; some (some new, e')) else some (c, e)

unfoldable pub class_change : Node → (old new : ℕ) → Env → Option (Node × Env)
unfolding change_node
class_change null old new e = some (null, e)
class_change (node w l m r c) old new e = do
  (c', e) ← change_node c old new e
  (l', e) ← class_change l old new e
  (m', e) ← class_change m old new e
  (r', e) ← class_change r old new e
  some (node w l' m' r' c', e)

-- `(class->counter)++` through the pointer `a`
unfoldable pub retain : ℕ → Env → Option Env
retain a e = do c ← e.classes a; some (store a (record c { counter = suc c.counter }) e)

-- `c->counter = n`
unfoldable pub set_counter : ℕ → ℕ → Env → Option Env
set_counter a n e = do c ← e.classes a; some (store a (record c { counter = n }) e)

-- Neither node has a class: a new one, with an empty name, for both, given what `class_new` returned.
unfoldable pub share_new : Node → (h1 h2 : List Digit) → Option ℕ × Env → Option (Code × Node × Env)
unfolding set_counter update
share_new p h1 h2 (none, e) = some (failed, p, set_errno enomem e)
share_new p h1 h2 (some c, e) = do
  e' ← set_counter c 2 e
  some (done, update h2 (set_class (some c)) (update h1 (set_class (some c)) p), e')

unfoldable pub equiv_new : Node → (h1 h2 : List Digit) → Env → Option (Code × Node × Env)
unfolding class_new share_new
equiv_new p h1 h2 e =
    let (ok, ms) = malloc e.mallocs in
    if ok
    then share_new p h1 h2 (class_new [] (record e { mallocs = ms }))
    else some (failed, p, record e { errno = enomem; mallocs = ms })

-- Both classes give way to `c`: `class_change` for each, then both are freed.
unfoldable pub replace_both : Node → (c1 c2 c : ℕ) → Env → Option (Code × Node × Env)
unfolding set_counter class_change
replace_both p c1 c2 c e = do
  e ← set_counter c 0 e
  (p, e) ← class_change p c1 c e
  (p, e) ← class_change p c2 c e
  some (done, p, free c2 (free c1 e))

-- A new class in place of two, given what `class_new` returned; without one no class changes.
unfoldable pub merge_new : Node → (c1 c2 : ℕ) → Option ℕ × Env → Option (Code × Node × Env)
unfolding replace_both
merge_new p c1 c2 (none, e) = some (failed, p, set_errno enomem e)
merge_new p c1 c2 (some c, e) = replace_both p c1 c2 c e

unfoldable pub merge_into : CString → Node → (c1 c2 : ℕ) → Env → Option (Code × Node × Env)
unfolding class_new merge_new
merge_into s p c1 c2 e = merge_new p c1 c2 (class_new s e)

-- Two different classes with the names `s1` and `s2`. With equal names the new class takes over the
-- name; otherwise the two names are joined in a buffer of their own.
unfoldable pub merge_named :
    CString → CString → Node → (c1 c2 : ℕ) → Env → Option (Code × Node × Env)
unfolding merge_into
merge_named s1 s2 p c1 c2 e =
    if str_eq s1 s2
    then merge_into s1 p c1 c2 e
    else if (malloc e.mallocs).0
    then merge_into (s1 ++ s2) p c1 c2 (record e { mallocs = (malloc e.mallocs).1 })
    else some (failed, p, record e { errno = enomem; mallocs = (malloc e.mallocs).1 })

unfoldable pub merge_classes : Node → (c1 c2 : ℕ) → Env → Option (Code × Node × Env)
unfolding merge_named
merge_classes p c1 c2 e = do
  k1 ← e.classes c1
  k2 ← e.classes c2
  s1 ← k1.s
  s2 ← k2.s
  merge_named s1 s2 p c1 c2 e

-- The four cases of `seq_equiv` on the classes of its two nodes.
unfoldable pub join :
    Node → (h1 h2 : List Digit) → Option ℕ → Option ℕ → Env → Option (Code × Node × Env)
unfolding retain equiv_new merge_classes update
join p h1 h2 none (some c) e = do e' ← retain c e; some (done, update h1 (set_class (some c)) p, e')
join p h1 h2 (some c) none e = do e' ← retain c e; some (done, update h2 (set_class (some c)) p, e')
join p h1 h2 none none e = equiv_new p h1 h2 e
join p h1 h2 (some c1) (some c2) e =
    if c1 == c2 then some (unchanged, p, e) else merge_classes p c1 c2 e

unfoldable pub equiv_found :
    Node → Option (List Digit) → Option (List Digit) → Env → Option (Code × Node × Env)
unfolding join at
equiv_found p none h2 e = some (unchanged, p, e)
equiv_found p (some h1) none e = some (unchanged, p, e)
equiv_found p (some h1) (some h2) e = join p h1 h2 (class (at h1 p)) (class (at h2 p)) e

-- `seq_equiv`
unfoldable pub seq_equiv : Node → Option CString → Option CString → Env → Option (Code × Node × Env)
unfolding equiv_found seq_walk
seq_equiv p none t e = some (failed, p, set_errno einval e)
seq_equiv p (some s) none e = some (failed, p, set_errno einval e)
seq_equiv p (some s) (some t) e =
    if is_null p || bad (some s) || bad (some t)
    then some (failed, p, set_errno einval e)
    else if str_eq s t
    then some (unchanged, p, e)
    else equiv_found p (seq_walk 0 false p s).0 (seq_walk 0 false p t).0 e
