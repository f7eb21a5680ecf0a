-- ===== src/Seq/Env.antt =====
-- The state around a tree of seq.c: `errno`, the classes on the heap, and the allocator's answers.
pub use mimuw.Prelude.{◌>>=◌}
use mimuw.Prelude.{ℕ, suc, ◌-◌, Bool, true, Option, none, some, List, [], ◌∷◌}
use mimuw.Prelude.{◌==◌, ltb, if◌then◌else◌}
use mimuw.Seq.Node.{CString, Node, seq_new_node}

-- What the code assigns to `errno`.
pub data Errno : Type 0 where
  cleared einval enomem : Errno

-- The int that an operation returns: -1, 0 or 1.
pub data Code : Type 0 where
  failed unchanged done : Code

-- `struct abstract_class`. The name is a value: its buffer has no address of its own.
pub record Class : Type 0 where
  pub counter : ℕ
  pub s : Option CString

-- A read or write through a dangling or null pointer is a fault, `none`, of the operation.
-- `classes a` is the class at address `a`, `none` where nothing is allocated. Addresses from
-- `next` on are unused. `mallocs` lists the coming answers of `malloc`, which past the list all
-- succeed.
pub record Env : Type 0 where
  pub errno : Errno
  pub classes : ℕ → Option Class
  pub next : ℕ
  pub mallocs : List Bool

abbrev pub put : (ℕ → Option Class) → ℕ → Option Class → ℕ → Option Class
put m a c b = if a == b then c else m b

abbrev pub set_errno : Errno → Env → Env
set_errno n e = record e { errno = n }

-- Whether the next `malloc` succeeds, and the answers that follow.
abbrev pub malloc : List Bool → Bool × List Bool
malloc [] = (true, [])
malloc (b ∷ bs) = (b, bs)

abbrev pub store : ℕ → Class → Env → Env
store a c e = record e { classes = put e.classes a (some c) }

abbrev pub free : ℕ → Env → Env
free a e = record e { classes = put e.classes a none }

-- The new class gets an address that was never used.
abbrev pub allocate : CString → List Bool → Env → Env
allocate s ms e = record e {
  classes = put e.classes e.next (some (record { counter = 1; s = some s }));
  next = suc e.next;
  mallocs = ms;
}

-- `class_new`: the address of a new class with counter 1, or `none`, the null pointer.
unfoldable pub class_new : CString → Env → Option ℕ × Env
class_new s e =
    let (ok, ms) = malloc e.mallocs in
    if ok then (some e.next, allocate s ms e) else (none, record e { errno = enomem; mallocs = ms })

-- `seq_new`
unfoldable pub seq_new : Env → Node × Env
unfolding seq_new_node
seq_new e =
    let (ok, ms) = malloc e.mallocs in
    if ok
    then (seq_new_node, record e { mallocs = ms })
    else (Node.null, record e { errno = enomem; mallocs = ms })

-- What `seq_delete_all` and `seq_class_remove` do with the class of a node that they free.
unfoldable pub release_class : ℕ → Option Class → Env → Option Env
release_class a none e = none
release_class a (some c) e =
    if c.counter == 1
    then some (free a e)
    else if ltb 1 c.counter
    then some (store a (record c { counter = c.counter - 1 }) e)
    else some e

unfoldable pub release : Option ℕ → Env → Option Env
unfolding release_class
release none e = some e
release (some a) e = release_class a (e.classes a) e
