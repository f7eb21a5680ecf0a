-- ===== src/Seq/Node.antt =====
-- `struct seq` of seq.c: the tree of nodes. The code never shares a node, so a tree is a value; a
-- pointer into it is the path of digits that leads there. A class is a pointer, shared by nodes.
pub mod Laws
use mimuw.Prelude.{ℕ, Bool, true, false, Option, none, some, List, [], ◌∷◌, map}
use mimuw.Prelude.{◌==◌, if◌then◌else◌}
use mimuw.Prelude.Int.{ℤ, pos, negsuc}

-- The three characters that a sequence may hold.
pub data Digit : Type 0 where
  lo mid hi : Digit

-- A C string, up to the terminating zero: the codes of its characters.
abbrev pub CString : Type 0
CString = List ℕ

abbrev pub char : Digit → ℕ
char lo = 48
char mid = 49
char hi = 50

abbrev pub chars : List Digit → CString
chars = map char

-- The chain of tests `*s - 48 == 0`, `== 1`, `== 2`; `none` if no branch is taken.
abbrev pub digit : ℕ → Option Digit
digit c =
    if c == 48 then some lo else if c == 49 then some mid else if c == 50 then some hi else none

-- `null` is the null pointer. `class` holds the address of a class.
pub data Node : Type 0 where
  null : Node
  node : (w : ℤ) (lchild mchild rchild : Node) (class : Option ℕ) → Node

-- `p->lchild`, `p->mchild` or `p->rchild`
abbrev pub child : Digit → Node → Node
child d null = null
child lo (node w l m r c) = l
child mid (node w l m r c) = m
child hi (node w l m r c) = r

abbrev pub set_child : Digit → Node → Node → Node
set_child d q null = null
set_child lo q (node w l m r c) = node w q m r c
set_child mid q (node w l m r c) = node w l q r c
set_child hi q (node w l m r c) = node w l m q c

-- `p->class`
abbrev pub class : Node → Option ℕ
class null = none
class (node w l m r c) = c

abbrev pub set_class : Option ℕ → Node → Node
set_class c null = null
set_class c (node w l m r _) = node w l m r c

abbrev pub is_null : Node → Bool
is_null null = true
is_null (node w l m r c) = false

-- The node that a pointer into the tree points to.
unfoldable pub at : List Digit → Node → Node
at [] p = p
at (d ∷ ds) p = at ds (child d p)

-- A write through a pointer into the tree.
unfoldable pub update : List Digit → (Node → Node) → Node → Node
update [] f p = f p
update (d ∷ ds) f p = set_child d (update ds f (child d p)) p

-- `seq_new` with an allocation that succeeds.
unfoldable pub seq_new_node : Node
seq_new_node = node (negsuc 0) null null null none

-- The value that `seq_add_new` stores in `w`.
abbrev pub weight : Digit → ℤ
weight lo = pos 0
weight mid = pos 1
weight hi = pos 2

-- The sequence spelt by `ds` is in the tree.
abbrev pub has : Node → List Digit → Bool
has null ds = false
has (node w l m r c) [] = true
has (node w l m r c) (lo ∷ ds) = has l ds
has (node w l m r c) (mid ∷ ds) = has m ds
has (node w l m r c) (hi ∷ ds) = has r ds
