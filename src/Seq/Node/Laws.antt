-- ===== src/Seq/Node/Laws.antt =====
-- Reading and replacing children in the tree of seq.c.
use mimuw.Prelude.{◌≡◌, refl, Bool, true, false, ◌&&◌, List, [], ◌∷◌}
use mimuw.Prelude.{if◌then◌else◌}
use mimuw.Seq.Node.{Digit, lo, mid, hi, Node, null, node, child, set_child, has, is_null}

abbrev pub digit_eq : Digit → Digit → Bool
digit_eq lo lo = true
digit_eq mid mid = true
digit_eq hi hi = true
digit_eq _ _ = false

-- `ds` is a beginning of `es`.
abbrev pub is_prefix : List Digit → List Digit → Bool
is_prefix [] es = true
is_prefix (d ∷ ds) [] = false
is_prefix (d ∷ ds) (e ∷ es) = digit_eq d e && is_prefix ds es

pub set_child-child : (p : Node) (d : Digit) → is_null (child d p) ≡ true → set_child d null p ≡ p
set_child-child null d h = refl
set_child-child (node w null m r c) lo h = refl
set_child-child (node w (node w' l' m' r' c') m r c) lo h = cc
set_child-child (node w l null r c) mid h = refl
set_child-child (node w l (node w' l' m' r' c') r c) mid h = cc
set_child-child (node w l m null c) hi h = refl
set_child-child (node w l m (node w' l' m' r' c') c) hi h = cc

pub set_child_self : (p : Node) (d : Digit) → set_child d (child d p) p ≡ p
set_child_self null d = refl
set_child_self (node w l m r c) lo = refl
set_child_self (node w l m r c) mid = refl
set_child_self (node w l m r c) hi = refl

pub set_child_twice :
    (p : Node) (d : Digit) (q q' : Node) → set_child d q (set_child d q' p) ≡ set_child d q p
set_child_twice null lo q q' = refl
set_child_twice null mid q q' = refl
set_child_twice null hi q q' = refl
set_child_twice (node w l m r c) lo q q' = refl
set_child_twice (node w l m r c) mid q q' = refl
set_child_twice (node w l m r c) hi q q' = refl

-- The sequences of a tree after one child was replaced.
pub has-set_child :
    (p : Node) (d d' : Digit) (q : Node) (ds : List Digit)
    → is_null p ≡ false
    → has (set_child d q p) (d' ∷ ds) ≡ (if digit_eq d' d then has q ds else has (child d' p) ds)
has-set_child null d d' q ds h = cc
has-set_child (node w l m r c) lo lo q ds h = refl
has-set_child (node w l m r c) lo mid q ds h = refl
has-set_child (node w l m r c) lo hi q ds h = refl
has-set_child (node w l m r c) mid lo q ds h = refl
has-set_child (node w l m r c) mid mid q ds h = refl
has-set_child (node w l m r c) mid hi q ds h = refl
has-set_child (node w l m r c) hi lo q ds h = refl
has-set_child (node w l m r c) hi mid q ds h = refl
has-set_child (node w l m r c) hi hi q ds h = refl

pub has-set_child_nil :
    (p : Node) (d : Digit) (q : Node) → is_null p ≡ false → has (set_child d q p) [] ≡ true
has-set_child_nil null d q h = cc
has-set_child_nil (node w l m r c) lo q h = refl
has-set_child_nil (node w l m r c) mid q h = refl
has-set_child_nil (node w l m r c) hi q h = refl

pub has_nil : (p : Node) → is_null p ≡ false → has p [] ≡ true
has_nil null h = cc
has_nil (node w l m r c) h = refl

pub digit_eq_lem : (d e : Digit) → digit_eq d e ≡ true → d ≡ e
digit_eq_lem lo lo h = refl
digit_eq_lem mid mid h = refl
digit_eq_lem hi hi h = refl
digit_eq_lem _ _ h = cc

pub has_null_child :
    (p : Node) (d d' : Digit) (ds : List Digit)
    → is_null (child d p) ≡ true
    → digit_eq d' d ≡ true
    → has (child d' p) ds ≡ false
has_null_child p d d' ds h e = rw (digit_eq_lem d' d e) (go (child d p) h)
  where
    go : (q : Node) → is_null q ≡ true → has q ds ≡ false
    go null h = refl
    go (node w l m r c) h = cc
