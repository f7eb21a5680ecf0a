-- ===== src/Seq/Add/Grow.antt =====
-- The loop of `seq_add`: what it adds to a node, and what pruning gives back.
use mimuw.Prelude.{ℕ, zero, suc, length, ◌∙◌, ◌≡◌, refl, Bool, true, false, ◌&&◌, ◌||◌, none}
use mimuw.Prelude.{some, List, [], ◌∷◌, arith}
use mimuw.Prelude.{Bool-cases, inl, inr}
use mimuw.Seq.Node.{Digit, lo, mid, hi, char, chars, Node, null, node, child, set_child, has}
use mimuw.Seq.Node.{is_null, weight}
use mimuw.Seq.Node.Laws.{is_prefix, has-set_child, has-set_child_nil, has_nil}
use mimuw.Seq.Node.Laws.{set_child_twice, set_child-child, has_null_child}
use mimuw.Seq.Env.{malloc}
use mimuw.Seq.Walk.Laws.{has-child}
use mimuw.Seq.Add.{grown, attach, grow, prune}

-- The node that `seq_add_new` allocates for a digit.
abbrev pub leaf : Digit → Node
leaf d = node (weight d) null null null none

pub grow_fail :
    (p : Node) (d : Digit) (ds : List Digit) (ms : List Bool)
    → (malloc ms).0 ≡ false
    → grow p (chars (d ∷ ds)) ms ≡ grown false p (malloc ms).1
unfolding grow
grow_fail p lo ds ms e = rw (e, grow)
grow_fail p mid ds ms e = rw (e, grow)
grow_fail p hi ds ms e = rw (e, grow)

pub grow_cons :
    (p : Node) (d : Digit) (ds : List Digit) (ms : List Bool)
    → is_null p ≡ false
    → (malloc ms).0 ≡ true
    → grow p (chars (d ∷ ds)) ms ≡ attach d p (grow (leaf d) (chars ds) (malloc ms).1)
unfolding grow
grow_cons null d ds ms n e = cc
grow_cons (node w l m r c) lo ds ms n e = rw (e, grow)
grow_cons (node w l m r c) mid ds ms n e = rw (e, grow)
grow_cons (node w l m r c) hi ds ms n e = rw (e, grow)

has-leaf : (d : Digit) (xs : List Digit) → has (leaf d) xs ≡ is_prefix xs []
has-leaf d [] = refl
has-leaf d (lo ∷ xs) = refl
has-leaf d (mid ∷ xs) = refl
has-leaf d (hi ∷ xs) = refl

-- A tree with a new child that holds exactly the beginnings of `ds`.
has_attach :
    (p : Node) (d : Digit) (q : Node) (ds : List Digit)
    → is_null p ≡ false
    → is_null (child d p) ≡ true
    → ((ys : List Digit) → has q ys ≡ is_prefix ys ds)
    → (xs : List Digit) → has (set_child d q p) xs ≡ (has p xs || is_prefix xs (d ∷ ds))
has_attach p d q ds n e h [] = rw (has-set_child_nil p d q n, has_nil p n)
has_attach p d q ds n e h (d' ∷ ys) =
    rw (has-set_child p d d' q ys n, has-child p d' ys)
      (ground (arith, h ys, has_null_child p d d' ys e))

-- A new node grows to exactly the beginnings of the string.
has-grow-leaf :
    (d : Digit) (ds : List Digit) (ms : List Bool)
    → (grow (leaf d) (chars ds) ms).ok ≡ true
    → (xs : List Digit) → has (grow (leaf d) (chars ds) ms).tree xs ≡ is_prefix xs ds
has-grow-leaf d [] ms h xs = unfold grow in has-leaf d xs
has-grow-leaf d (d' ∷ ds) ms h xs = elim (Bool-cases (malloc ms).0) [
  | inl e ↦ rw (grow_cons (leaf d) d' ds ms refl e) (
      has_attach (leaf d) d' _ ds refl (leaf_child d d')
        (has-grow-leaf d' ds (malloc ms).1 (rw (grow_cons (leaf d) d' ds ms refl e) at h)) xs
      ∙ rw (has-leaf d xs) (join xs))
  | inr e ↦ absurd (false_ok (rw (grow_fail (leaf d) d' ds ms e) at h))
]
  where
    leaf_child : (a b : Digit) → is_null (child b (leaf a)) ≡ true
    leaf_child a lo = refl
    leaf_child a mid = refl
    leaf_child a hi = refl

    join : (xs : List Digit) → (is_prefix xs [] || is_prefix xs (d' ∷ ds)) ≡ is_prefix xs (d' ∷ ds)
    join [] = refl
    join (x ∷ xs) = refl

    false_ok : false ≡ true → ⊥
    false_ok h = cc

-- The loop of `seq_add`, begun where the first character leads to no node.
pub has-grow :
    (p : Node) (d : Digit) (ds : List Digit) (ms : List Bool)
    → is_null p ≡ false
    → is_null (child d p) ≡ true
    → (grow p (chars (d ∷ ds)) ms).ok ≡ true
    → (xs : List Digit)
    → has (grow p (chars (d ∷ ds)) ms).tree xs ≡ (has p xs || is_prefix xs (d ∷ ds))
has-grow p d ds ms n c h xs = elim (Bool-cases (malloc ms).0) [
  | inl e ↦ rw (grow_cons p d ds ms n e) (
      has_attach p d _ ds n c (has-grow-leaf d ds (malloc ms).1 (rw (grow_cons p d ds ms n e) at h))
        xs)
  | inr e ↦ absurd (false_ok (rw (grow_fail p d ds ms e) at h))
]
  where
    false_ok : false ≡ true → ⊥
    false_ok h = cc

prune_child : (p : Node) (d : Digit) → prune (some (char d)) p ≡ set_child d null p
unfolding prune
prune_child p lo = refl
prune_child p mid = refl
prune_child p hi = refl

-- Whatever the loop attached, pruning the first child gives the node back as it was.
pub prune-grow :
    (p : Node) (d : Digit) (ds : List Digit) (ms : List Bool)
    → is_null p ≡ false
    → is_null (child d p) ≡ true
    → prune (some (char d)) (grow p (chars (d ∷ ds)) ms).tree ≡ p
prune-grow p d ds ms n c = elim (Bool-cases (malloc ms).0) [
  | inl e ↦ rw (grow_cons p d ds ms n e, prune_child, set_child_twice) (set_child-child p d c)
  | inr e ↦ rw (grow_fail p d ds ms e, prune_child) (set_child-child p d c)
]

-- The allocator grants the next `n` requests.
abbrev pub grants : ℕ → List Bool → Bool
grants zero ms = true
grants (suc n) ms = (malloc ms).0 && grants n (malloc ms).1

pub ok-grow :
    (p : Node) (d : Digit) (ds : List Digit) (ms : List Bool)
    → is_null p ≡ false
    → (grow p (chars (d ∷ ds)) ms).ok ≡ grants (length (d ∷ ds)) ms
ok-grow p d [] ms n = elim (Bool-cases (malloc ms).0) [
  | inl e ↦ rw (grow_cons p d [] ms n e) (unfold grow in rw e)
  | inr e ↦ rw (grow_fail p d [] ms e, e)
]
ok-grow p d (d' ∷ ds) ms n = elim (Bool-cases (malloc ms).0) [
  | inl e ↦ rw (grow_cons p d (d' ∷ ds) ms n e, ok-grow (leaf d) d' ds (malloc ms).1 refl, e)
  | inr e ↦ rw (grow_fail p d (d' ∷ ds) ms e, e)
]
