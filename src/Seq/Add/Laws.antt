-- ===== src/Seq/Add/Laws.antt =====
-- `seq_add` of seq.c against the set of sequences in the tree.
use mimuw.Prelude.{ℕ, ◌-◌, ◌≡◌, refl, ap, ◌∙◌, Bool, true, false, ◌||◌, some}
use mimuw.Prelude.{List, [], ◌∷◌, arith, length, drop, get_elem?, Bool-cases, inl, inr}
use mimuw.Seq.Node.{Digit, char, chars, Node, child, set_child, has, is_null, at, update}
use mimuw.Seq.Node.Laws.{digit_eq, digit_eq_lem, is_prefix, has-set_child, has-set_child_nil}
use mimuw.Seq.Node.Laws.{has_nil, set_child_self}
use mimuw.Seq.Env.{failed, unchanged, done, enomem, Env}
use mimuw.Seq.Walk.Laws.{has-child, known, known_stop, known_step, bad-chars}
use mimuw.Seq.Walk.Laws.{seq_walk_known, seq_walk_new, is_null_of_has}
use mimuw.Seq.Add.{Grown, grow, prune, finish_add, add_valid, seq_add}
use mimuw.Seq.Add.Grow.{has-grow, prune-grow, ok-grow, grants}

-- How much of the string is not in the tree yet.
abbrev pub missing : Node → List Digit → ℕ
missing p ds = length ds - length (known p ds)

-- The loop of `seq_add`, from the node where the walk stopped.
abbrev pub extended : Node → List Digit → List Bool → Grown
extended p ds ms = grow (at (known p ds) p) (drop (length (known p ds)) (chars ds)) ms

abbrev pub extend : Node → List Digit → List Bool → Node
extend p ds ms = update (known p ds) (λ _. (extended p ds ms).tree) p

abbrev pub pruned : Node → List Digit → List Bool → Node
pruned p ds ms =
    update (known p ds)
      (λ _. prune (get_elem? (chars ds) (length (known p ds))) (extended p ds ms).tree) p

module _ (p : Node) (d : Digit) (ds : List Digit) (ms : List Bool) where
  extended_stop : is_null (child d p) ≡ true → extended p (d ∷ ds) ms ≡ grow p (chars (d ∷ ds)) ms
  unfolding at
  extended_stop e = rw (known_stop p d ds e)

  extended_step : is_null (child d p) ≡ false → extended p (d ∷ ds) ms ≡ extended (child d p) ds ms
  unfolding at
  extended_step e = rw (known_step p d ds e)

  pub extend_stop :
      is_null (child d p) ≡ true → extend p (d ∷ ds) ms ≡ (grow p (chars (d ∷ ds)) ms).tree
  unfolding update
  extend_stop e = rw (extended_stop e, known_stop p d ds e)

  pub extend_step :
      is_null (child d p) ≡ false → extend p (d ∷ ds) ms ≡ set_child d (extend (child d p) ds ms) p
  unfolding update
  extend_step e = rw (extended_step e, known_step p d ds e)

  pruned_stop :
      is_null (child d p) ≡ true
      → pruned p (d ∷ ds) ms ≡ prune (some (char d)) (grow p (chars (d ∷ ds)) ms).tree
  unfolding update
  pruned_stop e = rw (extended_stop e, known_stop p d ds e)

  pruned_step :
      is_null (child d p) ≡ false → pruned p (d ∷ ds) ms ≡ set_child d (pruned (child d p) ds ms) p
  unfolding update
  pruned_step e = rw (extended_step e, known_step p d ds e)

-- The sequences after one child gained the beginnings of `ds`.
has_below :
    (p : Node) (d : Digit) (q : Node) (ds : List Digit)
    → is_null p ≡ false
    → ((ys : List Digit) → has q ys ≡ (has (child d p) ys || is_prefix ys ds))
    → (xs : List Digit) → has (set_child d q p) xs ≡ (has p xs || is_prefix xs (d ∷ ds))
has_below p d q ds n h [] = rw (has-set_child_nil p d q n, has_nil p n)
has_below p d q ds n h (d' ∷ ys) =
    rw (has-set_child p d d' q ys n, has-child p d' ys)
      (elim (Bool-cases (digit_eq d' d)) [
        | inl e ↦ rw (e, h ys, digit_eq_lem d' d e)
        | inr e ↦ rw e (ground arith)
      ])

has-extend :
    (p : Node) (ds : List Digit) (ms : List Bool)
    → is_null p ≡ false
    → has p ds ≡ false
    → (extended p ds ms).ok ≡ true
    → (xs : List Digit) → has (extend p ds ms) xs ≡ (has p xs || is_prefix xs ds)
has-extend p [] ms n h ok xs = absurd (no' (rw (has_nil p n) at h))
  where
    no' : true ≡ false → ⊥
    no' h = cc
has-extend p (d ∷ ds) ms n h ok xs = elim (Bool-cases (is_null (child d p))) [
  | inl e ↦
      rw (extend_stop p d ds ms e)
        (has-grow p d ds ms n e (rw (extended_stop p d ds ms e) at ok) xs)
  | inr e ↦ rw (extend_step p d ds ms e) (
      has_below p d _ ds n
        (has-extend (child d p) ds ms e (rw has-child at h) (rw (extended_step p d ds ms e) at ok))
        xs)
]

pub pruned-eq :
    (p : Node) (ds : List Digit) (ms : List Bool)
    → is_null p ≡ false
    → has p ds ≡ false
    → pruned p ds ms ≡ p
pruned-eq p [] ms n h = cc (has_nil p n)
pruned-eq p (d ∷ ds) ms n h = elim (Bool-cases (is_null (child d p))) [
  | inl e ↦ rw (pruned_stop p d ds ms e) (prune-grow p d ds ms n e)
  | inr e ↦
      rw (pruned_step p d ds ms e, pruned-eq (child d p) ds ms e (rw has-child at h))
        (set_child_self p d)
]

ok-extended :
    (p : Node) (ds : List Digit) (ms : List Bool)
    → is_null p ≡ false
    → has p ds ≡ false
    → (extended p ds ms).ok ≡ grants (missing p ds) ms
ok-extended p [] ms n h = cc (has_nil p n)
ok-extended p (d ∷ ds) ms n h = elim (Bool-cases (is_null (child d p))) [
  | inl e ↦
      rw (extended_stop p d ds ms e, known_stop p d ds e)
        (ok-grow p d ds ms n ∙ ap (λ k. grants k ms) {x = length (d ∷ ds)} (omega arith))
  | inr e ↦
      rw (extended_step p d ds ms e, known_step p d ds e)
        (ok-extended (child d p) ds ms e (rw has-child at h) ∙ ap (λ k. grants k ms) (omega arith))
]

module _ (p : Node) (d : Digit) (ds : List Digit) (e : Env) where
  add_accepted :
      is_null p ≡ false → seq_add p (some (chars (d ∷ ds))) e ≡ add_valid p (chars (d ∷ ds)) e
  unfolding seq_add
  add_accepted n = rw (n, bad-chars d ds)

  -- A sequence that is in the tree is not added again, and nothing changes.
  pub seq_add-present :
      has p (d ∷ ds) ≡ true → seq_add p (some (chars (d ∷ ds))) e ≡ (unchanged, p, e)
  unfolding add_valid
  seq_add-present h =
      rw (add_accepted (is_null_of_has p (d ∷ ds) h), add_valid, seq_walk_known p (d ∷ ds) h)

  pub add_missing :
      is_null p ≡ false
      → has p (d ∷ ds) ≡ false
      → seq_add p (some (chars (d ∷ ds))) e
        ≡ finish_add p (chars (d ∷ ds)) (known p (d ∷ ds)) (length (known p (d ∷ ds))) e
  unfolding add_valid
  add_missing n h =
      rw (add_accepted n, add_valid, seq_walk_new p (d ∷ ds) n h)
        (ap (λ k. finish_add p (chars (d ∷ ds)) (known p (d ∷ ds)) k e)
          (rw (seq_walk_new p (d ∷ ds) n h) (omega arith)))

  -- If the allocator grants a node for each digit that is missing, a new sequence is added: then the
  -- tree holds what it held and every beginning of the sequence, and nothing else.
  pub seq_add-new :
      is_null p ≡ false
      → has p (d ∷ ds) ≡ false
      → grants (missing p (d ∷ ds)) e.mallocs ≡ true
      → let (code, p', e') = seq_add p (some (chars (d ∷ ds))) e in
        (code ≡ done)
        × ((xs : List Digit) → has p' xs ≡ (has p xs || is_prefix xs (d ∷ ds)))
        × (e'.classes ≡ e.classes)
  unfolding finish_add
  seq_add-new n h g =
      let ok = ok-extended p (d ∷ ds) e.mallocs n h ∙ g in
      rw (add_missing n h, finish_add, ok) (refl, has-extend p (d ∷ ds) e.mallocs n h ok, refl)

  -- If an allocation fails, the nodes that were added are taken out again: the tree is the old one.
  pub seq_add-rollback :
      is_null p ≡ false
      → has p (d ∷ ds) ≡ false
      → grants (missing p (d ∷ ds)) e.mallocs ≡ false
      → let (code, p', e') = seq_add p (some (chars (d ∷ ds))) e in
        (code ≡ failed) × (p' ≡ p) × (e'.classes ≡ e.classes) × (e'.errno ≡ enomem)
  unfolding finish_add
  seq_add-rollback n h g =
      let ok = ok-extended p (d ∷ ds) e.mallocs n h ∙ g in
      rw (add_missing n h, finish_add, ok) (refl, pruned-eq p (d ∷ ds) e.mallocs n h, refl, refl)
