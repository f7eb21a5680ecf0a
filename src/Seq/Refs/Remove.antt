-- ===== src/Seq/Refs/Remove.antt =====
-- `seq_remove` of seq.c: the sequences that are left, and the counters of the classes.
use mimuw.Prelude.{ℕ, ◌+◌, ◌≡◌, refl, Bool, true, false, not, ◌&&◌, none, some}
use mimuw.Prelude.{List, [], ◌∷◌, ◌++◌, arith, length, get_elem?, Bool-cases, inl, inr}
use mathlib.Core.Path.{◌∙◌, sym}
use mimuw.Seq.Node.{Digit, lo, mid, hi, char, chars, digit, Node, null, node, child, set_child}
use mimuw.Seq.Node.{has, is_null, at, update}
use mimuw.Seq.Node.Laws.{digit_eq, digit_eq_lem, is_prefix, has-set_child, has-set_child_nil}
use mimuw.Seq.Node.Laws.{has_nil}
use mimuw.Seq.Env.{unchanged, done, Env, ◌>>=◌}
use mimuw.Seq.Walk.{walk_loop, walked, down, seq_walk, bad}
use mimuw.Seq.Walk.Laws.{has-child, digit-char, is_null_of_has, bad-chars}
use mimuw.Seq.Remove.{cut, remove_at, remove_valid, seq_remove}
use mimuw.Seq.Refs.{refs, IsValid}
use mimuw.Seq.Refs.Release.{seq_class_remove-Ends, recount}

digit_eq_comm : (d e : Digit) → digit_eq d e ≡ digit_eq e d
digit_eq_comm lo lo = refl
digit_eq_comm lo mid = refl
digit_eq_comm lo hi = refl
digit_eq_comm mid lo = refl
digit_eq_comm mid mid = refl
digit_eq_comm mid hi = refl
digit_eq_comm hi lo = refl
digit_eq_comm hi mid = refl
digit_eq_comm hi hi = refl

has_without :
    (p : Node) (d : Digit) (q : Node) (es : List Digit)
    → is_null p ≡ false
    → ((ys : List Digit) → has q ys ≡ (has (child d p) ys && not (is_prefix es ys)))
    → (xs : List Digit) → has (set_child d q p) xs ≡ (has p xs && not (is_prefix (d ∷ es) xs))
has_without p d q es n h [] = rw (has-set_child_nil p d q n, has_nil p n)
has_without p d q es n h (d' ∷ ys) =
    rw (has-set_child p d d' q ys n, has-child p d' ys, digit_eq_comm d d')
      (elim (Bool-cases (digit_eq d' d)) [
        | inl e ↦ rw (e, h ys, digit_eq_lem d' d e)
        | inr e ↦ rw e (ground arith)
      ])

and_false : (b : Bool) → false ≡ (b && false)
and_false b = ground arith

-- Without the child `d` of the node at `ds`, the sequences that begin with `ds` and `d` are gone.
has-cut :
    (p : Node) (ds : List Digit) (d : Digit)
    → has p ds ≡ true
    → (xs : List Digit)
    → has (update ds (set_child d null) p) xs ≡ (has p xs && not (is_prefix (ds ++ d ∷ []) xs))
unfolding update
has-cut p [] d h = has_without p d null [] (is_null_of_has p [] h) (λ ys. and_false _)
has-cut p (x ∷ ds) d h =
    has_without p x _ (ds ++ d ∷ []) (is_null_of_has p (x ∷ ds) h)
      (has-cut (child x p) ds d (rw has-child at h))

pub refs-set_child :
    (a : ℕ) (p : Node) (d : Digit) (q : Node)
    → is_null p ≡ false
    → refs a (set_child d q p) + refs a (child d p) ≡ refs a p + refs a q
refs-set_child a null d q h = cc
refs-set_child a (node w l m r c) lo q h = omega arith
refs-set_child a (node w l m r c) mid q h = omega arith
refs-set_child a (node w l m r c) hi q h = omega arith

refs-cut :
    (a : ℕ) (p : Node) (ds : List Digit) (d : Digit)
    → has p ds ≡ true
    → refs a (update ds (set_child d null) p) + refs a (child d (at ds p)) ≡ refs a p
unfolding update at
refs-cut a p [] d h = omega (arith, refs-set_child a p d null (is_null_of_has p [] h))
refs-cut a p (x ∷ ds) d h = omega (
  arith,
  refs-set_child a p x (update ds (set_child d null) (child x p)) (is_null_of_has p (x ∷ ds) h),
  refs-cut a (child x p) ds d (rw has-child at h),
)

-- The walk with look-ahead 1 ends at the last node but one.
next_char : (ds : List Digit) (d : Digit) → (c : ℕ) × (get_elem? (chars (ds ++ d ∷ [])) 0 ≡ some c)
next_char [] d = (char d, refl)
next_char (x ∷ ds) d = (char x, refl)

module _ (p : Node) (x : Digit) (ds : List Digit) (d : Digit) where
  parent_step :
      is_null (child x p) ≡ false
      → walk_loop 1 p (chars (x ∷ ds ++ d ∷ []))
        ≡ down x (walk_loop 1 (child x p) (chars (ds ++ d ∷ [])))
  unfolding walk_loop
  parent_step e = rw (walk_loop, (next_char ds d).1, digit-char, e)

  parent_stop :
      is_null (child x p) ≡ true → walk_loop 1 p (chars (x ∷ ds ++ d ∷ [])) ≡ walked [] 1 true
  unfolding walk_loop
  parent_stop e = rw (walk_loop, (next_char ds d).1, digit-char, e)

parent_last : (p : Node) (d : Digit) → walk_loop 1 p (chars (d ∷ [])) ≡ walked [] 0 false
unfolding walk_loop
parent_last p d = refl

parent_found :
    (p : Node) (ds : List Digit) (d : Digit)
    → has p ds ≡ true
    → walk_loop 1 p (chars (ds ++ d ∷ [])) ≡ walked ds (length ds) false
parent_found p [] d h = parent_last p d
parent_found p (x ∷ ds) d h =
    let below : has (child x p) ds ≡ true = rw (← has-child) h in
    rw (parent_step p x ds d (is_null_of_has _ ds below), parent_found (child x p) ds d below)

parent_missing :
    (p : Node) (ds : List Digit) (d : Digit)
    → is_null p ≡ false
    → has p ds ≡ false
    → (walk_loop 1 p (chars (ds ++ d ∷ []))).stop ≡ true
parent_missing p [] d n h = cc (has_nil p n)
parent_missing p (x ∷ ds) d n h = elim (Bool-cases (is_null (child x p))) [
  | inl e ↦ rw (parent_stop p x ds d e)
  | inr e ↦ rw (parent_step p x ds d e) (parent_missing (child x p) ds d e (rw (← has-child) h))
]

last_char :
    (ds : List Digit) (d : Digit)
    → (get_elem? (chars (ds ++ d ∷ [])) (length ds) >>= digit) ≡ some d
last_char [] d = digit-char d
last_char (x ∷ ds) d = last_char ds d

bad-snoc : (ds : List Digit) (d : Digit) → bad (some (chars (ds ++ d ∷ []))) ≡ false
bad-snoc [] d = bad-chars d []
bad-snoc (x ∷ ds) d = bad-chars x (ds ++ d ∷ [])

has-at :
    (p : Node) (ds : List Digit) (d : Digit)
    → has p (ds ++ d ∷ []) ≡ not (is_null (child d (at ds p)))
unfolding at
has-at p [] d = has-child p d [] ∙ go (child d p)
  where
    go : (q : Node) → has q [] ≡ not (is_null q)
    go null = refl
    go (node w l m r c) = refl
has-at p (x ∷ ds) d = has-child p x (ds ++ d ∷ []) ∙ has-at (child x p) ds d

seq_walk_parent :
    (p : Node) (ds : List Digit) (d : Digit)
    → has p ds ≡ true
    → seq_walk 1 true p (chars (ds ++ d ∷ [])) ≡ (some ds, length ds)
unfolding seq_walk
seq_walk_parent p ds d h = rw (parent_found p ds d h)

seq_walk_no_parent :
    (p : Node) (ds : List Digit) (d : Digit)
    → is_null p ≡ false
    → has p ds ≡ false
    → (seq_walk 1 true p (chars (ds ++ d ∷ []))).0 ≡ none
unfolding seq_walk
seq_walk_no_parent p ds d n h = rw (parent_missing p ds d n h)

has_parent :
    (p : Node) (ds : List Digit) (d : Digit) → has p (ds ++ d ∷ []) ≡ true → has p ds ≡ true
has_parent p [] d h = has_nil p (is_null_of_has p (d ∷ []) h)
has_parent p (x ∷ ds) d h = rw has-child (has_parent (child x p) ds d (rw has-child at h))

module _ (p : Node) (ds : List Digit) (d : Digit) (e : Env) where
  remove_accepted :
      is_null p ≡ false
      → seq_remove p (some (chars (ds ++ d ∷ []))) e ≡ remove_valid p (chars (ds ++ d ∷ [])) e
  unfolding seq_remove
  remove_accepted n = rw (n, bad-snoc ds d)

  remove-cut : has p ds ≡ true → seq_remove p (some (chars (ds ++ d ∷ []))) e ≡ cut p ds d e
  unfolding remove_valid
  remove-cut h =
      rw (remove_accepted (is_null_of_has p ds h), remove_valid, seq_walk_parent p ds d h)
        (unfold remove_at in rw (remove_at, last_char ds d))

  -- A sequence that is not in the tree: `seq_remove` returns 0 and changes nothing.
  pub seq_remove-absent :
      is_null p ≡ false
      → has p (ds ++ d ∷ []) ≡ false
      → seq_remove p (some (chars (ds ++ d ∷ []))) e ≡ some (unchanged, p, e)
  unfolding remove_valid remove_at
  seq_remove-absent n h = elim (Bool-cases (has p ds)) [
    | inl found ↦ rw (remove-cut found) (unfold cut in ground (arith, has-at p ds d))
    | inr lost ↦ rw (remove_accepted n, remove_valid, seq_walk_no_parent p ds d n lost)
  ]

  -- A sequence that is in a valid tree is removed with all that begin with it, and nothing else. The run
  -- does not fault, and the counters of the classes are exact again.
  pub seq_remove-present :
      IsValid p e
      → has p (ds ++ d ∷ []) ≡ true
      → let p' = update ds (set_child d null) p in
        (e' : Env) × (seq_remove p (some (chars (ds ++ d ∷ []))) e ≡ some (done, p', e'))
        × IsValid p' e'
        × ((xs : List Digit) → has p' xs ≡ (has p xs && not (is_prefix (ds ++ d ∷ []) xs)))
  unfolding cut
  seq_remove-present i h =
      let found = has_parent p ds d h in
      let there : is_null (child d (at ds p)) ≡ false = ground (arith, has-at p ds d) in
      let (e', q, i') =
        seq_class_remove-Ends (child d (at ds p)) e (λ a. refs a (update ds (set_child d null) p))
          (recount i (λ a. sym (refs-cut a p ds d found))) in
      (e', rw (remove-cut found, cut, there, q), i', has-cut p ds d found)
