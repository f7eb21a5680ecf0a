-- ===== src/Seq/Contract.antt =====
-- The operations of seq.c on every input: no fault, and exact reference counts afterwards.
use mimuw.Prelude.{ℕ, ◌≡◌, refl, ◌≢◌, Bool, true, false, ◌||◌, none, Option, some}
use mimuw.Prelude.{List, [], ◌∷◌, arith, Bool-cases, inl, inr, sym}
use mathlib.Core.Path.{subst, subst₂}
use mimuw.Seq.Node.{Digit, CString, chars, Node, null, node, child}
use mimuw.Seq.Node.{has, is_null}
use mimuw.Seq.Node.Laws.{has_nil}
use mimuw.Seq.Env.{Code, failed, unchanged, Env, set_errno, einval, malloc}
use mimuw.Seq.Walk.{bad, seq_walk}
use mimuw.Seq.Walk.Laws.{digits_of, bad-chars, seq_walk_found, seq_walk_missing, is_null_of_has}
use mimuw.Seq.Walk.Laws.{has-child}
use mimuw.Seq.Query.{str_eq}
use mimuw.Seq.Add.{grow, finish_add, seq_add}
use mimuw.Seq.Add.Grow.{leaf, grow_cons, grow_fail}
use mimuw.Seq.Add.Laws.{seq_add-present, add_missing, extend, extend_stop, extend_step}
use mimuw.Seq.Add.Laws.{extended, pruned-eq}
use mimuw.Seq.Equiv.{equiv_found, seq_equiv}
use mimuw.Seq.Refs.{refs, IsValid}
use mimuw.Seq.Refs.Release.{recount}
use mimuw.Seq.Refs.Pointer.{keep}
use mimuw.Seq.Refs.Remove.{refs-set_child}
use mimuw.Seq.Refs.Name.{Safe}
use mimuw.Seq.Refs.Pair.{Joins}
use mimuw.Seq.Refs.Equiv.{join-Joins}

str_eq_self : (s : CString) → str_eq s s ≡ true
str_eq_self [] = refl
str_eq_self (c ∷ s) = ground (arith, str_eq_self s)

chars_ne : (ds es : List Digit) → str_eq (chars ds) (chars es) ≡ false → ds ≢ es
chars_ne ds es h q =
    cc (str_eq_self (chars ds), subst (λ x. str_eq (chars ds) (chars x) ≡ false) (sym q) h)

-- The nodes that the loop of `seq_add` attaches have no class.
refs-grow-leaf :
    (a : ℕ) (d : Digit) (ds : List Digit) (ms : List Bool)
    → refs a (grow (leaf d) (chars ds) ms).tree ≡ 0
refs-grow-leaf a d [] ms = unfold grow in refl
refs-grow-leaf a d (x ∷ ds) ms = elim (Bool-cases (malloc ms).0) [
  | inl ok ↦ rw (grow_cons (leaf d) x ds ms refl ok) (
      omega (
        arith,
        refs-set_child a (leaf d) x (grow (leaf x) (chars ds) (malloc ms).1).tree refl,
        refs-grow-leaf a x ds (malloc ms).1,
      ))
  | inr full ↦ rw (grow_fail (leaf d) x ds ms full)
]

refs_null : (a : ℕ) (p : Node) → is_null p ≡ true → refs a p ≡ 0
refs_null a null h = refl
refs_null a (node w l m r c) h = cc

refs-grow :
    (a : ℕ) (p : Node) (d : Digit) (ds : List Digit) (ms : List Bool)
    → is_null p ≡ false
    → is_null (child d p) ≡ true
    → refs a (grow p (chars (d ∷ ds)) ms).tree ≡ refs a p
refs-grow a p d ds ms n c = elim (Bool-cases (malloc ms).0) [
  | inl ok ↦ rw (grow_cons p d ds ms n ok) (
      omega (
        arith,
        refs-set_child a p d (grow (leaf d) (chars ds) (malloc ms).1).tree n,
        refs-grow-leaf a d ds (malloc ms).1,
        refs_null a (child d p) c,
      ))
  | inr full ↦ rw (grow_fail p d ds ms full)
]

refs-extend :
    (a : ℕ) (p : Node) (ds : List Digit) (ms : List Bool)
    → is_null p ≡ false
    → has p ds ≡ false
    → refs a (extend p ds ms) ≡ refs a p
refs-extend a p [] ms n h = cc (has_nil p n)
refs-extend a p (d ∷ ds) ms n h = elim (Bool-cases (is_null (child d p))) [
  | inl c ↦ rw (extend_stop p d ds ms c) (refs-grow a p d ds ms n c)
  | inr c ↦ rw (extend_step p d ds ms c) (
      omega (
        arith,
        refs-set_child a p d (extend (child d p) ds ms) n,
        refs-extend a (child d p) ds ms c (rw has-child at h),
      ))
]

module _ (p : Node) (e : Env) (i : IsValid p e) where
  Joins-Safe : (h1 h2 : List Digit) {r : Option (Code × Node × Env)} → Joins p h1 h2 r → Safe r
  Joins-Safe h1 h2 (o, q, v, _) = (o, q, v)

  -- `seq_equiv` on two different strings of digits.
  equiv_digits :
      (ds es : List Digit)
      → is_null p ≡ false
      → ds ≢ es
      → Safe (equiv_found p (seq_walk 0 false p (chars ds)).0 (seq_walk 0 false p (chars es)).0 e)
  unfolding equiv_found
  equiv_digits ds es n ne = elim (Bool-cases (has p ds)) [
    | inr lost ↦ rw (seq_walk_missing p ds n lost) ((unchanged, p, e), refl, i)
    | inl there ↦ elim (Bool-cases (has p es)) [
      | inr lost ↦
          rw (seq_walk_found p ds there, seq_walk_missing p es n lost) ((unchanged, p, e), refl, i)
      | inl there' ↦
          rw (seq_walk_found p ds there, seq_walk_found p es there')
            (Joins-Safe ds es (join-Joins p ds es e i there there' ne))
    ]
  ]

  equiv_strings :
      (s t : CString)
      → is_null p ≡ false
      → bad (some s) ≡ false
      → bad (some t) ≡ false
      → str_eq s t ≡ false
      → Safe (equiv_found p (seq_walk 0 false p s).0 (seq_walk 0 false p t).0 e)
  equiv_strings s t n bs bt h =
      let (d, ds, q) = digits_of s bs in
      let (d', es, q') = digits_of t bt in
      subst₂
        (λ x y.
          str_eq x y ≡ false
          → Safe (equiv_found p (seq_walk 0 false p x).0 (seq_walk 0 false p y).0 e))
        q q' (λ w. equiv_digits (d ∷ ds) (d' ∷ es) n (chars_ne (d ∷ ds) (d' ∷ es) w)) h

  -- On a valid tree `seq_equiv` ends without a fault on every input, whatever the allocator answers,
  -- and the counters of the classes are exact after it.
  pub seq_equiv-Safe : (s t : Option CString) → Safe (seq_equiv p s t e)
  unfolding seq_equiv
  seq_equiv-Safe none t = ((failed, p, set_errno einval e), refl, keep _ _ i)
  seq_equiv-Safe (some s) none = ((failed, p, set_errno einval e), refl, keep _ _ i)
  seq_equiv-Safe (some s) (some t) = elim (Bool-cases (is_null p || bad (some s) || bad (some t))) [
    | inl refused ↦ rw (refused) ((failed, p, set_errno einval e), refl, keep _ _ i)
    | inr fine ↦ elim (Bool-cases (str_eq s t)) [
      | inl same ↦ rw (fine, same) ((unchanged, p, e), refl, i)
      | inr other ↦
          rw (fine, other) (equiv_strings s t (ground arith) (ground arith) (ground arith) other)
    ]
  ]

  -- Two different sequences of a valid tree: `seq_equiv` returns -1 and leaves the tree unchanged, or both
  -- nodes end in one class; the counters are exact in both cases.
  pub seq_equiv-Joins :
      (d d' : Digit) (ds es : List Digit)
      → has p (d ∷ ds) ≡ true
      → has p (d' ∷ es) ≡ true
      → str_eq (chars (d ∷ ds)) (chars (d' ∷ es)) ≡ false
      → Joins p (d ∷ ds) (d' ∷ es) (seq_equiv p (some (chars (d ∷ ds))) (some (chars (d' ∷ es))) e)
  unfolding seq_equiv equiv_found
  seq_equiv-Joins d d' ds es there there' other =
      rw
        (
          seq_equiv,
          is_null_of_has p (d ∷ ds) there,
          bad-chars d ds,
          bad-chars d' es,
          other,
          seq_walk_found p (d ∷ ds) there,
          seq_walk_found p (d' ∷ es) there',
        )
        (join-Joins p (d ∷ ds) (d' ∷ es) e i there there' (chars_ne (d ∷ ds) (d' ∷ es) other))

  add_digits :
      (d : Digit) (ds : List Digit)
      → is_null p ≡ false
      → let (code, p', e') = seq_add p (some (chars (d ∷ ds))) e in IsValid p' e'
  unfolding finish_add
  add_digits d ds n = elim (Bool-cases (has p (d ∷ ds))) [
    | inl there ↦ rw (seq_add-present p d ds e there) i
    | inr lost ↦ elim (Bool-cases (extended p (d ∷ ds) e.mallocs).ok) [
      | inl ok ↦
          rw (add_missing p d ds e n lost, finish_add, ok)
            (keep _ _ (recount i (λ a. sym (refs-extend a p (d ∷ ds) e.mallocs n lost))))
      | inr full ↦
          rw (add_missing p d ds e n lost, finish_add, full)
            (rw (pruned-eq p (d ∷ ds) e.mallocs n lost) (keep _ _ i))
    ]
  ]

  -- `seq_add` keeps the counters of the classes exact on every input, whether or not it fails.
  pub seq_add-IsValid : (s : Option CString) → let (code, p', e') = seq_add p s e in IsValid p' e'
  unfolding seq_add
  seq_add-IsValid none = keep _ _ i
  seq_add-IsValid (some s) = elim (Bool-cases (is_null p || bad (some s))) [
    | inl refused ↦ rw refused (keep _ _ i)
    | inr fine ↦
        let (d, ds, q) = digits_of s (ground arith) in
        subst (λ x. let (code, p', e') = seq_add p (some x) e in IsValid p' e') q
          (add_digits d ds (ground arith))
  ]
