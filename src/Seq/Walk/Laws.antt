-- ===== src/Seq/Walk/Laws.antt =====
-- What `seq_bad` accepts, and where `seq_walk` stops, in terms of the sequences in the tree.
use mimuw.Prelude.{◌⊎◌, Option-cases, ℕ, suc, ◌≡◌, refl, ap, Bool, true, false, none, some}
use mimuw.Prelude.{List, [], ◌∷◌, arith, length, Bool-cases, inl, inr}
use mimuw.Seq.Node.{Digit, lo, mid, hi, CString, char, chars, digit, Node, null, node, child, has}
use mimuw.Seq.Node.{is_null, at}
use mimuw.Seq.Env.{Code, failed, unchanged, done}
use mimuw.Seq.Walk.{only_digits, seq_bad, bad, walked, down, walk_loop, seq_walk}

pub digit-char : (d : Digit) → digit (char d) ≡ some d
digit-char lo = refl
digit-char mid = refl
digit-char hi = refl

pub char_of_digit : (c : ℕ) (d : Digit) → digit c ≡ some d → c ≡ char d
char_of_digit c lo e = ground arith
char_of_digit c mid e = ground arith
char_of_digit c hi e = ground arith

only_digits-chars : (ds : List Digit) → only_digits (chars ds) ≡ done
unfolding only_digits
only_digits-chars [] = refl
only_digits-chars (lo ∷ ds) = only_digits-chars ds
only_digits-chars (mid ∷ ds) = only_digits-chars ds
only_digits-chars (hi ∷ ds) = only_digits-chars ds

-- The reading of a string that has only digits.
pub read_digits : CString → List Digit
read_digits [] = []
read_digits (c ∷ cs) = elim (digit c) [ none ↦ read_digits cs | some d ↦ d ∷ read_digits cs ]

chars-read_digits : (s : CString) → only_digits s ≡ done → chars (read_digits s) ≡ s
unfolding only_digits read_digits
chars-read_digits [] e = refl
chars-read_digits (c ∷ cs) e =
    ground
      (arith, chars-read_digits cs, char_of_digit c lo, char_of_digit c mid, char_of_digit c hi)

pub seq_bad-chars : (d : Digit) (ds : List Digit) → seq_bad (some (chars (d ∷ ds))) ≡ done
unfolding seq_bad
seq_bad-chars d ds = only_digits-chars (d ∷ ds)

pub bad-chars : (d : Digit) (ds : List Digit) → bad (some (chars (d ∷ ds))) ≡ false
bad-chars d ds = go (seq_bad (some (chars (d ∷ ds)))) (seq_bad-chars d ds)
  where
    go : (c : Code) → c ≡ done → elim c as (λ _. Bool) [ failed ↦ true | _ ↦ false ] ≡ false
    go done e = refl
    go failed e = cc
    go unchanged e = cc

only_digits-cases : (s : CString) → (only_digits s ≡ done) ⊎ (only_digits s ≡ failed)
unfolding only_digits
only_digits-cases [] = inl refl
only_digits-cases (c ∷ cs) = elim (Option-cases (digit c)) [
  | inl e ↦ inr (rw (only_digits, e))
  | inr (d, e) ↦ rw (only_digits, e) (only_digits-cases cs)
]

-- A string that `seq_bad` lets through is spelt by digits.
pub digits_of :
    (s : CString) → bad (some s) ≡ false → (d : Digit) × (ds : List Digit) × (chars (d ∷ ds) ≡ s)
unfolding seq_bad
digits_of [] h = cc
digits_of (c ∷ cs) h = elim (only_digits-cases (c ∷ cs)) [
  | inl e ↦ nonempty (read_digits (c ∷ cs)) (chars-read_digits (c ∷ cs) e)
  | inr e ↦ cc
]
  where
    nonempty :
        (ds : List Digit)
        → chars ds ≡ c ∷ cs
        → (d : Digit) × (ds : List Digit) × (chars (d ∷ ds) ≡ c ∷ cs)
    nonempty [] q = cc
    nonempty (d ∷ ds) q = (d, ds, q)

pub has-child : (p : Node) (d : Digit) (ds : List Digit) → has p (d ∷ ds) ≡ has (child d p) ds
has-child null lo ds = refl
has-child null mid ds = refl
has-child null hi ds = refl
has-child (node w l m r c) lo ds = refl
has-child (node w l m r c) mid ds = refl
has-child (node w l m r c) hi ds = refl

pub is_null_of_has : (p : Node) (ds : List Digit) → has p ds ≡ true → is_null p ≡ false
is_null_of_has null ds h = cc
is_null_of_has (node w l m r c) ds h = refl

pub is_null-at : (p : Node) (ds : List Digit) → is_null (at ds p) ≡ true → has p ds ≡ false
unfolding at
is_null-at null ds h = refl
is_null-at (node w l m r c) [] h = cc
is_null-at (node w l m r c) (lo ∷ ds) h = is_null-at l ds h
is_null-at (node w l m r c) (mid ∷ ds) h = is_null-at m ds h
is_null-at (node w l m r c) (hi ∷ ds) h = is_null-at r ds h

-- One round of the walk.
walk_step :
    (p : Node) (d : Digit) (ds : List Digit)
    → is_null (child d p) ≡ false
    → walk_loop 0 p (chars (d ∷ ds)) ≡ down d (walk_loop 0 (child d p) (chars ds))
unfolding walk_loop
walk_step p lo ds e = rw (e, walk_loop)
walk_step p mid ds e = rw (e, walk_loop)
walk_step p hi ds e = rw (e, walk_loop)

walk_stop :
    (p : Node) (d : Digit) (ds : List Digit)
    → is_null (child d p) ≡ true
    → walk_loop 0 p (chars (d ∷ ds)) ≡ walked [] 1 true
unfolding walk_loop
walk_stop p lo ds e = rw (e, walk_loop)
walk_stop p mid ds e = rw (e, walk_loop)
walk_stop p hi ds e = rw (e, walk_loop)

walk_found :
    (p : Node) (ds : List Digit)
    → has p ds ≡ true
    → walk_loop 0 p (chars ds) ≡ walked ds (length ds) false
walk_found p [] h = unfold walk_loop in refl
walk_found p (d ∷ ds) h =
    let below : has (child d p) ds ≡ true = rw (← has-child) h in
    rw (walk_step p d ds (is_null_of_has _ ds below), walk_found (child d p) ds below)

-- The longest beginning of `ds` that is in the tree.
unfoldable pub known : Node → List Digit → List Digit
known p [] = []
known p (d ∷ ds) = elim (is_null (child d p)) [ true ↦ [] | false ↦ d ∷ known (child d p) ds ]

pub known_stop :
    (p : Node) (d : Digit) (ds : List Digit) → is_null (child d p) ≡ true → known p (d ∷ ds) ≡ []
unfolding known
known_stop p d ds e = rw (e, known)

pub known_step :
    (p : Node) (d : Digit) (ds : List Digit)
    → is_null (child d p) ≡ false
    → known p (d ∷ ds) ≡ d ∷ known (child d p) ds
unfolding known
known_step p d ds e = rw (e, known)

walk_missing :
    (p : Node) (ds : List Digit)
    → is_null p ≡ false
    → has p ds ≡ false
    → walk_loop 0 p (chars ds) ≡ walked (known p ds) (suc (length (known p ds))) true
walk_missing null [] n h = cc
walk_missing (node w l m r c) [] n h = cc
walk_missing p (d ∷ ds) n h = elim (Bool-cases (is_null (child d p))) [
  | inl e ↦ rw (known_stop p d ds e, walk_stop p d ds e)
  | inr e ↦
      rw (known_step p d ds e, walk_step p d ds e)
        (ap (down d) (walk_missing (child d p) ds e (rw (← has-child) h)))
]

-- With `step` 0 and no counter, `seq_walk` finds exactly the sequences of the tree.
pub seq_walk_found :
    (p : Node) (ds : List Digit) → has p ds ≡ true → (seq_walk 0 false p (chars ds)).0 ≡ some ds
unfolding seq_walk
seq_walk_found p ds h = rw (walk_found p ds h)

pub seq_walk_missing :
    (p : Node) (ds : List Digit)
    → is_null p ≡ false
    → has p ds ≡ false
    → (seq_walk 0 false p (chars ds)).0 ≡ none
unfolding seq_walk
seq_walk_missing p ds n h = rw (walk_missing p ds n h)

-- With a counter it finds what `seq_add` has to extend.
pub seq_walk_known :
    (p : Node) (ds : List Digit) → has p ds ≡ true → (seq_walk 0 true p (chars ds)).0 ≡ none
unfolding seq_walk
seq_walk_known p ds h = rw (walk_found p ds h)

pub seq_walk_new :
    (p : Node) (ds : List Digit)
    → is_null p ≡ false
    → has p ds ≡ false
    → seq_walk 0 true p (chars ds) ≡ (some (known p ds), suc (length (known p ds)))
unfolding seq_walk
seq_walk_new p ds n h = rw (walk_missing p ds n h)
