-- ===== src/Seq/Naming.antt =====
-- `seq_valid`, and `seq_get_name` after `seq_set_name` (seq.c).
use mimuw.Prelude.{ℕ, ◌≡◌, refl, true, false, none, Option, some}
use mimuw.Prelude.{List, [], ◌∷◌, arith, Bool-cases, Option-cases, inl, inr, ap, ◌∙◌, sym}
use mimuw.Prelude.{if◌then◌else◌, ==_iff}
use mathlib.Core.Path.{ap₂}
use mimuw.Seq.Node.{Digit, CString, chars, Node, class, set_class, has, is_null, at, update}
use mimuw.Seq.Env.{Code, unchanged, done, Class, Env, store, allocate, malloc}
use mimuw.Seq.Walk.Laws.{bad-chars, seq_walk_found, seq_walk_missing, is_null_of_has}
use mimuw.Seq.Query.{str_eq, is_empty, seq_valid, rename, name_new, name_node, set_name_walked}
use mimuw.Seq.Query.{set_name_valid, seq_set_name, read_name, get_name_walked, seq_get_name}
use mimuw.Seq.Add.Grow.{grants}
use mimuw.Seq.Refs.{IsValid}
use mimuw.Seq.Refs.Pointer.{keep, node-Holds}
use mimuw.Seq.Refs.Name.{class_new-ok}
use mimuw.Seq.Refs.Merge.{put_self}
use mimuw.Seq.Refs.Write.{class-update_self, has-update}

str_eq_lem : (s t : CString) → str_eq s t ≡ true → s ≡ t
str_eq_lem [] [] h = refl
str_eq_lem [] (b ∷ t) h = cc
str_eq_lem (a ∷ s) [] h = cc
str_eq_lem (a ∷ s) (b ∷ t) h =
    ap₂ ◌∷◌ ((==_iff a b).0 (ground arith)) (str_eq_lem s t (ground arith))

-- `seq_valid` answers whether the sequence is in the tree, and changes nothing.
pub seq_valid-has :
    (p : Node) (d : Digit) (ds : List Digit) (e : Env)
    → is_null p ≡ false
    → seq_valid p (some (chars (d ∷ ds))) e ≡ ((if has p (d ∷ ds) then done else unchanged), e)
unfolding seq_valid
seq_valid-has p d ds e n = elim (Bool-cases (has p (d ∷ ds))) [
  | inl there ↦ rw (seq_valid, n, bad-chars d ds, seq_walk_found p (d ∷ ds) there, there)
  | inr lost ↦ rw (seq_valid, n, bad-chars d ds, seq_walk_missing p (d ∷ ds) n lost, lost)
]

-- The node at `h` is in the tree and its class, read back, has the name `n`.
abbrev Reads : List Digit → CString → Option (Code × Node × Env) → Type 0
Reads h n r =
    (o : Code × Node × Env) × (r ≡ some o)
    × (has o.1 h ≡ true)
    × (read_name (class (at h o.1)) o.2 ≡ some (some n, o.2))

module _ (p : Node) (h : List Digit) (n : CString) (full : is_empty n ≡ false)
    (there : has p h ≡ true) where
  read_held :
      (a : ℕ) (k : Class) (e : Env)
      → e.classes a ≡ some k
      → k.s ≡ some n
      → read_name (some a) e ≡ some (some n, e)
  unfolding read_name
  read_held a k e q r = rw (read_name, q, r, full)

  name_held-Reads :
      (e : Env) (a : ℕ)
      → IsValid p e
      → class (at h p) ≡ some a
      → Reads h n (name_node p h (class (at h p)) n e)
  unfolding name_node rename
  name_held-Reads e a i q =
      let it = node-Holds p h a i q in
      elim (Bool-cases (str_eq n it.name)) [
        | inl same ↦ (
          (unchanged, p, e),
          rw (q, name_node, it.allocated, it.named, same),
          there,
          rw q (
              read_held a it.held e it.allocated
                (it.named ∙ ap some (sym (str_eq_lem n it.name same)))),
        )
        | inr other ↦
            let e' = store a (record it.held { s = some n }) e in
            (
              (done, p, e'),
              rw (q, name_node, it.allocated, it.named, other),
              there,
              rw q (read_held a (record it.held { s = some n }) e' (put_self e.classes a _) refl),
            )
      ]

  name_fresh-Reads :
      (e : Env)
      → (malloc e.mallocs).0 ≡ true
      → class (at h p) ≡ none
      → Reads h n (name_node p h (class (at h p)) n e)
  unfolding name_node name_new
  name_fresh-Reads e ok q =
      let e' = allocate n (malloc e.mallocs).1 e in
      (
        (done, update h (set_class (some e.next)) p, e'),
        rw (q, name_node, class_new-ok n e ok),
        has-update p h (some e.next) there h ∙ there,
        rw (class-update_self p h (some e.next) there) (
            read_held e.next (record { counter = 1; s = some n }) e' (put_self e.classes e.next _)
              refl),
      )

  name-Reads :
      (e : Env)
      → (malloc e.mallocs).0 ≡ true
      → IsValid p e
      → Reads h n (name_node p h (class (at h p)) n e)
  name-Reads e ok i = elim (Option-cases (class (at h p))) [
    | inl q ↦ name_fresh-Reads e ok q
    | inr (a, q) ↦ name_held-Reads e a i q
  ]

-- On a valid tree with the sequence: after `seq_set_name` has set a name that is not empty, with
-- memory for the two allocations, `seq_get_name` returns that name, and changes nothing.
pub get_name-set_name :
    (p : Node) (d : Digit) (ds : List Digit) (n : CString) (e : Env)
    → IsValid p e
    → has p (d ∷ ds) ≡ true
    → is_empty n ≡ false
    → grants 2 e.mallocs ≡ true
    → (o : Code × Node × Env) × (seq_set_name p (some (chars (d ∷ ds))) (some n) e ≡ some o)
      × (seq_get_name o.1 (some (chars (d ∷ ds))) o.2 ≡ some (some n, o.2))
unfolding seq_set_name set_name_valid set_name_walked seq_get_name get_name_walked
get_name-set_name p d ds n e i there full room =
    let ms = (malloc e.mallocs).1 in
    let first : (malloc e.mallocs).0 ≡ true = ground arith in
    let (o, run, still, reads) =
      name-Reads p (d ∷ ds) n full there (record e { mallocs = ms }) (ground arith)
        (keep e.errno ms i) in
    (
      o,
      rw
          (
            seq_set_name,
            is_null_of_has p (d ∷ ds) there,
            bad-chars d ds,
            full,
            set_name_valid,
            first,
            seq_walk_found p (d ∷ ds) there,
          )
          run,
      rw
          (
            seq_get_name,
            is_null_of_has o.1 (d ∷ ds) still,
            bad-chars d ds,
            seq_walk_found o.1 (d ∷ ds) still,
          )
          reads,
    )
