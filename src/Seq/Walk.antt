-- ===== src/Seq/Walk.antt =====
-- `seq_bad` and `seq_walk` of seq.c: validation of a string and the walk down the tree.
pub mod Laws
use mimuw.Prelude.{ℕ, suc, Bool, true, false, not, ◌&&◌, Option, none, some, List, []}
use mimuw.Prelude.{◌∷◌, ◌==◌, if◌then◌else◌, get_elem?}
use mimuw.Seq.Node.{Digit, CString, digit, Node, child, is_null}
use mimuw.Seq.Env.{Code, failed, done}

-- The loop of `seq_bad`, and the test of what follows the digits.
unfoldable pub only_digits : CString → Code
only_digits [] = done
only_digits (c ∷ cs) = elim (digit c) [ none ↦ failed | some _ ↦ only_digits cs ]

-- `seq_bad`, of a pointer that may be null (`none`)
unfoldable pub seq_bad : Option CString → Code
unfolding only_digits
seq_bad none = failed
seq_bad (some []) = failed
seq_bad (some (c ∷ cs)) = only_digits (c ∷ cs)

abbrev pub bad : Option CString → Bool
bad s = elim (seq_bad s) [ failed ↦ true | _ ↦ false ]

-- The end of the loop of `seq_walk`: where `p` points, how often `i` was increased, and `stop`.
pub record Walk : Type 0 where
  pub path : List Digit
  pub count : ℕ
  pub stop : Bool

abbrev pub one_round : Walk → Walk
one_round w = record w { count = suc w.count }

abbrev pub down : Digit → Walk → Walk
down d w = record w { path = d ∷ w.path; count = suc w.count }

abbrev pub walked : List Digit → ℕ → Bool → Walk
walked ds n b = record { path = ds; count = n; stop = b }

-- The loop of `seq_walk` from the node `p`, with `step` as the look-ahead of its test.
unfoldable pub walk_loop : ℕ → Node → CString → Walk
walk_loop step p [] = walked [] 0 false
walk_loop step p (c ∷ cs) = elim (get_elem? (c ∷ cs) step) [
  | none ↦ walked [] 0 false
  | some _ ↦ elim (digit c) [
    | none ↦ one_round (walk_loop step p cs)
    | some d ↦ elim (is_null (child d p)) [
      | true ↦ walked [] 1 true
      | false ↦ down d (walk_loop step (child d p) cs)
    ]
  ]
]

-- The result of `seq_walk`: `none` for the null pointer. `counted` says that `l` is not null.
unfoldable pub seq_walk : (step : ℕ) (counted : Bool) → Node → CString → Option (List Digit) × ℕ
unfolding walk_loop
seq_walk step counted p s =
    let w = walk_loop step p s in
    if not w.stop && step == 0 && counted
    then (none, w.count)
    else if step == 1 && w.stop
    then (none, w.count)
    else if w.stop && not counted
    then (none, w.count)
    else (some w.path, w.count)
