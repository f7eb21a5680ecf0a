-- ===== src/Poset/Runs.antt =====
-- Sequences of calls of the functions of poset.cc: every state that is reached is valid.
use Prim.Native.String.{String}
use mimuw.Prelude.{ℕ, ◌≡◌, refl, arith, Bool}
use mimuw.Prelude.{Option, none, some, List, [], ◌∷◌}
use mimuw.Prelude.{Option-cases, inl, inr}
use mimuw.Poset.Messages.{Config}
use mimuw.Poset.State.{Poset, empty_poset, State, initial, index_of}
use mimuw.Poset.Operations.{
  poset_new, poset_delete, poset_size, poset_insert, poset_remove, poset_add, poset_del, poset_test,
  poset_clear, test_in,
}
use mimuw.Poset.Writes.{empty_poset-IsPoset}
use mimuw.Poset.Contract.{
  Outcome, poset_insert-Outcome, poset_remove-Outcome, poset_add-Outcome, poset_del-Outcome,
}
use mimuw.Poset.Ids.{IsValid, initial-IsValid, logged-IsValid, poset_new-IsValid, put-IsValid}
use mimuw.Poset.Ids.{drop-IsValid}

-- The calls that a program can make, and what they return.
pub data Call : Type 0 where
  new_poset : Call
  delete_poset ask_size clear : ℕ → Call
  insert remove : ℕ → Option String → Call
  relate unrelate test : ℕ → (v w : Option String) → Call

pub data Answer : Type 0 where
  done : Answer
  number : ℕ → Answer
  truth : Bool → Answer

abbrev pub truth_of : Bool × State → Answer × State
truth_of (b, s) = (truth b, s)

abbrev pub number_of : ℕ × State → Answer × State
number_of (n, s) = (number n, s)

unfoldable pub call : Config → Call → State → Answer × State
unfolding poset_new poset_delete poset_size poset_insert poset_remove poset_add poset_del poset_test
    poset_clear
call c new_poset s = number_of (poset_new c s)
call c (delete_poset id) s = (done, poset_delete c id s)
call c (ask_size id) s = number_of (poset_size c id s)
call c (clear id) s = (done, poset_clear c id s)
call c (insert id v) s = truth_of (poset_insert c id v s)
call c (remove id v) s = truth_of (poset_remove c id v s)
call c (relate id v w) s = truth_of (poset_add c id v w s)
call c (unrelate id v w) s = truth_of (poset_del c id v w s)
call c (test id v w) s = truth_of (poset_test c id v w s)

unfoldable pub run : Config → List Call → State → List Answer × State
unfolding call
run c [] s = ([], s)
run c (k ∷ ks) s = let (a, s1) = call c k s in let (rest, s2) = run c ks s1 in (a ∷ rest, s2)

module _ (c : Config) (s : State) (valid : IsValid s) where
  Outcome-IsValid :
      (id : ℕ) (p : Poset) (ok : Bool) (order : (x y : String) → Bool) (r : Bool × State)
      → s.posets id ≡ some p
      → Outcome s id ok order r
      → IsValid r.1
  Outcome-IsValid id p ok order r e o =
      put-IsValid s r.1 id p o.poset e o.stored o.valid o.others o.queue o.counter valid

  poset_insert-IsValid : (id : ℕ) (v : Option String) → IsValid (poset_insert c id v s).1
  unfolding poset_insert
  poset_insert-IsValid id none = logged-IsValid s _ refl refl refl valid
  poset_insert-IsValid id (some v) = elim (Option-cases (s.posets id)) [
    | inl e ↦ rw e (logged-IsValid s _ refl refl refl valid)
    | inr (p, e) ↦
        Outcome-IsValid id p _ _ _ e (poset_insert-Outcome c s id p e (valid.posets id p e) v)
  ]

  poset_remove-IsValid : (id : ℕ) (v : Option String) → IsValid (poset_remove c id v s).1
  unfolding poset_remove
  poset_remove-IsValid id none = logged-IsValid s _ refl refl refl valid
  poset_remove-IsValid id (some v) = elim (Option-cases (s.posets id)) [
    | inl e ↦ rw e (logged-IsValid s _ refl refl refl valid)
    | inr (p, e) ↦
        Outcome-IsValid id p _ _ _ e (poset_remove-Outcome c s id p e (valid.posets id p e) v)
  ]

  poset_add-IsValid : (id : ℕ) (v w : Option String) → IsValid (poset_add c id v w s).1
  unfolding poset_add
  poset_add-IsValid id none w = logged-IsValid s _ refl refl refl valid
  poset_add-IsValid id (some v) none = logged-IsValid s _ refl refl refl valid
  poset_add-IsValid id (some v) (some w) = elim (Option-cases (s.posets id)) [
    | inl e ↦ rw e (logged-IsValid s _ refl refl refl valid)
    | inr (p, e) ↦
        Outcome-IsValid id p _ _ _ e (poset_add-Outcome c s id p e (valid.posets id p e) v w)
  ]

  poset_del-IsValid : (id : ℕ) (v w : Option String) → IsValid (poset_del c id v w s).1
  unfolding poset_del
  poset_del-IsValid id none w = logged-IsValid s _ refl refl refl valid
  poset_del-IsValid id (some v) none = logged-IsValid s _ refl refl refl valid
  poset_del-IsValid id (some v) (some w) = elim (Option-cases (s.posets id)) [
    | inl e ↦ rw e (logged-IsValid s _ refl refl refl valid)
    | inr (p, e) ↦
        Outcome-IsValid id p _ _ _ e (poset_del-Outcome c s id p e (valid.posets id p e) v w)
  ]

  poset_test-IsValid : (id : ℕ) (v w : Option String) → IsValid (poset_test c id v w s).1
  unfolding poset_test test_in
  poset_test-IsValid id none w = logged-IsValid s _ refl refl refl valid
  poset_test-IsValid id (some v) none = logged-IsValid s _ refl refl refl valid
  poset_test-IsValid id (some v) (some w) = elim (Option-cases (s.posets id)) [
    | inl e ↦ rw e (logged-IsValid s _ refl refl refl valid)
    | inr (p, e) ↦ elim (Option-cases (index_of p.names v)) [
      | inl e' ↦ rw (e, e') (logged-IsValid s _ refl refl refl valid)
      | inr (i, e') ↦ elim (Option-cases (index_of p.names w)) [
        | inl e'' ↦ rw (e, e', e'') (logged-IsValid s _ refl refl refl valid)
        | inr (j, e'') ↦ rw (e, e', e'') (logged-IsValid s _ refl refl refl valid)
      ]
    ]
  ]

  poset_size-IsValid : (id : ℕ) → IsValid (poset_size c id s).1
  unfolding poset_size
  poset_size-IsValid id = elim (Option-cases (s.posets id)) [
    | inl e ↦ rw e (logged-IsValid s _ refl refl refl valid)
    | inr (p, e) ↦ rw e (logged-IsValid s _ refl refl refl valid)
  ]

  poset_clear-IsValid : (id : ℕ) → IsValid (poset_clear c id s)
  unfolding poset_clear
  poset_clear-IsValid id = elim (Option-cases (s.posets id)) [
    | inl e ↦ rw e (logged-IsValid s _ refl refl refl valid)
    | inr (p, e) ↦ rw e (
        put-IsValid s _ id p empty_poset e (ground arith) empty_poset-IsPoset (λ k ne. ground arith)
          refl refl valid)
  ]

  poset_delete-IsValid : (id : ℕ) → IsValid (poset_delete c id s)
  unfolding poset_delete
  poset_delete-IsValid id = elim (Option-cases (s.posets id)) [
    | inl e ↦ rw e (logged-IsValid s _ refl refl refl valid)
    | inr (p, e) ↦ rw e (drop-IsValid s _ id p e refl refl refl valid)
  ]

call-IsValid : (c : Config) (k : Call) (s : State) → IsValid s → IsValid (call c k s).1
unfolding call
call-IsValid c new_poset s v = poset_new-IsValid c s v
call-IsValid c (delete_poset id) s v = poset_delete-IsValid c s v id
call-IsValid c (ask_size id) s v = poset_size-IsValid c s v id
call-IsValid c (clear id) s v = poset_clear-IsValid c s v id
call-IsValid c (insert id x) s v = poset_insert-IsValid c s v id x
call-IsValid c (remove id x) s v = poset_remove-IsValid c s v id x
call-IsValid c (relate id x y) s v = poset_add-IsValid c s v id x y
call-IsValid c (unrelate id x y) s v = poset_del-IsValid c s v id x y
call-IsValid c (test id x y) s v = poset_test-IsValid c s v id x y

run_from-IsValid : (c : Config) (ks : List Call) (s : State) → IsValid s → IsValid (run c ks s).1
unfolding run
run_from-IsValid c [] s v = v
run_from-IsValid c (k ∷ ks) s v = run_from-IsValid c ks (call c k s).1 (call-IsValid c k s v)

-- After any sequence of calls from the start of the program every poset is a finite partial order
-- with different names, and each number that was given out belongs to one poset or waits once in
-- the queue.
pub run-IsValid : (c : Config) (ks : List Call) → IsValid (run c ks initial).1
run-IsValid c ks = run_from-IsValid c ks initial initial-IsValid
