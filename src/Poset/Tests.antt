-- ===== src/Poset/Tests.antt =====
-- Runs of the functions of poset.cc, and examples of the theorems.
use mimuw.Prelude.{◌≡◌, ◌↔◌, refl, true, false, not, ◌&&◌, ◌||◌, Option, none, some}
use mimuw.Prelude.{List, [], ◌∷◌}
use text.Mathlib.Text.{◌==◌ as str_eq}
use mimuw.Poset.Messages
use mimuw.Poset.Messages.{Config}
use mimuw.Poset.State.{Poset, empty_poset, State, initial}
use mimuw.Poset.Operations.{poset_remove, poset_add, poset_del}
use mimuw.Poset.Names.{precedes, has}
use mimuw.Poset.Writes.{IsPoset}
use mimuw.Poset.Contract.{Outcome, addable, poset_remove-Outcome}
use mimuw.Poset.Contract.{poset_add-Outcome}
use mimuw.Poset.Covers.{Covers, poset_del-Covers}
use mimuw.Poset.Ids.{IsValid}
use mimuw.Poset.Runs.{Call, new_poset, delete_poset, ask_size, insert, remove, relate, unrelate}
use mimuw.Poset.Runs.{test, done, number, truth, run, run-IsValid}
use mimuw.Poset.Debug.{run-Alike}

abbrev silent : Config
silent = record { debug = false; to_string = λ n. "0" }

abbrev loud : Config
loud = record { debug = true; to_string = λ n. "0" }

-- Two posets; in the first one a precedes b, and b precedes c.
abbrev calls : List Call
calls =
    new_poset
    ∷ insert 0 (some "a")
    ∷ insert 0 (some "b")
    ∷ insert 0 (some "c")
    ∷ relate 0 (some "b") (some "c")
    ∷ relate 0 (some "a") (some "b")
    ∷ new_poset
    ∷ []

abbrev reached : State
reached = (run silent calls initial).1

abbrev poset_of : Option Poset → Poset
poset_of none = empty_poset
poset_of (some p) = p

abbrev chain : Poset
chain = poset_of (reached.posets 0)

chain-IsPoset : IsPoset chain
unfolding run
chain-IsPoset = (run-IsValid silent calls).posets 0 chain refl

answers :
    (run silent
      (test 0 (some "a") (some "c")
        ∷ unrelate 0 (some "a") (some "c")
        ∷ remove 0 (some "b")
        ∷ test 0 (some "a") (some "c")
        ∷ unrelate 0 (some "a") (some "c")
        ∷ test 0 (some "a") (some "c")
        ∷ delete_poset 0
        ∷ ask_size 0
        ∷ new_poset
        ∷ new_poset
        ∷ [])
      reached).0
    ≡ (truth true
        ∷ truth false
        ∷ truth true
        ∷ truth true
        ∷ truth true
        ∷ truth false
        ∷ done
        ∷ number 0
        ∷ number 0
        ∷ number 2
        ∷ [])
unfolding run
answers = refl

messages :
    (run loud (new_poset ∷ insert 0 none ∷ relate 7 (some "x") none ∷ []) initial).1.cerr
    ≡ "poset_new()\nposet_new: poset 0 created\nposet_insert(0, NULL)\nposet_insert: invalid value (NULL)\nposet_add(0, \"x\", NULL)\nposet_add: invalid value2 (NULL)\n"
unfolding run Messages.two_value_null Messages.three_arg_func_name Messages.one_value_null
    Messages.two_arg_func_name Messages.state_of_poset Messages.one_arg_func_name
messages = refl

poset_remove-Outcome_example :
    Outcome reached 0
      (has chain "b")
      (λ x y.
        precedes chain x y
        && not (has chain "b" && str_eq "b" x)
        && not (has chain "b" && str_eq "b" y))
      (poset_remove silent 0 (some "b") reached)
unfolding run
poset_remove-Outcome_example = poset_remove-Outcome silent reached 0 chain refl chain-IsPoset "b"

-- The elements of the chain but for the first relation
abbrev earlier_calls : List Call
earlier_calls =
    new_poset
    ∷ insert 0 (some "a")
    ∷ insert 0 (some "b")
    ∷ insert 0 (some "c")
    ∷ relate 0 (some "b") (some "c")
    ∷ []

abbrev before : State
before = (run silent earlier_calls initial).1

abbrev two_parts : Poset
two_parts = poset_of (before.posets 0)

two_parts-IsPoset : IsPoset two_parts
unfolding run
two_parts-IsPoset = (run-IsValid silent earlier_calls).posets 0 two_parts refl

poset_add-Outcome_example :
    Outcome before 0
      (addable two_parts "a" "b")
      (λ x y.
        precedes two_parts x y
        || (addable two_parts "a" "b" && precedes two_parts x "a" && precedes two_parts "b" y))
      (poset_add silent 0 (some "a") (some "b") before)
unfolding run
poset_add-Outcome_example =
    poset_add-Outcome silent before 0 two_parts refl two_parts-IsPoset "a" "b"

poset_del-Covers_example :
    (poset_del silent 0 (some "b") (some "c") reached).0 ≡ true ↔ Covers chain "b" "c"
unfolding run
poset_del-Covers_example = poset_del-Covers silent reached 0 chain refl "b" "c" chain-IsPoset

run-IsValid_example : IsValid reached
run-IsValid_example = run-IsValid silent calls

run-Alike_example :
    ((run loud calls initial).0 ≡ (run silent calls initial).0)
    × (((run loud calls initial).1.posets ≡ (run silent calls initial).1.posets)
        × ((run loud calls initial).1.available ≡ (run silent calls initial).1.available)
        × ((run loud calls initial).1.next_id ≡ (run silent calls initial).1.next_id))
run-Alike_example = run-Alike silent loud calls initial initial (refl, refl, refl)
