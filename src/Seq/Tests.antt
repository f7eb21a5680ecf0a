-- ===== src/Seq/Tests.antt =====
-- The operations of seq.c on small trees, and the theorems at concrete inputs.
use mimuw.Prelude.Int.{pos, negsuc}
use mimuw.Prelude.{
  ℕ, ◌&&◌, ◌||◌, not, ◌≡◌, refl, Bool, true, false, none, some, List, [], ◌∷◌, arith,
}
use mimuw.Seq.Node.{Digit, lo, mid, hi, CString, chars, Node, null, node, has, set_child, update}
use mimuw.Seq.Env.{Code, failed, unchanged, done, cleared, einval, enomem, Env, allocate}
use mimuw.Seq.Node.Laws.{is_prefix}
use mimuw.Seq.Walk.{seq_bad}
use mimuw.Seq.Walk.Laws.{known}
use mimuw.Seq.Add.{seq_add}
use mimuw.Seq.Remove.{seq_remove, seq_delete}
use mimuw.Seq.Query.{seq_set_name, seq_get_name}
use mimuw.Seq.Equiv.{seq_equiv}
use mimuw.Seq.Refs.{IsValid}
use mimuw.Seq.Refs.Release.{recount, seq_delete-frees_all}
use mimuw.Seq.Refs.Name.{Safe, allocate-IsCounted, seq_set_name-Safe}
use mimuw.Seq.Refs.Remove.{seq_remove-present}
use mimuw.Seq.Refs.Pair.{Joins}
use mimuw.Seq.Add.Laws.{seq_add-new, seq_add-rollback, seq_add-present}
use mimuw.Seq.Contract.{seq_equiv-Joins, seq_equiv-Safe}
use mimuw.Seq.Naming.{get_name-set_name}

abbrev fresh : Env
fresh = record { errno = cleared; classes = λ _. none; next = 0; mallocs = [] }

abbrev with_answers : List Bool → Env
with_answers ms = record fresh { mallocs = ms }

-- The empty sequence and "0".
abbrev small : Node
small = node (negsuc 0) (node (pos 0) null null null none) null null none

small-IsValid : IsValid small fresh
small-IsValid = record { counted = λ a. refl; fresh = λ a le. refl }

-- "0" and "1", where "1" is in the class at address 0, named "A".
abbrev named : Node
named =
    node (negsuc 0) (node (pos 0) null null null none) (node (pos 1) null null null (some 0)) null
      none

abbrev letter : CString
letter = 65 ∷ []

abbrev named_env : Env
named_env = allocate letter [] fresh

named-IsValid : IsValid named named_env
named-IsValid = recount (allocate-IsCounted letter [] small-IsValid) (λ a. omega arith)

-- "01" is added below "0".
add_below : (seq_add small (some (chars (lo ∷ mid ∷ []))) fresh).0 ≡ done
unfolding seq_add seq_bad
add_below = refl

-- The second of two allocations fails: the first node is taken out again.
add_fails :
    seq_add small (some (chars (mid ∷ hi ∷ []))) (with_answers (true ∷ false ∷ []))
    ≡ (failed, small, record fresh { errno = enomem })
unfolding seq_add seq_bad
add_fails = refl

not_a_sequence :
    seq_add small (some (51 ∷ [])) fresh ≡ (failed, small, record fresh { errno = einval })
unfolding seq_add seq_bad
not_a_sequence = refl

seq_equiv-Joins_example :
    Joins named
      (lo ∷ [])
      (mid ∷ [])
      (seq_equiv named (some (chars (lo ∷ []))) (some (chars (mid ∷ []))) named_env)
seq_equiv-Joins_example = seq_equiv-Joins named named_env named-IsValid lo mid [] [] refl refl refl

seq_equiv-Safe_example :
    Safe (seq_equiv named (some (chars (lo ∷ []))) (some (chars (mid ∷ []))) named_env)
seq_equiv-Safe_example =
    seq_equiv-Safe named named_env named-IsValid (some (chars (lo ∷ []))) (some (chars (mid ∷ [])))

seq_remove-present_example :
    let p' = update [] (set_child mid null) named in
    (e' : Env) × (seq_remove named (some (chars (mid ∷ []))) named_env ≡ some (done, p', e'))
    × IsValid p' e'
    × ((xs : List Digit) → has p' xs ≡ (has named xs && not (is_prefix (mid ∷ []) xs)))
seq_remove-present_example = seq_remove-present named [] mid named_env named-IsValid refl

seq_add-new_example :
    let (code, p', e') = seq_add small (some (chars (lo ∷ mid ∷ []))) fresh in
    (code ≡ done)
    × ((xs : List Digit) → has p' xs ≡ (has small xs || is_prefix xs (lo ∷ mid ∷ [])))
    × (e'.classes ≡ fresh.classes)
unfolding known
seq_add-new_example = seq_add-new small lo (mid ∷ []) fresh refl refl refl

seq_add-rollback_example :
    let (code, p', e') =
      seq_add small (some (chars (mid ∷ hi ∷ []))) (with_answers (true ∷ false ∷ [])) in
    (code ≡ failed) × (p' ≡ small) × (e'.classes ≡ fresh.classes) × (e'.errno ≡ enomem)
unfolding known
seq_add-rollback_example =
    seq_add-rollback small mid (hi ∷ []) (with_answers (true ∷ false ∷ [])) refl refl refl

seq_add-present_example : seq_add small (some (chars (lo ∷ []))) fresh ≡ (unchanged, small, fresh)
seq_add-present_example = seq_add-present small lo [] fresh refl

seq_set_name-Safe_example :
    Safe (seq_set_name named (some (chars (lo ∷ []))) (some letter) named_env)
seq_set_name-Safe_example =
    seq_set_name-Safe named (some (chars (lo ∷ []))) (some letter) named_env named-IsValid

get_name-set_name_example :
    (o : Code × Node × Env) × (seq_set_name named
        (some (chars (mid ∷ [])))
        (some (66 ∷ []))
        named_env
      ≡ some o)
    × (seq_get_name o.1 (some (chars (mid ∷ []))) o.2 ≡ some (some (66 ∷ []), o.2))
get_name-set_name_example =
    get_name-set_name named mid [] (66 ∷ []) named_env named-IsValid refl refl refl

seq_delete-frees_all_example :
    (e' : Env) × (seq_delete named named_env ≡ some e') × ((a : ℕ) → e'.classes a ≡ none)
seq_delete-frees_all_example = seq_delete-frees_all named named_env named-IsValid
