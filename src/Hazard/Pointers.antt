-- ===== src/Hazard/Pointers.antt =====
-- The operations of HazardPointer.c, one at a time, for the thread with the number `me` of
-- `threads`. A pointer is an address, NULL is `none`.
use mimuw.Prelude.{ℕ, zero, suc, ◌-◌, Bool, true, false, ◌||◌, Option, none, some}
use mimuw.Prelude.{List, [], ◌∷◌, ◌++◌, length, ltb, ◌==◌, if◌then◌else◌}

-- `struct HazardPointer`, its arrays by the thread's number; a list of `RetiredNode`s is that of
-- its pointers, the last retired first.
pub record HazardPointer : Type 0 where
  pub pointer : ℕ → Option ℕ
  pub retired : ℕ → List ℕ
  pub retired_count : ℕ → ℕ

abbrev pub retired_threshold : ℕ
retired_threshold = 128

abbrev pub set_at {ℓ} : {A : Type ℓ} → (ℕ → A) → ℕ → A → ℕ → A
set_at f i v j = if i == j then v else f j

-- `HazardPointer_initialize`
unfoldable pub initialize : HazardPointer
initialize = record { pointer = λ i. none; retired = λ i. []; retired_count = λ i. 0 }

abbrev pub same_pointer : Option ℕ → Option ℕ → Bool
same_pointer none none = true
same_pointer none (some b) = false
same_pointer (some a) none = false
same_pointer (some a) (some b) = a == b

-- `HazardPointer_protect`, given what its reads of the atom find, two in each round. It spins on
-- while the two differ; `none` when the reads end before.
unfoldable pub protect :
    (me : ℕ) → List (Option ℕ × Option ℕ) → HazardPointer → Option (Option ℕ × HazardPointer)
protect me [] hp = none
protect me ((p, again) ∷ reads) hp =
    let hp' = record hp { pointer = set_at hp.pointer me p } in
    let rest = protect me reads hp' in if same_pointer p again then some (p, hp') else rest

-- `HazardPointer_clear`
unfoldable pub clear : (me : ℕ) → HazardPointer → HazardPointer
clear me hp = record hp { pointer = set_at hp.pointer me none }

-- The loop over `j`: some thread protects the pointer.
unfoldable pub is_reserved : (threads : ℕ) → (ℕ → Option ℕ) → ℕ → Bool
is_reserved zero pointer p = false
is_reserved (suc j) pointer p = is_reserved j pointer p || same_pointer (pointer j) (some p)

-- The walk over the retired pointers: those that stay, and those that are freed.
unfoldable pub scan : (threads : ℕ) → (ℕ → Option ℕ) → List ℕ → List ℕ × List ℕ
unfolding is_reserved
scan threads pointer [] = ([], [])
scan threads pointer (p ∷ ps) =
    let (kept, freed) = scan threads pointer ps in
    if is_reserved threads pointer p then (p ∷ kept, freed) else (kept, p ∷ freed)

unfoldable pub collect : (threads me : ℕ) → HazardPointer → HazardPointer × List ℕ
unfolding scan
collect threads me hp =
    let (kept, freed) = scan threads hp.pointer (hp.retired me) in
    (
      record hp {
        retired = set_at hp.retired me kept;
        retired_count = set_at hp.retired_count me (hp.retired_count me - length freed);
      },
      freed,
    )

unfoldable pub add_retired : (me p : ℕ) → HazardPointer → HazardPointer
add_retired me p hp = record hp {
  retired = set_at hp.retired me (p ∷ hp.retired me);
  retired_count = set_at hp.retired_count me (suc (hp.retired_count me));
}

-- `HazardPointer_retire`, given whether its allocation succeeds, with the pointers that it frees.
unfoldable pub retire :
    (threads me : ℕ) → (node_ok : Bool) → ℕ → HazardPointer → HazardPointer × List ℕ
unfolding collect add_retired
retire threads me false p hp = (hp, [])
retire threads me true p hp =
    let hp' = add_retired me p hp in
    if ltb retired_threshold (hp'.retired_count me) then collect threads me hp' else (hp', [])

-- `HazardPointer_finalize` for the threads below `threads`, with the pointers that it frees.
unfoldable pub finalize : (threads : ℕ) → HazardPointer → HazardPointer × List ℕ
finalize zero hp = (hp, [])
finalize (suc i) hp =
    let (hp', freed) = finalize i hp in
    (record hp' { retired_count = set_at hp'.retired_count i 0 }, freed ++ hp'.retired i)
