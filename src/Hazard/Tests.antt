-- ===== src/Hazard/Tests.antt =====
-- HazardPointer.c at concrete inputs.
use mimuw.Prelude.{◌≡◌, refl, true, false, none, some, [], ◌∷◌, arith, replicate}
use mimuw.Hazard.Pointers.{HazardPointer, protect, retire, set_at}
use mimuw.Hazard.Retired.{occurs, retire-occurs}

-- The thread 1 protects the address 5; the thread 0 has retired it 128 times over.
abbrev shared : HazardPointer
shared = record {
  pointer = set_at (λ i. none) 1 (some 5);
  retired = set_at (λ i. []) 0 (replicate 128 5);
  retired_count = set_at (λ i. 0) 0 128;
}

abbrev quiet : HazardPointer
quiet = record { pointer = λ i. none; retired = λ i. []; retired_count = λ i. 0 }

-- The second round of reads agrees.
protects :
    protect 1 ((some 4, some 5) ∷ (some 5, some 5) ∷ []) quiet
    ≡ some (some 5, record quiet { pointer = set_at (set_at (λ i. none) 1 (some 4)) 1 (some 5) })
unfolding protect
protects = refl

retire-occurs_example : occurs 5 (retire 2 0 true 7 shared).1 ≡ false
retire-occurs_example = retire-occurs 2 0 true 7 shared 1 5 (omega arith) refl
