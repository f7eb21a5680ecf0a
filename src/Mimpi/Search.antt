-- ===== src/Mimpi/Search.antt =====
-- The search of `MIMPI_Recv` (mimpi.c): the first message that fits, and the others in their order.
use mimuw.Prelude.{ℕ, ◌≡◌, refl, true, false, none, some, List, [], ◌∷◌, ◌++◌}
use mimuw.Prelude.Int.{ℤ}
use mimuw.Mimpi.Process.{Message}
use mimuw.Mimpi.Recv.{fits, find_message}

-- No message of the list fits.
abbrev pub NoneFits : ℕ → ℤ → List Message → Type 0
NoneFits count tag [] = Unit {0}
NoneFits count tag (m ∷ ms) = (fits count tag m ≡ false) × NoneFits count tag ms

-- The search takes the first message that fits out of the list, and keeps the order of the others.
pub find_message-first :
    (count : ℕ) (tag : ℤ) (before behind : List Message) (m : Message)
    → NoneFits count tag before
    → fits count tag m ≡ true
    → find_message count tag (before ++ m ∷ behind) ≡ some (m, before ++ behind)
unfolding find_message
find_message-first count tag [] behind m none_before hit = rw (find_message, hit)
find_message-first count tag (x ∷ xs) behind m none_before hit =
    rw (find_message, none_before.0, find_message-first count tag xs behind m none_before.1 hit)

pub find_message-none :
    (count : ℕ) (tag : ℤ) (ms : List Message)
    → NoneFits count tag ms
    → find_message count tag ms ≡ none
unfolding find_message
find_message-none count tag [] h = refl
find_message-none count tag (x ∷ xs) h = rw (find_message, h.0, find_message-none count tag xs h.1)
