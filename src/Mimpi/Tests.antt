-- ===== src/Mimpi/Tests.antt =====
-- The library of mimpi.c at small worlds, and the theorems at concrete inputs.
use mimuw.Prelude.{ℕ, ◌<◌, ◌≡◌, refl, ◌≢◌, true, false, none, some, List, [], ◌∷◌, get_elem?}
use mimuw.Prelude.{arith, ◌⊎◌, inr, ◌==◌, if◌then◌else◌}
use mimuw.Prelude.Int.{pos}
use mimuw.Mimpi.Process.{success, remote_finished, Message, Process, wrote}
use mimuw.Mimpi.Process.{epipe, header, barrier_tag, reduce_tag}
use mimuw.Mimpi.Receive.{receive_all}
use mimuw.Mimpi.Wire.{read_chunks, send_chunks}
use mimuw.Mimpi.Recv.{recv}
use mimuw.Mimpi.Ranks.{relative_rank, left_child, right_child, parent}
use mimuw.Mimpi.Ranks.Laws.{parent-child}
use mimuw.Mimpi.Collective.{sum, combine, reduce}
use mimuw.Mimpi.Chunks.{read_chunks_lem}
use mimuw.Mimpi.Sizes.{IsCounted}
use mimuw.Mimpi.Outcome.{recv-first}
use mimuw.Mimpi.Pending.{recv-delayed}
use mimuw.Mimpi.Summary.{Summary}
use mimuw.Mimpi.Reduction.{Contributors, nobody, process, with_child, column}
use mimuw.Mimpi.Gathering.{Sends, reduce-Summary}

abbrev two_bytes : Message
two_bytes = record { payload = 7 ∷ 8 ∷ []; count = 2; tag = pos 5 }

abbrev one_byte : Message
one_byte = record { payload = 9 ∷ []; count = 1; tag = pos 5 }

-- Rank 0 of three, with two messages of rank 1 in its list.
abbrev rank_zero : Process
rank_zero = record {
  world_size = 3;
  my_rank = 0;
  deadlock_detection = true;
  finished = λ _. false;
  waiting_for_me = λ _. false;
  deadlock = λ _. false;
  sended_barrier = λ _. false;
  active = λ _. true;
  buffers = λ i. if i == 1 then two_bytes ∷ one_byte ∷ [] else [];
  buffers_size = λ i. if i == 1 then 2 else 0;
  sent = [];
  writes = [];
  arrivals = [];
}

rank_zero-IsCounted : IsCounted rank_zero
rank_zero-IsCounted = λ i. ground arith

recv-first_example :
    (p' : Process) × (recv 1 (pos 1) (pos 0) rank_zero ≡ some ((success, some (9 ∷ [])), p'))
    × (p'.buffers 1 ≡ two_bytes ∷ [])
    × ((j : ℕ) → j ≢ 1 → p'.buffers j ≡ rank_zero.buffers j)
recv-first_example =
    recv-first rank_zero 1 1 (pos 0) (omega arith) (omega arith) (two_bytes ∷ []) [] one_byte refl
      refl (refl, tt) refl

recv-delayed_example :
    (p' p'' : Process) × (recv 1
        (pos 1)
        (pos 0)
        (receive_all (header 1 0 barrier_tag [] [] ∷ []) rank_zero)
      ≡ some ((success, none), p'))
    × (p'.buffers ≡ rank_zero.buffers)
    × (recv 1 (pos 1) (pos 0) p' ≡ some ((success, some (9 ∷ [])), p''))
    × (p''.buffers 1 ≡ two_bytes ∷ [])
    × ((j : ℕ) → j ≢ 1 → p''.buffers j ≡ rank_zero.buffers j)
recv-delayed_example =
    recv-delayed rank_zero 1 1 (pos 0) 0 [] [] (two_bytes ∷ []) [] one_byte (omega arith)
      (omega arith) refl refl (refl, tt) refl

read_chunks_lem_example : read_chunks (2 ∷ 1 ∷ []) 3 (4 ∷ 5 ∷ 6 ∷ []) ≡ some (4 ∷ 5 ∷ 6 ∷ [])
read_chunks_lem_example =
    read_chunks_lem (2 ∷ 1 ∷ []) 3 (4 ∷ 5 ∷ 6 ∷ []) (inr (omega arith, inr (omega arith, refl)))

-- Four processes with the root 2.
parent-child_example :
    (q : ℕ) × (parent 4 2 1 ≡ some q)
    × (q < 4)
    × ((left_child 4 2 q ≡ some 1) ⊎ (right_child 4 2 q ≡ some 1))
    × (relative_rank 4 2 q < relative_rank 4 2 1)
parent-child_example = parent-child 4 2 (omega arith) 1 (omega arith) (omega arith)

rank_tree : left_child 4 2 3 ≡ some 1
unfolding left_child
rank_tree = refl

-- The root of four, when its children have sent: the rank 1 has the rank 3 for a child.
abbrev below_one : Contributors
below_one = process (100 ∷ []) (process (250 ∷ []) nobody nobody) nobody

abbrev below_two : Contributors
below_two = process (7 ∷ []) nobody nobody

abbrev brought : ℕ → Message
brought b = record { payload = b ∷ []; count = 1; tag = reduce_tag }

abbrev gathering : Process
gathering = record rank_zero {
  world_size = 4;
  buffers = λ i. if i == 1 then brought 94 ∷ [] else if i == 2 then brought 7 ∷ [] else [];
  buffers_size = λ i. if i == 1 then 1 else if i == 2 then 1 else 0;
}

from_one : Sends gathering sum 1 (left_child 4 0 0) below_one
unfolding left_child with_child
from_one = record {
  before = [];
  behind = [];
  message = brought 94;
  quiet = refl;
  list = refl;
  none_before = tt;
  hit = refl;
  payload = refl;
}

from_two : Sends gathering sum 1 (right_child 4 0 0) below_two
unfolding right_child with_child
from_two = record {
  before = [];
  behind = [];
  message = brought 7;
  quiet = refl;
  list = refl;
  none_before = tt;
  hit = refl;
  payload = refl;
}

reduce-Summary_example :
    (bytes : List ℕ) × (p' : Process) × (reduce (0 ∷ []) (3 ∷ []) 1 sum 0 gathering
      ≡ some ((success, some bytes), p'))
    × ((i : ℕ)
        → i < 1
        → (x : ℕ) × (get_elem? bytes i ≡ some x)
          × Summary sum (column i (process (3 ∷ []) below_one below_two)) x)
reduce-Summary_example =
    reduce-Summary sum 1 (0 ∷ []) (3 ∷ []) below_one below_two gathering (omega arith)
      (
        refl,
        (omega arith, tt),
        (refl, (omega arith, tt), (refl, (omega arith, tt), tt, tt), tt),
        (refl, (omega arith, tt), tt, tt),
      )
      from_one from_two

sum_wraps : combine sum (200 ∷ []) (100 ∷ []) ≡ 44 ∷ []
unfolding combine
sum_wraps = refl

sending_stops : send_chunks (wrote 512 ∷ epipe ∷ []) 600 ≡ (remote_finished, [])
unfolding send_chunks
sending_stops = refl
