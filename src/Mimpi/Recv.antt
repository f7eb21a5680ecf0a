-- ===== src/Mimpi/Recv.antt =====
-- `MIMPI_Recv` of mimpi.c.
use mimuw.Prelude.{ℕ, ◌-◌, Bool, true, false, ◌&&◌, ◌||◌, Option, none, some, List, [], ◌∷◌}
use mimuw.Prelude.{◌==◌, leb, ltb, if◌then◌else◌, take}
use mathlib.Core.Option
use mimuw.Prelude.Int.{ℤ, pos, negsuc}
use mimuw.Mimpi.Process.{Retcode, success, attempted_self_op, no_such_rank, remote_finished}
use mimuw.Mimpi.Process.{deadlock_detected, Message, Arrival, Process, set_at, int_eq, M}
use mimuw.Mimpi.Process.{deadlock_tag, waiting_tag, not_waiting_tag}
use mimuw.Mimpi.Send.{send}
use mimuw.Mimpi.Receive.{receive_all}

abbrev pub is_user_tag : ℤ → Bool
is_user_tag (pos n) = true
is_user_tag (negsuc n) = false

-- The test of the search loop. `tag == 0` asks for any tag of the user's.
abbrev pub fits : ℕ → ℤ → Message → Bool
fits count tag m =
    (m.count == count && int_eq m.tag tag)
    || (m.count == count && (int_eq tag (pos 0) && is_user_tag m.tag))

-- The search loop and the unlinking: the first message that fits, and the others in their order.
unfoldable pub find_message : ℕ → ℤ → List Message → Option (Message × List Message)
find_message count tag [] = none
find_message count tag (m ∷ ms) =
    let rest =
      Option.map (λ ((x, xs) : Message × List Message). (x, m ∷ xs)) (find_message count tag ms) in
    if fits count tag m then some (m, ms) else rest

-- What one round of the loop of `MIMPI_Recv` comes to: a return, with the bytes that were copied to
-- `data`, or a wait.
pub data Round : Type 0 where
  returned : Retcode → Option (List ℕ) → Process → Round
  waits : Process → Round

-- A message to the peer about this process's waiting, if it has the lower rank.
unfoldable pub tell : (source : ℕ) → ℤ → Process → Process
tell source tag p =
    if p.deadlock_detection && ltb p.my_rank source then (send none 0 (pos source) tag p).1 else p

-- The end of a round, when no message fits.
unfoldable pub no_message : (source : ℕ) → Process → Round
unfolding send
no_message source p =
    if p.deadlock_detection && (p.waiting_for_me source && ltb source p.my_rank)
    then returned deadlock_detected none
        (send none 0 (pos source) deadlock_tag
          (record p { waiting_for_me = set_at p.waiting_for_me source false })).1
    else if p.deadlock_detection && (p.deadlock source && ltb p.my_rank source)
    then returned deadlock_detected none (record p { deadlock = set_at p.deadlock source false })
    else if p.finished source && p.buffers_size source == 0
    then returned remote_finished none p
    else waits p

-- The rest of a round, given what the search found.
unfoldable pub take_message : (count source : ℕ) → Option (Message × List Message) → Process → Round
take_message count source none p = no_message source p
take_message count source (some (m, ms)) p =
    let p' = tell source not_waiting_tag p in
    returned success (some (take count m.payload)) (record p' {
      buffers = set_at p'.buffers source ms;
      buffers_size = set_at p'.buffers_size source (p'.buffers_size source - 1);
    })

-- One round of the loop of `MIMPI_Recv`.
unfoldable pub recv_round : (count source : ℕ) → ℤ → Process → Round
recv_round count source tag p =
    if p.sended_barrier source
    then returned success none (record p { sended_barrier = set_at p.sended_barrier source false })
    else take_message count source (find_message count tag (p.buffers source)) p

-- A round that returns ends the loop; one that waits goes on, in `next`.
abbrev pub Received : Type 0
Received = Option ((Retcode × Option (List ℕ)) × Process)

abbrev pub after_round : List (List Arrival) → (Process → Received) → Round → Received
after_round left next (returned c d p) = some ((c, d), record p { arrivals = left })
after_round left next (waits p) = next p

-- The loop: each wait lets the receiver threads run. `none` waits for ever.
unfoldable pub recv_loop : List (List Arrival) → (count source : ℕ) → ℤ → Process → Received
recv_loop [] count source tag p = after_round [] (λ _. none) (recv_round count source tag p)
recv_loop (batch ∷ later) count source tag p =
    after_round (batch ∷ later) (λ q. recv_loop later count source tag (receive_all batch q))
      (recv_round count source tag p)

-- `MIMPI_Recv`: the code it returns, and the bytes it copies to `data`.
unfoldable pub recv : (count : ℕ) (source tag : ℤ) → M (Retcode × Option (List ℕ))
recv count (negsuc k) tag p = some ((no_such_rank, none), p)
recv count (pos n) tag p =
    if p.my_rank == n
    then some ((attempted_self_op, none), p)
    else if leb p.world_size n
    then some ((no_such_rank, none), p)
    else recv_loop p.arrivals count n tag (tell n waiting_tag p)
