-- ===== src/Mimpi/Outcome.antt =====
-- What `MIMPI_Recv` of mimpi.c returns, and what it leaves in the lists.
use mimuw.Prelude.{ℕ, ◌+◌, ◌-◌, ◌<◌, ◌≡◌, ◌≢◌, Bool, true, false, Option, none, some}
use mimuw.Prelude.{List, [], ◌∷◌, ◌++◌, arith, ap, ◌∙◌, take, ◌==◌, leb}
use mimuw.Prelude.Int.{ℤ, pos}
use mimuw.Mimpi.Process.{Retcode, success, remote_finished}
use mimuw.Mimpi.Process.{Message, Arrival, Write, Process, set_at, waiting_tag, not_waiting_tag}
use mimuw.Mimpi.Wire.{header_size, send_chunks}
use mimuw.Mimpi.Send.{deliver, send, contents}
use mimuw.Mimpi.Recv.{fits, tell, no_message, take_message, recv_round, recv_loop}
use mimuw.Mimpi.Recv.{recv, returned}
use mimuw.Mimpi.Search.{NoneFits, find_message-first, find_message-none}

-- What a message to the peer leaves alone: all that `MIMPI_Recv` looks at.
record SameInbox (p q : Process) : Type 0 where
  barrier : p.sended_barrier ≡ q.sended_barrier
  lists : p.buffers ≡ q.buffers
  sizes : p.buffers_size ≡ q.buffers_size
  over : p.finished ≡ q.finished
  later : p.arrivals ≡ q.arrivals
  detection : p.deadlock_detection ≡ q.deadlock_detection
  rank : p.my_rank ≡ q.my_rank
  size : p.world_size ≡ q.world_size

-- What `MIMPI_Recv` leaves when it has taken a message of n, and the others ms stay.
pub record Taken (p : Process) (n : ℕ) (ms : List Message) (p' : Process) : Type 0 where
  pub list : p'.buffers n ≡ ms
  pub others : (j : ℕ) → j ≢ n → p'.buffers j ≡ p.buffers j
  pub barrier : p'.sended_barrier ≡ p.sended_barrier
  pub rank : p'.my_rank ≡ p.my_rank
  pub size : p'.world_size ≡ p.world_size

deliver-SameInbox :
    (m : Message) (n : ℕ) (r : Retcode × List Write) (p : Process) → SameInbox (deliver m n r p).1 p
unfolding deliver
deliver-SameInbox m n (success, ws) p = ground arith
deliver-SameInbox m n (_, ws) p = ground arith

tell-SameInbox : (source : ℕ) (tag : ℤ) (p : Process) → SameInbox (tell source tag p) p
unfolding tell send
tell-SameInbox source tag p = ground (
  arith,
  deliver-SameInbox (record { payload = contents none 0; count = 0; tag = tag }) source
      (send_chunks p.writes (header_size + 0)) p,
)

here : (n : ℕ) (ms : List Message) (f : ℕ → List Message) → set_at f n ms n ≡ ms
here n ms f = ground arith

there : (n j : ℕ) (ms : List Message) (f : ℕ → List Message) → j ≢ n → set_at f n ms j ≡ f j
there n j ms f ne = ground arith

no_message-finished :
    (n : ℕ) (q : Process)
    → q.deadlock_detection ≡ false
    → q.finished n ≡ true
    → q.buffers_size n ≡ 0
    → no_message n q ≡ returned remote_finished none q
unfolding no_message
no_message-finished n q plain over size = ground arith

module _ (p : Process) (n count : ℕ) (tag : ℤ) (other : p.my_rank ≢ n)
    (rank : n < p.world_size) where
  recv_accepted : recv count (pos n) tag p ≡ recv_loop p.arrivals count n tag (tell n waiting_tag p)
  unfolding recv
  recv_accepted =
      let a : (p.my_rank == n) ≡ false = ground arith in
      let b : leb p.world_size n ≡ false = ground arith in rw (recv, a, b)

  told : Process
  told = tell n waiting_tag p

  -- A first round that returns is the whole call.
  recv_at_once :
      (c : Retcode) (d : Option (List ℕ)) (q : Process)
      → recv_round count n tag told ≡ returned c d q
      → (left : List (List Arrival)) × (recv count (pos n) tag p
          ≡ some ((c, d), record q { arrivals = left }))
  unfolding told
  recv_at_once c d q e = go p.arrivals recv_accepted
    where
      go :
          (xs : List (List Arrival))
          → recv count (pos n) tag p ≡ recv_loop xs count n tag (tell n waiting_tag p)
          → (left : List (List Arrival)) × (recv count (pos n) tag p
              ≡ some ((c, d), record q { arrivals = left }))
      go [] h = ([], h ∙ unfold recv_loop in rw e)
      go (x ∷ xs) h = (x ∷ xs, h ∙ unfold recv_loop in rw e)

  told-SameInbox : SameInbox told p
  unfolding told
  told-SameInbox = tell-SameInbox n waiting_tag p

  -- `recv-first`, with all that the next call looks at.
  pub recv-takes :
      (before behind : List Message) (m : Message)
      → p.sended_barrier n ≡ false
      → p.buffers n ≡ before ++ m ∷ behind
      → NoneFits count tag before
      → fits count tag m ≡ true
      → (p' : Process) × (recv count (pos n) tag p
          ≡ some ((success, some (take count m.payload)), p'))
        × Taken p n (before ++ behind) p'
  unfolding recv_round take_message
  recv-takes before behind m quiet list none_before hit =
      let again : SameInbox (tell n not_waiting_tag told) told =
        tell-SameInbox n not_waiting_tag told in
      let first = told-SameInbox in
      let q : Process = record (tell n not_waiting_tag told) {
        buffers = set_at (tell n not_waiting_tag told).buffers n (before ++ behind);
        buffers_size =
            set_at (tell n not_waiting_tag told).buffers_size n
              ((tell n not_waiting_tag told).buffers_size n - 1);
      } in
      let (left, run) = recv_at_once success (some (take count m.payload)) q (
        rw (
          recv_round,
          ap (λ (f : ℕ → Bool). f n) first.barrier,
          quiet,
          ap (λ (f : ℕ → List Message). f n) first.lists,
          list,
          find_message-first count tag before behind m none_before hit,
        )) in
      (
        record q { arrivals = left },
        run,
        record {
          list = here n (before ++ behind) (tell n not_waiting_tag told).buffers;
          others = λ j ne.
              there n j (before ++ behind) (tell n not_waiting_tag told).buffers ne
              ∙ ap (λ (f : ℕ → List Message). f j) again.lists
              ∙ ap (λ (f : ℕ → List Message). f j) first.lists;
          barrier = again.barrier ∙ first.barrier;
          rank = again.rank ∙ first.rank;
          size = again.size ∙ first.size;
        },
      )

  -- When n is the rank of another process of the world, no barrier message of it is pending, and its
  -- list has a message that fits: `MIMPI_Recv` returns the first message that fits, and takes it out;
  -- the others keep their order, and the other lists are as they were.
  pub recv-first :
      (before behind : List Message) (m : Message)
      → p.sended_barrier n ≡ false
      → p.buffers n ≡ before ++ m ∷ behind
      → NoneFits count tag before
      → fits count tag m ≡ true
      → (p' : Process) × (recv count (pos n) tag p
          ≡ some ((success, some (take count m.payload)), p'))
        × (p'.buffers n ≡ before ++ behind)
        × ((j : ℕ) → j ≢ n → p'.buffers j ≡ p.buffers j)
  recv-first before behind m quiet list none_before hit =
      let (p', run, taken) = recv-takes before behind m quiet list none_before hit in
      (p', run, taken.list, taken.others)

  -- After a barrier message from the source, `MIMPI_Recv` copies nothing, and takes that message only.
  pub recv-skips :
      p.sended_barrier n ≡ true
      → (p' : Process) × (recv count (pos n) tag p ≡ some ((success, none), p'))
        × (p'.buffers ≡ p.buffers)
        × (p'.sended_barrier n ≡ false)
        × (p'.my_rank ≡ p.my_rank)
        × (p'.world_size ≡ p.world_size)
  unfolding recv_round
  recv-skips sent =
      let first = told-SameInbox in
      let q : Process = record told { sended_barrier = set_at told.sended_barrier n false } in
      let (left, run) =
        recv_at_once success none q
          (rw (recv_round, ap (λ (f : ℕ → Bool). f n) first.barrier, sent)) in
      (record q { arrivals = left }, run, first.lists, cleared, first.rank, first.size)
    where
      cleared : set_at told.sended_barrier n false n ≡ false
      cleared = ground arith

  -- Without deadlock detection, `MIMPI_Recv` reports a source that has finished and whose list is
  -- empty, and every list is as it was.
  pub recv-finished :
      p.sended_barrier n ≡ false
      → p.deadlock_detection ≡ false
      → p.finished n ≡ true
      → p.buffers n ≡ []
      → p.buffers_size n ≡ 0
      → (p' : Process) × (recv count (pos n) tag p ≡ some ((remote_finished, none), p'))
        × (p'.buffers ≡ p.buffers)
  unfolding recv_round take_message
  recv-finished quiet plain over list size =
      let first = told-SameInbox in
      let (left, run) = recv_at_once remote_finished none told (
        rw
          (
            recv_round,
            ap (λ (f : ℕ → Bool). f n) first.barrier,
            quiet,
            ap (λ (f : ℕ → List Message). f n) first.lists,
            list,
            find_message-none count tag [] tt,
            take_message,
          )
          (no_message-finished n told (first.detection ∙ plain)
            (ap (λ (f : ℕ → Bool). f n) first.over ∙ over)
            (ap (λ (f : ℕ → ℕ). f n) first.sizes ∙ size))) in
      (record told { arrivals = left }, run, first.lists)
