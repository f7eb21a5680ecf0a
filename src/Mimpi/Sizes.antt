-- ===== src/Mimpi/Sizes.antt =====
-- `buffers_size` of mimpi.c counts the messages of each list, whatever arrives and is received.
use mimuw.Prelude.{ℕ, suc, ◌+◌, ◌≡◌, refl, false, Option, none, some, List, [], ◌∷◌}
use mimuw.Prelude.{arith, ap, ◌∙◌, length, length-append, ◌==◌, if◌then◌else◌}
use mimuw.Prelude.{leb, Bool-cases, inl, inr, sym}
use mathlib.Core.Option
use mimuw.Prelude.Int.{ℤ, pos, negsuc}
use mimuw.Mimpi.Process.{Retcode, success, Message, Arrival, woken, short, header, Process, set_at}
use mimuw.Mimpi.Process.{Write, deadlock_tag, waiting_tag, not_waiting_tag}
use mimuw.Mimpi.Wire.{header_size, read_chunks, send_chunks}
use mimuw.Mimpi.Send.{deliver, send, contents}
use mimuw.Mimpi.Receive.{enqueue, receive_message, receive_all, is_read}
use mimuw.Mimpi.Recv.{fits, find_message, tell, no_message, take_message, Round, returned, waits}
use mimuw.Mimpi.Recv.{recv_round, recv_loop, recv, Received, after_round}

-- The counters of the lists are exact.
abbrev pub IsCounted : Process → Type 0
IsCounted p = (i : ℕ) → p.buffers_size i ≡ length (p.buffers i)

-- Two processes with the same lists and counters.
abbrev pub SameBuffers : Process → Process → Type 0
SameBuffers p q = (p.buffers ≡ q.buffers) × (p.buffers_size ≡ q.buffers_size)

deliver-same :
    (m : Message) (n : ℕ) (r : Retcode × List Write) (p : Process)
    → SameBuffers (deliver m n r p).1 p
unfolding deliver
deliver-same m n (success, ws) p = (refl, refl)
deliver-same m n (_, ws) p = (refl, refl)

pub send-same :
    (d : Option (List ℕ)) (count : ℕ) (dest tag : ℤ) (p : Process)
    → SameBuffers (send d count dest tag p).1 p
unfolding send
send-same d count (negsuc k) tag p = (refl, refl)
send-same d count (pos n) tag p = ground (
  arith,
  deliver-same (record { payload = contents d count; count = count; tag = tag }) n
      (send_chunks p.writes (header_size + count)) p,
)

enqueue-IsCounted :
    (i count : ℕ) (tag : ℤ) (o : Option (List ℕ)) (p : Process)
    → IsCounted p
    → IsCounted (enqueue i count tag o p)
unfolding enqueue
enqueue-IsCounted i count tag none p h = h
enqueue-IsCounted i count tag (some bytes) p h = λ j. elim (Bool-cases (i == j)) [
  | inl e ↦ rw e (
      omega (
        arith,
        h i,
        length-append (p.buffers i) (record { payload = bytes; count = count; tag = tag } ∷ []),
      ))
  | inr e ↦ rw e (h j)
]

-- Every arrival keeps the counters exact.
pub receive_message-IsCounted :
    (a : Arrival) (p : Process) → IsCounted p → IsCounted (receive_message a p)
unfolding receive_message
receive_message-IsCounted woken p h = h
receive_message-IsCounted (short i) p h = h
receive_message-IsCounted (header i count tag reads bytes) p h =
    λ j. ground (arith, h j, enqueue-IsCounted i count tag (read_chunks reads count bytes) p h j)

pub receive_all-IsCounted :
    (xs : List Arrival) (p : Process) → IsCounted p → IsCounted (receive_all xs p)
unfolding receive_all
receive_all-IsCounted [] p h = h
receive_all-IsCounted (x ∷ xs) p h =
    receive_all-IsCounted xs (if is_read x p then receive_message x p else p)
      (λ i. ground (arith, h i, receive_message-IsCounted x p h i))

same-IsCounted : (p q : Process) → SameBuffers q p → IsCounted p → IsCounted q
same-IsCounted p q s h i =
    ap (λ (f : ℕ → ℕ). f i) s.1 ∙ h i ∙ sym (ap (λ (f : ℕ → List Message). length (f i)) s.0)

tell-same : (source : ℕ) (tag : ℤ) (p : Process) → SameBuffers (tell source tag p) p
unfolding tell
tell-same source tag p = ground (arith, send-same none 0 (pos source) tag p)

-- The process that a round leaves.
abbrev pub after : Round → Process
after (returned c d p) = p
after (waits p) = p

no_message-same : (source : ℕ) (p : Process) → SameBuffers (after (no_message source p)) p
unfolding no_message
no_message-same source p = ground (
  arith,
  send-same none 0 (pos source) deadlock_tag
      (record p { waiting_for_me = set_at p.waiting_for_me source false }),
)

-- What the search leaves is one message shorter.
abbrev Shorter : Option (Message × List Message) → ℕ → Type 0
Shorter none n = Unit {0}
Shorter (some (m, rest)) n = n ≡ suc (length rest)

find_message-Shorter :
    (count : ℕ) (tag : ℤ) (ms : List Message) → Shorter (find_message count tag ms) (length ms)
unfolding find_message
find_message-Shorter count tag [] = tt
find_message-Shorter count tag (x ∷ xs) = elim (Bool-cases (fits count tag x)) [
  | inl hit ↦ rw (find_message, hit)
  | inr miss ↦
      rw (find_message, miss)
        (one_more (find_message count tag xs) (find_message-Shorter count tag xs))
]
  where
    one_more :
        (o : Option (Message × List Message))
        → Shorter o (length xs)
        → Shorter
            (Option.map (λ ((m, ms) : Message × List Message). (m, x ∷ ms)) o)
            (suc (length xs))
    one_more none h = tt
    one_more (some (m, ms)) h = ap suc h

take_message-IsCounted :
    (count source : ℕ) (o : Option (Message × List Message)) (p : Process)
    → Shorter o (length (p.buffers source))
    → IsCounted p
    → IsCounted (after (take_message count source o p))
unfolding take_message
take_message-IsCounted count source none p s h =
    same-IsCounted p (after (no_message source p)) (no_message-same source p) h
take_message-IsCounted count source (some (m, ms)) p s h = λ i. elim (Bool-cases (source == i)) [
  | inl e ↦ rw e (ground (arith, told source, h source, s, same_size))
  | inr e ↦ rw e (told i)
]
  where
    same_size : length ((tell source not_waiting_tag p).buffers source) ≡ length (p.buffers source)
    same_size =
        ap (λ (f : ℕ → List Message). length (f source)) (tell-same source not_waiting_tag p).0

    told : IsCounted (tell source not_waiting_tag p)
    told = same-IsCounted p (tell source not_waiting_tag p) (tell-same source not_waiting_tag p) h

recv_round-IsCounted :
    (count source : ℕ) (tag : ℤ) (p : Process)
    → IsCounted p
    → IsCounted (after (recv_round count source tag p))
unfolding recv_round
recv_round-IsCounted count source tag p h = elim (Bool-cases (p.sended_barrier source)) [
  | inl e ↦ rw (recv_round, e) h
  | inr e ↦
      rw (recv_round, e)
        (take_message-IsCounted count source (find_message count tag (p.buffers source)) p
          (find_message-Shorter count tag (p.buffers source)) h)
]

-- A call that returns leaves exact counters.
abbrev pub Kept : {A : Type 0} → Option (A × Process) → Type 0
Kept none = Unit {0}
Kept (some (a, p)) = IsCounted p

after_round-Kept :
    (left : List (List Arrival)) (next : Process → Received) (r : Round)
    → ((q : Process) → IsCounted q → Kept (next q))
    → IsCounted (after r)
    → Kept (after_round left next r)
after_round-Kept left next (returned c d p) later h = h
after_round-Kept left next (waits p) later h = later p h

recv_loop-Kept :
    (batches : List (List Arrival)) (count source : ℕ) (tag : ℤ) (p : Process)
    → IsCounted p
    → Kept (recv_loop batches count source tag p)
unfolding recv_loop
recv_loop-Kept [] count source tag p h =
    after_round-Kept [] _ (recv_round count source tag p) (λ q k. tt)
      (recv_round-IsCounted count source tag p h)
recv_loop-Kept (batch ∷ later) count source tag p h =
    after_round-Kept (batch ∷ later) _ (recv_round count source tag p)
      (λ q k.
        recv_loop-Kept later count source tag (receive_all batch q)
          (receive_all-IsCounted batch q k))
      (recv_round-IsCounted count source tag p h)

-- `MIMPI_Recv` keeps the counters exact, whichever way it returns.
pub recv-IsCounted :
    (count : ℕ) (source tag : ℤ) (p : Process) → IsCounted p → Kept (recv count source tag p)
unfolding recv
recv-IsCounted count (negsuc k) tag p h = h
recv-IsCounted count (pos n) tag p h = elim (Bool-cases (p.my_rank == n)) [
  | inl e ↦ rw (recv, e) h
  | inr e ↦ elim (Bool-cases (leb p.world_size n)) [
    | inl f ↦ rw (recv, e, f) h
    | inr f ↦
        rw (recv, e, f)
          (recv_loop-Kept p.arrivals count n tag (tell n waiting_tag p)
            (same-IsCounted p (tell n waiting_tag p) (tell-same n waiting_tag p) h))
  ]
]
