-- ===== src/Mimpi/Receive.antt =====
-- `receive_message` of mimpi.c: what a receiver thread does with one arrival.
use mimuw.Prelude.{ℕ, suc, Bool, true, false, ◌&&◌, Option, none, some, List, [], ◌∷◌, ◌++◌}
use mimuw.Prelude.{if◌then◌else◌}
use mimuw.Prelude.Int.{ℤ}
use mimuw.Mimpi.Process.{Arrival, woken, short, header, Process, set_at, int_eq}
use mimuw.Mimpi.Process.{finalize_tag, barrier_tag, deadlock_tag, waiting_tag, not_waiting_tag}
use mimuw.Mimpi.Wire.{read_chunks}

-- A message read to its end joins the list of its source; one that is cut short never does.
unfoldable pub enqueue : (source count : ℕ) → ℤ → Option (List ℕ) → Process → Process
enqueue i count tag none p = p
enqueue i count tag (some bytes) p = record p {
  buffers =
      set_at p.buffers i (p.buffers i ++ record { payload = bytes; count = count; tag = tag } ∷ []);
  buffers_size = set_at p.buffers_size i (suc (p.buffers_size i));
}

-- `receive_message`
unfoldable pub receive_message : Arrival → Process → Process
unfolding enqueue read_chunks
receive_message woken p = p
receive_message (short i) p = p
receive_message (header i count tag reads bytes) p =
    if p.deadlock_detection && int_eq tag deadlock_tag
    then record p { deadlock = set_at p.deadlock i true }
    else if p.deadlock_detection && int_eq tag waiting_tag
    then record p { waiting_for_me = set_at p.waiting_for_me i true }
    else if p.deadlock_detection && int_eq tag not_waiting_tag
    then record p { waiting_for_me = set_at p.waiting_for_me i false }
    else if int_eq tag finalize_tag
    then record p { finished = set_at p.finished i true; active = set_at p.active i false }
    else if int_eq tag barrier_tag
    then record p { sended_barrier = set_at p.sended_barrier i true }
    else enqueue i count tag (read_chunks reads count bytes) p

-- Whether the thread that reads this pipe is in its loop (`receiver_thread_function`).
abbrev pub is_read : Arrival → Process → Bool
is_read woken p = true
is_read (short i) p = p.active i
is_read (header i count tag reads bytes) p = p.active i

-- What the receiver threads do while the main thread waits.
unfoldable pub receive_all : List Arrival → Process → Process
unfolding receive_message
receive_all [] p = p
receive_all (x ∷ xs) p = receive_all xs (if is_read x p then receive_message x p else p)
