-- ===== src/Mimpi/Send.antt =====
-- `MIMPI_Send` of mimpi.c.
use mimuw.Prelude.{ℕ, ◌+◌, not, ◌&&◌, Option, none, some, List, ◌∷◌}
use mimuw.Prelude.{◌==◌, leb, if◌then◌else◌, take, replicate}
use mimuw.Prelude.Int.{ℤ, pos, negsuc}
use mimuw.Mimpi.Process.{Retcode, success, attempted_self_op, no_such_rank, remote_finished}
use mimuw.Mimpi.Process.{Message, Write, Process, int_eq, finalize_tag}
use mimuw.Mimpi.Wire.{header_size, send_chunks}

-- The bytes behind the header: `calloc` leaves zeros where no data is given.
abbrev pub contents : Option (List ℕ) → ℕ → List ℕ
contents none count = replicate count 0
contents (some d) count = take count d

-- A message whose last chunk was written is in the pipe; otherwise the receiver never sees it.
unfoldable pub deliver : Message → ℕ → Retcode × List Write → Process → Retcode × Process
deliver m n (success, ws) p =
    (success, record p { writes = ws; sent = record { destination = n; message = m } ∷ p.sent })
deliver m n (code, ws) p = (code, record p { writes = ws })

-- `MIMPI_Send`
unfoldable pub send :
    Option (List ℕ) → (count : ℕ) (destination tag : ℤ) → Process → Retcode × Process
unfolding deliver
send d count (negsuc k) tag p = (no_such_rank, p)
send d count (pos n) tag p =
    if p.my_rank == n && not (int_eq tag finalize_tag)
    then (attempted_self_op, p)
    else if leb p.world_size n
    then (no_such_rank, p)
    else if p.finished n
    then (remote_finished, p)
    else deliver (record { payload = contents d count; count = count; tag = tag }) n
        (send_chunks p.writes (header_size + count)) p
