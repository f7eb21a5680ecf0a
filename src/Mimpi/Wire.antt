-- ===== src/Mimpi/Wire.antt =====
-- The loops of mimpi.c that move a message through a pipe in chunks of at most 512 bytes.
use mimuw.Prelude.{ℕ, ◌-◌, Option, none, some, List, [], ◌∷◌}
use mimuw.Prelude.{◌++◌, ◌==◌, ltb, if◌then◌else◌, take, drop}
use mathlib.Core.Option
use mimuw.Mimpi.Process.{Retcode, success, remote_finished, Write, wrote, epipe}

-- `MAX_CHUNK_SIZE`
abbrev pub max_chunk_size : ℕ
max_chunk_size = 512

-- `sizeof(message_t)` where pointers take eight bytes and ints four.
abbrev pub header_size : ℕ
header_size = 24

-- The size of the next chunk, when `left` bytes are to go.
abbrev pub chunk_size : ℕ → ℕ
chunk_size left = if ltb max_chunk_size left then max_chunk_size else left

-- What a read or write of at most `chunk_size left` bytes moves, when the call answers `n`.
abbrev pub moved : ℕ → ℕ → ℕ
moved n left = if ltb (chunk_size left) n then chunk_size left else n

-- The reading loop of `receive_message`: `reads` are the answers of `chrecv`. Without an answer
-- the thread waits in `chrecv` for ever, `none`.
unfoldable pub read_chunks : (reads : List ℕ) (left : ℕ) (bytes : List ℕ) → Option (List ℕ)
read_chunks [] left bytes = if left == 0 then some [] else none
read_chunks (n ∷ reads) left bytes =
    let k = moved n left in
    let rest =
      Option.map (λ tail. take k bytes ++ tail) (read_chunks reads (left - k) (drop k bytes)) in
    if left == 0 then some [] else rest

-- The writing loop of `MIMPI_Send`, with `left` bytes to write.
unfoldable pub send_chunks : List Write → (left : ℕ) → Retcode × List Write
send_chunks [] left = (success, [])
send_chunks (epipe ∷ ws) left = if left == 0 then (success, epipe ∷ ws) else (remote_finished, ws)
send_chunks (wrote n ∷ ws) left =
    let rest = send_chunks ws (left - moved n left) in
    if left == 0 then (success, wrote n ∷ ws) else rest
