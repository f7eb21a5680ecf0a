-- ===== src/Mimpi/Collective.antt =====
-- `MIMPI_Barrier`, `MIMPI_Bcast`, `MIMPI_Reduce` and `MIMPI_Finalize` of mimpi.c, as sequences of
-- the calls of `MIMPI_Recv` and `MIMPI_Send` that they make.
use mimuw.Prelude.{ℕ, zero, suc, ◌+◌, ◌-◌, ◌*◌, ◌/◌, ◌%◌, Bool, true, false, Option, none, some}
use mimuw.Prelude.{List, [], ◌∷◌, ◌==◌, ltb, if◌then◌else◌, take, not}
use mimuw.Prelude.Int.{ℤ, pos, negsuc}
use mimuw.Mimpi.Process.{Retcode, success, attempted_self_op, no_such_rank, remote_finished}
use mimuw.Mimpi.Process.{deadlock_detected, Process, M, ◌>>=◌, ◌>>◌, pure}
use mimuw.Mimpi.Process.{finalize_tag, barrier_tag, bcast_tag, reduce_tag}
use mimuw.Mimpi.Send.{send}
use mimuw.Mimpi.Recv.{recv}
use mimuw.Mimpi.Ranks.{left_child, right_child, parent}

-- A call of `MIMPI_Send` whose result is not looked at.
pub send_to : Option (List ℕ) → (count destination : ℕ) → ℤ → M (Unit {0})
unfolding send
send_to d count destination tag p = some (tt, (send d count (pos destination) tag p).1)

pub send_if : Bool → Option (List ℕ) → (count destination : ℕ) → ℤ → M (Unit {0})
unfolding send_to
send_if b d count destination tag = if b then send_to d count destination tag else pure tt

pub send_child : Option ℕ → List ℕ → ℕ → ℤ → M (Unit {0})
unfolding send_to
send_child none d count tag = pure tt
send_child (some c) d count tag = send_to (some d) count c tag

-- The early return: only `MIMPI_ERROR_REMOTE_FINISHED` ends a collective operation.
abbrev pub unless_finished : Retcode → M Retcode → M Retcode
unless_finished remote_finished k = pure remote_finished
unless_finished success k = k
unless_finished attempted_self_op k = k
unless_finished no_such_rank k = k
unless_finished deadlock_detected k = k

-- The call `MIMPI_Recv(NULL, 0, source, -2)` under its test, and what follows.
pub await_barrier : Bool → (source : ℕ) → M Retcode → M Retcode
unfolding recv
await_barrier b source k =
    if b then (do r ← recv 0 (pos source) barrier_tag; unless_finished r.0 k) else k

-- The end of `MIMPI_Barrier` of a process that is not 0: the parent's answer, passed on.
pub barrier_down : (size rank : ℕ) → M Retcode
unfolding send_if await_barrier
barrier_down size rank = await_barrier true ((rank - 1) / 2) (do
  send_if (ltb (2 * rank + 1) size) none 0 (2 * rank + 1) barrier_tag
  send_if (ltb (2 * rank + 2) size) none 0 (2 * rank + 2) barrier_tag
  pure success)

pub barrier_root : (size rank : ℕ) → M Retcode
unfolding send_if
barrier_root size rank = do
  send_if (ltb (2 * rank + 1) size) none 0 (2 * rank + 1) barrier_tag
  send_if (ltb (2 * rank + 2) size) none 0 (2 * rank + 2) barrier_tag
  pure success

pub barrier_up : (size rank : ℕ) → M Retcode
unfolding send_if await_barrier barrier_down barrier_root
barrier_up size rank = await_barrier (ltb (2 * rank + 1) size) (2 * rank + 1) (
    await_barrier (ltb (2 * rank + 2) size) (2 * rank + 2) (do
      send_if (not (rank == 0)) none 0 ((rank - 1) / 2) barrier_tag
      if rank == 0 then barrier_root size rank else barrier_down size rank))

-- `MIMPI_Barrier`
unfoldable pub barrier : M Retcode
unfolding barrier_up
barrier p = barrier_up p.world_size p.my_rank p

-- What a buffer holds after a call of `MIMPI_Recv`, which may copy nothing.
abbrev pub received : List ℕ → Option (List ℕ) → List ℕ
received old none = old
received old (some new) = new

-- Both children get the data.
pub to_children : (size root rank : ℕ) → List ℕ → ℕ → M (Unit {0})
unfolding send_child
to_children size root rank d count = do
  send_child (left_child size root rank) d count bcast_tag
  send_child (right_child size root rank) d count bcast_tag

-- The rank that the code passes for a parent: -1 where there is none.
abbrev pub rank_of : Option ℕ → ℤ
rank_of none = negsuc 0
rank_of (some q) = pos q

-- The end of `MIMPI_Bcast` of a process that is not the root, with the code of its `MIMPI_Recv`.
pub pass_on : Retcode → M (Unit {0}) → List ℕ → M (Retcode × List ℕ)
pass_on remote_finished sends d = pure (remote_finished, d)
pass_on success sends d = sends >> pure (success, d)
pass_on attempted_self_op sends d = sends >> pure (success, d)
pass_on no_such_rank sends d = sends >> pure (success, d)
pass_on deadlock_detected sends d = sends >> pure (success, d)

pub bcast_below : (size root rank : ℕ) → List ℕ → ℕ → M (Retcode × List ℕ)
unfolding to_children recv pass_on parent
bcast_below size root rank d count = do
  r ← recv count (rank_of (parent size root rank)) bcast_tag
  pass_on r.0 (to_children size root rank (received d r.1) count) (received d r.1)

-- `MIMPI_Bcast`: the code, and what `data` holds afterwards.
unfoldable pub bcast : List ℕ → (count root : ℕ) → M (Retcode × List ℕ)
unfolding bcast_below to_children left_child right_child
bcast d count root p =
    if p.my_rank == root
    then (do to_children p.world_size root p.my_rank d count; pure (success, d)) p
    else bcast_below p.world_size root p.my_rank d count p

-- `MIMPI_Op`, as far as mimpi.c uses it; the type is declared in mimpi.h.
pub data Op : Type 0 where
  sum max min prod : Op

-- One case of the `switch`, on bytes.
unfoldable pub apply_op : Op → ℕ → ℕ → ℕ
apply_op sum b r = (b + r) % 256
apply_op max b r = if ltb b r then r else b
apply_op min b r = if ltb r b then r else b
apply_op prod b r = (b * r) % 256

-- The loop over the bytes of the two buffers, which have the same length.
unfoldable pub combine : Op → (buffer recv_buffer : List ℕ) → List ℕ
unfolding apply_op
combine op [] rs = []
combine op (b ∷ bs) [] = b ∷ bs
combine op (b ∷ bs) (r ∷ rs) = apply_op op b r ∷ combine op bs rs

-- What `MIMPI_Reduce` does about one child, and what follows with the two buffers.
abbrev pub Reduced : Type 0
Reduced = Retcode × Option (List ℕ)

unfoldable pub fold_in :
    Op → Retcode → (buffer recv_buffer : List ℕ) → (List ℕ → List ℕ → M Reduced) → M Reduced
unfolding combine
fold_in op remote_finished b rb k = pure (remote_finished, none)
fold_in op success b rb k = k (combine op b rb) rb
fold_in op attempted_self_op b rb k = k (combine op b rb) rb
fold_in op no_such_rank b rb k = k (combine op b rb) rb
fold_in op deadlock_detected b rb k = k (combine op b rb) rb

unfoldable pub reduce_child :
    Op → ℕ → Option ℕ → (buffer recv_buffer : List ℕ) → (List ℕ → List ℕ → M Reduced) → M Reduced
unfolding fold_in recv
reduce_child op count none b rb k = k b rb
reduce_child op count (some c) b rb k = do
  r ← recv count (pos c) reduce_tag
  fold_in op r.0 b (received rb r.1) k

unfoldable pub reduce_up : (size root rank : ℕ) → ℕ → List ℕ → List ℕ → M Reduced
unfolding send parent
reduce_up size root rank count b rb p =
    if rank == root
    then some ((success, some b), p)
    else some
        ((success, none), (send (some b) count (rank_of (parent size root rank)) reduce_tag p).1)

-- `MIMPI_Reduce`: the code, and what is copied to `recv_data` if this is the root. `junk` is what
-- `malloc` leaves in `recv_buffer`.
unfoldable pub reduce : (junk send_data : List ℕ) → (count : ℕ) → Op → (root : ℕ) → M Reduced
unfolding reduce_child reduce_up left_child right_child
reduce junk d count op root p =
    reduce_child op count (left_child p.world_size root p.my_rank) (take count d) junk
      (λ b rb.
        reduce_child op count (right_child p.world_size root p.my_rank) b rb
          (reduce_up p.world_size root p.my_rank count))
      p

-- The second loop of `MIMPI_Finalize`, over the ranks from `i` on.
pub finalize_sends : (rounds i : ℕ) → Process → Process
unfolding send
finalize_sends zero i p = p
finalize_sends (suc k) i p =
    finalize_sends k (suc i) (if p.finished i then p else (send none 0 (pos i) finalize_tag p).1)

-- `MIMPI_Finalize`, up to the joining of the threads; then all lists are freed.
unfoldable pub finalize : Process → Process
unfolding finalize_sends
finalize p =
    let p' = finalize_sends p.world_size 0 (record p { active = λ _. false }) in
    record p' { buffers = λ _. [] }
