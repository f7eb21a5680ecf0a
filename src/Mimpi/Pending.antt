-- ===== src/Mimpi/Pending.antt =====
-- `MIMPI_Recv` of mimpi.c when a message of `MIMPI_Barrier` has come from its source.
use mimuw.Prelude.{ℕ, ◌<◌, ◌≡◌, refl, ◌≢◌, true, ◌∙◌, ap, arith, none, some}
use mimuw.Prelude.{List, [], ◌∷◌, ◌++◌, take, Bool-cases, inl, inr, sym}
use mimuw.Prelude.Int.{ℤ, pos}
use mimuw.Mimpi.Process.{success, Message, header, Process, set_at, barrier_tag}
use mimuw.Mimpi.Receive.{receive_all}
use mimuw.Mimpi.Recv.{fits, recv}
use mimuw.Mimpi.Search.{NoneFits}
use mimuw.Mimpi.Outcome.{recv-takes, recv-skips}

-- A barrier message only sets the flag of its source.
pub receive_all-barrier :
    (p : Process) (n size : ℕ) (reads bytes : List ℕ)
    → p.active n ≡ true
    → receive_all (header n size barrier_tag reads bytes ∷ []) p
      ≡ record p { sended_barrier = set_at p.sended_barrier n true }
unfolding receive_all
receive_all-barrier p n size reads bytes on = elim (Bool-cases p.deadlock_detection) [
  | inl e ↦ rw (receive_all, on, e) refl
  | inr e ↦ rw (receive_all, on, e) refl
]

-- n is the rank of another process of the world, whose pipe is still read, its list has a message
-- that fits a request, and then a barrier message of it comes: the first `MIMPI_Recv` with this
-- request returns success, copies nothing and leaves the lists; only the second one returns the first
-- message that fits, and takes it out of its list; the other lists are as they were.
pub recv-delayed :
    (p : Process) (n count : ℕ) (tag : ℤ) (size : ℕ) (reads bytes : List ℕ)
    (before behind : List Message) (m : Message)
    → p.my_rank ≢ n
    → n < p.world_size
    → p.active n ≡ true
    → p.buffers n ≡ before ++ m ∷ behind
    → NoneFits count tag before
    → fits count tag m ≡ true
    → (p' p'' : Process) × (recv count
          (pos n)
          tag
          (receive_all (header n size barrier_tag reads bytes ∷ []) p)
        ≡ some ((success, none), p'))
      × (p'.buffers ≡ p.buffers)
      × (recv count (pos n) tag p' ≡ some ((success, some (take count m.payload)), p''))
      × (p''.buffers n ≡ before ++ behind)
      × ((j : ℕ) → j ≢ n → p''.buffers j ≡ p.buffers j)
recv-delayed p n count tag size reads bytes before behind m other rank on list none_before hit =
    let come = receive_all-barrier p n size reads bytes on in
    let q : Process = record p { sended_barrier = set_at p.sended_barrier n true } in
    let set : set_at p.sended_barrier n true n ≡ true = ground arith in
    let (p', run, lists, cleared, my_rank, world_size) = recv-skips q n count tag other rank set in
    let (p'', run', taken) =
      recv-takes p' n count tag (λ e. other (sym my_rank ∙ e)) (omega (arith, rank, world_size))
        before behind m cleared (ap (λ (f : ℕ → List Message). f n) lists ∙ list) none_before hit in
    (
      p',
      p'',
      ap (recv count (pos n) tag) come ∙ run,
      lists,
      run',
      taken.list,
      λ j ne. taken.others j ne ∙ ap (λ (f : ℕ → List Message). f j) lists,
    )
