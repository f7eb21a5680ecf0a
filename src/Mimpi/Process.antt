-- ===== src/Mimpi/Process.antt =====
-- The static variables of mimpi.c, for one process. Ranks index the arrays, which are functions.
use mimuw.Prelude.{ℕ, Bool, true, false, Option, none, some, List, [], ◌==◌, if◌then◌else◌}
use mimuw.Prelude.Int.{ℤ, pos, negsuc}

-- The values of `MIMPI_Retcode` that mimpi.c returns; the type is declared in mimpi.h.
pub data Retcode : Type 0 where
  success attempted_self_op no_such_rank remote_finished deadlock_detected : Retcode

-- `message_t`: the list of the code is the list that holds these.
pub record Message : Type 0 where
  pub payload : List ℕ
  pub count : ℕ
  pub tag : ℤ

-- What one call of `receive_message` finds in a pipe: the pipe that wakes the thread, a header cut
-- short, or a header with the bytes that follow, and what each `chrecv` returns for them.
pub data Arrival : Type 0 where
  woken : Arrival
  short : (source : ℕ) → Arrival
  header : (source : ℕ) (count : ℕ) (tag : ℤ) (reads : List ℕ) (bytes : List ℕ) → Arrival

-- What `chsend` returns: a number of bytes, or -1 with EPIPE.
pub data Write : Type 0 where
  wrote : ℕ → Write
  epipe : Write

-- A message that was written whole to the pipe of a process.
pub record Packet : Type 0 where
  pub destination : ℕ
  pub message : Message

-- `arrivals` lists, for each coming `pthread_cond_wait`, what the receiver threads find meanwhile.
-- `writes` lists the answers of the coming calls of `chsend`; past the list they write all.
-- `sent` holds the messages that this process has sent, the last one first.
pub record Process : Type 0 where
  pub world_size : ℕ
  pub my_rank : ℕ
  pub deadlock_detection : Bool
  pub finished : ℕ → Bool
  pub waiting_for_me : ℕ → Bool
  pub deadlock : ℕ → Bool
  pub sended_barrier : ℕ → Bool
  pub active : ℕ → Bool
  pub buffers : ℕ → List Message
  pub buffers_size : ℕ → ℕ
  pub sent : List Packet
  pub writes : List Write
  pub arrivals : List (List Arrival)

abbrev pub set_at {ℓ} : {A : Type ℓ} → (ℕ → A) → ℕ → A → ℕ → A
set_at f i v j = if i == j then v else f j

abbrev pub int_eq : ℤ → ℤ → Bool
int_eq (pos a) (pos b) = a == b
int_eq (pos a) (negsuc b) = false
int_eq (negsuc a) (pos b) = false
int_eq (negsuc a) (negsuc b) = a == b

-- The tags that the library keeps for itself, -1 to -7.
abbrev pub finalize_tag : ℤ
finalize_tag = negsuc 0

abbrev pub barrier_tag : ℤ
barrier_tag = negsuc 1

abbrev pub bcast_tag : ℤ
bcast_tag = negsuc 2

abbrev pub reduce_tag : ℤ
reduce_tag = negsuc 3

abbrev pub deadlock_tag : ℤ
deadlock_tag = negsuc 4

abbrev pub waiting_tag : ℤ
waiting_tag = negsuc 5

abbrev pub not_waiting_tag : ℤ
not_waiting_tag = negsuc 6

-- A call that may wait for ever, `none`, and otherwise returns a value.
abbrev pub M {ℓ} : Type ℓ → Type ℓ
M A = Process → Option (A × Process)

infixl 5 ◌>>=◌ ◌>>◌
abbrev pub ◌>>=◌ {ℓ κ} : {A : Type ℓ} {B : Type κ} → M A → (A → M B) → M B
◌>>=◌ m f p = elim (m p) [ none ↦ none | some (a, p') ↦ f a p' ]

abbrev pub ◌>>◌ {ℓ κ} : {A : Type ℓ} {B : Type κ} → M A → M B → M B
m >> k = m >>= λ _. k

abbrev pub pure {ℓ} : {A : Type ℓ} → A → M A
pure a p = some (a, p)

-- `MIMPI_Init`: the arrays as its loops leave them, with nothing received yet.
unfoldable pub init : (size rank : ℕ) → Bool → List Write → List (List Arrival) → Process
init size rank detection writes arrivals = record {
  world_size = size;
  my_rank = rank;
  deadlock_detection = detection;
  finished = λ _. false;
  waiting_for_me = λ _. false;
  deadlock = λ _. false;
  sended_barrier = λ _. false;
  active = λ _. true;
  buffers = λ _. [];
  buffers_size = λ _. 0;
  sent = [];
  writes = writes;
  arrivals = arrivals;
}

-- `MIMPI_World_size` and `MIMPI_World_rank`
pub world_size : Process → ℕ
world_size p = p.world_size

pub world_rank : Process → ℕ
world_rank p = p.my_rank
