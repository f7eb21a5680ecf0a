-- ===== src/Udpr/Wire.antt =====
-- Packets of include/common.h, what the sockets deliver, and what is sent.
use mimuw.Prelude.{ℕ, suc, Bool, true, false, List, [], ◌∷◌, ◌++◌, if◌then◌else◌}

abbrev pub max_retransmits : ℕ
max_retransmits = 5

abbrev pub buffer_size : ℕ
buffer_size = 64000

abbrev pub max_data_len : ℕ
max_data_len = 64000

abbrev pub min_data_len : ℕ
min_data_len = 1

abbrev pub first_packet_number : ℕ
first_packet_number = 0

abbrev pub conn_packet_type : ℕ
conn_packet_type = 1

abbrev pub conacc_packet_type : ℕ
conacc_packet_type = 2

abbrev pub conrjt_packet_type : ℕ
conrjt_packet_type = 3

abbrev pub data_packet_type : ℕ
data_packet_type = 4

abbrev pub acc_packet_type : ℕ
acc_packet_type = 5

abbrev pub rcvd_packet_type : ℕ
rcvd_packet_type = 7

abbrev pub udp_protocol_id : ℕ
udp_protocol_id = 2

abbrev pub udpr_protocol_id : ℕ
udpr_protocol_id = 3

-- The sizes of the packed structures
abbrev pub conn_size : ℕ
conn_size = 18

abbrev pub conacc_size : ℕ
conacc_size = 9

abbrev pub header_size : ℕ
header_size = 21

abbrev pub acc_size : ℕ
acc_size = 17

-- A datagram that recvfrom delivered: the address and port, the number of bytes that came into the
-- buffer, and the fields at their places, in the order of the machine.
pub record Datagram : Type 0 where
  pub source : ℕ
  pub size : ℕ
  pub packet_type : ℕ
  pub session_id : ℕ
  pub packet_number : ℕ
  pub data_bytes_len : ℕ
  pub text : List ℕ
  pub protocol_id : ℕ
  pub data_len : ℕ

-- What a call of recvfrom gives
pub data Event : Type 0 where
  timeout failure : Event
  delivered : Datagram → Event

-- The packets that the two programs send
pub data Packet : Type 0 where
  conn : (session_id protocol_id data_len : ℕ) → Packet
  conacc conrjt rcvd : (session_id : ℕ) → Packet
  data_packet : (session_id packet_number : ℕ) → (text : List ℕ) → Packet
  acc rjt : (session_id packet_number : ℕ) → Packet

-- OK_COMMUNICATION, TIMEOUT_COMMUNICATION and EXIT_COMMUNICATION; waiting when recvfrom does not
-- return any more
pub data Result : Type 0 where
  ok timed_out failed waiting : Result

-- The packets sent, each with its address, and the number of calls of sendto
pub record Outbox : Type 0 where
  pub sent : List (ℕ × Packet)
  pub calls : ℕ

-- Whether a call of sendto succeeds, by its number
abbrev pub Sendto : Type 0
Sendto = ℕ → Bool

unfoldable pub send_to : Sendto → ℕ → Packet → Outbox → Bool × Outbox
send_to net address p out =
    if net out.calls
    then (true, record { sent = out.sent ++ (address, p) ∷ []; calls = suc out.calls })
    else (false, record out { calls = suc out.calls })

-- The functions that send one packet
abbrev pub send_conrjt_packet : Sendto → ℕ → (session_id : ℕ) → Outbox → Bool × Outbox
send_conrjt_packet net address s out = send_to net address (conrjt s) out

abbrev pub send_conacc_packet : Sendto → ℕ → (session_id : ℕ) → Outbox → Bool × Outbox
send_conacc_packet net address s out = send_to net address (conacc s) out

abbrev pub send_rjt_packet : Sendto → ℕ → (session_id packet_number : ℕ) → Outbox → Outbox
send_rjt_packet net address s n out = (send_to net address (rjt s n) out).1

abbrev pub send_rcvd_packet : Sendto → ℕ → (session_id : ℕ) → Outbox → Outbox
send_rcvd_packet net address s out = (send_to net address (rcvd s) out).1

-- What one round of a receiving loop decides: to receive again, to give up, or to go on.
pub data Verdict : Type 0 where
  again give_up accept : Verdict

-- The other side, and the session
pub record Peer : Type 0 where
  pub address : ℕ
  pub session : ℕ
