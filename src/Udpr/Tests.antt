-- ===== src/Udpr/Tests.antt =====
-- Runs of the models of client_udpr.c and server_udpr.c, and examples of the theorems.
use mimuw.Prelude.{ℕ, ◌+◌, ◌<◌, ◌≤◌, ◌≡◌, ◌⊎◌, inr, refl, arith, true, List, [], ◌∷◌, ◌++◌}
use mimuw.Udpr.Wire.{
  Datagram, first_packet_number, Event, timeout, delivered, Packet, Peer, ok, failed,
}
use mimuw.Udpr.Wire.{Outbox, Sendto, send_to, again, give_up}
use mimuw.Udpr.Client.{
  Link, receive, attempt, judge_acc, judge_conacc, judge_rcvd, send_chunks, send_data_packets,
  send_conn_and_recv_conacc, recv_rcvd_packet, handle_udpr_client,
}
use mimuw.Udpr.Server.{
  Receiver, until_zero, answer_stranger, judge_data, recv_data, send_conacc_and_recv_data,
  send_acc_and_recv_data, serve_rest, serve,
}
use mimuw.Udpr.Sending.{Sends, send_data_packets-Sends}
use mimuw.Udpr.Answers.{Answered, no_more, next, silence, acknowledged, send_data_packets-ok}
use mimuw.Udpr.Receiving.{packet_of, Delivers, nothing, chunk, judge_data-late_copy}
use mimuw.Udpr.Connection.{handle_round}
use mimuw.Udpr.Plain.{judge_last, send_each, handle_udp_client}
use mimuw.Udpr.Transfer.{carry, handle_udp_client-printed}
use mimuw.Udpr.Rounds.{handle_round-prints}

abbrev every_time : Sendto
every_time c = true

abbrev peer : Peer
peer = record { address = 7; session = 9 }

abbrev nothing_sent : Outbox
nothing_sent = record { sent = []; calls = 0 }

abbrev answer_with : (type size number : ℕ) → Event
answer_with t s n = delivered (record {
  source = 7;
  size = s;
  packet_type = t;
  session_id = 9;
  packet_number = n;
  data_bytes_len = 0;
  text = [];
  protocol_id = 0;
  data_len = 0;
})

abbrev two_letters : List ℕ
two_letters = 65 ∷ 66 ∷ []

-- A timeout, and then the acknowledgement
abbrev slow : Link
slow = record { incoming = timeout ∷ answer_with 5 17 0 ∷ []; out = nothing_sent }

slow-ok : (send_data_packets every_time peer two_letters slow).0 ≡ ok
unfolding send_data_packets send_chunks attempt receive judge_acc send_to
slow-ok = refl

send_data_packets-Sends_example :
    (packets : List (ℕ × Packet)) × Sends 7 9 0 two_letters packets
    × ((send_data_packets every_time peer two_letters slow).1.out.sent ≡ [] ++ packets)
send_data_packets-Sends_example = send_data_packets-Sends every_time peer two_letters slow slow-ok

slow-Answered : Answered peer 0 two_letters slow.incoming []
slow-Answered = next (silence (acknowledged (refl, refl, refl, refl, refl))) (omega arith) no_more

send_data_packets-ok_example :
    ((send_data_packets every_time peer two_letters slow).0 ≡ ok)
    × ((send_data_packets every_time peer two_letters slow).1.incoming ≡ [])
send_data_packets-ok_example =
    send_data_packets-ok every_time peer two_letters slow [] (λ c. refl) slow-Answered

-- A whole run of the client: CONACC, a timeout, an acknowledgement, and RCVD
client_run :
    (handle_udpr_client every_time peer 3 two_letters (record {
      incoming = answer_with 2 9 0 ∷ timeout ∷ answer_with 5 17 0 ∷ answer_with 7 9 0 ∷ [];
      out = nothing_sent;
    })).0
    ≡ ok
unfolding handle_udpr_client send_conn_and_recv_conacc recv_rcvd_packet send_data_packets
    send_chunks attempt receive judge_acc judge_conacc judge_rcvd send_to
client_run = refl

abbrev three_letters : List ℕ
three_letters = 65 ∷ 66 ∷ 67 ∷ []

abbrev in_order : Receiver
in_order = record {
  incoming =
      delivered (packet_of peer 0 (65 ∷ 66 ∷ [])) ∷ delivered (packet_of peer 1 (67 ∷ [])) ∷ [];
  out = nothing_sent;
  printed = [];
  read_size = 0;
}

in_order-Delivers : Delivers peer first_packet_number three_letters in_order.incoming
in_order-Delivers =
    chunk (65 ∷ 66 ∷ []) (omega arith) (omega arith)
      (λ z. ground (arith, z), (λ z. ground (arith, z), tt))
      (chunk (67 ∷ []) (omega arith) (omega arith) (λ z. ground (arith, z), tt) nothing)

-- The CONN packet for three letters
abbrev conn_three : Datagram
conn_three = record {
  source = 7;
  size = 18;
  packet_type = 1;
  session_id = 9;
  packet_number = 0;
  data_bytes_len = 0;
  text = [];
  protocol_id = 3;
  data_len = 3;
}

handle_round-prints_example :
    ((handle_round every_time (delivered conn_three ∷ in_order.incoming) in_order).0 ≡ ok)
    × ((handle_round every_time (delivered conn_three ∷ in_order.incoming) in_order).1.printed
        ≡ [] ++ three_letters)
handle_round-prints_example =
    handle_round-prints every_time conn_three three_letters in_order.incoming in_order (λ c. refl)
      (omega arith) (omega arith) (refl, refl, refl, inr refl) in_order-Delivers

-- The same with a second copy of the first packet: the session is given up.
late_copy :
    (serve every_time peer 3 (record in_order {
      incoming =
          delivered (packet_of peer 0 (65 ∷ 66 ∷ []))
          ∷ delivered (packet_of peer 0 (65 ∷ 66 ∷ []))
          ∷ delivered (packet_of peer 1 (67 ∷ []))
          ∷ [];
    })).0
    ≡ failed
unfolding serve serve_rest send_conacc_and_recv_data send_acc_and_recv_data recv_data
    answer_stranger judge_data until_zero send_to
late_copy = refl

judge_data-late_copy_example :
    (2 + 0 ≤ 1) × (judge_data peer 1 0 1 (packet_of peer 0 two_letters) ≡ again)
    ⊎ (1 < 2 + 0) × (judge_data peer 1 0 1 (packet_of peer 0 two_letters) ≡ give_up)
judge_data-late_copy_example =
    judge_data-late_copy peer 1 0 0 1 two_letters (omega arith) (omega arith) (omega arith)
      (omega arith)

-- The client without retransmissions, which gets CONACC and RCVD
abbrev plain : Link
plain = record { incoming = answer_with 2 9 0 ∷ answer_with 7 9 0 ∷ []; out = nothing_sent }

plain-ok : (handle_udp_client every_time peer 2 three_letters plain).0 ≡ ok
unfolding handle_udp_client send_each receive judge_conacc judge_last send_to
plain-ok = refl

handle_udp_client-printed_example :
    let x =
      handle_round every_time
        (carry 7 (handle_udp_client every_time peer 2 three_letters plain).1.out.sent)
        in_order in
    (x.0 ≡ ok) × (x.1.printed ≡ [] ++ three_letters)
handle_udp_client-printed_example =
    handle_udp_client-printed every_time every_time peer 7 three_letters plain in_order (λ c. refl)
      (omega arith) (omega arith)
      (λ z. ground (arith, z), (λ z. ground (arith, z), (λ z. ground (arith, z), tt))) refl plain-ok
