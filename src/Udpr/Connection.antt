-- ===== src/Udpr/Connection.antt =====
-- server_udp.c, and the rounds of handle_udp_connection in server_udp_udpr.c
use mimuw.Prelude.{ℕ, suc, ◌+◌, ◌%◌, Bool, true, false, not, ◌&&◌, ◌||◌, List, [], ◌∷◌}
use mimuw.Prelude.{ltb, ◌==◌, if◌then◌else◌}
use mimuw.Udpr.Wire.{max_data_len, min_data_len, first_packet_number, conn_packet_type}
use mimuw.Udpr.Wire.{data_packet_type, udp_protocol_id, udpr_protocol_id, conn_size, header_size}
use mimuw.Udpr.Wire.{Datagram, Event, timeout, failure, delivered, Peer, Result, ok, failed}
use mimuw.Udpr.Wire.{waiting, Outbox, Sendto, send_to, send_conrjt_packet, send_conacc_packet}
use mimuw.Udpr.Wire.{send_rjt_packet, Verdict, give_up, accept}
use mimuw.Udpr.Server.{
  word, Receiver, until_zero, refuse, print_data, follow_data, when_received, send_rcvd, serve,
}

-- Whether recv_conn_packet takes a datagram
unfoldable pub recv_conn_packet : Datagram → Bool
recv_conn_packet d =
    if not (d.size == conn_size)
    then false
    else if not (d.packet_type == conn_packet_type)
    then false
    else if not (d.protocol_id == udp_protocol_id) && not (d.protocol_id == udpr_protocol_id)
    then false
    else true

-- The answer to a datagram from another address
unfoldable pub answer_other : Sendto → (packet_number : ℕ) → Datagram → Outbox → Outbox
unfolding send_to
answer_other net n d out =
    if (d.size == conn_size) && (d.packet_type == conn_packet_type)
    then (send_conrjt_packet net d.source d.session_id out).1
    else if (d.size == header_size) && (d.packet_type == data_packet_type)
    then send_rjt_packet net d.source d.session_id n out
    else out

-- A round of the loop of recv_data_packets, for a datagram from the client; there is no packet that
-- it passes over.
unfoldable pub judge_next : Peer → (packet_number read_size data_len : ℕ) → Datagram → Verdict
judge_next p n read len d =
    if ltb d.size header_size
    then give_up
    else if not (d.size == header_size + d.data_bytes_len)
    then give_up
    else if ltb len ((read + d.data_bytes_len) % word)
    then give_up
    else if not (d.session_id == p.session)
    then give_up
    else if not (d.packet_type == data_packet_type)
    then give_up
    else if not (d.packet_number == n)
    then give_up
    else if ltb d.data_bytes_len min_data_len || ltb max_data_len d.data_bytes_len
    then give_up
    else accept

-- The loop of recv_data_packets, over the results of recvfrom
unfoldable pub recv_data_packets :
    Sendto → Peer → (data_len packet_number : ℕ) → List Event → Receiver → Result × Receiver
unfolding answer_other judge_next until_zero send_to
recv_data_packets net p len n [] r =
    if ltb r.read_size len
    then (waiting, record r { incoming = [] })
    else (ok, record r { incoming = [] })
recv_data_packets net p len n (timeout ∷ es) r =
    if ltb r.read_size len
    then (failed, record r { incoming = es })
    else (ok, record r { incoming = timeout ∷ es })
recv_data_packets net p len n (failure ∷ es) r =
    if ltb r.read_size len
    then (failed, record r { incoming = es })
    else (ok, record r { incoming = failure ∷ es })
recv_data_packets net p len n (delivered d ∷ es) r =
    if not (ltb r.read_size len)
    then (ok, record r { incoming = delivered d ∷ es })
    else if not (d.source == p.address)
    then recv_data_packets net p len n es (record r { out = answer_other net n d r.out })
    else follow_data (judge_next p n r.read_size len d) (recv_data_packets net p len n es r)
        (failed, refuse net p n (record r { incoming = es }))
        (recv_data_packets net p len (suc n % word) es (print_data d r))

abbrev pub after_conacc :
    Sendto → Peer → (data_len : ℕ) → Receiver → Bool × Outbox → Result × Receiver
after_conacc net p len r (false, o) = (failed, record r { out = o })
after_conacc net p len r (true, o) =
    when_received
      (recv_data_packets net p len first_packet_number r.incoming
        (record r { out = o; read_size = 0 }))
      (send_rcvd net p)

-- The session of a client without retransmissions, after its CONN packet
unfoldable pub serve_udp : Sendto → Peer → (data_len : ℕ) → Receiver → Result × Receiver
unfolding recv_data_packets send_to
serve_udp net p len r = after_conacc net p len r (send_conacc_packet net p.address p.session r.out)

-- A round of handle_udp_connection with the packet that recv_conn_packet takes
unfoldable pub handle_conn : Sendto → Datagram → Receiver → Result × Receiver
unfolding serve_udp serve
handle_conn net d r =
    if d.protocol_id == udp_protocol_id
    then serve_udp net (record { address = d.source; session = d.session_id }) d.data_len r
    else serve net (record { address = d.source; session = d.session_id }) d.data_len r

-- A round of handle_udp_connection
unfoldable pub handle_round : Sendto → List Event → Receiver → Result × Receiver
unfolding recv_conn_packet handle_conn
handle_round net [] r = (waiting, record r { incoming = [] })
handle_round net (timeout ∷ es) r = (failed, record r { incoming = es })
handle_round net (failure ∷ es) r = (failed, record r { incoming = es })
handle_round net (delivered d ∷ es) r =
    if recv_conn_packet d
    then handle_conn net d (record r { incoming = es })
    else (failed, record r { incoming = es })
