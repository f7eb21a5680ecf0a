-- ===== src/Udpr/Plain.antt =====
-- client_udp.c: the client without retransmissions
use mimuw.Prelude.{ℕ, zero, suc, Bool, true, false, not, List, [], ◌∷◌, ◌==◌, if◌then◌else◌, length}
use mimuw.Prelude.{take, drop}
use mimuw.Udpr.Wire.{buffer_size, first_packet_number, rcvd_packet_type, conacc_size, Datagram}
use mimuw.Udpr.Wire.{conn, data_packet, Peer, Result, ok, failed, Outbox, Sendto, send_to}
use mimuw.Udpr.Wire.{Verdict, again, give_up, accept}
use mimuw.Udpr.Client.{Link, receive, no_timeout, judge_conacc, when_ok}

-- A round of the loop of recv_rcvd_packet
unfoldable pub judge_last : Peer → Datagram → Verdict
judge_last p d =
    if not (d.source == p.address)
    then again
    else if not (d.size == conacc_size)
    then give_up
    else if not (d.packet_type == rcvd_packet_type)
    then give_up
    else if not (d.session_id == p.session)
    then give_up
    else accept

abbrev pub go_on : Bool × Outbox → (Outbox → Bool × Outbox) → Bool × Outbox
go_on (true, o) next = next o
go_on (false, o) next = (false, o)

-- The loop of send_data_packets over the chunks of the data from the offset on, on fuel
unfoldable pub send_each :
    Sendto → Peer → (fuel packet_number : ℕ) → List ℕ → Outbox → Bool × Outbox
unfolding send_to
send_each net p fuel n [] out = (true, out)
send_each net p zero n (c ∷ cs) out = (false, out)
send_each net p (suc fuel) n (c ∷ cs) out =
    go_on (send_to net p.address (data_packet p.session n (take buffer_size (c ∷ cs))) out)
      (send_each net p fuel (suc n) (drop buffer_size (c ∷ cs)))

abbrev pub sending : Bool × Outbox → Link → Result × Link
sending (true, o) k = (ok, record k { out = o })
sending (false, o) k = (failed, record k { out = o })

abbrev pub receiving : (Datagram → Verdict) → Link → Result × Link
receiving judge k =
    (no_timeout (receive judge k.incoming).0, record k { incoming = (receive judge k.incoming).1 })

-- send_conn_packet, recv_conacc_packet, send_data_packets and recv_rcvd_packet in turn. The loop over
-- the chunks has as much fuel as there are bytes.
unfoldable pub handle_udp_client : Sendto → Peer → (protocol_id : ℕ) → List ℕ → Link → Result × Link
unfolding send_to receive judge_conacc judge_last send_each
handle_udp_client net p protocol text k =
    when_ok (sending (send_to net p.address (conn p.session protocol (length text)) k.out) k) (λ k1.
      when_ok (receiving (judge_conacc p) k1) (λ k2.
        when_ok (sending (send_each net p (length text) first_packet_number text k2.out) k2)
          (receiving (judge_last p))))
