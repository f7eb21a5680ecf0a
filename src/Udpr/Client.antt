-- ===== src/Udpr/Client.antt =====
-- client_udpr.c
use mimuw.Prelude.{ℕ, zero, suc, Bool, true, false, not, ◌&&◌, List, [], ◌∷◌}
use mimuw.Prelude.{ltb, ◌==◌, if◌then◌else◌, length, take, drop}
use mimuw.Udpr.Wire.{
  max_retransmits, buffer_size, first_packet_number, conacc_packet_type, conrjt_packet_type,
  acc_packet_type, rcvd_packet_type, conacc_size, acc_size, Datagram, Event, timeout, failure,
  delivered, Packet, conn, data_packet, Peer, Result, ok, timed_out, failed, waiting, Outbox,
  Sendto, send_to, Verdict, again, give_up, accept,
}

-- One round of the loops of recv_conacc_packet_retr, recv_acc_packet_retr and
-- recv_rcvd_packet_with_retr
unfoldable pub judge_conacc : Peer → Datagram → Verdict
judge_conacc p d =
    if not (d.source == p.address)
    then again
    else if not (d.size == conacc_size)
    then give_up
    else if d.packet_type == conrjt_packet_type
    then give_up
    else if not (d.packet_type == conacc_packet_type)
    then give_up
    else if not (d.session_id == p.session)
    then give_up
    else accept

unfoldable pub judge_acc : Peer → (packet_number : ℕ) → Datagram → Verdict
judge_acc p n d =
    if not (d.source == p.address)
    then again
    else if (n == first_packet_number)
        && (d.size == conacc_size)
        && (d.packet_type == conacc_packet_type)
    then again
    else if not (d.size == acc_size)
    then give_up
    else if not (d.packet_type == acc_packet_type)
    then give_up
    else if not (d.session_id == p.session)
    then give_up
    else if ltb d.packet_number n
    then again
    else if not (d.packet_number == n)
    then give_up
    else accept

unfoldable pub judge_rcvd : Peer → Datagram → Verdict
judge_rcvd p d =
    if not (d.source == p.address)
    then again
    else if (d.size == acc_size) && (d.packet_type == acc_packet_type)
    then again
    else if not (d.size == conacc_size)
    then give_up
    else if not (d.packet_type == rcvd_packet_type)
    then give_up
    else if not (d.session_id == p.session)
    then give_up
    else accept

abbrev pub follow : Verdict → (rest : Result × List Event) → List Event → Result × List Event
follow again rest es = rest
follow give_up rest es = (failed, es)
follow accept rest es = (ok, es)

-- A receiving loop, over the results of its calls of recvfrom. What is left of them comes back.
unfoldable pub receive : (Datagram → Verdict) → List Event → Result × List Event
receive judge [] = (waiting, [])
receive judge (timeout ∷ es) = (timed_out, es)
receive judge (failure ∷ es) = (failed, es)
receive judge (delivered d ∷ es) = follow (judge d) (receive judge es) es

-- In recv_rcvd_packet_with_retr a timeout is a failure like any other.
abbrev pub no_timeout : Result → Result
no_timeout timed_out = failed
no_timeout r = r

-- The results of recvfrom that are left, and what was sent
pub record Link : Type 0 where
  pub incoming : List Event
  pub out : Outbox

-- One attempt: sending a packet and waiting for its answer
abbrev pub receive_after : (Datagram → Verdict) → List Event → Bool × Outbox → Result × Link
receive_after judge es (false, o) = (failed, record { incoming = es; out = o })
receive_after judge es (true, o) =
    ((receive judge es).0, record { incoming = (receive judge es).1; out = o })

abbrev pub retry : Result × Link → (Link → Result × Link) → Result × Link
retry (timed_out, k) next = next k
retry (ok, k) next = (ok, k)
retry (failed, k) next = (failed, k)
retry (waiting, k) next = (waiting, k)

-- The loops over the attempts, with the number of attempts that are left
unfoldable pub attempt :
    Sendto → (address : ℕ) → Packet → (Datagram → Verdict) → ℕ → Link → Result × Link
unfolding send_to receive
attempt net a p judge zero k = (failed, k)
attempt net a p judge (suc n) k =
    retry (receive_after judge k.incoming (send_to net a p k.out)) (attempt net a p judge n)

unfoldable pub send_conn_and_recv_conacc :
    Sendto → Peer → (protocol_id data_len : ℕ) → Link → Result × Link
unfolding attempt judge_conacc
send_conn_and_recv_conacc net p protocol n =
    attempt net p.address (conn p.session protocol n) (judge_conacc p) (suc max_retransmits)

abbrev pub when_ok : Result × Link → (Link → Result × Link) → Result × Link
when_ok (ok, k) next = next k
when_ok (timed_out, k) next = (timed_out, k)
when_ok (failed, k) next = (failed, k)
when_ok (waiting, k) next = (waiting, k)

-- The loop over the chunks of the data from the offset on, on fuel
unfoldable pub send_chunks :
    Sendto → Peer → (fuel packet_number : ℕ) → List ℕ → Link → Result × Link
unfolding attempt judge_acc
send_chunks net p fuel n [] k = (ok, k)
send_chunks net p zero n (c ∷ cs) k = (waiting, k)
send_chunks net p (suc fuel) n (c ∷ cs) k =
    when_ok
      (attempt net p.address (data_packet p.session n (take buffer_size (c ∷ cs))) (judge_acc p n)
        (suc max_retransmits) k)
      (send_chunks net p fuel (suc n) (drop buffer_size (c ∷ cs)))

-- As much fuel as bytes
unfoldable pub send_data_packets : Sendto → Peer → List ℕ → Link → Result × Link
unfolding send_chunks
send_data_packets net p text = send_chunks net p (length text) first_packet_number text

unfoldable pub recv_rcvd_packet : Peer → Link → Result × Link
unfolding receive judge_rcvd
recv_rcvd_packet p k = (
  no_timeout (receive (judge_rcvd p) k.incoming).0,
  record k { incoming = (receive (judge_rcvd p) k.incoming).1 },
)

unfoldable pub handle_udpr_client :
    Sendto → Peer → (protocol_id : ℕ) → List ℕ → Link → Result × Link
unfolding send_conn_and_recv_conacc send_data_packets recv_rcvd_packet
handle_udpr_client net p protocol text k =
    when_ok (send_conn_and_recv_conacc net p protocol (length text) k)
      (λ k1. when_ok (send_data_packets net p text k1) (recv_rcvd_packet p))
