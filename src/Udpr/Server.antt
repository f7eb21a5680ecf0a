-- ===== src/Udpr/Server.antt =====
-- server_udpr.c, and the session of server_udp_udpr.c that uses it
use mimuw.Prelude.{ℕ, zero, suc, ◌+◌, ◌-◌, ◌^◌, ◌%◌, Bool, true, false, not, ◌&&◌, ◌||◌}
use mimuw.Prelude.{List, [], ◌∷◌, ◌++◌, ltb, ◌==◌, if◌then◌else◌, length, take}
use mimuw.Udpr.Wire.{max_retransmits, max_data_len, min_data_len, first_packet_number}
use mimuw.Udpr.Wire.{conn_packet_type, data_packet_type, conn_size, header_size, Datagram, Event}
use mimuw.Udpr.Wire.{timeout, failure, delivered, conacc, acc, Peer, Result}
use mimuw.Udpr.Wire.{ok, timed_out, failed, waiting, Outbox, Sendto, send_to, send_conrjt_packet}
use mimuw.Udpr.Wire.{send_rjt_packet, send_rcvd_packet, Verdict, again}
use mimuw.Udpr.Wire.{give_up, accept}

-- The values of uint64_t and size_t
abbrev pub word : ℕ
word = 2 ^ 64

-- The results of recvfrom that are left, what was sent, what was printed, and read_size
pub record Receiver : Type 0 where
  pub incoming : List Event
  pub out : Outbox
  pub printed : List ℕ
  pub read_size : ℕ

-- What printf prints of a text that ends at its first zero
unfoldable pub until_zero : List ℕ → List ℕ
until_zero [] = []
until_zero (c ∷ cs) = if c == 0 then [] else c ∷ until_zero cs

-- The answer to a datagram from another address
unfoldable pub answer_stranger : Sendto → (packet_number : ℕ) → Datagram → Outbox → Outbox
unfolding send_to
answer_stranger net n d out =
    if (d.size == conn_size) && (d.packet_type == conn_packet_type)
    then (send_conrjt_packet net d.source d.session_id out).1
    else if d.size == header_size
    then send_rjt_packet net d.source d.session_id n out
    else out

-- A round of the loop of recv_data_packet_retr, for a datagram from the client
unfoldable pub judge_data : Peer → (packet_number read_size data_len : ℕ) → Datagram → Verdict
judge_data p n read len d =
    if (n == first_packet_number) && (d.size == conn_size) && (d.packet_type == conn_packet_type)
    then again
    else if ltb d.size header_size
    then give_up
    else if not (d.size == header_size + d.data_bytes_len)
    then give_up
    else if not (d.session_id == p.session)
    then give_up
    else if not (d.packet_type == data_packet_type)
    then give_up
    else if ltb len ((d.data_bytes_len + read) % word)
    then give_up
    else if ltb d.data_bytes_len min_data_len || ltb max_data_len d.data_bytes_len
    then give_up
    else if ltb d.packet_number n
    then again
    else if not (d.packet_number == n)
    then give_up
    else accept

abbrev pub refuse : Sendto → Peer → (packet_number : ℕ) → Receiver → Receiver
refuse net p n r = record r { out = send_rjt_packet net p.address p.session n r.out }

abbrev pub print_data : Datagram → Receiver → Receiver
print_data d r = record r {
  printed = r.printed ++ until_zero (take d.data_bytes_len d.text);
  read_size = (r.read_size + d.data_bytes_len) % word;
}

abbrev pub follow_data : Verdict → (rest refused taken : Result × Receiver) → Result × Receiver
follow_data again rest refused taken = rest
follow_data give_up rest refused taken = refused
follow_data accept rest refused taken = taken

-- The loop of recv_data_packet_retr over the results of recvfrom
unfoldable pub recv_data :
    Sendto → Peer → (packet_number data_len : ℕ) → List Event → Receiver → Result × Receiver
unfolding answer_stranger judge_data until_zero send_to
recv_data net p n len [] r = (waiting, record r { incoming = [] })
recv_data net p n len (timeout ∷ es) r = (timed_out, record r { incoming = es })
recv_data net p n len (failure ∷ es) r = (failed, record r { incoming = es })
recv_data net p n len (delivered d ∷ es) r =
    if not (d.source == p.address)
    then recv_data net p n len es (record r { out = answer_stranger net n d r.out })
    else follow_data (judge_data p n r.read_size len d) (recv_data net p n len es r)
        (failed, refuse net p n (record r { incoming = es }))
        (ok, print_data d (record r { incoming = es }))

-- Sending a packet, and then waiting for data
abbrev pub receive_data :
    Sendto → Peer → (packet_number data_len : ℕ) → Receiver → Bool × Outbox → Result × Receiver
receive_data net p n len r (false, o) = (failed, record r { out = o })
receive_data net p n len r (true, o) = recv_data net p n len r.incoming (record r { out = o })

abbrev pub retry_data : Result × Receiver → (Receiver → Result × Receiver) → Result × Receiver
retry_data (timed_out, r) next = next r
retry_data (ok, r) next = (ok, r)
retry_data (failed, r) next = (failed, r)
retry_data (waiting, r) next = (waiting, r)

-- send_conacc_packet_and_recv_data_packet, with the attempts that are left
unfoldable pub send_conacc_and_recv_data :
    Sendto → Peer → (data_len attempts : ℕ) → Receiver → Result × Receiver
unfolding recv_data send_to
send_conacc_and_recv_data net p len zero r = (failed, r)
send_conacc_and_recv_data net p len (suc k) r =
    retry_data
      (receive_data net p first_packet_number len r
        (send_to net p.address (conacc p.session) r.out))
      (send_conacc_and_recv_data net p len k)

-- An acknowledgement, and then the next data unless all were read
abbrev pub receive_next :
    Sendto → Peer → (packet_number data_len : ℕ) → Receiver → Bool × Outbox → Result × Receiver
receive_next net p n len r (false, o) = (failed, record r { out = o })
receive_next net p n len r (true, o) =
    recv_data net p (suc n % word) len r.incoming (record r { out = o })

abbrev pub continue :
    Result × Receiver → (on_data on_timeout : Receiver → Result × Receiver) → Result × Receiver
continue (ok, r) on_data on_timeout = on_data r
continue (timed_out, r) on_data on_timeout = on_timeout r
continue (failed, r) on_data on_timeout = (failed, r)
continue (waiting, r) on_data on_timeout = (waiting, r)

abbrev pub finished : Receiver → Bool × Outbox → Result × Receiver
finished r (false, o) = (failed, record r { out = o })
finished r (true, o) = (ok, record r { out = o })

-- The two loops of send_acc_packet_and_recv_data_packet, on fuel
unfoldable pub send_acc_and_recv_data :
    Sendto → Peer → (data_len fuel attempts packet_number : ℕ) → Receiver → Result × Receiver
unfolding recv_data send_to
send_acc_and_recv_data net p len fuel zero n r = (failed, r)
send_acc_and_recv_data net p len zero (suc k) n r = (waiting, r)
send_acc_and_recv_data net p len (suc fuel) (suc k) n r =
    if r.read_size == len
    then finished r (send_to net p.address (acc p.session n) r.out)
    else continue (receive_next net p n len r (send_to net p.address (acc p.session n) r.out))
        (send_acc_and_recv_data net p len fuel (suc max_retransmits) (suc n % word))
        (send_acc_and_recv_data net p len fuel k n)

abbrev pub when_received : Result × Receiver → (Receiver → Result × Receiver) → Result × Receiver
when_received (ok, r) next = next r
when_received (timed_out, r) next = (timed_out, r)
when_received (failed, r) next = (failed, r)
when_received (waiting, r) next = (waiting, r)

-- A failed send of the last packet is only reported.
abbrev pub send_rcvd : Sendto → Peer → Receiver → Result × Receiver
send_rcvd net p r = (ok, record r { out = send_rcvd_packet net p.address p.session r.out })

-- The session after the first data. A round of the loop takes an event or is the last, so there is
-- fuel for as many rounds as events, and one more.
unfoldable pub serve_rest : Sendto → Peer → (data_len : ℕ) → Receiver → Result × Receiver
unfolding send_acc_and_recv_data send_to
serve_rest net p len r =
    when_received
      (send_acc_and_recv_data net p (len - r.read_size) (suc (length r.incoming))
        (suc max_retransmits) first_packet_number (record r { read_size = 0 }))
      (send_rcvd net p)

-- The session of a client with retransmissions in handle_udp_connection, after its CONN packet
unfoldable pub serve : Sendto → Peer → (data_len : ℕ) → Receiver → Result × Receiver
unfolding send_conacc_and_recv_data serve_rest
serve net p len r =
    when_received
      (send_conacc_and_recv_data net p len (suc max_retransmits) (record r { read_size = 0 }))
      (serve_rest net p len)
