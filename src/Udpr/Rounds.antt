-- ===== src/Udpr/Rounds.antt =====
-- A round of handle_udp_connection with a client whose packets come in order.
use mathlib.Core.List.{append_assoc, append-nil}
use native.Mathlib.Nat.{mod-eq_of_lt}
use mimuw.Prelude.{ℕ, suc, ◌+◌, ◌%◌, ◌<◌, ◌≤◌, ◌≡◌, ◌⊎◌, inl, inr, refl, sym, ◌∙◌, arith}
use mimuw.Prelude.{true, false, List, [], ◌∷◌, ◌++◌, length, length-append, ltb, ◌==◌}
use mimuw.Udpr.Wire.{max_data_len, first_packet_number, conn_packet_type, udp_protocol_id}
use mimuw.Udpr.Wire.{udpr_protocol_id, conn_size, Datagram, Event, timeout, failure, delivered}
use mimuw.Udpr.Wire.{conacc, Peer, ok, Outbox, Sendto, accept}
use mimuw.Udpr.Sending.{send_to_done}
use mimuw.Udpr.Server.{word, Receiver}
use mimuw.Udpr.Receiving.{Delivers, nothing, chunk, packet_of, until_zero_all}
use mimuw.Udpr.Session.{serve-prints, when_received-ok, when_received-printed}
use mimuw.Udpr.Connection.{recv_conn_packet, judge_next, recv_data_packets, serve_udp}
use mimuw.Udpr.Connection.{handle_conn, handle_round}

judge_next-accept :
    (p : Peer) (n read len : ℕ) (bytes : List ℕ)
    → 0 < length bytes
    → length bytes ≤ max_data_len
    → read + length bytes ≤ len
    → len < word
    → judge_next p n read len (packet_of p n bytes) ≡ accept
unfolding judge_next
judge_next-accept p n read len bytes a b c d =
    let e : (read + length bytes) % word ≡ read + length bytes =
      mod-eq_of_lt {n = read + length bytes} {m = word} (omega (arith, c, d)) in
    rw e (ground (arith, a, b, c))

-- Nothing is read when all is there.
recv_data_packets-all_read :
    (net : Sendto) (p : Peer) (len n : ℕ) (es : List Event) (r : Receiver)
    → ltb r.read_size len ≡ false
    → let x = recv_data_packets net p len n es r in (x.0 ≡ ok) × (x.1.printed ≡ r.printed)
unfolding recv_data_packets
recv_data_packets-all_read net p len n [] r e = rw e (refl, refl)
recv_data_packets-all_read net p len n (timeout ∷ es) r e = rw e (refl, refl)
recv_data_packets-all_read net p len n (failure ∷ es) r e = rw e (refl, refl)
recv_data_packets-all_read net p len n (delivered d ∷ es) r e = rw e (refl, refl)

recv_data_packets-Delivers :
    (net : Sendto) (p : Peer) (len n : ℕ) (text : List ℕ) (es : List Event) (r : Receiver)
    → len < word
    → Delivers p n text es
    → r.read_size + length text ≡ len
    → n + length text < word
    → let x = recv_data_packets net p len n es r in (x.0 ≡ ok) × (x.1.printed ≡ r.printed ++ text)
unfolding recv_data_packets
recv_data_packets-Delivers net p len n [] es r w nothing s b =
    let (u, v) = recv_data_packets-all_read net p len n es r (ground (arith, s)) in
    (u, v ∙ sym (append-nil r.printed))
recv_data_packets-Delivers net p len n _ _ r w (chunk {rest = rest} {es = es} bytes a c z d) s b =
    let l = length-append bytes rest in
    let e : ltb r.read_size len ≡ true = ground (arith, s, l, a) in
    let o : (p.address == p.address) ≡ true = ground arith in
    let j = judge_next-accept p n r.read_size len bytes a c (omega (arith, s, l)) w in
    let q : suc n % word ≡ suc n = mod-eq_of_lt {n = suc n} {m = word} (omega (arith, b, l, a)) in
    let k : (r.read_size + length bytes) % word ≡ r.read_size + length bytes =
      mod-eq_of_lt {n = r.read_size + length bytes} {m = word} (omega (arith, s, l, w)) in
    let r' : Receiver = record r {
      printed = r.printed ++ bytes;
      read_size = r.read_size + length bytes;
    } in
    let (u, v) =
      recv_data_packets-Delivers net p len (suc n) rest es r' w d (omega (arith, s, l))
        (omega (arith, b, l, a)) in
    rw (e, o, j, q, k, until_zero_all bytes z) (u, v ∙ append_assoc r.printed bytes rest)

serve_udp-Delivers :
    (net : Sendto) (p : Peer) (text : List ℕ) (r : Receiver)
    → ((c : ℕ) → net c ≡ true)
    → suc (length text) < word
    → Delivers p first_packet_number text r.incoming
    → ((serve_udp net p (length text) r).0 ≡ ok)
      × ((serve_udp net p (length text) r).1.printed ≡ r.printed ++ text)
unfolding serve_udp
serve_udp-Delivers net p text r h b d =
    let o : Outbox = record {
      sent = r.out.sent ++ (p.address, conacc p.session) ∷ [];
      calls = suc r.out.calls;
    } in
    let r' : Receiver = record r { out = o; read_size = 0 } in
    let (u, v) =
      recv_data_packets-Delivers net p (length text) 0 text r.incoming r' (omega (arith, b)) d
        (omega arith) (omega (arith, b)) in
    let x = recv_data_packets net p (length text) 0 r.incoming r' in
    rw (send_to_done net p.address (conacc p.session) r.out (h r.out.calls))
      (when_received-ok net p x u, when_received-printed net p x u ∙ v)

-- A CONN packet for a text of some length, over either protocol
abbrev pub IsConn : Datagram → ℕ → Type 0
IsConn d len =
    (d.size ≡ conn_size)
    × (d.packet_type ≡ conn_packet_type)
    × (d.data_len ≡ len)
    × ((d.protocol_id ≡ udp_protocol_id) ⊎ (d.protocol_id ≡ udpr_protocol_id))

recv_conn_packet-IsConn : (d : Datagram) (len : ℕ) → IsConn d len → recv_conn_packet d ≡ true
unfolding recv_conn_packet
recv_conn_packet-IsConn d len h = ground (arith, h)

-- If every call of sendto succeeds, a CONN packet comes, over UDP with or without retransmissions,
-- and then the packets of the text that it announces, in order and each once, where the text is not
-- empty, has no zero byte and is shorter than 2 ^ 64 - 1: the round of handle_udp_connection ends
-- well, and has printed exactly the text.
pub handle_round-prints :
    (net : Sendto) (d : Datagram) (text : List ℕ) (es : List Event) (r : Receiver)
    → ((c : ℕ) → net c ≡ true)
    → 0 < length text
    → suc (length text) < word
    → IsConn d (length text)
    → Delivers (record { address = d.source; session = d.session_id }) first_packet_number text es
    → let x = handle_round net (delivered d ∷ es) r in
      (x.0 ≡ ok) × (x.1.printed ≡ r.printed ++ text)
unfolding handle_round handle_conn
handle_round-prints net d text es r h a b (s, t, n, inl q) f =
    let e = recv_conn_packet-IsConn d (length text) (s, t, n, inl q) in
    let g : (d.protocol_id == udp_protocol_id) ≡ true = ground (arith, q) in
    rw (e, g, n) (serve_udp-Delivers net _ text (record r { incoming = es }) h b f)
handle_round-prints net d text es r h a b (s, t, n, inr q) f =
    let e = recv_conn_packet-IsConn d (length text) (s, t, n, inr q) in
    let g : (d.protocol_id == udp_protocol_id) ≡ false = ground (arith, q) in
    rw (e, g, n) (serve-prints net _ text (record r { incoming = es }) h a b f)
