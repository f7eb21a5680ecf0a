-- ===== src/Udpr/Transfer.antt =====
-- client_udp.c and the server together: what the one sends the other prints.
use mathlib.Core.List.{append-nil, append_assoc}
use mathlib.Core.Path.{subst}
use mimuw.Prelude.{ℕ, zero, suc, ◌<◌, ◌≡◌, inl, inr, refl, sym, ap, ◌∙◌, arith}
use mimuw.Prelude.{
  Bool, true, false, List, [], ◌∷◌, ◌++◌, length, take, drop, length-take, take-append-drop,
  Bool-cases,
}
use mimuw.Udpr.Wire.{buffer_size, first_packet_number, conn_packet_type, udp_protocol_id}
use mimuw.Udpr.Wire.{conn_size, Datagram, Event, delivered, Packet, conn, conacc, conrjt, rcvd}
use mimuw.Udpr.Wire.{data_packet, acc, rjt, Peer, ok, Outbox, Sendto, send_to}
use mimuw.Udpr.Sending.{send_to_done, send_to_failed, when_ok-ok}
use mimuw.Udpr.Client.{Link, judge_conacc}
use mimuw.Udpr.Server.{word, Receiver}
use mimuw.Udpr.Receiving.{packet_of, HasNoZero, Delivers, nothing, chunk}
use mimuw.Udpr.Connection.{handle_round}
use mimuw.Udpr.Rounds.{handle_round-prints}
use mimuw.Udpr.Plain.{go_on, send_each, sending, receiving, handle_udp_client}

-- The datagram of a CONN packet
abbrev pub conn_of : ℕ → (session protocol len : ℕ) → Datagram
conn_of a s protocol len = record {
  source = a;
  size = conn_size;
  packet_type = conn_packet_type;
  session_id = s;
  packet_number = 0;
  data_bytes_len = 0;
  text = [];
  protocol_id = protocol;
  data_len = len;
}

-- A network that delivers in order what a client at an address sends to the server
unfoldable pub carry : (address : ℕ) → List (ℕ × Packet) → List Event
carry a [] = []
carry a ((to, conn s protocol len) ∷ ps) = delivered (conn_of a s protocol len) ∷ carry a ps
carry a ((to, data_packet s n bytes) ∷ ps) =
    delivered (packet_of (record { address = a; session = s }) n bytes) ∷ carry a ps
carry a ((to, conacc s) ∷ ps) = carry a ps
carry a ((to, conrjt s) ∷ ps) = carry a ps
carry a ((to, rcvd s) ∷ ps) = carry a ps
carry a ((to, acc s n) ∷ ps) = carry a ps
carry a ((to, rjt s n) ∷ ps) = carry a ps

take-HasNoZero : (k : ℕ) (text : List ℕ) → HasNoZero text → HasNoZero (take k text)
take-HasNoZero zero text h = tt
take-HasNoZero (suc k) [] h = tt
take-HasNoZero (suc k) (c ∷ cs) (n, h) = (n, take-HasNoZero k cs h)

drop-HasNoZero : (k : ℕ) (text : List ℕ) → HasNoZero text → HasNoZero (drop k text)
drop-HasNoZero zero text h = h
drop-HasNoZero (suc k) [] h = tt
drop-HasNoZero (suc k) (c ∷ cs) (n, h) = drop-HasNoZero k cs h

go_on-true :
    (x : Bool × Outbox) (next : Outbox → Bool × Outbox)
    → (go_on x next).0 ≡ true
    → (x.0 ≡ true) × ((next x.1).0 ≡ true) × (go_on x next ≡ next x.1)
go_on-true (true, o) next e = (refl, e, refl)
go_on-true (false, o) next e = ground (arith, e)

sent-true :
    (net : Sendto) (a : ℕ) (p : Packet) (o : Outbox)
    → (send_to net a p o).0 ≡ true
    → (send_to net a p o).1.sent ≡ o.sent ++ (a, p) ∷ []
sent-true net a p o e = elim (Bool-cases (net o.calls)) [
  | inl b ↦ ap (λ x. x.1.sent) (send_to_done net a p o b)
  | inr b ↦ ground (arith, sym e ∙ ap (λ x. x.0) (send_to_failed net a p o b))
]

send_each-Delivers :
    (net : Sendto) (p : Peer) (a fuel n : ℕ) (text : List ℕ) (o : Outbox)
    → HasNoZero text
    → (send_each net p fuel n text o).0 ≡ true
    → (packets : List (ℕ × Packet)) × ((send_each net p fuel n text o).1.sent ≡ o.sent ++ packets)
      × Delivers (record { address = a; session = p.session }) n text (carry a packets)
unfolding send_each carry
send_each-Delivers net p a fuel n [] o h e = ([], sym (append-nil o.sent), nothing)
send_each-Delivers net p a zero n (c ∷ cs) o h e = ground (arith, e)
send_each-Delivers net p a (suc fuel) n (c ∷ cs) o h e =
    let bytes = take buffer_size (c ∷ cs) in
    let rest = drop buffer_size (c ∷ cs) in
    let q = data_packet p.session n bytes in
    let x = send_to net p.address q o in
    let (t, u, v) = go_on-true x (send_each net p fuel (suc n) rest) e in
    let (packets, s, d) =
      send_each-Delivers net p a fuel (suc n) rest x.1 (drop-HasNoZero buffer_size (c ∷ cs) h) u in
    let l = length-take buffer_size (c ∷ cs) in
    (
      (p.address, q) ∷ packets,
      ap (λ y. y.1.sent) v
          ∙ s
          ∙ ap (λ y. y ++ packets) (sent-true net p.address q o t)
          ∙ append_assoc o.sent ((p.address, q) ∷ []) packets,
      subst
          (λ b.
            Delivers (record { address = a; session = p.session }) n b
              (delivered (packet_of (record { address = a; session = p.session }) n bytes)
                ∷ carry a packets))
          (take-append-drop buffer_size (c ∷ cs))
          (chunk bytes (omega (arith, l)) (omega (arith, l)) (take-HasNoZero buffer_size (c ∷ cs) h)
            d),
    )

conn_carried :
    (net : Sendto) (p : Peer) (a : ℕ) (text : List ℕ) (packets : List (ℕ × Packet)) (r : Receiver)
    → ((c : ℕ) → net c ≡ true)
    → 0 < length text
    → suc (length text) < word
    → Delivers
        (record { address = a; session = p.session })
        first_packet_number
        text
        (carry a packets)
    → let x =
        handle_round net
          (carry a ((p.address, conn p.session udp_protocol_id (length text)) ∷ packets))
          r in
      (x.0 ≡ ok) × (x.1.printed ≡ r.printed ++ text)
unfolding carry
conn_carried net p a text packets r h l w d =
    handle_round-prints net (conn_of a p.session udp_protocol_id (length text)) text
      (carry a packets) r h l w (refl, refl, refl, inl refl) d

sending-ok :
    (x : Bool × Outbox) (k : Link)
    → (sending x k).0 ≡ ok
    → (x.0 ≡ true) × ((sending x k).1.out ≡ x.1)
sending-ok (true, o) k e = (refl, refl)
sending-ok (false, o) k e = ground (arith, e)

-- If the client ends well with a text that is not empty, has no zero byte and is shorter than
-- 2 ^ 64 - 1, and a network delivers in order what it sent to a server whose calls of sendto succeed:
-- the server's round ends well, and it has printed exactly the text.
pub handle_udp_client-printed :
    (net net' : Sendto) (p : Peer) (a : ℕ) (text : List ℕ) (k : Link) (r : Receiver)
    → ((c : ℕ) → net' c ≡ true)
    → 0 < length text
    → suc (length text) < word
    → HasNoZero text
    → k.out.sent ≡ []
    → (handle_udp_client net p udp_protocol_id text k).0 ≡ ok
    → let x =
        handle_round net' (carry a (handle_udp_client net p udp_protocol_id text k).1.out.sent) r in
      (x.0 ≡ ok) × (x.1.printed ≡ r.printed ++ text)
unfolding handle_udp_client
handle_udp_client-printed net net' p a text k r h l w z s e =
    let q = conn p.session udp_protocol_id (length text) in
    let x1 = sending (send_to net p.address q k.out) k in
    let (e1, e2, e3) = when_ok-ok x1 _ e in
    let x2 = receiving (judge_conacc p) x1.1 in
    let (f1, f2, f3) = when_ok-ok x2 _ e2 in
    let x3 = sending (send_each net p (length text) first_packet_number text x2.1.out) x2.1 in
    let (g1, g2, g3) = when_ok-ok x3 _ f2 in
    let (b1, o1) = sending-ok (send_to net p.address q k.out) k e1 in
    let (b3, o3) =
      sending-ok (send_each net p (length text) first_packet_number text x2.1.out) x2.1 g1 in
    let (packets, t, d) = send_each-Delivers net p a (length text) 0 text x2.1.out z b3 in
    let all : (handle_udp_client net p udp_protocol_id text k).1.out.sent
        ≡ (p.address, q) ∷ packets =
      ap (λ y. y.1.out.sent) (e3 ∙ f3 ∙ g3)
      ∙ ap (λ (y : Outbox). y.sent) o3
      ∙ t
      ∙ ap (λ y. y ++ packets)
          (ap (λ (y : Outbox). y.sent) o1
            ∙ sent-true net p.address q k.out b1
            ∙ ap (λ y. y ++ (p.address, q) ∷ []) s) in
    subst
      (λ y.
        let x = handle_round net' (carry a y) r in (x.0 ≡ ok) × (x.1.printed ≡ r.printed ++ text))
      (sym all) (conn_carried net' p a text packets r h l w d)
