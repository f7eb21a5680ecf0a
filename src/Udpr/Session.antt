-- ===== src/Udpr/Session.antt =====
-- A whole session of server_udpr.c with a client whose packets come in order.
use mathlib.Core.List.{append_assoc, append-nil}
use native.Mathlib.Nat.{mod-eq_of_lt}
use mimuw.Prelude.{ℕ, zero, suc, ◌+◌, ◌-◌, ◌%◌, ◌<◌, ◌≡◌, refl, sym, ap, ◌∙◌, arith}
use mimuw.Prelude.{true, false, List, [], ◌∷◌, ◌++◌, length, length-append, ◌==◌}
use mimuw.Udpr.Wire.{max_retransmits, first_packet_number, Event, delivered, acc, conacc, Peer}
use mimuw.Udpr.Wire.{Result, ok, timed_out, failed, waiting, Outbox, Sendto}
use mimuw.Udpr.Sending.{send_to_done}
use mimuw.Udpr.Server.{word, Receiver, recv_data, when_received, send_conacc_and_recv_data}
use mimuw.Udpr.Server.{send_acc_and_recv_data, send_rcvd, serve_rest, serve}
use mimuw.Udpr.Receiving.{Delivers, nothing, chunk, after, packet_of, recv_data-accept}

send_acc-Delivers :
    (net : Sendto) (p : Peer) (len fuel n : ℕ) (text : List ℕ) (es : List Event) (r : Receiver)
    → ((c : ℕ) → net c ≡ true)
    → len < word
    → Delivers p (suc n) text es
    → r.incoming ≡ es
    → r.read_size + length text ≡ len
    → n + length text < word
    → length es < fuel
    → let x = send_acc_and_recv_data net p len fuel (suc max_retransmits) n r in
      (x.0 ≡ ok) × (x.1.printed ≡ r.printed ++ text)
unfolding send_acc_and_recv_data
send_acc-Delivers net p len zero n text es r h w d i s b f = absurd (omega (arith, f))
send_acc-Delivers net p len (suc fuel) n [] es r h w nothing i s b f =
    let e : (r.read_size == len) ≡ true = ground (arith, s) in
    rw (e, send_to_done net p.address (acc p.session n) r.out (h r.out.calls))
      (refl, sym (append-nil r.printed))
send_acc-Delivers net p len (suc fuel) n _ _ r h w (chunk {rest = rest} {es = es} bytes a c z d) i s
      b f =
    let l = length-append bytes rest in
    let e : (r.read_size == len) ≡ false = ground (arith, s, l, a) in
    let q : suc n % word ≡ suc n = mod-eq_of_lt {n = suc n} {m = word} (omega (arith, b, l, a)) in
    let o : Outbox = record {
      sent = r.out.sent ++ (p.address, acc p.session n) ∷ [];
      calls = suc r.out.calls;
    } in
    let r' : Receiver = record r {
      incoming = delivered (packet_of p (suc n) bytes) ∷ es;
      out = o;
    } in
    let t = recv_data-accept net p (suc n) len bytes es r' a c z (omega (arith, s, l)) w in
    let (u, v) =
      send_acc-Delivers net p len fuel (suc n) rest es (after bytes es r') h w d refl
        (omega (arith, s, l)) (omega (arith, b, l, a)) (omega (arith, f)) in
    rw (e, send_to_done net p.address (acc p.session n) r.out (h r.out.calls), q, i, t)
      (u, v ∙ append_assoc r.printed bytes rest)

pub when_received-ok :
    (net : Sendto) (p : Peer) (x : Result × Receiver)
    → x.0 ≡ ok
    → (when_received x (send_rcvd net p)).0 ≡ ok
when_received-ok net p (ok, r) e = refl
when_received-ok net p (timed_out, r) e = e
when_received-ok net p (failed, r) e = e
when_received-ok net p (waiting, r) e = e

pub when_received-printed :
    (net : Sendto) (p : Peer) (x : Result × Receiver)
    → x.0 ≡ ok
    → (when_received x (send_rcvd net p)).1.printed ≡ x.1.printed
when_received-printed net p (ok, r) e = refl
when_received-printed net p (timed_out, r) e = refl
when_received-printed net p (failed, r) e = refl
when_received-printed net p (waiting, r) e = refl

send_conacc-Delivers :
    (net : Sendto) (p : Peer) (len k : ℕ) (bytes : List ℕ) (es : List Event) (r : Receiver)
    → ((c : ℕ) → net c ≡ true)
    → ((o : Outbox)
        → recv_data net p first_packet_number len r.incoming (record r { out = o })
          ≡ (ok, after bytes es (record r { out = o })))
    → (o : Outbox) × (send_conacc_and_recv_data net p len (suc k) r
        ≡ (ok, after bytes es (record r { out = o })))
unfolding send_conacc_and_recv_data
send_conacc-Delivers net p len k bytes es r h t =
    let o : Outbox = record {
      sent = r.out.sent ++ (p.address, conacc p.session) ∷ [];
      calls = suc r.out.calls;
    } in
    (o, rw (send_to_done net p.address (conacc p.session) r.out (h r.out.calls), t o) refl)

serve_rest-Delivers :
    (net : Sendto) (p : Peer) (len : ℕ) (rest : List ℕ) (r : Receiver)
    → ((c : ℕ) → net c ≡ true)
    → suc (length rest) < word
    → Delivers p 1 rest r.incoming
    → len - r.read_size ≡ length rest
    → ((serve_rest net p len r).0 ≡ ok) × ((serve_rest net p len r).1.printed ≡ r.printed ++ rest)
unfolding serve_rest
serve_rest-Delivers net p len rest r h b d m =
    let (u, v) =
      send_acc-Delivers net p (len - r.read_size) (suc (length r.incoming)) 0 rest r.incoming
        (record r { read_size = 0 }) h (omega (arith, b, m)) d refl (omega (arith, m))
        (omega (arith, b)) (omega arith) in
    let x =
      send_acc_and_recv_data net p (len - r.read_size) (suc (length r.incoming))
        (suc max_retransmits) 0 (record r { read_size = 0 }) in
    (when_received-ok net p x u, when_received-printed net p x u ∙ v)

serve-Delivers :
    (net : Sendto) (p : Peer) (text : List ℕ) (es : List Event) (r : Receiver)
    → ((c : ℕ) → net c ≡ true)
    → 0 < length text
    → suc (length text) < word
    → Delivers p first_packet_number text es
    → r.incoming ≡ es
    → ((serve net p (length text) r).0 ≡ ok)
      × ((serve net p (length text) r).1.printed ≡ r.printed ++ text)
unfolding serve
serve-Delivers net p [] es r h a b nothing i = absurd (omega (arith, a))
serve-Delivers net p _ _ r h a b (chunk {rest = rest} {es = es} bytes c d z f) i =
    let l = length-append bytes rest in
    let text = bytes ++ rest in
    let r0 : Receiver = record r { read_size = 0 } in
    let t : (o : Outbox)
        → recv_data net p first_packet_number (length text) r.incoming (record r0 { out = o })
          ≡ (ok, after bytes es (record r0 { out = o })) =
      λ o. rw i (
        recv_data-accept net p 0 (length text) bytes es
          (record r0 { incoming = delivered (packet_of p 0 bytes) ∷ es; out = o }) c d z
          (omega (arith, l)) (omega (arith, b))) in
    let (o, e) = send_conacc-Delivers net p (length text) max_retransmits bytes es r0 h t in
    let r1 = after bytes es (record r0 { out = o }) in
    let (u, v) =
      serve_rest-Delivers net p (length text) rest r1 h (omega (arith, b, l)) f
        (omega (arith, l)) in
    let s = ap (λ x. when_received x (serve_rest net p (length text))) e in
    (ap (λ x. x.0) s ∙ u, ap (λ x. x.1.printed) s ∙ v ∙ append_assoc r.printed bytes rest)

-- If every call of sendto succeeds, and the packets of a text that is not empty, has no zero byte
-- and is shorter than 2 ^ 64 - 1 come in order, each once: the session ends well, and the server has
-- printed exactly the text.
pub serve-prints :
    (net : Sendto) (p : Peer) (text : List ℕ) (r : Receiver)
    → ((c : ℕ) → net c ≡ true)
    → 0 < length text
    → suc (length text) < word
    → Delivers p first_packet_number text r.incoming
    → ((serve net p (length text) r).0 ≡ ok)
      × ((serve net p (length text) r).1.printed ≡ r.printed ++ text)
serve-prints net p text r h a b d = serve-Delivers net p text r.incoming r h a b d refl
