-- ===== src/Udpr/Answers.antt =====
-- With a server that answers, client_udpr.c comes to its end.
use mimuw.Prelude.{ℕ, zero, suc, ◌<◌, ◌≤◌, ◌≡◌, ◌≢◌, refl, ap, ◌∙◌, arith}
use mimuw.Prelude.{true, List, [], ◌∷◌, ◌++◌, length, take, drop, length-drop, ◌⊎◌, inl, inr}
use mimuw.Udpr.Wire.{
  max_retransmits, buffer_size, acc_size, acc_packet_type, first_packet_number, Datagram, Event,
  timeout,
}
use mimuw.Udpr.Wire.{delivered, Packet, data_packet, Result, ok, timed_out, Outbox, Sendto, Peer}
use mimuw.Udpr.Wire.{Verdict, again, accept}
use mimuw.Udpr.Client.{Link, receive, receive_after, retry, attempt, judge_acc, send_chunks}
use mimuw.Udpr.Client.{send_data_packets}
use mimuw.Udpr.Sending.{send_to_done}

-- Among what recvfrom gives the answer comes after a number of timeouts; before it come only
-- datagrams that are passed over.
pub data Reaches (judge : Datagram → Verdict)
    : (timeouts : ℕ) → (before after : List Event) → Type 0 where
  answered :
      {d : Datagram} {es : List Event} → judge d ≡ accept → Reaches judge 0 (delivered d ∷ es) es
  passed_over :
      {t : ℕ} {d : Datagram} {es rest : List Event}
      → judge d ≡ again
      → Reaches judge t es rest
      → Reaches judge t (delivered d ∷ es) rest
  after_timeout :
      {t : ℕ} {es rest : List Event}
      → Reaches judge t es rest
      → Reaches judge (suc t) (timeout ∷ es) rest

-- An acknowledgement of the server for a packet
abbrev pub IsAck : Peer → ℕ → Datagram → Type 0
IsAck p n d =
    (d.source ≡ p.address)
    × (d.size ≡ acc_size)
    × (d.packet_type ≡ acc_packet_type)
    × (d.session_id ≡ p.session)
    × (d.packet_number ≡ n)

-- The acknowledgement of a packet comes after a number of timeouts; before it come only datagrams
-- from other addresses and acknowledgements of earlier packets.
pub data Acknowledged (p : Peer) (n : ℕ)
    : (timeouts : ℕ) → (before after : List Event) → Type 0 where
  acknowledged :
      {d : Datagram} {es : List Event} → IsAck p n d → Acknowledged p n 0 (delivered d ∷ es) es
  stranger :
      {t : ℕ} {d : Datagram} {es rest : List Event}
      → d.source ≢ p.address
      → Acknowledged p n t es rest
      → Acknowledged p n t (delivered d ∷ es) rest
  earlier :
      {t : ℕ} {d : Datagram} {es rest : List Event} (m : ℕ)
      → m < n
      → IsAck p m d
      → Acknowledged p n t es rest
      → Acknowledged p n t (delivered d ∷ es) rest
  silence :
      {t : ℕ} {es rest : List Event}
      → Acknowledged p n t es rest
      → Acknowledged p n (suc t) (timeout ∷ es) rest

judge_acc-accept : (p : Peer) (n : ℕ) (d : Datagram) → IsAck p n d → judge_acc p n d ≡ accept
unfolding judge_acc
judge_acc-accept p n d h = ground (arith, h)

judge_acc-stranger :
    (p : Peer) (n : ℕ) (d : Datagram) → d.source ≢ p.address → judge_acc p n d ≡ again
unfolding judge_acc
judge_acc-stranger p n d h = ground (arith, h)

judge_acc-earlier :
    (p : Peer) (n m : ℕ) (d : Datagram) → m < n → IsAck p m d → judge_acc p n d ≡ again
unfolding judge_acc
judge_acc-earlier p n m d l h = ground (arith, l, h)

Acknowledged-Reaches :
    {p : Peer} {n t : ℕ} {es rest : List Event}
    → Acknowledged p n t es rest
    → Reaches (judge_acc p n) t es rest
Acknowledged-Reaches {p = p} {n = n} (acknowledged {d = d} h) = answered (judge_acc-accept p n d h)
Acknowledged-Reaches {p = p} {n = n} (stranger {d = d} h a) =
    passed_over (judge_acc-stranger p n d h) (Acknowledged-Reaches a)
Acknowledged-Reaches {p = p} {n = n} (earlier {d = d} m l h a) =
    passed_over (judge_acc-earlier p n m d l h) (Acknowledged-Reaches a)
Acknowledged-Reaches (silence a) = after_timeout (Acknowledged-Reaches a)

-- For every chunk from a number on the acknowledgement comes after at most max_retransmits timeouts.
pub data Answered (p : Peer) : (number : ℕ) → List ℕ → (before after : List Event) → Type 0 where
  no_more : {n : ℕ} {es : List Event} → Answered p n [] es es
  next :
      {n t c : ℕ} {cs : List ℕ} {es rest last : List Event}
      → Acknowledged p n t es rest
      → t ≤ max_retransmits
      → Answered p (suc n) (drop buffer_size (c ∷ cs)) rest last
      → Answered p n (c ∷ cs) es last

Reaches-receive :
    {judge : Datagram → Verdict} {t : ℕ} {es rest : List Event}
    → Reaches judge t es rest
    → (receive judge es ≡ (ok, rest))
      ⊎ (t' : ℕ) × (es' : List Event) × (t ≡ suc t')
        × (receive judge es ≡ (timed_out, es'))
        × Reaches judge t' es' rest
unfolding receive
Reaches-receive (answered e) = inl (rw e refl)
Reaches-receive (passed_over e r) = elim (Reaches-receive r) [
  | inl q ↦ inl (rw e q)
  | inr (t', es', h, q, s) ↦ inr (t', es', h, rw e q, s)
]
Reaches-receive (after_timeout {t} {es} r) = inr (t, es, refl, refl, r)

attempt-receive :
    (net : Sendto) (a : ℕ) (p : Packet) (judge : Datagram → Verdict) (n : ℕ) (k : Link) (r : Result)
    (es : List Event)
    → ((c : ℕ) → net c ≡ true)
    → receive judge k.incoming ≡ (r, es)
    → attempt net a p judge (suc n) k
      ≡ retry
          (
            r,
            record {
              incoming = es;
              out = record { sent = k.out.sent ++ (a, p) ∷ []; calls = suc k.out.calls };
            },
          )
          (attempt net a p judge n)
unfolding attempt
attempt-receive net a p judge n k r es h e =
    ap (λ x. retry (receive_after judge k.incoming x) (attempt net a p judge n))
      (send_to_done net a p k.out (h k.out.calls))
    ∙ ap
        (λ (x : Result × List Event).
          retry
            (
              x.0,
              record {
                incoming = x.1;
                out = record { sent = k.out.sent ++ (a, p) ∷ []; calls = suc k.out.calls };
              },
            )
            (attempt net a p judge n))
        e

attempt-ok :
    (net : Sendto) (a : ℕ) (p : Packet) (judge : Datagram → Verdict) (n : ℕ) (k : Link) (t : ℕ)
    (rest : List Event)
    → ((c : ℕ) → net c ≡ true)
    → Reaches judge t k.incoming rest
    → t < n
    → (o : Outbox) × (attempt net a p judge n k ≡ (ok, record { incoming = rest; out = o }))
attempt-ok net a p judge zero k t rest h r l = absurd (omega (arith, l))
attempt-ok net a p judge (suc n) k t rest h r l = elim (Reaches-receive r) [
  | inl q ↦ (_, attempt-receive net a p judge n k ok rest h q)
  | inr (t', es', e, q, s) ↦
      let k' : Link = record {
        incoming = es';
        out = record { sent = k.out.sent ++ (a, p) ∷ []; calls = suc k.out.calls };
      } in
      let (o, u) = attempt-ok net a p judge n k' t' rest h s (omega (arith, e, l)) in
      (o, attempt-receive net a p judge n k timed_out es' h q ∙ u)
]

send_chunks-ok :
    (net : Sendto) (p : Peer) (fuel n : ℕ) (text : List ℕ) (k : Link) (last : List Event)
    → ((c : ℕ) → net c ≡ true)
    → length text ≤ fuel
    → Answered p n text k.incoming last
    → ((send_chunks net p fuel n text k).0 ≡ ok)
      × ((send_chunks net p fuel n text k).1.incoming ≡ last)
unfolding send_chunks
send_chunks-ok net p fuel n [] k last h l no_more = (refl, refl)
send_chunks-ok net p zero n (c ∷ cs) k last h l a = absurd (omega (arith, l))
send_chunks-ok net p (suc fuel) n (c ∷ cs) k last h l (next {rest = rest} b m a) =
    let (o, e) =
      attempt-ok net p.address (data_packet p.session n (take buffer_size (c ∷ cs))) (judge_acc p n)
        (suc max_retransmits) k _ rest h (Acknowledged-Reaches b) (omega (arith, m)) in
    let d = length-drop buffer_size (c ∷ cs) in
    rw e (
      send_chunks-ok net p fuel (suc n) (drop buffer_size (c ∷ cs))
        (record { incoming = rest; out = o }) last h (omega (arith, l, d)) a)

-- If every call of sendto succeeds, and the server's acknowledgement of every chunk comes after at
-- most five timeouts, with only datagrams from other addresses and earlier acknowledgements before
-- it: send_data_packets_and_recv_acc_retr succeeds, and reads nothing after the last acknowledgement.
pub send_data_packets-ok :
    (net : Sendto) (p : Peer) (text : List ℕ) (k : Link) (last : List Event)
    → ((c : ℕ) → net c ≡ true)
    → Answered p first_packet_number text k.incoming last
    → ((send_data_packets net p text k).0 ≡ ok)
      × ((send_data_packets net p text k).1.incoming ≡ last)
unfolding send_data_packets
send_data_packets-ok net p text k last h a =
    send_chunks-ok net p (length text) 0 text k last h (omega arith) a
