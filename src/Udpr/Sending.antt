-- ===== src/Udpr/Sending.antt =====
-- What client_udpr.c sends, and when it comes to its end.
use mathlib.Core.List.{append-nil, append_assoc}
use mathlib.Core.Path.{subst}
use mimuw.Prelude.{ℕ, zero, suc, ◌<◌, ◌≤◌, ◌≡◌, ◌≢◌, refl, sym, ap, ◌∙◌, arith}
use mimuw.Prelude.{true, false, List, [], ◌∷◌, ◌++◌, length, take, drop, replicate, length-take}
use mimuw.Prelude.{take-append-drop}
use mimuw.Prelude.{Bool-cases, ◌⊎◌, inl, inr}
use mimuw.Udpr.Wire.{max_retransmits, buffer_size, first_packet_number, Datagram, Event, Packet}
use mimuw.Udpr.Wire.{data_packet, Result, ok, timed_out, failed, waiting, Outbox, Sendto}
use mimuw.Udpr.Wire.{send_to, Peer, Verdict}
use mimuw.Udpr.Client.{Link, receive_after, retry, attempt, when_ok, judge_acc, send_chunks}
use mimuw.Udpr.Client.{send_data_packets}

-- A sequence of packets that sends the bytes from a number on: one or more chunks, none of them
-- longer than the buffer, each sent at least once and at most max_retransmits + 1 times.
pub data Sends (address session : ℕ) : (number : ℕ) → List ℕ → List (ℕ × Packet) → Type 0 where
  all_sent : {n : ℕ} → Sends address session n [] []
  chunk :
      {n : ℕ} {rest : List ℕ} {later : List (ℕ × Packet)} (bytes : List ℕ) (times : ℕ)
      → 0 < length bytes
      → length bytes ≤ buffer_size
      → 0 < times
      → times ≤ suc max_retransmits
      → Sends address session (suc n) rest later
      → Sends address session n
          (bytes ++ rest)
          (replicate times (address, data_packet session n bytes) ++ later)

-- What a finished loop over the attempts sent
abbrev Repeats : ℕ → Packet → ℕ → Link → Link → Type 0
Repeats a p most k k' =
    (times : ℕ) × (0 < times)
    × (times ≤ most)
    × (k'.out.sent ≡ k.out.sent ++ replicate times (a, p))

retry-ok :
    (x : Result × Link) (next : Link → Result × Link)
    → (retry x next).0 ≡ ok
    → (x.0 ≡ timed_out) × ((next x.1).0 ≡ ok) × (retry x next ≡ next x.1)
      ⊎ (x.0 ≡ ok) × (retry x next ≡ x)
retry-ok (timed_out, k) next e = inl (refl, e, refl)
retry-ok (ok, k) next e = inr (refl, refl)
retry-ok (failed, k) next e = ground (arith, e)
retry-ok (waiting, k) next e = ground (arith, e)

pub when_ok-ok :
    (x : Result × Link) (next : Link → Result × Link)
    → (when_ok x next).0 ≡ ok
    → (x.0 ≡ ok) × ((next x.1).0 ≡ ok) × (when_ok x next ≡ next x.1)
when_ok-ok (ok, k) next e = (refl, e, refl)
when_ok-ok (timed_out, k) next e = ground (arith, e)
when_ok-ok (failed, k) next e = ground (arith, e)
when_ok-ok (waiting, k) next e = ground (arith, e)

pub send_to_done :
    (net : Sendto) (a : ℕ) (p : Packet) (o : Outbox)
    → net o.calls ≡ true
    → send_to net a p o ≡ (true, record { sent = o.sent ++ (a, p) ∷ []; calls = suc o.calls })
unfolding send_to
send_to_done net a p o e = rw e refl

pub send_to_failed :
    (net : Sendto) (a : ℕ) (p : Packet) (o : Outbox)
    → net o.calls ≡ false
    → send_to net a p o ≡ (false, record o { calls = suc o.calls })
unfolding send_to
send_to_failed net a p o e = rw e refl

one_sent :
    (net : Sendto) (a : ℕ) (p : Packet) (judge : Datagram → Verdict) (es : List Event) (o : Outbox)
    (r : Result)
    → r ≢ failed
    → (receive_after judge es (send_to net a p o)).0 ≡ r
    → (receive_after judge es (send_to net a p o)).1.out.sent ≡ o.sent ++ (a, p) ∷ []
one_sent net a p judge es o r n e = elim (Bool-cases (net o.calls)) [
  | inl b ↦ ap (λ x. (receive_after judge es x).1.out.sent) (send_to_done net a p o b)
  | inr b ↦ absurd (n (sym e ∙ ap (λ x. (receive_after judge es x).0) (send_to_failed net a p o b)))
]

attempt-Repeats :
    (net : Sendto) (a : ℕ) (p : Packet) (judge : Datagram → Verdict) (n : ℕ) (k : Link)
    → (attempt net a p judge n k).0 ≡ ok
    → Repeats a p n k (attempt net a p judge n k).1
unfolding attempt
attempt-Repeats net a p judge zero k e = ground (arith, e)
attempt-Repeats net a p judge (suc n) k e =
    let x = receive_after judge k.incoming (send_to net a p k.out) in
    elim (retry-ok x (attempt net a p judge n) e) [
      | inl (t, u, v) ↦
          let s = one_sent net a p judge k.incoming k.out timed_out (λ z. ground (arith, z)) t in
          let (times, l, m, q) = attempt-Repeats net a p judge n x.1 u in
          (
            suc times,
            omega arith,
            omega (arith, m),
            ap (λ y. y.1.out.sent) v
                ∙ q
                ∙ ap (λ y. y ++ replicate times (a, p)) s
                ∙ append_assoc k.out.sent ((a, p) ∷ []) (replicate times (a, p)),
          )
      | inr (t, v) ↦ (
        1,
        omega arith,
        omega arith,
        ap (λ y. y.1.out.sent) v
            ∙ one_sent net a p judge k.incoming k.out ok (λ z. ground (arith, z)) t,
      )
    ]

send_chunks-Sends :
    (net : Sendto) (p : Peer) (fuel n : ℕ) (text : List ℕ) (k : Link)
    → (send_chunks net p fuel n text k).0 ≡ ok
    → (packets : List (ℕ × Packet)) × Sends p.address p.session n text packets
      × ((send_chunks net p fuel n text k).1.out.sent ≡ k.out.sent ++ packets)
unfolding send_chunks
send_chunks-Sends net p fuel n [] k e = ([], all_sent, sym (append-nil k.out.sent))
send_chunks-Sends net p zero n (c ∷ cs) k e = ground (arith, e)
send_chunks-Sends net p (suc fuel) n (c ∷ cs) k e =
    let bytes = take buffer_size (c ∷ cs) in
    let rest = drop buffer_size (c ∷ cs) in
    let q = data_packet p.session n bytes in
    let x = attempt net p.address q (judge_acc p n) (suc max_retransmits) k in
    let (t, u, v) = when_ok-ok x (send_chunks net p fuel (suc n) rest) e in
    let (times, l, m, s) =
      attempt-Repeats net p.address q (judge_acc p n) (suc max_retransmits) k t in
    let (packets, h, r) = send_chunks-Sends net p fuel (suc n) rest x.1 u in
    let len = length-take buffer_size (c ∷ cs) in
    (
      replicate times (p.address, q) ++ packets,
      subst (λ b. Sends p.address p.session n b (replicate times (p.address, q) ++ packets))
          (take-append-drop buffer_size (c ∷ cs))
          (chunk bytes times (omega (arith, len)) (omega (arith, len)) l m h),
      ap (λ y. y.1.out.sent) v
          ∙ r
          ∙ ap (λ y. y ++ packets) s
          ∙ append_assoc k.out.sent (replicate times (p.address, q)) packets,
    )

-- If send_data_packets_and_recv_acc_retr succeeds, it sent the whole data in order: consecutive
-- chunks with numbers from 0 on, each of 1 to 64000 bytes, and each sent 1 to 6 times.
pub send_data_packets-Sends :
    (net : Sendto) (p : Peer) (text : List ℕ) (k : Link)
    → (send_data_packets net p text k).0 ≡ ok
    → (packets : List (ℕ × Packet)) × Sends p.address p.session first_packet_number text packets
      × ((send_data_packets net p text k).1.out.sent ≡ k.out.sent ++ packets)
unfolding send_data_packets
send_data_packets-Sends net p text k e = send_chunks-Sends net p (length text) 0 text k e
