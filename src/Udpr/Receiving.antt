-- ===== src/Udpr/Receiving.antt =====
-- What server_udpr.c does with the data packets of a client.
use native.Mathlib.Nat.{mod-eq_of_lt}
use mimuw.Prelude.{ℕ, suc, ◌+◌, ◌%◌, ◌<◌, ◌≤◌, ◌≡◌, ◌≢◌, refl, ap, arith}
use mimuw.Prelude.{true, false, List, [], ◌∷◌, ◌++◌, length, take, ltb, ◌==◌}
use mimuw.Prelude.{Bool-cases, ◌⊎◌, inl, inr}
use mimuw.Udpr.Wire.{max_data_len, data_packet_type, header_size, Datagram, Event, delivered}
use mimuw.Udpr.Wire.{Peer, ok, Sendto, again, give_up, accept}
use mimuw.Udpr.Server.{word, Receiver, until_zero, judge_data, recv_data}

-- The datagram of a data packet of the client
abbrev pub packet_of : Peer → ℕ → List ℕ → Datagram
packet_of p n bytes = record {
  source = p.address;
  size = header_size + length bytes;
  packet_type = data_packet_type;
  session_id = p.session;
  packet_number = n;
  data_bytes_len = length bytes;
  text = bytes;
  protocol_id = 0;
  data_len = 0;
}

abbrev pub HasNoZero : List ℕ → Type 0
HasNoZero [] = Unit
HasNoZero (c ∷ cs) = (c ≢ 0) × HasNoZero cs

-- The packets of a text from a number on come in order, each once.
pub data Delivers (p : Peer) : ℕ → List ℕ → List Event → Type 0 where
  nothing : {n : ℕ} {es : List Event} → Delivers p n [] es
  chunk :
      {n : ℕ} {rest : List ℕ} {es : List Event} (bytes : List ℕ)
      → 0 < length bytes
      → length bytes ≤ max_data_len
      → HasNoZero bytes
      → Delivers p (suc n) rest es
      → Delivers p n (bytes ++ rest) (delivered (packet_of p n bytes) ∷ es)

pub until_zero_all :
    (bytes : List ℕ) → HasNoZero bytes → until_zero (take (length bytes) bytes) ≡ bytes
unfolding until_zero
until_zero_all [] h = refl
until_zero_all (c ∷ cs) (n, h) =
    let e : (c == 0) ≡ false = ground (arith, n) in rw e (ap (λ x. c ∷ x) (until_zero_all cs h))

judge_data-accept :
    (p : Peer) (n read len : ℕ) (bytes : List ℕ)
    → 0 < length bytes
    → length bytes ≤ max_data_len
    → length bytes + read ≤ len
    → len < word
    → judge_data p n read len (packet_of p n bytes) ≡ accept
unfolding judge_data
judge_data-accept p n read len bytes a b c d =
    let e : (length bytes + read) % word ≡ length bytes + read =
      mod-eq_of_lt {n = length bytes + read} {m = word} (omega (arith, c, d)) in
    rw e (ground (arith, a, b, c))

-- A second copy of an earlier packet of the client, whose data has a length that a packet may have:
-- it is passed over if its bytes would still fit into what is left of the text, and otherwise the
-- server gives the session up.
pub judge_data-late_copy :
    (p : Peer) (n m read len : ℕ) (bytes : List ℕ)
    → m < n
    → 0 < length bytes
    → length bytes ≤ max_data_len
    → length bytes + read < word
    → (length bytes + read ≤ len) × (judge_data p n read len (packet_of p m bytes) ≡ again)
      ⊎ (len < length bytes + read) × (judge_data p n read len (packet_of p m bytes) ≡ give_up)
unfolding judge_data
judge_data-late_copy p n m read len bytes l a b d =
    let e : (length bytes + read) % word ≡ length bytes + read =
      mod-eq_of_lt {n = length bytes + read} {m = word} d in
    elim (Bool-cases (ltb len (length bytes + read))) [
      | inl f ↦ inr (ground (arith, f), rw e (ground (arith, a, b, f)))
      | inr f ↦ inl (ground (arith, f), rw e (ground (arith, a, b, f, l)))
    ]

-- The receiver after the data of a packet
abbrev pub after : List ℕ → List Event → Receiver → Receiver
after bytes es r = record {
  incoming = es;
  out = r.out;
  printed = r.printed ++ bytes;
  read_size = r.read_size + length bytes;
}

pub recv_data-accept :
    (net : Sendto) (p : Peer) (n len : ℕ) (bytes : List ℕ) (es : List Event) (r : Receiver)
    → 0 < length bytes
    → length bytes ≤ max_data_len
    → HasNoZero bytes
    → length bytes + r.read_size ≤ len
    → len < word
    → recv_data net p n len (delivered (packet_of p n bytes) ∷ es) r ≡ (ok, after bytes es r)
unfolding recv_data
recv_data-accept net p n len bytes es r a b z c d =
    let s : (p.address == p.address) ≡ true = ground arith in
    let e : (r.read_size + length bytes) % word ≡ r.read_size + length bytes =
      mod-eq_of_lt {n = r.read_size + length bytes} {m = word} (omega (arith, c, d)) in
    rw (s, judge_data-accept p n r.read_size len bytes a b c d, e, until_zero_all bytes z) refl
