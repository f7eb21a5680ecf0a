-- ===== src/Mimpi/Chunks.antt =====
-- The loops over chunks of mimpi.c: the bytes that arrive do not depend on how they were cut.
use mimuw.Prelude.{ℕ, zero, suc, ◌-◌, ◌≤◌, ◌<◌, ◌≡◌, refl, false, some}
use mimuw.Prelude.{List, [], ◌∷◌, ◌++◌, arith, ap, ◌∙◌, take, drop, ◌==◌}
use mimuw.Prelude.{Bool-cases, inl, inr, ◌⊎◌, ==_iff}
use mimuw.Mimpi.Process.{success, Write, wrote, epipe}
use mimuw.Mimpi.Wire.{moved, read_chunks, send_chunks}

-- The answers of `chrecv` bring `left` bytes, none of them empty-handed before the end.
abbrev pub Delivers : List ℕ → ℕ → Type 0
Delivers [] left = left ≡ 0
Delivers (n ∷ ns) left = (left ≡ 0) ⊎ (0 < n) × Delivers ns (left - moved n left)

take_nil : (j : ℕ) → take {A = ℕ} j [] ≡ []
take_nil zero = refl
take_nil (suc j) = refl

take_split :
    (k n : ℕ) (bytes : List ℕ) → k ≤ n → take k bytes ++ take (n - k) (drop k bytes) ≡ take n bytes
take_split zero n bytes h = ap (λ j. take j bytes) {x = n - 0} (omega arith)
take_split (suc k) zero bytes h = absurd (omega arith)
take_split (suc k) (suc n) [] h = take_nil (suc n - suc k)
take_split (suc k) (suc n) (x ∷ bytes) h =
    ap (λ j. x ∷ (take k bytes ++ take j (drop k bytes))) {x = suc n - suc k} {y = n - k}
      (omega arith)
    ∙ ap (λ t. x ∷ t) (take_split k n bytes (omega arith))

nonzero : (n : ℕ) → (n == 0) ≡ false → 0 < n
nonzero n e = ground arith

moved-le : (n left : ℕ) → moved n left ≤ left
moved-le n left = ground arith

-- Once the answers of `chrecv` amount to `left` bytes, the loop of `receive_message` ends with the
-- first `left` bytes of the pipe, however they were cut into chunks.
pub read_chunks_lem :
    (reads : List ℕ) (left : ℕ) (bytes : List ℕ)
    → Delivers reads left
    → read_chunks reads left bytes ≡ some (take left bytes)
unfolding read_chunks
read_chunks_lem [] left bytes h = rw h
read_chunks_lem (n ∷ ns) left bytes h = elim (Bool-cases (left == 0)) [
  | inl e ↦ rw (read_chunks, e, (==_iff left 0).0 e)
  | inr e ↦
      rw
        (
          read_chunks,
          e,
          read_chunks_lem ns (left - moved n left) (drop (moved n left) bytes)
              (later n ns left h e),
        )
        (ap some (take_split (moved n left) left bytes (moved-le n left)))
]
  where
    later :
        (n : ℕ) (ns : List ℕ) (left : ℕ)
        → Delivers (n ∷ ns) left
        → (left == 0) ≡ false
        → Delivers ns (left - moved n left)
    later n ns left (inl z) e = absurd (omega (arith, nonzero left e))
    later n ns left (inr p) e = p.1

-- The answers of `chsend` take `left` bytes, with no error before the end.
abbrev pub Accepts : List Write → ℕ → Type 0
Accepts [] left = Unit {0}
Accepts (epipe ∷ ws) left = left ≡ 0
Accepts (wrote n ∷ ws) left = (left ≡ 0) ⊎ Accepts ws (left - moved n left)

-- The loop of `MIMPI_Send` succeeds when the pipe takes all of the message.
pub send_chunks-success :
    (ws : List Write) (left : ℕ) → Accepts ws left → (send_chunks ws left).0 ≡ success
unfolding send_chunks
send_chunks-success [] left h = refl
send_chunks-success (epipe ∷ ws) left h = rw h
send_chunks-success (wrote n ∷ ws) left h = elim (Bool-cases (left == 0)) [
  | inl e ↦ rw (send_chunks, e)
  | inr e ↦ rw (send_chunks, e) (send_chunks-success ws (left - moved n left) (go h e))
]
  where
    go :
        (left ≡ 0) ⊎ Accepts ws (left - moved n left)
        → (left == 0) ≡ false
        → Accepts ws (left - moved n left)
    go (inl z) e = absurd (omega (arith, nonzero left e))
    go (inr p) e = p
