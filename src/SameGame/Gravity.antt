-- ===== src/SameGame/Gravity.antt =====
-- What `przesun_w_dol` of SameGame.c reaches: in no column there is an empty field under a block.
use mimuw.Prelude.{ℕ, zero, suc, ◌-◌, ◌≤◌, ◌<◌, ◌≡◌, ◌≢◌, refl, ap, ◌∙◌, sym, inl, inr, arith}
use mimuw.Prelude.{true, false, ◌==◌, ==_iff, Bool-cases}
use mimuw.SameGame.Board.{Board, empty, put, swap}
use mimuw.SameGame.Move.{top, settle, fall, move_down}

-- Above an empty field of the column `k` in a row under `w` all fields are empty.
abbrev pub Sunk : Board → (k n w : ℕ) → Type 0
Sunk a k n w = (i : ℕ) → w < i → i < n → a i k ≡ empty → (j : ℕ) → j < i → a j k ≡ empty

pub top-le : (a : Board) (k w : ℕ) → top a k w ≤ w
unfolding top
top-le a k zero = omega arith
top-le a k (suc w) = let ih = top-le a k w in ground arith

pub top-empty : (a : Board) (k w i : ℕ) → top a k w ≤ i → i < w → a i k ≡ empty
unfolding top
top-empty a k zero i le lt = absurd (omega arith)
top-empty a k (suc w) i le lt = elim (Bool-cases (a w k == empty)) [
  | inl e ↦ elim (Bool-cases (i == w)) [
    | inl same ↦ ap (λ j. a j k) ((==_iff i w).0 same) ∙ (==_iff (a w k) empty).0 e
    | inr other ↦ top-empty a k w i (passes e) (ground arith)
  ]
  | inr e ↦ absurd (stops e)
]
  where
    passes : (a w k == empty) ≡ true → top a k w ≤ i
    passes e = let step : top a k (suc w) ≡ top a k w = rw (top, e) in omega arith

    stops : (a w k == empty) ≡ false → ⊥
    stops e = let step : top a k (suc w) ≡ suc w = rw (top, e) in omega arith

pub top-block : (a : Board) (k w t : ℕ) → top a k w ≡ suc t → a t k ≢ empty
unfolding top
top-block a k zero t e = absurd (omega arith)
top-block a k (suc w) t e = elim (Bool-cases (a w k == empty)) [
  | inl e' ↦ top-block a k w t (sym (step_empty e') ∙ e)
  | inr e' ↦ λ h. full e' (ap (λ j. a j k) {x = w} {y = t} (place e') ∙ h)
]
  where
    step_empty : (a w k == empty) ≡ true → top a k (suc w) ≡ top a k w
    step_empty e' = rw (top, e')

    place : (a w k == empty) ≡ false → w ≡ t
    place e' = let step : top a k (suc w) ≡ suc w = rw (top, e') in omega arith

    full : (a w k == empty) ≡ false → a w k ≢ empty
    full e' h = ground arith

swap_first : (a : Board) (w k v : ℕ) → v ≢ w → swap a w k v k w k ≡ a v k
unfolding swap put
swap_first a w k v ne = ground arith

swap_second : (a : Board) (w k v : ℕ) → swap a w k v k v k ≡ a w k
unfolding swap put
swap_second a w k v = ground arith

swap_ne : (a : Board) (w k v i j : ℕ) → w ≢ i → v ≢ i → swap a w k v k i j ≡ a i j
unfolding swap put
swap_ne a w k v i j ne1 ne2 = ground arith

swap_column : (a : Board) (w k v i j : ℕ) → k ≢ j → swap a w k v k i j ≡ a i j
unfolding swap put
swap_column a w k v i j ne = ground arith

-- One more row joins those that are sunk, when no field above it is a block or it is one itself.
Sunk-suc :
    (a : Board) (k n w : ℕ)
    → Sunk a k n (suc w)
    → (a (suc w) k ≡ empty → (j : ℕ) → j < suc w → a j k ≡ empty)
    → Sunk a k n w
Sunk-suc a k n w h first i lw ln e j lj = elim (Bool-cases (i == suc w)) [
  | inl same ↦
      first (ap (λ x. a x k) (sym ((==_iff i (suc w)).0 same)) ∙ e) j
        (omega (arith, (==_iff i (suc w)).0 same))
  | inr other ↦ h i (ground arith) ln e j lj
]

-- A block from higher up lands in the row `suc w`; no field under it is empty, as it was above.
swap-Sunk :
    (a : Board) (k n w t : ℕ)
    → Sunk a k n (suc w)
    → t < suc w
    → a t k ≢ empty
    → Sunk (swap a (suc w) k t k) k n w
swap-Sunk a k n w t h lt block =
    Sunk-suc (swap a (suc w) k t k) k n w
      (λ i lw ln e. absurd (
        block (
          h i lw ln (sym (swap_ne a (suc w) k t i k (omega arith) (omega arith)) ∙ e) t
            (omega arith))))
      (λ e. absurd (block (sym (swap_first a (suc w) k t (omega arith)) ∙ e)))

-- One round: what is under the row `w` stays sunk, and the row `w` joins it.
settle-Sunk : (a : Board) (k n w : ℕ) → Sunk a k n (suc w) → Sunk (settle a k (suc w)) k n w
unfolding settle
settle-Sunk a k n w h = elim (Bool-cases (a (suc w) k == empty)) [
  | inr full ↦ rw (settle, full) (Sunk-suc a k n w h (λ e. absurd (not_empty full e)))
  | inl hole ↦ elim (Bool-cases (top a k (suc w) == 0)) [
    | inl none_above ↦
        rw (settle, hole, none_above)
          (Sunk-suc a k n w h (λ e j lj. top-empty a k (suc w) j (ground arith) lj))
    | inr above ↦
        rw (settle, hole, above)
          (swap-Sunk a k n w (top a k (suc w) - 1) h (lower above)
            (top-block a k (suc w) (top a k (suc w) - 1) (ground arith)))
  ]
]
  where
    not_empty : (a (suc w) k == empty) ≡ false → a (suc w) k ≢ empty
    not_empty full e = ground arith

    lower : (top a k (suc w) == 0) ≡ false → top a k (suc w) - 1 < suc w
    lower above = let le = top-le a k (suc w) in ground arith

fall-Sunk : (a : Board) (k n w : ℕ) → Sunk a k n w → Sunk (fall a k w) k n 0
unfolding fall
fall-Sunk a k n zero h = h
fall-Sunk a k n (suc w) h = fall-Sunk (settle a k (suc w)) k n w (settle-Sunk a k n w h)

-- A column that falls leaves the others as they are.
settle_ne : (a : Board) (k w i j : ℕ) → k ≢ j → settle a k w i j ≡ a i j
unfolding settle
settle_ne a k w i j ne = let same = swap_column a w k (top a k w - 1) i j ne in ground arith

fall_ne : (a : Board) (k w i j : ℕ) → k ≢ j → fall a k w i j ≡ a i j
unfolding fall
fall_ne a k zero i j ne = refl
fall_ne a k (suc w) i j ne = fall_ne (settle a k (suc w)) k w i j ne ∙ settle_ne a k (suc w) i j ne

-- After `przesun_w_dol` no column of the board has an empty field under a block.
pub move_down-Sunk :
    (columns : ℕ) (a : Board) (n k : ℕ) → k < columns → Sunk (move_down columns a n) k n 0
unfolding move_down
move_down-Sunk zero a n k h = absurd (omega arith)
move_down-Sunk (suc columns) a n k h = elim (Bool-cases (columns == k)) [
  | inl last ↦ λ i lw ln e j lj.
      ap (fall (move_down columns a n) columns (n - 1) j) (sym ((==_iff columns k).0 last))
      ∙ fall-Sunk (move_down columns a n) columns n (n - 1) (λ _ l m. absurd (omega arith)) i lw ln
          (ap (fall (move_down columns a n) columns (n - 1) i) ((==_iff columns k).0 last) ∙ e) j lj
  | inr before ↦ λ i lw ln e j lj.
      let apart : columns ≢ k = ground arith in
      fall_ne (move_down columns a n) columns (n - 1) j k apart
      ∙ move_down-Sunk columns a n k (omega arith) i lw ln
          (sym (fall_ne (move_down columns a n) columns (n - 1) i k apart) ∙ e) j lj
]
