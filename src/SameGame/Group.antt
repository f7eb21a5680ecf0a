-- ===== src/SameGame/Group.antt =====
-- The test of SameGame.c for a group: a neighbour of the same colour.
use mimuw.Prelude.{
  ℕ, suc, ◌+◌, ◌-◌, ◌==◌, ltb, ◌&&◌, Bool-cases, refl, ◌<◌, ◌≡◌, ◌⊎◌, inl, inr, ◌↔◌, true, arith,
}
use mimuw.SameGame.Board.{Board}
use mimuw.SameGame.Move.{is_group}

-- Two fields with a side in common.
abbrev pub Adjacent : (w k w' k' : ℕ) → Type 0
Adjacent w k w' k' =
    (w ≡ w') × ((k' ≡ suc k) ⊎ (k ≡ suc k')) ⊎ (k ≡ k') × ((w' ≡ suc w) ⊎ (w ≡ suc w'))

-- The field has a neighbour on the board with the same block.
abbrev pub HasTwin : (columns : ℕ) → Board → (n w k : ℕ) → Type 0
HasTwin columns a n w k =
    (w' k' : ℕ) × (w' < n) × (k' < columns) × Adjacent w k w' k' × (a w' k' ≡ a w k)

-- The test of a field of the board says true exactly when a neighbour on the board has the same
-- block: no side of the board is forgotten, and nothing is read beyond it.
pub is_group-HasTwin :
    (columns : ℕ) (a : Board) (n w k : ℕ)
    → w < n
    → k < columns
    → (is_group columns a n w k ≡ true) ↔ HasTwin columns a n w k
unfolding is_group
is_group-HasTwin columns a n w k lw lk = (forward, backward)
  where
    forward : is_group columns a n w k ≡ true → HasTwin columns a n w k
    forward h = elim (Bool-cases (ltb (k + 1) columns && (a w k == a w (k + 1)))) [
      | inl right ↦ (w, suc k, lw, ground arith, inl (refl, inl refl), ground arith)
      | inr r ↦ elim (Bool-cases (ltb (w + 1) n && (a w k == a (w + 1) k))) [
        | inl below ↦ (suc w, k, ground arith, lk, inr (refl, inl refl), ground arith)
        | inr b ↦ elim (Bool-cases (ltb 0 k && (a w k == a w (k - 1)))) [
          | inl left ↦ (w, k - 1, lw, omega arith, inl (refl, inr (ground arith)), ground arith)
          | inr l ↦ (w - 1, k, omega arith, lk, inr (refl, inr (ground arith)), ground arith)
        ]
      ]
    ]

    backward : HasTwin columns a n w k → is_group columns a n w k ≡ true
    backward (w', k', lw', lk', inl (same, inl right), e) = ground arith
    backward (w', k', lw', lk', inl (same, inr left), e) = ground arith
    backward (w', k', lw', lk', inr (same, inl below), e) = ground arith
    backward (w', k', lw', lk', inr (same, inr above), e) = ground arith
