-- ===== src/Mimpi/Ranks/Laws.antt =====
-- The tree of mimpi.c reaches every rank: the parent of a process has it for a child.
use mimuw.Prelude.{ℕ, ◌+◌, ◌-◌, ◌*◌, ◌/◌, ◌%◌, ◌<◌, ◌≡◌, refl, ◌≢◌, ◌⊎◌, inl, inr, none}
use mimuw.Prelude.{some, arith, ltb, leb, if◌then◌else◌, ap, ◌∙◌, sym}
use native.Mathlib.Nat.{mod-eq_of_lt, mod-eq-sub-mod}
use native.Mathlib.Decide.{dec_lt, dec_le}
use mimuw.Mimpi.Ranks.{relative_rank, process_at, left_child, right_child, parent}

-- A sum of two numbers below `n` goes round at most once.
pub mod_once :
    (a b n : ℕ) → a < n → b < n → (a + b) % n ≡ (if ltb (a + b) n then a + b else a + b - n)
mod_once a b n h k = elim (dec_lt (a + b) n) [
  | yes p ↦ rw (mod-eq_of_lt p) (ground arith)
  | no p ↦
      rw
        (
          mod-eq-sub-mod {n = a + b} {m = n} (omega arith),
          mod-eq_of_lt {n = a + b - n} {m = n} (omega arith),
        )
        (ground arith)
]

module _ (n root : ℕ) (in_range : root < n) where
  -- The rank counted from the root, without `%`.
  relative_rank_lem :
      (r : ℕ) → r < n → relative_rank n root r ≡ (if leb root r then r - root else r + n - root)
  unfolding relative_rank
  relative_rank_lem r h = elim (dec_le root r) [
    | yes p ↦
        rw
          (
            relative_rank,
            mod-eq-sub-mod {n = r + n - root} {m = n} (omega arith),
            mod-eq_of_lt {n = r + n - root - n} {m = n} (omega arith),
          )
          (ground arith)
    | no p ↦
        rw (relative_rank, mod-eq_of_lt {n = r + n - root} {m = n} (omega arith)) (ground arith)
  ]

  place : ℕ → ℕ
  place k = (k + root) % n

  place_lem : (k : ℕ) → k < n → place k ≡ (if ltb (k + root) n then k + root else k + root - n)
  unfolding place
  place_lem k h = mod_once k root n h in_range

  place-lt : (k : ℕ) → k < n → place k < n
  place-lt k h = rw (place_lem k h) (ground arith)

  relative_rank-place : (k : ℕ) → k < n → relative_rank n root (place k) ≡ k
  relative_rank-place k h =
      rw (relative_rank_lem (place k) (place-lt k h), place_lem k h) (ground arith)

  relative_rank-lt : (r : ℕ) → r < n → relative_rank n root r < n
  relative_rank-lt r h = rw (relative_rank_lem r h) (ground arith)

  place-relative_rank : (r : ℕ) → r < n → place (relative_rank n root r) ≡ r
  place-relative_rank r h =
      rw (place_lem (relative_rank n root r) (relative_rank-lt r h), relative_rank_lem r h)
        (ground arith)

  relative_rank-zero : (r : ℕ) → r < n → relative_rank n root r ≡ 0 → r ≡ root
  relative_rank-zero r h z = ground (arith, relative_rank_lem r h)

  parent_is :
      (r k : ℕ)
      → relative_rank n root r ≡ k
      → parent n root r ≡ (if ltb 0 k then some (place ((k - 1) / 2)) else none)
  unfolding parent place
  parent_is r k e = rw (← e)

  child_is : (k : ℕ) → k < n → process_at n root k ≡ some (place k)
  unfolding process_at place
  child_is k h = ground arith

  left_is :
      (r k : ℕ) → relative_rank n root r ≡ k → left_child n root r ≡ process_at n root (2 * k + 1)
  unfolding left_child
  left_is r k e = rw (← e)

  right_is :
      (r k : ℕ) → relative_rank n root r ≡ k → right_child n root r ≡ process_at n root (2 * k + 2)
  unfolding right_child
  right_is r k e = rw (← e)

  -- Of the two children of the place `(k - 1) / 2`, one is the place `k`.
  a_child : (k : ℕ) → 0 < k → (2 * ((k - 1) / 2) + 1 ≡ k) ⊎ (2 * ((k - 1) / 2) + 2 ≡ k)
  a_child k h = omega arith

  -- With a root that is a rank, every rank but the root has a parent. That has the rank for its left or its right child, and is
  -- nearer to the root.
  pub parent-child :
      (r : ℕ)
      → r < n
      → r ≢ root
      → (q : ℕ) × (parent n root r ≡ some q)
        × (q < n)
        × ((left_child n root q ≡ some r) ⊎ (right_child n root q ≡ some r))
        × (relative_rank n root q < relative_rank n root r)
  parent-child r h ne =
      let k = relative_rank n root r in
      let below : k < n = relative_rank-lt r h in
      let positive : 0 < k = ground (arith, relative_rank-zero r h) in
      let j : ℕ = (k - 1) / 2 in
      let small : j < n = omega arith in
      let at_j = relative_rank-place j small in
      let back = place-relative_rank r h in
      (
        place j,
        parent_is r k refl ∙ ground arith,
        place-lt j small,
        elim (a_child k positive) [
          | inl e ↦ inl (left_is (place j) j at_j ∙ rw e (child_is k below ∙ ap some back))
          | inr e ↦ inr (right_is (place j) j at_j ∙ rw e (child_is k below ∙ ap some back))
        ],
        rw at_j (omega arith),
      )

  process_at-some : (j r : ℕ) → process_at n root j ≡ some r → (j < n) × (place j ≡ r)
  unfolding process_at place
  process_at-some j r h = (ground arith, ground arith)

  parent_of_place :
      (j k r : ℕ)
      → (j - 1) / 2 ≡ k
      → 0 < j
      → process_at n root j ≡ some r
      → (r < n) × (parent n root r ≡ some (place k))
  parent_of_place j k r half pos h =
      let (below, e) = process_at-some j r h in
      let in_r : r < n = rw (← e) (place-lt j below) in
      let rel : relative_rank n root r ≡ j = rw (← e) (relative_rank-place j below) in
      (in_r, parent_is r j rel ∙ rw half (ground arith))

  -- A child, left or right, is a rank whose parent is the process that computed it.
  pub child-parent :
      (q r : ℕ)
      → q < n
      → (left_child n root q ≡ some r) ⊎ (right_child n root q ≡ some r)
      → (r < n) × (parent n root r ≡ some q)
  child-parent q r h (inl e) =
      let k = relative_rank n root q in
      let (below, up) =
        parent_of_place (2 * k + 1) k r (omega arith) (omega arith) (sym (left_is q k refl) ∙ e) in
      (below, up ∙ ap some (place-relative_rank q h))
  child-parent q r h (inr e) =
      let k = relative_rank n root q in
      let (below, up) =
        parent_of_place (2 * k + 2) k r (omega arith) (omega arith) (sym (right_is q k refl) ∙ e) in
      (below, up ∙ ap some (place-relative_rank q h))

  place_of : (j r : ℕ) → process_at n root j ≡ some r → (r < n) × (relative_rank n root r ≡ j)
  place_of j r h =
      let (below, e) = process_at-some j r h in
      (rw (← e) (place-lt j below), rw (← e) (relative_rank-place j below))

  pub left-place :
      (q r : ℕ)
      → left_child n root q ≡ some r
      → (r < n) × (relative_rank n root r ≡ 2 * relative_rank n root q + 1)
  left-place q r h = place_of _ r (sym (left_is q _ refl) ∙ h)

  pub right-place :
      (q r : ℕ)
      → right_child n root q ≡ some r
      → (r < n) × (relative_rank n root r ≡ 2 * relative_rank n root q + 2)
  right-place q r h = place_of _ r (sym (right_is q _ refl) ∙ h)
