-- ===== src/Crosswords/Areas.antt =====
-- RectArea of crosswords.h as a set of positions.
use native.Mathlib.Nat.{mod-eq_of_lt}
use mimuw.Prelude.{ℕ, suc, ◌-◌, ◌≤◌, ◌≡◌, ◌↔◌, refl, arith, true, false, Bool-cases, inl, inr}
use mimuw.Prelude.{◌&&◌, none, some, ◌==◌, ◌⊎◌}
use mimuw.Crosswords.Area.{Pos, RectArea, empty, min, max, size, embrace, intersect}

abbrev pub Contains : RectArea → Pos → Type 0
Contains a p =
    (a.left_top.first ≤ p.first)
    × (p.first ≤ a.right_bottom.first)
    × (a.left_top.second ≤ p.second)
    × (p.second ≤ a.right_bottom.second)

empty-Contains : (a : RectArea) (p : Pos) → empty a ≡ true → Contains a p → ⊥
unfolding empty
empty-Contains a p e h = ground arith

nonempty-corners :
    (a : RectArea)
    → empty a ≡ false
    → (a.left_top.first ≤ a.right_bottom.first) × (a.left_top.second ≤ a.right_bottom.second)
unfolding empty
nonempty-corners a e = ground arith

-- The product of two areas holds exactly the positions that both hold.
pub intersect-Contains :
    (a b : RectArea) (p : Pos) → Contains (intersect a b) p ↔ Contains a p × Contains b p
unfolding intersect min max empty
intersect-Contains a b p = (λ h. ground arith, λ h. ground arith)

abbrev pub Subset : RectArea → RectArea → Type 0
Subset a c = (p : Pos) → Contains a p → Contains c p

-- For every area that holds a position and all that the first area holds: after embrace the area
-- holds the position and all that it held, and lies within that area.
pub embrace-least :
    (a c : RectArea) (p : Pos)
    → Contains c p
    → Subset a c
    → Contains (embrace p a) p × Subset a (embrace p a) × Subset (embrace p a) c
unfolding embrace min max
embrace-least a c p h s = elim (Bool-cases (empty a)) [
  | inl e ↦ rw e (
    (omega arith, omega arith, omega arith, omega arith),
    λ q k. absurd (empty-Contains a q e k),
    λ q k. omega (arith, k, h),
  )
  | inr e ↦
      let (u, v) = nonempty-corners a e in
      let l = s a.left_top (omega arith, omega (arith, u), omega arith, omega (arith, v)) in
      let r = s a.right_bottom (omega (arith, u), omega arith, omega (arith, v), omega arith) in
      rw e (ground arith, λ q k. ground (arith, k), λ q k. ground (arith, k, l, r, h))
]

pub embrace-Contains : (a : RectArea) (p q : Pos) → Contains a q → Contains (embrace p a) q
unfolding embrace min max empty
embrace-Contains a p q h = ground arith

pub embrace-holds : (a : RectArea) (p : Pos) → Contains (embrace p a) p
unfolding embrace min max empty
embrace-holds a p = ground arith

-- For an area with positions, whose coordinates are at most size_max: size fails exactly when the
-- area goes over a whole axis, and otherwise gives the numbers of its columns and rows, which are
-- at most size_max.
pub size-bounds :
    (m : ℕ) (a : RectArea)
    → a.right_bottom.first ≤ m
    → a.right_bottom.second ≤ m
    → empty a ≡ false
    → ((a.left_top.first ≡ 0) × (a.right_bottom.first ≡ m)
          ⊎ (a.left_top.second ≡ 0) × (a.right_bottom.second ≡ m))
        × (size m a ≡ none)
      ⊎ (size m a
          ≡ some (
            suc a.right_bottom.first - a.left_top.first,
            suc a.right_bottom.second - a.left_top.second,
          ))
        × (suc a.right_bottom.first - a.left_top.first ≤ m)
        × (suc a.right_bottom.second - a.left_top.second ≤ m)
unfolding size
size-bounds m a hf hs e = elim (Bool-cases (a.left_top.first == 0 && (a.right_bottom.first == m))) [
  | inl b ↦ rw (e, b) (inl (ground (arith, b), refl))
  | inr b ↦ elim (Bool-cases (a.left_top.second == 0 && (a.right_bottom.second == m))) [
    | inl c ↦ rw (e, b, c) (inl (ground (arith, c), refl))
    | inr c ↦
        let x : suc a.right_bottom.first - a.left_top.first ≤ m = ground (arith, b) in
        let y : suc a.right_bottom.second - a.left_top.second ≤ m = ground (arith, c) in
        let p =
          mod-eq_of_lt {n = suc a.right_bottom.first - a.left_top.first} {m = suc m}
            (omega (arith, x)) in
        let q =
          mod-eq_of_lt {n = suc a.right_bottom.second - a.left_top.second} {m = suc m}
            (omega (arith, y)) in
        rw (e, b, c, p, q) (inr (refl, x, y))
  ]
]
