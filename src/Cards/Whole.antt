-- ===== src/Cards/Whole.antt =====
-- The points of a whole deal: thirteen tricks with all the cards.
use mathlib.Core.List.{Permᴰ}
use mimuw.Prelude.{ℕ, zero, suc, ◌+◌, ◌≡◌, refl, ap, ◌∙◌, arith, ◌==◌}
use mimuw.Prelude.{List, [], ◌∷◌, ◌++◌, length, if◌then◌else◌}
use mimuw.Cards.Card.{Card, deck}
use mimuw.Cards.Deal.{Trick, Scores, calculate_points}
use mimuw.Cards.Points.{hearts_worth, queens_worth, lords_worth, king_worth, late_worth, total}
use mimuw.Cards.Points.{points, Gives, Taken, all_points, calculate_points-Gives, weaken-Gives}

total-append : (f : Card → ℕ) (xs ys : List Card) → total f (xs ++ ys) ≡ total f xs + total f ys
unfolding total
total-append f [] ys = omega arith
total-append f (x ∷ xs) ys = omega (arith, total-append f xs ys)

-- The total does not depend on the order of the cards.
total-Permᴰ : (f : Card → ℕ) {xs ys : List Card} → Permᴰ xs ys → total f xs ≡ total f ys
unfolding total
total-Permᴰ f Permᴰ.nil = refl
total-Permᴰ f (Permᴰ.cons e p) = omega (arith, ap f e, total-Permᴰ f p)
total-Permᴰ f (Permᴰ.swap e e') = omega (arith, ap f e, ap f e')
total-Permᴰ f (Permᴰ.trans p q) = total-Permᴰ f p ∙ total-Permᴰ f q

unfoldable pub all_cards : List Trick → List Card
all_cards [] = []
all_cards (trick ∷ tricks) = trick.cards ++ all_cards tricks

unfoldable late_total : (i n : ℕ) → ℕ
late_total i zero = 0
late_total i (suc n) = late_worth i + late_total (suc i) n

-- What a deal of each type gives out
unfoldable pub deal_points : ℕ → ℕ
deal_points t =
    if t == 1
    then 13
    else if t == 2
    then 13
    else if t == 3
    then 20
    else if t == 4
    then 16
    else if t == 5
    then 18
    else if t == 6
    then 20
    else if t == 7
    then 100
    else 0

-- One of six numbers, or their sum, by the type of a deal
choose : (t a b c d e f : ℕ) → ℕ
choose t a b c d e f =
    if t == 1
    then a
    else if t == 2
    then b
    else if t == 3
    then c
    else if t == 4
    then d
    else if t == 5
    then e
    else if t == 6
    then f
    else if t == 7
    then a + b + c + d + e + f
    else 0

choose-add :
    (t a b c d e f a' b' c' d' e' f' : ℕ)
    → choose t a b c d e f + choose t a' b' c' d' e' f'
      ≡ choose t (a + a') (b + b') (c + c') (d + d') (e + e') (f + f')
unfolding choose
choose-add t a b c d e f a' b' c' d' e' f' = ground arith

choose-zero : (t : ℕ) → 0 ≡ choose t 0 0 0 0 0 0
unfolding choose
choose-zero t = ground arith

all_points_lem :
    (t i : ℕ) (tricks : List Trick)
    → all_points t i tricks
      ≡ choose t
          (length tricks)
          (total hearts_worth (all_cards tricks))
          (total queens_worth (all_cards tricks))
          (total lords_worth (all_cards tricks))
          (total king_worth (all_cards tricks))
          (late_total i (length tricks))
unfolding all_points all_cards late_total total points choose
all_points_lem t i [] = choose-zero t
all_points_lem t i (trick ∷ tricks) =
    let one_more : 1 + length tricks ≡ suc (length tricks) = omega arith in
    ap (λ n. points t i trick.cards + n) (all_points_lem t (suc i) tricks)
    ∙ choose-add t 1 _ _ _ _ _ (length tricks) _ _ _ _ _
    ∙ rw
        (
          total-append hearts_worth trick.cards (all_cards tricks),
          total-append queens_worth trick.cards (all_cards tricks),
          total-append lords_worth trick.cards (all_cards tricks),
          total-append king_worth trick.cards (all_cards tricks),
          one_more,
        )
        refl

deck-points :
    (total hearts_worth deck ≡ 13)
    × (total queens_worth deck ≡ 20)
    × (total lords_worth deck ≡ 16)
    × (total king_worth deck ≡ 18)
    × (late_total 0 13 ≡ 20)
unfolding total late_total
deck-points = (refl, refl, refl, refl, refl)

-- A deal of thirteen taken tricks that hold every card once gives out 13, 13, 20, 16, 18, 20 or,
-- in the last type, the 100 points of all of them, whoever takes which trick.
pub calculate_points-whole :
    (t : ℕ) (tricks : List Trick) (s : Scores)
    → Taken (length s) tricks
    → length tricks ≡ 13
    → Permᴰ (all_cards tricks) deck
    → Gives s (deal_points t) (calculate_points t 0 tricks s)
unfolding deal_points choose
calculate_points-whole t tricks s taken n p =
    let (hearts, queens, lords, king, late) = deck-points in
    let g = calculate_points-Gives t 0 tricks s taken in
    weaken-Gives s _ _ _
      (all_points_lem t 0 tricks
        ∙ rw
            (
              total-Permᴰ hearts_worth p ∙ hearts,
              total-Permᴰ queens_worth p ∙ queens,
              total-Permᴰ lords_worth p ∙ lords,
              total-Permᴰ king_worth p ∙ king,
              n,
              late,
            )
            refl)
      g
