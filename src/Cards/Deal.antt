-- ===== src/Cards/Deal.antt =====
-- `calculate_points` of server/deal.cpp.
use mimuw.Prelude.{ℕ, suc, ◌+◌, ◌==◌, Bool, ◌&&◌, ◌||◌, Option, none, some, ◌>>=◌}
use mimuw.Prelude.{List, [], ◌∷◌, length, ltb, get_or, set, if◌then◌else◌}
use mimuw.Cards.Card.{Card, jack, queen, king, same_rank, is_heart}

-- What `calculate_points` reads of a trick: the player who took it, -1 if nobody did, and its cards.
pub record Trick : Type 0 where
  pub winning_player : Option ℕ
  pub cards : List Card

abbrev pub Scores : Type 0
Scores = List ℕ

-- `scores[winner] += points`; an index out of bounds is undefined, none.
unfoldable pub add : Option ℕ → ℕ → Scores → Option Scores
add none points s = none
add (some w) points s = if ltb w (length s) then some (set s w (get_or s w 0 + points)) else none

abbrev pub when : Bool → (Scores → Option Scores) → Scores → Option Scores
when b f s = if b then f s else some s

-- A loop over the cards of a trick
unfoldable pub for_cards : (Card → Scores → Option Scores) → List Card → Scores → Option Scores
for_cards f [] s = some s
for_cards f (c ∷ cs) s = f c s >>= for_cards f cs

-- The bodies of the loops
abbrev pub heart_card : Option ℕ → Card → Scores → Option Scores
heart_card w c = when (is_heart c) (add w 1)

abbrev pub queen_card : Option ℕ → Card → Scores → Option Scores
queen_card w c = when (same_rank c.rank queen) (add w 5)

abbrev pub lord_card : Option ℕ → Card → Scores → Option Scores
lord_card w c = when (same_rank c.rank jack || same_rank c.rank king) (add w 2)

abbrev pub king_of_hearts : Option ℕ → Card → Scores → Option Scores
king_of_hearts w c = when (same_rank c.rank king && is_heart c) (add w 18)

abbrev pub any_card : Option ℕ → Card → Scores → Option Scores
any_card w c s = do
  s ← heart_card w c s
  s ← queen_card w c s
  s ← lord_card w c s
  king_of_hearts w c s

-- The seventh trick and the last one
abbrev pub late : ℕ → Bool
late i = (i == 6) || (i == 12)

-- One round of `calculate_points`: trick i in a deal of a type
unfoldable pub score_trick : (deal_type i : ℕ) → Trick → Scores → Option Scores
unfolding add for_cards
score_trick t i trick s =
    let w = trick.winning_player in
    if t == 1
    then add w 1 s
    else if t == 2
    then for_cards (heart_card w) trick.cards s
    else if t == 3
    then for_cards (queen_card w) trick.cards s
    else if t == 4
    then for_cards (lord_card w) trick.cards s
    else if t == 5
    then for_cards (king_of_hearts w) trick.cards s
    else if t == 6
    then when (late i) (add w 10) s
    else if t == 7
    then (add w 1 s >>= for_cards (any_card w) trick.cards) >>= when (late i) (add w 10)
    else some s

-- The tricks from the one with the number i
unfoldable pub calculate_points : (deal_type i : ℕ) → List Trick → Scores → Option Scores
unfolding score_trick
calculate_points t i [] s = some s
calculate_points t i (trick ∷ tricks) s =
    score_trick t i trick s >>= calculate_points t (suc i) tricks
