-- ===== src/Cards/Card.antt =====
-- The cards of the game (common/card.h, common/card_values.h) and the seats (common/common.cpp).
use mimuw.Prelude.{ℕ, Bool, true, false, List, [], ◌∷◌, ◌++◌, map, ◌==◌}

-- The letters C, D, H, S
pub data Suit : Type 0 where
  clubs diamonds hearts spades : Suit

-- The texts 2 to 10, J, Q, K, A
pub data Rank : Type 0 where
  two three four five six seven eight nine ten jack queen king ace : Rank

pub record Card : Type 0 where
  pub rank : Rank
  pub suit : Suit

-- `card_values`
abbrev pub value : Rank → ℕ
value two = 2
value three = 3
value four = 4
value five = 5
value six = 6
value seven = 7
value eight = 8
value nine = 9
value ten = 10
value jack = 11
value queen = 12
value king = 13
value ace = 14

abbrev pub same_suit : Suit → Suit → Bool
same_suit clubs clubs = true
same_suit clubs diamonds = false
same_suit clubs hearts = false
same_suit clubs spades = false
same_suit diamonds clubs = false
same_suit diamonds diamonds = true
same_suit diamonds hearts = false
same_suit diamonds spades = false
same_suit hearts clubs = false
same_suit hearts diamonds = false
same_suit hearts hearts = true
same_suit hearts spades = false
same_suit spades clubs = false
same_suit spades diamonds = false
same_suit spades hearts = false
same_suit spades spades = true

abbrev pub is_heart : Card → Bool
is_heart c = same_suit c.suit hearts

-- The comparisons of `value_string`, a text that stands for one value
abbrev pub same_rank : Rank → Rank → Bool
same_rank r r' = value r == value r'

abbrev pub suits : List Suit
suits = clubs ∷ diamonds ∷ hearts ∷ spades ∷ []

abbrev pub ranks : List Rank
ranks =
    two ∷ three ∷ four ∷ five ∷ six ∷ seven ∷ eight ∷ nine ∷ ten ∷ jack ∷ queen ∷ king ∷ ace ∷ []

-- The cards of one suit, and of all
abbrev pub of_suit : Suit → List Card
of_suit s = map (λ r. record { rank = r; suit = s }) ranks

abbrev pub deck : List Card
deck = of_suit clubs ++ of_suit diamonds ++ of_suit hearts ++ of_suit spades
