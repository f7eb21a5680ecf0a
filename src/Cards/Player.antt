-- ===== src/Cards/Player.antt =====
-- The cards of a player (common/player.cpp).
use mimuw.Prelude.{Bool, true, false, ◌&&◌, Option, none, some, List, [], ◌∷◌, if◌then◌else◌}
use mimuw.Cards.Card.{Suit, clubs, diamonds, hearts, spades, Rank, Card, same_suit, same_rank}

-- The fields of `player` that decide about a card. A text of a card is the card.
pub record Player : Type 0 where
  pub cards_by_suit : Suit → List Rank
  pub available_cards : List Card
  pub current_trick : List Card
  pub played_card : Option Card

abbrev pub same_card : Card → Card → Bool
same_card c d = same_suit c.suit d.suit && same_rank c.rank d.rank

-- `check_if_exists_suit`, whose -1 is true here
unfoldable pub has_suit : List Card → Suit → Bool
has_suit [] s = false
has_suit (c ∷ cs) s = let rest = has_suit cs s in if same_suit c.suit s then true else rest

-- `check_if_correct_card`, whose 0 is true here
abbrev pub correct_in : List Card → List Card → Card → Bool
correct_in [] available card = true
correct_in (first ∷ rest) available card =
    if same_suit card.suit first.suit
    then true
    else if has_suit available first.suit
    then false
    else true

unfoldable pub check_if_correct_card : Player → Card → Bool
unfolding has_suit
check_if_correct_card p card = correct_in p.current_trick p.available_cards card

abbrev pub add_front : Card → Option (List Card) → Option (List Card)
add_front c none = none
add_front c (some l) = some (c ∷ l)

-- `std::find` and `erase`: the list without the first such card, if there is one
unfoldable pub erase_first : Card → List Card → Option (List Card)
erase_first card [] = none
erase_first card (c ∷ cs) =
    let rest = erase_first card cs in if same_card c card then some cs else add_front c rest

abbrev pub played : Player → Card → Option (List Card) → Bool × Player
played p card none = (false, p)
played p card (some l) = (true, record p { available_cards = l; played_card = some card })

-- `set_played_card`, whose 0 is true here
unfoldable pub set_played_card : Player → Card → Bool × Player
unfolding erase_first
set_played_card p card = played p card (erase_first card p.available_cards)

abbrev pub set_suit : (Suit → List Rank) → Suit → List Rank → Suit → List Rank
set_suit f s l s' = if same_suit s s' then l else f s'

-- The lowest place of a list of one suit
abbrev pub take_first :
    (Suit → List Rank)
    → Suit
    → List Rank
    → Option (Card × (Suit → List Rank))
    → Option (Card × (Suit → List Rank))
take_first f s [] next = next
take_first f s (r ∷ rs) next = some (record { rank = r; suit = s }, set_suit f s rs)

-- The loop of `select_card` over the suits, in the order of their letters
abbrev pub of_any_suit : (Suit → List Rank) → Option (Card × (Suit → List Rank))
of_any_suit f = take_first f clubs (f clubs) (
    take_first f diamonds (f diamonds)
      (take_first f hearts (f hearts) (take_first f spades (f spades) none)))

-- `select_card`: the card for a trick with the first card that `extract_first_card` found, and the
-- cards by suit then. The empty text is none.
unfoldable pub select_card : Option Card → (Suit → List Rank) → Option (Card × (Suit → List Rank))
select_card none f = of_any_suit f
select_card (some first) f = take_first f first.suit (f first.suit) (of_any_suit f)
