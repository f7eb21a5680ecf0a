-- ===== src/Cards/Tests.antt =====
-- Runs of the rules of the card game, and examples of the theorems.
use mathlib.Core.List.Permᴰ
use mimuw.Prelude.{ℕ, zero, suc, ◌+◌, ◌%◌, ◌<◌, ◌≤◌, ◌≡◌, refl, arith, true, some, none}
use mimuw.Prelude.{List, [], ◌∷◌, get_elem?}
use mimuw.Cards.Card.{
  Card, Suit, Rank, clubs, diamonds, hearts, spades, two, ten, queen, ace, value, same_suit, deck,
}
use mimuw.Cards.Trick.{winning_player, winning_player-Stands, Stands}
use mimuw.Cards.Deal.{Trick, Scores, calculate_points}
use mimuw.Cards.Points.{Gives, Taken}
use mimuw.Cards.Player.{Player, has_suit, check_if_correct_card, select_card, set_played_card}
use mimuw.Cards.Legal.{Agree, select_card-legal}
use mimuw.Cards.Whole.{all_cards, deal_points, calculate_points-whole}

-- All the cards, four by four, to players 0 and 1 in turn
abbrev other : ℕ → ℕ
other zero = 1
other (suc n) = 0

abbrev fours : ℕ → List Card → List Trick
fours w [] = []
fours w (a ∷ []) = []
fours w (a ∷ b ∷ []) = []
fours w (a ∷ b ∷ c ∷ []) = []
fours w (a ∷ b ∷ c ∷ d ∷ rest) =
    record { winning_player = some w; cards = a ∷ b ∷ c ∷ d ∷ [] } ∷ fours (other w) rest

abbrev tricks : List Trick
tricks = fours 0 deck

abbrev no_points : Scores
no_points = 0 ∷ 0 ∷ 0 ∷ 0 ∷ []

last_deal : calculate_points 7 0 tricks no_points ≡ some (55 ∷ 45 ∷ 0 ∷ 0 ∷ [])
unfolding calculate_points
last_deal = refl

no_winner :
    calculate_points 1 0 (record { winning_player = none; cards = [] } ∷ []) no_points ≡ none
unfolding calculate_points
no_winner = refl

other-lt : (w : ℕ) → other w < 4
other-lt zero = omega arith
other-lt (suc n) = omega arith

fours-Taken : (w : ℕ) (l : List Card) → w < 4 → Taken 4 (fours w l)
unfolding Taken
fours-Taken w [] h = tt
fours-Taken w (a ∷ []) h = tt
fours-Taken w (a ∷ b ∷ []) h = tt
fours-Taken w (a ∷ b ∷ c ∷ []) h = tt
fours-Taken w (a ∷ b ∷ c ∷ d ∷ rest) h = ((w, refl, h), fours-Taken (other w) rest (other-lt w))

calculate_points-whole_example :
    Gives no_points (deal_points 7) (calculate_points 7 0 tricks no_points)
unfolding all_cards
calculate_points-whole_example =
    calculate_points-whole 7 tricks no_points (fours-Taken 0 deck (omega arith)) refl
      (Permᴰ.refl deck)

abbrev low : Card
low = record { rank = two; suit = clubs }

abbrev others : List Card
others =
    record { rank = queen; suit = clubs }
    ∷ record { rank = ace; suit = hearts }
    ∷ record { rank = ten; suit = clubs }
    ∷ []

winning_player-Stands_example :
    (k v : ℕ) × (winning_player 3 (low ∷ others) ≡ some ((3 + k) % 4))
    × Stands clubs (low ∷ others) k v
    × ((j : ℕ) (d : Card)
        → get_elem? (low ∷ others) j ≡ some d
        → same_suit d.suit clubs ≡ true
        → value d.rank ≤ v)
winning_player-Stands_example = winning_player-Stands 3 low others

-- A player with the ten of clubs and the ace of hearts, in a trick that began with clubs
abbrev left : Suit → List Rank
left clubs = ten ∷ []
left diamonds = []
left hearts = ace ∷ []
left spades = []

abbrev guest : Player
guest = record {
  cards_by_suit = left;
  available_cards = record { rank = ten; suit = clubs } ∷ record { rank = ace; suit = hearts } ∷ [];
  current_trick = low ∷ [];
  played_card = none;
}

guest-Agree : Agree guest
unfolding has_suit
guest-Agree clubs = refl
guest-Agree diamonds = refl
guest-Agree hearts = refl
guest-Agree spades = refl

select_card-legal_example :
    (card : Card) × (f' : Suit → List Rank) × (select_card (some low) left ≡ some (card, f'))
    × (check_if_correct_card guest card ≡ true)
select_card-legal_example = select_card-legal guest hearts guest-Agree refl

plays_ten : (set_played_card guest (record { rank = ten; suit = clubs })).0 ≡ true
unfolding set_played_card
plays_ten = refl
