-- ===== src/Cards/Legal.antt =====
-- The cards that a player of common/player.cpp may play, and that the automatic player plays.
use mathlib.Core.Option
use mathlib.Core.Path.{subst}
use mimuw.Prelude.{◌≡◌, refl, ap, arith, Bool, true, false}
use mimuw.Prelude.{Option, none, some, List, [], ◌∷◌, Bool-cases, inl, inr}
use mimuw.Cards.Card.{Suit, clubs, diamonds, hearts, spades, Rank, Card, same_suit}
use mimuw.Cards.Player.{Player, has_suit, correct_in, check_if_correct_card, take_first}
use mimuw.Cards.Player.{of_any_suit, select_card}
use mimuw.Cards.Trick.{same_suit_refl}

abbrev pub nonempty : List Rank → Bool
nonempty [] = false
nonempty (r ∷ rs) = true

abbrev pub leading : List Card → Option Card
leading [] = none
leading (c ∷ cs) = some c

-- The two lists of a player's cards agree on the suits that are left.
abbrev pub Agree : Player → Type 0
Agree p = (s : Suit) → has_suit p.available_cards s ≡ nonempty (p.cards_by_suit s)

taken_suit :
    (f : Suit → List Rank) (s : Suit) (next : Option (Card × (Suit → List Rank))) (card : Card)
    (f' : Suit → List Rank)
    → nonempty (f s) ≡ true
    → take_first f s (f s) next ≡ some (card, f')
    → same_suit card.suit s ≡ true
taken_suit f s next card f' n e = go (f s) n e
  where
    go :
        (l : List Rank)
        → nonempty l ≡ true
        → take_first f s l next ≡ some (card, f')
        → same_suit card.suit s ≡ true
    go [] n' e' = absurd (ground arith)
    go (r ∷ rs) n' e' =
        subst (λ x. same_suit x.suit s ≡ true) (ap (λ x. x.0) (Option.some-injective _ _ e'))
          (same_suit_refl s)

abbrev Chosen : Option (Card × (Suit → List Rank)) → Type 0
Chosen o = (card : Card) × (f' : Suit → List Rank) × (o ≡ some (card, f'))

take_first-here :
    (f : Suit → List Rank) (s : Suit) (l : List Rank) (next : Option (Card × (Suit → List Rank)))
    → nonempty l ≡ true
    → Chosen (take_first f s l next)
take_first-here f s [] next n = absurd (ground arith)
take_first-here f s (r ∷ rs) next n = (_, _, refl)

take_first-next :
    (f : Suit → List Rank) (s : Suit) (l : List Rank) (next : Option (Card × (Suit → List Rank)))
    → Chosen next
    → Chosen (take_first f s l next)
take_first-next f s [] next c = c
take_first-next f s (r ∷ rs) next c = (_, _, refl)

of_any_suit-Chosen :
    (f : Suit → List Rank) (s : Suit) → nonempty (f s) ≡ true → Chosen (of_any_suit f)
of_any_suit-Chosen f clubs n = take_first-here f clubs (f clubs) _ n
of_any_suit-Chosen f diamonds n =
    take_first-next f clubs (f clubs) _ (take_first-here f diamonds (f diamonds) _ n)
of_any_suit-Chosen f hearts n =
    take_first-next f clubs (f clubs) _
      (take_first-next f diamonds (f diamonds) _ (take_first-here f hearts (f hearts) _ n))
of_any_suit-Chosen f spades n = take_first-next f clubs (f clubs) _ (
    take_first-next f diamonds (f diamonds) _
      (take_first-next f hearts (f hearts) _ (take_first-here f spades (f spades) _ n)))

select_card-Chosen :
    (first : Option Card) (f : Suit → List Rank) (s : Suit)
    → nonempty (f s) ≡ true
    → Chosen (select_card first f)
unfolding select_card
select_card-Chosen none f s n = of_any_suit-Chosen f s n
select_card-Chosen (some first) f s n =
    take_first-next f first.suit (f first.suit) _ (of_any_suit-Chosen f s n)

-- The card that `select_card` takes is one that `check_if_correct_card` accepts.
select_card-check :
    (p : Player) (card : Card) (f' : Suit → List Rank)
    → Agree p
    → select_card (leading p.current_trick) p.cards_by_suit ≡ some (card, f')
    → check_if_correct_card p card ≡ true
unfolding select_card check_if_correct_card
select_card-check p card f' agree e = go p.current_trick e
  where
    go :
        (trick : List Card)
        → select_card (leading trick) p.cards_by_suit ≡ some (card, f')
        → correct_in trick p.available_cards card ≡ true
    go [] e' = refl
    go (first ∷ rest) e' = elim (Bool-cases (nonempty (p.cards_by_suit first.suit))) [
      | inl n ↦ rw (taken_suit p.cards_by_suit first.suit _ card f' n e') refl
      | inr n ↦ rw (agree first.suit, n) (ground arith)
    ]

-- A player whose lists agree and who has a card left: `select_card` finds a card for the trick, and
-- `check_if_correct_card` accepts it.
pub select_card-legal :
    (p : Player) (s : Suit)
    → Agree p
    → nonempty (p.cards_by_suit s) ≡ true
    → (card : Card) × (f' : Suit → List Rank) × (select_card
          (leading p.current_trick)
          p.cards_by_suit
        ≡ some (card, f'))
      × (check_if_correct_card p card ≡ true)
select_card-legal p s agree n =
    let (card, f', e) = select_card-Chosen (leading p.current_trick) p.cards_by_suit s n in
    (card, f', e, select_card-check p card f' agree e)
