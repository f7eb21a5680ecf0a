-- ===== src/Cards/Trick.antt =====
-- The winner of a trick: the end of `trick_handler` in server/client_handler.cpp.
use mimuw.Prelude.{ℕ, zero, suc, ◌+◌, ◌%◌, ◌<◌, ◌≤◌, ◌≡◌, refl, ap, sym, ◌∙◌, arith, true}
use mimuw.Prelude.{◌&&◌, Option, none, some, List, [], ◌∷◌, get_elem?, ltb, if◌then◌else◌}
use mimuw.Prelude.{Bool-cases, inl, inr, ◌⊎◌}
use mathlib.Core.Option
use mathlib.Core.Path.{subst}
use mimuw.Cards.Card.{Suit, clubs, diamonds, hearts, spades, Card, value, same_suit}

-- The loop over the other cards, the first of them at `i`: the place of the highest card of the
-- suit, and its value.
unfoldable pub highest : Suit → List Card → (i index highest_value : ℕ) → ℕ
highest s [] i index best = index
highest s (c ∷ cs) i index best =
    if same_suit c.suit s && ltb best (value c.rank)
    then highest s cs (suc i) i (value c.rank)
    else highest s cs (suc i) index best

-- The place of the card that takes the trick; a trick with no card is undefined.
unfoldable pub winning_card : List Card → Option ℕ
unfolding highest
winning_card [] = none
winning_card (c ∷ cs) = some (highest c.suit cs 1 0 (value c.rank))

-- The player who takes the trick, when `lead` begins it
unfoldable pub winning_player : ℕ → List Card → Option ℕ
unfolding winning_card
winning_player lead cards = Option.map (λ index. (lead + index) % 4) (winning_card cards)

-- A card of the suit that stands in a list at `j` and has the value `v`.
pub record Stands (s : Suit) (l : List Card) (j v : ℕ) : Type 0 where
  pub card : Card
  pub there : get_elem? l j ≡ some card
  pub follows : same_suit card.suit s ≡ true
  pub worth : value card.rank ≡ v

-- What the loop finds: the old place, or that of a higher card; no card of the suit is higher.
record Found (s : Suit) (cs : List Card) (i index best r : ℕ) : Type 0 where
  top : ℕ
  at_least : best ≤ top
  highest_of_all :
      (j : ℕ) (d : Card) → get_elem? cs j ≡ some d → same_suit d.suit s ≡ true → value d.rank ≤ top
  place : ((r ≡ index) × (top ≡ best)) ⊎ ((j : ℕ) × (r ≡ i + j) × Stands s cs j top)

highest-Found :
    (s : Suit) (cs : List Card) (i index best : ℕ)
    → Found s cs i index best (highest s cs i index best)
unfolding highest
highest-Found s [] i index best = record {
  top = best;
  at_least = omega arith;
  highest_of_all = λ j d e f. absurd (ground arith);
  place = inl (refl, refl);
}
highest-Found s (c ∷ cs) i index best =
    elim (Bool-cases (same_suit c.suit s && ltb best (value c.rank))) [
      | inl e ↦
          rw e (higher (highest-Found s cs (suc i) i (value c.rank)) (ground arith) (ground arith))
      | inr e ↦ rw e (lower (highest-Found s cs (suc i) index best) (λ f. ground arith))
    ]
  where
    of_all :
        (top : ℕ)
        → (same_suit c.suit s ≡ true → value c.rank ≤ top)
        → ((j : ℕ) (d : Card)
            → get_elem? cs j ≡ some d
            → same_suit d.suit s ≡ true
            → value d.rank ≤ top)
        → (j : ℕ) (d : Card) → get_elem? (c ∷ cs) j ≡ some d
        → same_suit d.suit s ≡ true
        → value d.rank ≤ top
    of_all top h h' zero d e f =
        let same = Option.some-injective c d e in
        subst (λ x. value x.rank ≤ top) same (h (ap (λ x. same_suit x.suit s) same ∙ f))
    of_all top h h' (suc j) d e f = h' j d e f

    later : (j v : ℕ) → Stands s cs j v → Stands s (c ∷ cs) (suc j) v
    later j v t = record { card = t.card; there = t.there; follows = t.follows; worth = t.worth }

    higher :
        {r : ℕ}
        → Found s cs (suc i) i (value c.rank) r
        → same_suit c.suit s ≡ true
        → best < value c.rank
        → Found s (c ∷ cs) i index best r
    higher f e l = record {
      top = f.top;
      at_least = omega (arith, f.at_least);
      highest_of_all = of_all f.top (λ t. f.at_least) f.highest_of_all;
      place = elim f.place [
        | inl (here, same) ↦ inr (
          0,
          here ∙ omega arith,
          record { card = c; there = refl; follows = e; worth = sym same },
        )
        | inr (j, there, t) ↦ inr (suc j, omega (arith, there), later j f.top t)
      ];
    }

    lower :
        {r : ℕ}
        → Found s cs (suc i) index best r
        → (same_suit c.suit s ≡ true → value c.rank ≤ best)
        → Found s (c ∷ cs) i index best r
    lower f h = record {
      top = f.top;
      at_least = f.at_least;
      highest_of_all = of_all f.top (λ t. omega (arith, h t, f.at_least)) f.highest_of_all;
      place = elim f.place [
        | inl p ↦ inl p
        | inr (j, there, t) ↦ inr (suc j, omega (arith, there), later j f.top t)
      ];
    }

pub same_suit_refl : (s : Suit) → same_suit s s ≡ true
same_suit_refl clubs = refl
same_suit_refl diamonds = refl
same_suit_refl hearts = refl
same_suit_refl spades = refl

-- The trick goes to the player of a card that follows the suit of the first one, and no card of
-- that suit is higher.
pub winning_player-Stands :
    (lead : ℕ) (c : Card) (cs : List Card)
    → (k v : ℕ) × (winning_player lead (c ∷ cs) ≡ some ((lead + k) % 4))
      × Stands c.suit (c ∷ cs) k v
      × ((j : ℕ) (d : Card)
          → get_elem? (c ∷ cs) j ≡ some d
          → same_suit d.suit c.suit ≡ true
          → value d.rank ≤ v)
unfolding winning_player winning_card
winning_player-Stands lead c cs =
    (highest c.suit cs 1 0 (value c.rank), f.top, refl, stands f.place, all)
  where
    f : Found c.suit cs 1 0 (value c.rank) (highest c.suit cs 1 0 (value c.rank))
    f = highest-Found c.suit cs 1 0 (value c.rank)

    stands :
        {r v : ℕ}
        → ((r ≡ 0) × (v ≡ value c.rank)) ⊎ ((j : ℕ) × (r ≡ 1 + j) × Stands c.suit cs j v)
        → Stands c.suit (c ∷ cs) r v
    stands {r} {v} (inl (here, same)) =
        subst (λ k. Stands c.suit (c ∷ cs) k v) (sym here)
          (record { card = c; there = refl; follows = same_suit_refl c.suit; worth = sym same })
    stands {r} {v} (inr (j, there, t)) =
        let here : suc j ≡ r = omega (arith, there) in
        subst (λ k. Stands c.suit (c ∷ cs) k v) here
          (record { card = t.card; there = t.there; follows = t.follows; worth = t.worth })

    all :
        (j : ℕ) (d : Card)
        → get_elem? (c ∷ cs) j ≡ some d
        → same_suit d.suit c.suit ≡ true
        → value d.rank ≤ f.top
    all zero d e h = subst (λ x. value x.rank ≤ f.top) (Option.some-injective c d e) f.at_least
    all (suc j) d e h = f.highest_of_all j d e h
