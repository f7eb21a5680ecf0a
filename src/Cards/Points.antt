-- ===== src/Cards/Points.antt =====
-- The points that `calculate_points` of server/deal.cpp gives out.
use mathlib.Core.Path.{subst}
use mimuw.Prelude.{ℕ, zero, suc, ◌+◌, ◌<◌, ◌≡◌, refl, sym, ◌∙◌, arith, Bool, true, false, ◌==◌}
use mimuw.Prelude.{Option, some, ◌>>=◌, List, [], ◌∷◌, length, get_or, set, length-set}
use mimuw.Prelude.{if◌then◌else◌, Bool-cases, inl, inr, ◌&&◌, ◌||◌}
use mimuw.Cards.Card.{Card, jack, queen, king, same_rank, is_heart}
use mimuw.Cards.Deal.{
  Trick, Scores, add, when, for_cards, heart_card, queen_card, lord_card, king_of_hearts, any_card,
  late, score_trick, calculate_points,
}

unfoldable pub sum : List ℕ → ℕ
sum [] = 0
sum (x ∷ xs) = x + sum xs

-- The points of a card in the deals of types 2 to 5
abbrev pub hearts_worth : Card → ℕ
hearts_worth c = if is_heart c then 1 else 0

abbrev pub queens_worth : Card → ℕ
queens_worth c = if same_rank c.rank queen then 5 else 0

abbrev pub lords_worth : Card → ℕ
lords_worth c = if same_rank c.rank jack || same_rank c.rank king then 2 else 0

abbrev pub king_worth : Card → ℕ
king_worth c = if same_rank c.rank king && is_heart c then 18 else 0

unfoldable pub total : (Card → ℕ) → List Card → ℕ
total f [] = 0
total f (c ∷ cs) = f c + total f cs

abbrev pub late_worth : ℕ → ℕ
late_worth i = if late i then 10 else 0

-- The points of trick i in the deals of types 1 to 6, and of type 7: the sum of those six.
unfoldable pub points : (deal_type i : ℕ) → List Card → ℕ
unfolding total
points t i cs =
    if t == 1
    then 1
    else if t == 2
    then total hearts_worth cs
    else if t == 3
    then total queens_worth cs
    else if t == 4
    then total lords_worth cs
    else if t == 5
    then total king_worth cs
    else if t == 6
    then late_worth i
    else if t == 7
    then 1
      + total hearts_worth cs
      + total queens_worth cs
      + total lords_worth cs
      + total king_worth cs
      + late_worth i
    else 0

-- A result that has the same players, and `n` points more in all
pub record Gives (s : Scores) (n : ℕ) (r : Option Scores) : Type 0 where
  pub after : Scores
  pub returned : r ≡ some after
  pub players : length after ≡ length s
  pub given : sum after ≡ sum s + n

sum-set : (s : Scores) (w n : ℕ) → w < length s → sum (set s w (get_or s w 0 + n)) ≡ sum s + n
unfolding sum
sum-set [] w n h = absurd (omega arith)
sum-set (x ∷ s) zero n h = omega arith
sum-set (x ∷ s) (suc w) n h = omega (arith, sum-set s w n)

keep-Gives : (s : Scores) → Gives s 0 (some s)
keep-Gives s = record { after = s; returned = refl; players = refl; given = omega arith }

pub weaken-Gives : (s : Scores) (n m : ℕ) (r : Option Scores) → n ≡ m → Gives s n r → Gives s m r
weaken-Gives s n m r e g = record {
  after = g.after;
  returned = g.returned;
  players = g.players;
  given = omega (arith, g.given, e);
}

module _ (w : ℕ) where
  -- A part of the computation that gives `n` points to player `w`, whatever the scores are
  abbrev Part : ℕ → (Scores → Option Scores) → Type 0
  Part n f = (s : Scores) → w < length s → Gives s n (f s)

  add-Part : (n : ℕ) → Part n (add (some w) n)
  unfolding add
  add-Part n s h = record {
    after = set s w (get_or s w 0 + n);
    returned = ground arith;
    players = length-set s w _;
    given = sum-set s w n h;
  }

  when-Part :
      (b : Bool) (n : ℕ) (f : Scores → Option Scores)
      → Part n f
      → Part (if b then n else 0) (when b f)
  when-Part true n f p = p
  when-Part false n f p = λ s h. keep-Gives s

  bind-Gives :
      (s : Scores) (n m : ℕ) (r : Option Scores) (f : Scores → Option Scores)
      → w < length s
      → Gives s n r
      → Part m f
      → Gives s (n + m) (r >>= f)
  bind-Gives s n m r f h g p =
      let g' = p g.after (omega (arith, g.players, h)) in
      record {
        after = g'.after;
        returned = rw g.returned g'.returned;
        players = g'.players ∙ g.players;
        given = omega (arith, g.given, g'.given);
      }

  for_cards-Part :
      (f : Card → Scores → Option Scores) (g : Card → ℕ) (cs : List Card)
      → ((c : Card) → Part (g c) (f c))
      → Part (total g cs) (for_cards f cs)
  unfolding for_cards total
  for_cards-Part f g [] p s h = keep-Gives s
  for_cards-Part f g (c ∷ cs) p s h =
      bind-Gives s (g c) (total g cs) (f c s) (for_cards f cs) h (p c s h) (for_cards-Part f g cs p)

  any_worth : Card → ℕ
  any_worth c = hearts_worth c + (queens_worth c + (lords_worth c + king_worth c))

  bind-Part :
      (n m : ℕ) (f g : Scores → Option Scores) → Part n f → Part m g → Part (n + m) (λ s. f s >>= g)
  bind-Part n m f g p q s h = bind-Gives s n m (f s) g h (p s h) q

  any_card-Part : (c : Card) → Part (any_worth c) (any_card (some w) c)
  unfolding any_worth
  any_card-Part c =
      bind-Part (hearts_worth c) _ (heart_card (some w) c) _ (when-Part _ 1 _ (add-Part 1)) (
        bind-Part (queens_worth c) _ (queen_card (some w) c) _ (when-Part _ 5 _ (add-Part 5)) (
          bind-Part (lords_worth c) (king_worth c) (lord_card (some w) c)
            (king_of_hearts (some w) c) (when-Part _ 2 _ (add-Part 2))
            (when-Part _ 18 _ (add-Part 18))))

  total-any_worth :
      (cs : List Card)
      → total any_worth cs
        ≡ total hearts_worth cs + total queens_worth cs + total lords_worth cs + total king_worth cs
  unfolding total any_worth
  total-any_worth [] = omega arith
  total-any_worth (c ∷ cs) = omega (arith, total-any_worth cs)

  -- Trick i gives its points to the player who took it.
  score_trick-Part :
      (t i : ℕ) (cs : List Card)
      → Part (points t i cs) (score_trick t i (record { winning_player = some w; cards = cs }))
  unfolding score_trick points
  score_trick-Part t i cs s h = elim (Bool-cases (t == 1)) [
    | inl e ↦ rw e (add-Part 1 s h)
    | inr e1 ↦ elim (Bool-cases (t == 2)) [
      | inl e ↦
          rw (e1, e) (for_cards-Part _ hearts_worth cs (λ c. when-Part _ 1 _ (add-Part 1)) s h)
      | inr e2 ↦ elim (Bool-cases (t == 3)) [
        | inl e ↦
            rw (e1, e2, e)
              (for_cards-Part _ queens_worth cs (λ c. when-Part _ 5 _ (add-Part 5)) s h)
        | inr e3 ↦ elim (Bool-cases (t == 4)) [
          | inl e ↦
              rw (e1, e2, e3, e)
                (for_cards-Part _ lords_worth cs (λ c. when-Part _ 2 _ (add-Part 2)) s h)
          | inr e4 ↦ elim (Bool-cases (t == 5)) [
            | inl e ↦
                rw (e1, e2, e3, e4, e)
                  (for_cards-Part _ king_worth cs (λ c. when-Part _ 18 _ (add-Part 18)) s h)
            | inr e5 ↦ elim (Bool-cases (t == 6)) [
              | inl e ↦ rw (e1, e2, e3, e4, e5, e) (when-Part (late i) 10 _ (add-Part 10) s h)
              | inr e6 ↦ elim (Bool-cases (t == 7)) [
                | inl e ↦
                    rw (e1, e2, e3, e4, e5, e6, e)
                      (weaken-Gives s _ _ _ (omega (arith, total-any_worth cs)) (
                        bind-Part (1 + total any_worth cs) (late_worth i) _ _
                          (bind-Part 1 (total any_worth cs) (add (some w) 1) _ (add-Part 1)
                            (for_cards-Part (any_card (some w)) any_worth cs any_card-Part))
                          (when-Part (late i) 10 _ (add-Part 10)) s h))
                | inr e7 ↦ rw (e1, e2, e3, e4, e5, e6, e7) (keep-Gives s)
              ]
            ]
          ]
        ]
      ]
    ]
  ]

-- The tricks from number i were all taken by players with scores.
unfoldable pub Taken : ℕ → List Trick → Type 0
Taken n [] = Unit {0}
Taken n (trick ∷ tricks) = ((w : ℕ) × (trick.winning_player ≡ some w) × (w < n)) × Taken n tricks

unfoldable pub all_points : (deal_type i : ℕ) → List Trick → ℕ
unfolding points
all_points t i [] = 0
all_points t i (trick ∷ tricks) = points t i trick.cards + all_points t (suc i) tricks

-- `calculate_points` of taken tricks never leaves the scores, and gives out the points of the
-- tricks, each once, whoever took them.
pub calculate_points-Gives :
    (t i : ℕ) (tricks : List Trick) (s : Scores)
    → Taken (length s) tricks
    → Gives s (all_points t i tricks) (calculate_points t i tricks s)
unfolding calculate_points all_points Taken
calculate_points-Gives t i [] s h = keep-Gives s
calculate_points-Gives t i (trick ∷ tricks) s ((w, e, l), h) =
    let first : Gives s (points t i trick.cards) (score_trick t i trick s) =
      subst
        (λ x.
          Gives s (points t i trick.cards)
            (score_trick t i (record { winning_player = x; cards = trick.cards }) s))
        (sym e) (score_trick-Part w t i trick.cards s l) in
    let rest =
      calculate_points-Gives t (suc i) tricks first.after
        (subst (λ n. Taken n tricks) (sym first.players) h) in
    record {
      after = rest.after;
      returned = rw first.returned rest.returned;
      players = rest.players ∙ first.players;
      given = omega (arith, first.given, rest.given);
    }
