-- ===== src/Poset/Closure.antt =====
-- `addTransitivityRelations` of poset.cc computes the transitive closure after a new relation.
use mimuw.Prelude.{ℕ, zero, suc, ◌<◌, ◌≤◌, ◌≡◌, ◌≢◌, refl, ap, sym, ◌∙◌, arith}
use mimuw.Prelude.{Bool, true, false, not, ◌&&◌, ◌||◌, ltb, ◌==◌, if◌then◌else◌, Bool-cases, inl}
use mimuw.Prelude.{inr}
use mimuw.Poset.Matrix.{Matrix, relation, rel_transitivity, related, is_none, set, copy_row}
use mimuw.Poset.Matrix.{close_at, add_transitivity, add_relation}
use mimuw.Poset.Columns.{copy_row-size, le-copy_row}
use mimuw.Poset.Order.{le, IsOrder, is_none-related, le-set, le_eq, true_ne_false}

-- The loop over the rows, for an ordered array `m` with two unrelated elements a, b.
module _ (m : Matrix) (a b : ℕ) (o : IsOrder m) (la : a < m.size) (lb : b < m.size)
    (no_ab : le m a b ≡ false) (no_ba : le m b a ≡ false) where
  -- What holds after the first `n` rounds: rows before `n` are closed, and so are the columns before
  -- `n` of the row `a`.
  abbrev closed_until : (n x y : ℕ) → Bool
  closed_until n x y =
      if x == a
      then le m a y || (y == b) || (ltb y n && le m b y)
      else le m x y || (ltb x n && le m x a && le m b y)

  abbrev Loop : ℕ → Matrix → Type 0
  Loop n m' =
      (m'.size ≡ m.size) × ((x y : ℕ) → x < m.size → y < m.size → le m' x y ≡ closed_until n x y)

  Loop-start : Loop 0 (set m a b relation)
  Loop-start = (refl, λ x y lx ly. le-set m a b relation x y ∙ ground (arith, le_eq m x y a y))

  -- Rounds `a` and `b` change nothing.
  skip_round :
      (n x y : ℕ) → ((n == a) || (n == b)) ≡ true → closed_until n x y ≡ closed_until (suc n) x y
  skip_round n x y e = ground (arith, le_eq m b y b a refl, le_eq m x a b a)

  -- The round of an element below `a`
  below_round :
      (n x y : ℕ) (v : Bool)
      → n < m.size
      → x < m.size
      → y < m.size
      → ((n == a) || (n == b)) ≡ false
      → le m n a ≡ true
      → v ≡ ((if (x == n) && (y == b) then true else closed_until n x y) || ((x == n) && le m b y))
      → v ≡ closed_until (suc n) x y
  below_round n x y v ln lx ly e na h = ground (
    arith,
    o.transitive b n a lb ln la,
    le_eq m b y b n refl,
    le_eq m x a n a,
    o.reflexive b lb,
    le_eq m b y b b refl,
  )

  -- The round of an element above `b` and not yet above `a`
  above_round :
      (n x y : ℕ) (v : Bool)
      → n < m.size
      → x < m.size
      → y < m.size
      → ((n == a) || (n == b)) ≡ false
      → (le m n a && not (le m n b)) ≡ false
      → le m b n ≡ true
      → v ≡ (if (x == a) && (y == n) then true else closed_until n x y)
      → v ≡ closed_until (suc n) x y
  above_round n x y v ln lx ly e not_below bn h =
      ground (arith, o.antisymmetric n b ln lb, le_eq m b y b n refl, le_eq m x a n a)

  -- The round of any other element
  other_round :
      (n x y : ℕ)
      → n < m.size
      → x < m.size
      → y < m.size
      → ((n == a) || (n == b)) ≡ false
      → (le m n a && not (le m n b)) ≡ false
      → (not (le m a n) && le m b n) ≡ false
      → closed_until n x y ≡ closed_until (suc n) x y
  other_round n x y ln lx ly e not_below not_above = ground (
    arith,
    o.transitive n b y ln lb ly,
    le_eq m b y b n refl,
    le_eq m a y a n refl,
    le_eq m x a n a,
    le_eq m x y n y,
  )

  apart : b ≢ a
  apart e = true_ne_false (sym (o.reflexive b lb) ∙ le_eq m b b b a refl e ∙ no_ba)

  -- The entries that a round reads are those of `m`.
  module _ (n : ℕ) (m' : Matrix) (ln : n < m.size) (l : Loop n m')
      (e : ((n == a) || (n == b)) ≡ false) where
    own_row : (y : ℕ) → y < m.size → le m' n y ≡ le m n y
    own_row y ly = let h = l.1 n y ln ly in ground arith

    below_none : (related (m'.at n a) && is_none (m'.at n b)) ≡ (le m n a && not (le m n b))
    below_none =
        let na = own_row a la in
        let nb = own_row b lb in ground (arith, is_none-related (m'.at n b))

    row_a : le m' a n ≡ le m a n
    row_a = let h = l.1 a n la ln in ground arith

    row_b : (y : ℕ) → y < m.size → le m' b y ≡ le m b y
    row_b y ly = let h = l.1 b y lb ly in let ne = apart in ground arith

    above_none : (is_none (m'.at a n) && related (m'.at b n)) ≡ (not (le m a n) && le m b n)
    above_none =
        let an = row_a in let bn = row_b n ln in ground (arith, is_none-related (m'.at a n))

    -- The row `n` after the inner loop
    copied :
        (x y : ℕ)
        → x < m.size
        → y < m.size
        → le (copy_row (set m' n b rel_transitivity) n b m'.size) x y
          ≡ ((if (x == n) && (y == b) then true else closed_until n x y) || ((x == n) && le m b y))
    copied x y lx ly =
        le-copy_row (set m' n b rel_transitivity) n b m'.size x y (ground arith)
        ∙ let first = le-set m' n b rel_transitivity x y in
          let second = le-set m' n b rel_transitivity b y in
          let old = l.1 x y lx ly in let above = row_b y ly in let size = l.0 in ground arith

    Loop-active : Loop (suc n) (close_at m' a b n)
    unfolding close_at
    Loop-active = elim (Bool-cases (related (m'.at n a) && is_none (m'.at n b))) [
      | inl below ↦
          rw (close_at, e, below)
            (
              copy_row-size (set m' n b rel_transitivity) n b m'.size ∙ l.0,
              λ x y lx ly.
                  below_round n x y _ ln lx ly e (ground (arith, below_none)) (copied x y lx ly),
            )
      | inr not_below ↦ elim (Bool-cases (is_none (m'.at a n) && related (m'.at b n))) [
        | inl above ↦
            rw (close_at, e, not_below, above)
              (
                l.0,
                λ x y lx ly.
                    above_round n x y _ ln lx ly e (sym below_none ∙ not_below)
                      (ground (arith, above_none))
                      (le-set m' a n rel_transitivity x y
                        ∙ ap (λ t. if (x == a) && (y == n) then true else t) (l.1 x y lx ly)),
              )
        | inr neither ↦
            rw (close_at, e, not_below, neither)
              (
                l.0,
                λ x y lx ly.
                    l.1 x y lx ly
                    ∙ other_round n x y ln lx ly e (sym below_none ∙ not_below)
                        (sym above_none ∙ neither),
              )
      ]
    ]

  Loop-step : (n : ℕ) (m' : Matrix) → n < m.size → Loop n m' → Loop (suc n) (close_at m' a b n)
  unfolding close_at
  Loop-step n m' ln l = elim (Bool-cases ((n == a) || (n == b))) [
    | inl e ↦ rw (close_at, e) (l.0, λ x y lx ly. l.1 x y lx ly ∙ skip_round n x y e)
    | inr e ↦ Loop-active n m' ln l e
  ]

  Loop-rounds : (n : ℕ) → n ≤ m.size → Loop n (add_transitivity (set m a b relation) a b n)
  unfolding add_transitivity
  Loop-rounds zero h = Loop-start
  Loop-rounds (suc n) h =
      Loop-step n (add_transitivity (set m a b relation) a b n) (omega arith)
        (Loop-rounds n (omega arith))

  pub add_relation-size : (add_relation m a b).size ≡ m.size
  unfolding add_relation
  add_relation-size = (Loop-rounds m.size (omega arith)).0

  -- In the new order x precedes y if it did before, or if x precedes a and b precedes y.
  pub le-add_relation :
      (x y : ℕ)
      → x < m.size
      → y < m.size
      → le (add_relation m a b) x y ≡ (le m x y || (le m x a && le m b y))
  unfolding add_relation
  le-add_relation x y lx ly =
      (Loop-rounds m.size (omega arith)).1 x y lx ly
      ∙ ground (
        arith,
        o.reflexive a la,
        o.reflexive b lb,
        le_eq m x a a a,
        le_eq m x y a y,
        le_eq m b y b b refl,
      )

  -- The old bound of an index
  bound : (i : ℕ) → i < (add_relation m a b).size → i < m.size
  bound i l = omega (arith, add_relation-size)

  pub add_relation-IsOrder : IsOrder (add_relation m a b)
  add_relation-IsOrder = record {
    reflexive =
        λ i l. let li = bound i l in ground (arith, le-add_relation i i li li, o.reflexive i li);
    antisymmetric = λ i j li' lj' e e'.
        let li = bound i li' in
        let lj = bound j lj' in
        ground (
          arith,
          le-add_relation i j li lj,
          le-add_relation j i lj li,
          o.antisymmetric i j li lj,
          o.transitive b i a lb li la,
          o.transitive b j a lb lj la,
          o.transitive b i j lb li lj,
          o.transitive b j i lb lj li,
        );
    transitive = λ i j k li' lj' lk' e e'.
        let li = bound i li' in
        let lj = bound j lj' in
        let lk = bound k lk' in
        ground (
          arith,
          le-add_relation i j li lj,
          le-add_relation j k lj lk,
          le-add_relation i k li lk,
          o.transitive i j k li lj lk,
          o.transitive i j a li lj la,
          o.transitive b j k lb lj lk,
          o.transitive b j a lb lj la,
        );
  }
