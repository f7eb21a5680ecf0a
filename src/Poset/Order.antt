-- ===== src/Poset/Order.antt =====
-- When an array of relations of poset.cc stands for a partial order.
use mimuw.Prelude.{ℕ, zero, suc, ◌-◌, ◌<◌, ◌≡◌, ◌≢◌, refl, ap, sym, ◌∙◌, arith}
use mimuw.Prelude.{Bool, true, false, not, ◌&&◌, ltb, ◌==◌, if◌then◌else◌, Bool-cases, inl, inr}
use mimuw.Prelude.{==_iff}
use mimuw.Poset.Matrix.{Matrix, Relation, relation, no_relation, rel_transitivity, related, is_none}
use mimuw.Poset.Matrix.{set, between}
use mimuw.Poset.Matrix.{del_relation, extend, erase}

-- Element i precedes element j, or they are the same.
abbrev pub le : Matrix → (i j : ℕ) → Bool
le m i j = related (m.at i j)

-- The elements below `size` are partially ordered.
pub record IsOrder (m : Matrix) : Type 0 where
  pub reflexive : (i : ℕ) → i < m.size → le m i i ≡ true
  pub antisymmetric :
      (i j : ℕ) → i < m.size → j < m.size → le m i j ≡ true → le m j i ≡ true → i ≡ j
  pub transitive :
      (i j k : ℕ)
      → i < m.size
      → j < m.size
      → k < m.size
      → le m i j ≡ true
      → le m j k ≡ true
      → le m i k ≡ true

pub is_none-related : (r : Relation) → is_none r ≡ not (related r)
is_none-related relation = refl
is_none-related no_relation = refl
is_none-related rel_transitivity = refl

pub le_eq : (m : Matrix) (i j x y : ℕ) → i ≡ x → j ≡ y → le m i j ≡ le m x y
le_eq m i j x y e e' = ap (λ t. le m t j) e ∙ ap (λ t. le m x t) e'

pub true_ne_false : true ≡ false → ⊥
true_ne_false h = ground arith

-- What one write does to the order.
pub le-set :
    (m : Matrix) (i j : ℕ) (r : Relation) (x y : ℕ)
    → le (set m i j r) x y ≡ (if (x == i) && (y == j) then related r else le m x y)
le-set m i j r x y = ground arith

-- A new element stands alone.
pub extend-IsOrder : (m : Matrix) → IsOrder m → IsOrder (extend m)
unfolding extend
extend-IsOrder m o = record {
  reflexive = λ i l. ground (arith, o.reflexive i);
  antisymmetric = λ i j li lj e e'. ground (arith, o.antisymmetric i j);
  transitive = λ i j k li lj lk e e'. ground (arith, o.transitive i j k);
}

pub erase-IsOrder : (m : Matrix) (d : ℕ) → d < m.size → IsOrder m → IsOrder (erase m d)
unfolding erase
erase-IsOrder m d ld o = record {
  reflexive = λ i l. o.reflexive _ (ground arith);
  antisymmetric =
      λ i j li lj e e'. ground (arith, o.antisymmetric _ _ (below i li) (below j lj) e e');
  transitive =
      λ i j k li lj lk e e'. o.transitive _ _ _ (below i li) (below j lj) (below k lk) e e';
}
  where
    below : (i : ℕ) → i < m.size - 1 → (if ltb i d then i else suc i) < m.size
    below i l = ground arith

pub between-true :
    (m : Matrix) (a b n k : ℕ)
    → k < n
    → k ≢ a
    → k ≢ b
    → le m a k ≡ true
    → le m k b ≡ true
    → between m a b n ≡ true
unfolding between
between-true m a b zero k l na nb e e' = absurd (omega arith)
between-true m a b (suc i) k l na nb e e' = elim (Bool-cases (i == k)) [
  | inl h ↦
      ground (arith, ap (λ t. le m a t) ((==_iff i k).0 h), ap (λ t. le m t b) ((==_iff i k).0 h))
  | inr h ↦ ground (arith, between-true m a b i k)
]

pub between-witness :
    (m : Matrix) (a b n : ℕ)
    → between m a b n ≡ true
    → (k : ℕ) × (k < n) × (k ≢ a) × (k ≢ b) × (le m a k ≡ true) × (le m k b ≡ true)
unfolding between
between-witness m a b zero h = absurd (true_ne_false (sym h))
between-witness m a b (suc i) h = elim (Bool-cases (between m a b i)) [
  | inl t ↦ let (k, l, na, nb, e, e') = between-witness m a b i t in (k, omega arith, na, nb, e, e')
  | inr f ↦ (i, omega arith, λ e. ground arith, λ e. ground arith, ground arith, ground arith)
]

-- The pair x, y is the pair i, j.
abbrev Same : (x y i j : ℕ) → Type 0
Same x y i j = (x ≡ i) × (y ≡ j)

pub le-del_relation :
    (m : Matrix) (a b x y : ℕ)
    → le (del_relation m a b) x y
      ≡ (le m x y && not ((x == a) && (y == b)) && not ((x == b) && (y == a)))
unfolding del_relation
le-del_relation m a b x y = ground arith

module _ (m : Matrix) (a b : ℕ) where
  kept :
      (x y : ℕ)
      → le (del_relation m a b) x y ≡ true
      → (le m x y ≡ true) × ¬ Same x y a b × ¬ Same x y b a
  kept x y e =
      let law = le-del_relation m a b x y in (ground arith, λ s. ground arith, λ s. ground arith)

  keep :
      (x y : ℕ)
      → le m x y ≡ true
      → ¬ Same x y a b
      → ¬ Same x y b a
      → le (del_relation m a b) x y ≡ true
  keep x y e n n' =
      le-del_relation m a b x y
      ∙ ground (arith, λ (p : x ≡ a) (q : y ≡ b). n (p, q), λ (p : x ≡ b) (q : y ≡ a). n' (p, q))

-- A relation between two elements with nothing in between may go.
pub del_relation-IsOrder :
    (m : Matrix) (a b : ℕ)
    → a < m.size
    → b < m.size
    → a ≢ b
    → le m a b ≡ true
    → between m a b m.size ≡ false
    → IsOrder m
    → IsOrder (del_relation m a b)
unfolding del_relation
del_relation-IsOrder m a b la lb ne e free o = record {
  reflexive =
      λ i l. keep m a b i i (o.reflexive i l) (λ s. ne (sym s.0 ∙ s.1)) (λ s. ne (sym s.1 ∙ s.0));
  antisymmetric =
      λ i j li lj h h'. o.antisymmetric i j li lj (kept m a b i j h).0 (kept m a b j i h').0;
  transitive = λ i j k li lj lk h h'.
      let (p, no_ij, _) = kept m a b i j h in
      let (q, no_jk, _) = kept m a b j k h' in
      keep m a b i k (o.transitive i j k li lj lk p q)
        (λ s. absurd (
          true_ne_false (
            sym (
              between-true m a b m.size j lj (λ ja. no_jk (ja, s.1)) (λ jb. no_ij (s.0, jb))
                (le_eq m a j i j (sym s.0) refl ∙ p) (le_eq m j b j k refl (sym s.1) ∙ q))
            ∙ free)))
        (λ s. ne (
          o.antisymmetric a b la lb e
            (le_eq m b a i k (sym s.0) (sym s.1) ∙ o.transitive i j k li lj lk p q)));
}
