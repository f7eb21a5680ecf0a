-- ===== src/KeyStack/Keys.antt =====
-- The keys of the stack of stack.h: their order, and the set of the keys in use.
use mimuw.Prelude.{ℕ, ◌≡◌, refl, arith, Bool, true, false, not, ◌&&◌, ◌||◌}
use mimuw.Prelude.{List, [], ◌∷◌, if◌then◌else◌, Bool-cases, inl, inr, ltb}

-- The operator `<` of the keys, as `key_comparator` uses it.
pub record KeyOrder (K : Type 0) : Type 0 where
  pub less : K → K → Bool
  pub irreflexive : (x : K) → less x x ≡ false
  pub transitive : (x y z : K) → less x y ≡ true → less y z ≡ true → less x z ≡ true
  pub total : (x y : K) → less x y ≡ false → less y x ≡ false → x ≡ y

pub ltb-irreflexive : (x : ℕ) → ltb x x ≡ false
ltb-irreflexive x = ground arith

pub ltb-transitive : (x y z : ℕ) → ltb x y ≡ true → ltb y z ≡ true → ltb x z ≡ true
ltb-transitive x y z e e' = ground arith

pub ltb-total : (x y : ℕ) → ltb x y ≡ false → ltb y x ≡ false → x ≡ y
ltb-total x y e e' = grind arith

-- The order of numbers
abbrev pub by_number : KeyOrder ℕ
by_number = record {
  less = ltb;
  irreflexive = ltb-irreflexive;
  transitive = ltb-transitive;
  total = ltb-total;
}

module _ {K : Type 0} (o : KeyOrder K) where
  -- A set and a map look at the comparison alone.
  abbrev pub same : K → K → Bool
  same x y = not (o.less x y) && not (o.less y x)

  -- `keys.insert`, which leaves a key that is there
  unfoldable pub insert_key : K → List K → List K
  insert_key k [] = k ∷ []
  insert_key k (x ∷ xs) =
      let rest = insert_key k xs in
      if o.less k x then k ∷ x ∷ xs else if o.less x k then x ∷ rest else x ∷ xs

  -- `keys.erase`
  unfoldable pub erase_key : K → List K → List K
  erase_key k [] = []
  erase_key k (x ∷ xs) = let rest = erase_key k xs in if same k x then xs else x ∷ rest

  -- `keys.contains`
  unfoldable pub contains_key : K → List K → Bool
  contains_key k [] = false
  contains_key k (x ∷ xs) = same k x || contains_key k xs

  -- The first key is below all others, and so on.
  unfoldable pub below_all : K → List K → Bool
  below_all k [] = true
  below_all k (x ∷ xs) = o.less k x && below_all k xs

  unfoldable pub Ascending : List K → Type 0
  unfolding below_all
  Ascending [] = Unit {0}
  Ascending (x ∷ xs) = (below_all x xs ≡ true) × Ascending xs

  pub same_refl : (x : K) → same x x ≡ true
  same_refl x = ground (arith, o.irreflexive x)

  pub same-eq : (x y : K) → same x y ≡ true → x ≡ y
  same-eq x y h = o.total x y (ground arith) (ground arith)

  pub same_swap : (x y : K) → same x y ≡ same y x
  same_swap x y = ground arith

  pub contains-insert_key :
      (k k' : K) (ks : List K)
      → contains_key k' (insert_key k ks) ≡ (same k' k || contains_key k' ks)
  unfolding insert_key contains_key
  contains-insert_key k k' [] = refl
  contains-insert_key k k' (x ∷ xs) = elim (Bool-cases (o.less k x)) [
    | inl e ↦ rw e refl
    | inr e ↦ elim (Bool-cases (o.less x k)) [
      | inl e' ↦ rw (e, e') (ground (arith, contains-insert_key k k' xs))
      | inr e' ↦ rw (e, e', o.total k x e e') (ground arith)
    ]
  ]

  below_all-less :
      (x y : K) (ks : List K) → o.less x y ≡ true → below_all y ks ≡ true → below_all x ks ≡ true
  unfolding below_all
  below_all-less x y [] l h = refl
  below_all-less x y (z ∷ ks) l h = ground (arith, o.transitive x y z l, below_all-less x y ks l)

  below_all-insert_key :
      (x k : K) (ks : List K)
      → o.less x k ≡ true
      → below_all x ks ≡ true
      → below_all x (insert_key k ks) ≡ true
  unfolding below_all insert_key
  below_all-insert_key x k [] l h = ground arith
  below_all-insert_key x k (y ∷ ks) l h =
      let ih = below_all-insert_key x k ks l in
      elim (Bool-cases (o.less k y)) [
        | inl e ↦ rw e (ground arith)
        | inr e ↦ elim (Bool-cases (o.less y k)) [
          | inl e' ↦ rw (e, e') (ground (arith, ih))
          | inr e' ↦ rw (e, e') h
        ]
      ]

  pub insert_key-Ascending : (k : K) (ks : List K) → Ascending ks → Ascending (insert_key k ks)
  unfolding Ascending insert_key below_all
  insert_key-Ascending k [] a = (refl, tt)
  insert_key-Ascending k (x ∷ ks) (b, a) = elim (Bool-cases (o.less k x)) [
    | inl e ↦ rw e (ground (arith, below_all-less k x ks e b), (b, a))
    | inr e ↦ elim (Bool-cases (o.less x k)) [
      | inl e' ↦ rw (e, e') (below_all-insert_key x k ks e' b, insert_key-Ascending k ks a)
      | inr e' ↦ rw (e, e') (b, a)
    ]
  ]

  below_all-erase_key :
      (x k : K) (ks : List K) → below_all x ks ≡ true → below_all x (erase_key k ks) ≡ true
  unfolding below_all erase_key
  below_all-erase_key x k [] h = refl
  below_all-erase_key x k (y ∷ ks) h = elim (Bool-cases (same k y)) [
    | inl e ↦ rw e (ground arith)
    | inr e ↦ rw e (ground (arith, below_all-erase_key x k ks))
  ]

  pub erase_key-Ascending : (k : K) (ks : List K) → Ascending ks → Ascending (erase_key k ks)
  unfolding Ascending erase_key
  erase_key-Ascending k [] a = tt
  erase_key-Ascending k (x ∷ ks) (b, a) = elim (Bool-cases (same k x)) [
    | inl e ↦ rw e a
    | inr e ↦ rw e (below_all-erase_key x k ks b, erase_key-Ascending k ks a)
  ]

  below_all-absent : (k : K) (ks : List K) → below_all k ks ≡ true → contains_key k ks ≡ false
  unfolding below_all contains_key
  below_all-absent k [] h = refl
  below_all-absent k (x ∷ ks) h = ground (arith, below_all-absent k ks)

  pub contains-erase_key :
      (k k' : K) (ks : List K)
      → Ascending ks
      → contains_key k' (erase_key k ks) ≡ (contains_key k' ks && not (same k' k))
  unfolding Ascending erase_key contains_key
  contains-erase_key k k' [] a = refl
  contains-erase_key k k' (x ∷ ks) (b, a) = elim (Bool-cases (same k x)) [
    | inl e ↦
        rw (e, same-eq k x e)
          (elim (Bool-cases (same k' x)) [
            | inl e' ↦ rw (e', same-eq k' x e') (below_all-absent x ks b)
            | inr e' ↦ rw e' (ground arith)
          ])
    | inr e ↦ rw e (elim (Bool-cases (same k' x)) [
      | inl e' ↦ rw (e', same-eq k' x e', same_swap x k, e) refl
      | inr e' ↦ rw e' (contains-erase_key k k' ks a)
    ])
  ]
