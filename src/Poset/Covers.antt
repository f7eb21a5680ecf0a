-- ===== src/Poset/Covers.antt =====
-- When `poset_del` of poset.cc takes a relation out: its two elements cover one another.
use Prim.Native.String.{String}
use mimuw.Prelude.{ℕ, ◌≡◌, ◌≢◌, ◌↔◌, refl, ap, sym, ◌∙◌, arith, Bool, true, false, not, ◌&&◌}
use mimuw.Prelude.{◌⊎◌}
use mimuw.Prelude.{some, ◌==◌, Bool-cases, Option-cases, inl, inr, ==_iff}
use mimuw.Poset.Matrix.{between}
use mimuw.Poset.Messages.{Config}
use mimuw.Poset.State.{Poset, State, index_of}
use mimuw.Poset.Operations.{poset_del, del_in}
use mimuw.Poset.Order.{le, between-true, between-witness, true_ne_false}
use mimuw.Poset.Names.{precedes, index_of_inj, name_at}
use mimuw.Poset.Writes.{IsPoset, index_of-size}

-- The first element precedes the second one, they differ, and no third one stands between them.
abbrev pub Covers : Poset → (v w : String) → Type 0
Covers p v w =
    (precedes p v w ≡ true)
    × (v ≢ w)
    × ((x : String) → precedes p v x ≡ true → precedes p x w ≡ true → (x ≡ v) ⊎ (x ≡ w))

precedes-found :
    (p : Poset) (v w : String)
    → precedes p v w ≡ true
    → (i j : ℕ) × (index_of p.names v ≡ some i) × (index_of p.names w ≡ some j)
precedes-found p v w h = elim (Option-cases (index_of p.names v)) [
  | inl e ↦ absurd (true_ne_false (sym h ∙ rw e refl))
  | inr (i, e) ↦ elim (Option-cases (index_of p.names w)) [
    | inl e' ↦ absurd (true_ne_false (sym h ∙ rw (e, e') refl))
    | inr (j, e') ↦ (i, j, e, e')
  ]
]

precedes-at :
    (p : Poset) (v w : String) (i j : ℕ)
    → index_of p.names v ≡ some i
    → index_of p.names w ≡ some j
    → precedes p v w ≡ le p.relations i j
precedes-at p v w i j e e' = rw (e, e') refl

-- The guards of `poset_del` on two indices
abbrev free : Poset → (i j : ℕ) → Bool
free p i j = not (i == j) && le p.relations i j && not (between p.relations i j p.relations.size)

free-parts :
    (p : Poset) (i j : ℕ)
    → free p i j ≡ true
    → (i ≢ j) × (le p.relations i j ≡ true) × (between p.relations i j p.relations.size ≡ false)
free-parts p i j h = (λ e. ground arith, ground arith, ground arith)

module _ (p : Poset) (valid : IsPoset p) (v w : String) (i j : ℕ) (e : index_of p.names v ≡ some i)
    (e' : index_of p.names w ≡ some j) where
  free-Covers : free p i j ≡ true → Covers p v w
  free-Covers f =
      let (ne, l, nothing) = free-parts p i j f in
      (
        precedes-at p v w i j e e' ∙ l,
        λ same. let ij = sym e ∙ (ap (index_of p.names) same ∙ e') in ground arith,
        λ x vx xw.
            let (k, _, ek, _) = precedes-found p x w xw in
            elim (Bool-cases (k == i)) [
              | inl ki ↦ inl (index_of_inj p.names x v i (ek ∙ ap some ((==_iff k i).0 ki)) e)
              | inr ki ↦ elim (Bool-cases (k == j)) [
                | inl kj ↦ inr (index_of_inj p.names x w j (ek ∙ ap some ((==_iff k j).0 kj)) e')
                | inr kj ↦ absurd (
                    true_ne_false (
                      sym (
                        between-true p.relations i j p.relations.size k
                          (index_of-size p x k valid ek) (λ h. ground arith) (λ h. ground arith)
                          (sym (precedes-at p v x i k e ek) ∙ vx)
                          (sym (precedes-at p x w k j ek e') ∙ xw))
                      ∙ nothing))
              ]
            ],
      )

  Covers-free : Covers p v w → free p i j ≡ true
  Covers-free (l, ne, nothing) = elim (Bool-cases (between p.relations i j p.relations.size)) [
    | inr n ↦ ground (arith, ij, sym (precedes-at p v w i j e e') ∙ l, n)
    | inl b ↦
        let (k, lk, ki, kj, ik, k_to_j) = between-witness p.relations i j p.relations.size b in
        let (x, ex) = name_at p.names k valid.distinct (omega (arith, valid.square)) in
        elim (nothing x (precedes-at p v x i k e ex ∙ ik) (precedes-at p x w k j ex e' ∙ k_to_j)) [
          | inl xv ↦ let clash = sym ex ∙ (ap (index_of p.names) xv ∙ e) in ground arith
          | inr xw ↦ let clash = sym ex ∙ (ap (index_of p.names) xw ∙ e') in ground arith
        ]
  ]
    where
      ij : i ≢ j
      ij h = ne (index_of_inj p.names v w j (e ∙ ap some h) e')

module _ (c : Config) (s : State) (id : ℕ) (p : Poset) (at_id : s.posets id ≡ some p)
    (v w : String) where
  removed-found :
      (i j : ℕ)
      → index_of p.names v ≡ some i
      → index_of p.names w ≡ some j
      → (poset_del c id (some v) (some w) s).0 ≡ free p i j
  unfolding poset_del del_in
  removed-found i j e e' = rw (at_id, e, e') (ground arith)

  removed-indices :
      (poset_del c id (some v) (some w) s).0 ≡ true
      → (i j : ℕ) × (index_of p.names v ≡ some i) × (index_of p.names w ≡ some j)
  unfolding poset_del
  removed-indices h = elim (Option-cases (index_of p.names v)) [
    | inl e ↦ absurd (true_ne_false (sym h ∙ rw (at_id, e) refl))
    | inr (i, e) ↦ elim (Option-cases (index_of p.names w)) [
      | inl e' ↦ absurd (true_ne_false (sym h ∙ rw (at_id, e, e') refl))
      | inr (j, e') ↦ (i, j, e, e')
    ]
  ]

  -- In a valid poset `poset_del` returns true exactly for two different elements of which the second
  -- covers the first.
  pub poset_del-Covers : IsPoset p → (poset_del c id (some v) (some w) s).0 ≡ true ↔ Covers p v w
  poset_del-Covers valid = (
    λ h.
        let (i, j, e, e') = removed-indices h in
        free-Covers p valid v w i j e e' (sym (removed-found i j e e') ∙ h),
    λ h.
        let (i, j, e, e') = precedes-found p v w h.0 in
        removed-found i j e e' ∙ Covers-free p valid v w i j e e' h,
  )
