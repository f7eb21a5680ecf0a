-- ===== src/Poset/Contract.antt =====
-- What the functions of poset.cc promise: the result, and the order between the named elements.
use Prim.Native.String.{String}
use text.Mathlib.Text.{◌==◌ as str_eq}
use mimuw.Prelude.{ℕ, ◌≡◌, ◌≢◌, refl, ap, ◌∙◌, arith, Bool, true, false, not}
use mimuw.Prelude.{◌&&◌, ◌||◌, some, ◌==◌}
use mimuw.Prelude.{Bool-cases, Option-cases, inl, inr}
use mimuw.Poset.Matrix.{between, add_relation, del_relation}
use mimuw.Poset.Messages.{Config}
use mimuw.Poset.State.{Poset, State, set_at, index_of, insert_name, remove_name, with_relations}
use mimuw.Poset.Operations.{
  poset_insert, poset_remove, poset_add, poset_del, poset_test, add_in, del_in,
}
use mimuw.Poset.Order.{le}
use mimuw.Poset.Names.{precedes, has}
use mimuw.Poset.Writes.{
  IsPoset, index_of-size, insert_name-IsPoset, remove_name-IsPoset, add_relation-IsPoset,
  del_relation-IsPoset, precedes-insert_name, precedes-remove_name, precedes-add_relation,
  precedes-del_relation,
}

-- A call that returned `r` has the result `ok`, left a valid poset at `id` with the order `order`
-- between names, and left the other posets alone.
pub record Outcome (s : State) (id : ℕ) (ok : Bool) (order : (x y : String) → Bool)
    (r : Bool × State) : Type 0 where
  pub poset : Poset
  pub returned : r.0 ≡ ok
  pub stored : r.1.posets id ≡ some poset
  pub valid : IsPoset poset
  pub ordered : (x y : String) → precedes poset x y ≡ order x y
  pub others : (k : ℕ) → k ≢ id → r.1.posets k ≡ s.posets k
  pub queue : r.1.available ≡ s.available
  pub counter : r.1.next_id ≡ s.next_id

-- `poset_add` needs two elements that are not related.
abbrev pub addable : Poset → (v w : String) → Bool
addable p v w = has p v && has p w && not (precedes p v w) && not (precedes p w v)

module _ (c : Config) (s : State) (id : ℕ) (p : Poset) (at_id : s.posets id ≡ some p)
    (valid : IsPoset p) where
  -- A call that only writes messages
  stays :
      (s' : State) (order : (x y : String) → Bool)
      → s'.posets ≡ s.posets
      → s'.available ≡ s.available
      → s'.next_id ≡ s.next_id
      → ((x y : String) → precedes p x y ≡ order x y)
      → Outcome s id false order (false, s')
  stays s' order same q n h = record {
    poset = p;
    returned = refl;
    stored = ap (λ f. f id) same ∙ at_id;
    valid = valid;
    ordered = h;
    others = λ k ne. ap (λ f. f k) same;
    queue = q;
    counter = n;
  }

  -- A call that puts a poset in the place of `p`
  writes :
      (s' : State) (p' : Poset) (order : (x y : String) → Bool)
      → s'.posets ≡ set_at s.posets id (some p')
      → s'.available ≡ s.available
      → s'.next_id ≡ s.next_id
      → IsPoset p'
      → ((x y : String) → precedes p' x y ≡ order x y)
      → Outcome s id true order (true, s')
  writes s' p' order same q n v h = record {
    poset = p';
    returned = refl;
    stored = ap (λ f. f id) same ∙ ground arith;
    valid = v;
    ordered = h;
    others = λ k ne. ap (λ f. f k) same ∙ ground arith;
    queue = q;
    counter = n;
  }

  -- `poset_test` says whether the first element precedes the second one.
  pub poset_test-precedes :
      (v w : String) → (poset_test c id (some v) (some w) s).0 ≡ precedes p v w
  unfolding poset_test
  poset_test-precedes v w = elim (Option-cases (index_of p.names v)) [
    | inl e ↦ rw (at_id, e) refl
    | inr (i, e) ↦ elim (Option-cases (index_of p.names w)) [
      | inl e' ↦ rw (at_id, e, e') refl
      | inr (j, e') ↦ rw (at_id, e, e') refl
    ]
  ]

  -- `poset_insert` adds an element that is related to itself alone, if its name is new.
  pub poset_insert-Outcome :
      (v : String)
      → Outcome s id
          (not (has p v))
          (λ x y. precedes p x y || (not (has p v) && (str_eq v x && str_eq v y)))
          (poset_insert c id (some v) s)
  unfolding poset_insert
  poset_insert-Outcome v = elim (Option-cases (index_of p.names v)) [
    | inl e ↦
        rw (at_id, e)
          (writes _ (insert_name p v) _ refl refl refl (insert_name-IsPoset p v valid e)
            (λ x y. precedes-insert_name p v x y valid e))
    | inr (i, e) ↦ rw (at_id, e) (stays _ _ refl refl refl (λ x y. ground arith))
  ]

  -- `poset_remove` of a name takes the element out of a valid poset, if it is there, and keeps the
  -- order of the others.
  pub poset_remove-Outcome :
      (v : String)
      → Outcome s id
          (has p v)
          (λ x y. precedes p x y && not (has p v && str_eq v x) && not (has p v && str_eq v y))
          (poset_remove c id (some v) s)
  unfolding poset_remove
  poset_remove-Outcome v = elim (Option-cases (index_of p.names v)) [
    | inl e ↦ rw (at_id, e) (stays _ _ refl refl refl (λ x y. ground arith))
    | inr (i, e) ↦
        rw (at_id, e)
          (writes _ (remove_name p i) _ refl refl refl (remove_name-IsPoset p v i valid e)
            (λ x y. precedes-remove_name p v x y i valid e))
  ]

  or_false : (b : Bool) → b ≡ (b || false)
  or_false true = refl
  or_false false = refl

  and_true : (b : Bool) → b ≡ (b && true)
  and_true true = refl
  and_true false = refl

  -- In a valid poset, for two of its elements that are not related, `poset_add` adds the relation
  -- with all that follows from it by transitivity, and nothing else; otherwise nothing.
  pub poset_add-Outcome :
      (v w : String)
      → Outcome s id
          (addable p v w)
          (λ x y. precedes p x y || (addable p v w && precedes p x v && precedes p w y))
          (poset_add c id (some v) (some w) s)
  unfolding poset_add add_in
  poset_add-Outcome v w = elim (Option-cases (index_of p.names v)) [
    | inl e ↦ rw (at_id, e) (stays _ _ refl refl refl (λ x y. or_false (precedes p x y)))
    | inr (i, e) ↦ elim (Option-cases (index_of p.names w)) [
      | inl e' ↦ rw (at_id, e, e') (stays _ _ refl refl refl (λ x y. or_false (precedes p x y)))
      | inr (j, e') ↦ elim (Bool-cases (le p.relations i j)) [
        | inl ij ↦
            rw (at_id, e, e', ij) (stays _ _ refl refl refl (λ x y. or_false (precedes p x y)))
        | inr ij ↦ elim (Bool-cases (le p.relations j i)) [
          | inl ji ↦
              rw (at_id, e, e', ij, ji)
                (stays _ _ refl refl refl (λ x y. or_false (precedes p x y)))
          | inr ji ↦
              rw (at_id, e, e', ij, ji)
                (writes _ (with_relations p (add_relation p.relations i j)) _ refl refl refl
                  (add_relation-IsPoset p i j valid (index_of-size p v i valid e)
                    (index_of-size p w j valid e') ij ji)
                  (λ x y. precedes-add_relation p v w x y i j valid e e' ij ji ∙ rw (e, e') refl))
        ]
      ]
    ]
  ]

  -- `poset_del` takes out one pair of the order, if it returns true, and else nothing.
  pub poset_del-Outcome :
      (v w : String)
      → Outcome s id
          (poset_del c id (some v) (some w) s).0
          (λ x y.
            precedes p x y
            && not ((poset_del c id (some v) (some w) s).0 && str_eq v x && str_eq w y))
          (poset_del c id (some v) (some w) s)
  unfolding poset_del del_in
  poset_del-Outcome v w = elim (Option-cases (index_of p.names v)) [
    | inl e ↦ rw (at_id, e) (stays _ _ refl refl refl (λ x y. and_true (precedes p x y)))
    | inr (i, e) ↦ elim (Option-cases (index_of p.names w)) [
      | inl e' ↦ rw (at_id, e, e') (stays _ _ refl refl refl (λ x y. and_true (precedes p x y)))
      | inr (j, e') ↦ elim (Bool-cases (i == j)) [
        | inl ij ↦
            rw (at_id, e, e', ij) (stays _ _ refl refl refl (λ x y. and_true (precedes p x y)))
        | inr ij ↦ elim (Bool-cases (le p.relations i j)) [
          | inr n ↦
              rw (at_id, e, e', ij, n) (stays _ _ refl refl refl (λ x y. and_true (precedes p x y)))
          | inl l ↦ elim (Bool-cases (between p.relations i j p.relations.size)) [
            | inl m ↦
                rw (at_id, e, e', ij, l, m)
                  (stays _ _ refl refl refl (λ x y. and_true (precedes p x y)))
            | inr m ↦
                rw (at_id, e, e', ij, l, m)
                  (writes _ (with_relations p (del_relation p.relations i j)) _ refl refl refl
                    (del_relation-IsPoset p i j valid (index_of-size p v i valid e)
                      (index_of-size p w j valid e') (λ h. ground arith) l m)
                    (λ x y. precedes-del_relation p v w x y i j valid e e' (λ h. ground arith) l))
          ]
        ]
      ]
    ]
  ]
