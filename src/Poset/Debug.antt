-- ===== src/Poset/Debug.antt =====
-- The debugging messages of poset.cc change nothing but the text that is written.
use Prim.Native.String.{String}
use mimuw.Prelude.{ℕ, ◌≡◌, refl, ap, Bool, Option, none, some, List, [], ◌∷◌}
use mimuw.Prelude.{Bool-cases, ◌||◌, Option-cases, inl, inr, ◌==◌}
use mathlib.Core.Path.{subst}
use mimuw.Poset.Matrix.{related, between}
use mimuw.Poset.Messages.{Config}
use mimuw.Poset.State.{Poset, State, index_of, at_poset}
use mimuw.Poset.Operations.{
  take_id, poset_new, poset_delete, poset_size, poset_insert, poset_remove, poset_add, poset_del,
  poset_test, poset_clear, with_both, at_both, insert_in, remove_in, add_in, del_in, test_in,
}
use mimuw.Poset.Runs.{Call, new_poset, delete_poset, ask_size, clear, insert, remove, relate}
use mimuw.Poset.Runs.{unrelate, test, number, truth, call, run}

-- The second state is the first one but for the messages.
abbrev Same : (s s' : State) → Type 0
Same s s' = (s'.posets ≡ s.posets) × (s'.available ≡ s.available) × (s'.next_id ≡ s.next_id)

abbrev Alike {ℓ} : {A : Type ℓ} → (r r' : A × State) → Type ℓ
Alike r r' = (r'.0 ≡ r.0) × Same r.1 r'.1

module _ (c c' : Config) (s : State) (t : String) where
  abbrev other : State
  other = record s { cerr = t }

  at_poset-Alike {ℓ} :
      {A : Type ℓ} (o : Option Poset) (r r' : A × State) (f f' : Poset → A × State)
      → Alike r r'
      → ((p : Poset) → Alike (f p) (f' p))
      → Alike (at_poset o r f) (at_poset o r' f')
  at_poset-Alike none r r' f f' h g = h
  at_poset-Alike (some p) r r' f f' h g = g p

  at_both-Alike :
      (f : String) (id : ℕ) (v w : String) (o o' : Option ℕ) (g g' : ℕ → ℕ → State → Bool × State)
      (x x' : State)
      → Same x x'
      → ((i j : ℕ) → Alike (g i j x) (g' i j x'))
      → Alike (at_both c f id v w o o' g x) (at_both c' f id v w o o' g' x')
  at_both-Alike f id v w (some i) (some j) g g' x x' e h = h i j
  at_both-Alike f id v w (some i) none g g' x x' e h = (refl, e)
  at_both-Alike f id v w none o' g g' x x' e h = (refl, e)

  -- A function of two elements, from its body
  with_both-Alike :
      (f : String) (id : ℕ) (v w : Option String) (g g' : Poset → ℕ → ℕ → State → Bool × State)
      → ((p : Poset) (i j : ℕ) (m m' : String)
          → Alike (g p i j (record s { cerr = m })) (g' p i j (record s { cerr = m' })))
      → Alike (with_both c f id v w g s) (with_both c' f id v w g' other)
  with_both-Alike f id (some v) (some w) g g' h =
      at_poset-Alike (s.posets id) _ _ _ _ (refl, (refl, refl, refl))
        (λ p.
          at_both-Alike f id v w (index_of p.names v) (index_of p.names w) (g p) (g' p) _ _
            (refl, refl, refl) (λ i j. h p i j _ _))
  with_both-Alike f id (some v) none g g' h = (refl, (refl, refl, refl))
  with_both-Alike f id none w g g' h = (refl, (refl, refl, refl))

  poset_new-Alike : Alike (poset_new c s) (poset_new c' other)
  unfolding poset_new take_id
  poset_new-Alike = go s.available refl
    where
      go : (l : List ℕ) → s.available ≡ l → Alike (poset_new c s) (poset_new c' other)
      go [] e = rw e (refl, (refl, refl, refl))
      go (x ∷ xs) e = rw e (refl, (refl, refl, refl))

  poset_delete-Same : (id : ℕ) → Same (poset_delete c id s) (poset_delete c' id other)
  unfolding poset_delete
  poset_delete-Same id = elim (Option-cases (s.posets id)) [
    | inl e ↦ rw e (refl, refl, refl)
    | inr (p, e) ↦ rw e (refl, refl, refl)
  ]

  poset_clear-Same : (id : ℕ) → Same (poset_clear c id s) (poset_clear c' id other)
  unfolding poset_clear
  poset_clear-Same id = elim (Option-cases (s.posets id)) [
    | inl e ↦ rw e (refl, refl, refl)
    | inr (p, e) ↦ rw e (refl, refl, refl)
  ]

  poset_size-Alike : (id : ℕ) → Alike (poset_size c id s) (poset_size c' id other)
  unfolding poset_size
  poset_size-Alike id =
      at_poset-Alike (s.posets id) _ _ _ _ (refl, (refl, refl, refl))
        (λ p. (refl, (refl, refl, refl)))

  insert_in-Alike :
      (id : ℕ) (v : String) (p : Poset) (o : Option ℕ) (m m' : String)
      → Alike
          (insert_in c id v p o (record s { cerr = m }))
          (insert_in c' id v p o (record s { cerr = m' }))
  insert_in-Alike id v p none m m' = (refl, (refl, refl, refl))
  insert_in-Alike id v p (some i) m m' = (refl, (refl, refl, refl))

  remove_in-Alike :
      (id : ℕ) (v : String) (p : Poset) (o : Option ℕ) (m m' : String)
      → Alike
          (remove_in c id v p o (record s { cerr = m }))
          (remove_in c' id v p o (record s { cerr = m' }))
  remove_in-Alike id v p none m m' = (refl, (refl, refl, refl))
  remove_in-Alike id v p (some i) m m' = (refl, (refl, refl, refl))

  poset_insert-Alike :
      (id : ℕ) (v : Option String) → Alike (poset_insert c id v s) (poset_insert c' id v other)
  unfolding poset_insert
  poset_insert-Alike id none = (refl, (refl, refl, refl))
  poset_insert-Alike id (some v) =
      at_poset-Alike (s.posets id) _ _ _ _ (refl, (refl, refl, refl))
        (λ p. insert_in-Alike id v p (index_of p.names v) _ _)

  poset_remove-Alike :
      (id : ℕ) (v : Option String) → Alike (poset_remove c id v s) (poset_remove c' id v other)
  unfolding poset_remove
  poset_remove-Alike id none = (refl, (refl, refl, refl))
  poset_remove-Alike id (some v) =
      at_poset-Alike (s.posets id) _ _ _ _ (refl, (refl, refl, refl))
        (λ p. remove_in-Alike id v p (index_of p.names v) _ _)

  add_in-Alike :
      (id : ℕ) (v w : Option String) (p : Poset) (i j : ℕ) (m m' : String)
      → Alike
          (add_in c id v w p i j (record s { cerr = m }))
          (add_in c' id v w p i j (record s { cerr = m' }))
  unfolding add_in
  add_in-Alike id v w p i j m m' =
      elim (Bool-cases (related (p.relations.at i j) || related (p.relations.at j i))) [
        | inl e ↦ rw e (refl, (refl, refl, refl))
        | inr e ↦ rw e (refl, (refl, refl, refl))
      ]

  poset_add-Alike :
      (id : ℕ) (v w : Option String) → Alike (poset_add c id v w s) (poset_add c' id v w other)
  unfolding poset_add
  poset_add-Alike id v w =
      with_both-Alike "poset_add" id v w (add_in c id v w) (add_in c' id v w) (add_in-Alike id v w)

  del_in-Alike :
      (id : ℕ) (v w : Option String) (p : Poset) (i j : ℕ) (m m' : String)
      → Alike
          (del_in c id v w p i j (record s { cerr = m }))
          (del_in c' id v w p i j (record s { cerr = m' }))
  unfolding del_in
  del_in-Alike id v w p i j m m' = elim (Bool-cases (i == j)) [
    | inl e ↦ rw e (refl, (refl, refl, refl))
    | inr e ↦ elim (Bool-cases (related (p.relations.at i j))) [
      | inr e' ↦ rw (e, e') (refl, (refl, refl, refl))
      | inl e' ↦ elim (Bool-cases (between p.relations i j p.relations.size)) [
        | inl e'' ↦ rw (e, e', e'') (refl, (refl, refl, refl))
        | inr e'' ↦ rw (e, e', e'') (refl, (refl, refl, refl))
      ]
    ]
  ]

  poset_del-Alike :
      (id : ℕ) (v w : Option String) → Alike (poset_del c id v w s) (poset_del c' id v w other)
  unfolding poset_del
  poset_del-Alike id v w =
      with_both-Alike "poset_del" id v w (del_in c id v w) (del_in c' id v w) (del_in-Alike id v w)

  poset_test-Alike :
      (id : ℕ) (v w : Option String) → Alike (poset_test c id v w s) (poset_test c' id v w other)
  unfolding poset_test test_in
  poset_test-Alike id v w =
      with_both-Alike "poset_test" id v w _ _ (λ p i j m m'. (refl, (refl, refl, refl)))

  call-Alike : (k : Call) → Alike (call c k s) (call c' k other)
  unfolding call
  call-Alike new_poset = let (n, h) = poset_new-Alike in (ap number n, h)
  call-Alike (delete_poset id) = (refl, poset_delete-Same id)
  call-Alike (ask_size id) = let (n, h) = poset_size-Alike id in (ap number n, h)
  call-Alike (clear id) = (refl, poset_clear-Same id)
  call-Alike (insert id v) = let (b, h) = poset_insert-Alike id v in (ap truth b, h)
  call-Alike (remove id v) = let (b, h) = poset_remove-Alike id v in (ap truth b, h)
  call-Alike (relate id v w) = let (b, h) = poset_add-Alike id v w in (ap truth b, h)
  call-Alike (unrelate id v w) = let (b, h) = poset_del-Alike id v w in (ap truth b, h)
  call-Alike (test id v w) = let (b, h) = poset_test-Alike id v w in (ap truth b, h)

only_messages : (s s' : State) → Same s s' → record s { cerr = s'.cerr } ≡ s'
only_messages s s' (e, q, n) = rw (e, q, n) refl

-- The messages have no influence: with them and without them, and with any way to print a number,
-- a sequence of calls from states that differ in the messages alone returns the same answers, and
-- leaves states that differ in the messages alone.
pub run-Alike :
    (c c' : Config) (ks : List Call) (s s' : State) → Same s s' → Alike (run c ks s) (run c' ks s')
unfolding run
run-Alike c c' [] s s' same = (refl, same)
run-Alike c c' (k ∷ ks) s s' same =
    let (a, h) = step in
    let (rest, h') = run-Alike c c' ks (call c k s).1 (call c' k s').1 h in (cc, h')
  where
    step : Alike (call c k s) (call c' k s')
    step =
        subst (λ x. Alike (call c k s) (call c' k x)) (only_messages s s' same)
          (call-Alike c c' s s'.cerr k)
