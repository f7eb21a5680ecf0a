-- ===== src/Poset/Operations.antt =====
-- The nine functions of poset.cc that a program calls. A `char const *` is an optional text.
use Prim.Native.String.{String}
use mimuw.Prelude.{ℕ, suc, Bool, true, false, ◌||◌, Option, none, some, [], ◌∷◌, ◌++◌, length}
use mimuw.Prelude.{◌==◌, if◌then◌else◌}
use mimuw.Poset.Matrix.{relation, no_relation, related, between, add_relation}
use mimuw.Poset.Matrix.{del_relation, extend, remove_element}
use mimuw.Poset.Messages.{Config}
use mimuw.Poset.Messages
use mimuw.Poset.State.{Poset, empty_poset, State, set_at, log, index_of, erase_name, insert_new}
use mimuw.Poset.State.{update, insert_name, remove_name, at_poset, with_relations}

-- `availableIDs.front()` and `pop()`, or `nextID++`
unfoldable pub take_id : State → ℕ × State
take_id s = elim s.available [
  | [] ↦ (s.next_id, record s { next_id = suc s.next_id })
  | id ∷ ids ↦ (id, record s { available = ids })
]

module _ (c : Config) where
  unfoldable pub poset_new : State → ℕ × State
  unfolding take_id
  poset_new s =
      let s1 = log (Messages.one_arg_func_name c "poset_new" 0) s in
      let (id, s2) = take_id s1 in
      let s3 = record s2 { posets = insert_new s2.posets id } in
      (id, log (Messages.state_of_poset c "poset_new" id) s3)

  unfoldable pub poset_delete : ℕ → State → State
  poset_delete id s =
      let s1 = log (Messages.one_arg_func_name c "poset_delete" id) s in
      at_poset (s.posets id) (log (Messages.poset_not_exist c "poset_delete" id) s1) (λ p.
        log (Messages.state_of_poset c "poset_delete" id)
          (record s1 { available = s.available ++ id ∷ []; posets = set_at s.posets id none }))

  unfoldable pub poset_size : ℕ → State → ℕ × State
  poset_size id s =
      let s1 = log (Messages.one_arg_func_name c "poset_size" id) s in
      at_poset (s.posets id) ((0, log (Messages.poset_not_exist c "poset_size" id) s1))
        (λ p. (length p.names, log (Messages.contains c "poset_size" id (length p.names)) s1))

  abbrev pub insert_in : ℕ → String → Poset → Option ℕ → State → Bool × State
  insert_in id v p (some i) s = (false, log (Messages.elem_exist c "poset_insert" id (some v)) s)
  insert_in id v p none s =
      (true, log (Messages.inserted c "poset_insert" id (some v)) (update id (insert_name p v) s))

  unfoldable pub poset_insert : ℕ → Option String → State → Bool × State
  unfolding index_of extend
  poset_insert id none s = (
    false,
    log (Messages.one_value_null c "poset_insert")
        (log (Messages.two_arg_func_name c "poset_insert" id none) s),
  )
  poset_insert id (some v) s =
      let s1 = log (Messages.two_arg_func_name c "poset_insert" id (some v)) s in
      at_poset (s.posets id) ((false, log (Messages.poset_not_exist c "poset_insert" id) s1))
        (λ p. insert_in id v p (index_of p.names v) s1)

  abbrev pub remove_in : ℕ → String → Poset → Option ℕ → State → Bool × State
  remove_in id v p none s = (false, log (Messages.elem_not_exist c "poset_remove" id (some v)) s)
  remove_in id v p (some i) s = (
    true,
    log (Messages.elem_removed c "poset_remove" id (some v)) (update id (remove_name p i) s),
  )

  unfoldable pub poset_remove : ℕ → Option String → State → Bool × State
  unfolding index_of erase_name remove_element
  poset_remove id none s = (
    false,
    log (Messages.one_value_null c "poset_remove")
        (log (Messages.two_arg_func_name c "poset_remove" id none) s),
  )
  poset_remove id (some v) s =
      let s1 = log (Messages.two_arg_func_name c "poset_remove" id (some v)) s in
      at_poset (s.posets id) ((false, log (Messages.poset_not_exist c "poset_remove" id) s1))
        (λ p. remove_in id v p (index_of p.names v) s1)

  -- The three functions of two elements begin in one way: with the name of the function `f`, and
  -- `body` for a poset that has both.
  abbrev pub at_both :
      String
      → ℕ
      → (v w : String) → Option ℕ
      → Option ℕ
      → (ℕ → ℕ → State → Bool × State)
      → State
      → Bool × State
  at_both f id v w (some i) (some j) body s = body i j s
  at_both f id v w (some i) none body s = (false, log (Messages.elem_not_exist c f id (some w)) s)
  at_both f id v w none j body s = (false, log (Messages.elem_not_exist c f id (some v)) s)

  abbrev pub with_both :
      String
      → ℕ
      → (v w : Option String) → (Poset → ℕ → ℕ → State → Bool × State)
      → State
      → Bool × State
  with_both f id (some v) (some w) body s =
      let s1 = log (Messages.three_arg_func_name c f id (some v) (some w)) s in
      at_poset (s.posets id) ((false, log (Messages.poset_not_exist c f id) s1))
        (λ p. at_both f id v w (index_of p.names v) (index_of p.names w) (body p) s1)
  with_both f id (some v) none body s = (
    false,
    log (Messages.two_value_null c f (some v) none)
        (log (Messages.three_arg_func_name c f id (some v) none) s),
  )
  with_both f id none w body s = (
    false,
    log (Messages.two_value_null c f none w) (log (Messages.three_arg_func_name c f id none w) s),
  )

  unfoldable pub add_in : ℕ → (v w : Option String) → Poset → (i j : ℕ) → State → Bool × State
  unfolding add_relation
  add_in id v w p i j s =
      let m = p.relations in
      if related (m.at i j) || related (m.at j i)
      then (false, log (Messages.is_relation_added c no_relation "poset_add" id v w) s)
      else (
        true,
        log (Messages.is_relation_added c relation "poset_add" id v w)
            (update id (with_relations p (add_relation m i j)) s),
      )

  unfoldable pub poset_add : ℕ → (v w : Option String) → State → Bool × State
  unfolding add_in index_of
  poset_add id v w s = with_both "poset_add" id v w (add_in id v w) s

  unfoldable pub del_in : ℕ → (v w : Option String) → Poset → (i j : ℕ) → State → Bool × State
  unfolding between del_relation
  del_in id v w p i j s =
      let m = p.relations in
      let refused : Bool × State =
        (false, log (Messages.is_relation_deleted c false "poset_del" id v w) s) in
      if i == j
      then refused
      else if related (m.at i j)
      then (if between m i j m.size then refused else (
        true,
        log (Messages.is_relation_deleted c true "poset_del" id v w)
            (update id (with_relations p (del_relation m i j)) s),
      ))
      else refused

  unfoldable pub poset_del : ℕ → (v w : Option String) → State → Bool × State
  unfolding del_in index_of
  poset_del id v w s = with_both "poset_del" id v w (del_in id v w) s

  unfoldable pub test_in : ℕ → (v w : Option String) → Poset → (i j : ℕ) → State → Bool × State
  test_in id v w p i j s =
      let found = related (p.relations.at i j) in
      (found, log (Messages.relation_exists c found "poset_test" id v w) s)

  unfoldable pub poset_test : ℕ → (v w : Option String) → State → Bool × State
  unfolding test_in index_of
  poset_test id v w s = with_both "poset_test" id v w (test_in id v w) s

  unfoldable pub poset_clear : ℕ → State → State
  poset_clear id s =
      let s1 = log (Messages.one_arg_func_name c "poset_clear" id) s in
      at_poset (s.posets id) (log (Messages.poset_not_exist c "poset_clear" id) s1)
        (λ p. log (Messages.state_of_poset c "poset_clear" id) (update id empty_poset s1))
