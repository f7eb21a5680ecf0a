-- ===== src/Poset/Writes.antt =====
-- What the writes of poset.cc do to a valid poset, and to the order between its named elements.
use Prim.Native.String.{String}
use text.Mathlib.Text.{◌==◌ as str_eq}
use text.Mathlib.TextEquality.{eq_iff}
use mathlib.Core.Option
use mimuw.Prelude.{ℕ, ◌<◌, ◌≡◌, ◌≢◌, refl, ap, sym, ◌∙◌, arith, Bool, true, false, not}
use mimuw.Prelude.{◌&&◌, ◌||◌, Option, none, some, [], ◌∷◌, length, ◌==◌}
use mimuw.Prelude.{if◌then◌else◌, Bool-cases, inl, inr, length-append}
use mimuw.Poset.Matrix.{Matrix, skip, between, add_relation, del_relation, extend}
use mimuw.Poset.Matrix.{remove_element}
use mimuw.Poset.State.{Poset, empty_poset, index_of, erase_name, insert_name, remove_name}
use mimuw.Poset.State.{with_relations}
use mimuw.Poset.Order.{le, IsOrder, extend-IsOrder, del_relation-IsOrder, le-del_relation, le_eq}
use mimuw.Poset.Closure.{add_relation-size, le-add_relation, add_relation-IsOrder}
use mimuw.Poset.Removal.{le-remove_element, remove_element-size, remove_element-IsOrder}
use mimuw.Poset.Names.{both, precedes, is_some, Distinct, index_of-lt, index_of-append}
use mimuw.Poset.Names.{append-Distinct, index_of-erase_name, erase_name-none}
use mimuw.Poset.Names.{erase_name-Distinct, length-erase_name, index-eq-name}

-- Different names, one row of the array for each, and a partial order.
pub record IsPoset (p : Poset) : Type 0 where
  pub distinct : Distinct p.names
  pub square : p.relations.size ≡ length p.names
  pub order : IsOrder p.relations

pub empty_poset-IsPoset : IsPoset empty_poset
unfolding Distinct
empty_poset-IsPoset = record {
  distinct = tt;
  square = refl;
  order = record {
    reflexive = λ i l. absurd (omega arith);
    antisymmetric = λ i j l l' e e'. absurd (omega arith);
    transitive = λ i j k l l' l'' e e'. absurd (omega arith);
  };
}

-- An index that was found is in the array.
pub index_of-size :
    (p : Poset) (x : String) (i : ℕ)
    → IsPoset p
    → index_of p.names x ≡ some i
    → i < p.relations.size
index_of-size p x i v e = omega (arith, v.square, index_of-lt p.names x i e)

pub insert_name-IsPoset :
    (p : Poset) (x : String) → IsPoset p → index_of p.names x ≡ none → IsPoset (insert_name p x)
unfolding extend
insert_name-IsPoset p x v e = record {
  distinct = append-Distinct p.names x v.distinct e;
  square = omega (arith, v.square, length-append p.names (x ∷ []));
  order = extend-IsOrder p.relations v.order;
}

pub remove_name-IsPoset :
    (p : Poset) (x : String) (i : ℕ)
    → IsPoset p
    → index_of p.names x ≡ some i
    → IsPoset (remove_name p i)
remove_name-IsPoset p x i v e = record {
  distinct = erase_name-Distinct p.names i v.distinct;
  square = omega (
    arith,
    v.square,
    remove_element-size p.relations i,
    length-erase_name p.names i (index_of-lt p.names x i e),
  );
  order = remove_element-IsOrder p.relations i (index_of-size p x i v e) v.order;
}

pub add_relation-IsPoset :
    (p : Poset) (i j : ℕ)
    → IsPoset p
    → i < p.relations.size
    → j < p.relations.size
    → le p.relations i j ≡ false
    → le p.relations j i ≡ false
    → IsPoset (with_relations p (add_relation p.relations i j))
add_relation-IsPoset p i j v li lj n n' = record {
  distinct = v.distinct;
  square = add_relation-size p.relations i j v.order li lj n n' ∙ v.square;
  order = add_relation-IsOrder p.relations i j v.order li lj n n';
}

pub del_relation-IsPoset :
    (p : Poset) (i j : ℕ)
    → IsPoset p
    → i < p.relations.size
    → j < p.relations.size
    → i ≢ j
    → le p.relations i j ≡ true
    → between p.relations i j p.relations.size ≡ false
    → IsPoset (with_relations p (del_relation p.relations i j))
unfolding del_relation
del_relation-IsPoset p i j v li lj ne e free = record {
  distinct = v.distinct;
  square = v.square;
  order = del_relation-IsOrder p.relations i j li lj ne e free v.order;
}

insert_both :
    (m : Matrix) (o o' : Option ℕ) (s s' : Bool)
    → ((i : ℕ) → o ≡ some i → (i < m.size) × (s ≡ false))
    → ((i : ℕ) → o' ≡ some i → (i < m.size) × (s' ≡ false))
    → both
        (le (extend m))
        (if is_some o then o else if s then some m.size else none)
        (if is_some o' then o' else if s' then some m.size else none)
      ≡ (both (le m) o o' || (s && s'))
unfolding extend
insert_both m (some i) (some j) s s' f g =
    let (li, n) = f i refl in let (lj, n') = g j refl in ground arith
insert_both m (some i) none s s' f g = let (li, n) = f i refl in ground arith
insert_both m none (some j) s s' f g = let (lj, n) = g j refl in ground arith
insert_both m none none s s' f g = ground arith

-- A name that is in the list is not the new one.
other_name :
    (p : Poset) (v x : String) (i : ℕ)
    → IsPoset p
    → index_of p.names v ≡ none
    → index_of p.names x ≡ some i
    → (i < p.relations.size) × (str_eq v x ≡ false)
other_name p v x i h e ex = (
  index_of-size p x i h ex,
  elim (Bool-cases (str_eq v x)) [
    | inr ne ↦ ne
    | inl same ↦ let clash = sym e ∙ (ap (index_of p.names) ((eq_iff v x).0 same) ∙ ex) in cc
  ],
)

remove_both :
    (m : Matrix) (i : ℕ) (o o' : Option ℕ) (s s' : Bool)
    → (s ≡ true → o ≡ none)
    → (s' ≡ true → o' ≡ none)
    → both (le (remove_element m i)) o o' ≡ (
        both
          (le m)
          (if s then some i else Option.map (skip i) o)
          (if s' then some i else Option.map (skip i) o')
        && not s
        && not s')
remove_both m i (some k) (some l) true s' f g = let clash = f refl in cc
remove_both m i (some k) (some l) false true f g = let clash = g refl in cc
remove_both m i (some k) (some l) false false f g =
    let law = le-remove_element m i k l in ground arith
remove_both m i (some k) none true s' f g = let clash = f refl in cc
remove_both m i (some k) none false true f g = ground arith
remove_both m i (some k) none false false f g = refl
remove_both m i none o' true s' f g = ground arith
remove_both m i none o' false true f g = ground arith
remove_both m i none o' false false f g = refl

-- The order between names after an insertion: a new element is related to itself alone.
pub precedes-insert_name :
    (p : Poset) (v x y : String)
    → IsPoset p
    → index_of p.names v ≡ none
    → precedes (insert_name p v) x y ≡ (precedes p x y || (str_eq v x && str_eq v y))
unfolding extend
precedes-insert_name p v x y h e =
    rw (index_of-append p.names v x, index_of-append p.names v y, sym h.square)
      (insert_both p.relations (index_of p.names x) (index_of p.names y) (str_eq v x) (str_eq v y)
        (λ i. other_name p v x i h e) (λ i. other_name p v y i h e))

-- After a removal: the order between the other elements.
pub precedes-remove_name :
    (p : Poset) (v x y : String) (i : ℕ)
    → IsPoset p
    → index_of p.names v ≡ some i
    → precedes (remove_name p i) x y ≡ (precedes p x y && not (str_eq v x) && not (str_eq v y))
precedes-remove_name p v x y i h e =
    remove_both p.relations i (index_of (erase_name p.names i) x)
      (index_of (erase_name p.names i) y) (str_eq v x) (str_eq v y) (λ t. gone x t) (λ t. gone y t)
    ∙ ap (λ t. t && not (str_eq v x) && not (str_eq v y))
        (ap (both (le p.relations) _) (sym (index_of-erase_name p.names v y i e))
          ∙ ap (λ t. both (le p.relations) t (index_of p.names y))
              (sym (index_of-erase_name p.names v x i e)))
  where
    gone : (z : String) → str_eq v z ≡ true → index_of (erase_name p.names i) z ≡ none
    gone z t =
        ap (index_of (erase_name p.names i)) (sym ((eq_iff v z).0 t))
        ∙ erase_name-none p.names v i h.distinct e

-- After a new relation: the closure.
pub precedes-add_relation :
    (p : Poset) (v w x y : String) (i j : ℕ)
    → IsPoset p
    → index_of p.names v ≡ some i
    → index_of p.names w ≡ some j
    → le p.relations i j ≡ false
    → le p.relations j i ≡ false
    → precedes (with_relations p (add_relation p.relations i j)) x y
      ≡ (precedes p x y || (precedes p x v && precedes p w y))
precedes-add_relation p v w x y i j h ei ej n n' =
    rw (ei, ej)
      (go (index_of p.names x) (index_of p.names y) (λ k. index_of-size p x k h)
        (λ k. index_of-size p y k h))
  where
    go :
        (o o' : Option ℕ)
        → ((k : ℕ) → o ≡ some k → k < p.relations.size)
        → ((k : ℕ) → o' ≡ some k → k < p.relations.size)
        → both (le (add_relation p.relations i j)) o o' ≡ (
            both (le p.relations) o o'
            || (both (le p.relations) o (some i) && both (le p.relations) (some j) o'))
    go (some k) (some l) f g =
        le-add_relation p.relations i j h.order (index_of-size p v i h ei)
          (index_of-size p w j h ej) n n' k l (f k refl) (g l refl)
    go (some k) none f g = ground arith
    go none o' f g = ground arith

-- After a relation is taken out: its pair is missing.
pub precedes-del_relation :
    (p : Poset) (v w x y : String) (i j : ℕ)
    → IsPoset p
    → index_of p.names v ≡ some i
    → index_of p.names w ≡ some j
    → i ≢ j
    → le p.relations i j ≡ true
    → precedes (with_relations p (del_relation p.relations i j)) x y
      ≡ (precedes p x y && not (str_eq v x && str_eq w y))
precedes-del_relation p v w x y i j h ei ej ne l =
    go (index_of p.names x) (index_of p.names y)
      (λ k e. (index_of-size p x k h e, index-eq-name p.names v x i k ei e))
      (λ k e. (index_of-size p y k h e, index-eq-name p.names w y j k ej e))
  where
    go :
        (o o' : Option ℕ)
        → ((k : ℕ) → o ≡ some k → (k < p.relations.size) × ((k == i) ≡ str_eq v x))
        → ((k : ℕ) → o' ≡ some k → (k < p.relations.size) × ((k == j) ≡ str_eq w y))
        → both (le (del_relation p.relations i j)) o o'
          ≡ (both (le p.relations) o o' && not (str_eq v x && str_eq w y))
    go (some k) (some n) f g =
        let (lk, a) = f k refl in
        let (ln, b) = g n refl in
        le-del_relation p.relations i j k n
        ∙ ground (
          arith,
          a,
          b,
          le_eq p.relations k n j i,
          h.order.antisymmetric i j (index_of-size p v i h ei) (index_of-size p w j h ej) l,
        )
    go (some k) none f g = refl
    go none o' f g = refl
