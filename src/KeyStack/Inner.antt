-- ===== src/KeyStack/Inner.antt =====
-- `Inner_stack` of stack.h: the elements by height, the elements of each key, and the operations.
use mimuw.Prelude.{ℕ, suc, ◌-◌, Bool, true, false, Option, none, some, List, [], ◌∷◌, length}
use mimuw.Prelude.{◌==◌, ltb, if◌then◌else◌}
use mimuw.KeyStack.Keys.{KeyOrder, same, insert_key, erase_key}

-- `Element`; the pointers are to a key and a value of its own.
pub record Element (K V : Type 0) : Type 0 where
  pub key : K
  pub value : V
  pub height : ℕ

-- `std::set` with `element_height_comparator`: the greatest height stands first.
unfoldable pub insert_element :
    {K V : Type 0} → Element K V → List (Element K V) → List (Element K V)
insert_element e [] = e ∷ []
insert_element e (x ∷ xs) =
    let rest = insert_element e xs in
    if ltb x.height e.height then e ∷ x ∷ xs else if ltb e.height x.height then x ∷ rest else x ∷ xs

unfoldable pub erase_element :
    {K V : Type 0} → Element K V → List (Element K V) → List (Element K V)
erase_element e [] = []
erase_element e (x ∷ xs) =
    let rest = erase_element e xs in if x.height == e.height then xs else x ∷ rest

-- The fields of `Inner_stack`. A `std::stack` is a list from its top.
pub record Inner (K V : Type 0) : Type 0 where
  pub keys : List K
  pub element_map : K → Option (List (Element K V))
  pub element_set : List (Element K V)
  pub was_referenced : Bool
  pub height : ℕ

abbrev pub empty : {K V : Type 0} → Inner K V
empty = record {
  keys = [];
  element_map = λ k. none;
  element_set = [];
  was_referenced = false;
  height = 0;
}

-- `element_map[key]`, which makes an empty stack for a new key
abbrev pub entries : {A : Type 0} → Option (List A) → List A
entries none = []
entries (some l) = l

-- `front`, and `front` of a key
abbrev pub first_of : {K V : Type 0} → List (Element K V) → Option (Element K V)
first_of [] = none
first_of (e ∷ es) = some e

abbrev pub reference : {K V : Type 0} → Inner K V → Inner K V
reference s = record s { was_referenced = true }

unfoldable pub front : {K V : Type 0} → Inner K V → Option (Element K V)
front s = first_of s.element_set

unfoldable pub front_key : {K V : Type 0} → K → Inner K V → Option (Element K V)
front_key k s = first_of (entries (s.element_map k))

unfoldable pub count : {K V : Type 0} → K → Inner K V → ℕ
count k s = length (entries (s.element_map k))

module _ {K V : Type 0} (o : KeyOrder K) where
  abbrev pub set_entries :
      (K → Option (List (Element K V)))
      → K
      → Option (List (Element K V))
      → K
      → Option (List (Element K V))
  set_entries f k l k' = if same o k k' then l else f k'

  unfoldable pub push : K → V → Inner K V → Inner K V
  unfolding insert_key insert_element
  push k v s =
      let e : Element K V = record { key = k; value = v; height = s.height } in
      record {
        keys = insert_key o k s.keys;
        element_map = set_entries s.element_map k (some (e ∷ entries (s.element_map k)));
        element_set = insert_element e s.element_set;
        was_referenced = true;
        height = suc s.height;
      }

  -- What both kinds of `pop` do with the element `e`, the other elements of its key below it
  abbrev pub without : Element K V → List (Element K V) → Inner K V → Inner K V
  without e [] s = record {
    keys = erase_key o e.key s.keys;
    element_map = set_entries s.element_map e.key none;
    element_set = erase_element e s.element_set;
    was_referenced = true;
    height = s.height - 1;
  }
  without e (x ∷ xs) s = record {
    keys = s.keys;
    element_map = set_entries s.element_map e.key (some (x ∷ xs));
    element_set = erase_element e s.element_set;
    was_referenced = true;
    height = s.height - 1;
  }

  -- `top` and `pop` of an empty stack are undefined, none.
  abbrev pub pop_entry : Element K V → List (Element K V) → Inner K V → Option (Inner K V)
  pop_entry e [] s = none
  pop_entry e (x ∷ xs) s = some (without e xs s)

  abbrev pub pop_first : List (Element K V) → Inner K V → Option (Inner K V)
  pop_first [] s = none
  pop_first (e ∷ es) s = pop_entry e (entries (s.element_map e.key)) s

  unfoldable pub pop : Inner K V → Option (Inner K V)
  unfolding erase_key erase_element
  pop s = pop_first s.element_set s

  abbrev pub pop_of : List (Element K V) → Inner K V → Option (Inner K V)
  pop_of [] s = none
  pop_of (e ∷ es) s = some (without e es s)

  unfoldable pub pop_key : K → Inner K V → Option (Inner K V)
  unfolding erase_key erase_element
  pop_key k s = pop_of (entries (s.element_map k)) s

  -- The loop of the copy constructor, from the lowest element of a list that begins with the highest
  unfoldable pub push_all : List (Element K V) → Inner K V → Inner K V
  unfolding push
  push_all [] s = s
  push_all (e ∷ es) s = push e.key e.value (push_all es s)

  unfoldable pub copy : Inner K V → Inner K V
  unfolding push_all
  copy s = record (push_all s.element_set empty) { was_referenced = false }
