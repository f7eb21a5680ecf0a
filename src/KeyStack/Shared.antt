-- ===== src/KeyStack/Shared.antt =====
-- `stack` of stack.h: objects that share an `Inner_stack` until one of them changes it.
use mimuw.Prelude.{ℕ, suc, ◌+◌, Bool, false, Option, none, some, List, [], ◌∷◌, ◌++◌, ◌==◌}
use mimuw.Prelude.{if◌then◌else◌, get_elem?, set}
use mimuw.KeyStack.Keys.{KeyOrder}
use mimuw.KeyStack.Inner.{Element, Inner, empty, push, pop, pop_key, reference, copy, count}
use mimuw.KeyStack.Inner.{front, front_key}

-- The inner stacks by address, the pointer of each object, and the first address not yet used
pub record Store (K V : Type 0) : Type 0 where
  pub inner : ℕ → Inner K V
  pub pointers : List ℕ
  pub next : ℕ

-- `std::invalid_argument`, undefined behaviour, or the store after the call
pub data Result (K V : Type 0) : Type 0 where
  threw : Result K V
  undefined_behaviour : Result K V
  done : Store K V → Result K V

-- The calls that change an object; the references that `front` returns are not followed.
pub data Action (K V : Type 0) : Type 0 where
  push_pair : K → V → Action K V
  pop_last : Action K V
  pop_last_of : K → Action K V
  ask_front : Action K V
  ask_front_of : K → Action K V
  clear : Action K V

-- `use_count` of a pointer
unfoldable pub uses : List ℕ → ℕ → ℕ
uses [] a = 0
uses (x ∷ xs) a = (if x == a then 1 else 0) + uses xs a

abbrev pub put : {A : Type 0} → (ℕ → A) → ℕ → A → ℕ → A
put f a x b = if a == b then x else f b

-- The non-const `front`: the element asked for is dereferenced, which is undefined, none, when there
-- is none, and the inner stack is marked.
abbrev pub referenced : {K V : Type 0} → Option (Element K V) → Inner K V → Option (Inner K V)
referenced none s = none
referenced (some e) s = some (reference s)

module _ {K V : Type 0} (o : KeyOrder K) where
  unfoldable pub new_object : Store K V → Store K V
  new_object st = record {
    inner = put st.inner st.next empty;
    pointers = st.pointers ++ st.next ∷ [];
    next = suc st.next;
  }

  -- The copy constructor, for the object with the pointer `a`
  unfoldable pub copy_object : ℕ → Store K V → Store K V
  copy_object a st =
      if (st.inner a).was_referenced
      then record {
        inner = put st.inner st.next (copy o (st.inner a));
        pointers = st.pointers ++ st.next ∷ [];
        next = suc st.next;
      }
      else record st { pointers = st.pointers ++ a ∷ [] }

  -- `operator=`
  abbrev pub assign : (i a : ℕ) → Store K V → Store K V
  assign i a st = record st { pointers = set st.pointers i a }

  -- The address that object i, with the pointer `a`, may change, and the store then
  unfoldable pub detach : (i a : ℕ) → Store K V → ℕ × Store K V
  unfolding uses
  detach i a st = if uses st.pointers a == 1 then (a, st) else (
    st.next,
    record {
      inner = put st.inner st.next (copy o (st.inner a));
      pointers = set st.pointers i st.next;
      next = suc st.next;
    },
  )

  -- Whether a call throws
  abbrev pub refuses : Action K V → Inner K V → Bool
  refuses (push_pair k v) s = false
  refuses pop_last s = s.height == 0
  refuses (pop_last_of k) s = count k s == 0
  refuses ask_front s = s.height == 0
  refuses (ask_front_of k) s = count k s == 0
  refuses clear s = false

  -- What a call does to the inner stack
  unfoldable pub effect : Action K V → Inner K V → Option (Inner K V)
  unfolding push pop pop_key front front_key
  effect (push_pair k v) s = some (push o k v s)
  effect pop_last s = pop o s
  effect (pop_last_of k) s = pop_key o k s
  effect ask_front s = referenced (front s) s
  effect (ask_front_of k) s = referenced (front_key k s) s
  effect clear s = some empty

  abbrev pub store_at : ℕ → Store K V → Option (Inner K V) → Result K V
  store_at a st none = undefined_behaviour
  store_at a st (some s) = done (record st { inner = put st.inner a s })

  abbrev pub change_at : Action K V → ℕ × Store K V → Result K V
  change_at c (a, st) = store_at a st (effect c (st.inner a))

  abbrev pub perform_at : Action K V → ℕ → Option ℕ → Store K V → Result K V
  perform_at c i none st = undefined_behaviour
  perform_at c i (some a) st = if refuses c (st.inner a) then threw else change_at c (detach i a st)

  unfoldable pub perform : Action K V → ℕ → Store K V → Result K V
  unfolding detach effect
  perform c i st = perform_at c i (get_elem? st.pointers i) st
