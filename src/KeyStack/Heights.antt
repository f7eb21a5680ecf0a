-- ===== src/KeyStack/Heights.antt =====
-- `pop` of a key of stack.h when its last element is not the top of the stack.
use mimuw.Prelude.{ℕ, suc, ◌≡◌, refl, ap, sym, ◌∙◌, arith, true, false, some}
use mimuw.Prelude.{List, [], ◌∷◌, length, ltb, Bool-cases, inl, inr}
use mimuw.KeyStack.Keys.{KeyOrder, same}
use mimuw.KeyStack.Inner.{
  Element, Inner, entries, insert_element, erase_element, push, pop_key, front, without, first_of,
  pop_of,
}
use mimuw.KeyStack.Contents
use mimuw.KeyStack.Contents.{numbered, of_key, Holds, occurs, top, other_of_key}
use mimuw.KeyStack.Readers.{pairs_of_key, pairs_of_key-numbered, occurs-map}

module _ {K V : Type 0} (o : KeyOrder K) where
  -- The elements of a key are lower than the top.
  abbrev Lower : ℕ → List (Element K V) → Type 0
  Lower n [] = Unit {0}
  Lower n (e ∷ es) = (ltb e.height n ≡ true) × Lower n es

  Lower-weak : (n : ℕ) (es : List (Element K V)) → Lower n es → Lower (suc n) es
  Lower-weak n [] h = tt
  Lower-weak n (e ∷ es) (l, h) = (ground arith, Lower-weak n es h)

  of_key-Lower : (k : K) (l : List (K × V)) → Lower (length l) (of_key o k (numbered l))
  unfolding of_key numbered
  of_key-Lower k [] = tt
  of_key-Lower k ((k', v) ∷ l) = elim (Bool-cases (same o k k')) [
    | inl y ↦ rw y (ground arith, Lower-weak _ _ (of_key-Lower k l))
    | inr n ↦ rw n (Lower-weak _ _ (of_key-Lower k l))
  ]

  abbrev height_of : Inner K V → ℕ
  height_of s = s.height

  -- The element on the top stays, and has the height that the next element gets.
  stale_top :
      (k : K) (v : V) (s : Inner K V) (l : List (K × V)) (e : Element K V) (es : List (Element K V))
      → Holds o s ((k, v) ∷ l)
      → ltb e.height (length l) ≡ true
      → ((without o e es s).element_set ≡ top o k v l ∷ erase_element e (numbered l))
        × ((without o e es s).height ≡ length l)
  unfolding numbered erase_element
  stale_top k v s l e [] h lower = (rw h.heights (ground arith), rw h.size (ground arith))
  stale_top k v s l e (x ∷ xs) h lower = (rw h.heights (ground arith), rw h.size (ground arith))

  push_onto :
      (q : K) (w : V) (s : Inner K V) (e : Element K V) (es : List (Element K V))
      → s.element_set ≡ e ∷ es
      → s.height ≡ e.height
      → (push o q w s).element_set ≡ s.element_set
  unfolding push insert_element
  push_onto q w s e es h n = rw (h, n) (ground arith)

  -- Take from a stack the last element of a key, when it is not the top of the stack. The next
  -- push, of any pair, does not enter the order of the elements: `front` stays what it was, while
  -- the size is that of all elements with the new one.
  pub push-pop_key :
      (k k' : K) (v : V) (s : Inner K V) (l : List (K × V))
      → Holds o s ((k, v) ∷ l)
      → same o k k' ≡ false
      → occurs (pairs_of_key o k' l) ≡ true
      → (s' : Inner K V) × (pop_key o k' s ≡ some s')
        × ((q : K) (w : V)
            → ((push o q w s').element_set ≡ s'.element_set)
              × (front (push o q w s') ≡ front s)
              × ((push o q w s').height ≡ suc (length l)))
  unfolding pop_key front push numbered
  push-pop_key k k' v s l h other there =
      go (of_key o k' (numbered l)) refl (of_key-Lower k' l)
        (occurs-map o _ ∙ ap occurs (pairs_of_key-numbered o k' l) ∙ there)
    where
      go :
          (m : List (Element K V))
          → of_key o k' (numbered l) ≡ m
          → Lower (length l) m
          → occurs m ≡ true
          → (s' : Inner K V) × (pop_key o k' s ≡ some s')
            × ((q : K) (w : V)
                → ((push o q w s').element_set ≡ s'.element_set)
                  × (front (push o q w s') ≡ front s)
                  × ((push o q w s').height ≡ suc (length l)))
      go [] e b t = absurd (ground arith)
      go (x ∷ xs) e (lower, b) t =
          let (set, size) = stale_top k v s l x xs h lower in
          (
            without o x xs s,
            ap (λ u. pop_of o (entries u) s)
                (h.stacks k' ∙ ap Contents.unless_empty (other_of_key o k k' v l other ∙ e)),
            λ q w.
                let lost = push_onto q w (without o x xs s) _ _ set size in
                (lost, ap first_of (lost ∙ set) ∙ sym (ap first_of h.heights), ap suc size),
          )
