-- ===== src/KeyStack/Readers.antt =====
-- What the readers of a stack of stack.h tell of the pairs that it holds.
use mathlib.Core.Option
use mimuw.Prelude.{◌≡◌, refl, ap, sym, ◌∙◌, true}
use mimuw.Prelude.{Option, none, some, List, [], ◌∷◌, map, length, length-map, if◌then◌else◌}
use mimuw.Prelude.{Bool-cases, inl, inr}
use mimuw.KeyStack.Keys.{KeyOrder, same, same_refl, contains_key}
use mimuw.KeyStack.Inner.{Element, Inner, entries}
use mimuw.KeyStack.Inner.{front, front_key, count}
use mimuw.KeyStack.Inner.{first_of}
use mimuw.KeyStack.Contents.{numbered, of_key, occurs, Holds, entries-unless_empty}

module _ {K V : Type 0} (o : KeyOrder K) where
  abbrev pub first : List (K × V) → Option (K × V)
  first [] = none
  first (p ∷ l) = some p

  abbrev pub pair_of : Element K V → K × V
  pair_of e = (e.key, e.value)

  unfoldable pub pairs_of_key : K → List (K × V) → List (K × V)
  pairs_of_key k [] = []
  pairs_of_key k ((k', v) ∷ l) =
      let rest = pairs_of_key k l in if same o k k' then (k', v) ∷ rest else rest

  pub pairs_of_key-numbered :
      (k : K) (l : List (K × V)) → map pair_of (of_key o k (numbered l)) ≡ pairs_of_key k l
  unfolding of_key numbered pairs_of_key
  pairs_of_key-numbered k [] = refl
  pairs_of_key-numbered k ((k', v) ∷ l) = elim (Bool-cases (same o k k')) [
    | inl y ↦ rw y (ap (λ t. (k', v) ∷ t) (pairs_of_key-numbered k l))
    | inr n ↦ rw n (pairs_of_key-numbered k l)
  ]

  pub own_key : (k : K) (v : V) (l : List (K × V)) → occurs (pairs_of_key k ((k, v) ∷ l)) ≡ true
  unfolding pairs_of_key
  own_key k v l = rw (same_refl o k) refl

  first_of-map : (m : List (Element K V)) → Option.map pair_of (first_of m) ≡ first (map pair_of m)
  first_of-map [] = refl
  first_of-map (e ∷ es) = refl

  pub occurs-map : (m : List (Element K V)) → occurs m ≡ occurs (map pair_of m)
  occurs-map [] = refl
  occurs-map (e ∷ es) = refl

  map-numbered : (l : List (K × V)) → map pair_of (numbered l) ≡ l
  unfolding numbered
  map-numbered [] = refl
  map-numbered ((k, v) ∷ l) = ap (λ t. (k, v) ∷ t) (map-numbered l)

  entries-of_key :
      (s : Inner K V) (l : List (K × V)) (k : K)
      → Holds o s l
      → entries (s.element_map k) ≡ of_key o k (numbered l)
  entries-of_key s l k h = ap entries (h.stacks k) ∙ entries-unless_empty (of_key o k (numbered l))

  -- The readers: `front` is the pair pushed last, `front` of a key the last one with that key,
  -- `count` the number of pairs with the key, `size` the number of all, and a key is visited when
  -- there is a pair with it.
  pub readers-Holds :
      (s : Inner K V) (l : List (K × V)) (k : K)
      → Holds o s l
      → (Option.map pair_of (front s) ≡ first l)
        × (Option.map pair_of (front_key k s) ≡ first (pairs_of_key k l))
        × (count k s ≡ length (pairs_of_key k l))
        × (contains_key o k s.keys ≡ occurs (pairs_of_key k l))
        × (s.height ≡ length l)
  unfolding front front_key count
  readers-Holds s l k h =
      let law = pairs_of_key-numbered k l in
      let here = entries-of_key s l k h in
      (
        ap (λ t. Option.map pair_of (first_of t)) h.heights
            ∙ first_of-map (numbered l)
            ∙ ap first (map-numbered l),
        ap (λ t. Option.map pair_of (first_of t)) here
            ∙ first_of-map (of_key o k (numbered l))
            ∙ ap first law,
        ap length here ∙ sym (length-map (of_key o k (numbered l)) pair_of) ∙ ap length law,
        h.used k ∙ occurs-map (of_key o k (numbered l)) ∙ ap occurs law,
        h.size,
      )
