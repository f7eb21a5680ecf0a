-- ===== src/KeyStack/Contents.antt =====
-- What a stack of stack.h holds, in the order of the pushes, and what push and pop do to it.
use mathlib.Core.Path.{subst}
use mimuw.Prelude.{suc, ◌≡◌, refl, ap, sym, ◌∙◌, arith, Bool, true, false}
use mimuw.Prelude.{Option, none, some, List, [], ◌∷◌, length, if◌then◌else◌}
use mimuw.Prelude.{◌||◌}
use mimuw.Prelude.{Bool-cases, inl, inr}
use mimuw.KeyStack.Keys.{KeyOrder, same, same_refl, same-eq, same_swap, contains_key, Ascending}
use mimuw.KeyStack.Keys.{contains-insert_key, insert_key-Ascending, contains-erase_key}
use mimuw.KeyStack.Keys.{erase_key-Ascending}
use mimuw.KeyStack.Inner.{Element, Inner, empty, entries, insert_element, erase_element, push}
use mimuw.KeyStack.Inner.{pop, pop_key, push_all, copy, without, pop_of}
use mimuw.KeyStack.Inner.{pop_first, pop_entry}

-- The elements of a list of keys and values, the newest first
unfoldable pub numbered : {K V : Type 0} → List (K × V) → List (Element K V)
numbered [] = []
numbered ((k, v) ∷ l) = record { key = k; value = v; height = length l } ∷ numbered l

-- A key has no stack in the map, or one that is not empty.
abbrev pub unless_empty : {A : Type 0} → List A → Option (List A)
unless_empty [] = none
unless_empty (x ∷ xs) = some (x ∷ xs)

abbrev pub occurs : {A : Type 0} → List A → Bool
occurs [] = false
occurs (x ∷ xs) = true

pub entries-unless_empty : {A : Type 0} (l : List A) → entries (unless_empty l) ≡ l
entries-unless_empty [] = refl
entries-unless_empty (x ∷ xs) = refl

occurs_if :
    {A : Type 0} (b : Bool) (x : A) (xs : List A)
    → occurs (if b then x ∷ xs else xs) ≡ (b || occurs xs)
occurs_if true x xs = refl
occurs_if false x xs = refl

module _ {K V : Type 0} (o : KeyOrder K) where
  unfoldable pub of_key : K → List (Element K V) → List (Element K V)
  of_key k [] = []
  of_key k (e ∷ es) = let rest = of_key k es in if same o k e.key then e ∷ rest else rest

  -- The stack holds the keys and values of `l`, the newest first.
  pub record Holds (s : Inner K V) (l : List (K × V)) : Type 0 where
    pub heights : s.element_set ≡ numbered l
    pub size : s.height ≡ length l
    pub stacks : (k : K) → s.element_map k ≡ unless_empty (of_key k (numbered l))
    pub ascending : Ascending o s.keys
    pub used : (k : K) → contains_key o k s.keys ≡ occurs (of_key k (numbered l))

  pub empty-Holds : Holds empty []
  unfolding numbered of_key contains_key Ascending
  empty-Holds = record {
    heights = refl;
    size = refl;
    stacks = λ k. refl;
    ascending = tt;
    used = λ k. refl;
  }

  insert-numbered :
      (e : Element K V) (l : List (K × V))
      → e.height ≡ length l
      → insert_element e (numbered l) ≡ e ∷ numbered l
  unfolding insert_element numbered
  insert-numbered e [] h = refl
  insert-numbered e ((k, v) ∷ l) h = ground arith

  -- `push` puts its pair on the top.
  pub push-Holds :
      (k : K) (v : V) (s : Inner K V) (l : List (K × V))
      → Holds s l
      → Holds (push o k v s) ((k, v) ∷ l)
  unfolding push numbered of_key
  push-Holds k v s l h = record {
    heights = rw (h.heights, h.size) (insert-numbered _ l refl);
    size = ap suc h.size;
    stacks = λ k'. elim (Bool-cases (same o k k')) [
      | inl e ↦
          rw
            (
              same_swap o k' k,
              e,
              h.size,
              h.stacks k,
              entries-unless_empty (of_key k (numbered l)),
              same-eq o k k' e,
            )
            refl
      | inr e ↦ rw (same_swap o k' k, e) (h.stacks k')
    ];
    ascending = insert_key-Ascending o k s.keys h.ascending;
    used = λ k'.
        contains-insert_key o k k' s.keys
        ∙ ap (λ b. same o k' k || b) (h.used k')
        ∙ sym (occurs_if (same o k' k) _ (of_key k' (numbered l)));
  }

  abbrev pub top : K → V → List (K × V) → Element K V
  top k v l = record { key = k; value = v; height = length l }

  erase-numbered :
      (k : K) (v : V) (l : List (K × V))
      → erase_element (top k v l) (numbered ((k, v) ∷ l)) ≡ numbered l
  unfolding erase_element numbered
  erase-numbered k v l = ground arith

  pub top-of_key :
      (k : K) (v : V) (l : List (K × V))
      → of_key k (numbered ((k, v) ∷ l)) ≡ top k v l ∷ of_key k (numbered l)
  unfolding of_key numbered
  top-of_key k v l = rw (same_refl o k) refl

  pub other_of_key :
      (k k' : K) (v : V) (l : List (K × V))
      → same o k k' ≡ false
      → of_key k' (numbered ((k, v) ∷ l)) ≡ of_key k' (numbered l)
  unfolding of_key numbered
  other_of_key k k' v l e = rw (same_swap o k' k, e) refl

  without-Holds :
      (k : K) (v : V) (s : Inner K V) (l : List (K × V))
      → Holds s ((k, v) ∷ l)
      → Holds (without o (top k v l) (of_key k (numbered l)) s) l
  unfolding of_key numbered
  without-Holds k v s l h = go (of_key k (numbered l)) refl
    where
      go :
          (r : List (Element K V)) → of_key k (numbered l) ≡ r → Holds (without o (top k v l) r s) l
      go [] e = record {
        heights = rw h.heights (erase-numbered k v l);
        size = rw h.size (ground arith);
        stacks = λ k'. elim (Bool-cases (same o k k')) [
          | inl y ↦ rw (y, sym (same-eq o k k' y), e) refl
          | inr n ↦ rw n (h.stacks k' ∙ ap unless_empty (other_of_key k k' v l n))
        ];
        ascending = erase_key-Ascending o k s.keys h.ascending;
        used = λ k'.
            contains-erase_key o k k' s.keys h.ascending ∙ elim (Bool-cases (same o k k')) [
              | inl y ↦ rw (same_swap o k' k, y, sym (same-eq o k k' y), e) (ground arith)
              | inr n ↦
                  rw (same_swap o k' k, n) (ground (arith, h.used k', other_of_key k k' v l n))
            ];
      }
      go (x ∷ xs) e = record {
        heights = rw h.heights (erase-numbered k v l);
        size = rw h.size (ground arith);
        stacks = λ k'. elim (Bool-cases (same o k k')) [
          | inl y ↦ rw (y, sym (same-eq o k k' y), e) refl
          | inr n ↦ rw n (h.stacks k' ∙ ap unless_empty (other_of_key k k' v l n))
        ];
        ascending = h.ascending;
        used = λ k'. h.used k' ∙ elim (Bool-cases (same o k k')) [
          | inl y ↦
              let back = sym (same-eq o k k' y) in
              ap (λ t. occurs (of_key t (numbered ((k, v) ∷ l)))) back
              ∙ ap occurs (top-of_key k v l)
              ∙ sym (ap (λ t. occurs (of_key t (numbered l))) back ∙ ap occurs e)
          | inr n ↦ ap occurs (other_of_key k k' v l n)
        ];
      }

  abbrev below : K → V → List (K × V) → Inner K V → Inner K V
  below k v l s = without o (top k v l) (of_key k (numbered l)) s

  stack_top :
      (k : K) (v : V) (s : Inner K V) (l : List (K × V))
      → Holds s ((k, v) ∷ l)
      → s.element_map k ≡ some (top k v l ∷ of_key k (numbered l))
  stack_top k v s l h = h.stacks k ∙ ap unless_empty (top-of_key k v l)

  -- `pop` of a stack that is not empty takes off the pair that was pushed last, and so does `pop`
  -- with the key of that pair.
  pub pop-Holds :
      (k : K) (v : V) (s : Inner K V) (l : List (K × V))
      → Holds s ((k, v) ∷ l)
      → (s' : Inner K V) × (pop o s ≡ some s') × (pop_key o k s ≡ some s') × Holds s' l
  unfolding pop pop_key numbered
  pop-Holds k v s l h = (
    below k v l s,
    ap (λ t. pop_first o t s) h.heights
        ∙ ap (λ t. pop_entry o (top k v l) (entries t) s) (stack_top k v s l h),
    ap (λ t. pop_of o (entries t) s) (stack_top k v s l h),
    without-Holds k v s l h,
  )

  -- The list that the copy constructor pushes again
  push_all-Holds : (l : List (K × V)) → Holds (push_all o (numbered l) empty) l
  unfolding push_all numbered
  push_all-Holds [] = empty-Holds
  push_all-Holds ((k, v) ∷ l) = push-Holds k v _ l (push_all-Holds l)

  unreferenced-Holds :
      (s : Inner K V) (l : List (K × V)) → Holds s l → Holds (record s { was_referenced = false }) l
  unreferenced-Holds s l h = record {
    heights = h.heights;
    size = h.size;
    stacks = h.stacks;
    ascending = h.ascending;
    used = h.used;
  }

  -- A copy holds the same pairs in the same order, and is not referenced.
  pub copy-Holds :
      (s : Inner K V) (l : List (K × V))
      → Holds s l
      → Holds (copy o s) l × ((copy o s).was_referenced ≡ false)
  unfolding copy
  copy-Holds s l h = (
    subst (λ t. Holds (record (push_all o t empty) { was_referenced = false }) l) (sym h.heights)
        (unreferenced-Holds _ l (push_all-Holds l)),
    refl,
  )
