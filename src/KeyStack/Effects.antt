-- ===== src/KeyStack/Effects.antt =====
-- What the calls of stack.h do to the pairs that an inner stack holds.
use mathlib.Core.Option
use mathlib.Core.Path.{subst}
use mimuw.Prelude.{◌≡◌, refl, ap, sym, ◌∙◌, arith, true, false}
use mimuw.Prelude.{Option, none, some, List, [], ◌∷◌, ◌==◌, if◌then◌else◌, Bool-cases, inl, inr}
use mimuw.Prelude.{length}
use mimuw.KeyStack.Keys.{KeyOrder, same, same-eq}
use mimuw.KeyStack.Inner.{Element, Inner, empty, push, reference, front, front_key}
use mimuw.KeyStack.Contents.{Holds, empty-Holds, push-Holds, pop-Holds, occurs}
use mimuw.KeyStack.Readers.{readers-Holds, pairs_of_key, own_key, first, pair_of}
use mimuw.KeyStack.Shared.{Action, push_pair, pop_last, pop_last_of}
use mimuw.KeyStack.Shared.{ask_front, ask_front_of, clear, refuses, effect, referenced}

occurs-length : {A : Type 0} (m : List A) → occurs m ≡ true → (length m == 0) ≡ false
occurs-length [] h = absurd (ground arith)
occurs-length (x ∷ m) h = ground arith

module _ {K V : Type 0} (o : KeyOrder K) where
  -- The call on a list of keys and values, newest first. For `pop` of a key it is defined when the
  -- top has the key.
  unfoldable pub on_list : Action K V → List (K × V) → Option (List (K × V))
  on_list (push_pair k v) l = some ((k, v) ∷ l)
  on_list pop_last [] = none
  on_list pop_last (p ∷ l) = some l
  on_list (pop_last_of k) [] = none
  on_list (pop_last_of k) ((k', v) ∷ l) = if same o k' k then some l else none
  on_list ask_front [] = none
  on_list ask_front (p ∷ l) = some (p ∷ l)
  on_list (ask_front_of k) l = if occurs (pairs_of_key o k l) then some l else none
  on_list clear l = some []

  abbrev pub Works : Action K V → Inner K V → List (K × V) → Type 0
  Works c s l = (refuses o c s ≡ false) × (s' : Inner K V) × (effect o c s ≡ some s') × Holds o s' l

  reference-Holds : (s : Inner K V) (l : List (K × V)) → Holds o s l → Holds o (reference s) l
  reference-Holds s l h = record {
    heights = h.heights;
    size = h.size;
    stacks = h.stacks;
    ascending = h.ascending;
    used = h.used;
  }

  first-occurs : (m : List (K × V)) → occurs m ≡ true → (p : K × V) × (first o m ≡ some p)
  first-occurs [] h = absurd (ground arith)
  first-occurs (p ∷ m) h = (p, refl)

  referenced-pair :
      (e : Option (Element K V)) (s : Inner K V) (p : K × V)
      → Option.map (pair_of o) e ≡ some p
      → referenced e s ≡ some (reference s)
  referenced-pair none s p h = absurd (ground arith)
  referenced-pair (some e) s p h = refl

  pub effect-Holds :
      (c : Action K V) (s : Inner K V) (l l' : List (K × V))
      → Holds o s l
      → on_list c l ≡ some l'
      → Works c s l'
  unfolding effect on_list
  effect-Holds (push_pair k v) s l l' h e = (
    refl,
    push o k v s,
    refl,
    subst (Holds o (push o k v s)) (Option.some-injective _ _ e) (push-Holds o k v s l h),
  )
  effect-Holds pop_last s [] l' h e = absurd (ground arith)
  effect-Holds pop_last s ((k, v) ∷ l) l' h e =
      let (s', p, pk, held) = pop-Holds o k v s l h in
      (ground (arith, h.size), s', p, subst (Holds o s') (Option.some-injective l l' e) held)
  effect-Holds (pop_last_of k) s [] l' h e = absurd (ground arith)
  effect-Holds (pop_last_of k) s ((k', v) ∷ l) l' h e = elim (Bool-cases (same o k' k)) [
    | inr n ↦ absurd (ground arith)
    | inl y ↦
        let (s', p, pk, held) = pop-Holds o k' v s l h in
        let law = readers-Holds o s ((k', v) ∷ l) k' h in
        subst (λ t. Works (pop_last_of t) s l') (same-eq o k' k y)
          (
            ap (λ n. n == 0) law.2 ∙ occurs-length _ (own_key o k' v l),
            s',
            pk,
            subst (Holds o s')
                (Option.some-injective l l' (sym (ap (λ b. if b then some l else none) y) ∙ e))
                held,
          )
  ]
  effect-Holds ask_front s [] l' h e = absurd (ground arith)
  effect-Holds ask_front s ((k, v) ∷ l) l' h e = (
    ground (arith, h.size),
    reference s,
    referenced-pair (front s) s (k, v) (readers-Holds o s ((k, v) ∷ l) k h).0,
    subst (Holds o (reference s)) (Option.some-injective _ _ e) (reference-Holds s ((k, v) ∷ l) h),
  )
  effect-Holds (ask_front_of k) s l l' h e = elim (Bool-cases (occurs (pairs_of_key o k l))) [
    | inr n ↦ absurd (ground arith)
    | inl y ↦
        let law = readers-Holds o s l k h in
        let (p, top) = first-occurs (pairs_of_key o k l) y in
        (
          ap (λ n. n == 0) law.2 ∙ occurs-length _ y,
          reference s,
          referenced-pair (front_key k s) s p (law.1 ∙ top),
          subst (Holds o (reference s))
              (Option.some-injective l l' (sym (ap (λ b. if b then some l else none) y) ∙ e))
              (reference-Holds s l h),
        )
  ]
  effect-Holds clear s l l' h e =
      (refl, empty, refl, subst (Holds o empty) (Option.some-injective _ _ e) (empty-Holds o))
