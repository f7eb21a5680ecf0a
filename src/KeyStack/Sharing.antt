-- ===== src/KeyStack/Sharing.antt =====
-- The objects of stack.h behave as if each had a stack of its own.
use mathlib.Core.Option
use mathlib.Core.Path.{subst}
use mimuw.Prelude.{ℕ, zero, suc, ◌<◌, ◌≡◌, ◌≢◌, refl, ap, sym, ◌∙◌, arith}
use mimuw.Prelude.{some, List, [], ◌∷◌, ◌==◌, Bool-cases, inl, inr, ==_iff}
use mimuw.Prelude.{get_elem?, set, get_elem?-set_self, get_elem?-set_ne, length}
use mimuw.KeyStack.Keys.{KeyOrder}
use mimuw.KeyStack.Contents.{Holds, copy-Holds}
use mimuw.KeyStack.Shared.{Store, Result, done, Action}
use mimuw.KeyStack.Shared.{uses, put, detach}
use mimuw.KeyStack.Shared.{perform, change_at, store_at}
use mimuw.KeyStack.Effects.{on_list, effect-Holds}

uses-positive : (l : List ℕ) (j a : ℕ) → get_elem? l j ≡ some a → 0 < uses l a
unfolding uses
uses-positive [] j a e = cc
uses-positive (x ∷ l) zero a e = let same_a = Option.some-injective x a e in ground arith
uses-positive (x ∷ l) (suc j) a e = let ih = uses-positive l j a e in ground arith

-- An address that is used once is used by one object.
uses-one :
    (l : List ℕ) (i j a b : ℕ)
    → get_elem? l i ≡ some a
    → get_elem? l j ≡ some b
    → uses l a ≡ 1
    → j ≢ i
    → b ≢ a
unfolding uses
uses-one [] i j a b e e' one ne h = cc
uses-one (x ∷ l) zero zero a b e e' one ne h = ne refl
uses-one (x ∷ l) zero (suc j) a b e e' one ne h =
    let xa = Option.some-injective x a e in
    let more = uses-positive l j a (e' ∙ ap some h) in ground arith
uses-one (x ∷ l) (suc i) zero a b e e' one ne h =
    let xb = Option.some-injective x b e' in let more = uses-positive l i a e in ground arith
uses-one (x ∷ l) (suc i) (suc j) a b e e' one ne h =
    let more = uses-positive l i a e in
    uses-one l i j a b e e' (ground arith) (λ t. ne (ap suc t)) h

pub get_elem?-lt : (l : List ℕ) (i a : ℕ) → get_elem? l i ≡ some a → i < length l
get_elem?-lt [] i a e = cc
get_elem?-lt (x ∷ l) zero a e = omega arith
get_elem?-lt (x ∷ l) (suc i) a e = omega (arith, get_elem?-lt l i a e)

pub put_same : {A : Type 0} (f : ℕ → A) (a : ℕ) (x : A) → put f a x a ≡ x
put_same f a x = ground arith

pub put_other : {A : Type 0} (f : ℕ → A) (a : ℕ) (x : A) (b : ℕ) → b ≢ a → put f a x b ≡ f b
put_other f a x b ne = ground arith

module _ {K V : Type 0} (o : KeyOrder K) where
  -- The pointers are to addresses that were handed out.
  abbrev pub IsStore : Store K V → Type 0
  IsStore st = (i a : ℕ) → get_elem? st.pointers i ≡ some a → a < st.next

  -- What an object holds
  pub record View (st : Store K V) (i : ℕ) (l : List (K × V)) : Type 0 where
    pub address : ℕ
    pub points : get_elem? st.pointers i ≡ some address
    pub holds : Holds o (st.inner address) l

  -- After `detach` object i alone has the address, and no object holds other pairs than before.
  record Detached (st : Store K V) (i : ℕ) (a : ℕ) (r : ℕ × Store K V) : Type 0 where
    points : get_elem? r.1.pointers i ≡ some r.0
    held : (l : List (K × V)) → Holds o (st.inner a) l → Holds o (r.1.inner r.0) l
    others :
        (j b : ℕ)
        → j ≢ i
        → get_elem? st.pointers j ≡ some b
        → (get_elem? r.1.pointers j ≡ some b) × (b ≢ r.0) × (r.1.inner b ≡ st.inner b)
    valid : IsStore r.1

  detach-Detached :
      (st : Store K V) (i a : ℕ)
      → IsStore st
      → get_elem? st.pointers i ≡ some a
      → Detached st i a (detach o i a st)
  unfolding detach
  detach-Detached st i a v e = elim (Bool-cases (uses st.pointers a == 1)) [
    | inl one ↦ rw one (record {
      points = e;
      held = λ l h. h;
      others = λ j b ne e'. (e', uses-one st.pointers i j a b e e' (ground arith) ne, refl);
      valid = v;
    })
    | inr shared ↦ rw shared (record {
      points = get_elem?-set_self st.pointers i st.next (get_elem?-lt st.pointers i a e);
      held = λ l h.
          subst (λ t. Holds o t l) (sym (put_same st.inner st.next _)) (copy-Holds o _ l h).0;
      others = λ j b ne e'.
          let fresh : b ≢ st.next = λ t. omega (arith, v j b e') in
          (
            get_elem?-set_ne st.pointers st.next (λ t. ne (sym t)) ∙ e',
            fresh,
            put_other st.inner st.next _ b fresh,
          );
      valid = λ j b e'. new_valid j b e';
    })
  ]
    where
      new_valid : (j b : ℕ) → get_elem? (set st.pointers i st.next) j ≡ some b → b < suc st.next
      new_valid j b e' = elim (Bool-cases (j == i)) [
        | inl y ↦
            let here = get_elem?-set_self st.pointers i st.next (get_elem?-lt st.pointers i a e) in
            let at_i = ap (get_elem? (set st.pointers i st.next)) (sym ((==_iff j i).0 y)) ∙ e' in
            omega (arith, Option.some-injective st.next b (sym here ∙ at_i))
        | inr n ↦
            let kept = get_elem?-set_ne st.pointers st.next (λ (t : i ≡ j). ground arith) in
            omega (arith, v j b (sym kept ∙ e'))
      ]

  -- What a call leaves: object i holds the new list, every other object holds what it held.
  pub record Performed (st : Store K V) (i : ℕ) (l' : List (K × V)) (r : Result K V) : Type 0 where
    pub after : Store K V
    pub returned : r ≡ done after
    pub valid : IsStore after
    pub view : View after i l'
    pub others : (j : ℕ) (l : List (K × V)) → j ≢ i → View st j l → View after j l

  change-Performed :
      (c : Action K V) (st : Store K V) (i a : ℕ) (l l' : List (K × V)) (r : ℕ × Store K V)
      → Detached st i a r
      → Holds o (st.inner a) l
      → on_list o c l ≡ some l'
      → Performed st i l' (change_at o c r)
  change-Performed c st i a l l' r d h e =
      let (_, s', applied, held) = effect-Holds o c (r.1.inner r.0) l l' (d.held l h) e in
      record {
        after = record r.1 { inner = put r.1.inner r.0 s' };
        returned = ap (store_at o r.0 r.1) applied;
        valid = d.valid;
        view = record {
          address = r.0;
          points = d.points;
          holds = subst (λ t. Holds o t l') (sym (put_same r.1.inner r.0 s')) held;
        };
        others = λ j m ne w.
            let (points, other, same_inner) = d.others j w.address ne w.points in
            record {
              address = w.address;
              points = points;
              holds =
                  subst (λ t. Holds o t m)
                    (sym (put_other r.1.inner r.0 s' w.address other ∙ same_inner)) w.holds;
            };
      }

  -- In a store whose pointers were handed out, a call on an object that holds a list of pairs, which
  -- the call has a meaning for, does to them what it should, throws nothing and meets no undefined
  -- behaviour, and every other object holds what it held.
  pub perform-Performed :
      (c : Action K V) (st : Store K V) (i : ℕ) (l l' : List (K × V))
      → IsStore st
      → View st i l
      → on_list o c l ≡ some l'
      → Performed st i l' (perform o c i st)
  unfolding perform
  perform-Performed c st i l l' v w e =
      rw (w.points, (effect-Holds o c (st.inner w.address) l l' w.holds e).0)
        (change-Performed c st i w.address l l' (detach o i w.address st)
          (detach-Detached st i w.address v w.points) w.holds e)
