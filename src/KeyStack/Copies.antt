-- ===== src/KeyStack/Copies.antt =====
-- The constructors and the assignment of the stacks of stack.h.
use mathlib.Core.Option
use mathlib.Core.Path.{subst}
use mimuw.Prelude.{ℕ, zero, suc, ◌<◌, ◌≡◌, ◌≢◌, refl, ap, sym, ◌∙◌, arith, true, false}
use mimuw.Prelude.{some, List, [], ◌∷◌, ◌++◌, ◌==◌, Bool-cases, inl, inr}
use mimuw.Prelude.{get_elem?, set, get_elem?-set_self, get_elem?-set_ne, length, ◌⊎◌, ==_iff}
use mimuw.KeyStack.Keys.{KeyOrder}
use mimuw.KeyStack.Inner.{Inner, empty, copy}
use mimuw.KeyStack.Contents.{Holds, empty-Holds, copy-Holds}
use mimuw.KeyStack.Shared.{Store, put, new_object, copy_object, assign}
use mimuw.KeyStack.Sharing.{IsStore, View, put_same, put_other}

get_elem?-append_end : (l : List ℕ) (a : ℕ) → get_elem? (l ++ a ∷ []) (length l) ≡ some a
get_elem?-append_end [] a = refl
get_elem?-append_end (x ∷ l) a = get_elem?-append_end l a

get_elem?-append_before :
    (l : List ℕ) (a j b : ℕ) → get_elem? l j ≡ some b → get_elem? (l ++ a ∷ []) j ≡ some b
get_elem?-append_before [] a j b e = cc
get_elem?-append_before (x ∷ l) a zero b e = e
get_elem?-append_before (x ∷ l) a (suc j) b e = get_elem?-append_before l a j b e

get_elem?-append_cases :
    (l : List ℕ) (a j b : ℕ)
    → get_elem? (l ++ a ∷ []) j ≡ some b
    → (get_elem? l j ≡ some b) ⊎ (b ≡ a)
get_elem?-append_cases [] a zero b e = inr (sym (Option.some-injective a b e))
get_elem?-append_cases [] a (suc j) b e = cc
get_elem?-append_cases (x ∷ l) a zero b e = inl e
get_elem?-append_cases (x ∷ l) a (suc j) b e = get_elem?-append_cases l a j b e

module _ {K V : Type 0} (o : KeyOrder K) where
  -- A new object holds `l`, and the other objects hold what they held.
  pub record Created (st : Store K V) (l : List (K × V)) (st' : Store K V) : Type 0 where
    pub valid : IsStore o st'
    pub view : View o st' (length st.pointers) l
    pub others : (j : ℕ) (m : List (K × V)) → View o st j m → View o st' j m

  abbrev fresh : Inner K V → Store K V → Store K V
  fresh s st = record {
    inner = put st.inner st.next s;
    pointers = st.pointers ++ st.next ∷ [];
    next = suc st.next;
  }

  fresh-Created :
      (s : Inner K V) (st : Store K V) (l : List (K × V))
      → IsStore o st
      → Holds o s l
      → Created st l (fresh s st)
  fresh-Created s st l v h = record {
    valid = λ j b e. elim (get_elem?-append_cases st.pointers st.next j b e) [
      | inl e' ↦ omega (arith, v j b e')
      | inr e' ↦ omega arith
    ];
    view = record {
      address = st.next;
      points = get_elem?-append_end st.pointers st.next;
      holds = subst (λ t. Holds o t l) (sym (put_same st.inner st.next s)) h;
    };
    others = λ j m w. record {
      address = w.address;
      points = get_elem?-append_before st.pointers st.next j w.address w.points;
      holds =
          subst (λ t. Holds o t m)
            (sym
              (put_other st.inner st.next s w.address (λ t. omega (arith, v j w.address w.points))))
            w.holds;
    };
  }

  -- A stack begins empty.
  pub new_object-Created : (st : Store K V) → IsStore o st → Created st [] (new_object o st)
  unfolding new_object
  new_object-Created st v = fresh-Created empty st [] v (empty-Holds o)

  -- A copy of an object, shared or not, holds the same pairs.
  pub copy_object-Created :
      (st : Store K V) (i : ℕ) (l : List (K × V)) (w : View o st i l)
      → IsStore o st
      → Created st l (copy_object o w.address st)
  unfolding copy_object copy
  copy_object-Created st i l w v = elim (Bool-cases (st.inner w.address).was_referenced) [
    | inl e ↦ rw e (fresh-Created _ st l v (copy-Holds o _ l w.holds).0)
    | inr e ↦ rw e (record {
      valid = λ j b e'. elim (get_elem?-append_cases st.pointers w.address j b e') [
        | inl e'' ↦ v j b e''
        | inr e'' ↦ omega (arith, v i w.address w.points)
      ];
      view = record {
        address = w.address;
        points = get_elem?-append_end st.pointers w.address;
        holds = w.holds;
      };
      others = λ j m w'. record {
        address = w'.address;
        points = get_elem?-append_before st.pointers w.address j w'.address w'.points;
        holds = w'.holds;
      };
    })
  ]

  -- After an assignment the object holds what the assigned one holds, and the others what they held.
  pub assign-View :
      (st : Store K V) (i j : ℕ) (l : List (K × V)) (w : View o st j l)
      → IsStore o st
      → i < length st.pointers
      → IsStore o (assign o i w.address st)
        × View o (assign o i w.address st) i l
        × ((k : ℕ) (m : List (K × V))
            → k ≢ i
            → View o st k m
            → View o (assign o i w.address st) k m)
  assign-View st i j l w v bound = (
    λ k b e. go k b e (Bool-cases (k == i)),
    record {
      address = w.address;
      points = get_elem?-set_self st.pointers i w.address bound;
      holds = w.holds;
    },
    λ k m ne u. record {
      address = u.address;
      points = get_elem?-set_ne st.pointers w.address (λ t. ne (sym t)) ∙ u.points;
      holds = u.holds;
    },
  )
    where
      go :
          (k b : ℕ)
          → get_elem? (set st.pointers i w.address) k ≡ some b
          → (k == i ≡ true) ⊎ (k == i ≡ false)
          → b < st.next
      go k b e (inl y) =
          let here = get_elem?-set_self st.pointers i w.address bound in
          let at_i = ap (get_elem? (set st.pointers i w.address)) (sym ((==_iff k i).0 y)) ∙ e in
          omega (arith, Option.some-injective w.address b (sym here ∙ at_i), v j w.address w.points)
      go k b e (inr n) =
          let kept = get_elem?-set_ne st.pointers w.address (λ (t : i ≡ k). ground arith) in
          v k b (sym kept ∙ e)
