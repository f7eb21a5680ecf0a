-- ===== src/Poset/Ids.antt =====
-- The numbers of the posets of poset.cc, and the invariant of the state that every call keeps.
use mimuw.Prelude.{ℕ, suc, ◌+◌, ◌≡◌, ◌≢◌, refl, ap, sym, ◌∙◌, arith, Bool, true, false}
use mimuw.Prelude.{Option, none, some, List, [], ◌∷◌, ◌++◌, ◌==◌, ltb, if◌then◌else◌, Bool-cases}
use mimuw.Prelude.{inl, inr, ◌⊎◌, ==_iff}
use mathlib.Core.Path.{subst}
use mathlib.Core.Option
use mimuw.Poset.Messages
use mimuw.Poset.Messages.{Config}
use mimuw.Poset.State.{Poset, empty_poset, State, initial, log, insert_new, set_at}
use mimuw.Poset.Operations.{take_id, poset_new}
use mimuw.Poset.Writes.{IsPoset, empty_poset-IsPoset}

-- How often a number stands in a queue
unfoldable pub count : List ℕ → ℕ → ℕ
count [] k = 0
count (x ∷ xs) k = (if x == k then 1 else 0) + count xs k

abbrev pub live : Option Poset → ℕ
live none = 0
live (some p) = 1

-- Every poset is valid. A number below the counter is that of one poset, or stands once in the
-- queue; another number is neither.
pub record IsValid (s : State) : Type 0 where
  pub posets : (id : ℕ) (p : Poset) → s.posets id ≡ some p → IsPoset p
  pub numbered :
      (k : ℕ) → count s.available k + live (s.posets k) ≡ (if ltb k s.next_id then 1 else 0)

pub initial-IsValid : IsValid initial
unfolding count
initial-IsValid = record { posets = λ id p e. cc; numbered = λ k. ground arith }

pub count-append :
    (l : List ℕ) (x k : ℕ) → count (l ++ x ∷ []) k ≡ count l k + (if x == k then 1 else 0)
unfolding count
count-append [] x k = ground arith
count-append (y ∷ l) x k = omega (arith, count-append l x k)

live-none : (o : Option Poset) → live o ≡ 0 → o ≡ none
live-none none e = refl
live-none (some p) e = absurd (omega arith)

-- A state that differs in its messages alone
pub logged-IsValid :
    (s s' : State)
    → s'.posets ≡ s.posets
    → s'.available ≡ s.available
    → s'.next_id ≡ s.next_id
    → IsValid s
    → IsValid s'
logged-IsValid s s' e q n v = record {
  posets = λ id p h. v.posets id p (ap (λ f. f id) (sym e) ∙ h);
  numbered = λ k. rw (e, q, n) (v.numbered k);
}

abbrev Numbered : List ℕ → (ℕ → Option Poset) → ℕ → Type 0
Numbered l f n = (k : ℕ) → count l k + live (f k) ≡ (if ltb k n then 1 else 0)

fresh-free :
    (f : ℕ → Option Poset) (n : ℕ)
    → Numbered [] f n
    → (live (f n) ≡ 0)
      × ((k : ℕ)
          → count [] k + (if n == k then 1 else live (f k)) ≡ (if ltb k (suc n) then 1 else 0))
unfolding count
fresh-free f n h = (ground (arith, h n), λ k. ground (arith, h k))

recycled-free :
    (x : ℕ) (xs : List ℕ) (f : ℕ → Option Poset) (n : ℕ)
    → Numbered (x ∷ xs) f n
    → (live (f x) ≡ 0)
      × ((k : ℕ) → count xs k + (if x == k then 1 else live (f k)) ≡ (if ltb k n then 1 else 0))
unfolding count
recycled-free x xs f n h = (ground (arith, h x), λ k. ground (arith, h k))

-- The number that `poset_new` takes was free, and is so no more.
take_id-free :
    (s : State)
    → IsValid s
    → (live (s.posets (take_id s).0) ≡ 0)
      × ((take_id s).1.posets ≡ s.posets)
      × ((k : ℕ)
          → count (take_id s).1.available k + (if (take_id s).0 == k then 1 else live (s.posets k))
            ≡ (if ltb k (take_id s).1.next_id then 1 else 0))
unfolding take_id count
take_id-free s v = go s.available refl
  where
    at : (l : List ℕ) → s.available ≡ l → Numbered l s.posets s.next_id
    at l e k = ap (λ t. count t k + live (s.posets k)) (sym e) ∙ v.numbered k

    go :
        (l : List ℕ)
        → s.available ≡ l
        → (live (s.posets (take_id s).0) ≡ 0)
          × ((take_id s).1.posets ≡ s.posets)
          × ((k : ℕ)
              → count (take_id s).1.available k
                  + (if (take_id s).0 == k then 1 else live (s.posets k))
                ≡ (if ltb k (take_id s).1.next_id then 1 else 0))
    go [] e =
        let (none_there, law) = fresh-free s.posets s.next_id (at [] e) in
        rw e (none_there, refl, law)
    go (x ∷ xs) e =
        let (none_there, law) = recycled-free x xs s.posets s.next_id (at (x ∷ xs) e) in
        rw e (none_there, refl, law)

insert_new-absent :
    (f : ℕ → Option Poset) (id k : ℕ)
    → f id ≡ none
    → insert_new f id k ≡ (if id == k then some empty_poset else f k)
insert_new-absent f id k e = rw e refl

same-IsPoset : (o : Option Poset) (p p' : Poset) → o ≡ some p → o ≡ some p' → IsPoset p → IsPoset p'
same-IsPoset o p p' e e' v = subst IsPoset (Option.some-injective p p' (sym e ∙ e')) v

live_if :
    (b : Bool) (p : Poset) (o : Option Poset)
    → live (if b then some p else o) ≡ (if b then 1 else live o)
live_if true p o = refl
live_if false p o = refl

module _ (c : Config) (s : State) (v : IsValid s) where
  s1 : State
  s1 = log (Messages.one_arg_func_name c "poset_new" 0) s

  s1-IsValid : IsValid s1
  unfolding s1
  s1-IsValid = logged-IsValid s s1 refl refl refl v

  new_posets :
      (k : ℕ)
      → (poset_new c s).1.posets k
        ≡ (if (poset_new c s).0 == k then some empty_poset else s.posets k)
  unfolding poset_new s1
  new_posets k =
      let (l, same, law) = take_id-free s1 s1-IsValid in
      ap (λ f. insert_new f (take_id s1).0 k) same
      ∙ insert_new-absent s.posets (take_id s1).0 k (live-none _ l)

  -- The poset that `poset_new` makes is empty, has a number that no other one has, and leaves the
  -- others alone.
  pub poset_new-unused :
      (s.posets (poset_new c s).0 ≡ none)
      × ((k : ℕ)
          → (poset_new c s).1.posets k
            ≡ (if (poset_new c s).0 == k then some empty_poset else s.posets k))
  unfolding poset_new s1
  poset_new-unused =
      (live-none (s.posets (take_id s1).0) (take_id-free s1 s1-IsValid).0, new_posets)

  pub poset_new-IsValid : IsValid (poset_new c s).1
  unfolding poset_new s1
  poset_new-IsValid = record {
    posets = λ id p h. go id p (Bool-cases _) (sym (new_posets id) ∙ h);
    numbered = λ k.
        ap (λ o. count (poset_new c s).1.available k + live o) (new_posets k)
        ∙ ap (λ n. count (poset_new c s).1.available k + n)
            (live_if ((poset_new c s).0 == k) empty_poset (s.posets k))
        ∙ (take_id-free s1 s1-IsValid).2 k;
  }
    where
      go :
          (id : ℕ) (p : Poset)
          → ((poset_new c s).0 == id ≡ true) ⊎ ((poset_new c s).0 == id ≡ false)
          → (if (poset_new c s).0 == id then some empty_poset else s.posets id) ≡ some p
          → IsPoset p
      go id p (inl e) h =
          same-IsPoset _ empty_poset p (ap (λ b. if b then some empty_poset else s.posets id) e) h
            empty_poset-IsPoset
      go id p (inr e) h =
          v.posets id p (sym (ap (λ b. if b then some empty_poset else s.posets id) e) ∙ h)

pub put-IsValid :
    (s s' : State) (id : ℕ) (p p' : Poset)
    → s.posets id ≡ some p
    → s'.posets id ≡ some p'
    → IsPoset p'
    → ((k : ℕ) → k ≢ id → s'.posets k ≡ s.posets k)
    → s'.available ≡ s.available
    → s'.next_id ≡ s.next_id
    → IsValid s
    → IsValid s'
put-IsValid s s' id p p' e e' valid others q n v = record {
  posets = λ k p'' h. elim (Bool-cases (k == id)) [
    | inl same ↦
        same-IsPoset (s'.posets id) p' p'' e' (ap s'.posets (sym ((==_iff k id).0 same)) ∙ h) valid
    | inr ne ↦ v.posets k p'' (sym (others k (λ t. ground arith)) ∙ h)
  ];
  numbered = λ k. elim (Bool-cases (k == id)) [
    | inl same ↦
        ap (λ o. count s'.available k + live o) (ap s'.posets ((==_iff k id).0 same) ∙ e')
        ∙ ap (λ o. count s'.available k + live o) (sym (ap s.posets ((==_iff k id).0 same) ∙ e))
        ∙ rw (q, n) (v.numbered k)
    | inr ne ↦
        ap (λ o. count s'.available k + live o) (others k (λ t. ground arith))
        ∙ rw (q, n) (v.numbered k)
  ];
}

-- A poset is deleted, and its number waits.
pub drop-IsValid :
    (s s' : State) (id : ℕ) (p : Poset)
    → s.posets id ≡ some p
    → s'.posets ≡ set_at s.posets id none
    → s'.available ≡ s.available ++ id ∷ []
    → s'.next_id ≡ s.next_id
    → IsValid s
    → IsValid s'
drop-IsValid s s' id p e e' q n v =
    rw (e', q, n)
      (record {
        posets = λ k p' h. go k p' (Bool-cases (id == k)) h;
        numbered = λ k.
            ap (λ t. t + live (set_at s.posets id none k)) (count-append s.available id k)
            ∙ ground (arith, v.numbered k, moved k);
      })
  where
    moved : (k : ℕ) → id ≡ k → live (s.posets k) ≡ 1
    moved k t = ap (λ j. live (s.posets j)) (sym t) ∙ ap live e

    go :
        (k : ℕ) (p' : Poset)
        → (id == k ≡ true) ⊎ (id == k ≡ false)
        → set_at s.posets id none k ≡ some p'
        → IsPoset p'
    go k p' (inl same) h = absurd (ground arith)
    go k p' (inr ne) h = v.posets k p' (sym (ap (λ b. if b then none else s.posets k) ne) ∙ h)
