-- ===== src/KeyStack/Tests.antt =====
-- Runs of the stacks of stack.h, and examples of the theorems.
use mimuw.Prelude.{ℕ, suc, ◌≡◌, refl, Option, none, some}
use mimuw.Prelude.{List, [], ◌∷◌}
use mimuw.KeyStack.Keys.{by_number}
use mimuw.KeyStack.Inner.{Inner, empty, push, pop, pop_key, front}
use mimuw.KeyStack.Contents.{Holds, empty-Holds, push-Holds}
use mimuw.KeyStack.Readers.{pairs_of_key}
use mimuw.KeyStack.Heights.{push-pop_key}
use mimuw.KeyStack.Shared.{Store, push_pair, new_object, copy_object, perform}
use mimuw.KeyStack.Sharing.{IsStore, View, Performed, perform-Performed}
use mimuw.KeyStack.Effects.{on_list}
use mimuw.KeyStack.Copies.{Created, new_object-Created, copy_object-Created}

abbrev pairs : List (ℕ × ℕ)
pairs = (1, 30) ∷ (2, 20) ∷ (1, 10) ∷ []

abbrev three : Inner ℕ ℕ
three = push by_number 1 30 (push by_number 2 20 (push by_number 1 10 empty))

three-Holds : Holds by_number three pairs
three-Holds =
    push-Holds by_number 1 30 _ _
      (push-Holds by_number 2 20 _ _ (push-Holds by_number 1 10 _ _ (empty-Holds by_number)))

push-pop_key_example :
    (s' : Inner ℕ ℕ) × (pop_key by_number 2 three ≡ some s')
    × ((q w : ℕ)
        → ((push by_number q w s').element_set ≡ s'.element_set)
          × (front (push by_number q w s') ≡ front three)
          × ((push by_number q w s').height ≡ suc 2))
unfolding pairs_of_key
push-pop_key_example =
    push-pop_key by_number 1 2 30 three ((2, 20) ∷ (1, 10) ∷ []) three-Holds refl refl

-- Push a and b, pop a, push c: two elements by the size, and the second pop has none to take.
abbrev after_push : Option (Inner ℕ ℕ) → Option (Inner ℕ ℕ)
after_push none = none
after_push (some s) = some (push by_number 3 3 s)

abbrev after_pop : Option (Inner ℕ ℕ) → Option (Inner ℕ ℕ)
after_pop none = none
after_pop (some s) = pop by_number s

abbrev size_of : Option (Inner ℕ ℕ) → Option ℕ
size_of none = none
size_of (some s) = some s.height

abbrev lost : Option (Inner ℕ ℕ)
lost = after_push (pop_key by_number 1 (push by_number 2 2 (push by_number 1 1 empty)))

lost_pops :
    (size_of lost ≡ some 2)
    × (size_of (after_pop lost) ≡ some 1)
    × (size_of (after_pop (after_pop lost)) ≡ none)
unfolding push pop pop_key
lost_pops = (refl, refl, refl)

-- Two objects that share a stack
abbrev no_objects : Store ℕ ℕ
no_objects = record { inner = λ a. empty; pointers = []; next = 0 }

no_objects-IsStore : IsStore by_number no_objects
no_objects-IsStore i a e = cc

abbrev one : Store ℕ ℕ
one = new_object by_number no_objects

one-Created : Created by_number no_objects [] one
one-Created = new_object-Created by_number no_objects no_objects-IsStore

abbrev two : Store ℕ ℕ
two = copy_object by_number one-Created.view.address one

two-Created : Created by_number one [] two
two-Created = copy_object-Created by_number one 0 [] one-Created.view one-Created.valid

two-View : View by_number two 0 []
two-View = two-Created.others 0 [] one-Created.view

perform-Performed_example :
    Performed by_number two 0 ((5, 50) ∷ []) (perform by_number (push_pair 5 50) 0 two)
unfolding on_list
perform-Performed_example =
    perform-Performed by_number (push_pair 5 50) two 0 [] ((5, 50) ∷ []) two-Created.valid two-View
      refl
