-- ===== src/Queue/Tests.antt =====
-- SimpleQueue.c at concrete inputs.
use mimuw.Prelude.{ℕ, ◌≡◌, refl, true, Option, none, some, [], ◌∷◌, arith}
use mimuw.Prelude.Int.{pos}
use mimuw.Queue.Simple.{Item, SimpleQueue, item, put, empty_value, push, delete}
use mimuw.Queue.Contents.{Holds, Chain, Pops, push-Holds, pop-Pops}
use mimuw.Queue.Deleted.{delete-Freed}

-- A queue with one value, in the node at the address 1.
abbrev one_queue : SimpleQueue
one_queue = record {
  head = 0;
  tail = some 1;
  nodes = put (put (λ a. none) 0 (some (item (some 1) empty_value))) 1 (some (item none (pos 7)));
  count = 2;
}

one-Holds : Holds one_queue (pos 7 ∷ [])
unfolding Chain
one-Holds = record {
  last = 1;
  first = empty_value;
  tail = refl;
  chain = (1, refl, omega arith, (refl, refl, omega arith));
}

push-Holds_example :
    (q' : SimpleQueue) × (push true (pos 8) one_queue ≡ some q') × Holds q' (pos 7 ∷ pos 8 ∷ [])
push-Holds_example = push-Holds one_queue (pos 7 ∷ []) (pos 8) one-Holds

pop-Pops_example : Pops one_queue (pos 7 ∷ [])
pop-Pops_example = pop-Pops one_queue (pos 7 ∷ []) one-Holds

delete-Freed_example :
    (m' : ℕ → Option Item) × (delete one_queue ≡ some m')
    × (m' one_queue.head ≡ none)
    × (m' one-Holds.last ≡ none)
delete-Freed_example = delete-Freed one_queue (pos 7 ∷ []) one-Holds
