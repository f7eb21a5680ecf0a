-- ===== src/Queue/Simple.antt =====
-- SimpleQueue.c: a linked list with a dummy node, one lock for its head and one for its tail. The
-- operations are modelled one at a time, each from taking its lock to releasing it.
use mimuw.Prelude.{ℕ, zero, suc, Bool, true, false, Option, none, some, ◌>>=◌, ◌==◌, if◌then◌else◌}
use mimuw.Prelude.Int.{ℤ, pos}

-- `struct SimpleQueueNode`
pub record Item : Type 0 where
  pub next : Option ℕ
  pub value : ℤ

abbrev pub item : Option ℕ → ℤ → Item
item n v = record { next = n; value = v }

-- `struct SimpleQueue`, and the nodes on the heap: `nodes a` is the node at the address `a`, `none`
-- where nothing is allocated. Addresses from `count` on were never used. A `tail` of `none` is NULL.
pub record SimpleQueue : Type 0 where
  pub head : ℕ
  pub tail : Option ℕ
  pub nodes : ℕ → Option Item
  pub count : ℕ

-- `EMPTY_VALUE`
abbrev pub empty_value : ℤ
empty_value = pos 0

abbrev pub put : (ℕ → Option Item) → ℕ → Option Item → ℕ → Option Item
put m a v b = if a == b then v else m b

-- `SimpleQueue_new`, given whether its two allocations succeed; NULL is `none`.
unfoldable pub new : (queue_ok node_ok : Bool) → Option SimpleQueue
new false node_ok = none
new true false = none
new true true = some (record {
  head = 0;
  tail = some 0;
  nodes = put (λ a. none) 0 (some (item none empty_value));
  count = 1;
})

-- `SimpleQueueNode_new`: the address, or NULL, and the heap and its first unused address.
abbrev pub node_new : Bool → ℤ → SimpleQueue → Option ℕ × SimpleQueue
node_new true v q = (
  some q.count,
  record q { nodes = put q.nodes q.count (some (item none v)); count = suc q.count },
)
node_new false v q = (none, q)

-- The two writes of `SimpleQueue_push`. A read through NULL or a freed pointer is a fault, `none`.
unfoldable pub link : Option ℕ × SimpleQueue → Option SimpleQueue
link (a, q) = do
  t ← q.tail
  n ← q.nodes t
  some (record q { nodes = put q.nodes t (some (record n { next = a })); tail = a })

-- `SimpleQueue_push`, given whether the allocation succeeds.
unfoldable pub push : Bool → ℤ → SimpleQueue → Option SimpleQueue
unfolding link
push ok v q = link (node_new ok v q)

-- The branches of `SimpleQueue_pop` on `queue->head->next`.
unfoldable pub pop_next : Option ℕ → SimpleQueue → Option (ℤ × SimpleQueue)
pop_next none q = some (empty_value, q)
pop_next (some p) q = do
  n ← q.nodes p
  some (n.value, record q { head = p; nodes = put q.nodes q.head none })

-- `SimpleQueue_pop`
unfoldable pub pop : SimpleQueue → Option (ℤ × SimpleQueue)
unfolding pop_next
pop q = do n ← q.nodes q.head; pop_next n.next q

abbrev is_none : Option ℕ → Bool
is_none none = true
is_none (some a) = false

-- `SimpleQueue_is_empty`
unfoldable pub is_empty : SimpleQueue → Option Bool
is_empty q = do n ← q.nodes q.head; some (is_none n.next)

-- The loop of `SimpleQueue_delete` from a node on; without fuel left it is a fault.
unfoldable pub delete_from : (fuel : ℕ) → Option ℕ → (ℕ → Option Item) → Option (ℕ → Option Item)
delete_from fuel none m = some m
delete_from zero (some a) m = none
delete_from (suc fuel) (some a) m = do n ← m a; delete_from fuel n.next (put m a none)

-- `SimpleQueue_delete`: what is left of the heap. There are at most `count` nodes, enough fuel.
unfoldable pub delete : SimpleQueue → Option (ℕ → Option Item)
unfolding delete_from
delete q = delete_from q.count (some q.head) q.nodes
