-- ===== src/Queue/Contents.antt =====
-- SimpleQueue.c as a first-in first-out list.
use mimuw.Prelude.{ℕ, suc, ◌≡◌, refl, sym, ap, ◌∙◌, ◌<◌, ◌≤◌, ◌≢◌, arith, Bool, true, false}
use mimuw.Prelude.{Option, none, some, List, [], ◌∷◌, ◌++◌}
use mimuw.Prelude.Int.{ℤ}
use mimuw.Queue.Simple.{Item, item, SimpleQueue, empty_value, put, new, push}
use mimuw.Queue.Simple.{pop, is_empty}

-- From the node at `h`, which has the value `i`, the pointers lead over nodes with the values of
-- the list to the last node, at `t`. Later nodes have higher addresses.
unfoldable pub Chain : (ℕ → Option Item) → (count h : ℕ) → ℤ → (t : ℕ) → List ℤ → Type 0
Chain nodes count h i t [] = (h ≡ t) × (nodes h ≡ some (item none i)) × (h < count)
Chain nodes count h i t (x ∷ xs) =
    (n : ℕ) × (nodes h ≡ some (item (some n) i)) × (h < n) × Chain nodes count n x t xs

-- The queue holds the values of the list behind its dummy node.
abbrev pub is_nil : List ℤ → Bool
is_nil [] = true
is_nil (x ∷ xs) = false

pub record Holds (q : SimpleQueue) (xs : List ℤ) : Type 0 where
  pub last : ℕ
  pub first : ℤ
  pub tail : q.tail ≡ some last
  pub chain : Chain q.nodes q.count q.head first last xs

pub Chain-keep :
    (m m' : ℕ → Option Item) (count h : ℕ) (i : ℤ) (t : ℕ) (xs : List ℤ)
    → ((a : ℕ) → h ≤ a → m' a ≡ m a)
    → Chain m count h i t xs
    → Chain m' count h i t xs
unfolding Chain
Chain-keep m m' count h i t [] same (e, n, l) = (e, same h (omega arith) ∙ n, l)
Chain-keep m m' count h i t (x ∷ xs) same (n, e, l, c) = (
  n,
  same h (omega arith) ∙ e,
  l,
  Chain-keep m m' count n x t xs (λ a le. same a (omega arith)) c,
)

-- What is at the end of a chain.
pub Chain-last :
    (m : ℕ → Option Item) (count h : ℕ) (i : ℤ) (t : ℕ) (xs : List ℤ)
    → Chain m count h i t xs
    → (j : ℤ) × (m t ≡ some (item none j)) × (h ≤ t) × (t < count)
unfolding Chain
Chain-last m count h i t [] (e, n, l) = (i, ap m (sym e) ∙ n, omega arith, omega arith)
Chain-last m count h i t (x ∷ xs) (n, e, l, c) =
    let (j, last, le, lt) = Chain-last m count n x t xs c in (j, last, omega arith, lt)

Chain-first :
    (m : ℕ → Option Item) (count h : ℕ) (i : ℤ) (t : ℕ) (xs : List ℤ)
    → Chain m count h i t xs
    → (o : Option ℕ) × (m h ≡ some (item o i))
unfolding Chain
Chain-first m count h i t [] (e, n, l) = (none, n)
Chain-first m count h i t (x ∷ xs) (n, e, l, c) = (some n, e)

-- A node at `count` behind the last one.
Chain-append :
    (m m' : ℕ → Option Item) (count h : ℕ) (i : ℤ) (t : ℕ) (xs : List ℤ) (v : ℤ)
    → ((a : ℕ) → a < t → m' a ≡ m a)
    → ((j : ℤ) → m t ≡ some (item none j) → m' t ≡ some (item (some count) j))
    → m' count ≡ some (item none v)
    → Chain m count h i t xs
    → Chain m' (suc count) h i count (xs ++ v ∷ [])
unfolding Chain
Chain-append m m' count h i t [] v keep end fresh (e, n, l) =
    (count, ap m' e ∙ end i (ap m (sym e) ∙ n), l, (refl, fresh, omega arith))
Chain-append m m' count h i t (x ∷ xs) v keep end fresh (n, e, l, c) =
    let (j, last, le, lt) = Chain-last m count n x t xs c in
    (n, keep h (omega arith) ∙ e, l, Chain-append m m' count n x t xs v keep end fresh c)

-- The value of a node, 0 of nothing.
abbrev value_of : Option Item → ℤ
value_of none = empty_value
value_of (some n) = n.value

pub put_self : (m : ℕ → Option Item) (a : ℕ) (v : Option Item) → put m a v a ≡ v
put_self m a v = ground arith

pub put_ne : (m : ℕ → Option Item) (a b : ℕ) (v : Option Item) → a ≢ b → put m a v b ≡ m b
put_ne m a b v ne = ground arith

-- `SimpleQueue_push` adds its value at the end, when memory suffices.
pub push-Holds :
    (q : SimpleQueue) (xs : List ℤ) (v : ℤ)
    → Holds q xs
    → (q' : SimpleQueue) × (push true v q ≡ some q') × Holds q' (xs ++ v ∷ [])
unfolding push
push-Holds q xs v h =
    let (j, last, le, lt) = Chain-last q.nodes q.count q.head h.first h.last xs h.chain in
    let found = put_ne q.nodes q.count h.last (some (item none v)) (omega arith) ∙ last in
    (
      after j,
      rw (h.tail, found) refl,
      record {
        last = q.count;
        first = h.first;
        tail = refl;
        chain =
            Chain-append q.nodes (m2 j) q.count q.head h.first h.last xs v
              (λ a l. put_ne m1 h.last a _ (omega arith) ∙ put_ne q.nodes q.count a _ (omega arith))
              (λ i e.
                put_self m1 h.last _ ∙ ap (λ k. some (item (some q.count) k)) (same i j e last))
              (put_ne m1 h.last q.count _ (omega arith) ∙ put_self q.nodes q.count _) h.chain;
      },
    )
  where
    m1 : ℕ → Option Item
    m1 = put q.nodes q.count (some (item none v))

    m2 : ℤ → ℕ → Option Item
    m2 j = put m1 h.last (some (item (some q.count) j))

    after : ℤ → SimpleQueue
    after j = record q { nodes = m2 j; tail = some q.count; count = suc q.count }

    same :
        (i j : ℤ)
        → q.nodes h.last ≡ some (item none i)
        → q.nodes h.last ≡ some (item none j)
        → j ≡ i
    same i j e e' = ap value_of (sym e' ∙ e)

-- What `SimpleQueue_pop` does to a queue with these values: nothing to an empty one.
abbrev pub Pops : SimpleQueue → List ℤ → Type 0
Pops q [] = pop q ≡ some (empty_value, q)
Pops q (x ∷ xs) = (q' : SimpleQueue) × (pop q ≡ some (x, q')) × Holds q' xs

-- `SimpleQueue_pop` of an empty queue returns `EMPTY_VALUE` and changes nothing; otherwise it
-- returns the first value, and the queue holds the others.
pub pop-Pops : (q : SimpleQueue) (xs : List ℤ) → Holds q xs → Pops q xs
unfolding pop Chain
pop-Pops q [] h = let (e, n, l) = h.chain in rw (n) refl
pop-Pops q (x ∷ xs) h =
    let (n, e, l, c) = h.chain in
    let (o, there) = Chain-first q.nodes q.count n x h.last xs c in
    (
      without n,
      rw (e, there) refl,
      record {
        last = h.last;
        first = x;
        tail = h.tail;
        chain =
            Chain-keep q.nodes (put q.nodes q.head none) q.count n x h.last xs
              (λ a le. put_ne q.nodes q.head a none (omega arith)) c;
      },
    )
  where
    without : ℕ → SimpleQueue
    without n = record q { head = n; nodes = put q.nodes q.head none }

-- `SimpleQueue_is_empty` says whether the queue holds no value.
pub is_empty-Holds : (q : SimpleQueue) (xs : List ℤ) → Holds q xs → is_empty q ≡ some (is_nil xs)
unfolding is_empty Chain
is_empty-Holds q [] h = let (e, n, l) = h.chain in rw (n) refl
is_empty-Holds q (x ∷ xs) h = let (n, e, l, c) = h.chain in rw (e) refl

-- `SimpleQueue_new` makes an empty queue when memory suffices.
pub new-Holds : (q : SimpleQueue) × (new true true ≡ some q) × Holds q []
unfolding new Chain
new-Holds = (
  record {
    head = 0;
    tail = some 0;
    nodes = put (λ a. none) 0 (some (item none empty_value));
    count = 1;
  },
  refl,
  record { last = 0; first = empty_value; tail = refl; chain = (refl, refl, omega arith) },
)

push-null : (q : SimpleQueue) (ok : Bool) (v : ℤ) → q.tail ≡ none → push ok v q ≡ none
unfolding push
push-null q true v e = rw (e) refl
push-null q false v e = rw (e) refl

-- `SimpleQueue_push` does not look whether its node was allocated. Without memory the value is lost
-- without a sign, and the next call uses a null pointer.
pub push-no_memory :
    (q : SimpleQueue) (xs : List ℤ) (v w : ℤ) (ok : Bool)
    → Holds q xs
    → (q' : SimpleQueue) × (push false v q ≡ some q') × (push ok w q' ≡ none)
unfolding push
push-no_memory q xs v w ok h =
    let (j, last, le, lt) = Chain-last q.nodes q.count q.head h.first h.last xs h.chain in
    (after j, rw (h.tail, last) refl, push-null (after j) ok w refl)
  where
    after : ℤ → SimpleQueue
    after j = record q { nodes = put q.nodes h.last (some (item none j)); tail = none }
