-- ===== src/Queue/Deleted.antt =====
-- `SimpleQueue_delete` of SimpleQueue.c does not free a node twice.
use mimuw.Prelude.{ℕ, zero, suc, ◌+◌, ◌≡◌, refl, sym, ap, ◌∙◌, ◌<◌, ◌≤◌, arith, Option, none, some}
use mimuw.Prelude.{List, [], ◌∷◌}
use mimuw.Prelude.Int.{ℤ}
use mimuw.Queue.Simple.{Item, SimpleQueue, put, delete_from, delete}
use mimuw.Queue.Contents.{Chain, Chain-keep, Chain-last, Holds, put_self, put_ne}

-- The nodes of a chain are free, the addresses below it as before.
abbrev Freed : (m m' : ℕ → Option Item) (h t : ℕ) → Type 0
Freed m m' h t = (m' t ≡ none) × (m' h ≡ none) × ((a : ℕ) → a < h → m' a ≡ m a)

delete_from-Freed :
    (fuel : ℕ) (m : ℕ → Option Item) (count h : ℕ) (i : ℤ) (t : ℕ) (xs : List ℤ)
    → count ≤ h + fuel
    → Chain m count h i t xs
    → (m' : ℕ → Option Item) × (delete_from fuel (some h) m ≡ some m') × Freed m m' h t
unfolding delete_from Chain
delete_from-Freed zero m count h i t [] le (e, n, l) = absurd (omega arith)
delete_from-Freed zero m count h i t (x ∷ xs) le (n, e, l, c) =
    let (j, last, le', lt) = Chain-last m count n x t xs c in absurd (omega arith)
delete_from-Freed (suc fuel) m count h i t [] le (e, n, l) = (
  put m h none,
  rw (n) refl,
  (
    ap (put m h none) (sym e) ∙ put_self m h none,
    put_self m h none,
    λ a lt. put_ne m h a none (omega arith),
  ),
)
delete_from-Freed (suc fuel) m count h i t (x ∷ xs) le (n, e, l, c) =
    let (m', run, (last, first, below)) =
      delete_from-Freed fuel (put m h none) count n x t xs (omega arith)
        (Chain-keep m (put m h none) count n x t xs (λ a le'. put_ne m h a none (omega arith)) c) in
    (
      m',
      rw (e) run,
      (
        last,
        below h l ∙ put_self m h none,
        λ a lt. below a (omega arith) ∙ put_ne m h a none (omega arith),
      ),
    )

-- `SimpleQueue_delete` of a queue comes to its end without the use of a freed node and without a
-- second free, with fuel for every node; the dummy node and the last node are free then.
pub delete-Freed :
    (q : SimpleQueue) (xs : List ℤ) (h : Holds q xs)
    → (m' : ℕ → Option Item) × (delete q ≡ some m') × (m' q.head ≡ none) × (m' h.last ≡ none)
unfolding delete
delete-Freed q xs h =
    let (m', run, (last, first, below)) =
      delete_from-Freed q.count q.nodes q.count q.head h.first h.last xs (omega arith) h.chain in
    (m', run, first, last)
