-- ===== src/Mimpi/Ranks.antt =====
-- The binary trees over the ranks, as the collective operations of mimpi.c compute them.
pub mod Laws
use mimuw.Prelude.{ℕ, ◌+◌, ◌-◌, ◌*◌, ◌/◌, ◌%◌, Option, none, some, ltb, leb, if◌then◌else◌}

-- The rank counted from the root. The sum stays positive in C, for a root below the size.
unfoldable pub relative_rank : (size root rank : ℕ) → ℕ
relative_rank size root rank = (rank + size - root) % size

-- The process at a place of the tree, `none` for the value -1.
unfoldable pub process_at : (size root : ℕ) → ℕ → Option ℕ
process_at size root k = if leb size k then none else some ((k + root) % size)

unfoldable pub left_child : (size root rank : ℕ) → Option ℕ
unfolding relative_rank process_at
left_child size root rank = process_at size root (2 * relative_rank size root rank + 1)

unfoldable pub right_child : (size root rank : ℕ) → Option ℕ
unfolding relative_rank process_at
right_child size root rank = process_at size root (2 * relative_rank size root rank + 2)

unfoldable pub parent : (size root rank : ℕ) → Option ℕ
unfolding relative_rank
parent size root rank =
    if ltb 0 (relative_rank size root rank)
    then some (((relative_rank size root rank - 1) / 2 + root) % size)
    else none
