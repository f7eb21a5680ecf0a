-- ===== src/SameGame/Move.antt =====
-- The move of SameGame.c: a group of blocks is taken out, and the other blocks move down and left.
use mimuw.Prelude.{ℕ, zero, suc, ◌+◌, ◌-◌, ◌*◌, Bool, ◌&&◌, ◌||◌, List}
use mimuw.Prelude.{◌==◌, ltb, if◌then◌else◌}
use mimuw.SameGame.Board.{Board, empty, put, swap, read_board, print_rows}

-- `sprawdz_czy_grupa`
unfoldable pub is_group : (columns : ℕ) → Board → (n w k : ℕ) → Bool
is_group columns a n w k =
    (ltb (k + 1) columns && (a w k == a w (k + 1)))
    || (ltb (w + 1) n && (a w k == a (w + 1) k))
    || (ltb 0 k && (a w k == a w (k - 1)))
    || (ltb 0 w && (a w k == a (w - 1) k))

-- `usun_grupe`. A call turns a block of the colour into an empty field before it makes another, so
-- the depth of the recursion is at most the number of fields, the fuel that `run` gives.
unfoldable pub remove_group : (fuel columns : ℕ) → Board → (n w k block : ℕ) → Board
unfolding put
remove_group zero columns a n w k block = a
remove_group (suc fuel) columns a n w k block =
    let b = put a w k empty in
    let below = remove_group fuel columns b n (w + 1) k block in
    let c = if ltb (w + 1) n && (b (w + 1) k == block) then below else b in
    let above = remove_group fuel columns c n (w - 1) k block in
    let d = if ltb 0 w && (c (w - 1) k == block) then above else c in
    let right = remove_group fuel columns d n w (k + 1) block in
    let e = if ltb (k + 1) columns && (d w (k + 1) == block) then right else d in
    let left = remove_group fuel columns e n w (k - 1) block in
    if ltb 0 k && (e w (k - 1) == block) then left else e

-- `nowe_w`: up from `w` past the empty fields of the column.
unfoldable pub top : Board → (k w : ℕ) → ℕ
top a k zero = zero
top a k (suc w) = let rest = top a k w in if a w k == empty then rest else suc w

-- One round of `przesun_w_dol`: the field at `w`, when it is empty, takes the next block above.
unfoldable pub settle : Board → (k w : ℕ) → Board
unfolding top swap
settle a k w =
    if a w k == empty then (if top a k w == 0 then a else swap a w k (top a k w - 1) k) else a

-- The column `k`, from the row `w` up to the row 1.
unfoldable pub fall : Board → (k w : ℕ) → Board
unfolding settle
fall a k zero = a
fall a k (suc w) = fall (settle a k (suc w)) k w

-- `przesun_w_dol`, the first `columns` columns
unfoldable pub move_down : (columns : ℕ) → Board → ℕ → Board
unfolding fall
move_down zero a n = a
move_down (suc k) a n = fall (move_down k a n) k (n - 1)

-- `nowe_k`: right from `k` past empty fields of the row, `left` steps at most.
unfoldable pub gap_end : Board → (w k left : ℕ) → ℕ
gap_end a w k zero = k
gap_end a w k (suc left) =
    let rest = gap_end a w (suc k) left in if a w (suc k) == empty then rest else k

-- The first `n` fields of two columns change places.
unfoldable pub swap_columns : Board → (n k k' : ℕ) → Board
unfolding swap
swap_columns a zero k k' = a
swap_columns a (suc i) k k' = swap (swap_columns a i k k') i k i k'

-- The loop of `przesun_w_lewo` from the column `k` on, `left` columns before the last one.
unfoldable pub shift : Board → (n k left : ℕ) → Board
unfolding gap_end swap_columns
shift a n k zero = a
shift a n k (suc left) = shift a' n (suc k) left
  where
    stop : ℕ
    stop = gap_end a (n - 1) k (suc left)

    a' : Board
    a' =
        if a (n - 1) k == empty
        then (if stop == k + suc left then a else swap_columns a n k (stop + 1))
        else a

-- `przesun_w_lewo`
unfoldable pub move_left : (columns : ℕ) → Board → ℕ → Board
unfolding shift
move_left columns a n = shift a n 0 (columns - 1)

-- `porzadkuj_plansze`
unfoldable pub tidy : (columns : ℕ) → Board → ℕ → Board
unfolding move_down move_left
tidy columns a n = move_left columns (move_down columns a n) n

-- The board that `wykonaj` prints after a move at the field in the row `w` and the column `k`.
unfoldable pub play : (columns : ℕ) → Board → (n w k : ℕ) → Board
unfolding is_group remove_group tidy
play columns a n w k =
    if a w k == empty
    then a
    else if is_group columns a n w k
    then tidy columns (remove_group (n * columns) columns a n w k (a w k)) n
    else a

-- `wykonaj`: what the program prints for an input.
unfoldable pub run : (columns : ℕ) → Board → List ℕ → (n w k : ℕ) → List ℕ
unfolding play read_board print_rows
run columns a input n w k =
    print_rows columns (play columns (read_board columns n input a) n w k) 0 n
