-- ===== src/SameGame/Board.antt =====
-- The board of SameGame.c, its reading and printing, and the exchange of two fields. A board is a
-- function of the row and the column; the program looks only inside its bounds.
use mimuw.Prelude.{ℕ, zero, suc, ◌&&◌, List, [], ◌∷◌, ◌++◌}
use mimuw.Prelude.{◌==◌, if◌then◌else◌}

abbrev pub Board : Type 0
Board = ℕ → ℕ → ℕ

-- `PUSTE`, the character '.'
abbrev pub empty : ℕ
empty = 46

abbrev pub newline : ℕ
newline = 10

unfoldable pub put : Board → (w k v : ℕ) → Board
put a w k v i j = if (w == i) && (k == j) then v else a i j

-- `zamien(&a[w][k], &a[w'][k'])`
unfoldable pub swap : Board → (w k w' k' : ℕ) → Board
unfolding put
swap a w k w' k' = put (put a w k (a w' k')) w' k' (a w k)

-- `getchar()`: the end of the input stays the end, as -1, whose low byte is 255.
abbrev pub getchar : List ℕ → ℕ × List ℕ
getchar [] = (255, [])
getchar (c ∷ cs) = (c, cs)

-- The inner loop of `czytaj_plansze`: `left` columns from `k` on, the next character in `c`.
unfoldable pub read_row : (w k left c : ℕ) → List ℕ → Board → Board × ℕ × List ℕ
unfolding put
read_row w k zero c input a = (a, c, input)
read_row w k (suc left) c input a =
    read_row w (suc k) left (getchar input).0 (getchar input).1 (put a w k c)

-- `left` rows from `w` on; after a row that is not the last the newline is skipped.
unfoldable pub read_rows : (columns w left c : ℕ) → List ℕ → Board → Board
unfolding read_row
read_rows columns w zero c input a = a
read_rows columns w (suc left) c input a =
    let (a', c', rest) = read_row w 0 columns c input a in
    if left == 0 then a' else read_rows columns (suc w) left (getchar rest).0 (getchar rest).1 a'

-- `czytaj_plansze`
unfoldable pub read_board : (columns n : ℕ) → List ℕ → Board → Board
unfolding read_rows
read_board columns n input a = read_rows columns 0 n (getchar input).0 (getchar input).1 a

unfoldable pub print_row : Board → (w k left : ℕ) → List ℕ
print_row a w k zero = newline ∷ []
print_row a w k (suc left) = a w k ∷ print_row a w (suc k) left

-- `pisz_plansze`, from the row `w` on
unfoldable pub print_rows : (columns : ℕ) → Board → (w left : ℕ) → List ℕ
unfolding print_row
print_rows columns a w zero = []
print_rows columns a w (suc left) = print_row a w 0 columns ++ print_rows columns a (suc w) left
