-- ===== src/Crosswords/Print.antt =====
-- The operator << of crosswords.h: the text of a crossword, as the codes of its chars.
use mimuw.Prelude.{ℕ, zero, suc, ◌+◌, ◌-◌, ◌%◌, ◌&&◌, ◌||◌, Option, none, some}
use mimuw.Prelude.{List, [], ◌∷◌, ◌++◌, leb, ◌==◌, if◌then◌else◌}
use mimuw.Crosswords.Board.{LetterId, Letters, protected_char}
use mimuw.Crosswords.Crossword.{Crossword}

-- The codes of '.', ' ' and '\n'
abbrev pub crossword_background : ℕ
crossword_background = 46

abbrev pub blank_char : ℕ
blank_char = 32

abbrev pub new_line : ℕ
new_line = 10

abbrev pub end_of_line : List ℕ
end_of_line = crossword_background ∷ new_line ∷ []

-- The loop of the first and of the last line, for the given number of rounds
unfoldable pub background : ℕ → List ℕ
background zero = end_of_line
background (suc n) = crossword_background ∷ blank_char ∷ background n

abbrev pub shown : Option LetterId → ℕ
shown none = crossword_background
shown (some x) = if x.letter == protected_char then crossword_background else x.letter

-- The loop over the columns of a row
unfoldable pub row_cells : Letters → (row rounds col : ℕ) → List ℕ
row_cells ls row zero col = end_of_line
row_cells ls row (suc n) col =
    shown (ls (record { first = col; second = row })) ∷ blank_char ∷ row_cells ls row n (suc col)

unfoldable pub row_text : Letters → (row rounds col : ℕ) → List ℕ
unfolding row_cells
row_text ls row n col = crossword_background ∷ blank_char ∷ row_cells ls row n col

-- The loop over the rows
unfoldable pub rows_text : Letters → (columns left rounds row : ℕ) → List ℕ
unfolding row_text
rows_text ls columns left zero row = []
rows_text ls columns left (suc n) row =
    row_text ls row columns left ++ rows_text ls columns left n (suc row)

-- `x <= size_max` always holds, so a loop up to size_max has no end, none.
unfoldable pub print : (size_max : ℕ) → Crossword → Option (List ℕ)
unfolding background rows_text
print size_max c =
    let left = c.area.left_top.first in
    let right = c.area.right_bottom.first in
    let top = c.area.left_top.second in
    let bottom = c.area.right_bottom.second in
    let border = background ((right + 2) % suc size_max - left) in
    if leb top bottom && ((bottom == size_max) || leb left right && (right == size_max))
    then none
    else some (
        border
        ++ (rows_text c.crossword_letters (suc right - left) left (suc bottom - top) top ++ border))
