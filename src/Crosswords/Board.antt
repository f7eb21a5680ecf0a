-- ===== src/Crosswords/Board.antt =====
-- The letters of a crossword of crosswords.h, and the loops that look at and write the cells of a
-- word. The functions for vertical words are those for horizontal words with rows and columns
-- swapped, so both are one function of the orientation.
use mimuw.Prelude.{
  ℕ, zero, suc, ◌+◌, ◌-◌, ◌%◌, Bool, true, false, not, ◌&&◌, ◌||◌, Option, none, some,
}
use mimuw.Prelude.{leb, ltb, ◌==◌, if◌then◌else◌, length}
use mimuw.Crosswords.Area.{Pos}
use mimuw.Crosswords.Word.{Orientation, horizontal, vertical, Word, same_way, eq_pos, at}

abbrev pub protected_char : ℕ
protected_char = 46

-- A char of a cell, with the orientation of the word that wrote it
pub record LetterId : Type 0 where
  pub letter : ℕ
  pub way : Orientation

abbrev pub Letters : Type 0
Letters = Pos → Option LetterId

abbrev pub no_letters : Letters
no_letters p = none

-- `letters[p] = x`
unfoldable pub put : Letters → Pos → LetterId → Letters
put ls p x q = if eq_pos p q then some x else ls q

-- `letters.insert({p, x})` keeps what stands at p.
unfoldable pub insert : Letters → Pos → LetterId → Letters
insert ls p x q = elim (ls q) [ some y ↦ some y | none ↦ if eq_pos p q then some x else none ]

-- The cell at place j along a line of the orientation
abbrev pub cell : Orientation → (line j : ℕ) → Pos
cell horizontal line j = record { first = j; second = line }
cell vertical line j = record { first = line; second = j }

unfoldable pub convert_letter : ℕ → ℕ
convert_letter c =
    if leb 97 c && leb c 122
    then c - 32
    else if ltb c 65 || ltb 91 c && ltb c 97 || ltb 122 c && ltb c 128
    then 63
    else c

-- Whether a cell is found and is not protected
abbrev pub holds_letter : Option LetterId → Bool
holds_letter none = false
holds_letter (some x) = not (x.letter == protected_char)

-- The two cells beside the line, at j and two places on
abbrev pub free_beside : (size_max : ℕ) → Letters → Orientation → (line j : ℕ) → Bool
free_beside size_max ls o line j =
    not (holds_letter (ls (cell o line j)))
    && not (holds_letter (ls (cell o line ((j + 2) % suc size_max))))

abbrev pub fits_ahead :
    (size_max : ℕ) → Letters → Word → Orientation → (line start j : ℕ) → Option LetterId → Bool
fits_ahead size_max ls w o line start j none = true
fits_ahead size_max ls w o line start j (some x) =
    if x.letter == protected_char || not (x.letter == convert_letter (at w (suc j - start)))
    then false
    else (not (ltb 0 line) || free_beside size_max ls o (line - 1) j)
      && (not (ltb line size_max) || free_beside size_max ls o (suc line) j)

-- One round of the loop of check_word_vertically and check_word_horizontally
abbrev pub fits_at :
    (size_max : ℕ) → Letters → Word → Orientation → (line start j : ℕ) → Option LetterId → Bool
fits_at size_max ls w o line start j none = true
fits_at size_max ls w o line start j (some x) =
    if x.letter == protected_char
    then if (j == size_max) || (length w.word == 1)
      then false
      else fits_ahead size_max ls w o line start j (ls (cell o line (suc j)))
    else not (same_way x.way o || not (x.letter == convert_letter (at w (j - start))))

-- The loop, for the given number of rounds from place j on
unfoldable pub check_line :
    (size_max : ℕ) → Letters → Word → Orientation → (line start rounds j : ℕ) → Bool
unfolding convert_letter
check_line size_max ls w o line start zero j = true
check_line size_max ls w o line start (suc n) j =
    let rest = check_line size_max ls w o line start n (suc j) in
    if fits_at size_max ls w o line start j (ls (cell o line j)) then rest else false

-- The loop that writes the letters of a word from number i on
unfoldable pub write_word : Word → Orientation → (line rounds i j : ℕ) → Letters → Letters
unfolding put convert_letter at
write_word w o line zero i j ls = ls
write_word w o line (suc n) i j ls =
    write_word w o line n (suc i) (suc j)
      (put ls (cell o line j) (record { letter = convert_letter (at w i); way = o }))

abbrev pub protected_by : Orientation → LetterId
protected_by o = record { letter = protected_char; way = o }

-- The loop that protects the cells of a line
unfoldable pub protect_line : Orientation → (line rounds j : ℕ) → Letters → Letters
unfolding insert
protect_line o line zero j ls = ls
protect_line o line (suc n) j ls =
    protect_line o line n (suc j) (insert ls (cell o line j) (protected_by o))

-- The three cells before or after a word
unfoldable pub protect_end : (size_max : ℕ) → Orientation → (line j : ℕ) → Letters → Letters
unfolding insert
protect_end size_max o line j ls0 =
    let ls1 = if ltb 0 line then insert ls0 (cell o (line - 1) j) (protected_by o) else ls0 in
    let ls2 =
      if ltb line size_max then insert ls1 (cell o (suc line) j) (protected_by o) else ls1 in
    insert ls2 (cell o line j) (protected_by o)

-- insert_word_vertically and insert_word_horizontally, without the counters
unfoldable pub insert_line :
    (size_max : ℕ) → Word → Orientation → (line start last : ℕ) → Letters → Letters
unfolding write_word protect_line protect_end
insert_line size_max w o line start last ls0 =
    let rounds = suc last - start in
    let ls1 = write_word w o line rounds 0 start ls0 in
    let ls2 = if ltb 0 line then protect_line o (line - 1) rounds start ls1 else ls1 in
    let ls3 = if ltb line size_max then protect_line o (suc line) rounds start ls2 else ls2 in
    let ls4 = if ltb 0 start then protect_end size_max o line (start - 1) ls3 else ls3 in
    if ltb last size_max then protect_end size_max o line (suc last) ls4 else ls4
