-- ===== src/Crosswords/Crossword.antt =====
-- Crossword of crosswords.h: its state, the insertion of words, the sum of crosswords, and the
-- printed text. The hash map of letters is a function of the position.
use mimuw.Prelude.{ℕ, suc, ◌-◌, ◌%◌, Bool, true, false}
use mimuw.Prelude.{List, [], ◌∷◌, ◌++◌, if◌then◌else◌}
use mimuw.Crosswords.Area.{Pos, RectArea, default_empty_rect_area, empty, embrace, span}
use mimuw.Crosswords.Word.{horizontal, vertical, Word, get_end_position}
use mimuw.Crosswords.Board.{Letters, no_letters, check_line, insert_line}

pub record Crossword : Type 0 where
  pub area : RectArea
  pub how_many_vertically : ℕ
  pub how_many_horizontally : ℕ
  pub words : List Word
  pub crossword_letters : Letters

-- The state before the first word, and of a crossword after a move from it
abbrev pub blank_crossword : Crossword
blank_crossword = record {
  area = default_empty_rect_area;
  how_many_vertically = 0;
  how_many_horizontally = 0;
  words = [];
  crossword_letters = no_letters;
}

unfoldable pub check_word_vertically : (size_max : ℕ) → Letters → Word → (start last : Pos) → Bool
unfolding check_line
check_word_vertically size_max ls w start last =
    check_line size_max ls w vertical start.first start.second (suc last.second - start.second)
      start.second

unfoldable pub check_word_horizontally : (size_max : ℕ) → Letters → Word → (start last : Pos) → Bool
unfolding check_line
check_word_horizontally size_max ls w start last =
    check_line size_max ls w horizontal start.second start.first (suc last.first - start.first)
      start.first

unfoldable pub check_word : (size_max : ℕ) → Word → Crossword → Bool
unfolding check_word_vertically check_word_horizontally get_end_position
check_word size_max w c = elim w.orientation [
  | vertical ↦
      check_word_vertically size_max c.crossword_letters w w.coordinates
        (get_end_position size_max w)
  | horizontal ↦
      check_word_horizontally size_max c.crossword_letters w w.coordinates
        (get_end_position size_max w)
]

unfoldable pub insert_word_vertically :
    (size_max : ℕ) → Word → (last : Pos) → (row column : ℕ) → Crossword → Crossword
unfolding insert_line
insert_word_vertically size_max w last row column c = record c {
  how_many_vertically = suc c.how_many_vertically % suc size_max;
  crossword_letters = insert_line size_max w vertical column row last.second c.crossword_letters;
}

unfoldable pub insert_word_horizontally :
    (size_max : ℕ) → Word → (last : Pos) → (row column : ℕ) → Crossword → Crossword
unfolding insert_line
insert_word_horizontally size_max w last row column c = record c {
  how_many_horizontally = suc c.how_many_horizontally % suc size_max;
  crossword_letters = insert_line size_max w horizontal row column last.first c.crossword_letters;
}

-- The word joins the list, and the area grows by its first and its last position.
abbrev pub listed : (size_max : ℕ) → Word → Crossword → Crossword
listed size_max w c = record c {
  words = c.words ++ w ∷ [];
  area = embrace (get_end_position size_max w) (embrace w.coordinates c.area);
}

unfoldable pub insert_word : (size_max : ℕ) → Word → Crossword → Bool × Crossword
unfolding check_word embrace get_end_position insert_word_vertically insert_word_horizontally
insert_word size_max w c =
    if check_word size_max w c
    then (
      true,
      elim w.orientation [
        | vertical ↦
            insert_word_vertically size_max w (get_end_position size_max w) w.coordinates.second
              w.coordinates.first (listed size_max w c)
        | horizontal ↦
            insert_word_horizontally size_max w (get_end_position size_max w) w.coordinates.second
              w.coordinates.first (listed size_max w c)
      ],
    )
    else (false, c)

unfoldable pub insert_words : (size_max : ℕ) → List Word → Crossword → Crossword
unfolding insert_word
insert_words size_max [] c = c
insert_words size_max (w ∷ ws) c = insert_words size_max ws (insert_word size_max w c).1

-- The constructor
unfoldable pub make_crossword : (size_max : ℕ) → Word → List Word → Crossword
unfolding insert_words
make_crossword size_max first_word other_words =
    insert_words size_max other_words (insert_word size_max first_word blank_crossword).1

-- The loop of the operator +
unfoldable pub add_words : (size_max : ℕ) → List Word → Crossword → Crossword
unfolding check_word insert_word
add_words size_max [] c = c
add_words size_max (w ∷ ws) c =
    add_words size_max ws (if check_word size_max w c then (insert_word size_max w c).1 else c)

-- The operators + and +=
unfoldable pub plus : (size_max : ℕ) → Crossword → Crossword → Crossword
unfolding add_words
plus size_max c other = add_words size_max other.words c

abbrev pub word_count : Crossword → ℕ × ℕ
word_count c = (c.how_many_horizontally, c.how_many_vertically)

unfoldable pub crossword_size : (size_max : ℕ) → Crossword → ℕ × ℕ
unfolding empty
crossword_size size_max c = if empty c.area then (0, 0) else (
  span size_max c.area.left_top.first c.area.right_bottom.first,
  span size_max c.area.left_top.second c.area.right_bottom.second,
)
