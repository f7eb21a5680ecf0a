-- ===== src/Crosswords/Tests.antt =====
-- Runs of the model of crosswords.h, and examples of the theorems. The coordinates go up to 99.
use mimuw.Prelude.{ℕ, suc, ◌+◌, ◌-◌, ◌*◌, ◌<◌, ◌≡◌, ◌≤◌, ◌↔◌, refl, arith, length, take}
use mimuw.Prelude.{get_elem?, if◌then◌else◌, true, List, [], ◌∷◌, none, some}
use mimuw.Crosswords.Area.{min, max, empty, embrace}
use mimuw.Crosswords.Word.{
  horizontal, vertical, Word, eq_pos, equal_words, compare_words, less, greater, equal, too_long,
  fitted, make_word, last_place, get_end_position, at,
}
use mimuw.Crosswords.Board.{
  put, insert, convert_letter, check_line, write_word, protect_line, protect_end, insert_line,
}
use mimuw.Crosswords.Crossword.{Crossword, check_word_vertically, check_word_horizontally}
use mimuw.Crosswords.Crossword.{check_word, insert_word_vertically, insert_word_horizontally}
use mimuw.Crosswords.Crossword.{insert_word, insert_words, make_crossword, plus, word_count}
use mimuw.Crosswords.Print.{background, row_cells, row_text, rows_text, print, shown}
use mimuw.Crosswords.Valid.{IsValid}
use mimuw.Crosswords.Runs.{Extended, make_crossword-IsValid, plus-Extended}
use mimuw.Crosswords.Bounds.{Before, compare_words-Before, make_word-rect}
use mimuw.Crosswords.Printed.{print-shown}

-- The words "AB" from row 5 down and "AX" to the right, which cross at column 5 and row 5
abbrev word_down : Word
word_down = record {
  coordinates = record { first = 5; second = 5 };
  orientation = vertical;
  word = 65 ∷ 66 ∷ [];
}

abbrev word_across : Word
word_across = record {
  coordinates = record { first = 5; second = 5 };
  orientation = horizontal;
  word = 65 ∷ 88 ∷ [];
}

abbrev crossing : Crossword
unfolding make_crossword
crossing = make_crossword 99 word_down (word_across ∷ [])

crossing_count : word_count crossing ≡ (1, 1)
unfolding make_crossword insert_words insert_word check_word check_word_vertically
    check_word_horizontally insert_word_vertically insert_word_horizontally insert_line check_line
    write_word protect_line protect_end put insert convert_letter at get_end_position last_place
    embrace empty min max
crossing_count = refl

-- A second vertical word is accepted that ends in the cell where the first one begins, since the
-- word across took that cell over.
overlap :
    (insert_word 99
      (record {
        coordinates = record { first = 5; second = 4 };
        orientation = vertical;
        word = 90 ∷ 65 ∷ [];
      })
      crossing).0
    ≡ true
unfolding make_crossword insert_words insert_word check_word check_word_vertically
    check_word_horizontally insert_word_vertically insert_word_horizontally insert_line check_line
    write_word protect_line protect_end put insert convert_letter at get_end_position last_place
    embrace empty min max
overlap = refl

-- A vertical word at row 98 keeps three letters, of which two fit; a horizontal one is shortened.
vertical_not_shortened :
    (make_word 99 (record { first = 5; second = 98 }) vertical (65 ∷ 66 ∷ 67 ∷ [])).word
    ≡ 65 ∷ 66 ∷ 67 ∷ []
unfolding make_word fitted too_long
vertical_not_shortened = refl

horizontal_shortened :
    (make_word 99 (record { first = 98; second = 5 }) horizontal (65 ∷ 66 ∷ 67 ∷ [])).word
    ≡ 65 ∷ 66 ∷ []
unfolding make_word fitted too_long
horizontal_shortened = refl

-- An empty word at the last column stays empty, and goes over the whole column.
empty_at_edge : (make_word 99 (record { first = 99; second = 0 }) vertical []).word ≡ []
unfolding make_word fitted too_long
empty_at_edge = refl

empty_is_long :
    get_end_position 99 (record {
      coordinates = record { first = 99; second = 0 };
      orientation = vertical;
      word = [];
    })
    ≡ record { first = 99; second = 99 }
unfolding get_end_position last_place
empty_is_long = refl

-- The char '[' stays as it is.
bracket : convert_letter 91 ≡ 91
unfolding convert_letter
bracket = refl

crossing_text :
    print 99 crossing
    ≡ some (
        46 ∷ 32 ∷ 46 ∷ 32 ∷ 46 ∷ 32 ∷ 46 ∷ 10 ∷ 46 ∷ 32 ∷ 65 ∷ 32 ∷ 88 ∷ 32 ∷ 46 ∷ 10 ∷ 46 ∷ 32 ∷ 66
        ∷ 32 ∷ 46 ∷ 32 ∷ 46 ∷ 10 ∷ 46 ∷ 32 ∷ 46 ∷ 32 ∷ 46 ∷ 32 ∷ 46 ∷ 10 ∷ [])
unfolding make_crossword insert_words insert_word check_word check_word_vertically
    check_word_horizontally insert_word_vertically insert_word_horizontally insert_line check_line
    write_word protect_line protect_end put insert convert_letter at get_end_position last_place
    embrace empty min max print background rows_text row_text row_cells
crossing_text = refl

crossing-IsValid : IsValid 99 (make_crossword 99 word_down (word_across ∷ []))
crossing-IsValid = make_crossword-IsValid 99 word_down (word_across ∷ [])

make_crossword-IsValid_example : IsValid 99 (make_crossword 99 word_down (word_across ∷ []))
make_crossword-IsValid_example = make_crossword-IsValid 99 word_down (word_across ∷ [])

plus-Extended_example :
    Extended 99
      ((make_crossword 99 word_across []).words)
      (make_crossword 99 word_down (word_across ∷ []))
      (plus 99 (make_crossword 99 word_down (word_across ∷ [])) (make_crossword 99 word_across []))
plus-Extended_example =
    plus-Extended 99 (make_crossword 99 word_down (word_across ∷ []))
      (make_crossword 99 word_across []) crossing-IsValid

compare_words-Before_example :
    (compare_words word_down word_across ≡ less ↔ Before word_down word_across)
    × (compare_words word_down word_across ≡ greater ↔ Before word_across word_down)
    × (compare_words word_down word_across ≡ equal ↔ equal_words word_down word_across ≡ true)
compare_words-Before_example = compare_words-Before word_down word_across

make_word-rect_example :
    let w = make_word 99 (record { first = 98; second = 5 }) horizontal (65 ∷ 66 ∷ 67 ∷ []) in
    (w.word ≡ take (suc (99 - 98)) (65 ∷ 66 ∷ 67 ∷ []))
    × (0 < length w.word)
    × (98 + length w.word ≤ suc 99)
    × ((get_end_position 99 w).first ≡ 98 + length w.word - 1)
make_word-rect_example =
    make_word-rect 99 (record { first = 98; second = 5 }) (65 ∷ 66 ∷ 67 ∷ []) (omega arith)
      (omega arith) (omega arith)

-- A board with one letter
abbrev one_letter : Crossword
one_letter = record {
  area = record {
    left_top = record { first = 3; second = 4 };
    right_bottom = record { first = 3; second = 4 };
  };
  how_many_vertically = 0;
  how_many_horizontally = 1;
  words = [];
  crossword_letters = λ p.
      if eq_pos p (record { first = 3; second = 4 })
      then some (record { letter = 65; way = horizontal })
      else none;
}

print-shown_example :
    (text : List ℕ) × (print 99 one_letter ≡ some text)
    × (get_elem? text (suc 0 * (2 * (suc 3 - 3) + 4) + 2 * suc 0)
        ≡ some (shown (one_letter.crossword_letters (record { first = 3 + 0; second = 4 + 0 }))))
print-shown_example =
    print-shown 99 0 0 one_letter (omega arith) (omega arith) (omega arith) (omega arith)
