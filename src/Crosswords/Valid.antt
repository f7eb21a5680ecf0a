-- ===== src/Crosswords/Valid.antt =====
-- What holds of a crossword of crosswords.h: its words can be read on the board, nothing else can,
-- its area holds them, and its counters count them.
use mathlib.Core.List.Memᴰ
use mimuw.Prelude.{ℕ, suc, ◌-◌, ◌%◌, ◌≤◌, ◌≡◌, ◌≢◌, refl, arith}
use mimuw.Prelude.{true, List, [], ◌∷◌, ◌++◌, if◌then◌else◌}
use mimuw.Crosswords.Area.{Pos, embrace}
use mimuw.Crosswords.Areas.{Contains}
use mimuw.Crosswords.Word.{Orientation, horizontal, vertical, Word, same_way, at, get_end_position}
use mimuw.Crosswords.Board.{Letters, protected_char, cell, convert_letter, check_line, insert_line}
use mimuw.Crosswords.Cells.{line, place}
use mimuw.Crosswords.Written.{Reads}
use mimuw.Crosswords.Crossword.{Crossword, blank_crossword, check_word, check_word_vertically}
use mimuw.Crosswords.Crossword.{check_word_horizontally, insert_word, insert_word_vertically}
use mimuw.Crosswords.Crossword.{insert_word_horizontally}
use mathlib.Core.List.{Memᴰ}

-- The line of a word, and the first and the last place on it
abbrev pub line_of : Word → ℕ
line_of w = line w.orientation w.coordinates

abbrev pub start_of : Word → ℕ
start_of w = place w.orientation w.coordinates

abbrev pub last_of : ℕ → Word → ℕ
last_of m w = place w.orientation (get_end_position m w)

-- The cells of a word show its letters, as convert_letter writes them.
abbrev pub Spelled : ℕ → Letters → Word → Type 0
Spelled m ls w =
    (q : ℕ)
    → start_of w ≤ q
    → q ≤ last_of m w
    → Reads ls (cell w.orientation (line_of w) q) (convert_letter (at w (q - start_of w)))

abbrev pub Covers : ℕ → Word → Pos → Type 0
Covers m w p =
    (q : ℕ) × (start_of w ≤ q) × (q ≤ last_of m w) × (p ≡ cell w.orientation (line_of w) q)

unfoldable pub count : Orientation → List Word → ℕ
count o [] = 0
count o (w ∷ ws) = if same_way w.orientation o then suc (count o ws) else count o ws

pub record IsValid (m : ℕ) (c : Crossword) : Type 0 where
  pub spelled : (w : Word) → Memᴰ w c.words → Spelled m c.crossword_letters w
  pub covered :
      (p : Pos) (l : ℕ)
      → l ≢ protected_char
      → Reads c.crossword_letters p l
      → (w : Word) × Memᴰ w c.words × Covers m w p
  pub within :
      (w : Word)
      → Memᴰ w c.words
      → Contains c.area w.coordinates × Contains c.area (get_end_position m w)
  pub vertical_count : c.how_many_vertically ≡ count vertical c.words % suc m
  pub horizontal_count : c.how_many_horizontally ≡ count horizontal c.words % suc m

pub count-append :
    (o : Orientation) (ws : List Word) (w : Word)
    → count o (ws ++ w ∷ []) ≡ (if same_way w.orientation o then suc (count o ws) else count o ws)
unfolding count
count-append o [] w = refl
count-append o (v ∷ ws) w = rw (count-append o ws w) (ground arith)

pub blank_crossword-IsValid : (m : ℕ) → IsValid m blank_crossword
unfolding count
blank_crossword-IsValid m = record {
  spelled = λ w k. absurd (Memᴰ.not-nil k);
  covered = λ p l n r. ground (arith, r);
  within = λ w k. absurd (Memᴰ.not-nil k);
  vertical_count = omega arith;
  horizontal_count = omega arith;
}

pub check_word-line :
    (m : ℕ) (p : Pos) (o : Orientation) (t : List ℕ) (c : Crossword)
    → let w : Word = record { coordinates = p; orientation = o; word = t } in
      check_word m w c
      ≡ check_line m c.crossword_letters w o
          (line_of w)
          (start_of w)
          (suc (last_of m w) - start_of w)
          (start_of w)
unfolding check_word check_word_vertically check_word_horizontally
check_word-line m p horizontal t c = refl
check_word-line m p vertical t c = refl

pub record Stored (m : ℕ) (w : Word) (c d : Crossword) : Type 0 where
  pub letters :
      d.crossword_letters
      ≡ insert_line m w w.orientation (line_of w) (start_of w) (last_of m w) c.crossword_letters
  pub list : d.words ≡ c.words ++ w ∷ []
  pub extent : d.area ≡ embrace (get_end_position m w) (embrace w.coordinates c.area)
  pub vertical_counter : d.how_many_vertically ≡ (
      if same_way w.orientation vertical
      then suc c.how_many_vertically % suc m
      else c.how_many_vertically)
  pub horizontal_counter : d.how_many_horizontally ≡ (
      if same_way w.orientation horizontal
      then suc c.how_many_horizontally % suc m
      else c.how_many_horizontally)

pub insert_word-Stored :
    (m : ℕ) (p : Pos) (o : Orientation) (t : List ℕ) (c : Crossword)
    → let w : Word = record { coordinates = p; orientation = o; word = t } in
      check_word m w c ≡ true → Stored m w c (insert_word m w c).1
unfolding insert_word insert_word_vertically insert_word_horizontally
insert_word-Stored m p horizontal t c e = rw e (record {
  letters = refl;
  list = refl;
  extent = refl;
  vertical_counter = refl;
  horizontal_counter = refl;
})
insert_word-Stored m p vertical t c e = rw e (record {
  letters = refl;
  list = refl;
  extent = refl;
  vertical_counter = refl;
  horizontal_counter = refl;
})

pub convert_letter-unprotected : (c : ℕ) → convert_letter c ≢ protected_char
unfolding convert_letter
convert_letter-unprotected c e = ground (arith, e)
