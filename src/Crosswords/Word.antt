-- ===== src/Crosswords/Word.antt =====
-- Word of crosswords.h. A char is its code, from 0 to 255; the codes from 128 on are the negative
-- ones.
use mimuw.Prelude.{ℕ, suc, ◌+◌, ◌-◌, ◌%◌, Bool, true, false, ◌&&◌, ◌||◌, List, [], ◌∷◌}
use mimuw.Prelude.{leb, ltb, ◌==◌, if◌then◌else◌, length, take, get_or}
use mimuw.Crosswords.Area.{Pos, RectArea}

pub data Orientation : Type 0 where
  horizontal vertical : Orientation

-- The code of '?'
abbrev pub question_mark : ℕ
question_mark = 63

abbrev pub default_word : List ℕ
default_word = question_mark ∷ []

abbrev pub default_char : ℕ
default_char = 0

pub record Word : Type 0 where
  pub coordinates : Pos
  pub orientation : Orientation
  pub word : List ℕ

abbrev pub is_empty_text : List ℕ → Bool
is_empty_text [] = true
is_empty_text (c ∷ cs) = false

abbrev pub is_question : List ℕ → Bool
is_question [] = false
is_question (c ∷ []) = c == question_mark
is_question (c ∷ d ∷ cs) = false

-- The two tests that shorten a word; both look at the first coordinate.
unfoldable pub too_long : (size_max first : ℕ) → List ℕ → Bool
too_long size_max first new_word = ltb (size_max - first) ((length new_word + 1) % suc size_max)

unfoldable pub fitted : (size_max : ℕ) → Pos → Orientation → List ℕ → List ℕ
unfolding too_long
fitted size_max p horizontal new_word =
    if too_long size_max p.first new_word
    then take (((size_max - p.first) + 1) % suc size_max) new_word
    else if is_empty_text new_word
    then default_word
    else new_word
fitted size_max p vertical new_word =
    if too_long size_max p.first new_word
    then take (((size_max - p.second) + 1) % suc size_max) new_word
    else if is_empty_text new_word
    then default_word
    else new_word

unfoldable pub make_word : (size_max : ℕ) → Pos → Orientation → List ℕ → Word
unfolding fitted
make_word size_max p o new_word = record {
  coordinates = p;
  orientation = o;
  word = fitted size_max p o new_word;
}

abbrev pub same_way : Orientation → Orientation → Bool
same_way horizontal horizontal = true
same_way vertical vertical = true
same_way _ _ = false

abbrev pub eq_pos : Pos → Pos → Bool
eq_pos p q = p.first == q.first && (p.second == q.second)

-- The operator ==
unfoldable pub equal_words : Word → Word → Bool
equal_words v w =
    if eq_pos v.coordinates w.coordinates && same_way v.orientation w.orientation
    then true
    else false

pub data StrongOrdering : Type 0 where
  less greater equal : StrongOrdering

-- The operator <=>
unfoldable pub compare_words : Word → Word → StrongOrdering
compare_words v w =
    if ltb v.coordinates.first w.coordinates.first
    then less
    else if ltb w.coordinates.first v.coordinates.first
    then greater
    else if ltb v.coordinates.second w.coordinates.second
    then less
    else if ltb w.coordinates.second v.coordinates.second
    then greater
    else if same_way v.orientation horizontal && same_way w.orientation vertical
    then less
    else if same_way v.orientation vertical && same_way w.orientation horizontal
    then greater
    else equal

-- The last coordinate of a word along its direction
unfoldable pub last_place : (size_max start length : ℕ) → ℕ
last_place size_max start n =
    if ltb (size_max - start) n
    then size_max
    else (start + (n + size_max) % suc size_max) % suc size_max

unfoldable pub get_end_position : ℕ → Word → Pos
unfolding last_place
get_end_position size_max w = elim w.orientation [
  | horizontal ↦ record {
    first = last_place size_max w.coordinates.first (length w.word);
    second = w.coordinates.second;
  }
  | vertical ↦ record {
    first = w.coordinates.first;
    second = last_place size_max w.coordinates.second (length w.word);
  }
]

unfoldable pub at : Word → ℕ → ℕ
at w letter =
    if is_question w.word && (letter == 0) || leb (length w.word) letter
    then default_char
    else get_or w.word letter default_char

unfoldable pub rect_area : ℕ → Word → RectArea
unfolding get_end_position
rect_area size_max w = record {
  left_top = w.coordinates;
  right_bottom = get_end_position size_max w;
}
