-- ===== src/Crosswords/Runs.antt =====
-- Every crossword that crosswords.h makes is valid, and a sum keeps what stood there.
use mathlib.Core.List.Memᴰ
use mathlib.Core.List.{Memᴰ, append-nil, append_assoc}
use mathlib.Core.Path.{subst}
use native.Mathlib.Nat.{suc-mod}
use mimuw.Prelude.{ℕ, suc, ◌-◌, ◌%◌, ◌≡◌, ◌≢◌, refl, sym, ap, ◌∙◌}
use mimuw.Prelude.{true, false, List, [], ◌∷◌, ◌++◌, Bool-cases, ◌⊎◌, inl, inr, if◌then◌else◌}
use mimuw.Crosswords.Area.{Pos}
use mimuw.Crosswords.Areas.{Contains, embrace-Contains, embrace-holds}
use mimuw.Crosswords.Word.{Orientation, horizontal, vertical, Word, same_way, at, get_end_position}
use mimuw.Crosswords.Board.{Letters, protected_char, cell, convert_letter, check_line}
use mimuw.Crosswords.Written.{Reads, insert_line-Reads, insert_line-keeps, insert_line-letters}
use mimuw.Crosswords.Crossword.{
  Crossword, blank_crossword, check_word, insert_word, insert_words, make_crossword, add_words,
  plus,
}
use mimuw.Crosswords.Valid.{line_of, start_of, last_of, Spelled, count, IsValid, Stored}
use mimuw.Crosswords.Valid.{
  count-append, blank_crossword-IsValid, check_word-line, insert_word-Stored,
}
use mimuw.Crosswords.Valid.{convert_letter-unprotected}

-- Every letter stays.
abbrev pub Keeps : Letters → Letters → Type 0
Keeps ls ls' = (p : Pos) (l : ℕ) → l ≢ protected_char → Reads ls p l → Reads ls' p l

module _ {m : ℕ} {w : Word} {c d : Crossword}
    (e : check_line m c.crossword_letters w w.orientation
        (line_of w)
        (start_of w)
        (suc (last_of m w) - start_of w)
        (start_of w)
      ≡ true)
    (s : Stored m w c d) where
  Stored-Keeps : Keeps c.crossword_letters d.crossword_letters
  Stored-Keeps p l n r =
      subst (λ ls. Reads ls p l) (sym s.letters)
        (insert_line-keeps m w w.orientation (line_of w) (start_of w) (last_of m w)
          c.crossword_letters p l e n r)

  Stored-Spelled : (v : Word) → Spelled m c.crossword_letters v → Spelled m d.crossword_letters v
  Stored-Spelled v h q a b = Stored-Keeps _ _ (convert_letter-unprotected _) (h q a b)

  new-Spelled : Spelled m d.crossword_letters w
  new-Spelled q a b =
      subst
        (λ ls. Reads ls (cell w.orientation (line_of w) q) (convert_letter (at w (q - start_of w))))
        (sym s.letters)
        (insert_line-Reads m w w.orientation (line_of w) (start_of w) (last_of m w)
          c.crossword_letters q a b)

  member : (v : Word) → Memᴰ v d.words → Memᴰ v c.words ⊎ (v ≡ w)
  member v k = elim (Memᴰ.append_cases c.words (subst (Memᴰ v) s.list k)) [
    | inl a ↦ inl a
    | inr b ↦ inr (Memᴰ.eq_of_singleton b)
  ]

  old_member : (v : Word) → Memᴰ v c.words → Memᴰ v d.words
  old_member v k = subst (Memᴰ v) (sym s.list) (Memᴰ.append_left (w ∷ []) k)

  new_member : Memᴰ w d.words
  new_member = subst (Memᴰ w) (sym s.list) (Memᴰ.append_right c.words (Memᴰ.head refl))

  area-Contains : (p : Pos) → Contains c.area p → Contains d.area p
  area-Contains p h =
      subst (λ a. Contains a p) (sym s.extent)
        (embrace-Contains _ (get_end_position m w) p (embrace-Contains c.area w.coordinates p h))

  new-Contains : Contains d.area w.coordinates × Contains d.area (get_end_position m w)
  new-Contains = (
    subst (λ a. Contains a w.coordinates) (sym s.extent)
        (embrace-Contains _ (get_end_position m w) _ (embrace-holds c.area w.coordinates)),
    subst (λ a. Contains a (get_end_position m w)) (sym s.extent)
        (embrace-holds _ (get_end_position m w)),
  )

  counted :
      (o : Orientation) (x y : ℕ)
      → x ≡ count o c.words % suc m
      → y ≡ (if same_way w.orientation o then suc x % suc m else x)
      → y ≡ count o d.words % suc m
  counted o x y h k = elim (Bool-cases (same_way w.orientation o)) [
    | inl t ↦
        rw (s.list, count-append o c.words w, t)
          (subst (λ z. z ≡ suc (count o c.words) % suc m) (sym k)
            (rw (t, h) (sym (suc-mod (count o c.words) (suc m)))))
    | inr f ↦
        rw (s.list, count-append o c.words w, f)
          (subst (λ z. z ≡ count o c.words % suc m) (sym k) (rw f h))
  ]

  Stored-IsValid : IsValid m c → IsValid m d
  Stored-IsValid v = record {
    spelled = λ u k. elim (member u k) [
      | inl a ↦ Stored-Spelled u (v.spelled u a)
      | inr b ↦ subst (Spelled m d.crossword_letters) (sym b) new-Spelled
    ];
    covered = λ p l n r.
        elim (insert_line-letters m w w.orientation (line_of w) (start_of w) (last_of m w)
          c.crossword_letters p l n (subst (λ ls. Reads ls p l) s.letters r)) [
            | inl a ↦ let (u, k, h) = v.covered p l n a in (u, old_member u k, h)
            | inr b ↦ (w, new_member, b)
          ];
    within = λ u k. elim (member u k) [
      | inl a ↦ let (x, y) = v.within u a in (area-Contains _ x, area-Contains _ y)
      | inr b ↦
          subst (λ u. Contains d.area u.coordinates × Contains d.area (get_end_position m u))
            (sym b) new-Contains
    ];
    vertical_count = counted vertical _ _ v.vertical_count s.vertical_counter;
    horizontal_count = counted horizontal _ _ v.horizontal_count s.horizontal_counter;
  }

-- The words that d has more than c come from the list.
pub record Extended (m : ℕ) (from : List Word) (c d : Crossword) : Type 0 where
  pub valid : IsValid m d
  pub letters : Keeps c.crossword_letters d.crossword_letters
  pub added : List Word
  pub word_list : d.words ≡ c.words ++ added
  pub of_list : (w : Word) → Memᴰ w added → Memᴰ w from

insert_word-refused :
    (m : ℕ) (w : Word) (c : Crossword) → check_word m w c ≡ false → insert_word m w c ≡ (false, c)
unfolding insert_word
insert_word-refused m w c e = rw e refl

refused-Extended : (m : ℕ) (from : List Word) (c : Crossword) → IsValid m c → Extended m from c c
refused-Extended m from c v = record {
  valid = v;
  letters = λ p l n r. r;
  added = [];
  word_list = sym (append-nil c.words);
  of_list = λ w k. absurd (Memᴰ.not-nil k);
}

insert_word-Extended :
    (m : ℕ) (w : Word) (c : Crossword) → IsValid m c → Extended m (w ∷ []) c (insert_word m w c).1
insert_word-Extended m w c v = elim (Bool-cases (check_word m w c)) [
  | inl e ↦
      let s = insert_word-Stored m w.coordinates w.orientation w.word c e in
      let l = sym (check_word-line m w.coordinates w.orientation w.word c) ∙ e in
      record {
        valid = Stored-IsValid l s v;
        letters = Stored-Keeps l s;
        added = w ∷ [];
        word_list = s.list;
        of_list = λ u k. k;
      }
  | inr e ↦
      subst (λ x. Extended m (w ∷ []) c x.1) (sym (insert_word-refused m w c e))
        (refused-Extended m (w ∷ []) c v)
]

then-Extended :
    {m : ℕ} {w : Word} {ws : List Word} {a b c : Crossword}
    → Extended m (w ∷ []) a b
    → Extended m ws b c
    → Extended m (w ∷ ws) a c
then-Extended {w = w} {ws = ws} {a = a} g h = record {
  valid = h.valid;
  letters = λ p l n r. h.letters p l n (g.letters p l n r);
  added = g.added ++ h.added;
  word_list =
      h.word_list ∙ ap (λ x. x ++ h.added) g.word_list ∙ append_assoc a.words g.added h.added;
  of_list = λ u k. elim (Memᴰ.append_cases g.added k) [
    | inl x ↦ Memᴰ.append_left ws (g.of_list u x)
    | inr y ↦ Memᴰ.tail (h.of_list u y)
  ];
}

insert_words-Extended :
    (m : ℕ) (ws : List Word) (c : Crossword) → IsValid m c → Extended m ws c (insert_words m ws c)
unfolding insert_words
insert_words-Extended m [] c v = refused-Extended m [] c v
insert_words-Extended m (w ∷ ws) c v =
    let g = insert_word-Extended m w c v in then-Extended g (insert_words-Extended m ws _ g.valid)

-- The sum tests each word, and insert_word tests it again.
add_words-insert_words :
    (m : ℕ) (ws : List Word) (c : Crossword) → add_words m ws c ≡ insert_words m ws c
unfolding add_words insert_words
add_words-insert_words m [] c = refl
add_words-insert_words m (w ∷ ws) c = elim (Bool-cases (check_word m w c)) [
  | inl e ↦ rw e (add_words-insert_words m ws _)
  | inr e ↦ rw e (add_words-insert_words m ws c)
]

-- Every crossword that is constructed is valid: each of its words can be read along its cells, each
-- letter on the board is in a cell of one of its words, the words lie within its area, and its
-- counters are the numbers of its vertical and its horizontal words, as the machine counts.
pub make_crossword-IsValid :
    (m : ℕ) (first_word : Word) (other_words : List Word)
    → IsValid m (make_crossword m first_word other_words)
unfolding make_crossword
make_crossword-IsValid m w ws =
    (insert_words-Extended m ws _
      (insert_word-Extended m w blank_crossword (blank_crossword-IsValid m)).valid).valid

-- The sum of a valid crossword and another is valid, has the words of the first and after them only
-- words of the other, and shows every letter of the first where it was.
pub plus-Extended :
    (m : ℕ) (c other : Crossword) → IsValid m c → Extended m other.words c (plus m c other)
unfolding plus
plus-Extended m c other v =
    subst (Extended m other.words c) (sym (add_words-insert_words m other.words c))
      (insert_words-Extended m other.words c v)
