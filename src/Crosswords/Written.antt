-- ===== src/Crosswords/Written.antt =====
-- The letters that a cell shows before and after a word is written by crosswords.h.
use mathlib.Core.Path.{subst}
use mimuw.Prelude.{ℕ, zero, suc, ◌+◌, ◌-◌, ◌<◌, ◌≤◌, ◌≡◌, ◌≢◌, refl, sym, ap, ◌∙◌, arith}
use mimuw.Prelude.{Bool, true, false, ◌&&◌, some, Bool-cases, ◌⊎◌, inl, inr}
use mimuw.Prelude.{leb, ltb, ◌==◌}
use mimuw.Crosswords.Area.{Pos}
use mimuw.Crosswords.Word.{Orientation, horizontal, vertical, Word, eq_pos, at}
use mimuw.Crosswords.Board.{
  LetterId, Letters, protected_char, put, cell, convert_letter, check_line, write_word, insert_line,
}
use mimuw.Crosswords.Cells.{line, place, cell-line, Protects-found, Protects-letter}
use mimuw.Crosswords.Cells.{insert_line-Protects, write_word-within, check_line-letter}

-- A cell shows a char.
abbrev pub Reads : Letters → Pos → ℕ → Type 0
Reads ls p c = (x : LetterId) × (ls p ≡ some x) × (x.letter ≡ c)

abbrev on_cells : Orientation → (l j n : ℕ) → Pos → Bool
on_cells o l j n p = line o p == l && leb j (place o p) && ltb (place o p) (j + n)

eq_pos-off :
    (o : Orientation) (l j n : ℕ) (p : Pos)
    → on_cells o l j (suc n) p ≡ false
    → eq_pos (cell o l j) p ≡ false
eq_pos-off horizontal l j n p h = ground (arith, h)
eq_pos-off vertical l j n p h = ground (arith, h)

on_cells-next :
    (o : Orientation) (l j n : ℕ) (p : Pos)
    → on_cells o l j (suc n) p ≡ false
    → on_cells o l (suc j) n p ≡ false
on_cells-next o l j n p h = ground (arith, h)

write_word-outside :
    (w : Word) (o : Orientation) (l n i j : ℕ) (ls : Letters) (p : Pos)
    → on_cells o l j n p ≡ false
    → write_word w o l n i j ls p ≡ ls p
unfolding write_word put
write_word-outside w o l zero i j ls p h = refl
write_word-outside w o l (suc n) i j ls p h =
    write_word-outside w o l n (suc i) (suc j) _ p (on_cells-next o l j n p h)
    ∙ (rw (eq_pos-off o l j n p h) refl)

cell_of :
    (o : Orientation) (l j n : ℕ) (p : Pos)
    → on_cells o l j n p ≡ true
    → (q : ℕ) × (j ≤ q) × (q < j + n) × (p ≡ cell o l q)
cell_of o l j n p h =
    let a : line o p ≡ l = ground (arith, h) in
    (
      place o p,
      ground (arith, h),
      ground (arith, h),
      sym (cell-line o p) ∙ ap (λ l. cell o l (place o p)) a,
    )

module _ (m : ℕ) (w : Word) (o : Orientation) (l start last : ℕ) (ls : Letters) where
  -- A word that is written can be read.
  pub insert_line-Reads :
      (q : ℕ)
      → start ≤ q
      → q ≤ last
      → Reads (insert_line m w o l start last ls) (cell o l q) (convert_letter (at w (q - start)))
  insert_line-Reads q a b = (
    record { letter = convert_letter (at w (0 + (q - start))); way = o },
    Protects-found (cell o l q) _ (insert_line-Protects m w o l start last ls)
        (write_word-within w o l (suc last - start) 0 start q ls a (omega (arith, a, b))),
    ap (λ k. convert_letter (at w k)) {x = 0 + (q - start)} {y = q - start} (omega arith),
  )

  -- A letter stays where a word that fits is written.
  pub insert_line-keeps :
      (p : Pos) (c : ℕ)
      → check_line m ls w o l start (suc last - start) start ≡ true
      → c ≢ protected_char
      → Reads ls p c
      → Reads (insert_line m w o l start last ls) p c
  insert_line-keeps p c e n (x, f, g) =
      elim (Bool-cases (on_cells o l start (suc last - start) p)) [
        | inl h ↦
            let (q, a, b, s) = cell_of o l start (suc last - start) p h in
            let b' : q ≤ last = omega (arith, a, b) in
            let k =
              check_line-letter m w o l start last q ls x e a b' (ap ls (sym s) ∙ f)
                (λ z. n (sym g ∙ z)) in
            subst (λ p. Reads (insert_line m w o l start last ls) p c) (sym s)
              (subst (λ c. Reads (insert_line m w o l start last ls) (cell o l q) c) (sym k ∙ g)
                (insert_line-Reads q a b'))
        | inr h ↦ (
          x,
          Protects-found p x (insert_line-Protects m w o l start last ls)
              (write_word-outside w o l (suc last - start) 0 start ls p h ∙ f),
          g,
        )
      ]

  -- Every letter was there before, or stands in a cell of the word.
  pub insert_line-letters :
      (p : Pos) (c : ℕ)
      → c ≢ protected_char
      → Reads (insert_line m w o l start last ls) p c
      → Reads ls p c ⊎ (q : ℕ) × (start ≤ q) × (q ≤ last) × (p ≡ cell o l q)
  insert_line-letters p c n (x, f, g) =
      let f' =
        Protects-letter p x (insert_line-Protects m w o l start last ls) f (λ z. n (sym g ∙ z)) in
      elim (Bool-cases (on_cells o l start (suc last - start) p)) [
        | inl h ↦
            let (q, a, b, s) = cell_of o l start (suc last - start) p h in
            inr (q, a, omega (arith, a, b), s)
        | inr h ↦ inl (x, sym (write_word-outside w o l (suc last - start) 0 start ls p h) ∙ f', g)
      ]
