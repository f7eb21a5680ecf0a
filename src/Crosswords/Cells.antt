-- ===== src/Crosswords/Cells.antt =====
-- What the loops of crosswords.h do to the letters: which cells they write, and what stays.
use mimuw.Prelude.{ℕ, zero, suc, ◌+◌, ◌-◌, ◌<◌, ◌≤◌, ◌≡◌, ◌≢◌, refl, sym, ap, ◌∙◌, arith}
use mimuw.Prelude.{Bool, true, false, not, Option, none, some, Bool-cases, inl, inr}
use mimuw.Prelude.{length, ◌||◌, ltb, ◌==◌, if◌then◌else◌}
use mathlib.Core.Option
use mathlib.Core.Path.{subst}
use mimuw.Crosswords.Area.{Pos}
use mimuw.Crosswords.Word.{Orientation, horizontal, vertical, Word, eq_pos, same_way, at}
use mimuw.Crosswords.Board.{
  LetterId, Letters, protected_char, protected_by, put, insert, cell, convert_letter, fits_at,
  fits_ahead, check_line, write_word, protect_line, protect_end, insert_line,
}

-- The line of a position, and its place on it
abbrev pub line : Orientation → Pos → ℕ
line horizontal p = p.second
line vertical p = p.first

abbrev pub place : Orientation → Pos → ℕ
place horizontal p = p.first
place vertical p = p.second

pub cell-line : (o : Orientation) (p : Pos) → cell o (line o p) (place o p) ≡ p
cell-line horizontal p = refl
cell-line vertical p = refl

eq_pos-cell : (o : Orientation) (l j q : ℕ) → j ≢ q → eq_pos (cell o l j) (cell o l q) ≡ false
eq_pos-cell horizontal l j q n = ground arith
eq_pos-cell vertical l j q n = ground arith

pub eq_pos_refl : (p : Pos) → eq_pos p p ≡ true
eq_pos_refl p = ground arith

pub eq_pos-eq : (p q : Pos) → eq_pos p q ≡ true → p ≡ q
eq_pos-eq p q e =
    let x : p.first ≡ q.first = ground (arith, e) in
    let y : p.second ≡ q.second = ground (arith, e) in λ i. record { first = x i; second = y i }

-- The letters after some protections
pub data Protects (ls : Letters) : Letters → Type 0 where
  unchanged : Protects ls ls
  protects :
      {ls' : Letters}
      → (p : Pos) (o : Orientation) → Protects ls ls'
      → Protects ls (insert ls' p (protected_by o))

pub Protects-found :
    {ls ls' : Letters} (p : Pos) (x : LetterId) → Protects ls ls' → ls p ≡ some x → ls' p ≡ some x
unfolding insert
Protects-found p x unchanged e = e
Protects-found p x (protects q o s) e = rw (Protects-found p x s e, insert) refl

insert-letter :
    (r : Option LetterId) (b : Bool) (o : Orientation) (x : LetterId)
    → elim r [ some y ↦ some y | none ↦ if b then some (protected_by o) else none ] ≡ some x
    → x.letter ≢ protected_char
    → r ≡ some x
insert-letter (some y) b o x e n = e
insert-letter none true o x e n =
    absurd (n (sym (ap (λ y. y.letter) (Option.some-injective _ _ e))))
insert-letter none false o x e n = ground (arith, e)

-- A letter that is found after protections was found before.
pub Protects-letter :
    {ls ls' : Letters} (p : Pos) (x : LetterId)
    → Protects ls ls'
    → ls' p ≡ some x
    → x.letter ≢ protected_char
    → ls p ≡ some x
unfolding insert
Protects-letter p x unchanged e n = e
Protects-letter p x (protects {ls' = ls'} q o s) e n =
    Protects-letter p x s (insert-letter (ls' p) (eq_pos q p) o x e n) n

when-Protects :
    {ls : Letters} (b : Bool) {a c : Letters}
    → Protects ls a
    → Protects ls c
    → Protects ls (if b then c else a)
when-Protects true s t = t
when-Protects false s t = s

protect_line-Protects :
    {ls0 : Letters} (o : Orientation) (l n j : ℕ) (ls : Letters)
    → Protects ls0 ls
    → Protects ls0 (protect_line o l n j ls)
unfolding protect_line
protect_line-Protects o l zero j ls s = s
protect_line-Protects o l (suc n) j ls s =
    protect_line-Protects o l n (suc j) _ (protects (cell o l j) o s)

protect_end-Protects :
    {ls0 : Letters} (m : ℕ) (o : Orientation) (l j : ℕ) (ls : Letters)
    → Protects ls0 ls
    → Protects ls0 (protect_end m o l j ls)
unfolding protect_end
protect_end-Protects m o l j ls s =
    let s1 = when-Protects (ltb 0 l) s (protects (cell o (l - 1) j) o s) in
    let s2 = when-Protects (ltb l m) s1 (protects (cell o (suc l) j) o s1) in
    protects (cell o l j) o s2

-- After the letters, insert_line only protects.
pub insert_line-Protects :
    (m : ℕ) (w : Word) (o : Orientation) (l start last : ℕ) (ls : Letters)
    → Protects (write_word w o l (suc last - start) 0 start ls) (insert_line m w o l start last ls)
unfolding insert_line
insert_line-Protects m w o l start last ls =
    let s1 : Protects (write_word w o l (suc last - start) 0 start ls)
        (write_word w o l (suc last - start) 0 start ls) =
      unchanged in
    let s2 =
      when-Protects (ltb 0 l) s1 (protect_line-Protects o (l - 1) (suc last - start) start _ s1) in
    let s3 =
      when-Protects (ltb l m) s2 (protect_line-Protects o (suc l) (suc last - start) start _ s2) in
    let s4 = when-Protects (ltb 0 start) s3 (protect_end-Protects m o l (start - 1) _ s3) in
    when-Protects (ltb last m) s4 (protect_end-Protects m o l (suc last) _ s4)

write_word-before :
    (w : Word) (o : Orientation) (l n i j q : ℕ) (ls : Letters)
    → q < j
    → write_word w o l n i j ls (cell o l q) ≡ ls (cell o l q)
unfolding write_word put
write_word-before w o l zero i j q ls h = refl
write_word-before w o l (suc n) i j q ls h =
    write_word-before w o l n (suc i) (suc j) q _ (omega (arith, h))
    ∙ (rw (eq_pos-cell o l j q (λ e. omega (arith, e, h))) refl)

pub write_word-within :
    (w : Word) (o : Orientation) (l n i j q : ℕ) (ls : Letters)
    → j ≤ q
    → q < j + n
    → write_word w o l n i j ls (cell o l q)
      ≡ some (record { letter = convert_letter (at w (i + (q - j))); way = o })
unfolding write_word put
write_word-within w o l zero i j q ls a b = absurd (omega (arith, a, b))
write_word-within w o l (suc n) i j q ls a b = elim (Bool-cases (j == q)) [
  | inl e ↦
      let f : j ≡ q = ground (arith, e) in
      subst
        (λ q.
          write_word w o l (suc n) i j ls (cell o l q)
          ≡ some (record { letter = convert_letter (at w (i + (q - j))); way = o }))
        f
        (write_word-before w o l n (suc i) (suc j) j _ (omega arith)
          ∙ (rw (eq_pos_refl (cell o l j)) (
              ap (λ k. some (record { letter = convert_letter (at w k); way = o })) (omega arith))))
  | inr e ↦
      let f : suc j ≤ q = ground (arith, e, a) in
      let g : suc i + (q - suc j) ≡ i + (q - j) = omega (arith, f) in
      write_word-within w o l n (suc i) (suc j) q _ f (omega (arith, b))
      ∙ ap (λ k. some (record { letter = convert_letter (at w k); way = o })) g
]

both_true : (b c : Bool) → (if b then c else false) ≡ true → (b ≡ true) × (c ≡ true)
both_true b c e = ground (arith, e)

check_line-fits_at :
    (m : ℕ) (ls : Letters) (w : Word) (o : Orientation) (l start n j q : ℕ)
    → check_line m ls w o l start n j ≡ true
    → j ≤ q
    → q < j + n
    → fits_at m ls w o l start q (ls (cell o l q)) ≡ true
unfolding check_line
check_line-fits_at m ls w o l start zero j q e a b = absurd (omega (arith, a, b))
check_line-fits_at m ls w o l start (suc n) j q e a b =
    let (f, r) =
      both_true (fits_at m ls w o l start j (ls (cell o l j)))
        (check_line m ls w o l start n (suc j)) e in
    elim (Bool-cases (j == q)) [
      | inl g ↦
          subst (λ q. fits_at m ls w o l start q (ls (cell o l q)) ≡ true) (ground (arith, g)) f
      | inr g ↦
          check_line-fits_at m ls w o l start n (suc j) q r (ground (arith, g, a))
            (omega (arith, b))
    ]

fits_at-other : (a c : ℕ) (b : Bool) → not (b || not (a == c)) ≡ true → a ≡ c
fits_at-other a c b e = ground (arith, e)

fits_at-letter :
    (m : ℕ) (ls : Letters) (w : Word) (o : Orientation) (l start j : ℕ) (x : LetterId)
    → fits_at m ls w o l start j (some x) ≡ true
    → x.letter ≢ protected_char
    → x.letter ≡ convert_letter (at w (j - start))
fits_at-letter m ls w o l start j x e n =
    let p : (x.letter == protected_char) ≡ false = ground (arith, n) in
    fits_at-other x.letter (convert_letter (at w (j - start))) (same_way x.way o) (
      subst
        (λ b.
          (if b
            then (if (j == m) || (length w.word == 1)
                then false
                else fits_ahead m ls w o l start j (ls (cell o l (suc j))))
            else not (same_way x.way o || not (x.letter == convert_letter (at w (j - start)))))
          ≡ true)
        p e)

-- A letter that stands in the way of a word that passes the check is a letter of the word.
pub check_line-letter :
    (m : ℕ) (w : Word) (o : Orientation) (l start last q : ℕ) (ls : Letters) (x : LetterId)
    → check_line m ls w o l start (suc last - start) start ≡ true
    → start ≤ q
    → q ≤ last
    → ls (cell o l q) ≡ some x
    → x.letter ≢ protected_char
    → x.letter ≡ convert_letter (at w (q - start))
check_line-letter m w o l start last q ls x e a b f n =
    fits_at-letter m ls w o l start q x
      (subst (λ r. fits_at m ls w o l start q r ≡ true) f
        (check_line-fits_at m ls w o l start (suc last - start) start q e a (omega (arith, a, b))))
      n
