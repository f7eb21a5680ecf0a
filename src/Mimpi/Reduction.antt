-- ===== src/Mimpi/Reduction.antt =====
-- The reduction of mimpi.c, over the bytes of a whole tree of processes.
use mimuw.Prelude.{ℕ, zero, suc, ◌<◌, ◌≡◌, refl, ap, ◌∙◌, sym, arith}
use mimuw.Prelude.{some, List, [], ◌∷◌, ◌++◌, length, get_elem?}
use mathlib.Core.Option
use mathlib.Core.Path.{subst}
use mimuw.Mimpi.Collective.{Op, apply_op, combine}
use mimuw.Mimpi.Summary.{Summary, append_nil, apply_op-Summary, one-Summary}

-- The processes below a rank in the tree of `MIMPI_Reduce`, with the bytes that each contributes.
pub data Contributors : Type 0 where
  nobody : Contributors
  process : List ℕ → (left right : Contributors) → Contributors

-- A buffer after the bytes of a child were combined into it. The child has combined what its own
-- children sent, first the left one and then the right one.
unfoldable pub with_child : Op → (buffer : List ℕ) → Contributors → List ℕ
unfolding combine
with_child op b nobody = b
with_child op b (process own left right) =
    combine op b (with_child op (with_child op own left) right)

abbrev pub byte : List ℕ → ℕ → ℕ
byte [] i = 0
byte (b ∷ bs) zero = b
byte (b ∷ bs) (suc i) = byte bs i

-- The bytes at one place, of all the processes.
abbrev pub column : ℕ → Contributors → List ℕ
column i nobody = []
column i (process own left right) = (byte own i ∷ column i left) ++ column i right

-- Every process contributes n bytes.
abbrev pub AreBytes : List ℕ → Type 0
AreBytes [] = Unit {0}
AreBytes (b ∷ bs) = (b < 256) × AreBytes bs

abbrev pub Contribute : ℕ → Contributors → Type 0
Contribute n nobody = Unit {0}
Contribute n (process own left right) =
    (length own ≡ n) × (AreBytes own) × (Contribute n left) × (Contribute n right)

byte_of : (bs : List ℕ) (i : ℕ) → i < length bs → get_elem? bs i ≡ some (byte bs i)
byte_of [] i h = absurd (omega arith)
byte_of (b ∷ bs) zero h = refl
byte_of (b ∷ bs) (suc i) h = byte_of bs i (omega arith)

byte_small : (bs : List ℕ) (i : ℕ) → AreBytes bs → byte bs i < 256
byte_small [] i h = omega arith
byte_small (b ∷ bs) zero h = h.0
byte_small (b ∷ bs) (suc i) h = byte_small bs i h.1

get_elem?-combine :
    (op : Op) (bs rs : List ℕ) (i x y : ℕ)
    → get_elem? bs i ≡ some x
    → get_elem? rs i ≡ some y
    → get_elem? (combine op bs rs) i ≡ some (apply_op op x y)
unfolding combine
get_elem?-combine op [] rs i x y a b = cc
get_elem?-combine op (c ∷ bs) [] i x y a b = cc
get_elem?-combine op (c ∷ bs) (r ∷ rs) zero x y a b = ap some (
    ap (λ t. apply_op op t r) (Option.some-injective c x a)
    ∙ ap (apply_op op x) (Option.some-injective r y b))
get_elem?-combine op (c ∷ bs) (r ∷ rs) (suc i) x y a b = get_elem?-combine op bs rs i x y a b

-- The byte i of a buffer is what the operation makes of the bytes xs.
abbrev Combined : Op → ℕ → List ℕ → List ℕ → Type 0
Combined op i bs xs = (x : ℕ) × (get_elem? bs i ≡ some x) × Summary op xs x

with_child-Combined :
    (op : Op) (n i : ℕ) (t : Contributors) (bs xs : List ℕ)
    → i < n
    → Contribute n t
    → Combined op i bs xs
    → Combined op i (with_child op bs t) (xs ++ column i t)
unfolding with_child
with_child-Combined op n i nobody bs xs lt h (x, e, s) =
    (x, e, subst (λ l. Summary op l x) (sym (append_nil xs)) s)
with_child-Combined op n i (process own left right) bs xs lt (size, small, hl, hr) (x, e, s) =
    let o : i < length own = omega (arith, size, lt) in
    let (y, f, g) =
      with_child-Combined op n i right (with_child op own left) (byte own i ∷ column i left) lt hr (
        with_child-Combined op n i left own (byte own i ∷ []) lt hl
          (byte own i, byte_of own i o, one-Summary op (byte own i) (byte_small own i small))) in
    (
      apply_op op x y,
      get_elem?-combine op bs (with_child op (with_child op own left) right) i x y e f,
      apply_op-Summary op xs ((byte own i ∷ column i left) ++ column i right) x y s g,
    )

length-combine : (op : Op) (bs rs : List ℕ) → length (combine op bs rs) ≡ length bs
unfolding combine
length-combine op [] rs = refl
length-combine op (b ∷ bs) [] = refl
length-combine op (b ∷ bs) (r ∷ rs) = ap suc (length-combine op bs rs)

pub length-with_child :
    (op : Op) (bs : List ℕ) (t : Contributors) → length (with_child op bs t) ≡ length bs
unfolding with_child
length-with_child op bs nobody = refl
length-with_child op bs (process own left right) =
    length-combine op bs (with_child op (with_child op own left) right)

-- In a tree of processes that each contribute n bytes, each of the n bytes at the root is the sum or
-- the product modulo 256 of the bytes that the processes contribute at its place, or the greatest or
-- the least of them.
pub reduction-Summary :
    (op : Op) (n i : ℕ) (own : List ℕ) (left right : Contributors)
    → i < n
    → Contribute n (process own left right)
    → (x : ℕ) × (get_elem? (with_child op (with_child op own left) right) i ≡ some x)
      × Summary op (column i (process own left right)) x
reduction-Summary op n i own left right lt (size, small, hl, hr) =
    let o : i < length own = omega (arith, size, lt) in
    with_child-Combined op n i right (with_child op own left) (byte own i ∷ column i left) lt hr (
      with_child-Combined op n i left own (byte own i ∷ []) lt hl
        (byte own i, byte_of own i o, one-Summary op (byte own i) (byte_small own i small)))
