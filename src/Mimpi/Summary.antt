-- ===== src/Mimpi/Summary.antt =====
-- What the operations of the reduction of mimpi.c make of a list of bytes.
use mimuw.Prelude.{ℕ, ◌+◌, ◌*◌, ◌/◌, ◌%◌, ◌≤◌, ◌<◌, ◌≡◌, refl, ap, ◌∙◌, sym, arith}
use mimuw.Prelude.{Bool, true, false, ◌||◌, ◌==◌, ltb, List, [], ◌∷◌, ◌++◌}
use mimuw.Prelude.{Bool-cases, inl, inr}
use native.Mathlib.Nat.{mul_comm, mul_assoc, add-mul-mod_self_left, div-add-mod}
use mimuw.Mimpi.Collective.{Op, sum, max, min, prod, apply_op}

mod-mul-mod : (a c : ℕ) → (a % 256 * c) % 256 ≡ (a * c) % 256
mod-mul-mod a c =
    sym (add-mul-mod_self_left (a % 256 * c) 256 (a / 256 * c))
    ∙ ap (λ k. k % 256) {x = a % 256 * c + 256 * (a / 256 * c)} {y = a * c}
        (omega (arith, ap (λ (t : ℕ). t * c) (div-add-mod a 256)))

mul-mod-mod : (a c : ℕ) → (a * (c % 256)) % 256 ≡ (a * c) % 256
mul-mod-mod a c =
    ap (λ k. k % 256) (mul_comm a (c % 256)) ∙ mod-mul-mod c a ∙ ap (λ k. k % 256) (mul_comm c a)

abbrev pub total : List ℕ → ℕ
total [] = 0
total (x ∷ xs) = x + total xs

abbrev pub product : List ℕ → ℕ
product [] = 1
product (x ∷ xs) = x * product xs

abbrev pub is_member : ℕ → List ℕ → Bool
is_member x [] = false
is_member x (y ∷ ys) = (x == y) || is_member x ys

-- No number of the list is above x, and none is below it.
abbrev pub IsUpper : ℕ → List ℕ → Type 0
IsUpper x [] = Unit {0}
IsUpper x (y ∷ ys) = (y ≤ x) × IsUpper x ys

abbrev pub IsLower : ℕ → List ℕ → Type 0
IsLower x [] = Unit {0}
IsLower x (y ∷ ys) = (x ≤ y) × IsLower x ys

-- What the operation makes of some bytes: the sum or the product without its higher bytes, or the
-- greatest or the least of them.
abbrev pub Summary : Op → List ℕ → ℕ → Type 0
Summary sum xs x = x ≡ total xs % 256
Summary prod xs x = x ≡ product xs % 256
Summary max xs x = (is_member x xs ≡ true) × IsUpper x xs
Summary min xs x = (is_member x xs ≡ true) × IsLower x xs

pub append_nil : (xs : List ℕ) → xs ++ [] ≡ xs
append_nil [] = refl
append_nil (x ∷ xs) = ap (λ t. x ∷ t) (append_nil xs)

total-append : (xs ys : List ℕ) → total (xs ++ ys) ≡ total xs + total ys
total-append [] ys = omega arith
total-append (x ∷ xs) ys = omega (arith, total-append xs ys)

product-append : (xs ys : List ℕ) → product (xs ++ ys) ≡ product xs * product ys
product-append [] ys = omega arith
product-append (x ∷ xs) ys =
    ap (λ t. x * t) (product-append xs ys) ∙ sym (mul_assoc x (product xs) (product ys))

is_member-append :
    (x : ℕ) (xs ys : List ℕ) → is_member x (xs ++ ys) ≡ (is_member x xs || is_member x ys)
is_member-append x [] ys = refl
is_member-append x (z ∷ xs) ys = let ih = is_member-append x xs ys in ground arith

IsUpper-append :
    (x y z : ℕ) (xs ys : List ℕ)
    → x ≤ z
    → y ≤ z
    → IsUpper x xs
    → IsUpper y ys
    → IsUpper z (xs ++ ys)
IsUpper-append x y z [] [] u v a b = tt
IsUpper-append x y z [] (w ∷ ys) u v a b =
    (omega (arith, b.0, v), IsUpper-append x y z [] ys u v a b.1)
IsUpper-append x y z (w ∷ xs) ys u v a b =
    (omega (arith, a.0, u), IsUpper-append x y z xs ys u v a.1 b)

IsLower-append :
    (x y z : ℕ) (xs ys : List ℕ)
    → z ≤ x
    → z ≤ y
    → IsLower x xs
    → IsLower y ys
    → IsLower z (xs ++ ys)
IsLower-append x y z [] [] u v a b = tt
IsLower-append x y z [] (w ∷ ys) u v a b =
    (omega (arith, b.0, v), IsLower-append x y z [] ys u v a b.1)
IsLower-append x y z (w ∷ xs) ys u v a b =
    (omega (arith, a.0, u), IsLower-append x y z xs ys u v a.1 b)

pub apply_op-Summary :
    (op : Op) (xs ys : List ℕ) (x y : ℕ)
    → Summary op xs x
    → Summary op ys y
    → Summary op (xs ++ ys) (apply_op op x y)
unfolding apply_op
apply_op-Summary sum xs ys x y a b = omega (arith, total-append xs ys)
apply_op-Summary prod xs ys x y a b =
    ap (λ (t : ℕ). (t * y) % 256) a
    ∙ mod-mul-mod (product xs) y
    ∙ ap (λ (t : ℕ). (product xs * t) % 256) b
    ∙ mul-mod-mod (product xs) (product ys)
    ∙ ap (λ k. k % 256) (sym (product-append xs ys))
apply_op-Summary max xs ys x y a b = elim (Bool-cases (ltb x y)) [
  | inl e ↦ rw e (
    is_member-append y xs ys ∙ ground (arith, b.0),
    IsUpper-append x y y xs ys (ground (arith, e)) (omega arith) a.1 b.1,
  )
  | inr e ↦ rw e (
    is_member-append x xs ys ∙ ground (arith, a.0),
    IsUpper-append x y x xs ys (omega arith) (ground (arith, e)) a.1 b.1,
  )
]
apply_op-Summary min xs ys x y a b = elim (Bool-cases (ltb y x)) [
  | inl e ↦ rw e (
    is_member-append y xs ys ∙ ground (arith, b.0),
    IsLower-append x y y xs ys (ground (arith, e)) (omega arith) a.1 b.1,
  )
  | inr e ↦ rw e (
    is_member-append x xs ys ∙ ground (arith, a.0),
    IsLower-append x y x xs ys (omega arith) (ground (arith, e)) a.1 b.1,
  )
]

pub one-Summary : (op : Op) (x : ℕ) → x < 256 → Summary op (x ∷ []) x
one-Summary sum x h = omega arith
one-Summary prod x h = omega arith
one-Summary max x h = (ground arith, (omega arith, tt))
one-Summary min x h = (ground arith, (omega arith, tt))
