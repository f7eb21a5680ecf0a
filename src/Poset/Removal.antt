-- ===== src/Poset/Removal.antt =====
-- `poset_remove` of poset.cc: relations that were transitive become direct, and none is lost.
use mimuw.Prelude.{ℕ, zero, suc, ◌-◌, ◌<◌, ◌≡◌, refl, ap, sym, ◌∙◌, arith}
use mimuw.Prelude.{Bool, true, ◌&&◌, ◌==◌, if◌then◌else◌, Bool-cases, inl, inr}
use mimuw.Poset.Matrix.{
  Matrix, Relation, relation, no_relation, rel_transitivity, related, is_transitive, set,
  change_smaller,
}
use mimuw.Poset.Matrix.{change_larger, release_at, release, remove_element, skip}
use mimuw.Poset.Order.{le, IsOrder, le_eq, erase-IsOrder}

-- Two arrays of the same size with the same order.
abbrev pub Agrees : Matrix → Matrix → Type 0
Agrees m m' = (m'.size ≡ m.size) × ((x y : ℕ) → le m' x y ≡ le m x y)

-- A relation that is there is made direct.
promote : Matrix → (t : Bool) → (i j : ℕ) → Matrix
promote m t i j = if t && is_transitive (m.at i j) then set m i j relation else m

is_transitive-related : (r : Relation) → is_transitive r ≡ true → related r ≡ true
is_transitive-related relation e = refl
is_transitive-related no_relation e = cc
is_transitive-related rel_transitivity e = refl

promote-Agrees : (m : Matrix) (t : Bool) (i j : ℕ) → Agrees m (promote m t i j)
unfolding promote
promote-Agrees m t i j =
    (ground arith, λ x y. ground (arith, is_transitive-related (m.at i j), le_eq m x y i j))

Agrees-trans : (a b c : Matrix) → Agrees a b → Agrees b c → Agrees a c
Agrees-trans a b c f g = (g.0 ∙ f.0, λ x y. g.1 x y ∙ f.1 x y)

change_smaller-Agrees : (m : Matrix) (i d n : ℕ) → Agrees m (change_smaller m i d n)
unfolding change_smaller promote
change_smaller-Agrees m i d zero = (refl, λ x y. refl)
change_smaller-Agrees m i d (suc j) =
    let m' = change_smaller m i d j in
    Agrees-trans m m' _ (change_smaller-Agrees m i d j)
      (promote-Agrees m' (related (m'.at d j)) i j)

change_larger-Agrees : (m : Matrix) (i d n : ℕ) → Agrees m (change_larger m i d n)
unfolding change_larger promote
change_larger-Agrees m i d zero = (refl, λ x y. refl)
change_larger-Agrees m i d (suc j) =
    let m' = change_larger m i d j in
    Agrees-trans m m' _ (change_larger-Agrees m i d j) (promote-Agrees m' (related (m'.at j d)) j i)

release_at-Agrees : (m : Matrix) (d i : ℕ) → Agrees m (release_at m d i)
unfolding release_at
release_at-Agrees m d i = elim (Bool-cases (i == d)) [
  | inl e ↦ rw (release_at, e) (refl, λ x y. refl)
  | inr e ↦ elim (Bool-cases (related (m.at i d))) [
    | inl s ↦ rw (release_at, e, s) (change_smaller-Agrees m i d m.size)
    | inr s ↦ elim (Bool-cases (related (m.at d i))) [
      | inl t ↦ rw (release_at, e, s, t) (change_larger-Agrees m i d m.size)
      | inr t ↦ rw (release_at, e, s, t) (refl, λ x y. refl)
    ]
  ]
]

release-Agrees : (m : Matrix) (d n : ℕ) → Agrees m (release m d n)
unfolding release
release-Agrees m d zero = (refl, λ x y. refl)
release-Agrees m d (suc i) =
    Agrees-trans m (release m d i) _ (release-Agrees m d i) (release_at-Agrees (release m d i) d i)

Agrees-IsOrder : (m m' : Matrix) → Agrees m m' → IsOrder m → IsOrder m'
Agrees-IsOrder m m' (s, h) o = record {
  reflexive = λ i l. h i i ∙ o.reflexive i (omega arith);
  antisymmetric = λ i j li lj e e'.
      o.antisymmetric i j (omega arith) (omega arith) (sym (h i j) ∙ e) (sym (h j i) ∙ e');
  transitive = λ i j k li lj lk e e'.
      h i k
      ∙ o.transitive i j k (omega arith) (omega arith) (omega arith) (sym (h i j) ∙ e)
          (sym (h j k) ∙ e');
}

-- The order of the elements that stay is the old one.
pub le-remove_element :
    (m : Matrix) (d x y : ℕ) → le (remove_element m d) x y ≡ le m (skip d x) (skip d y)
unfolding remove_element
le-remove_element m d x y = (release-Agrees m d m.size).1 (skip d x) (skip d y)

pub remove_element-size : (m : Matrix) (d : ℕ) → (remove_element m d).size ≡ m.size - 1
unfolding remove_element
remove_element-size m d = ap (λ n. n - 1) (release-Agrees m d m.size).0

pub remove_element-IsOrder :
    (m : Matrix) (d : ℕ) → d < m.size → IsOrder m → IsOrder (remove_element m d)
unfolding remove_element
remove_element-IsOrder m d l o =
    let same = release-Agrees m d m.size in
    erase-IsOrder (release m d m.size) d (omega (arith, same.0))
      (Agrees-IsOrder m (release m d m.size) same o)
