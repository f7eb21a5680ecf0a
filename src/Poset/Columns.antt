-- ===== src/Poset/Columns.antt =====
-- The inner loop of `addTransitivityRelations` of poset.cc.
use mimuw.Prelude.{ℕ, zero, suc, ◌≡◌, ◌≢◌, refl, ap, sym, ◌∙◌, arith}
use mimuw.Prelude.{Bool, ◌&&◌, ◌||◌, ltb, ◌==◌, if◌then◌else◌}
use mimuw.Poset.Matrix.{Matrix, rel_transitivity, related, is_none, set, copy_row}
use mimuw.Poset.Order.{le, is_none-related, le_eq}

-- The loop over the columns: the row `i` gains what is above `b`.
pub copy_row-size : (m : Matrix) (i b n : ℕ) → (copy_row m i b n).size ≡ m.size
unfolding copy_row
copy_row-size m i b zero = refl
copy_row-size m i b (suc j) = let ih = copy_row-size m i b j in ground arith

-- One write of the loop: nothing new, if the relation was there.
copy_one : Matrix → (i b j : ℕ) → Matrix
copy_one m i b j =
    if related (m.at b j) && is_none (m.at i j) then set m i j rel_transitivity else m

le-copy_one :
    (m : Matrix) (i b j x y : ℕ)
    → le (copy_one m i b j) x y ≡ (le m x y || ((x == i) && (y == j) && le m b j))
unfolding copy_one
le-copy_one m i b j x y = ground (arith, is_none-related (m.at i j), le_eq m x y i j)

-- `A || (X && y < j && B)` with the column `j` added
one_more :
    (j y : ℕ) (a x b b' : Bool)
    → (y ≡ j → b' ≡ b)
    → ((a || (x && ltb y j && b)) || (x && (y == j) && b')) ≡ (a || (x && ltb y (suc j) && b))
one_more j y a x b b' e = ground arith

pub le-copy_row :
    (m : Matrix) (i b n x y : ℕ)
    → i ≢ b
    → le (copy_row m i b n) x y ≡ (le m x y || ((x == i) && ltb y n && le m b y))
unfolding copy_row copy_one
le-copy_row m i b zero x y ne = ground arith
le-copy_row m i b (suc j) x y ne =
    le-copy_one (copy_row m i b j) i b j x y
    ∙ ap (λ t. t || ((x == i) && (y == j) && le (copy_row m i b j) b j))
        (le-copy_row m i b j x y ne)
    ∙ one_more j y (le m x y) (x == i) (le m b y) (le (copy_row m i b j) b j)
        (λ e. le-copy_row m i b j b j ne ∙ row_b ∙ le_eq m b j b y refl (sym e))
  where
    row_b : (le m b j || ((b == i) && ltb j j && le m b j)) ≡ le m b j
    row_b = ground arith
