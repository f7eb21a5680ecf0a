-- ===== src/Poset/Matrix.antt =====
-- The array of relations of one poset (poset.cc), and the loops that change it.
use mimuw.Prelude.{ℕ, zero, suc, ◌-◌, Bool, true, false, not, ◌&&◌, ◌||◌, ltb, ◌==◌, if◌then◌else◌}

-- `RELATION`, `NO_RELATION` and `REL_TRANSITIVITY`
pub data Relation : Type 0 where
  relation no_relation rel_transitivity : Relation

-- `posetRelationsArray`: its size, and the value in a row and a column. The program looks only
-- inside its bounds.
pub record Matrix : Type 0 where
  pub size : ℕ
  pub at : ℕ → ℕ → Relation

-- `== RELATION || == REL_TRANSITIVITY`
abbrev pub related : Relation → Bool
related relation = true
related no_relation = false
related rel_transitivity = true

abbrev pub is_none : Relation → Bool
is_none relation = false
is_none no_relation = true
is_none rel_transitivity = false

abbrev pub is_transitive : Relation → Bool
is_transitive relation = false
is_transitive no_relation = false
is_transitive rel_transitivity = true

abbrev pub set : Matrix → (i j : ℕ) → Relation → Matrix
set m i j r = record m { at = λ x y. if (x == i) && (y == j) then r else m.at x y }

-- `somethingIsBetweenTwoElem`, the first `n` elements
unfoldable pub between : Matrix → (a b n : ℕ) → Bool
between m a b zero = false
between m a b (suc i) =
    (not (i == a) && not (i == b) && related (m.at a i) && related (m.at i b)) || between m a b i

-- `changeRelationForSmallerElem`, the first `n` columns
unfoldable pub change_smaller : Matrix → (current deleted n : ℕ) → Matrix
change_smaller m current deleted zero = m
change_smaller m current deleted (suc j) =
    let m' = change_smaller m current deleted j in
    if related (m'.at deleted j) && is_transitive (m'.at current j)
    then set m' current j relation
    else m'

-- `changeRelationForLargerElem`, the first `n` rows
unfoldable pub change_larger : Matrix → (current deleted n : ℕ) → Matrix
change_larger m current deleted zero = m
change_larger m current deleted (suc j) =
    let m' = change_larger m current deleted j in
    if related (m'.at j deleted) && is_transitive (m'.at j current)
    then set m' j current relation
    else m'

-- The inner loop of `addTransitivityRelations`, the first `n` columns: what is above `b` is above `i`.
unfoldable pub copy_row : Matrix → (i b n : ℕ) → Matrix
copy_row m i b zero = m
copy_row m i b (suc j) =
    let m' = copy_row m i b j in
    if related (m'.at b j) && is_none (m'.at i j) then set m' i j rel_transitivity else m'

-- One round of its outer loop
unfoldable pub close_at : Matrix → (a b i : ℕ) → Matrix
unfolding copy_row
close_at m a b i =
    if (i == a) || (i == b)
    then m
    else if related (m.at i a) && is_none (m.at i b)
    then copy_row (set m i b rel_transitivity) i b m.size
    else if is_none (m.at a i) && related (m.at b i)
    then set m a i rel_transitivity
    else m

-- `addTransitivityRelations`, the first `n` rounds
unfoldable pub add_transitivity : Matrix → (a b n : ℕ) → Matrix
unfolding close_at
add_transitivity m a b zero = m
add_transitivity m a b (suc i) = close_at (add_transitivity m a b i) a b i

-- The writes of `poset_add`
unfoldable pub add_relation : Matrix → (a b : ℕ) → Matrix
unfolding add_transitivity
add_relation m a b = add_transitivity (set m a b relation) a b m.size

-- The writes of `poset_del`
unfoldable pub del_relation : Matrix → (a b : ℕ) → Matrix
del_relation m a b = set (set m a b no_relation) b a no_relation

-- The new row and column of `poset_insert`
unfoldable pub extend : Matrix → Matrix
extend m = record {
  size = suc m.size;
  at = λ x y.
      if (x == m.size) && (y == m.size)
      then relation
      else if (x == m.size) || (y == m.size)
      then no_relation
      else m.at x y;
}

-- One round of the first loop of `poset_remove`
unfoldable pub release_at : Matrix → (deleted i : ℕ) → Matrix
unfolding change_smaller change_larger
release_at m deleted i =
    if i == deleted
    then m
    else if related (m.at i deleted)
    then change_smaller m i deleted m.size
    else if related (m.at deleted i)
    then change_larger m i deleted m.size
    else m

unfoldable pub release : Matrix → (deleted n : ℕ) → Matrix
unfolding release_at
release m deleted zero = m
release m deleted (suc i) = release_at (release m deleted i) deleted i

-- The place of an index before `erase` at `deleted`
abbrev pub skip : (deleted i : ℕ) → ℕ
skip deleted i = if ltb i deleted then i else suc i

unfoldable pub erase : Matrix → (deleted : ℕ) → Matrix
erase m deleted = record { size = m.size - 1; at = λ x y. m.at (skip deleted x) (skip deleted y) }

-- The writes of `poset_remove`
unfoldable pub remove_element : Matrix → (deleted : ℕ) → Matrix
unfolding release erase
remove_element m deleted = erase (release m deleted m.size) deleted
