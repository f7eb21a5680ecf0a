-- ===== src/Life/Tests.antt =====
-- GameOfLife.c on small lists of cells, and the theorems there.
use mimuw.Prelude.{◌≡◌, refl, true, some, List, [], ◌∷◌, length}
use mimuw.Prelude.Int.{pos, ◌+ℤ◌, ◌-ℤ◌}
use mimuw.Life.Cells.{Cell, cell, contains, cull}
use mimuw.Life.Generation.{Place, place, visit_living, visit_rest, next_generation}
use mimuw.Life.Distinct.{distinct}
use mimuw.Life.Walk.{next_generation-safe}

abbrev one_cell : List Cell
one_cell = cell (pos 5) (pos 5) (pos 0) ∷ []

abbrev blinker : List Cell
blinker =
    cell (pos 5) (pos 5) (pos 0) ∷ cell (pos 5) (pos 6) (pos 0) ∷ cell (pos 5) (pos 7) (pos 0) ∷ []

-- Three cells in a row become three in a column.
blinker_turns :
    next_generation blinker
    ≡ some (
        cell (pos 5) (pos 6) (pos 2)
        ∷ cell (pos 4) (pos 6) (pos 3)
        ∷ cell (pos 6) (pos 6) (pos 3)
        ∷ [])
unfolding next_generation ◌+ℤ◌ ◌-ℤ◌
blinker_turns = refl

-- A lone cell dies, and the eight dead cells around it come to life.
lone_cell :
    next_generation one_cell
    ≡ some (
        cell (pos 4) (pos 4) (pos 3)
        ∷ cell (pos 4) (pos 5) (pos 3)
        ∷ cell (pos 4) (pos 6) (pos 3)
        ∷ cell (pos 5) (pos 4) (pos 3)
        ∷ cell (pos 5) (pos 6) (pos 3)
        ∷ cell (pos 6) (pos 4) (pos 3)
        ∷ cell (pos 6) (pos 5) (pos 3)
        ∷ cell (pos 6) (pos 6) (pos 3)
        ∷ [])
unfolding next_generation ◌+ℤ◌ ◌-ℤ◌
lone_cell = refl

distinct_blinker : distinct blinker ≡ true
unfolding contains
distinct_blinker = refl

next_generation-safe_example :
    (p : Place) × (rest : List Cell) × (visit_living 3 [] blinker ≡ some p)
    × (visit_rest (length p.ahead) p.behind p.ahead ≡ some (place rest []))
    × (next_generation blinker ≡ some (cull rest))
    × (distinct (cull rest) ≡ true)
next_generation-safe_example = next_generation-safe blinker distinct_blinker
