-- ===== src/Life/Generation.antt =====
-- `nowa_generacja_lista` of GameOfLife.c, which walks over the list of cells while it changes it.
use mimuw.Prelude.{ℕ, zero, suc, Option, none, some, List, [], ◌∷◌, ◌++◌}
use mimuw.Prelude.{length, if◌then◌else◌, ◌==◌}
use mimuw.Prelude.Int.{ℤ, pos, ◌+ℤ◌, ◌-ℤ◌}
use mimuw.Prelude.{◌>>=◌}
use mimuw.Life.Cells.{Cell, dead, is_at, contains, insert, count_neighbours, mark_of, ◌==ℤ◌}
use mimuw.Life.Cells.{set_neighbours, cull, remove_all}

-- The list around the pointer `pom`, which points at the first cell of `ahead` or is NULL.
pub record Place : Type 0 where
  pub behind : List Cell
  pub ahead : List Cell

abbrev pub place : (behind ahead : List Cell) → Place
place b a = record { behind = b; ahead = a }

unfoldable pub whole : Place → List Cell
whole p = p.behind ++ p.ahead

-- A new cell comes to the end of the list; a `pom` that is NULL stays NULL.
unfoldable pub insert_at : Place → (i j : ℤ) → Place
unfolding insert
insert_at p i j = go p.ahead
  where
    go : List Cell → Place
    go [] = record { behind = insert p.behind i j dead; ahead = [] }
    go (c ∷ cs) = record { behind = p.behind; ahead = insert (c ∷ cs) i j dead }

unfoldable pub insert_missing : Place → (i j : ℤ) → Place
unfolding insert_at contains whole
insert_missing p i j = if contains (whole p) i j then p else insert_at p i j

-- The inner loop over `k` for the row `w`.
unfoldable pub insert_row : Place → (w j : ℤ) → Place
unfolding insert_missing
insert_row p w j =
    insert_missing (insert_missing (insert_missing p w (j -ℤ pos 1)) w j) w (j +ℤ pos 1)

-- The loops over `w` and `k`: the cell and its neighbours that are not in the list.
unfoldable pub surround : Place → (i j : ℤ) → Place
unfolding insert_row
surround p i j = insert_row (insert_row (insert_row p (i -ℤ pos 1) j) i j) (i +ℤ pos 1) j

unfoldable pub note_neighbours : Place → (i j k : ℤ) → Place
unfolding set_neighbours contains
note_neighbours p i j k =
    if contains p.behind i j
    then record p { behind = set_neighbours p.behind i j k }
    else record p { ahead = set_neighbours p.ahead i j k }

-- When the cell that `pom` points at is freed, the next use of `pom` is an error: none.
unfoldable pub remove_ahead : (i j : ℤ) → List Cell → Option (List Cell)
unfolding remove_all is_at
remove_ahead i j [] = some []
remove_ahead i j (c ∷ cs) = if is_at i j c then none else some (remove_all (c ∷ cs) i j)

unfoldable pub remove_there : Place → (i j : ℤ) → Option Place
unfolding remove_ahead remove_all
remove_there p i j = do
  ahead ← remove_ahead i j p.ahead
  some (place (remove_all p.behind i j) ahead)

-- The end of both loops' bodies: the neighbours are counted, and a dead cell without three of them
-- goes.
unfoldable pub judge : Place → (i j : ℤ) → Option Place
unfolding count_neighbours mark_of note_neighbours remove_there whole
judge p i j =
    let living = count_neighbours (whole p) i j in
    let mark = mark_of (whole p) i j (pos 0) in
    if mark ==ℤ dead
    then (if living == 3 then some p else remove_there p i j)
    else some (note_neighbours p i j (pos living))

-- `pom = pom -> nast`
unfoldable pub advance : (behind : List Cell) → Cell → (ahead : List Cell) → Place
advance behind c cs = place (behind ++ c ∷ []) cs

-- The first loop: at most `count` cells, the living ones.
unfoldable pub visit_living : (count : ℕ) (behind ahead : List Cell) → Option Place
unfolding surround judge advance
visit_living zero behind ahead = some (place behind ahead)
visit_living (suc count) behind [] = some (place behind [])
visit_living (suc count) behind (c ∷ cs) = do
  q ← judge (surround (advance behind c cs) c.nr_wiersza c.nr_kolumny) c.nr_wiersza c.nr_kolumny
  visit_living count q.behind q.ahead

-- The second loop, which adds no cell: the cells ahead at its start are enough fuel.
unfoldable pub visit_rest : (fuel : ℕ) (behind ahead : List Cell) → Option Place
unfolding judge advance
visit_rest zero behind ahead = some (place behind ahead)
visit_rest (suc fuel) behind [] = some (place behind [])
visit_rest (suc fuel) behind (c ∷ cs) = do
  q ← judge (advance behind c cs) c.nr_wiersza c.nr_kolumny
  visit_rest fuel q.behind q.ahead

-- `nowa_generacja_lista`; `zliczanie` is the length of the list.
unfoldable pub next_generation : List Cell → Option (List Cell)
unfolding visit_living visit_rest cull whole
next_generation l = do
  p ← visit_living (length l) [] l
  q ← visit_rest (length p.ahead) p.behind p.ahead
  some (cull (whole q))
