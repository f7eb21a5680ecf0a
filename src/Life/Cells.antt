-- ===== src/Life/Cells.antt =====
-- The list of cells of GameOfLife.c and the operations on it.
use mimuw.Prelude.{ℕ, suc, Bool, true, false, ◌&&◌, ◌||◌, not, List, [], ◌∷◌, if◌then◌else◌, ◌==◌}
use mimuw.Prelude.Int.{ℤ, pos, negsuc, ◌+ℤ◌, ◌-ℤ◌, ltb_ℤ}

-- `struct lista` without its pointer. A cell that is not alive has -1 living neighbours.
pub record Cell : Type 0 where
  pub nr_kolumny : ℤ
  pub nr_wiersza : ℤ
  pub zywi_sasiedzi : ℤ

abbrev pub cell : (i j k : ℤ) → Cell
cell i j k = record { nr_kolumny = j; nr_wiersza = i; zywi_sasiedzi = k }

abbrev pub dead : ℤ
dead = negsuc 0

infix 50 ◌==ℤ◌
abbrev pub ◌==ℤ◌ : ℤ → ℤ → Bool
pos a ==ℤ pos b = a == b
pos a ==ℤ negsuc b = false
negsuc a ==ℤ pos b = false
negsuc a ==ℤ negsuc b = a == b

unfoldable pub is_at : (i j : ℤ) → Cell → Bool
is_at i j c = (c.nr_wiersza ==ℤ i) && (c.nr_kolumny ==ℤ j)

-- `sprawdzaj_czy_w_liscie`
unfoldable pub contains : List Cell → (i j : ℤ) → Bool
unfolding is_at
contains [] i j = false
contains (c ∷ cs) i j = if is_at i j c then true else contains cs i j

-- `wstaw_na_koniec`
unfoldable pub insert : List Cell → (i j k : ℤ) → List Cell
insert [] i j k = cell i j k ∷ []
insert (c ∷ cs) i j k = c ∷ insert cs i j k

-- The test of `zliczanie_zywych_sasiadow` for one cell.
unfoldable pub is_neighbour : (i j : ℤ) → Cell → Bool
unfolding ◌+ℤ◌ ◌-ℤ◌ is_at
is_neighbour i j c =
    is_at (i -ℤ pos 1) (j -ℤ pos 1) c
    || is_at (i -ℤ pos 1) j c
    || is_at (i -ℤ pos 1) (j +ℤ pos 1) c
    || is_at i (j -ℤ pos 1) c
    || is_at i (j +ℤ pos 1) c
    || is_at (i +ℤ pos 1) (j -ℤ pos 1) c
    || is_at (i +ℤ pos 1) j c
    || is_at (i +ℤ pos 1) (j +ℤ pos 1) c

-- `zliczanie_zywych_sasiadow`
unfoldable pub count_neighbours : List Cell → (i j : ℤ) → ℕ
unfolding is_neighbour
count_neighbours [] i j = 0
count_neighbours (c ∷ cs) i j =
    let rest = count_neighbours cs i j in
    if is_neighbour i j c && not (c.zywi_sasiedzi ==ℤ dead) then suc rest else rest

-- `sprawdz_czy_martwa`: the mark of the last cell there, `found` so far.
unfoldable pub mark_of : List Cell → (i j found : ℤ) → ℤ
unfolding is_at
mark_of [] i j found = found
mark_of (c ∷ cs) i j found = mark_of cs i j (if is_at i j c then c.zywi_sasiedzi else found)

-- `dodaj_zywych_sasiadow`: the first cell there gets the number.
unfoldable pub set_neighbours : List Cell → (i j k : ℤ) → List Cell
unfolding is_at
set_neighbours [] i j k = []
set_neighbours (c ∷ cs) i j k =
    let rest = set_neighbours cs i j k in
    if is_at i j c then record c { zywi_sasiedzi = k } ∷ cs else c ∷ rest

-- A living cell that dies, by the number of its living neighbours.
unfoldable pub dies : Cell → Bool
dies c =
    (ltb_ℤ c.zywi_sasiedzi (pos 2) && not (c.zywi_sasiedzi ==ℤ dead))
    || ltb_ℤ (pos 3) c.zywi_sasiedzi

-- `usun_zywe_komorki`: the cells that die go, those that are born are marked as living.
unfoldable pub cull : List Cell → List Cell
unfolding dies
cull [] = []
cull (c ∷ cs) =
    let rest = cull cs in
    if dies c
    then rest
    else if c.zywi_sasiedzi ==ℤ dead
    then record c { zywi_sasiedzi = pos 3 } ∷ rest
    else c ∷ rest

-- `usun_wszystkie_wskazane`
unfoldable pub remove_all : List Cell → (i j : ℤ) → List Cell
unfolding is_at
remove_all [] i j = []
remove_all (c ∷ cs) i j = let rest = remove_all cs i j in if is_at i j c then rest else c ∷ rest
