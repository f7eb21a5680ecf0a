-- ===== src/Poset/State.antt =====
-- The variables of poset.cc: the posets by their number, the numbers that are free again, the next
-- new number, and what was written to `cerr`.
use Prim.Native.String.{String}
use text.Mathlib.Text.{◌==◌ as str_eq}
use mimuw.Prelude.{ℕ, zero, suc, Option, none, some, List, [], ◌∷◌, ◌++◌}
use mimuw.Prelude.{◌==◌, if◌then◌else◌}
use mathlib.Core.Option
use mimuw.Poset.Matrix.{Matrix, no_relation, extend, remove_element}

-- `poset_t`: the elements, and the array of relations over their indices.
pub record Poset : Type 0 where
  pub names : List String
  pub relations : Matrix

abbrev pub empty_poset : Poset
empty_poset = record { names = []; relations = record { size = 0; at = λ i j. no_relation } }

pub record State : Type 0 where
  pub posets : ℕ → Option Poset
  pub available : List ℕ
  pub next_id : ℕ
  pub cerr : String

abbrev pub initial : State
initial = record { posets = λ id. none; available = []; next_id = 0; cerr = "" }

abbrev pub set_at : (ℕ → Option Poset) → ℕ → Option Poset → ℕ → Option Poset
set_at f id p k = if id == k then p else f k

-- Writes of a function above to `cerr`
abbrev pub log : (String → String) → State → State
log f s = record s { cerr = f s.cerr }

-- The loop of `checkIfElemExistInVecOfStr`: the first index of an element, if there is one.
unfoldable pub index_of : List String → String → Option ℕ
index_of [] v = none
index_of (x ∷ xs) v = if str_eq x v then some 0 else Option.map suc (index_of xs v)

-- `v->erase(v->begin() + i)`
unfoldable pub erase_name : List String → ℕ → List String
erase_name [] i = []
erase_name (x ∷ xs) zero = xs
erase_name (x ∷ xs) (suc i) = x ∷ erase_name xs i

-- The two branches on `allPosets.find(id)`
abbrev pub at_poset {ℓ} : {A : Type ℓ} → Option Poset → A → (Poset → A) → A
at_poset none missing found = missing
at_poset (some p) missing found = found p

-- `allPosets.insert`, which leaves a poset that is there
abbrev pub insert_new : (ℕ → Option Poset) → ℕ → ℕ → Option Poset
insert_new f id = at_poset (f id) (set_at f id (some empty_poset)) (λ p. f)

-- A poset takes the place of the one with its number.
abbrev pub update : ℕ → Poset → State → State
update id p s = record s { posets = set_at s.posets id (some p) }

abbrev pub insert_name : Poset → String → Poset
insert_name p v = record { names = p.names ++ v ∷ []; relations = extend p.relations }

abbrev pub remove_name : Poset → ℕ → Poset
remove_name p i = record { names = erase_name p.names i; relations = remove_element p.relations i }

abbrev pub with_relations : Poset → Matrix → Poset
with_relations p m = record p { relations = m }
