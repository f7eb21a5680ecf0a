-- ===== src/SameGame/Tests.antt =====
-- SameGame.c on a small board, and the theorems there.
use mimuw.Prelude.{ℕ, ◌≡◌, refl, List, [], ◌∷◌, get_or, arith}
use mimuw.SameGame.Board.{Board, empty, newline}
use mimuw.SameGame.Move.{remove_group, move_down, run}
use mimuw.SameGame.Erase.{Erased, remove_group-Erased}
use mimuw.SameGame.Gravity.{Sunk, move_down-Sunk}

abbrev red : ℕ
red = 49

abbrev blue : ℕ
blue = 50

abbrev rows : List (List ℕ)
rows = (blue ∷ red ∷ []) ∷ (red ∷ red ∷ []) ∷ (red ∷ blue ∷ []) ∷ []

abbrev sample : Board
sample i j = get_or (get_or rows i []) j empty

-- The reds go, the blues sink.
moved :
    run 2
      (λ i j. empty)
      (blue ∷ red ∷ newline ∷ red ∷ red ∷ newline ∷ red ∷ blue ∷ newline ∷ [])
      3
      2
      0
    ≡ empty ∷ empty ∷ newline ∷ empty ∷ empty ∷ newline ∷ blue ∷ blue ∷ newline ∷ []
unfolding run
moved = refl

remove_group-Erased_example : Erased red sample (remove_group 6 2 sample 3 1 0 red)
remove_group-Erased_example = remove_group-Erased 6 2 sample 3 1 0 red refl

move_down-Sunk_example : Sunk (move_down 2 (remove_group 6 2 sample 3 1 0 red) 3) 1 3 0
move_down-Sunk_example = move_down-Sunk 2 (remove_group 6 2 sample 3 1 0 red) 3 1 (omega arith)
