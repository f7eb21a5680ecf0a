-- ===== src/Life/Culling.antt =====
-- What `judge` and `usun_zywe_komorki` of GameOfLife.c do together: the rule of the game.
use mimuw.Prelude.{ℕ, ◌≡◌, refl, ap, ◌∙◌, Bool, true, false, ◌&&◌, ◌||◌, not}
use mimuw.Prelude.{List, [], ◌∷◌, ◌==◌, if◌then◌else◌, arith}
use mimuw.Prelude.{Bool-cases, inl, inr}
use mimuw.Prelude.Int.{ℤ, pos}
use mimuw.Life.Cells.{Cell, cell, dead, dies, cull, ◌==ℤ◌, is_at, contains}

-- The rule for a living cell with n living neighbours: two or three let it live on.
pub dies-pos : (i j : ℤ) (n : ℕ) → dies (cell i j (pos n)) ≡ not ((n == 2) || (n == 3))
unfolding dies
dies-pos i j n = ground arith

-- Some cell at a position does not die.
abbrev pub survives : List Cell → (x y : ℤ) → Bool
survives [] x y = false
survives (c ∷ cs) x y = (is_at x y c && not (dies c)) || survives cs x y

-- After `usun_zywe_komorki` a position is in the list exactly when a cell there does not die.
pub cull-survives : (l : List Cell) (x y : ℤ) → contains (cull l) x y ≡ survives l x y
unfolding contains cull is_at
cull-survives [] x y = refl
cull-survives (c ∷ cs) x y =
    let ih = cull-survives cs x y in
    elim (Bool-cases (dies c)) [
      | inl e ↦ rw (cull, e) (ih ∙ skip (is_at x y c) (survives cs x y))
      | inr e ↦ elim (Bool-cases (c.zywi_sasiedzi ==ℤ dead)) [
        | inl d ↦
            rw (cull, e, d) (ap (λ t. if is_at x y c then true else t) ih ∙ keep (is_at x y c) _)
        | inr d ↦
            rw (cull, e, d) (ap (λ t. if is_at x y c then true else t) ih ∙ keep (is_at x y c) _)
      ]
    ]
  where
    skip : (a b : Bool) → b ≡ ((a && false) || b)
    skip true b = refl
    skip false b = refl

    keep : (a b : Bool) → (if a then true else b) ≡ ((a && true) || b)
    keep true b = refl
    keep false b = refl
