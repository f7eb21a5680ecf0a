-- ===== src/SameGame/Erase.antt =====
-- What `usun_grupe` of SameGame.c takes off the board.
use mimuw.Prelude.{ℕ, zero, suc, ◌+◌, ◌-◌, ◌≡◌, refl, sym, ◌∙◌, ◌⊎◌, inl, inr, arith}
use mimuw.Prelude.{Bool, true, false, ◌&&◌, ltb, if◌then◌else◌, ==_iff}
use mimuw.SameGame.Board.{Board, empty, put}
use mimuw.SameGame.Move.{remove_group}

-- Of `a`, `b` keeps every field or empties it, and the fields it empties had the block.
abbrev pub Erased : (block : ℕ) → Board → Board → Type 0
Erased block a b = (i j : ℕ) → (b i j ≡ a i j) ⊎ (a i j ≡ block) × (b i j ≡ empty)

Erased-trans : (block : ℕ) (a b c : Board) → Erased block a b → Erased block b c → Erased block a c
Erased-trans block a b c f g i j = go (f i j) (g i j)
  where
    go :
        (b i j ≡ a i j) ⊎ (a i j ≡ block) × (b i j ≡ empty)
        → (c i j ≡ b i j) ⊎ (b i j ≡ block) × (c i j ≡ empty)
        → (c i j ≡ a i j) ⊎ (a i j ≡ block) × (c i j ≡ empty)
    go (inl same) (inl same') = inl (same' ∙ same)
    go (inl same) (inr gone) = inr (sym same ∙ gone.0, gone.1)
    go (inr gone) (inl same) = inr (gone.0, same ∙ gone.1)
    go (inr gone) (inr gone') = inr (gone.0, gone'.1)

put-Erased : (block : ℕ) (a : Board) (w k : ℕ) → a w k ≡ block → Erased block a (put a w k empty)
unfolding put
put-Erased block a w k e i j = ground arith

-- One of the four directions: the recursive call is kept when the neighbour has the block.
turn :
    (block : ℕ) (a b c : Board) (inside hit : Bool)
    → Erased block a b
    → (hit ≡ true → Erased block b c)
    → Erased block a (if inside && hit then c else b)
turn block a b c true true f g = Erased-trans block a b c f (g refl)
turn block a b c true false f g = f
turn block a b c false hit f g = f

-- `usun_grupe` empties fields with the block that it is called for, and changes no other field.
pub remove_group-Erased :
    (fuel columns : ℕ) (a : Board) (n w k block : ℕ)
    → a w k ≡ block
    → Erased block a (remove_group fuel columns a n w k block)
unfolding remove_group
remove_group-Erased zero columns a n w k block e = λ i j. inl refl
remove_group-Erased (suc fuel) columns a n w k block e =
    turn block a _ _ (ltb 0 k) _
      (turn block a _ _ (ltb (k + 1) columns) _
        (turn block a _ _ (ltb 0 w) _
          (turn block a _ _ (ltb (w + 1) n) _ (put-Erased block a w k e)
            (λ h. remove_group-Erased fuel columns _ n (w + 1) k block ((==_iff _ block).0 h)))
          (λ h. remove_group-Erased fuel columns _ n (w - 1) k block ((==_iff _ block).0 h)))
        (λ h. remove_group-Erased fuel columns _ n w (k + 1) block ((==_iff _ block).0 h)))
      (λ h. remove_group-Erased fuel columns _ n w (k - 1) block ((==_iff _ block).0 h))
