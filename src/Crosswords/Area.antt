-- ===== src/Crosswords/Area.antt =====
-- Positions and RectArea of crosswords.h. A coordinate is a number up to size_max, the SIZE_MAX of
-- the machine.
use mimuw.Prelude.{ℕ, suc, ◌-◌, ◌%◌, Bool, true, false, ◌&&◌, ◌||◌, Option, none, some}
use mimuw.Prelude.{leb, ltb, ◌==◌, if◌then◌else◌}

pub record Pos : Type 0 where
  pub first : ℕ
  pub second : ℕ

pub record RectArea : Type 0 where
  pub left_top : Pos
  pub right_bottom : Pos

abbrev pub default_empty_rect_area : RectArea
default_empty_rect_area = record {
  left_top = record { first = 1; second = 1 };
  right_bottom = record { first = 0; second = 0 };
}

unfoldable pub min : ℕ → ℕ → ℕ
min m n = if ltb n m then n else m

unfoldable pub max : ℕ → ℕ → ℕ
max m n = if ltb m n then n else m

unfoldable pub empty : RectArea → Bool
empty a =
    if leb a.left_top.first a.right_bottom.first && leb a.left_top.second a.right_bottom.second
    then false
    else true

-- `right - left + 1`, as the machine counts
abbrev pub span : (size_max left right : ℕ) → ℕ
span size_max left right = (suc right - left) % suc size_max

-- An assertion that fails ends the program, none.
unfoldable pub size : ℕ → RectArea → Option (ℕ × ℕ)
unfolding empty
size size_max a =
    let dim = if empty a then (0, 0) else (
      span size_max a.left_top.first a.right_bottom.first,
      span size_max a.left_top.second a.right_bottom.second,
    ) in
    if (a.left_top.first == 0) && (a.right_bottom.first == size_max)
    then none
    else if (a.left_top.second == 0) && (a.right_bottom.second == size_max)
    then none
    else some dim

unfoldable pub embrace : Pos → RectArea → RectArea
unfolding empty min max
embrace p a = if empty a then record { left_top = p; right_bottom = p } else record {
  left_top = record {
    first = min a.left_top.first p.first;
    second = min a.left_top.second p.second;
  };
  right_bottom = record {
    first = max a.right_bottom.first p.first;
    second = max a.right_bottom.second p.second;
  };
}

-- The operator *
unfoldable pub intersect : RectArea → RectArea → RectArea
unfolding empty min max
intersect a b = if empty a || empty b then default_empty_rect_area else record {
  left_top = record {
    first = max a.left_top.first b.left_top.first;
    second = max a.left_top.second b.left_top.second;
  };
  right_bottom = record {
    first = min a.right_bottom.first b.right_bottom.first;
    second = min a.right_bottom.second b.right_bottom.second;
  };
}
