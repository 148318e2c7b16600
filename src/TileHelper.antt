-- ===== src/TileHelper.antt =====
-- libpyramidizer/src/tile_helper.cpp: the smallest rectangle around the intersections of tiles with
-- a region of interest.
pub mod Hull
use czi_pyramidizer.Prelude.{
  ℕ, zero, suc, ◌&&◌, List, [], ◌∷◌, ◌++◌, Option, none, some, if◌then◌else◌,
}
use czi_pyramidizer.Prelude.Int.{ℤ, pos, ◌+ℤ◌, ◌-ℤ◌, min_ℤ, max_ℤ}
use czi_pyramidizer.Rect.{IntRect, RectOps}

pub record TileHelper : Type 0 where
  pub tiles : List IntRect

-- `InitializeFromFunctor`: the functor is a step on a state of its own that gives a tile or `false`.
-- The loop ends when the functor says so; `none` stands for a functor that outlasts the fuel.
collect_tiles :
    {S : Type 0} → ℕ → (S → Option (IntRect × S)) → S → List IntRect → Option (List IntRect)
collect_tiles zero enumeration_function s tiles = none
collect_tiles (suc fuel) enumeration_function s tiles = elim (enumeration_function s) [
  | none ↦ some tiles
  | some (tile, s') ↦ collect_tiles fuel enumeration_function s' (tiles ++ tile ∷ [])
]

-- The functor of both callers: an iterator over a sequence of rectangles.
pub next_tile : List IntRect → Option (IntRect × List IntRect)
next_tile [] = none
next_tile (tile ∷ rest) = some (tile, rest)

-- The clearing of the old tiles is the empty list that the loop starts with.
pub initialize_from_functor :
    {S : Type 0} → ℕ → (S → Option (IntRect × S)) → S → TileHelper → Option TileHelper
initialize_from_functor fuel enumeration_function s helper =
    elim (collect_tiles fuel enumeration_function s []) [
      | none ↦ none
      | some tiles ↦ some (record helper { tiles = tiles })
    ]

module _ (ops : RectOps) where
  open ops use {is_non_empty, intersect, invalid}

  unfoldable pub union : IntRect → IntRect → IntRect
  union a b =
      let a_non_empty = is_non_empty a in
      let b_non_empty = is_non_empty b in
      if a_non_empty && b_non_empty
      then record {
        x = min_ℤ a.x b.x;
        y = min_ℤ a.y b.y;
        w = max_ℤ (a.x +ℤ a.w) (b.x +ℤ b.w) -ℤ min_ℤ a.x b.x;
        h = max_ℤ (a.y +ℤ a.h) (b.y +ℤ b.h) -ℤ min_ℤ a.y b.y;
      }
      else if a_non_empty
      then a
      else if b_non_empty
      then b
      else invalid

  -- The loop of `GetMinimalRectForRoi` over the tiles that are left.
  unfoldable pub unite_tiles : List IntRect → IntRect → IntRect → IntRect
  unite_tiles [] rect union_rect = union_rect
  unite_tiles (tile ∷ tiles) rect union_rect =
      unite_tiles tiles rect (union union_rect (intersect tile rect))

  unfoldable pub get_minimal_rect_for_roi : TileHelper → IntRect → IntRect
  get_minimal_rect_for_roi helper rect =
      unite_tiles helper.tiles rect (record { x = pos 0; y = pos 0; w = pos 0; h = pos 0 })
