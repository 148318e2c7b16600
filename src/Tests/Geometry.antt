-- ===== src/Tests/Geometry.antt =====
-- Latching, tiling and the smallest rectangles, run and instantiated.
use czi_pyramidizer.Prelude.{◌+◌, ◌*◌, ◌≡◌, refl, ◌↔◌, List, [], ◌∷◌, some, arith, length}
use czi_pyramidizer.Prelude.Int.{pos, negsuc, ◌+ℤ◌, ◌-ℤ◌, ◌≤ℤ◌, min_ℤ, max_ℤ, int_laws}
use czi_pyramidizer.Prelude.Words.{to_u32, to_int}
use czi_pyramidizer.Prelude.Outcome.{ok, div_u32, mod_u32}
use czi_pyramidizer.Rect.{IntRect, Point, Contains, Within, IsNonEmpty}
use czi_pyramidizer.Latch.{enlarge_and_latch}
use czi_pyramidizer.Latch.Bounds.{IsLatched, enlarge_and_latch-IsLatched}
use czi_pyramidizer.TileHelper.{
  TileHelper, get_minimal_rect_for_roi, union, unite_tiles, initialize_from_functor, next_tile,
}
use czi_pyramidizer.TileHelper.Hull.{
  InTiles, IsHull, get_minimal_rect_for_roi-IsHull, initialize_from_functor-next_tile,
}
use czi_pyramidizer.Tiling.{
  TilingEnumerator, get_number_of_tiles, get_roi, next, iterate, tile_rectangles, tiles_along,
}
use czi_pyramidizer.Tiling.Cover.{IsTileable, columns, rows, get_roi_bounds, get_roi-disjoint}
use czi_pyramidizer.Tiling.Loop.{tile_rectangles_cover}
use czi_pyramidizer.Tests.Ops.{rect, concrete_ops}

-- The unit test of the repository, libpyramidizer-unittests/pyramid_utils_test.cpp, and a negative
-- coordinate.
latch_negative :
    enlarge_and_latch (rect (negsuc 6) (pos 3) (pos 4) (pos 2)) 4
    ≡ ok (rect (negsuc 7) (pos 0) (pos 8) (pos 8))
unfolding enlarge_and_latch div_u32 to_u32 to_int ◌+ℤ◌ ◌-ℤ◌
latch_negative = refl

enlarge_and_latch-IsLatched_example :
    (l : IntRect) × (enlarge_and_latch (rect (negsuc 6) (pos 3) (pos 4) (pos 2)) 4 ≡ ok l)
    × IsLatched 4 (rect (negsuc 6) (pos 3) (pos 4) (pos 2)) l
unfolding ◌+ℤ◌
enlarge_and_latch-IsLatched_example =
    enlarge_and_latch-IsLatched (rect (negsuc 6) (pos 3) (pos 4) (pos 2)) 4 536870912 (omega arith)
      refl (omega int_laws)

-- Two tiles, and a region that meets both.
abbrev two_tiles : TileHelper
two_tiles = record {
  tiles = rect (pos 0) (pos 0) (pos 2) (pos 2) ∷ rect (pos 4) (pos 4) (pos 2) (pos 2) ∷ [];
}

abbrev roi_on_both : IntRect
roi_on_both = rect (pos 1) (pos 1) (pos 4) (pos 4)

minimal_rect : get_minimal_rect_for_roi concrete_ops two_tiles roi_on_both ≡ roi_on_both
unfolding get_minimal_rect_for_roi unite_tiles union concrete_ops ◌+ℤ◌ ◌-ℤ◌ min_ℤ max_ℤ
minimal_rect = refl

get_minimal_rect_for_roi-IsHull_example :
    IsHull
      (λ p. InTiles two_tiles.tiles p × Contains roi_on_both p)
      (get_minimal_rect_for_roi concrete_ops two_tiles roi_on_both)
get_minimal_rect_for_roi-IsHull_example =
    get_minimal_rect_for_roi-IsHull concrete_ops two_tiles roi_on_both

initialize_from_functor-next_tile_example :
    initialize_from_functor
      (length two_tiles.tiles + 1)
      next_tile
      two_tiles.tiles
      (record { tiles = roi_on_both ∷ [] })
    ≡ some two_tiles
initialize_from_functor-next_tile_example =
    initialize_from_functor-next_tile two_tiles.tiles (record { tiles = roi_on_both ∷ [] })

-- Five by four pixels in tiles of three by two.
abbrev five_by_four : TilingEnumerator
five_by_four = record {
  roi = rect (negsuc 9) (pos 20) (pos 5) (pos 4);
  tile_width = 3;
  tile_height = 2;
}

five_by_four-IsTileable : IsTileable five_by_four
five_by_four-IsTileable = omega arith

tiling_runs :
    tile_rectangles five_by_four
    ≡ ok (
        rect (negsuc 9) (pos 20) (pos 3) (pos 2)
        ∷ rect (negsuc 6) (pos 20) (pos 2) (pos 2)
        ∷ rect (negsuc 9) (pos 22) (pos 3) (pos 2)
        ∷ rect (negsuc 6) (pos 22) (pos 2) (pos 2)
        ∷ [])
unfolding tile_rectangles iterate next get_roi get_number_of_tiles tiles_along div_u32 mod_u32
    to_u32 to_int ◌+ℤ◌ ◌-ℤ◌ min_ℤ
tiling_runs = refl

abbrev a_pixel : Point
a_pixel = record { px = negsuc 6; py = pos 21 }

a_pixel_there : Contains five_by_four.roi a_pixel
unfolding ◌+ℤ◌
a_pixel_there = omega arith

tile_rectangles_cover_example :
    (rects : List IntRect) × (tile_rectangles five_by_four ≡ ok rects)
    × (length rects ≡ columns five_by_four * rows five_by_four)
    × ((p : Point) → InTiles rects p ↔ Contains five_by_four.roi p)
tile_rectangles_cover_example = tile_rectangles_cover five_by_four five_by_four-IsTileable

get_roi_bounds_example :
    (t : IntRect) × (get_roi five_by_four 3 ≡ ok t)
    × IsNonEmpty t
    × (t.w ≤ℤ pos 3)
    × (t.h ≤ℤ pos 2)
    × Within t five_by_four.roi
get_roi_bounds_example = get_roi_bounds five_by_four 3 five_by_four-IsTileable (omega arith)

-- The pixel is in the second tile, and so it is not in the third.
get_roi-disjoint_example : ¬ Contains (rect (negsuc 9) (pos 22) (pos 3) (pos 2)) a_pixel
unfolding get_roi tiles_along div_u32 mod_u32 to_u32 to_int ◌+ℤ◌ ◌-ℤ◌ min_ℤ
get_roi-disjoint_example =
    get_roi-disjoint five_by_four 1 2 (rect (negsuc 6) (pos 20) (pos 2) (pos 2))
      (rect (negsuc 9) (pos 22) (pos 3) (pos 2)) a_pixel five_by_four-IsTileable (omega arith)
      (omega arith) (omega arith) refl refl (omega arith)
