-- ===== src/Pyramidize/ZeroTiles.antt =====
-- What a tile size of 0, which the command line admits, does to a plane.
use czi_pyramidizer.Prelude.{
  ℕ, ◌*◌, ◌/◌, ◌%◌, ◌<◌, ◌≤◌, ◌≡◌, refl, ap, ◌∙◌, List, [], ◌∷◌, some, true, ltb, arith,
}
use czi_pyramidizer.Prelude.Int.{ℤ, pos}
use czi_pyramidizer.Prelude.Words.{int_limit, u32_mod, to_u32, to_u32-pos}
use czi_pyramidizer.Prelude.Outcome.{Outcome, ok, err, division_by_zero, div_u32}
use czi_pyramidizer.Rect.{IntRect, RectOps}
use czi_pyramidizer.Imaging.{Imaging}
use czi_pyramidizer.Dimensions.{Dimensions}
use czi_pyramidizer.Latch.Bounds.{IsLatchable, latched, enlarge_and_latch-latched}
use czi_pyramidizer.Tiling.{TilingEnumerator, tiles_along, get_number_of_tiles}
use czi_pyramidizer.Planes.{PyramidRegion}
use czi_pyramidizer.OutputTile.{TileInfo}
use czi_pyramidizer.SubBlocks.{CopyCall, SubBlockInfo}
use czi_pyramidizer.Context.{Context}
use czi_pyramidizer.Upper.Run.{construct_tile_helper_lem}
use czi_pyramidizer.Pyramidize.{
  Reader, logical_rects, construct_tile_helper_for_plane, is_above_pyramid_threshold, quotient,
  tiling_of_layer0, layer0_calls, do_layer0, copies_of_plane, get_sub_block_indices_for_plane,
  do_plane,
}

get_number_of_tiles-zero :
    (e : TilingEnumerator) → e.tile_width ≡ 0 → get_number_of_tiles e ≡ err division_by_zero
unfolding get_number_of_tiles tiles_along div_u32
get_number_of_tiles-zero e h = ground arith

above_zero : (n : ℕ) → 0 < n → n < int_limit → ltb 0 (to_u32 (pos n)) ≡ true
above_zero n h k = rw (to_u32-pos n (omega arith)) (ground arith)

module _ (dims : Dimensions) (ops : RectOps) (img : Imaging) {Color Parameters : Type 0}
    (white black : Color) (reader : Reader dims img.Image Color)
    (write : img.Image → dims.Coordinate → IntRect → Outcome (TileInfo dims.Coordinate))
    (context : Context Parameters)
    (no_width : context.command_line_options.pyramid_tile_width ≡ 0) where
  -- An extent of at least one pixel is above the threshold.
  is_above_threshold :
      (w h : ℤ) (n : ℕ)
      → w ≡ pos n
      → 0 < n
      → n < int_limit
      → is_above_pyramid_threshold dims ops img white black reader write context w h ≡ true
  unfolding is_above_pyramid_threshold
  is_above_threshold w h n e p k = rw (no_width, e, above_zero n p k) refl

  quotient_half : (w : ℤ) (n : ℕ) → w ≡ pos n → quotient w 2 ≡ pos (n / 2)
  unfolding quotient
  quotient_half w n e = rw (e, quotient) refl

  module _
      (found : (index : ℕ)
        → (info : SubBlockInfo dims.Coordinate) × (reader.try_get_sub_block_info index
            ≡ some info)) where
    logical_rects_returns :
        (indices : List ℕ)
        → (rects : List IntRect) × (logical_rects dims ops img white black reader write context
              indices
            ≡ ok rects)
    unfolding logical_rects
    logical_rects_returns [] = ([], refl)
    logical_rects_returns (index ∷ indices) =
        let (info, e) = found index in
        let (rects, er) = logical_rects_returns indices in
        (info.logical_rect ∷ rects, rw (logical_rects, e, er) refl)

    layer0_calls-zero :
        (region : PyramidRegion dims) (indices : List ℕ)
        → IsLatchable 2 region.rect
        → layer0_calls dims ops img white black reader write context region indices
          ≡ err division_by_zero
    unfolding layer0_calls construct_tile_helper_for_plane
    layer0_calls-zero region indices latchable =
        let (rects, er) = logical_rects_returns indices in
        let no_tile : 2 * context.command_line_options.pyramid_tile_width % u32_mod ≡ 0 =
          ap (λ n. 2 * n % u32_mod) no_width ∙ refl in
        rw
          (
            er,
            construct_tile_helper_lem rects,
            enlarge_and_latch-latched region.rect 2 1073741824 (omega arith) (omega arith)
                latchable,
            get_number_of_tiles-zero
                (tiling_of_layer0 dims ops img white black reader write context
                  (latched 2 region.rect))
                no_tile,
          )
          refl

    do_layer0-zero :
        (region : PyramidRegion dims) (copies : List (CopyCall dims.Coordinate))
        → copies_of_plane dims ops img white black reader write context region ≡ ok copies
        → IsLatchable 2 region.rect
        → do_layer0 dims ops img white black reader write context region ≡ err division_by_zero
    unfolding do_layer0
    do_layer0-zero region copies copying latchable =
        rw
          (
            copying,
            layer0_calls-zero region
                (get_sub_block_indices_for_plane dims ops img white black reader write context
                  region)
                latchable,
          )
          refl

    -- With a tile width of 0, a plane two pixels wide or more ends in a division by zero, after its
    -- subblocks have been copied. The copying returns, libCZI finds each subblock, and the region
    -- latches.
    pub do_plane-division_by_zero :
        (region : PyramidRegion dims) (copies : List (CopyCall dims.Coordinate)) (n : ℕ)
        → copies_of_plane dims ops img white black reader write context region ≡ ok copies
        → region.rect.w ≡ pos n
        → 2 ≤ n
        → n < int_limit
        → IsLatchable 2 region.rect
        → do_plane dims ops img white black reader write context region ≡ err division_by_zero
    unfolding do_plane
    do_plane-division_by_zero region copies n copying w h k latchable =
        rw
          (
            is_above_threshold region.rect.w region.rect.h n w (omega arith) k,
            is_above_threshold (quotient region.rect.w 2) (quotient region.rect.h 2) (n / 2)
                (quotient_half region.rect.w n w) (omega arith) (omega arith),
            do_layer0-zero region copies copying latchable,
          )
          refl
