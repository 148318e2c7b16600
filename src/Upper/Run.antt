-- ===== src/Upper/Run.antt =====
-- A whole run of `UpperPyramidLayersPyramidizer::Execute`.
use czi_pyramidizer.Prelude.{
  ◌≤◌, count_up, ℕ, suc, ◌*◌, ◌^◌, ◌%◌, ◌<◌, ◌≡◌, refl, ap, ◌∙◌, List, [], ◌∷◌, length,
}
use czi_pyramidizer.Prelude.Words.{int_limit, u32_mod}
use czi_pyramidizer.Prelude.Outcome.{ok}
use czi_pyramidizer.Rect.{IntRect, Contains, RectOps}
use czi_pyramidizer.Bitmap.{PixelType}
use czi_pyramidizer.Imaging.{Imaging}
use czi_pyramidizer.Latch.{enlarge_and_latch}
use czi_pyramidizer.Latch.Bounds.{
  IsLatchable, latched, latched-IsLatched, IsLatched-Within, enlarge_and_latch-latched,
}
use czi_pyramidizer.TileHelper.Hull.{InTiles, initialize_from_functor-next_tile}
use czi_pyramidizer.Tiling.{TilingEnumerator}
use czi_pyramidizer.Tiling.Cover.{IsTileable, columns, rows, get_number_of_tiles_lem}
use czi_pyramidizer.Tiling.Loop.{tile_rectangles_cover}
use czi_pyramidizer.Upper.{
  Tile, PyramidizerOptions, Call, progress, rects_of, tiling_of, front, construct_tile_helper,
  execute,
}
use czi_pyramidizer.Upper.Alignment.{positive_power}
use czi_pyramidizer.Upper.Layer.{AllOf, fits_u32}
use czi_pyramidizer.Upper.Coverage.{IsSpacious, IsCovered, rectangles-IsCovered}

pub construct_tile_helper_lem :
    (rects : List IntRect) → construct_tile_helper rects ≡ ok (record { tiles = rects })
unfolding construct_tile_helper
construct_tile_helper_lem rects =
    rw (construct_tile_helper, initialize_from_functor-next_tile rects (record { tiles = [] })) refl

module _ (ops : RectOps) (img : Imaging) where
  open img use {Image}

  front_lem :
      (type : PixelType) (tiles : List (Tile Image))
      → AllOf img type tiles
      → 0 < length tiles
      → (first : Tile Image) × (front ops img tiles ≡ ok first)
        × (img.pixel_type first.bitmap ≡ type)
        × img.Supports type
  unfolding front
  front_lem type [] all h = elim h [ ]
  front_lem type (tile ∷ tiles) (is, all) h =
      (tile, refl, img.IsOf-pixel_type type tile.bitmap is, img.IsOf-Supports type tile.bitmap is)

  abbrev pub tiles_of_region : PyramidizerOptions Image → ℕ → TilingEnumerator
  tiles_of_region options k = tiling_of ops img options (latched (2 ^ suc k) options.region)

  abbrev pub count_of_tiles : PyramidizerOptions Image → ℕ → ℕ
  count_of_tiles options k = columns (tiles_of_region options k) * rows (tiles_of_region options k)

  -- A run for layer k + 1, which is 2 or more, returns. The tiles that it puts out cover every pixel of the region that a
  -- tile of the layer below covers; each starts on multiples of 2 ^ layer, and its bitmap is its
  -- rectangle divided by 2 ^ layer without a rest. The reports count from 0 up to the number of
  -- tile rectangles. The conditions: there are tiles, all of one pixel type, the region latches and
  -- can be tiled, and the tile rectangles stay in the range of an `int`.
  pub execute-IsCovered :
      (options : PyramidizerOptions Image) (k q : ℕ) (type : PixelType)
      → options.pyramid_layer ≡ suc k
      → 1 ≤ k
      → 2 ^ suc k * q ≡ int_limit
      → AllOf img type options.tiles
      → 0 < length options.tiles
      → IsLatchable (2 ^ suc k) options.region
      → IsSpacious (2 ^ suc k) (latched (2 ^ suc k) options.region)
      → IsTileable (tiles_of_region options k)
      → (calls : List (Call Image)) × (execute ops img options ≡ ok calls)
        × IsCovered ops img
            (2 ^ suc k)
            type
            (λ p. InTiles (rects_of options.tiles) p × Contains options.region p)
            ((count_of_tiles options k, 0)
              ∷ count_up (count_of_tiles options k) 1 (count_of_tiles options k))
            calls
  unfolding execute
  execute-IsCovered options k q type layer above divisor all some_tiles latchable spacious
        tileable =
      let m : ℕ = 2 ^ suc k in
      let L : IntRect = latched m options.region in
      let total : ℕ = count_of_tiles options k in
      let (first, ef, et, supported) = front_lem type options.tiles all some_tiles in
      let factor : 2 ^ options.pyramid_layer % u32_mod ≡ m =
        ap (λ n. 2 ^ n % u32_mod) layer ∙ fits_u32 ops img m q divisor in
      let el =
        ap (enlarge_and_latch options.region) factor
        ∙ enlarge_and_latch-latched options.region m q (positive_power (suc k)) divisor latchable in
      let (list, er, count, iff) = tile_rectangles_cover (tiles_of_region options k) tileable in
      let (calls, ec, c) =
        rectangles-IsCovered ops img options k q type layer above divisor supported all L spacious
          list total 1 (λ p. (iff p).0) in
      (
        progress total 0 ∷ calls,
        rw
            (
              ef,
              construct_tile_helper_lem (rects_of options.tiles),
              el,
              get_number_of_tiles_lem (tiles_of_region options k) tileable,
              er,
              et,
              ec,
            )
            refl,
        record {
          covers = λ p s. c.covers p (
            s.0,
            (iff p).1 (
                IsLatched-Within m options.region L
                  (latched-IsLatched m options.region (positive_power (suc k))) p s.1),
          );
          exact = c.exact;
          counts = ap (λ l. (total, 0) ∷ l) (c.counts ∙ ap (count_up total 1) count);
        },
      )
