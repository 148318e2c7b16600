-- ===== src/Upper.antt =====
-- libpyramidizer/src/UpperPyramidLayersPyramidizer.cpp: a pyramid layer made from the tiles of the
-- layer below. The two functors that `Execute` calls return nothing, so a run is the list of the
-- calls that it makes of them, in order. There is a functor for the progress, as its only caller
-- sets one.
pub mod Alignment
pub mod Layer
pub mod Coverage
pub mod Run
pub mod Intersecting
use czi_pyramidizer.Prelude.{
  ℕ, zero, suc, ◌+◌, ◌-◌, ◌*◌, ◌/◌, ◌%◌, ◌^◌, ◌||◌, List, [], ◌∷◌, ◌++◌, map, Option, none, some,
  length, get_elem?, if◌then◌else◌,
}
use czi_pyramidizer.Prelude.Int.{ℤ, pos, negsuc, ◌-ℤ◌, ltb_ℤ}
use czi_pyramidizer.Prelude.Words.{u32_mod}
use czi_pyramidizer.Prelude.Outcome.{Outcome, ok, err, out_of_bounds, stuck, ◌>>=◌}
use czi_pyramidizer.Rect.{IntRect, RectOps}
use czi_pyramidizer.Bitmap.{PixelType}
use czi_pyramidizer.Imaging.{Imaging, Placement}
use czi_pyramidizer.Latch.{enlarge_and_latch}
use czi_pyramidizer.TileHelper.{
  TileHelper, next_tile, initialize_from_functor, get_minimal_rect_for_roi,
}
use czi_pyramidizer.Tiling.{TilingEnumerator, get_number_of_tiles, tile_rectangles}

-- `ITile`.
pub record Tile (B : Type 0) : Type 0 where
  pub rect : IntRect
  pub bitmap : B

pub record PyramidizerOptions (B : Type 0) : Type 0 where
  pub tiles : List (Tile B)
  pub region : IntRect
  pub pyramid_layer : ℕ
  pub pyramid_tile_width : ℕ
  pub pyramid_tile_height : ℕ

-- The calls of `output_tile_functor` and of `progress_report`.
pub data Call (B : Type 0) : Type 0 where
  output_tile : Tile B → Call B
  progress : ℕ → ℕ → Call B

-- `z >> n` of an `int`, which rounds down.
unfoldable pub shift_right : ℤ → ℕ → ℤ
shift_right (pos z) n = pos (z / 2 ^ n)
shift_right (negsuc z) n = negsuc (z / 2 ^ n)

-- Every caller passes a layer that is at least 2.
abbrev pub scale_by_pyramid_layer_minus_one : ℕ → ℤ → ℤ
scale_by_pyramid_layer_minus_one pyramid_layer x = shift_right x (pyramid_layer - 1)

abbrev pub scale_rect : ℕ → IntRect → IntRect
scale_rect layer r = record {
  x = scale_by_pyramid_layer_minus_one layer r.x;
  y = scale_by_pyramid_layer_minus_one layer r.y;
  w = scale_by_pyramid_layer_minus_one layer r.w;
  h = scale_by_pyramid_layer_minus_one layer r.h;
}

abbrev pub rects_of : {B : Type 0} → List (Tile B) → List IntRect
rects_of tiles = map (λ t. t.rect) tiles

-- Where the bitmap of a tile goes.
abbrev pub placement : {B : Type 0} → ℕ → IntRect → Tile B → Placement B
placement layer roi tile = record {
  bitmap = tile.bitmap;
  x = scale_by_pyramid_layer_minus_one layer (tile.rect.x -ℤ roi.x);
  y = scale_by_pyramid_layer_minus_one layer (tile.rect.y -ℤ roi.y);
}

-- `ConstructTileHelper`, over the tiles' rectangles.
unfoldable pub construct_tile_helper : List IntRect → Outcome TileHelper
construct_tile_helper rects =
    elim (initialize_from_functor (length rects + 1) next_tile rects (record { tiles = [] })) [
      | none ↦ err stuck
      | some helper ↦ ok helper
    ]

module _ (ops : RectOps) (img : Imaging) where
  open ops use {is_non_empty, intersect}
  open img use {Image, pixel_type, compose, decimate}

  -- The loop of `GetTilesIntersecting` from index i on.
  unfoldable pub get_tiles_intersecting : ℕ → List (Tile Image) → IntRect → List ℕ
  get_tiles_intersecting i [] rect = []
  get_tiles_intersecting i (tile ∷ tiles) rect =
      let rest = get_tiles_intersecting (i + 1) tiles rect in
      if is_non_empty (intersect tile.rect rect) then i ∷ rest else rest

  -- What the functor given to `Compose` yields for the indices, one after the other.
  unfoldable pub place_tiles :
      ℕ → List (Tile Image) → IntRect → List ℕ → Outcome (List (Placement Image))
  place_tiles layer tiles roi [] = ok []
  place_tiles layer tiles roi (index ∷ indices) = elim (get_elem? tiles index) [
    | none ↦ err out_of_bounds
    | some tile ↦ do
      rest ← place_tiles layer tiles roi indices
      ok (placement layer roi tile ∷ rest)
  ]

  -- `none` is the null pointer for a tile that is too small.
  unfoldable pub create_pyramid_tile :
      ℕ → List (Tile Image) → PixelType → IntRect → List ℕ → Outcome (Option Image)
  create_pyramid_tile layer tiles type roi tiles_within_rect =
      let roi_scaled = scale_rect layer roi in
      if ltb_ℤ roi_scaled.w (pos 2) || ltb_ℤ roi_scaled.h (pos 2) then ok none else (do
        placements ← place_tiles layer tiles roi tiles_within_rect
        composition ← compose roi_scaled type placements
        pyramid_tile ← decimate composition
        ok (some pyramid_tile))

  -- The body of the loop, but for the progress: the tile that it outputs, if any.
  unfoldable pub process_tile_rectangle :
      PyramidizerOptions Image → PixelType → TileHelper → IntRect → Outcome (List (Call Image))
  process_tile_rectangle options type tile_helper tile_rectangle =
      let minimal_rect = get_minimal_rect_for_roi ops tile_helper tile_rectangle in
      if is_non_empty minimal_rect
      then (do
        minimal_tile_latched ← enlarge_and_latch minimal_rect (2 ^ options.pyramid_layer % u32_mod)
        pyramid_tile ←
            create_pyramid_tile options.pyramid_layer options.tiles type minimal_tile_latched
              (get_tiles_intersecting 0 options.tiles minimal_tile_latched)
        elim pyramid_tile [
          | none ↦ ok []
          | some tile ↦
              ok (output_tile (record { rect = minimal_tile_latched; bitmap = tile }) ∷ [])
        ])
      else ok []

  unfoldable pub process_tile_rectangles :
      PyramidizerOptions Image
      → PixelType
      → TileHelper
      → ℕ
      → ℕ
      → List IntRect
      → Outcome (List (Call Image))
  process_tile_rectangles options type tile_helper total tiles_processed [] = ok []
  process_tile_rectangles options type tile_helper total tiles_processed (rect ∷ rects) = do
    calls ← process_tile_rectangle options type tile_helper rect
    later ← process_tile_rectangles options type tile_helper total (tiles_processed + 1) rects
    ok (calls ++ progress total tiles_processed ∷ later)

  -- `tiles.front()` of no tiles is undefined.
  unfoldable pub front : List (Tile Image) → Outcome (Tile Image)
  front [] = err out_of_bounds
  front (tile ∷ tiles) = ok tile

  abbrev pub tiling_of : PyramidizerOptions Image → IntRect → TilingEnumerator
  tiling_of options roi = record {
    roi = roi;
    tile_width = 2 ^ options.pyramid_layer % u32_mod * options.pyramid_tile_width % u32_mod;
    tile_height = 2 ^ options.pyramid_layer % u32_mod * options.pyramid_tile_height % u32_mod;
  }

  unfoldable pub execute : PyramidizerOptions Image → Outcome (List (Call Image))
  execute options = do
    first ← front options.tiles
    tile_helper ← construct_tile_helper (rects_of options.tiles)
    enlarged ← enlarge_and_latch options.region (2 ^ options.pyramid_layer % u32_mod)
    total ← get_number_of_tiles (tiling_of options enlarged)
    rects ← tile_rectangles (tiling_of options enlarged)
    calls ← process_tile_rectangles options (pixel_type first.bitmap) tile_helper total 1 rects
    ok (progress total 0 ∷ calls)
