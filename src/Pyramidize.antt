-- ===== src/Pyramidize.antt =====
-- libpyramidizer/src/do_pyramidize.cpp: `DoPyramidize`, which makes the pyramid of each plane. The
-- document that is read is libCZI's `Reader`, and the writer is the function that a pyramid tile is
-- handed to, as `OutputTile.write_pyramid_output_tile` with the options of the command line. A run
-- returns the list of its calls of the writer and of the progress reporter, in order, or the error
-- with which it ends. The tiles of a layer are made before the first of them is written, so that
-- where both a making and an earlier writing fail, the error is that of the making.
pub mod Scenes
pub mod Layer0
pub mod Layers
pub mod Plane
pub mod ZeroTiles
use czi_pyramidizer.Prelude.{
  ℕ, zero, suc, ◌+◌, ◌*◌, ◌/◌, ◌%◌, ◌^◌, ◌||◌, List, [], ◌∷◌, ◌++◌, Option, none, some, Bool, true,
  false, length, ltb, if◌then◌else◌, map,
}
use czi_pyramidizer.Prelude.Int.{eqb_ℤ, ℤ, pos, negsuc, sub_ℕ, ltb_ℤ}
use czi_pyramidizer.Prelude.Words.{u32_mod, to_u32}
use czi_pyramidizer.Prelude.Outcome.{
  Outcome, ok, err, invalid_argument, logic_error, narrowing_error, indeterminate, overflow, stuck,
  ◌>>=◌,
}
use czi_pyramidizer.Rect.{IntRect, RectOps}
use czi_pyramidizer.CheckForPyramid.{SubBlockStatistics, find}
use czi_pyramidizer.Imaging.{Imaging}
use czi_pyramidizer.Latch.{enlarge_and_latch}
use czi_pyramidizer.TileHelper.{TileHelper, get_minimal_rect_for_roi}
use czi_pyramidizer.Tiling.{TilingEnumerator, get_number_of_tiles, tile_rectangles}
use czi_pyramidizer.Dimensions.{Dimensions, dim_s, dim_c}
use czi_pyramidizer.Planes.{PlaneEnumerator, PyramidRegion, plane_enumerator, pyramid_regions}
use czi_pyramidizer.SubBlocks.{SubBlock, SubBlockInfo, CopyCall, copy_sub_blocks_to_destination}
use czi_pyramidizer.OutputTile.{TileInfo}
use czi_pyramidizer.Upper.{
  construct_tile_helper, Tile, Call, output_tile, progress, PyramidizerOptions,
  construct_tile_helper, execute,
}
use czi_pyramidizer.Context.{Context, get_background_color}

-- libCZI's reader and its accessor of tiles, as far as the source calls them: `enum_subset` gives
-- the indices of the subblocks of layer 0 that lie in a plane and meet a rectangle; `get` composes
-- them, of one scene if one is given, on a background colour.
pub record Reader (dims : Dimensions) (Image Color : Type 0) : Type 0 where
  pub statistics : SubBlockStatistics
  pub dim_bounds : dims.Bounds
  pub read_sub_block : ℕ → Outcome (SubBlock dims.Coordinate)
  pub try_get_sub_block_info : ℕ → Option (SubBlockInfo dims.Coordinate)
  pub enum_subset : dims.Coordinate → IntRect → List ℕ
  pub get : IntRect → dims.Coordinate → Option ℤ → Color → Outcome Image

-- The calls of the writer and of the progress reporter.
pub data Event (Coordinate : Type 0) : Type 0 where
  copied : CopyCall Coordinate → Event Coordinate
  written : TileInfo Coordinate → Event Coordinate
  report_progress_pyramidizer : Coordinate → ℕ → ℕ → ℕ → Event Coordinate

-- `PyramidizeOptions`; a null pointer is `none`.
pub record PyramidizeOptions (R W C : Type 0) : Type 0 where
  pub reader : Option R
  pub writer : Option W
  pub context : Option C

unfoldable pub initialize :
    {R W C : Type 0} → PyramidizeOptions R W C → Outcome (PyramidizeOptions R W C)
initialize options = elim options.reader [
  | none ↦ err invalid_argument
  | some reader ↦ elim options.writer [
    | none ↦ err invalid_argument
    | some writer ↦ elim options.context [ none ↦ err invalid_argument | some context ↦ ok options ]
  ]
]

-- `ThrowIfNotInitialized`, with what the pointers point to.
unfoldable pub throw_if_not_initialized :
    {R W C : Type 0} → PyramidizeOptions R W C → Outcome (R × W × C)
throw_if_not_initialized options = elim options.reader [
  | none ↦ err logic_error
  | some reader ↦ elim options.writer [
    | none ↦ err logic_error
    | some writer ↦ elim options.context [
      | none ↦ err logic_error
      | some context ↦ ok (reader, writer, context)
    ]
  ]
]

-- The division of an `int` by a positive one, towards 0.
unfoldable pub quotient : ℤ → ℕ → ℤ
quotient (pos z) n = pos (z / n)
quotient (negsuc z) n = sub_ℕ 0 (suc z / n)

-- `1 << n` of an `int`.
unfoldable pub shift_one : ℕ → Outcome ℕ
shift_one n = if ltb n 31 then ok (2 ^ n) else err overflow

-- `gsl::narrow<uint8_t>`.
unfoldable pub narrow_u8 : ℕ → Outcome ℕ
narrow_u8 n = if ltb n 256 then ok n else err narrowing_error

-- `std::numeric_limits<int>::min()`.
abbrev pub int_min : ℤ
int_min = negsuc 2147483647

-- `existing_pyramid_info->second = ...` for a key that is in the map.
unfoldable pub assign : {V : Type 0} → ℤ → V → List (ℤ × V) → List (ℤ × V)
assign key value [] = []
assign key value ((k, v) ∷ entries) =
    let rest = assign key value entries in
    if eqb_ℤ k key then (k, value) ∷ entries else (k, v) ∷ rest

-- `result.pyramid_region_info[s_index] = ...` for a key that is not in the map, which is sorted.
unfoldable pub insert : {V : Type 0} → ℤ → V → List (ℤ × V) → List (ℤ × V)
insert key value [] = (key, value) ∷ []
insert key value ((k, v) ∷ entries) =
    let rest = insert key value entries in
    if ltb_ℤ key k then (key, value) ∷ (k, v) ∷ entries else (k, v) ∷ rest

-- The consolidation in `Execute`: the maximum of the numbers of layers, for each scene.
unfoldable pub consolidate : ℤ → ℕ → List (ℤ × ℕ) → List (ℤ × ℕ)
consolidate s_index number_of_pyramid_layers info = elim (find s_index info) [
  | none ↦ insert s_index number_of_pyramid_layers info
  | some no_of_pyramid_layers ↦
      assign s_index
        (if ltb no_of_pyramid_layers number_of_pyramid_layers
          then number_of_pyramid_layers
          else no_of_pyramid_layers)
        info
]

unfoldable pub emitted : {B : Type 0} → List (Call B) → List (Tile B)
emitted [] = []
emitted (output_tile tile ∷ calls) = tile ∷ emitted calls
emitted (progress total done ∷ calls) = emitted calls

module _ (dims : Dimensions) (ops : RectOps) (img : Imaging) {Color Parameters : Type 0}
    (white black : Color) (reader : Reader dims img.Image Color)
    (write : img.Image → dims.Coordinate → IntRect → Outcome (TileInfo dims.Coordinate))
    (context : Context Parameters) where
  open dims use {Coordinate, try_get_position, clear}
  open img use {Image, decimate}

  -- `IsAbovePyramidThreshold`, of extents converted to `std::uint32_t`.
  unfoldable pub is_above_pyramid_threshold : ℤ → ℤ → Bool
  is_above_pyramid_threshold width height =
      ltb context.command_line_options.pyramid_tile_width (to_u32 width)
      || ltb context.command_line_options.pyramid_tile_height (to_u32 height)

  abbrev pub filter_out_scene_index : Coordinate → Coordinate
  filter_out_scene_index coordinate = clear coordinate dim_s

  abbrev pub get_sub_block_indices_for_plane : PyramidRegion dims → List ℕ
  get_sub_block_indices_for_plane region = reader.enum_subset region.plane_coordinate region.rect

  -- The rectangles that the tile helper is initialized with. A subblock that is not found leaves the
  -- rectangle unset.
  unfoldable pub logical_rects : List ℕ → Outcome (List IntRect)
  logical_rects [] = ok []
  logical_rects (index ∷ indices) = elim (reader.try_get_sub_block_info index) [
    | none ↦ err indeterminate
    | some info ↦ do rects ← logical_rects indices; ok (info.logical_rect ∷ rects)
  ]

  unfoldable pub construct_tile_helper_for_plane : List ℕ → Outcome TileHelper
  construct_tile_helper_for_plane sub_blocks_of_plane = do
    rects ← logical_rects sub_blocks_of_plane
    construct_tile_helper rects

  unfoldable pub channel_index_of : Option ℤ → ℤ
  channel_index_of none = pos 0
  channel_index_of (some channel_index) = channel_index

  -- `none` is the null pointer for a tile that is too small.
  unfoldable pub generate_pyramid_tile : IntRect → PyramidRegion dims → Outcome (Option Image)
  generate_pyramid_tile roi region =
      let color =
        get_background_color white black context
          (channel_index_of (try_get_position region.plane_coordinate dim_c)) in
      if ltb_ℤ roi.w (pos 2) || ltb_ℤ roi.h (pos 2) then ok none else (do
        bitmap ← elim (try_get_position region.plane_coordinate dim_s) [
          | none ↦ reader.get roi region.plane_coordinate none color
          | some s_index ↦
              reader.get roi (filter_out_scene_index region.plane_coordinate) (some s_index) color
        ]
        pyramid_tile ← decimate bitmap
        ok (some pyramid_tile))

  -- The number of the layer is narrowed only where there is a reporter.
  unfoldable pub report_pyramidizer : Coordinate → ℕ → ℕ → ℕ → Outcome (List (Event Coordinate))
  report_pyramidizer coordinate layer total done =
      if context.progress_report
      then (do
        layer_number ← narrow_u8 layer
        ok (report_progress_pyramidizer coordinate layer_number total done ∷ []))
      else ok []

  -- What the functors of `DoPlane` do with the calls for a layer: a tile is written, and progress is
  -- reported.
  unfoldable pub handle_calls :
      Coordinate → ℕ → List (Call Image) → Outcome (List (Event Coordinate))
  handle_calls coordinate layer [] = ok []
  handle_calls coordinate layer (output_tile tile ∷ calls) = do
    info ← write tile.bitmap coordinate tile.rect
    later ← handle_calls coordinate layer calls
    ok (written info ∷ later)
  handle_calls coordinate layer (progress total done ∷ calls) = do
    report ← report_pyramidizer coordinate layer total done
    later ← handle_calls coordinate layer calls
    ok (report ++ later)

  -- The body of `DoLayer0`'s loop, but for the progress: the tile that it puts out, if any.
  unfoldable pub process_rectangle :
      PyramidRegion dims → TileHelper → IntRect → Outcome (List (Call Image))
  process_rectangle region tile_helper tile_rectangle =
      let minimal_tile = get_minimal_rect_for_roi ops tile_helper tile_rectangle in
      if ops.is_non_empty minimal_tile
      then (do
        minimal_tile_latched ← enlarge_and_latch minimal_tile 2
        pyramid_tile ← generate_pyramid_tile minimal_tile_latched region
        elim pyramid_tile [
          | none ↦ ok []
          | some tile ↦
              ok (output_tile (record { rect = minimal_tile_latched; bitmap = tile }) ∷ [])
        ])
      else ok []

  unfoldable pub process_rectangles :
      PyramidRegion dims → TileHelper → ℕ → ℕ → List IntRect → Outcome (List (Call Image))
  process_rectangles region tile_helper total count_of_tiles_done [] = ok []
  process_rectangles region tile_helper total count_of_tiles_done (rect ∷ rects) = do
    calls ← process_rectangle region tile_helper rect
    later ← process_rectangles region tile_helper total (count_of_tiles_done + 1) rects
    ok (calls ++ progress total count_of_tiles_done ∷ later)

  abbrev pub tiling_of_layer0 : IntRect → TilingEnumerator
  tiling_of_layer0 roi = record {
    roi = roi;
    tile_width = 2 * context.command_line_options.pyramid_tile_width % u32_mod;
    tile_height = 2 * context.command_line_options.pyramid_tile_height % u32_mod;
  }

  -- `DoLayer0` after the copying: the calls for its tiles and reports.
  unfoldable pub layer0_calls : PyramidRegion dims → List ℕ → Outcome (List (Call Image))
  layer0_calls region sub_blocks_of_plane = do
    tile_helper ← construct_tile_helper_for_plane sub_blocks_of_plane
    enlarged ← enlarge_and_latch region.rect 2
    total_count_of_tiles ← get_number_of_tiles (tiling_of_layer0 enlarged)
    rects ← tile_rectangles (tiling_of_layer0 enlarged)
    calls ← process_rectangles region tile_helper total_count_of_tiles 1 rects
    ok (progress total_count_of_tiles 0 ∷ calls)

  abbrev pub copies_of_plane : PyramidRegion dims → Outcome (List (CopyCall Coordinate))
  copies_of_plane region =
      copy_sub_blocks_to_destination reader.read_sub_block context.progress_report
        region.plane_coordinate (get_sub_block_indices_for_plane region)

  -- `DoLayer0`, with the tiles that it reports to its functor.
  unfoldable pub do_layer0 :
      PyramidRegion dims → Outcome (List (Event Coordinate) × List (Tile Image))
  do_layer0 region = do
    copies ← copies_of_plane region
    calls ← layer0_calls region (get_sub_block_indices_for_plane region)
    events ← handle_calls region.plane_coordinate 0 calls
    ok (map copied copies ++ events, emitted calls)

  abbrev pub layer_options : IntRect → ℕ → List (Tile Image) → PyramidizerOptions Image
  layer_options region pyramid_layer tiles = record {
    tiles = tiles;
    region = region;
    pyramid_layer = pyramid_layer;
    pyramid_tile_width = context.command_line_options.pyramid_tile_width;
    pyramid_tile_height = context.command_line_options.pyramid_tile_height;
  }

  -- The loop of `DoPlane` from a layer on that is not 0: its calls, and the number of layers.
  unfoldable pub upper_layers :
      ℕ → PyramidRegion dims → ℕ → List (Tile Image) → ℕ → Outcome (List (Event Coordinate) × ℕ)
  upper_layers zero region layer next_layer_tiles number_of_pyramid_layers = err stuck
  upper_layers (suc fuel) region layer next_layer_tiles number_of_pyramid_layers = do
    divisor ← shift_one layer
    let round = do
      pyramid_layer ← narrow_u8 (1 + layer)
      calls ← execute ops img (layer_options region.rect pyramid_layer next_layer_tiles)
      events ← handle_calls region.plane_coordinate layer calls
      elim (emitted calls) [
        | [] ↦ ok (events, number_of_pyramid_layers)
        | tile ∷ tiles ↦ do
          rest ← upper_layers fuel region (layer + 1) (tile ∷ tiles) (number_of_pyramid_layers + 1)
          ok (events ++ rest.0, rest.1)
      ]
    if is_above_pyramid_threshold (quotient region.rect.w divisor) (quotient region.rect.h divisor)
        then round
        else ok ([], number_of_pyramid_layers)

  unfoldable pub one_if_any : {B : Type 0} → List B → ℕ
  one_if_any [] = 0
  one_if_any (tile ∷ tiles) = 1

  -- `DoPlane`. The loop over the layers ends before `1 << layer` leaves the range of an `int`, so it
  -- has 31 rounds at most.
  unfoldable pub do_plane : PyramidRegion dims → Outcome (List (Event Coordinate) × ℕ)
  do_plane region =
      let layer0_alone = do
        report ← report_pyramidizer region.plane_coordinate 0 0 0
        copies ← copies_of_plane region
        ok (report ++ map copied copies, 0)
      in let one_layer = do (events, tiles) ← do_layer0 region; ok (events, one_if_any tiles)
        in let all_layers = do
          (events, tiles) ← do_layer0 region
          elim tiles [
            | [] ↦ ok (events, 0)
            | tile ∷ others ↦ do
              rest ← upper_layers 31 region 1 (tile ∷ others) 1
              ok (events ++ rest.0, rest.1)
          ]
          in if is_above_pyramid_threshold region.rect.w region.rect.h
            then (if is_above_pyramid_threshold (quotient region.rect.w 2)
                  (quotient region.rect.h 2)
                then all_layers
                else one_layer)
            else layer0_alone

  abbrev pub scene_key : PyramidRegion dims → ℤ
  scene_key region = elim (try_get_position region.plane_coordinate dim_s) [
    | none ↦ int_min
    | some s_index ↦ s_index
  ]

  -- The body of `Execute`'s loop over the planes.
  unfoldable pub do_planes :
      List (PyramidRegion dims) → List (ℤ × ℕ) → Outcome (List (Event Coordinate) × List (ℤ × ℕ))
  do_planes [] info = ok ([], info)
  do_planes (region ∷ regions) info = do
    (events, layers) ← do_plane region
    rest ← do_planes regions (consolidate (scene_key region) layers info)
    ok (events ++ rest.0, rest.1)

  -- `Execute`, with its result and the calls that it makes.
  unfoldable pub execute_planes : Outcome (List (Event Coordinate) × List (ℤ × ℕ))
  execute_planes = do
    e ← plane_enumerator dims reader.statistics reader.dim_bounds
    regions ← pyramid_regions dims e
    do_planes regions []

-- `Execute` of an object with these options.
unfoldable pub execute_pyramidize :
    (dims : Dimensions)
    → RectOps
    → (img : Imaging) → {Color Parameters : Type 0} → Color
    → Color
    → PyramidizeOptions
        (Reader dims img.Image Color)
        (img.Image → dims.Coordinate → IntRect → Outcome (TileInfo dims.Coordinate))
        (Context Parameters)
    → Outcome (List (Event dims.Coordinate) × List (ℤ × ℕ))
execute_pyramidize dims ops img white black options = do
  (reader, writer, context) ← throw_if_not_initialized options
  execute_planes dims ops img white black reader writer context
