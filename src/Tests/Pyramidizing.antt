-- ===== src/Tests/Pyramidizing.antt =====
-- The pyramid of a plane of 8 by 8 pixels, with tiles of 2 by 2, and a run over two channels.
use native.Mathlib.Nat.{div-le_of_le-mul}
use czi_pyramidizer.Prelude.{
  ℕ, zero, suc, ◌*◌, ◌/◌, ◌^◌, ◌<◌, ◌≤◌, ◌≡◌, refl, List, [], ◌∷◌, ◌++◌, Option, none, some, inl,
  Bool, true, false, arith, map, ltb, ◌||◌,
}
use czi_pyramidizer.Prelude.Int.{ℤ, pos, ◌+ℤ◌, ◌-ℤ◌, pos_part, int_laws}
use czi_pyramidizer.Prelude.Words.{to_u32, to_u32-pos}
use czi_pyramidizer.Prelude.Outcome.{division_by_zero, Outcome, ok, err}
use czi_pyramidizer.Rect.{IntRect, Point, Contains}
use czi_pyramidizer.Bitmap.{PixelType}
use czi_pyramidizer.CheckForPyramid.{find}
use czi_pyramidizer.Dimensions.{
  DimensionIndex, dim_s, dim_c, dim_z, dim_t, dim_r, dim_i, dim_h, dim_v, dim_b, Interval,
}
use czi_pyramidizer.Planes.{
  PlaneEnumerator, PyramidRegion, pyramid_regions, planes_from, first_plane,
  get_coordinate_one_after_end, after_end_from, next_plane, increment, region_of, set_starts,
  get_roi_for_scene, count_planes, find_scene, plane_enumerator, any_interval,
  all_scenes_have_boxes,
}
use czi_pyramidizer.Pyramidize.{report_pyramidizer, report_progress_pyramidizer, narrow_u8}
use czi_pyramidizer.Pyramidize.Scenes.{
  all_events, maximum_for, scene_layers, execute_planes-maximum,
}
use czi_pyramidizer.SubBlocks.{
  SubBlock, SubBlockInfo, SubBlockPyramidType, CopyCall, copy_sub_blocks_to_destination,
  copy_sub_blocks, add_sub_block_info, narrow_size, report_copy,
}
use czi_pyramidizer.Compose.{narrow_int}
use czi_pyramidizer.OutputTile.{CompressionMode, TileInfo, mem_ptr}
use czi_pyramidizer.Context.{Context}
use czi_pyramidizer.Upper.{Call}
use czi_pyramidizer.Upper.Alignment.{positive_power}
use czi_pyramidizer.Upper.Coverage.{IsCovered}
use czi_pyramidizer.TileHelper.Hull.{InTiles}
use czi_pyramidizer.Pyramidize.{
  Reader, Event, copied, layer0_calls, copies_of_plane, do_plane, execute_planes, quotient,
  is_above_pyramid_threshold,
}
use czi_pyramidizer.Pyramidize.ZeroTiles.{do_plane-division_by_zero}
use czi_pyramidizer.Pyramidize.Layer0.{Reads, layer0_calls-IsCovered}
use czi_pyramidizer.Pyramidize.Layers.{exceeds, IsLayerFit}
use czi_pyramidizer.Pyramidize.Plane.{do_plane-count}
use czi_pyramidizer.Tests.Ops.{rect, concrete_ops}
use czi_pyramidizer.Tests.Dims.{concrete_dimensions, put}
use czi_pyramidizer.Tests.Layers.{Extents, extents}

abbrev Positions : Type 0
Positions = DimensionIndex → Option ℤ

abbrev whole : IntRect
whole = rect (pos 0) (pos 0) (pos 8) (pos 8)

abbrev first_channel : Positions
first_channel = put (λ d. none) dim_c (some (pos 0))

abbrev info : SubBlockInfo Positions
info = record {
  coordinate = first_channel;
  logical_rect = whole;
  physical_width = 8;
  physical_height = 8;
  pixel_type = PixelType.gray8;
  m_index = pos 0;
  pyramid_type = SubBlockPyramidType.no_pyramid;
  compression_mode_raw = pos 0;
}

abbrev sub_block : SubBlock Positions
sub_block = record { info = info; raw_data = 1 ∷ 2 ∷ []; metadata = []; attachment = [] }

abbrev two_channels : DimensionIndex → Option Interval
two_channels dim_z = none
two_channels dim_c = some (pos 0, pos 2)
two_channels dim_t = none
two_channels dim_r = none
two_channels dim_s = none
two_channels dim_i = none
two_channels dim_h = none
two_channels dim_v = none
two_channels dim_b = none

abbrev image : IntRect → Extents
image roi = record { width = pos_part roi.w; height = pos_part roi.h; pixel_type = PixelType.gray8 }

-- A document with one subblock for each plane; its colours are numbers.
abbrev document : Reader concrete_dimensions Extents ℕ
document = record {
  statistics = record { bounding_box_layer0_only = whole; scene_bounding_boxes = [] };
  dim_bounds = two_channels;
  read_sub_block = λ i. ok sub_block;
  try_get_sub_block_info = λ i. some info;
  enum_subset = λ c r. 0 ∷ [];
  get = λ roi c s color. ok (image roi);
}

document-Reads : Reads concrete_dimensions extents document PixelType.gray8
document-Reads = record { get_returns = λ roi c s color n w h. (image roi, refl, refl, refl, refl) }

abbrev tile_written : Extents → Positions → IntRect → TileInfo Positions
tile_written b c r = record {
  coordinate = c;
  x = r.x;
  y = r.y;
  logical_width = r.w;
  logical_height = r.h;
  physical_width = pos b.width;
  physical_height = pos b.height;
  pixel_type = b.pixel_type;
  compression_mode = CompressionMode.un_compressed;
  pyramid_type = SubBlockPyramidType.multi_sub_block;
  m_index_valid = false;
  stored = mem_ptr [] 0;
}

abbrev write_tile : Extents → Positions → IntRect → Outcome (TileInfo Positions)
write_tile b c r = ok (tile_written b c r)

abbrev tiles_of : ℕ → Context ℕ
tiles_of size = record {
  command_line_options = record {
    pyramid_tile_width = size;
    pyramid_tile_height = size;
    compression_mode = CompressionMode.un_compressed;
    compress_parameters = none;
  };
  progress_report = true;
  compression_mode_determined_from_source = none;
  background_is_white = false;
}

abbrev plane : PyramidRegion concrete_dimensions
plane = record { plane_coordinate = first_channel; rect = whole }

abbrev writes :
    (b : Extents) (c : Positions) (r : IntRect)
    → b.pixel_type ≡ PixelType.gray8
    → (i : TileInfo Positions) × (write_tile b c r ≡ ok i)
writes b c r e = (tile_written b c r, refl)

abbrev plane_exceeds : ℕ → Bool
plane_exceeds k =
    exceeds concrete_dimensions concrete_ops extents 1 0 document write_tile (tiles_of 2)
      PixelType.gray8 writes whole k

below : (a b : ℕ) → b ≤ a → ltb a b ≡ false
below a b h = ground arith

fits_tile : (q : ℕ) → q ≤ 2 → (ltb 2 (to_u32 (pos q)) || ltb 2 (to_u32 (pos q))) ≡ false
fits_tile q h = rw (to_u32-pos q (omega arith), below 2 q h) refl

-- From layer 2 on the plane fits into a tile.
small_from_2 : (k : ℕ) → plane_exceeds (suc (suc k)) ≡ false
unfolding is_above_pyramid_threshold quotient
small_from_2 k =
    let enough : 8 ≤ 2 ^ suc (suc k) * 2 = omega (arith, positive_power k) in
    fits_tile (8 / 2 ^ suc (suc k)) (div-le_of_le-mul (2 ^ suc (suc k)) enough)

abbrev IsFit : ℕ → Type 0
IsFit k =
    IsLayerFit concrete_dimensions concrete_ops extents 1 0 document write_tile (tiles_of 2)
      PixelType.gray8 writes whole k

layer_1-IsFit : IsFit 0
unfolding ◌+ℤ◌ ◌-ℤ◌
layer_1-IsFit = record {
  latchable = omega int_laws;
  spacious = omega int_laws;
  tileable = omega arith;
}

layer_2-IsFit : IsFit 1
unfolding ◌+ℤ◌ ◌-ℤ◌
layer_2-IsFit = record {
  latchable = omega int_laws;
  spacious = omega int_laws;
  tileable = omega arith;
}

fits : (k : ℕ) → k < 30 → plane_exceeds k ≡ true → IsFit k
fits zero h above = layer_1-IsFit
fits (suc zero) h above = layer_2-IsFit
fits (suc (suc k)) h above = absurd (cc (small_from_2 k, above))

abbrev results_of : {A : Type 0} → Outcome (List A) → List A
results_of (ok xs) = xs
results_of (err e) = []

abbrev copies : Outcome (List (CopyCall Positions))
copies =
    copies_of_plane concrete_dimensions concrete_ops extents 1 0 document write_tile (tiles_of 2)
      plane

copying : copies ≡ ok (results_of copies)
unfolding copy_sub_blocks_to_destination copy_sub_blocks add_sub_block_info narrow_size narrow_int
    report_copy
copying = refl

abbrev corner : Point
corner = record { px = pos 0; py = pos 0 }

layer0_calls-IsCovered_example :
    (calls : List (Call Extents)) × (layer0_calls concrete_dimensions concrete_ops extents 1 0
        document write_tile
        (tiles_of 2)
        plane
        (0 ∷ [])
      ≡ ok calls)
    × IsCovered concrete_ops extents 2 PixelType.gray8
        (λ p. InTiles (whole ∷ []) p × Contains whole p)
        ((4, 0) ∷ (4, 1) ∷ (4, 2) ∷ (4, 3) ∷ (4, 4) ∷ [])
        calls
unfolding ◌+ℤ◌ ◌-ℤ◌
layer0_calls-IsCovered_example =
    layer0_calls-IsCovered concrete_dimensions concrete_ops extents 1 0 document write_tile
      (tiles_of 2) PixelType.gray8 document-Reads plane (0 ∷ []) (whole ∷ [])
      ((info, refl, refl), tt) layer_1-IsFit.latchable layer_1-IsFit.spacious layer_1-IsFit.tileable

do_plane-count_example :
    (before after : List (Event Positions)) × (count : ℕ) × (do_plane concrete_dimensions
        concrete_ops extents 1 0 document write_tile
        (tiles_of 2)
        plane
      ≡ ok (before ++ (map copied (results_of copies) ++ after), count))
    × (plane_exceeds count ≡ false)
    × ((k : ℕ) → k < count → plane_exceeds k ≡ true)
do_plane-count_example =
    do_plane-count concrete_dimensions concrete_ops extents 1 0 document write_tile (tiles_of 2)
      PixelType.gray8 document-Reads writes plane (whole ∷ []) (results_of copies)
      ((info, refl, refl), tt) copying corner (omega int_laws) (inl (omega int_laws)) fits
      (omega arith) (omega arith) (omega arith) (omega arith)

abbrev enumerator : PlaneEnumerator concrete_dimensions
enumerator = record { statistics = document.statistics; dim_bounds = two_channels }

abbrev regions : List (PyramidRegion concrete_dimensions)
regions = results_of (pyramid_regions concrete_dimensions enumerator)

enumerated : pyramid_regions concrete_dimensions enumerator ≡ ok regions
unfolding pyramid_regions planes_from first_plane get_coordinate_one_after_end after_end_from
    next_plane increment region_of set_starts get_roi_for_scene count_planes find_scene ◌+ℤ◌ ◌-ℤ◌
enumerated = refl

-- With tiles of 10 by 10 there is nothing to reduce.
abbrev events_of : PyramidRegion concrete_dimensions → List (Event Positions)
events_of r =
    report_progress_pyramidizer r.plane_coordinate 0 0 0
    ∷ map copied (
        results_of (
          copies_of_plane concrete_dimensions concrete_ops extents 1 0 document write_tile
            (tiles_of 10) r))

abbrev second_plane : Outcome (List (Event Positions) × ℕ)
second_plane =
    do_plane concrete_dimensions concrete_ops extents 1 0 document write_tile (tiles_of 10) plane

second_plane_copied : second_plane ≡ ok (events_of plane, 0)
unfolding do_plane is_above_pyramid_threshold quotient to_u32 report_pyramidizer narrow_u8
    copy_sub_blocks_to_destination copy_sub_blocks add_sub_block_info narrow_size narrow_int
    report_copy
second_plane_copied = refl

abbrev results : List (List (Event Positions) × ℕ)
results = map (λ r. (events_of r, 0)) regions

execute_planes-maximum_example :
    (info : List (ℤ × ℕ)) × (execute_planes concrete_dimensions concrete_ops extents 1 0 document
        write_tile
        (tiles_of 10)
      ≡ ok (
        all_events concrete_dimensions concrete_ops extents 1 0 document write_tile
            (tiles_of 10)
            results,
        info,
      ))
    × ((key : ℤ)
        → find key info
          ≡ maximum_for key (
              scene_layers concrete_dimensions concrete_ops extents 1 0 document write_tile
                (tiles_of 10)
                regions
                results))
unfolding do_plane is_above_pyramid_threshold quotient to_u32 report_pyramidizer narrow_u8
    copy_sub_blocks_to_destination copy_sub_blocks add_sub_block_info narrow_size narrow_int
    report_copy pyramid_regions planes_from first_plane get_coordinate_one_after_end after_end_from
    next_plane increment region_of set_starts get_roi_for_scene count_planes find_scene ◌+ℤ◌ ◌-ℤ◌
    plane_enumerator any_interval all_scenes_have_boxes
execute_planes-maximum_example =
    execute_planes-maximum concrete_dimensions concrete_ops extents 1 0 document write_tile
      (tiles_of 10) enumerator regions results refl refl (refl, (refl, tt))

-- The copying does not depend on the tile size.
copying_without_tiles :
    copies_of_plane concrete_dimensions concrete_ops extents 1 0 document write_tile
      (tiles_of 0)
      plane
    ≡ ok (results_of copies)
unfolding copy_sub_blocks_to_destination copy_sub_blocks add_sub_block_info narrow_size narrow_int
    report_copy
copying_without_tiles = refl

do_plane-division_by_zero_example :
    do_plane concrete_dimensions concrete_ops extents 1 0 document write_tile (tiles_of 0) plane
    ≡ err division_by_zero
do_plane-division_by_zero_example =
    do_plane-division_by_zero concrete_dimensions concrete_ops extents 1 0 document write_tile
      (tiles_of 0) refl (λ index. (info, refl)) plane (results_of copies) 8 copying_without_tiles
      refl (omega arith) (omega arith) layer_1-IsFit.latchable
