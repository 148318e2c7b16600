-- ===== src/Pyramidize/Layer0.antt =====
-- `DoLayer0`: the tiles that are made from the subblocks of a plane.
use czi_pyramidizer.Prelude.{
  ℕ, ◌+◌, ◌*◌, ◌<◌, ◌≤◌, ◌≡◌, refl, ap, ◌∙◌, sym, ◌||◌, List, [], ◌∷◌, ◌++◌, Option, Option-cases,
  inl, inr, none, some, true, false, arith, Bool-cases, length, count_up,
}
use czi_pyramidizer.Prelude.Int.{ℤ, pos, pos_part, neg_part, ltb_ℤ}
use czi_pyramidizer.Prelude.Words.{int_limit}
use czi_pyramidizer.Prelude.Outcome.{Outcome, ok}
use czi_pyramidizer.Rect.{IntRect, Point, Contains, Within, IsNonEmpty, RectOps}
use czi_pyramidizer.Bitmap.{PixelType}
use czi_pyramidizer.Imaging.{Imaging}
use czi_pyramidizer.Dimensions.{Dimensions, dim_s, dim_c}
use czi_pyramidizer.Latch.{enlarge_and_latch}
use czi_pyramidizer.Latch.Bounds.{
  IsLatchable, latched, latched-IsLatched, IsLatched-Within, enlarge_and_latch-latched,
}
use czi_pyramidizer.TileHelper.{TileHelper, get_minimal_rect_for_roi}
use czi_pyramidizer.TileHelper.Hull.{
  InTiles, Within-Inside, get_minimal_rect_for_roi-IsHull, no-pixels,
}
use czi_pyramidizer.Tiling.{TilingEnumerator}
use czi_pyramidizer.Tiling.Cover.{IsTileable, columns, rows, get_number_of_tiles_lem}
use czi_pyramidizer.Tiling.Loop.{tile_rectangles_cover}
use czi_pyramidizer.Planes.{PyramidRegion}
use czi_pyramidizer.OutputTile.{TileInfo}
use czi_pyramidizer.SubBlocks.{SubBlockInfo}
use czi_pyramidizer.Context.{Context, get_background_color}
use czi_pyramidizer.Upper.{Call, output_tile, progress}
use czi_pyramidizer.Upper.Alignment.{large_enough, IsLatched-extents}
use czi_pyramidizer.Upper.Coverage.{
  IsSpacious, Inside-IsLatchable, Inside-extents, IsCovered, IsCovered-append,
}
use czi_pyramidizer.Upper.Run.{construct_tile_helper_lem}
use czi_pyramidizer.Pyramidize.{
  Reader, channel_index_of, logical_rects, construct_tile_helper_for_plane, generate_pyramid_tile,
  process_rectangle, process_rectangles, tiling_of_layer0, layer0_calls,
}

-- libCZI's accessor of tiles gives bitmaps of one pixel type, of the extents of the rectangle.
pub record Reads (dims : Dimensions) (img : Imaging) {Color : Type 0}
    (reader : Reader dims img.Image Color) (type : PixelType) : Type 0 where
  pub get_returns :
      (roi : IntRect) (c : dims.Coordinate) (s : Option ℤ) (color : Color)
      → IsNonEmpty roi
      → pos_part roi.w < int_limit
      → pos_part roi.h < int_limit
      → (b : img.Image) × (reader.get roi c s color ≡ ok b)
        × img.IsOf type b
        × (img.width b ≡ pos_part roi.w)
        × (img.height b ≡ pos_part roi.h)

module _ (dims : Dimensions) (ops : RectOps) (img : Imaging) {Color Parameters : Type 0}
    (white black : Color) (reader : Reader dims img.Image Color)
    (write : img.Image → dims.Coordinate → IntRect → Outcome (TileInfo dims.Coordinate))
    (context : Context Parameters) (type : PixelType) (reads : Reads dims img reader type)
    (region : PyramidRegion dims) where
  open img use {Image, IsOf}

  abbrev color : Color
  color = get_background_color white black context (
      channel_index_of dims ops img white black reader write context
        (dims.try_get_position region.plane_coordinate dim_c))

  -- What the accessor is asked for.
  abbrev read_bitmap : IntRect → Outcome Image
  read_bitmap roi = elim (dims.try_get_position region.plane_coordinate dim_s) [
    | none ↦ reader.get roi region.plane_coordinate none color
    | some s_index ↦ reader.get roi (dims.clear region.plane_coordinate dim_s) (some s_index) color
  ]

  read_bitmap_returns :
      (roi : IntRect)
      → IsNonEmpty roi
      → pos_part roi.w < int_limit
      → pos_part roi.h < int_limit
      → (b : Image) × (read_bitmap roi ≡ ok b)
        × IsOf type b
        × (img.width b ≡ pos_part roi.w)
        × (img.height b ≡ pos_part roi.h)
  read_bitmap_returns roi n w h =
      elim (Option-cases (dims.try_get_position region.plane_coordinate dim_s)) [
        | inl e ↦
            let (b, eb, is, ww, hh) =
              reads.get_returns roi region.plane_coordinate none color n w h in
            (b, rw (read_bitmap, e) eb, is, ww, hh)
        | inr (s, e) ↦
            let (b, eb, is, ww, hh) =
              reads.get_returns roi (dims.clear region.plane_coordinate dim_s) (some s) color n w
                h in
            (b, rw (read_bitmap, e) eb, is, ww, hh)
      ]

  abbrev generated : IntRect → Outcome (Option Image)
  generated roi = generate_pyramid_tile dims ops img white black reader write context roi region

  -- A rectangle of even extents is not too small, and its tile has the halves of them.
  generate_pyramid_tile_lem :
      (roi : IntRect) (a b : ℕ)
      → roi.w ≡ pos (a * 2)
      → roi.h ≡ pos (b * 2)
      → 1 ≤ a
      → 1 ≤ b
      → a * 2 < int_limit
      → b * 2 < int_limit
      → (d : Image) × (generated roi ≡ ok (some d))
        × IsOf type d
        × (img.width d ≡ a)
        × (img.height d ≡ b)
  unfolding generate_pyramid_tile
  generate_pyramid_tile_lem roi a b ew eh la lb ba bb =
      let pw : pos_part roi.w ≡ a * 2 = ap pos_part ew in
      let nw : neg_part roi.w ≡ 0 = ap neg_part ew in
      let ph : pos_part roi.h ≡ b * 2 = ap pos_part eh in
      let nh : neg_part roi.h ≡ 0 = ap neg_part eh in
      let large : (ltb_ℤ roi.w (pos 2) || ltb_ℤ roi.h (pos 2)) ≡ false =
        large_enough roi.w roi.h a b ew eh la lb in
      let (c, ec, isc, wc, hc) =
        read_bitmap_returns roi (omega arith, omega arith) (omega arith) (omega arith) in
      let (d, ed, isd, wd, hd) =
        img.decimate_returns type c isc (omega (arith, wc)) (omega (arith, hc)) in
      (d, rw (large, ec, ed) refl, isd, omega (arith, wd, wc), omega (arith, hd, hc))

  module _ (rects : List IntRect) (L : IntRect) (spacious : IsSpacious 2 L) where
    abbrev helper : TileHelper
    helper = record { tiles = rects }

    abbrev processed : IntRect → Outcome (List (Call Image))
    processed rect =
        process_rectangle dims ops img white black reader write context region helper rect

    -- One pass through the loop's body without an early end.
    put_out :
        (rect l : IntRect) (d : Image)
        → ops.is_non_empty (get_minimal_rect_for_roi ops helper rect) ≡ true
        → enlarge_and_latch (get_minimal_rect_for_roi ops helper rect) 2 ≡ ok l
        → generated l ≡ ok (some d)
        → processed rect ≡ ok (output_tile (record { rect = l; bitmap = d }) ∷ [])
    unfolding process_rectangle
    put_out rect l d non_empty latching created = rw (non_empty, latching, created) refl

    none_put_out :
        (rect : IntRect)
        → ops.is_non_empty (get_minimal_rect_for_roi ops helper rect) ≡ false
        → processed rect ≡ ok []
    unfolding process_rectangle
    none_put_out rect empty = rw empty refl

    rectangle-IsCovered :
        (rect : IntRect)
        → Within rect L
        → (calls : List (Call Image)) × (processed rect ≡ ok calls)
          × IsCovered ops img 2 type (λ p. InTiles rects p × Contains rect p) [] calls
    rectangle-IsCovered rect within =
        let least = get_minimal_rect_for_roi ops helper rect in
        let hull = get_minimal_rect_for_roi-IsHull ops helper rect in
        elim (Bool-cases (ops.is_non_empty least)) [
          | inl e ↦
              let non_empty = (ops.is_non_empty_iff least).0 e in
              let inside = Within-Inside least L non_empty (hull.least L (λ p s. within p s.1)) in
              let (bw, bh) = Inside-extents 2 least L (omega arith) non_empty inside spacious in
              let l : IntRect = latched 2 least in
              let v = latched-IsLatched 2 least (omega arith) in
              let (a, b, ga, gb, ew, eh) = IsLatched-extents 2 least l v non_empty in
              let (d, ed, isd, wd, hd) =
                generate_pyramid_tile_lem l a b ew eh ga gb (omega (arith, bw, ap pos_part ew))
                  (omega (arith, bh, ap pos_part eh)) in
              (
                output_tile (record { rect = l; bitmap = d }) ∷ [],
                put_out rect l d e
                    (enlarge_and_latch-latched least 2 1073741824 (omega arith) (omega arith)
                      (Inside-IsLatchable 2 least L (omega arith) non_empty inside spacious))
                    ed,
                record {
                  covers = λ p s. inl (IsLatched-Within 2 least l v p (hull.covers p s));
                  exact = (
                    record {
                      left_on = v.left_on;
                      top_on = v.top_on;
                      proper = isd;
                      wide = ew ∙ ap (λ n. pos (n * 2)) (sym wd);
                      high = eh ∙ ap (λ n. pos (n * 2)) (sym hd);
                    },
                    tt,
                  );
                  counts = refl;
                },
              )
          | inr e ↦ (
            [],
            none_put_out rect e,
            record {
              covers = λ p s. absurd (no-pixels ops least e p (hull.covers p s));
              exact = tt;
              counts = refl;
            },
          )
        ]

    rectangles-IsCovered :
        (list : List IntRect) (total done : ℕ)
        → ((p : Point) → InTiles list p → Contains L p)
        → (calls : List (Call Image)) × (process_rectangles dims ops img white black reader write
              context region helper total done list
            ≡ ok calls)
          × IsCovered ops img 2 type
              (λ p. InTiles rects p × InTiles list p)
              (count_up total done (length list))
              calls
    unfolding process_rectangles
    rectangles-IsCovered [] total done within =
        ([], refl, record { covers = λ p s. absurd s.1; exact = tt; counts = refl })
    rectangles-IsCovered (rect ∷ list) total done within =
        let (calls, e, c) = rectangle-IsCovered rect (λ p h. within p (inl h)) in
        let (later, el, cl) =
          rectangles-IsCovered list total (done + 1) (λ p h. within p (inr h)) in
        (
          calls ++ progress total done ∷ later,
          rw (e, el) refl,
          IsCovered-append ops img 2 type (InTiles rects) rect list total done
              (count_up total (done + 1) (length list)) calls later c cl,
        )

  -- The subblocks that are found, with their rectangles.
  abbrev pub AllFound : List ℕ → List IntRect → Type 0
  AllFound [] [] = Unit
  AllFound [] (rect ∷ rects) = ⊥
  AllFound (index ∷ indices) [] = ⊥
  AllFound (index ∷ indices) (rect ∷ rects) =
      ((info : SubBlockInfo dims.Coordinate) × (reader.try_get_sub_block_info index ≡ some info)
        × (info.logical_rect ≡ rect))
      × AllFound indices rects

  logical_rects_lem :
      (indices : List ℕ) (rects : List IntRect)
      → AllFound indices rects
      → logical_rects dims ops img white black reader write context indices ≡ ok rects
  unfolding logical_rects
  logical_rects_lem [] [] found = refl
  logical_rects_lem [] (rect ∷ rects) found = absurd found
  logical_rects_lem (index ∷ indices) [] found = absurd found
  logical_rects_lem (index ∷ indices) (rect ∷ rects) ((info, e, same), found) =
      rw (logical_rects, e, logical_rects_lem indices rects found, same) refl

  abbrev pub tiles_of_layer0 : TilingEnumerator
  tiles_of_layer0 =
      tiling_of_layer0 dims ops img white black reader write context (latched 2 region.rect)

  abbrev pub count_of_tiles : ℕ
  count_of_tiles = columns tiles_of_layer0 * rows tiles_of_layer0

  -- The making of layer 1 returns. The tiles that it puts out cover every pixel of the region that
  -- a subblock covers; each starts on even coordinates, and its bitmap has the halves of the extents
  -- of its rectangle. The reports count from 0 up to the number of tile rectangles. The conditions:
  -- the subblocks have infos, the region latches and can be tiled, and the tile rectangles stay in
  -- the range of an `int`.
  pub layer0_calls-IsCovered :
      (indices : List ℕ) (rects : List IntRect)
      → AllFound indices rects
      → IsLatchable 2 region.rect
      → IsSpacious 2 (latched 2 region.rect)
      → IsTileable tiles_of_layer0
      → (calls : List (Call Image)) × (layer0_calls dims ops img white black reader write context
            region indices
          ≡ ok calls)
        × IsCovered ops img 2 type
            (λ p. InTiles rects p × Contains region.rect p)
            ((count_of_tiles, 0) ∷ count_up count_of_tiles 1 count_of_tiles)
            calls
  unfolding layer0_calls construct_tile_helper_for_plane
  layer0_calls-IsCovered indices rects found latchable spacious tileable =
      let L : IntRect = latched 2 region.rect in
      let total : ℕ = count_of_tiles in
      let (list, er, count, iff) = tile_rectangles_cover tiles_of_layer0 tileable in
      let (calls, ec, c) = rectangles-IsCovered rects L spacious list total 1 (λ p. (iff p).0) in
      (
        progress total 0 ∷ calls,
        rw
            (
              logical_rects_lem indices rects found,
              construct_tile_helper_lem rects,
              enlarge_and_latch-latched region.rect 2 1073741824 (omega arith) (omega arith)
                  latchable,
              get_number_of_tiles_lem tiles_of_layer0 tileable,
              er,
              ec,
            )
            refl,
        record {
          covers = λ p s. c.covers p (
            s.0,
            (iff p).1 (
                IsLatched-Within 2 region.rect L (latched-IsLatched 2 region.rect (omega arith)) p
                  s.1),
          );
          exact = c.exact;
          counts = ap (λ l. (total, 0) ∷ l) (c.counts ∙ ap (count_up total 1) count);
        },
      )
