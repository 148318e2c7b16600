-- ===== src/Pyramidize/Plane.antt =====
-- `DoPlane`: the number of layers that a plane gets.
use mathlib.Core.List.{append_assoc, append-nil}
use czi_pyramidizer.Prelude.{
  ℕ, zero, suc, ◌+◌, ◌<◌, ◌≡◌, refl, ap, ◌∙◌, sym, subst, List, [], ◌∷◌, ◌++◌, inl, inr, Bool, true,
  false, arith, Bool-cases, map,
}
use czi_pyramidizer.Prelude.Int.{pos_part, int_laws}
use czi_pyramidizer.Prelude.Words.{int_limit}
use czi_pyramidizer.Prelude.Outcome.{Outcome, ok}
use czi_pyramidizer.Rect.{IntRect, Point, Contains, RectOps}
use czi_pyramidizer.Bitmap.{PixelType}
use czi_pyramidizer.Imaging.{Imaging}
use czi_pyramidizer.Dimensions.{Dimensions}
use czi_pyramidizer.TileHelper.Hull.{InTiles}
use czi_pyramidizer.Planes.{PyramidRegion}
use czi_pyramidizer.OutputTile.{TileInfo}
use czi_pyramidizer.SubBlocks.{CopyCall}
use czi_pyramidizer.Context.{Context}
use czi_pyramidizer.Upper.{Tile, rects_of}
use czi_pyramidizer.Upper.Layer.{AllOf}
use czi_pyramidizer.Pyramidize.{
  Reader, Event, copied, emitted, is_above_pyramid_threshold, report_pyramidizer, upper_layers,
  do_layer0, copies_of_plane, get_sub_block_indices_for_plane, one_if_any, do_plane,
}
use czi_pyramidizer.Pyramidize.Layer0.{Reads, AllFound, layer0_calls-IsCovered}
use czi_pyramidizer.Pyramidize.Layers.{
  report_returns, handle_calls_returns, upper_layers_lem, emitted-AllOf, emitted-outputs,
  some_tile-cons, quotient_one, IsLayerFit, exceeds,
}

module _ (dims : Dimensions) (ops : RectOps) (img : Imaging) {Color Parameters : Type 0}
    (white black : Color) (reader : Reader dims img.Image Color)
    (write : img.Image → dims.Coordinate → IntRect → Outcome (TileInfo dims.Coordinate))
    (context : Context Parameters) (type : PixelType) (reads : Reads dims img reader type)
    (writes : (b : img.Image) (c : dims.Coordinate) (r : IntRect)
      → img.IsOf type b
      → (info : TileInfo dims.Coordinate) × (write b c r ≡ ok info))
    (region : PyramidRegion dims) (rects : List IntRect) (copies : List (CopyCall dims.Coordinate))
    (found : AllFound dims ops img white black reader write context type reads region
      (get_sub_block_indices_for_plane dims ops img white black reader write context region)
      rects)
    (copying : copies_of_plane dims ops img white black reader write context region ≡ ok copies)
    (p : Point) (inside : Contains region.rect p) (there : InTiles rects p)
    (fits : (k : ℕ)
      → k < 30
      → exceeds dims ops img white black reader write context type writes region.rect k ≡ true
      → IsLayerFit dims ops img white black reader write context type writes region.rect k)
    (wide : pos_part region.rect.w < int_limit) (high : pos_part region.rect.h < int_limit)
    (tile_wide : 0 < context.command_line_options.pyramid_tile_width)
    (tile_high : 0 < context.command_line_options.pyramid_tile_height) where
  open img use {Image}

  abbrev above : ℕ → Bool
  above k = exceeds dims ops img white black reader write context type writes region.rect k

  exceeds_at_first :
      is_above_pyramid_threshold dims ops img white black reader write context region.rect.w
        region.rect.h
      ≡ above 0
  exceeds_at_first =
      rw
        (
          quotient_one region.rect.w (omega (int_laws, inside)),
          quotient_one region.rect.h (omega (int_laws, inside)),
        )
        refl

  -- Layer 1 is made and has a tile.
  do_layer0_returns :
      above 0 ≡ true
      → (events : List (Event dims.Coordinate)) × (t : Tile Image) × (ts : List (Tile Image))
        × (do_layer0 dims ops img white black reader write context region
            ≡ ok (map copied copies ++ events, t ∷ ts))
        × AllOf img type (t ∷ ts)
        × InTiles (rects_of (t ∷ ts)) p
  unfolding do_layer0
  do_layer0_returns first =
      let fit = fits 0 (omega arith) first in
      let (calls, e, c) =
        layer0_calls-IsCovered dims ops img white black reader write context type reads region
          (get_sub_block_indices_for_plane dims ops img white black reader write context region)
          rects found fit.latchable fit.spacious fit.tileable in
      let (events, eh) =
        handle_calls_returns dims ops img white black reader write context type writes
          region.plane_coordinate 0 2 calls (omega arith) c.exact in
      let still : InTiles (rects_of (emitted calls)) p =
        subst (λ l. InTiles l p) (sym (emitted-outputs img calls)) (c.covers p (there, inside)) in
      let (t, ts, em) = some_tile-cons (emitted calls) p still in
      (
        events,
        t,
        ts,
        rw (copying, e, eh, em) refl,
        subst (AllOf img type) em (emitted-AllOf img 2 type calls c.exact),
        subst (λ l. InTiles (rects_of l) p) em still,
      )

  abbrev planed : Outcome (List (Event dims.Coordinate) × ℕ)
  planed = do_plane dims ops img white black reader write context region

  abbrev copied_events : List (Event dims.Coordinate)
  copied_events = map copied copies

  -- The branches of `DoPlane`.
  no_layer :
      (report : List (Event dims.Coordinate))
      → above 0 ≡ false
      → report_pyramidizer dims ops img white black reader write context region.plane_coordinate 0 0
          0
        ≡ ok report
      → planed ≡ ok (report ++ copied_events, 0)
  unfolding do_plane
  no_layer report none_needed er = rw (exceeds_at_first ∙ none_needed, er, copying) refl

  one_layer :
      (events : List (Event dims.Coordinate)) (t : Tile Image) (ts : List (Tile Image))
      → above 0 ≡ true
      → above 1 ≡ false
      → do_layer0 dims ops img white black reader write context region ≡ ok (events, t ∷ ts)
      → planed ≡ ok (events, 1)
  unfolding do_plane one_if_any
  one_layer events t ts first last e = rw (exceeds_at_first ∙ first, last, e) refl

  all_layers :
      (events later : List (Event dims.Coordinate)) (t : Tile Image) (ts : List (Tile Image))
      (count : ℕ)
      → above 0 ≡ true
      → above 1 ≡ true
      → do_layer0 dims ops img white black reader write context region ≡ ok (events, t ∷ ts)
      → upper_layers dims ops img white black reader write context 31 region 1 (t ∷ ts) 1
        ≡ ok (later, count)
      → planed ≡ ok (events ++ later, count)
  unfolding do_plane
  all_layers events later t ts count first second e el =
      rw (exceeds_at_first ∙ first, second, e, el) refl

  -- `DoPlane` returns. It copies the subblocks, and the number n of layers that it makes is the least
  -- one for which the region, reduced by 2 ^ n, does not exceed a tile. The conditions: some pixel of
  -- the region lies in a subblock, the subblocks have infos and can be copied, reading and writing
  -- succeed, the extents of the region and of the tiles are `int`s and the tiles' are positive, and
  -- for each layer that is needed the region latches and can be tiled in the range of an `int`.
  pub do_plane-count :
      (before after : List (Event dims.Coordinate)) × (count : ℕ) × (do_plane dims ops img white
          black reader write context region
        ≡ ok (before ++ (map copied copies ++ after), count))
      × (exceeds dims ops img white black reader write context type writes region.rect count
          ≡ false)
      × ((k : ℕ)
          → k < count
          → exceeds dims ops img white black reader write context type writes region.rect k ≡ true)
  do_plane-count = elim (Bool-cases (above 0)) [
    | inr none_needed ↦
        let (report, er) =
          report_returns dims ops img white black reader write context type writes
            region.plane_coordinate 0 0 0 (omega arith) in
        (
          report,
          [],
          0,
          no_layer report none_needed er
              ∙ ap (λ l. ok (report ++ l, 0)) (sym (append-nil copied_events)),
          none_needed,
          λ k h. absurd (omega arith),
        )
    | inl first ↦
        let (events, t, ts, e, all, still) = do_layer0_returns first in
        elim (Bool-cases (above 1)) [
          | inr last ↦ (
            [],
            events,
            1,
            one_layer (copied_events ++ events) t ts first last e,
            last,
            up_to 0 first (λ k h. absurd (omega arith)),
          )
          | inl second ↦
              let (later, made, el, enough, more) =
                upper_layers_lem dims ops img white black reader write context type writes region p
                  inside fits wide high tile_wide tile_high 31 1 1 (t ∷ ts) (omega arith)
                  (omega arith) (omega arith) all still in
              (
                [],
                events ++ later,
                1 + made,
                all_layers (copied_events ++ events) later t ts (1 + made) first second e el
                    ∙ ap (λ l. ok (l, 1 + made)) (append_assoc copied_events events later),
                enough,
                up_to made first more,
              )
        ]
  ]
    where
      up_to :
          (made : ℕ)
          → above 0 ≡ true
          → ((k : ℕ) → k < made → above (1 + k) ≡ true)
          → (k : ℕ) → k < 1 + made
          → above k ≡ true
      up_to made first more zero h = first
      up_to made first more (suc k) h =
          let next : suc k ≡ 1 + k = omega arith in ap above next ∙ more k (omega arith)
