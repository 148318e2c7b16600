-- ===== src/Upper/Layer.antt =====
-- What `UpperPyramidLayersPyramidizer` makes of one tile rectangle.
use czi_pyramidizer.Prelude.{
  true, sym, zero, ◌%◌, false, ◌||◌, ℕ, suc, ◌+◌, ◌*◌, ◌^◌, ◌<◌, ◌≤◌, List, [], ◌∷◌, ◌≡◌, refl, ap,
  ◌∙◌, inl, inr, some, Bool-cases, get_elem?, arith,
}
use czi_pyramidizer.Prelude.Int.{ltb_ℤ, pos, pos_part, neg_part}
use czi_pyramidizer.Prelude.Words.{u32_mod, int_limit}
use czi_pyramidizer.Prelude.Outcome.{ok}
use czi_pyramidizer.Rect.{Point, Contains, IsNonEmpty, IntRect, RectOps}
use czi_pyramidizer.Bitmap.{PixelType}
use czi_pyramidizer.Imaging.{Imaging, Placement, AllPlaced}
use czi_pyramidizer.TileHelper.{get_minimal_rect_for_roi}
use czi_pyramidizer.TileHelper.Hull.{InTiles, get_minimal_rect_for_roi-IsHull}
use czi_pyramidizer.Latch.Floor.{IsMultiple}
use czi_pyramidizer.Latch.{enlarge_and_latch}
use native.Mathlib.Nat.{mod-eq_of_lt}
use czi_pyramidizer.Latch.Bounds.{
  enlarge_and_latch-latched, latched-IsLatched, IsLatchable, latched, IsLatched-Within,
}
use czi_pyramidizer.Upper.{
  PyramidizerOptions, process_tile_rectangle, rects_of, output_tile, Tile, scale_rect, placement,
  get_tiles_intersecting, place_tiles, create_pyramid_tile,
}
use czi_pyramidizer.Upper.Alignment.{
  large_enough, quarter_bound, IsLatched-extents, scale-multiple, positive_power,
}

-- The tiles are bitmaps of one pixel type.
abbrev pub AllOf : (img : Imaging) → PixelType → List (Tile img.Image) → Type 0
AllOf img type [] = Unit
AllOf img type (tile ∷ tiles) = img.IsOf type tile.bitmap × AllOf img type tiles

-- A tile on multiples of m whose bitmap is its rectangle, divided by m.
pub record IsExact (img : Imaging) (m : ℕ) (type : PixelType) (tile : Tile img.Image) : Type 0 where
  pub left_on : IsMultiple m tile.rect.x
  pub top_on : IsMultiple m tile.rect.y
  pub proper : img.IsOf type tile.bitmap
  pub wide : tile.rect.w ≡ pos (img.width tile.bitmap * m)
  pub high : tile.rect.h ≡ pos (img.height tile.bitmap * m)

module _ (ops : RectOps) (img : Imaging) where
  open img use {Image, IsOf}

  -- Each index is that of a tile of the pixel type.
  abbrev AllFound : PixelType → List (Tile Image) → List ℕ → Type 0
  AllFound type tiles [] = Unit
  AllFound type tiles (index ∷ indices) =
      ((tile : Tile Image) × (get_elem? tiles index ≡ some tile) × IsOf type tile.bitmap)
      × AllFound type tiles indices

  -- The placements of found tiles exist.
  place_tiles-AllFound :
      (layer : ℕ) (type : PixelType) (tiles : List (Tile Image)) (roi : IntRect) (indices : List ℕ)
      → AllFound type tiles indices
      → (placements : List (Placement Image)) × (place_tiles ops img layer tiles roi indices
          ≡ ok placements)
        × AllPlaced (IsOf type) placements
  unfolding place_tiles
  place_tiles-AllFound layer type tiles roi [] found = ([], refl, tt)
  place_tiles-AllFound layer type tiles roi (index ∷ indices) ((tile, e, is), found) =
      let (rest, er, all) = place_tiles-AllFound layer type tiles roi indices found in
      (placement layer roi tile ∷ rest, rw (place_tiles, e, er) refl, (is, all))

  -- What `GetTilesIntersecting` finds are tiles.
  get_tiles_intersecting-AllFound :
      (type : PixelType) (tiles : List (Tile Image)) (rect : IntRect) (i : ℕ)
      (suffix : List (Tile Image))
      → AllOf img type suffix
      → ((k : ℕ) (tile : Tile Image)
          → get_elem? suffix k ≡ some tile
          → get_elem? tiles (i + k) ≡ some tile)
      → AllFound type tiles (get_tiles_intersecting ops img i suffix rect)
  unfolding get_tiles_intersecting
  get_tiles_intersecting-AllFound type tiles rect i [] all at = tt
  get_tiles_intersecting-AllFound type tiles rect i (tile ∷ suffix) (is, all) at =
      let rest =
        get_tiles_intersecting-AllFound type tiles rect (i + 1) suffix all
          (λ k t e. ap (get_elem? tiles) (omega arith) ∙ at (suc k) t e) in
      elim (Bool-cases (ops.is_non_empty (ops.intersect tile.rect rect))) [
        | inl e ↦ rw e ((tile, ap (get_elem? tiles) (omega arith) ∙ at 0 tile refl, is), rest)
        | inr e ↦ rw e rest
      ]

  -- A rectangle whose extents are multiples of 2 ^ layer is not too small, and its tile is the
  -- bitmap with the quotients as extents.
  create_pyramid_tile_lem :
      (k : ℕ) (type : PixelType) (tiles : List (Tile Image)) (roi : IntRect) (indices : List ℕ)
      (a b : ℕ)
      → img.Supports type
      → AllFound type tiles indices
      → roi.w ≡ pos (a * 2 ^ suc k)
      → roi.h ≡ pos (b * 2 ^ suc k)
      → 1 ≤ a
      → 1 ≤ b
      → a * 2 * 2 < int_limit
      → b * 2 * 2 < int_limit
      → (d : Image) × (create_pyramid_tile ops img (suc k) tiles type roi indices ≡ ok (some d))
        × IsOf type d
        × (img.width d ≡ a)
        × (img.height d ≡ b)
  unfolding create_pyramid_tile
  create_pyramid_tile_lem k type tiles roi indices a b supported found ew eh la lb ba bb =
      let (placements, ep, placed) = place_tiles-AllFound (suc k) type tiles roi indices found in
      let scaled = scale_rect (suc k) roi in
      let sw : scaled.w ≡ pos (a * 2) = scale-multiple roi.w a k ew in
      let sh : scaled.h ≡ pos (b * 2) = scale-multiple roi.h b k eh in
      let pw : pos_part scaled.w ≡ a * 2 = ap pos_part sw in
      let nw : neg_part scaled.w ≡ 0 = ap neg_part sw in
      let ph : pos_part scaled.h ≡ b * 2 = ap pos_part sh in
      let nh : neg_part scaled.h ≡ 0 = ap neg_part sh in
      let large : (ltb_ℤ scaled.w (pos 2) || ltb_ℤ scaled.h (pos 2)) ≡ false =
        large_enough scaled.w scaled.h a b sw sh la lb in
      let (composition, ec, isc, wc, hc) =
        img.compose_returns scaled type placements supported (omega arith, omega arith)
          (omega arith) (omega arith) placed in
      let (d, ed, isd, wd, hd) =
        img.decimate_returns type composition isc (omega (arith, wc)) (omega (arith, hc)) in
      (d, rw (large, ep, ec, ed) refl, isd, omega (arith, wd, wc), omega (arith, hd, hc))

  abbrev pub minimal : PyramidizerOptions Image → IntRect → IntRect
  minimal options rect =
      get_minimal_rect_for_roi ops (record { tiles = rects_of options.tiles }) rect

  -- A divisor of 2 ^ 31 passes the cast to `uint32_t`.
  pub fits_u32 : (m q : ℕ) → m * q ≡ int_limit → m % u32_mod ≡ m
  fits_u32 m zero e = absurd (omega arith)
  fits_u32 m (suc q) e = mod-eq_of_lt (omega arith)

  -- One pass through the loop's body without an early end.
  put_out :
      (options : PyramidizerOptions Image) (type : PixelType) (rect l : IntRect) (d : Image)
      → ops.is_non_empty (minimal options rect) ≡ true
      → enlarge_and_latch (minimal options rect) (2 ^ options.pyramid_layer % u32_mod) ≡ ok l
      → create_pyramid_tile ops img options.pyramid_layer options.tiles type l
          (get_tiles_intersecting ops img 0 options.tiles l)
        ≡ ok (some d)
      → process_tile_rectangle ops img options type (record { tiles = rects_of options.tiles }) rect
        ≡ ok (output_tile (record { rect = l; bitmap = d }) ∷ [])
  unfolding process_tile_rectangle
  put_out options type rect l d non_empty latching created = rw (non_empty, latching, created) refl

  -- For a tile rectangle that holds pixels of the tiles, one exact tile is put out, and it covers
  -- these pixels.
  pub process_tile_rectangle-IsExact :
      (options : PyramidizerOptions Image) (k q : ℕ) (type : PixelType) (rect : IntRect)
      → options.pyramid_layer ≡ suc k
      → 1 ≤ k
      → 2 ^ suc k * q ≡ int_limit
      → img.Supports type
      → AllOf img type options.tiles
      → IsNonEmpty (minimal options rect)
      → IsLatchable (2 ^ suc k) (minimal options rect)
      → pos_part (latched (2 ^ suc k) (minimal options rect)).w < int_limit
      → pos_part (latched (2 ^ suc k) (minimal options rect)).h < int_limit
      → (tile : Tile Image) × (process_tile_rectangle ops img options type
            (record { tiles = rects_of options.tiles })
            rect
          ≡ ok (output_tile tile ∷ []))
        × ((p : Point)
            → InTiles (rects_of options.tiles) p
            → Contains rect p
            → Contains tile.rect p)
        × IsExact img (2 ^ suc k) type tile
  process_tile_rectangle-IsExact options k q type rect ek above eq supported all non_empty la ww
        hh =
      let m : ℕ = 2 ^ suc k in
      let least : IntRect = minimal options rect in
      let l : IntRect = latched m least in
      let hull =
        get_minimal_rect_for_roi-IsHull ops (record { tiles = rects_of options.tiles }) rect in
      let v = latched-IsLatched m least (positive_power (suc k)) in
      let layer : 2 ^ options.pyramid_layer % u32_mod ≡ m =
        ap (λ n. 2 ^ n % u32_mod) ek ∙ fits_u32 m q eq in
      let el =
        ap (enlarge_and_latch least) layer
        ∙ enlarge_and_latch-latched least m q (positive_power (suc k)) eq la in
      let (a, b, ga, gb, ew, eh) = IsLatched-extents m least l v non_empty in
      let found =
        get_tiles_intersecting-AllFound type options.tiles l 0 options.tiles all
          (λ n t e. ap (get_elem? options.tiles) (omega arith) ∙ e) in
      let (d, ed, isd, wd, hd) =
        create_pyramid_tile_lem k type options.tiles l _ a b supported found ew eh ga gb
          (quarter_bound a k int_limit above (omega (arith, ap pos_part ew)))
          (quarter_bound b k int_limit above (omega (arith, ap pos_part eh))) in
      let created =
        ap
          (λ n.
            create_pyramid_tile ops img n options.tiles type l
              (get_tiles_intersecting ops img 0 options.tiles l))
          ek
        ∙ ed in
      (
        record { rect = l; bitmap = d },
        put_out options type rect l d ((ops.is_non_empty_iff least).1 non_empty) el created,
        λ p i c. IsLatched-Within m least l v p (hull.covers p (i, c)),
        record {
          left_on = v.left_on;
          top_on = v.top_on;
          proper = isd;
          wide = ew ∙ ap (λ n. pos (n * m)) (sym wd);
          high = eh ∙ ap (λ n. pos (n * m)) (sym hd);
        },
      )
