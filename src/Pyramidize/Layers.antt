-- ===== src/Pyramidize/Layers.antt =====
-- The loop over the layers in `DoPlane`: it ends, with as many layers as are needed.
use native.Mathlib.Nat.{div-one, mul_assoc, pow-succ'}
use czi_pyramidizer.Prelude.{
  dec_lt, ℕ, zero, suc, ◌+◌, ◌-◌, ◌*◌, ◌/◌, ◌^◌, ◌<◌, ◌≤◌, ◌≡◌, refl, ap, ◌∙◌, sym, subst, List, [],
  ◌∷◌, ◌++◌, inl, inr, Bool, true, false, arith, Bool-cases, length, ltb,
}
use czi_pyramidizer.Prelude.Int.{ℤ, pos, pos_part, negsuc, ◌≤ℤ◌, int_laws}
use czi_pyramidizer.Prelude.Words.{int_limit, to_u32, to_u32-pos}
use czi_pyramidizer.Prelude.Outcome.{Outcome, ok}
use czi_pyramidizer.Rect.{IntRect, Point, Contains, RectOps}
use czi_pyramidizer.Bitmap.{PixelType}
use czi_pyramidizer.Imaging.{Imaging}
use czi_pyramidizer.Dimensions.{Dimensions}
use czi_pyramidizer.Latch.Bounds.{IsLatchable, latched}
use czi_pyramidizer.TileHelper.Hull.{InTiles}
use czi_pyramidizer.Tiling.Cover.{IsTileable}
use czi_pyramidizer.Planes.{PyramidRegion}
use czi_pyramidizer.OutputTile.{TileInfo}
use czi_pyramidizer.Context.{Context}
use czi_pyramidizer.Upper.{Tile, Call, output_tile, progress, rects_of, execute}
use czi_pyramidizer.Upper.Layer.{AllOf}
use czi_pyramidizer.Upper.Coverage.{IsSpacious, outputs, AllExact}
use czi_pyramidizer.Upper.Run.{tiles_of_region, execute-IsCovered}
use czi_pyramidizer.Pyramidize.{
  Reader, Event, written, report_progress_pyramidizer, quotient, shift_one, narrow_u8, emitted,
  is_above_pyramid_threshold, report_pyramidizer, handle_calls, layer_options, upper_layers,
}

not_above : (a b : ℕ) → b ≤ a → ltb a b ≡ false
not_above a b h = ground arith

shift_one_lem : (n : ℕ) → n < 31 → shift_one n ≡ ok (2 ^ n)
unfolding shift_one
shift_one_lem n h = ground arith

narrow_u8_lem : (n : ℕ) → n < 256 → narrow_u8 n ≡ ok n
unfolding narrow_u8
narrow_u8_lem n h = ground arith

half_billion : (z : ℕ) → z < int_limit → z / 1073741824 < 2
half_billion z h = omega arith

pub quotient_one : (z : ℤ) → pos 0 ≤ℤ z → quotient z 1 ≡ z
unfolding quotient
quotient_one (pos z) h = ap pos (div-one z)
quotient_one (negsuc z) h = absurd (omega arith)

power_sum : (a b : ℕ) → 2 ^ a * 2 ^ b ≡ 2 ^ (a + b)
power_sum zero b =
    let none : 0 + b ≡ b = omega arith in
    let e : 2 ^ (0 + b) ≡ 2 ^ b = ap (λ n. 2 ^ n) none in omega (arith, e)
power_sum (suc a) b =
    let carried : suc (a + b) ≡ suc a + b = omega arith in
    ap (λ x. x * 2 ^ b) (pow-succ' 2 a)
    ∙ mul_assoc 2 (2 ^ a) (2 ^ b)
    ∙ ap (λ x. 2 * x) (power_sum a b)
    ∙ sym (pow-succ' 2 (a + b))
    ∙ ap (λ n. 2 ^ n) carried

two_powers : (k : ℕ) → k ≤ 30 → 2 ^ suc k * 2 ^ (30 - k) ≡ int_limit
two_powers k h =
    let whole : suc k + (30 - k) ≡ 31 = omega arith in
    power_sum (suc k) (30 - k) ∙ ap (λ n. 2 ^ n) whole

-- The reduced extent does not exceed a tile.
small_quotient :
    (z : ℤ) (t : ℕ)
    → pos 0 ≤ℤ z
    → pos_part z < int_limit
    → 0 < t
    → ltb t (to_u32 (quotient z 1073741824)) ≡ false
unfolding quotient
small_quotient (pos z) t h l pt =
    rw (to_u32-pos (z / 1073741824) (omega (arith, half_billion z l)))
      (not_above t (z / 1073741824) (omega (arith, half_billion z l)))
small_quotient (negsuc z) t h l pt = absurd (omega arith)

some_tile :
    {B : Type 0} (tiles : List (Tile B)) (p : Point) → InTiles (rects_of tiles) p → 0 < length tiles
some_tile [] p there = absurd there
some_tile (tile ∷ tiles) p there = omega arith

pub some_tile-cons :
    {B : Type 0} (tiles : List (Tile B)) (p : Point)
    → InTiles (rects_of tiles) p
    → (t : Tile B) × (ts : List (Tile B)) × (tiles ≡ t ∷ ts)
some_tile-cons [] p there = absurd there
some_tile-cons (tile ∷ tiles) p there = (tile, tiles, refl)

module _ (img : Imaging) where
  open img use {Image}

  pub emitted-AllOf :
      (m : ℕ) (type : PixelType) (calls : List (Call Image))
      → AllExact img m type calls
      → AllOf img type (emitted calls)
  unfolding emitted
  emitted-AllOf m type [] all = tt
  emitted-AllOf m type (output_tile tile ∷ calls) (x, all) =
      (x.proper, emitted-AllOf m type calls all)
  emitted-AllOf m type (progress total done ∷ calls) all = emitted-AllOf m type calls all

  pub emitted-outputs : (calls : List (Call Image)) → rects_of (emitted calls) ≡ outputs calls
  unfolding emitted
  emitted-outputs [] = refl
  emitted-outputs (output_tile tile ∷ calls) = ap (λ l. tile.rect ∷ l) (emitted-outputs calls)
  emitted-outputs (progress total done ∷ calls) = emitted-outputs calls

module _ (dims : Dimensions) (ops : RectOps) (img : Imaging) {Color Parameters : Type 0}
    (white black : Color) (reader : Reader dims img.Image Color)
    (write : img.Image → dims.Coordinate → IntRect → Outcome (TileInfo dims.Coordinate))
    (context : Context Parameters) (type : PixelType)
    (writes : (b : img.Image) (c : dims.Coordinate) (r : IntRect)
      → img.IsOf type b
      → (info : TileInfo dims.Coordinate) × (write b c r ≡ ok info)) where
  open img use {Image, IsOf}

  pub report_returns :
      (c : dims.Coordinate) (layer total done : ℕ)
      → layer < 256
      → (events : List (Event dims.Coordinate)) × (report_pyramidizer dims ops img white black
            reader write context c layer total done
          ≡ ok events)
  unfolding report_pyramidizer
  report_returns c layer total done h = elim (Bool-cases context.progress_report) [
    | inl e ↦
        (report_progress_pyramidizer c layer total done ∷ [], rw (e, narrow_u8_lem layer h) refl)
    | inr e ↦ ([], rw e refl)
  ]

  pub handle_calls_returns :
      (c : dims.Coordinate) (layer m : ℕ) (calls : List (Call Image))
      → layer < 256
      → AllExact img m type calls
      → (events : List (Event dims.Coordinate)) × (handle_calls dims ops img white black reader
            write context c layer calls
          ≡ ok events)
  unfolding handle_calls
  handle_calls_returns c layer m [] h all = ([], refl)
  handle_calls_returns c layer m (output_tile tile ∷ calls) h (x, all) =
      let (info, ei) = writes tile.bitmap c tile.rect x.proper in
      let (events, e) = handle_calls_returns c layer m calls h all in
      (written info ∷ events, rw (ei, e) refl)
  handle_calls_returns c layer m (progress total done ∷ calls) h all =
      let (report, er) = report_returns c layer total done h in
      let (events, e) = handle_calls_returns c layer m calls h all in
      (report ++ events, rw (er, e) refl)

  -- What a layer needs of the region, at its power of 2.
  pub record IsLayerFit (region : IntRect) (k : ℕ) : Type 0 where
    pub latchable : IsLatchable (2 ^ suc k) region
    pub spacious : IsSpacious (2 ^ suc k) (latched (2 ^ suc k) region)
    pub tileable : IsTileable (
        tiles_of_region ops img
          (layer_options dims ops img white black reader write context region (suc k) [])
          k)

  -- Whether the region, reduced by 2 ^ n, exceeds a tile.
  abbrev pub exceeds : IntRect → ℕ → Bool
  exceeds r n =
      is_above_pyramid_threshold dims ops img white black reader write context
        (quotient r.w (2 ^ n)) (quotient r.h (2 ^ n))

  module _ (region : PyramidRegion dims) (p : Point) (inside : Contains region.rect p)
      (fits : (k : ℕ) → k < 30 → exceeds region.rect k ≡ true → IsLayerFit region.rect k)
      (wide : pos_part region.rect.w < int_limit) (high : pos_part region.rect.h < int_limit)
      (tile_wide : 0 < context.command_line_options.pyramid_tile_width)
      (tile_high : 0 < context.command_line_options.pyramid_tile_height) where
    abbrev layers_from : ℕ → ℕ → List (Tile Image) → ℕ → Outcome (List (Event dims.Coordinate) × ℕ)
    layers_from fuel layer tiles n =
        upper_layers dims ops img white black reader write context fuel region layer tiles n

    exceeds_no_more : exceeds region.rect 30 ≡ false
    unfolding is_above_pyramid_threshold
    exceeds_no_more =
        rw
          (
            small_quotient region.rect.w context.command_line_options.pyramid_tile_width
                (omega (int_laws, inside)) wide tile_wide,
            small_quotient region.rect.h context.command_line_options.pyramid_tile_height
                (omega (int_laws, inside)) high tile_high,
          )
          refl

    -- A layer is made where it is needed, and covers the pixel.
    layer_made :
        (k : ℕ) (tiles : List (Tile Image))
        → 0 < k
        → k < 30
        → exceeds region.rect k ≡ true
        → AllOf img type tiles
        → InTiles (rects_of tiles) p
        → (calls : List (Call Image)) × (execute ops img (
              layer_options dims ops img white black reader write context region.rect (suc k) tiles)
            ≡ ok calls)
          × AllExact img (2 ^ suc k) type calls
          × InTiles (outputs calls) p
    layer_made k tiles pk lk above all there =
        let fit = fits k lk above in
        let (calls, e, c) =
          execute-IsCovered ops img
            (layer_options dims ops img white black reader write context region.rect (suc k) tiles)
            k (2 ^ (30 - k)) type refl pk (two_powers k (omega arith)) all (some_tile tiles p there)
            fit.latchable fit.spacious fit.tileable in
        (calls, e, c.exact, c.covers p (there, inside))

    before_last : (layer : ℕ) → layer ≤ 30 → exceeds region.rect layer ≡ true → layer < 30
    before_last layer ll above = elim (dec_lt layer 30) [
      | yes less ↦ less
      | no more ↦
          let last : layer ≡ 30 = omega arith in
          absurd (cc (ap (exceeds region.rect) last, above, exceeds_no_more))
    ]

    layers_enough :
        (fuel layer n : ℕ) (tiles : List (Tile Image))
        → layer ≤ 30
        → exceeds region.rect layer ≡ false
        → layers_from (suc fuel) layer tiles n ≡ ok ([], n)
    unfolding upper_layers
    layers_enough fuel layer n tiles ll enough = rw (shift_one_lem layer (omega arith), enough) refl

    layers_more :
        (fuel layer n total : ℕ) (tiles : List (Tile Image)) (calls : List (Call Image))
        (events later : List (Event dims.Coordinate)) (t : Tile Image) (ts : List (Tile Image))
        → layer ≤ 30
        → exceeds region.rect layer ≡ true
        → execute ops img (
            layer_options dims ops img white black reader write context region.rect
              (1 + layer)
              tiles)
          ≡ ok calls
        → handle_calls dims ops img white black reader write context region.plane_coordinate layer
            calls
          ≡ ok events
        → emitted calls ≡ t ∷ ts
        → layers_from fuel (layer + 1) (t ∷ ts) (n + 1) ≡ ok (later, total)
        → layers_from (suc fuel) layer tiles n ≡ ok (events ++ later, total)
    unfolding upper_layers
    layers_more fuel layer n total tiles calls events later t ts ll above e eh em rest =
        rw
          (
            shift_one_lem layer (omega arith),
            above,
            narrow_u8_lem (1 + layer) (omega arith),
            e,
            eh,
            em,
            rest,
          )
          refl

    -- The loop from a layer on makes the layers that are needed.
    pub upper_layers_lem :
        (fuel layer n : ℕ) (tiles : List (Tile Image))
        → layer + fuel ≡ 32
        → 0 < layer
        → layer ≤ 30
        → AllOf img type tiles
        → InTiles (rects_of tiles) p
        → (events : List (Event dims.Coordinate)) × (made : ℕ) × (layers_from fuel layer tiles n
            ≡ ok (events, n + made))
          × (exceeds region.rect (layer + made) ≡ false)
          × ((k : ℕ) → k < made → exceeds region.rect (layer + k) ≡ true)
    unfolding upper_layers
    upper_layers_lem zero layer n tiles sum pl ll all there = absurd (omega arith)
    upper_layers_lem (suc fuel) layer n tiles sum pl ll all there =
        elim (Bool-cases (exceeds region.rect layer)) [
          | inl above ↦
              let less : layer < 30 = before_last layer ll above in
              let (calls, e, exact, covered) = layer_made layer tiles pl less above all there in
              let (events, eh) =
                handle_calls_returns region.plane_coordinate layer (2 ^ suc layer) calls
                  (omega arith) exact in
              let still : InTiles (rects_of (emitted calls)) p =
                subst (λ l. InTiles l p) (sym (emitted-outputs img calls)) covered in
              let (t, ts, em) = some_tile-cons (emitted calls) p still in
              let (later, made, el, enough, before) =
                upper_layers_lem fuel (layer + 1) (n + 1) (t ∷ ts) (omega arith) (omega arith)
                  (omega arith)
                  (subst (AllOf img type) em (emitted-AllOf img (2 ^ suc layer) type calls exact))
                  (subst (λ l. InTiles (rects_of l) p) em still) in
              let next : 1 + layer ≡ suc layer = omega arith in
              (
                events ++ later,
                suc made,
                layers_more fuel layer n (n + suc made) tiles calls events later t ts ll above
                    (ap
                        (λ k. execute ops img (
                          layer_options dims ops img white black reader write context region.rect k
                            tiles))
                        next
                      ∙ e)
                    eh em (el ∙ ap (λ m. ok (later, m)) (later_sum n made)),
                ap (exceeds region.rect) (shifted layer made) ∙ enough,
                all_before layer made above before,
              )
          | inr enough ↦ (
            [],
            0,
            layers_enough fuel layer n tiles ll enough ∙ ap (λ m. ok ([], m)) (none_made n),
            ap (exceeds region.rect) (sym (none_made layer)) ∙ enough,
            λ k h. absurd (omega arith),
          )
        ]
      where
        none_made : (n : ℕ) → n ≡ n + 0
        none_made n = omega arith

        later_sum : (n made : ℕ) → n + 1 + made ≡ n + suc made
        later_sum n made = omega arith

        shifted : (layer made : ℕ) → layer + suc made ≡ layer + 1 + made
        shifted layer made = omega arith

        all_before :
            (layer made : ℕ)
            → exceeds region.rect layer ≡ true
            → ((k : ℕ) → k < made → exceeds region.rect (layer + 1 + k) ≡ true)
            → (k : ℕ) → k < suc made
            → exceeds region.rect (layer + k) ≡ true
        all_before layer made above before zero h =
            ap (exceeds region.rect) (sym (none_made layer)) ∙ above
        all_before layer made above before (suc k) h =
            ap (exceeds region.rect) (shifted layer k) ∙ before k (omega arith)
