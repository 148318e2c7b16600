-- ===== src/Imaging/Bitmaps.antt =====
-- The interface `Imaging` filled with `ComposeBitmaps::Compose` and `DecimateOpenCV::Decimate`, for
-- the pixel types that both take.
use czi_pyramidizer.Prelude.{
  ℕ, ◌+◌, ◌*◌, ◌/◌, ◌≤◌, ◌<◌, ◌≡◌, refl, sym, subst, ap, ◌∙◌, arith, false, List, [], ◌∷◌, length,
}
use czi_pyramidizer.Prelude.Int.{ℤ, pos, negsuc, pos_part, int_laws}
use czi_pyramidizer.Prelude.Words.{int_limit, u32_mod}
use czi_pyramidizer.Prelude.Outcome.{Outcome, ok}
use czi_pyramidizer.Rect.{IntRect, RectOps, IsNonEmpty}
use czi_pyramidizer.Bitmap.{PixelType, Memory, Bitmap}
use czi_pyramidizer.Imaging.{Imaging, Placement, AllPlaced}
use czi_pyramidizer.Compose.{FloatOps, RgbFloatColor, pixel_of, compose}
use czi_pyramidizer.Compose.Blend.{IsLaidOut}
use czi_pyramidizer.Compose.Layered.{blank_bitmap, AllLaidOut, blank-IsLaidOut, compose-layered}
use czi_pyramidizer.Decimate.{MatType, PyrDown, decimate}
use czi_pyramidizer.Decimate.Halved.{Works, CanHalve, gray8, gray16, bgr24, decimate_lem}

-- The pixel types that can be decimated. All of them can be filled.
abbrev pub Supported : PixelType → Type 0
Supported t = (m : MatType) × (k : ℕ) × CanHalve t m k

can_fill :
    (floats : FloatOps) (color : RgbFloatColor floats) {t : PixelType} {m : MatType} {k : ℕ}
    → CanHalve t m k
    → (pixel : List ℕ) × (pixel_of floats t color ≡ ok pixel) × (length pixel ≡ k)
unfolding pixel_of
can_fill floats color gray8 = (_, refl, refl)
can_fill floats color gray16 = (_, refl, refl)
can_fill floats color bgr24 = (_, refl, refl)

small_pixel : {t : PixelType} {m : MatType} {k : ℕ} → CanHalve t m k → (1 ≤ k) × (k ≤ 3)
small_pixel gray8 = (omega arith, omega arith)
small_pixel gray16 = (omega arith, omega arith)
small_pixel bgr24 = (omega arith, omega arith)

narrow_line : (w k : ℕ) → k ≤ 3 → w * 2 < int_limit → w * k + 3 < u32_mod
narrow_line w k h l = grind arith

module _ (ops : RectOps) (get_bytes_per_pixel : PixelType → ℕ) (floats : FloatOps)
    (uninitialized : Memory) (color : RgbFloatColor floats) (pyr_down : PyrDown)
    (red : floats.is_nan color.r ≡ false) (green : floats.is_nan color.g ≡ false)
    (blue : floats.is_nan color.b ≡ false) (works : Works pyr_down)
    (sizes : (t : PixelType) (m : MatType) (k : ℕ)
      → CanHalve t m k
      → get_bytes_per_pixel t ≡ k) where
  abbrev pub IsProper : PixelType → Bitmap → Type 0
  IsProper t b = (b.pixel_type ≡ t) × Supported t × IsLaidOut (get_bytes_per_pixel t) b

  abbrev composing : IntRect → PixelType → List (Placement Bitmap) → Outcome Bitmap
  composing roi t placements =
      compose ops get_bytes_per_pixel floats uninitialized roi t color placements

  IsProper-AllLaidOut :
      (t : PixelType) (k : ℕ) (placements : List (Placement Bitmap))
      → get_bytes_per_pixel t ≡ k
      → AllPlaced (IsProper t) placements
      → AllLaidOut ops get_bytes_per_pixel k placements
  IsProper-AllLaidOut t k [] e all = tt
  IsProper-AllLaidOut t k (p ∷ placements) e ((is, supported, laid), all) = (
    (ap get_bytes_per_pixel is ∙ e, subst (λ n. IsLaidOut n p.bitmap) e laid),
    IsProper-AllLaidOut t k placements e all,
  )

  pub compose-IsProper :
      (left top w h : ℤ) (t : PixelType) (placements : List (Placement Bitmap))
      → Supported t
      → IsNonEmpty (record { x = left; y = top; w = w; h = h })
      → pos_part w * 2 < int_limit
      → pos_part h * 2 < int_limit
      → AllPlaced (IsProper t) placements
      → (b : Bitmap) × (composing (record { x = left; y = top; w = w; h = h }) t placements ≡ ok b)
        × IsProper t b
        × (b.width ≡ pos_part w)
        × (b.height ≡ pos_part h)
  compose-IsProper left top (negsuc n) h t placements supported (ww, hh) lw lh all =
      absurd (omega int_laws)
  compose-IsProper left top (pos w) (negsuc n) t placements supported (ww, hh) lw lh all =
      absurd (omega int_laws)
  compose-IsProper left top (pos w) (pos h) t placements (m, k, can) (ww, hh) lw lh all =
      let (pixel, e, ek) = can_fill floats color can in
      let (one, three) = small_pixel can in
      let same : get_bytes_per_pixel t ≡ length pixel = sizes t m k can ∙ sym ek in
      let narrow : w * length pixel + 3 < u32_mod =
        narrow_line w (length pixel) (omega (arith, ek)) lw in
      let (memory, returns, value) =
        compose-layered ops get_bytes_per_pixel floats uninitialized t color pixel left top w h
          placements 0 0 0 red green blue e narrow (omega arith) (omega arith)
          (IsProper-AllLaidOut t (length pixel) placements same all) (omega int_laws)
          (omega int_laws) (omega (arith, ek)) in
      let b : Bitmap = blank_bitmap memory t (length pixel) w h in
      let laid : IsLaidOut (length pixel) b =
        blank-IsLaidOut memory t (length pixel) w h narrow (omega arith) (omega arith) in
      (b, returns, (refl, (m, k, can), subst (λ n. IsLaidOut n b) (sym same) laid), refl, refl)

  pub decimate-IsProper :
      (t : PixelType) (b : Bitmap)
      → IsProper t b
      → 2 ≤ b.width
      → 2 ≤ b.height
      → (d : Bitmap) × (decimate pyr_down uninitialized b ≡ ok d)
        × IsProper t d
        × (d.width ≡ b.width / 2)
        × (d.height ≡ b.height / 2)
  decimate-IsProper t b (is, (m, k, can), laid) w h =
      let same = sizes t m k can in
      let (d, returns, d_laid, d_is, dw, dh) =
        decimate_lem pyr_down uninitialized b m k works (subst (λ x. CanHalve x m k) (sym is) can)
          (subst (λ n. IsLaidOut n b) same laid) w h in
      (d, returns, (d_is ∙ is, (m, k, can), subst (λ n. IsLaidOut n d) (sym same) d_laid), dw, dh)

  -- The functions of the source, as the layers use them.
  abbrev pub bitmaps : Imaging
  bitmaps = record {
    Image = Bitmap;
    width = λ b. b.width;
    height = λ b. b.height;
    pixel_type = λ b. b.pixel_type;
    Supports = Supported;
    IsOf = IsProper;
    compose = composing;
    decimate = decimate pyr_down uninitialized;
    IsOf-pixel_type = λ t b proper. proper.0;
    IsOf-Supports = λ t b proper. proper.1;
    compose_returns = λ roi t placements. compose-IsProper roi.x roi.y roi.w roi.h t placements;
    decimate_returns = decimate-IsProper;
  }
