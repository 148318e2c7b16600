-- ===== src/Upper/Coverage.antt =====
-- What a run of `UpperPyramidLayersPyramidizer::Execute` makes of a layer.
use czi_pyramidizer.Prelude.{
  count_up, ◌-◌, ℕ, suc, ◌+◌, ◌*◌, ◌^◌, ◌≤◌, ◌<◌, ◌≡◌, refl, ap, ◌⊎◌, inl, inr, List, [], ◌∷◌, ◌++◌,
  arith, length, Bool-cases,
}
use czi_pyramidizer.Prelude.Int.{ℤ, neg_part, parts_apart, pos, pos_part, int_laws, ◌≤ℤ◌, ◌+ℤ◌}
use czi_pyramidizer.Prelude.Words.{IsInt32, int_limit}
use czi_pyramidizer.Prelude.Outcome.{ok}
use czi_pyramidizer.Rect.{IntRect, Point, Contains, Within, IsNonEmpty, RectOps}
use czi_pyramidizer.Bitmap.{PixelType}
use czi_pyramidizer.Imaging.{Imaging}
use czi_pyramidizer.TileHelper.{TileHelper}
use czi_pyramidizer.TileHelper.Hull.{
  InTiles, Inside, Within-Inside, get_minimal_rect_for_roi-IsHull, no-pixels,
}
use czi_pyramidizer.Latch.Bounds.{IsLatchable, IsLatched, latched, latched-IsLatched}
use czi_pyramidizer.Upper.{
  PyramidizerOptions, Call, output_tile, progress, rects_of, process_tile_rectangle,
  process_tile_rectangles,
}
use czi_pyramidizer.Upper.Alignment.{positive_power}
use czi_pyramidizer.Upper.Layer.{AllOf, minimal, process_tile_rectangle-IsExact, IsExact}

-- The rectangles of the tiles that are put out.
abbrev pub outputs : {B : Type 0} → List (Call B) → List IntRect
outputs [] = []
outputs (output_tile tile ∷ calls) = tile.rect ∷ outputs calls
outputs (progress total done ∷ calls) = outputs calls

-- The numbers that are reported.
abbrev pub reports : {B : Type 0} → List (Call B) → List (ℕ × ℕ)
reports [] = []
reports (output_tile tile ∷ calls) = reports calls
reports (progress total done ∷ calls) = (total, done) ∷ reports calls

abbrev pub AllExact : (img : Imaging) → ℕ → PixelType → List (Call img.Image) → Type 0
AllExact img m type [] = Unit
AllExact img m type (output_tile tile ∷ calls) = IsExact img m type tile × AllExact img m type calls
AllExact img m type (progress total done ∷ calls) = AllExact img m type calls

-- A rectangle that stays in the range of an `int`, also when its parts are latched.
pub record IsSpacious (m : ℕ) (r : IntRect) : Type 0 where
  pub latchable : IsLatchable m r
  pub wide : pos_part r.w + 2 * m ≤ int_limit
  pub high : pos_part r.h + 2 * m ≤ int_limit

between : (a b c : ℤ) → a ≤ℤ b → b ≤ℤ c → IsInt32 a → IsInt32 c → IsInt32 b
between a b c h k (pa, na) (pc, nc) = ground (arith, parts_apart b)

pub Inside-IsLatchable :
    (m : ℕ) (r s : IntRect) → 0 < m → IsNonEmpty r → Inside r s → IsSpacious m s → IsLatchable m r
Inside-IsLatchable m r s pm (pw, ph) i v = record {
  left = between s.x r.x (s.x +ℤ s.w) i.0 (omega int_laws) v.latchable.left v.latchable.right;
  top =
      between s.y r.y (s.y +ℤ s.h) (omega int_laws) (omega int_laws) v.latchable.top
        v.latchable.bottom;
  right =
      between s.x (r.x +ℤ r.w) (s.x +ℤ s.w) (omega int_laws) (omega int_laws) v.latchable.left
        v.latchable.right;
  bottom =
      between s.y (r.y +ℤ r.h) (s.y +ℤ s.h) (omega int_laws) (omega int_laws) v.latchable.top
        v.latchable.bottom;
  right_above =
      between s.x (r.x +ℤ r.w +ℤ pos (m - 1)) (s.x +ℤ s.w +ℤ pos (m - 1)) (omega int_laws)
        (omega int_laws) v.latchable.left v.latchable.right_above;
  bottom_above =
      between s.y (r.y +ℤ r.h +ℤ pos (m - 1)) (s.y +ℤ s.h +ℤ pos (m - 1)) (omega int_laws)
        (omega int_laws) v.latchable.top v.latchable.bottom_above;
}

below : (z : ℤ) → pos_part z < int_limit + neg_part z → pos_part z < int_limit
below z h = ground (arith, parts_apart z)

pub Inside-extents :
    (m : ℕ) (r s : IntRect)
    → 0 < m
    → IsNonEmpty r
    → Inside r s
    → IsSpacious m s
    → (pos_part (latched m r).w < int_limit) × (pos_part (latched m r).h < int_limit)
Inside-extents m r s pm n i v = narrow (latched m r) (latched-IsLatched m r pm)
  where
    narrow :
        (l : IntRect) → IsLatched m r l → (pos_part l.w < int_limit) × (pos_part l.h < int_limit)
    narrow l b = (
      below l.w (omega (int_laws, b.left, b.right, i, v.wide)),
      below l.h (omega (int_laws, b.top, b.bottom, i, v.high)),
    )

pub InTiles-append :
    (rs ss : List IntRect) (p : Point) → InTiles rs p ⊎ InTiles ss p → InTiles (rs ++ ss) p
InTiles-append [] ss p (inl i) = elim i [ ]
InTiles-append [] ss p (inr i) = i
InTiles-append (r ∷ rs) ss p (inl (inl c)) = inl c
InTiles-append (r ∷ rs) ss p (inl (inr i)) = inr (InTiles-append rs ss p (inl i))
InTiles-append (r ∷ rs) ss p (inr i) = inr (InTiles-append rs ss p (inr i))

module _ {B : Type 0} where
  pub outputs-append : (a b : List (Call B)) → outputs (a ++ b) ≡ outputs a ++ outputs b
  outputs-append [] b = refl
  outputs-append (output_tile t ∷ a) b = ap (λ l. t.rect ∷ l) (outputs-append a b)
  outputs-append (progress total done ∷ a) b = outputs-append a b

  pub reports-append : (a b : List (Call B)) → reports (a ++ b) ≡ reports a ++ reports b
  reports-append [] b = refl
  reports-append (output_tile t ∷ a) b = reports-append a b
  reports-append (progress total done ∷ a) b = ap (λ l. (total, done) ∷ l) (reports-append a b)

pub AllExact-append :
    (img : Imaging) (m : ℕ) (type : PixelType) (a b : List (Call img.Image))
    → AllExact img m type a
    → AllExact img m type b
    → AllExact img m type (a ++ b)
AllExact-append img m type [] b x y = y
AllExact-append img m type (output_tile t ∷ a) b (x, xs) y =
    (x, AllExact-append img m type a b xs y)
AllExact-append img m type (progress total done ∷ a) b x y = AllExact-append img m type a b x y

module _ (ops : RectOps) (img : Imaging) where
  open img use {Image, IsOf}

  -- The calls for rectangles that cover the pixels S together: they are put out in exact tiles, and the
  -- numbers rs are reported.
  pub record IsCovered (m : ℕ) (type : PixelType) (S : Point → Type 0) (rs : List (ℕ × ℕ))
      (calls : List (Call Image)) : Type 0 where
    pub covers : (p : Point) → S p → InTiles (outputs calls) p
    pub exact : AllExact img m type calls
    pub counts : reports calls ≡ rs

  -- The calls for one rectangle, a report, and the calls for the others.
  pub IsCovered-append :
      (m : ℕ) (type : PixelType) (R : Point → Type 0) (rect : IntRect) (list : List IntRect)
      (total done : ℕ) (rs : List (ℕ × ℕ)) (calls later : List (Call Image))
      → IsCovered m type (λ p. R p × Contains rect p) [] calls
      → IsCovered m type (λ p. R p × InTiles list p) rs later
      → IsCovered m type
          (λ p. R p × InTiles (rect ∷ list) p)
          ((total, done) ∷ rs)
          (calls ++ progress total done ∷ later)
  IsCovered-append m type R rect list total done rs calls later c cl = record {
    covers = λ p s. rw (outputs-append calls (progress total done ∷ later)) (
        InTiles-append (outputs calls) (outputs later) p
          (elim s.1 [ inl h ↦ inl (c.covers p (s.0, h)) | inr h ↦ inr (cl.covers p (s.0, h)) ]));
    exact = AllExact-append img _ type calls (progress total done ∷ later) c.exact cl.exact;
    counts = rw (reports-append calls (progress total done ∷ later), c.counts, cl.counts) refl;
  }

  module _ (options : PyramidizerOptions Image) (k q : ℕ) (type : PixelType)
      (layer : options.pyramid_layer ≡ suc k) (above : 1 ≤ k) (divisor : 2 ^ suc k * q ≡ int_limit)
      (supported : img.Supports type) (all : AllOf img type options.tiles) (L : IntRect)
      (spacious : IsSpacious (2 ^ suc k) L) where
    abbrev rects : List IntRect
    rects = rects_of options.tiles

    abbrev helper : TileHelper
    helper = record { tiles = rects }

    rectangle-IsCovered :
        (rect : IntRect)
        → Within rect L
        → (calls : List (Call Image)) × (process_tile_rectangle ops img options type helper rect
            ≡ ok calls)
          × IsCovered (2 ^ suc k) type (λ p. InTiles rects p × Contains rect p) [] calls
    unfolding process_tile_rectangle
    rectangle-IsCovered rect within =
        let least = minimal ops img options rect in
        let hull = get_minimal_rect_for_roi-IsHull ops helper rect in
        elim (Bool-cases (ops.is_non_empty least)) [
          | inl e ↦
              let non_empty = (ops.is_non_empty_iff least).0 e in
              let inside = Within-Inside least L non_empty (hull.least L (λ p s. within p s.1)) in
              let (ew, eh) =
                Inside-extents (2 ^ suc k) least L (positive_power (suc k)) non_empty inside
                  spacious in
              let (tile, returns, covers, exact) =
                process_tile_rectangle-IsExact ops img options k q type rect layer above divisor
                  supported all non_empty
                  (Inside-IsLatchable (2 ^ suc k) least L (positive_power (suc k)) non_empty inside
                    spacious)
                  ew eh in
              (
                output_tile tile ∷ [],
                returns,
                record {
                  covers = λ p s. inl (covers p s.0 s.1);
                  exact = (exact, tt);
                  counts = refl;
                },
              )
          | inr e ↦ (
            [],
            rw e,
            record {
              covers = λ p s. absurd (no-pixels ops least e p (hull.covers p s));
              exact = tt;
              counts = refl;
            },
          )
        ]

    pub rectangles-IsCovered :
        (list : List IntRect) (total done : ℕ)
        → ((p : Point) → InTiles list p → Contains L p)
        → (calls : List (Call Image)) × (process_tile_rectangles ops img options type helper total
              done list
            ≡ ok calls)
          × IsCovered
              (2 ^ suc k)
              type
              (λ p. InTiles rects p × InTiles list p)
              (count_up total done (length list))
              calls
    unfolding process_tile_rectangles
    rectangles-IsCovered [] total done within =
        ([], refl, record { covers = λ p s. absurd s.1; exact = tt; counts = refl })
    rectangles-IsCovered (rect ∷ list) total done within =
        let (calls, e, c) = rectangle-IsCovered rect (λ p h. within p (inl h)) in
        let (later, el, cl) =
          rectangles-IsCovered list total (done + 1) (λ p h. within p (inr h)) in
        (
          calls ++ progress total done ∷ later,
          rw (e, el) refl,
          IsCovered-append (2 ^ suc k) type (InTiles rects) rect list total done
              (count_up total (done + 1) (length list)) calls later c cl,
        )
