-- ===== src/Tiling/Loop.antt =====
-- The loop over the tiling ends, and gives every tile once, in the order of the numbers.
use native.Mathlib.Numerals.{add-one}
use czi_pyramidizer.Prelude.{
  ℕ_discrete, false, ℕ, zero, suc, ◌+◌, ◌*◌, ◌/◌, ◌%◌, ◌≤◌, ◌<◌, ◌≡◌, refl, ap, ◌↔◌, inl, inr, List,
  [], ◌∷◌, arith, length, ◌==◌,
}
use czi_pyramidizer.Prelude.Outcome.{ok}
use czi_pyramidizer.Rect.{IntRect, Point, Contains}
use czi_pyramidizer.TileHelper.Hull.{InTiles}
use czi_pyramidizer.Tiling.{TilingEnumerator, next, iterate, tile_rectangles}
use czi_pyramidizer.Tiling.Cover.{
  tile_of-Contains, tile_of-lt, tile_of, tile_at_bounds, IsTileable, columns, rows, tile_at,
  get_number_of_tiles_lem, get_roi_lem,
}

-- The tiles with the n numbers from k on.
abbrev tiles_from : TilingEnumerator → ℕ → ℕ → List IntRect
tiles_from e k zero = []
tiles_from e k (suc n) = tile_at e (k % columns e) (k / columns e) ∷ tiles_from e (k + 1) n

next_lem :
    (e : TilingEnumerator) (k : ℕ) → IsTileable e → k < columns e * rows e → next e k ≡ ok (k + 1)
unfolding next
next_lem e k v h = rw (get_number_of_tiles_lem e v) (ground arith)

module _ (e : TilingEnumerator) (v : IsTileable e) where
  iterate_lem :
      (n k stop : ℕ)
      → k + n ≡ stop
      → stop ≡ columns e * rows e
      → iterate (suc n) e k stop ≡ ok (tiles_from e k n)
  unfolding iterate
  iterate_lem zero k stop h s = ground arith
  iterate_lem (suc n) k stop h s = rw (
    more,
    get_roi_lem e v k (omega arith),
    next_lem e k v (omega arith),
    iterate_lem n (k + 1) stop (omega arith) s,
  )
    where
      more : (k == stop) ≡ false
      more = ground arith

  in_tiles_from :
      (n k : ℕ) (p : Point)
      → k + n ≤ columns e * rows e
      → InTiles (tiles_from e k n) p
      → Contains e.roi p
  in_tiles_from zero k p h i = absurd i
  in_tiles_from (suc n) k p h (inl c) = (tile_at_bounds e v k (omega arith)).3 p c
  in_tiles_from (suc n) k p h (inr i) = in_tiles_from n (k + 1) p (omega arith) i

  tiles_from_all :
      (n k j : ℕ) (p : Point)
      → k ≤ j
      → j < k + n
      → Contains (tile_at e (j % columns e) (j / columns e)) p
      → InTiles (tiles_from e k n) p
  tiles_from_all zero k j p h l c = absurd (omega arith)
  tiles_from_all (suc n) k j p h l c = elim (ℕ_discrete k j) [
    | yes same ↦ inl (rw same c)
    | no other ↦ inr (tiles_from_all n (k + 1) j p (omega arith) (omega arith) c)
  ]

  length-tiles_from : (n k : ℕ) → length (tiles_from e k n) ≡ n
  length-tiles_from zero k = refl
  length-tiles_from (suc n) k = ap suc (length-tiles_from n (k + 1))

-- The loop over a tiling ends. It gives as many rectangles as there are tiles, and the pixels of
-- these rectangles are exactly those of the region.
pub tile_rectangles_cover :
    (e : TilingEnumerator)
    → IsTileable e
    → (rects : List IntRect) × (tile_rectangles e ≡ ok rects)
      × (length rects ≡ columns e * rows e)
      × ((p : Point) → InTiles rects p ↔ Contains e.roi p)
unfolding tile_rectangles
tile_rectangles_cover e v = (
  tiles_from e 0 (columns e * rows e),
  rw (get_number_of_tiles_lem e v, add-one)
      (iterate_lem e v (columns e * rows e) 0 _ (omega arith) refl),
  length-tiles_from e v (columns e * rows e) 0,
  λ p. (
    in_tiles_from e v (columns e * rows e) 0 p (omega arith),
    λ c.
        tiles_from_all e v (columns e * rows e) 0 (tile_of e p) p (omega arith)
          (omega (arith, tile_of-lt e v p c)) (tile_of-Contains e v p c),
  ),
)
