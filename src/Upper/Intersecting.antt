-- ===== src/Upper/Intersecting.antt =====
-- Which tiles `GetTilesIntersecting` finds.
use czi_pyramidizer.Prelude.{
  some_injective, subst, ℕ, zero, suc, ◌+◌, ◌≡◌, refl, sym, ◌↔◌, ◌⊎◌, inl, inr, List, [], ◌∷◌, some,
  true, Bool-cases, get_elem?, arith,
}
use czi_pyramidizer.Prelude.Int.{int_laws}
use czi_pyramidizer.Rect.{IntRect, Point, Contains, RectOps}
use czi_pyramidizer.Imaging.{Imaging}
use czi_pyramidizer.TileHelper.Hull.{no-pixels}
use czi_pyramidizer.Upper.{Tile, get_tiles_intersecting}

-- n is one of the numbers.
abbrev pub IsOneOf : ℕ → List ℕ → Type 0
IsOneOf n [] = ⊥
IsOneOf n (m ∷ ms) = (n ≡ m) ⊎ IsOneOf n ms

-- Two rectangles have a pixel in common.
abbrev pub Meet : IntRect → IntRect → Type 0
Meet r s = (p : Point) × Contains r p × Contains s p

module _ (ops : RectOps) (img : Imaging) where
  open img use {Image}

  has_pixel_iff : (r s : IntRect) → (ops.is_non_empty (ops.intersect r s) ≡ true) ↔ Meet r s
  has_pixel_iff r s = (
    λ e.
        let (pw, ph) = (ops.is_non_empty_iff (ops.intersect r s)).0 e in
        let (cr, cs) = (ops.intersect_iff r s corner).0 (omega int_laws) in (corner, cr, cs),
    λ m. elim (Bool-cases (ops.is_non_empty (ops.intersect r s))) [
      | inl e ↦ e
      | inr e ↦
          absurd
            (no-pixels ops (ops.intersect r s) e m.0 ((ops.intersect_iff r s m.0).1 (m.1, m.2)))
    ],
  )
    where
      corner : Point
      corner = record { px = (ops.intersect r s).x; py = (ops.intersect r s).y }

  -- The tile that the index n finds meets the rectangle.
  abbrev pub Finds : List (Tile Image) → IntRect → ℕ → Type 0
  Finds tiles rect n = (tile : Tile Image) × (get_elem? tiles n ≡ some tile) × Meet tile.rect rect

  one_later :
      (tile : Tile Image) (tiles : List (Tile Image)) (rect : IntRect) (i n : ℕ)
      → (j : ℕ) × (n ≡ i + 1 + j) × Finds tiles rect j
      → (j : ℕ) × (n ≡ i + j) × Finds (tile ∷ tiles) rect j
  one_later tile tiles rect i n (j, e, f) = (suc j, omega arith, f)

  found_from :
      (tiles : List (Tile Image)) (rect : IntRect) (i n : ℕ)
      → IsOneOf n (get_tiles_intersecting ops img i tiles rect)
      → (j : ℕ) × (n ≡ i + j) × Finds tiles rect j
  unfolding get_tiles_intersecting
  found_from [] rect i n h = elim h [ ]
  found_from (tile ∷ tiles) rect i n h =
      let next : IsOneOf n (get_tiles_intersecting ops img (i + 1) tiles rect)
          → (j : ℕ) × (n ≡ i + j) × Finds (tile ∷ tiles) rect j =
        λ later. one_later tile tiles rect i n (found_from tiles rect (i + 1) n later) in
      elim (Bool-cases (ops.is_non_empty (ops.intersect tile.rect rect))) [
        | inl e ↦
            let found : IsOneOf n (i ∷ get_tiles_intersecting ops img (i + 1) tiles rect) =
              rw e at h in
            elim found [
              | inl same ↦ (0, omega arith, (tile, refl, (has_pixel_iff tile.rect rect).0 e))
              | inr later ↦ next later
            ]
        | inr e ↦
            let found : IsOneOf n (get_tiles_intersecting ops img (i + 1) tiles rect) = rw e at h in
            next found
      ]

  find_from :
      (tiles : List (Tile Image)) (rect : IntRect) (i j : ℕ)
      → Finds tiles rect j
      → IsOneOf (i + j) (get_tiles_intersecting ops img i tiles rect)
  unfolding get_tiles_intersecting
  find_from [] rect i j (tile, e, m) = cc e
  find_from (t ∷ tiles) rect i zero (tile, e, m) =
      let same : t ≡ tile = some_injective e in
      rw
        (subst (λ u. ops.is_non_empty (ops.intersect u.rect rect) ≡ true) (sym same)
          ((has_pixel_iff tile.rect rect).1 m))
        (inl (omega arith))
  find_from (t ∷ tiles) rect i (suc j) f =
      let later = find_from tiles rect (i + 1) j f in
      let there : IsOneOf (i + suc j) (get_tiles_intersecting ops img (i + 1) tiles rect) =
        subst (λ n. IsOneOf n (get_tiles_intersecting ops img (i + 1) tiles rect)) (omega arith)
          later in
      elim (Bool-cases (ops.is_non_empty (ops.intersect t.rect rect))) [
        | inl e ↦ rw e (inr there)
        | inr e ↦ rw e there
      ]

  -- `get_tiles_intersecting` finds exactly the numbers of the tiles that have a pixel in common with
  -- the rectangle.
  pub get_tiles_intersecting_iff :
      (tiles : List (Tile Image)) (rect : IntRect) (n : ℕ)
      → IsOneOf n (get_tiles_intersecting ops img 0 tiles rect) ↔ Finds tiles rect n
  get_tiles_intersecting_iff tiles rect n = (
    λ h. let (j, e, f) = found_from tiles rect 0 n h in subst (Finds tiles rect) (omega arith) f,
    λ f.
        subst (λ m. IsOneOf m (get_tiles_intersecting ops img 0 tiles rect)) (omega arith)
          (find_from tiles rect 0 n f),
  )
