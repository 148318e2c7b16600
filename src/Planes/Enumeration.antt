-- ===== src/Planes/Enumeration.antt =====
-- The range-for over the planes: it ends, and gives every plane once, with its rectangle.
use native.Mathlib.Nat.{mod-lt}
use czi_pyramidizer.Prelude.{
  ℕ, zero, suc, ◌+◌, ◌%◌, ◌<◌, ◌≡◌, refl, ap, ◌∙◌, sym, inl, inr, List, [], ◌∷◌, Option,
  Option-cases, none, some, some_injective, true, false, arith, subst, Bool-cases, length,
  get_elem?,
}
use czi_pyramidizer.Prelude.Int.{ℤ, pos, pos_part, ◌+ℤ◌, ◌<ℤ◌, int_laws}
use czi_pyramidizer.Prelude.Outcome.{ok}
use czi_pyramidizer.Rect.{IntRect}
use czi_pyramidizer.CheckForPyramid.{SubBlockStatistics}
use czi_pyramidizer.Dimensions.{DimensionIndex, dim_s, dim_b, Interval, Dimensions, start_of}
use czi_pyramidizer.Planes.{
  PlaneEnumerator, PyramidRegion, order_of_dimensions_to_iterate, other_dimensions, find_scene,
  get_roi_for_scene, all_scenes_have_boxes, any_interval, get_coordinate_one_after_end, next_plane,
  region_of, first_plane, planes_from, count_planes,
}
use czi_pyramidizer.Planes.Digits.{
  AllDistinct, IsProper, AllProper, coordinate_at, coordinate_at_first,
}
use czi_pyramidizer.Planes.Steps.{increment_more, increment_last}
use czi_pyramidizer.Planes.Numbers.{Fits, AllFit, coordinate_at-AllFit}
use czi_pyramidizer.Planes.Ends.{
  scene_found, before_end, first_plane_position, first_plane-IsBlank, any_interval-none,
  any_interval-some,
}

-- The dimensions of the order are different ones.
pub order-AllDistinct : AllDistinct order_of_dimensions_to_iterate
order-AllDistinct = omega arith

start-Fits : (i : Interval) → pos 0 <ℤ i.1 → Fits (some i) (some i.0)
start-Fits i h = omega int_laws

module _ (dims : Dimensions) where
  open dims use {
    Coordinate, Bounds, try_get_position, try_get_interval, compare_differs, compare_differs_iff,
  }

  -- A plane of the bounds: a position in each interval, and the start in the dimension B, which the
  -- enumerator does not go through.
  pub record IsPlane (bounds : Bounds) (p : Coordinate) : Type 0 where
    pub fits : AllFit dims bounds p
    pub b_start : try_get_position p dim_b ≡ start_of (try_get_interval bounds dim_b)

  -- The rectangle that belongs to a plane: its scene's, or the document's.
  abbrev pub IsRectOf : SubBlockStatistics → Option ℤ → IntRect → Type 0
  IsRectOf statistics none rect = rect ≡ statistics.bounding_box_layer0_only
  IsRectOf statistics (some s_index) rect =
      find_scene s_index statistics.scene_bounding_boxes ≡ some rect

  pub record IsRegion (statistics : SubBlockStatistics) (bounds : Bounds) (r : PyramidRegion dims)
      : Type 0 where
    pub plane : IsPlane bounds r.plane_coordinate
    pub rect_is : IsRectOf statistics (try_get_position r.plane_coordinate dim_s) r.rect

  -- What the constructor has checked.
  pub record IsChecked (e : PlaneEnumerator dims) : Type 0 where
    pub some_dimension : any_interval dims e.dim_bounds other_dimensions ≡ true
    pub scenes :
        (i : Interval)
        → try_get_interval e.dim_bounds dim_s ≡ some i
        → all_scenes_have_boxes (pos_part i.1) i.0 e.statistics.scene_bounding_boxes ≡ true

  -- Every interval has a position.
  abbrev pub AllSized : Bounds → Type 0
  AllSized bounds = (d : DimensionIndex) → IsProper (try_get_interval bounds d)

  module _ (e : PlaneEnumerator dims) (checked : IsChecked e) (sized : AllSized e.dim_bounds) where
    all_proper : (ds : List DimensionIndex) → AllProper dims e.dim_bounds ds
    all_proper [] = tt
    all_proper (d ∷ ds) = (sized d, all_proper ds)

    pub proper : AllProper dims e.dim_bounds order_of_dimensions_to_iterate
    proper = all_proper order_of_dimensions_to_iterate

    abbrev order : List DimensionIndex
    order = order_of_dimensions_to_iterate

    abbrev pub total : ℕ
    total = count_planes dims e.dim_bounds order

    abbrev pub plane_at : ℕ → Coordinate
    plane_at k = coordinate_at dims e.dim_bounds order k (first_plane dims e.dim_bounds)

    any_in_order : any_interval dims e.dim_bounds order ≡ true
    any_in_order = elim (Option-cases (try_get_interval e.dim_bounds dim_s)) [
      | inl n ↦
          any_interval-none dims e.dim_bounds other_dimensions dim_s n ∙ checked.some_dimension
      | inr (i, n) ↦ any_interval-some dims e.dim_bounds other_dimensions dim_s i n
    ]

    not_end :
        (k : ℕ)
        → compare_differs (plane_at k) (get_coordinate_one_after_end dims e.dim_bounds) ≡ true
    unfolding get_coordinate_one_after_end
    not_end k =
        elim (Bool-cases
          (compare_differs (plane_at k) (get_coordinate_one_after_end dims e.dim_bounds))) [
            | inl differs ↦ differs
            | inr same ↦ absurd (
                before_end dims e.dim_bounds order k (first_plane dims e.dim_bounds) dims.empty
                  order-AllDistinct proper any_in_order
                  ((compare_differs_iff (plane_at k)
                      (get_coordinate_one_after_end dims e.dim_bounds)).0
                    same))
          ]

    pub first_plane-AllFit : AllFit dims e.dim_bounds (first_plane dims e.dim_bounds)
    first_plane-AllFit d = elim (Option-cases (try_get_interval e.dim_bounds d)) [
      | inl n ↦ rw (first_plane_position dims e.dim_bounds d, n) tt
      | inr (i, n) ↦
          rw (first_plane_position dims e.dim_bounds d, n)
            (start-Fits i (subst IsProper n (sized d)))
    ]

    pub plane_at-AllFit : (k : ℕ) → AllFit dims e.dim_bounds (plane_at k)
    plane_at-AllFit k =
        coordinate_at-AllFit dims e.dim_bounds order k (first_plane dims e.dim_bounds) proper
          first_plane-AllFit

    region_of-none :
        (c : Coordinate)
        → try_get_position c dim_s ≡ none
        → region_of dims e c
          ≡ ok (record { plane_coordinate = c; rect = e.statistics.bounding_box_layer0_only })
    unfolding region_of
    region_of-none c n = rw (region_of, n) refl

    region_of-some :
        (c : Coordinate) (s : ℤ) (box : IntRect)
        → try_get_position c dim_s ≡ some s
        → find_scene s e.statistics.scene_bounding_boxes ≡ some box
        → region_of dims e c ≡ ok (record { plane_coordinate = c; rect = box })
    unfolding region_of get_roi_for_scene
    region_of-some c s box n f = rw (region_of, n, get_roi_for_scene, f) refl

    -- The scene of a plane has a box.
    scene_of_plane :
        (k : ℕ) (i : Interval)
        → try_get_interval e.dim_bounds dim_s ≡ some i
        → (box : IntRect) × (find_scene
              (i.0 +ℤ pos (k % pos_part i.1))
              e.statistics.scene_bounding_boxes
            ≡ some box)
    scene_of_plane k i n =
        let p : IsProper (some i) = subst IsProper n (sized dim_s) in
        scene_found (pos_part i.1) (k % pos_part i.1) i.0 e.statistics.scene_bounding_boxes
          (checked.scenes i n) (mod-lt k (omega arith))

    -- `operator*` gives the region of a plane.
    region_of_plane :
        (k : ℕ)
        → (r : PyramidRegion dims) × (region_of dims e (plane_at k) ≡ ok r)
          × (r.plane_coordinate ≡ plane_at k)
          × IsRectOf e.statistics (try_get_position (plane_at k) dim_s) r.rect
    region_of_plane k = elim (Option-cases (try_get_interval e.dim_bounds dim_s)) [
      | inl n ↦ elim (Option-cases (try_get_position (plane_at k) dim_s)) [
        | inl m ↦ (
          record { plane_coordinate = plane_at k; rect = e.statistics.bounding_box_layer0_only },
          region_of-none (plane_at k) m,
          refl,
          subst (λ o. IsRectOf e.statistics o e.statistics.bounding_box_layer0_only) (sym m) refl,
        )
        | inr (s, m) ↦ absurd (
            subst (λ o. Fits none o) m
              (subst (λ o. Fits o (try_get_position (plane_at k) dim_s)) n
                (plane_at-AllFit k dim_s)))
      ]
      | inr (i, n) ↦
          let (box, f) = scene_of_plane k i n in
          let m =
            coordinate_at_first dims e.dim_bounds other_dimensions k (first_plane dims e.dim_bounds)
              dim_s i order-AllDistinct.0 n in
          (
            record { plane_coordinate = plane_at k; rect = box },
            region_of-some (plane_at k) (i.0 +ℤ pos (k % pos_part i.1)) box m f,
            refl,
            subst (λ o. IsRectOf e.statistics o box) (sym m) f,
          )
    ]

    next_plane_more :
        (k : ℕ) → suc k < total → next_plane dims e.dim_bounds (plane_at k) ≡ ok (plane_at (suc k))
    unfolding next_plane
    next_plane_more k h =
        rw
          (increment_more dims e.dim_bounds order k (first_plane dims e.dim_bounds)
            order-AllDistinct proper (first_plane-IsBlank dims e.dim_bounds) h)
          refl

    next_plane_last :
        (k : ℕ)
        → suc k ≡ total
        → next_plane dims e.dim_bounds (plane_at k)
          ≡ ok (get_coordinate_one_after_end dims e.dim_bounds)
    unfolding next_plane
    next_plane_last k h =
        rw
          (increment_last dims e.dim_bounds order k (first_plane dims e.dim_bounds)
            order-AllDistinct proper (first_plane-IsBlank dims e.dim_bounds) h)
          refl

    end_same :
        compare_differs
          (get_coordinate_one_after_end dims e.dim_bounds)
          (get_coordinate_one_after_end dims e.dim_bounds)
        ≡ false
    end_same =
        (compare_differs_iff (get_coordinate_one_after_end dims e.dim_bounds)
            (get_coordinate_one_after_end dims e.dim_bounds)).1
          refl

    -- The regions of the numbers from k on.
    abbrev pub AreRegions : ℕ → List (PyramidRegion dims) → Type 0
    AreRegions k [] = Unit
    AreRegions k (r ∷ rs) =
        (r.plane_coordinate ≡ plane_at k)
        × IsRectOf e.statistics (try_get_position (plane_at k) dim_s) r.rect
        × AreRegions (suc k) rs

    -- The loop from number k on ends after the planes that are left.
    pub planes_from_lem :
        (n k : ℕ)
        → k + suc n ≡ total
        → (rs : List (PyramidRegion dims)) × (planes_from dims (suc (suc n)) e (plane_at k) ≡ ok rs)
          × (length rs ≡ suc n)
          × AreRegions k rs
    unfolding planes_from
    planes_from_lem zero k h =
        let (r, er, ec, ebox) = region_of_plane k in
        (
          r ∷ [],
          rw (not_end k, er, next_plane_last k (omega arith), end_same) refl,
          refl,
          (ec, ebox, tt),
        )
    planes_from_lem (suc n) k h =
        let (r, er, ec, ebox) = region_of_plane k in
        let (rs, e', len, all) = planes_from_lem n (suc k) (omega arith) in
        (
          r ∷ rs,
          rw (not_end k, er, next_plane_more k (omega arith), e') refl,
          ap suc len,
          (ec, ebox, all),
        )

    -- Where the regions stand.
    pub region_at :
        (k : ℕ) (rs : List (PyramidRegion dims)) (j : ℕ) (r : PyramidRegion dims)
        → AreRegions k rs
        → get_elem? rs j ≡ some r
        → (r.plane_coordinate ≡ plane_at (k + j))
          × IsRectOf e.statistics (try_get_position (plane_at (k + j)) dim_s) r.rect
    region_at k [] j r all h = cc h
    region_at k (x ∷ rs) zero r (ec, ebox, all) h =
        let same : x ≡ r = some_injective h in
        let there : plane_at k ≡ plane_at (k + 0) = ap plane_at (omega arith) in
        (
          sym (ap (λ y. y.plane_coordinate) same) ∙ ec ∙ there,
          subst (λ c. IsRectOf e.statistics (try_get_position c dim_s) r.rect) there
              (subst (λ y. IsRectOf e.statistics (try_get_position (plane_at k) dim_s) y.rect) same
                ebox),
        )
    region_at k (x ∷ rs) (suc j) r (ec, ebox, all) h =
        let there : plane_at (suc k + j) ≡ plane_at (k + suc j) = ap plane_at (omega arith) in
        let (a, b) = region_at (suc k) rs j r all h in
        (a ∙ there, subst (λ c. IsRectOf e.statistics (try_get_position c dim_s) r.rect) there b)
