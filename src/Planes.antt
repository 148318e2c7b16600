-- ===== src/Planes.antt =====
-- libpyramidizer/inc/plane_enumerator.h: the enumeration of the planes of a document. The iterator
-- is its coordinate. Positions and intervals are `int`s, and the sums of starts and sizes exact.
pub mod Digits
pub mod Steps
pub mod Numbers
pub mod Ends
pub mod Enumeration
pub mod Regions
use czi_pyramidizer.Prelude.{
  ◌*◌, ℕ, zero, suc, ◌+◌, List, [], ◌∷◌, Option, none, some, Bool, true, false, if◌then◌else◌,
}
use czi_pyramidizer.Prelude.Int.{ℤ, pos, pos_part, ◌+ℤ◌, ◌-ℤ◌, ltb_ℤ, eqb_ℤ}
use czi_pyramidizer.Prelude.Outcome.{
  Outcome, ok, err, invalid_argument, out_of_range, indeterminate, stuck, ◌>>=◌,
}
use czi_pyramidizer.Rect.{IntRect}
use czi_pyramidizer.CheckForPyramid.{SceneBoundingBox, SubBlockStatistics}
use czi_pyramidizer.Dimensions.{
  DimensionIndex, dim_s, dim_c, dim_z, dim_t, dim_r, dim_i, dim_h, dim_v, code, Interval,
  Dimensions,
}

-- `kOrderOfDimensionsToIterate`.
abbrev pub order_of_dimensions_to_iterate : List DimensionIndex
order_of_dimensions_to_iterate = dim_s ∷ dim_c ∷ dim_z ∷ dim_t ∷ dim_r ∷ dim_i ∷ dim_h ∷ dim_v ∷ []

-- The same without the scene dimension.
abbrev pub other_dimensions : List DimensionIndex
other_dimensions = dim_c ∷ dim_z ∷ dim_t ∷ dim_r ∷ dim_i ∷ dim_h ∷ dim_v ∷ []

-- `sceneBoundingBoxes.find`, and its `at`, which throws for a missing scene.
unfoldable pub find_scene : ℤ → List SceneBoundingBox → Option IntRect
find_scene s [] = none
find_scene s (entry ∷ entries) =
    if eqb_ℤ entry.scene s then some entry.bounding_box_layer0 else find_scene s entries

unfoldable pub get_roi_for_scene : SubBlockStatistics → ℤ → Outcome IntRect
get_roi_for_scene statistics s_index = elim (find_scene s_index statistics.scene_bounding_boxes) [
  | none ↦ err out_of_range
  | some box ↦ ok box
]

-- The constructor's loop over the scenes from i on, `count` of them.
unfoldable pub all_scenes_have_boxes : ℕ → ℤ → List SceneBoundingBox → Bool
all_scenes_have_boxes zero i boxes = true
all_scenes_have_boxes (suc count) i boxes = elim (find_scene i boxes) [
  | none ↦ false
  | some box ↦ all_scenes_have_boxes count (i +ℤ pos 1) boxes
]

module _ (dims : Dimensions) where
  open dims use {
    Coordinate, empty, try_get_position, set, compare_differs, Bounds, try_get_interval,
    enum_valid_dimensions,
  }

  -- The statistics that the enumerator keeps.
  pub record PlaneEnumerator : Type 0 where
    pub statistics : SubBlockStatistics
    pub dim_bounds : Bounds

  pub record PyramidRegion : Type 0 where
    pub plane_coordinate : Coordinate
    pub rect : IntRect

  unfoldable pub contains_scene_index : PyramidRegion → Bool
  contains_scene_index region = elim (try_get_position region.plane_coordinate dim_s) [
    | none ↦ false
    | some s_index ↦ true
  ]

  -- The search for a dimension that has bounds.
  unfoldable pub any_interval : Bounds → List DimensionIndex → Bool
  any_interval bounds [] = false
  any_interval bounds (d ∷ ds) = elim (try_get_interval bounds d) [
    | none ↦ any_interval bounds ds
    | some interval ↦ true
  ]

  -- The constructor.
  unfoldable pub plane_enumerator : SubBlockStatistics → Bounds → Outcome PlaneEnumerator
  plane_enumerator statistics bounds =
      let made = ok (record { statistics = statistics; dim_bounds = bounds }) in
      if any_interval bounds other_dimensions
      then elim (try_get_interval bounds dim_s) [
        | none ↦ made
        | some interval ↦
            if all_scenes_have_boxes (pos_part interval.1) interval.0
              statistics.scene_bounding_boxes
            then made
            else err invalid_argument
      ]
      else err invalid_argument

  -- The loop of `GetCoordinateOneAfterEnd` over the dimensions that are left.
  unfoldable pub after_end_from : Bounds → Bool → Coordinate → List DimensionIndex → Coordinate
  after_end_from bounds is_first end_coordinate [] = end_coordinate
  after_end_from bounds is_first end_coordinate (d ∷ ds) = elim (try_get_interval bounds d) [
    | none ↦ after_end_from bounds is_first end_coordinate ds
    | some interval ↦
        after_end_from bounds false
          (set end_coordinate d
            (if is_first then interval.0 +ℤ interval.1 else interval.0 +ℤ interval.1 -ℤ pos 1))
          ds
  ]

  unfoldable pub get_coordinate_one_after_end : Bounds → Coordinate
  get_coordinate_one_after_end bounds =
      after_end_from bounds true empty order_of_dimensions_to_iterate

  -- The loop of `operator++`: `none` where it runs through all dimensions. A position without an
  -- interval leaves `start` and `size` unset.
  unfoldable pub increment : Bounds → List DimensionIndex → Coordinate → Outcome (Option Coordinate)
  increment bounds [] current_state = ok none
  increment bounds (d ∷ ds) current_state = elim (try_get_position current_state d) [
    | none ↦ increment bounds ds current_state
    | some coordinate ↦ elim (try_get_interval bounds d) [
      | none ↦ err indeterminate
      | some interval ↦
          let wrapped = increment bounds ds (set current_state d interval.0) in
          if ltb_ℤ coordinate (interval.0 +ℤ interval.1 -ℤ pos 1)
          then ok (some (set current_state d (coordinate +ℤ pos 1)))
          else wrapped
    ]
  ]

  -- `operator++`.
  unfoldable pub next_plane : Bounds → Coordinate → Outcome Coordinate
  next_plane bounds current_state = do
    incremented ← increment bounds order_of_dimensions_to_iterate current_state
    elim incremented [
      | none ↦ ok (get_coordinate_one_after_end bounds)
      | some coordinate ↦ ok coordinate
    ]

  -- `operator*`.
  unfoldable pub region_of : PlaneEnumerator → Coordinate → Outcome PyramidRegion
  region_of e current_state = elim (try_get_position current_state dim_s) [
    | none ↦
        ok (record {
          plane_coordinate = current_state;
          rect = e.statistics.bounding_box_layer0_only;
        })
    | some s_index ↦ do
      rect ← get_roi_for_scene e.statistics s_index
      ok (record { plane_coordinate = current_state; rect = rect })
  ]

  unfoldable pub set_starts : List (DimensionIndex × Interval) → Coordinate → Coordinate
  set_starts [] start_coordinate = start_coordinate
  set_starts ((d, interval) ∷ entries) start_coordinate =
      set_starts entries (set start_coordinate d interval.0)

  -- `begin`.
  unfoldable pub first_plane : Bounds → Coordinate
  first_plane bounds = set_starts (enum_valid_dimensions bounds) empty

  -- The range-for from an iterator on: the regions that its body is given, in order.
  unfoldable pub planes_from : ℕ → PlaneEnumerator → Coordinate → Outcome (List PyramidRegion)
  planes_from zero e current_state = err stuck
  planes_from (suc fuel) e current_state =
      let round = do
        region ← region_of e current_state
        following ← next_plane e.dim_bounds current_state
        regions ← planes_from fuel e following
        ok (region ∷ regions)
      in if compare_differs current_state (get_coordinate_one_after_end e.dim_bounds)
        then round
        else ok []

  -- The number of positions of the dimensions, and so of the rounds.
  unfoldable pub count_planes : Bounds → List DimensionIndex → ℕ
  count_planes bounds [] = 1
  count_planes bounds (d ∷ ds) = elim (try_get_interval bounds d) [
    | none ↦ count_planes bounds ds
    | some interval ↦ pos_part interval.1 * count_planes bounds ds
  ]

  -- `for (const auto& pyramid_region : plane_enumerator)`, with one more round, which ends the loop.
  unfoldable pub pyramid_regions : PlaneEnumerator → Outcome (List PyramidRegion)
  pyramid_regions e =
      planes_from (count_planes e.dim_bounds order_of_dimensions_to_iterate + 1) e
        (first_plane e.dim_bounds)
