-- ===== src/Tests/Enumerating.antt =====
-- The enumeration of the planes of a document with two scenes and three channels.
use czi_pyramidizer.Prelude.{◌≡◌, refl, List, [], ◌∷◌, Option, none, some, map, arith}
use czi_pyramidizer.Prelude.Int.{ℤ, pos, ◌+ℤ◌, ◌-ℤ◌}
use czi_pyramidizer.Prelude.Outcome.{Outcome, ok, err}
use czi_pyramidizer.CheckForPyramid.{SubBlockStatistics}
use czi_pyramidizer.Dimensions.{
  DimensionIndex, dim_s, dim_c, dim_z, dim_t, dim_r, dim_i, dim_h, dim_v, dim_b, Interval,
}
use czi_pyramidizer.Planes.{
  PlaneEnumerator, PyramidRegion, pyramid_regions, plane_enumerator, count_planes,
}
use czi_pyramidizer.Planes.{
  any_interval, all_scenes_have_boxes, find_scene, planes_from, first_plane,
  get_coordinate_one_after_end, after_end_from, next_plane, increment, region_of, set_starts,
  get_roi_for_scene,
}
use czi_pyramidizer.Planes.Enumeration.{AllSized}
use czi_pyramidizer.Planes.Regions.{Enumerates, pyramid_regions-Enumerates}
use czi_pyramidizer.Tests.Ops.{rect}
use czi_pyramidizer.Tests.Dims.{concrete_dimensions}

abbrev scenes_and_channels : DimensionIndex → Option Interval
scenes_and_channels dim_z = none
scenes_and_channels dim_c = some (pos 0, pos 3)
scenes_and_channels dim_t = none
scenes_and_channels dim_r = none
scenes_and_channels dim_s = some (pos 4, pos 2)
scenes_and_channels dim_i = none
scenes_and_channels dim_h = none
scenes_and_channels dim_v = none
scenes_and_channels dim_b = none

abbrev statistics : SubBlockStatistics
statistics = record {
  bounding_box_layer0_only = rect (pos 0) (pos 0) (pos 900) (pos 500);
  scene_bounding_boxes =
      record { scene = pos 4; bounding_box_layer0 = rect (pos 0) (pos 0) (pos 100) (pos 100) }
      ∷ record { scene = pos 5; bounding_box_layer0 = rect (pos 400) (pos 0) (pos 500) (pos 500) }
      ∷ [];
}

abbrev enumerator : PlaneEnumerator concrete_dimensions
enumerator = record { statistics = statistics; dim_bounds = scenes_and_channels }

sized : AllSized concrete_dimensions scenes_and_channels
sized dim_z = tt
sized dim_c = omega arith
sized dim_t = tt
sized dim_r = tt
sized dim_s = omega arith
sized dim_i = tt
sized dim_h = tt
sized dim_v = tt
sized dim_b = tt

enumerator_made :
    plane_enumerator concrete_dimensions statistics scenes_and_channels ≡ ok enumerator
unfolding plane_enumerator any_interval all_scenes_have_boxes find_scene ◌+ℤ◌
enumerator_made = refl

-- Where the loop goes: the scenes first.
abbrev scene_and_channel : PyramidRegion concrete_dimensions → Option ℤ × Option ℤ
scene_and_channel r = (r.plane_coordinate dim_s, r.plane_coordinate dim_c)

abbrev visited : Outcome (List (PyramidRegion concrete_dimensions)) → List (Option ℤ × Option ℤ)
visited (ok rs) = map scene_and_channel rs
visited (err e) = []

pyramid_regions_runs :
    visited (pyramid_regions concrete_dimensions enumerator)
    ≡ (some (pos 4), some (pos 0))
      ∷ (some (pos 5), some (pos 0))
      ∷ (some (pos 4), some (pos 1))
      ∷ (some (pos 5), some (pos 1))
      ∷ (some (pos 4), some (pos 2))
      ∷ (some (pos 5), some (pos 2))
      ∷ []
unfolding pyramid_regions planes_from first_plane get_coordinate_one_after_end after_end_from
    next_plane increment region_of set_starts get_roi_for_scene count_planes find_scene ◌+ℤ◌ ◌-ℤ◌
pyramid_regions_runs = refl

pyramid_regions-Enumerates_example :
    (rs : List (PyramidRegion concrete_dimensions)) × (pyramid_regions concrete_dimensions
        enumerator
      ≡ ok rs)
    × Enumerates concrete_dimensions statistics scenes_and_channels rs
pyramid_regions-Enumerates_example =
    pyramid_regions-Enumerates concrete_dimensions statistics scenes_and_channels enumerator
      enumerator_made sized
