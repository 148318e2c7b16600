-- ===== src/Tests/Decisions.antt =====
-- The decision whether a pyramid is needed, run and instantiated.
use czi_pyramidizer.Prelude.{◌≡◌, refl, inl, true, [], ◌∷◌, arith}
use czi_pyramidizer.Prelude.Int.{pos, negsuc}
use czi_pyramidizer.Prelude.Outcome.{ok, err, narrowing_error}
use czi_pyramidizer.CheckForPyramid.{
  SubBlockStatistics, PyramidStatistics, ThresholdParameters, needs_pyramid, find, narrow_u32,
  is_rectangle_above_threshold, check_overall_bounding_box_for_necessity_of_pyramid,
  any_scene_above, check_per_scene_bounding_boxes_for_necessity_of_pyramid,
  does_contain_pyramid_layer, scene_has_pyramid, all_scenes_have_pyramid, scenes_have_pyramid,
  check_if_pyramid_is_present,
}
use czi_pyramidizer.CheckForPyramid.Decision.{
  Decides, Needs, needs_pyramid-Needs, needs_pyramid-narrowing_error,
}
use czi_pyramidizer.Tests.Ops.{rect}

-- Two scenes, of which the second is large and has layer 0 alone.
abbrev two_scenes : SubBlockStatistics
two_scenes = record {
  bounding_box_layer0_only = rect (pos 0) (pos 0) (pos 9000) (pos 5000);
  scene_bounding_boxes =
      record { scene = pos 0; bounding_box_layer0 = rect (pos 0) (pos 0) (pos 100) (pos 100) }
      ∷ record {
        scene = pos 1;
        bounding_box_layer0 = rect (pos 4000) (pos 0) (pos 5000) (pos 5000);
      }
      ∷ [];
}

abbrev layer0_only : PyramidStatistics
layer0_only =
    (pos 0, record { is_layer0 = true; count = 4 } ∷ [])
    ∷ (pos 1, record { is_layer0 = true; count = 9 } ∷ [])
    ∷ []

abbrev threshold_4096 : ThresholdParameters
threshold_4096 = record { max_extent_of_image = 4096 }

needs_pyramid_runs : needs_pyramid two_scenes layer0_only threshold_4096 ≡ ok true
unfolding needs_pyramid check_overall_bounding_box_for_necessity_of_pyramid
    check_per_scene_bounding_boxes_for_necessity_of_pyramid any_scene_above
    is_rectangle_above_threshold narrow_u32 check_if_pyramid_is_present scenes_have_pyramid
    all_scenes_have_pyramid scene_has_pyramid does_contain_pyramid_layer find
needs_pyramid_runs = refl

needs_pyramid-Needs_example :
    Decides
      (needs_pyramid two_scenes layer0_only threshold_4096)
      (Needs two_scenes layer0_only threshold_4096)
needs_pyramid-Needs_example =
    needs_pyramid-Needs two_scenes layer0_only threshold_4096 (omega arith) (omega arith)

-- The bounding box of a document without subblocks.
abbrev no_subblocks : SubBlockStatistics
no_subblocks = record {
  bounding_box_layer0_only = rect (pos 0) (pos 0) (negsuc 0) (negsuc 0);
  scene_bounding_boxes = [];
}

needs_pyramid-narrowing_error_example :
    needs_pyramid no_subblocks [] threshold_4096 ≡ err narrowing_error
needs_pyramid-narrowing_error_example =
    needs_pyramid-narrowing_error no_subblocks [] threshold_4096 (inl (omega arith))
