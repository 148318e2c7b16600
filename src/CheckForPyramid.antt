-- ===== src/CheckForPyramid.antt =====
-- libpyramidizer/src/CheckForPyramid.cpp: whether a document needs a pyramid that it does not have.
-- The statistics are libCZI's plain structs, by the fields that the source reads; a `std::map` is
-- the list of its entries in the order of their keys.
pub mod Layers
pub mod Decision
use czi_pyramidizer.Prelude.{
  ℕ, ◌+◌, Bool, true, false, not, ◌&&◌, List, [], ◌∷◌, Option, none, some, ltb, if◌then◌else◌,
}
use czi_pyramidizer.Prelude.Int.{ℤ, pos, pos_part, ltb_ℤ, eqb_ℤ}
use czi_pyramidizer.Prelude.Outcome.{Outcome, ok, err, narrowing_error, ◌>>=◌}
use czi_pyramidizer.Rect.{IntRect}

pub record SceneBoundingBox : Type 0 where
  pub scene : ℤ
  pub bounding_box_layer0 : IntRect

pub record SubBlockStatistics : Type 0 where
  pub bounding_box_layer0_only : IntRect
  pub scene_bounding_boxes : List SceneBoundingBox

pub record PyramidLayerStatistics : Type 0 where
  pub is_layer0 : Bool
  pub count : ℕ

abbrev pub PyramidStatistics : Type 0
PyramidStatistics = List (ℤ × List PyramidLayerStatistics)

pub record ThresholdParameters : Type 0 where
  pub max_extent_of_image : ℕ

-- `std::numeric_limits<int>::max()`.
abbrev pub int_max : ℤ
int_max = pos 2147483647

-- `gsl::narrow<std::uint32_t>` of an `int`.
unfoldable pub narrow_u32 : ℤ → Outcome ℕ
narrow_u32 z = if ltb_ℤ z (pos 0) then err narrowing_error else ok (pos_part z)

-- `std::map::find`.
unfoldable pub find {ℓ} : {V : Type ℓ} → ℤ → List (ℤ × V) → Option V
find key [] = none
find key ((k, v) ∷ entries) = if eqb_ℤ k key then some v else find key entries

-- The second extent is looked at only if the first is not above the threshold.
unfoldable pub is_rectangle_above_threshold : IntRect → ThresholdParameters → Outcome Bool
is_rectangle_above_threshold rectangle threshold_parameters = do
  w ← narrow_u32 rectangle.w
  if ltb threshold_parameters.max_extent_of_image w
      then ok true
      else (do h ← narrow_u32 rectangle.h; ok (ltb threshold_parameters.max_extent_of_image h))

unfoldable pub check_overall_bounding_box_for_necessity_of_pyramid :
    SubBlockStatistics → ThresholdParameters → Outcome Bool
check_overall_bounding_box_for_necessity_of_pyramid statistics threshold_parameters = do
  above ← is_rectangle_above_threshold statistics.bounding_box_layer0_only threshold_parameters
  if above then ok true else ok false

-- The loop over the scenes, which returns at the first scene above the threshold.
unfoldable pub any_scene_above : List SceneBoundingBox → ThresholdParameters → Outcome Bool
any_scene_above [] threshold_parameters = ok false
any_scene_above (s ∷ scenes) threshold_parameters = do
  above ← is_rectangle_above_threshold s.bounding_box_layer0 threshold_parameters
  elim above [ true ↦ ok true | false ↦ any_scene_above scenes threshold_parameters ]

pub per_scene : List SceneBoundingBox → ThresholdParameters → Outcome (Option Bool)
per_scene [] threshold_parameters = ok none
per_scene (s ∷ scenes) threshold_parameters = do
  above ← any_scene_above (s ∷ scenes) threshold_parameters
  ok (some above)

unfoldable pub check_per_scene_bounding_boxes_for_necessity_of_pyramid :
    SubBlockStatistics → ThresholdParameters → Outcome (Option Bool)
unfolding per_scene
check_per_scene_bounding_boxes_for_necessity_of_pyramid statistics threshold_parameters =
    per_scene statistics.scene_bounding_boxes threshold_parameters

unfoldable pub does_contain_pyramid_layer : List PyramidLayerStatistics → Bool
does_contain_pyramid_layer [] = false
does_contain_pyramid_layer (layer ∷ layers) =
    if not layer.is_layer0 && ltb 0 layer.count then true else does_contain_pyramid_layer layers

-- The entry of a scene is there, and has a layer above layer 0.
unfoldable pub scene_has_pyramid : ℤ → PyramidStatistics → Bool
scene_has_pyramid scene pyramid_statistics = elim (find scene pyramid_statistics) [
  | none ↦ false
  | some layers ↦ does_contain_pyramid_layer layers
]

-- The loop over the scenes, which returns at the first large scene without a pyramid.
unfoldable pub all_scenes_have_pyramid :
    List SceneBoundingBox → PyramidStatistics → ThresholdParameters → Outcome Bool
all_scenes_have_pyramid [] pyramid_statistics threshold_parameters = ok true
all_scenes_have_pyramid (s ∷ scenes) pyramid_statistics threshold_parameters = do
  above ← is_rectangle_above_threshold s.bounding_box_layer0 threshold_parameters
  elim (above && not (scene_has_pyramid s.scene pyramid_statistics)) [
    | true ↦ ok false
    | false ↦ all_scenes_have_pyramid scenes pyramid_statistics threshold_parameters
  ]

-- With no scene the entry of the whole document is kept under the greatest `int`.
pub document_has_pyramid :
    SubBlockStatistics → PyramidStatistics → ThresholdParameters → Outcome Bool
document_has_pyramid statistics pyramid_statistics threshold_parameters = do
  above ← check_overall_bounding_box_for_necessity_of_pyramid statistics threshold_parameters
  if above then ok (scene_has_pyramid int_max pyramid_statistics) else ok true

-- The test on the `std::optional` asks whether it has a value, and not for that value.
unfoldable pub scenes_have_pyramid :
    SubBlockStatistics → PyramidStatistics → ThresholdParameters → Outcome Bool
scenes_have_pyramid statistics pyramid_statistics threshold_parameters = do
  per_scene_result ←
      check_per_scene_bounding_boxes_for_necessity_of_pyramid statistics threshold_parameters
  elim per_scene_result [
    | none ↦ ok true
    | some _ ↦
        all_scenes_have_pyramid statistics.scene_bounding_boxes pyramid_statistics
          threshold_parameters
  ]

unfoldable pub check_if_pyramid_is_present :
    SubBlockStatistics → PyramidStatistics → ThresholdParameters → Outcome Bool
check_if_pyramid_is_present statistics pyramid_statistics threshold_parameters =
    elim statistics.scene_bounding_boxes [
      | [] ↦ document_has_pyramid statistics pyramid_statistics threshold_parameters
      | _ ∷ _ ↦ scenes_have_pyramid statistics pyramid_statistics threshold_parameters
    ]

-- `value_or(true)`.
abbrev value_or_true : Option Bool → Bool
value_or_true none = true
value_or_true (some b) = b

-- `NeedsPyramid`, with the two statistics that it gets from the document.
unfoldable pub needs_pyramid :
    SubBlockStatistics → PyramidStatistics → ThresholdParameters → Outcome Bool
needs_pyramid statistics pyramid_statistics parameters = do
  overall ← check_overall_bounding_box_for_necessity_of_pyramid statistics parameters
  if not overall then ok false else (do
    per_scene_result ← check_per_scene_bounding_boxes_for_necessity_of_pyramid statistics parameters
    if not (value_or_true per_scene_result) then ok false else (do
      present ← check_if_pyramid_is_present statistics pyramid_statistics parameters
      if present then ok false else ok true))
