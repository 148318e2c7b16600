-- ===== src/CheckForPyramid/Decision.antt =====
-- `NeedsPyramid` decides, and what it decides.
use czi_pyramidizer.Prelude.{
  ◌≡◌, refl, ◌↔◌, ◌⊎◌, inl, inr, Bool, true, false, not, List, [], ◌∷◌, arith, Bool-cases, ◌||◌,
  ltb,
}
use czi_pyramidizer.Prelude.Int.{pos, pos_part, ◌≤ℤ◌, ◌<ℤ◌}
use czi_pyramidizer.Prelude.Outcome.{Outcome, ok, err, narrowing_error}
use czi_pyramidizer.Rect.{IntRect}
use czi_pyramidizer.CheckForPyramid.Layers.{HasPyramid, lacks_iff}
use czi_pyramidizer.CheckForPyramid.{
  SceneBoundingBox, SubBlockStatistics, PyramidStatistics, ThresholdParameters, int_max, narrow_u32,
  is_rectangle_above_threshold, check_overall_bounding_box_for_necessity_of_pyramid,
  any_scene_above, check_per_scene_bounding_boxes_for_necessity_of_pyramid, scene_has_pyramid,
  all_scenes_have_pyramid, document_has_pyramid, scenes_have_pyramid, check_if_pyramid_is_present,
  needs_pyramid,
}

-- The call returns, and its answer is `a` just when P holds.
abbrev pub Answers : Bool → Outcome Bool → Type 0 → Type 0
Answers a o P = (b : Bool) × (o ≡ ok b) × ((b ≡ a) ↔ P)

-- The call returns, and its answer is `true` just when P holds.
abbrev pub Decides : Outcome Bool → Type 0 → Type 0
Decides o P = Answers true o P

abbrev pub IsMeasured : IntRect → Type 0
IsMeasured r = (pos 0 ≤ℤ r.w) × (pos 0 ≤ℤ r.h)

abbrev pub AllMeasured : List SceneBoundingBox → Type 0
AllMeasured [] = Unit
AllMeasured (s ∷ scenes) = IsMeasured s.bounding_box_layer0 × AllMeasured scenes

abbrev pub IsLarge : ThresholdParameters → IntRect → Type 0
IsLarge t r = (pos t.max_extent_of_image <ℤ r.w) ⊎ (pos t.max_extent_of_image <ℤ r.h)

abbrev pub AnyScene : (SceneBoundingBox → Type 0) → List SceneBoundingBox → Type 0
AnyScene P [] = ⊥
AnyScene P (s ∷ scenes) = P s ⊎ AnyScene P scenes

-- A scene is large, and the document has no pyramid for it.
abbrev pub Lacks : PyramidStatistics → ThresholdParameters → SceneBoundingBox → Type 0
Lacks p t s = IsLarge t s.bounding_box_layer0 × ¬ HasPyramid p s.scene

-- With no scenes the whole document has to have a pyramid, else every large scene.
abbrev pub ScenesLack : PyramidStatistics → ThresholdParameters → List SceneBoundingBox → Type 0
ScenesLack p t [] = ¬ HasPyramid p int_max
ScenesLack p t (s ∷ scenes) = AnyScene (Lacks p t) (s ∷ scenes)

module _ (t : ThresholdParameters) where
  above-Decides :
      (r : IntRect) → IsMeasured r → Decides (is_rectangle_above_threshold r t) (IsLarge t r)
  unfolding is_rectangle_above_threshold narrow_u32
  above-Decides r m = (
    ltb t.max_extent_of_image (pos_part r.w) || ltb t.max_extent_of_image (pos_part r.h),
    ground arith,
    (ground arith, ground arith),
  )

  overall-Decides :
      (s : SubBlockStatistics)
      → IsMeasured s.bounding_box_layer0_only
      → Decides
          (check_overall_bounding_box_for_necessity_of_pyramid s t)
          (IsLarge t s.bounding_box_layer0_only)
  unfolding check_overall_bounding_box_for_necessity_of_pyramid
  overall-Decides s m =
      let (b, e, i) = above-Decides s.bounding_box_layer0_only m in (b, rw e (ground arith), i)

  any_scene_above-Decides :
      (scenes : List SceneBoundingBox)
      → AllMeasured scenes
      → Decides (any_scene_above scenes t) (AnyScene (λ s. IsLarge t s.bounding_box_layer0) scenes)
  unfolding any_scene_above
  any_scene_above-Decides [] m = (false, refl, (λ e. cc, λ e. absurd e))
  any_scene_above-Decides (s ∷ scenes) (m, ms) =
      go (above-Decides s.bounding_box_layer0 m) (any_scene_above-Decides scenes ms)
    where
      go :
          Decides
            (is_rectangle_above_threshold s.bounding_box_layer0 t)
            (IsLarge t s.bounding_box_layer0)
          → Decides
              (any_scene_above scenes t)
              (AnyScene (λ s. IsLarge t s.bounding_box_layer0) scenes)
          → Decides
              (any_scene_above (s ∷ scenes) t)
              (AnyScene (λ s. IsLarge t s.bounding_box_layer0) (s ∷ scenes))
      go (true, e, i) rest = (true, rw e, (λ _. inl (i.0 refl), λ _. refl))
      go (false, e, i) (b, e', i') =
          (b, rw (e, e'), (λ h. inr (i'.0 h), λ h. elim h [ inl l ↦ cc (i.1 l) | inr r ↦ i'.1 r ]))

  module _ (p : PyramidStatistics) where
    all_scenes-Answers :
        (scenes : List SceneBoundingBox)
        → AllMeasured scenes
        → Answers false (all_scenes_have_pyramid scenes p t) (AnyScene (Lacks p t) scenes)
    unfolding all_scenes_have_pyramid
    all_scenes-Answers [] m = (true, refl, (λ e. cc, λ e. absurd e))
    all_scenes-Answers (s ∷ scenes) (m, ms) =
        go (above-Decides s.bounding_box_layer0 m) (Bool-cases (scene_has_pyramid s.scene p))
          (all_scenes-Answers scenes ms)
      where
        go :
            Decides
              (is_rectangle_above_threshold s.bounding_box_layer0 t)
              (IsLarge t s.bounding_box_layer0)
            → (scene_has_pyramid s.scene p ≡ true) ⊎ (scene_has_pyramid s.scene p ≡ false)
            → Answers false (all_scenes_have_pyramid scenes p t) (AnyScene (Lacks p t) scenes)
            → Answers false
                (all_scenes_have_pyramid (s ∷ scenes) p t)
                (AnyScene (Lacks p t) (s ∷ scenes))
        go (true, e, i) (inr lacks) rest =
            (false, rw (e, lacks), (λ _. inl (i.0 refl, (lacks_iff s.scene p).0 lacks), λ _. refl))
        go (true, e, i) (inl has) (b, e', i') = (
          b,
          rw (e, has, e'),
          (
            λ h. inr (i'.0 h),
            λ h. elim h [ inl l ↦ cc ((lacks_iff s.scene p).1 l.1, has) | inr r ↦ i'.1 r ],
          ),
        )
        go (false, e, i) _ (b, e', i') = (
          b,
          rw (e, e'),
          (λ h. inr (i'.0 h), λ h. elim h [ inl l ↦ cc (i.1 l.0) | inr r ↦ i'.1 r ]),
        )

-- A large scene that lacks a pyramid is a large scene.
Lacks-IsLarge :
    (p : PyramidStatistics) (t : ThresholdParameters) (scenes : List SceneBoundingBox)
    → AnyScene (Lacks p t) scenes
    → AnyScene (λ s. IsLarge t s.bounding_box_layer0) scenes
Lacks-IsLarge p t [] h = h
Lacks-IsLarge p t (s ∷ scenes) (inl l) = inl l.0
Lacks-IsLarge p t (s ∷ scenes) (inr r) = inr (Lacks-IsLarge p t scenes r)

-- The document is large, and has no scenes and no pyramid, or a large scene without a pyramid.
abbrev pub Needs : SubBlockStatistics → PyramidStatistics → ThresholdParameters → Type 0
Needs s p t = IsLarge t s.bounding_box_layer0_only × ScenesLack p t s.scene_bounding_boxes

needs-cases :
    (s : SubBlockStatistics) (p : PyramidStatistics) (t : ThresholdParameters)
    (scenes : List SceneBoundingBox)
    → s.scene_bounding_boxes ≡ scenes
    → IsMeasured s.bounding_box_layer0_only
    → AllMeasured scenes
    → Decides (needs_pyramid s p t) (IsLarge t s.bounding_box_layer0_only × ScenesLack p t scenes)
unfolding needs_pyramid check_per_scene_bounding_boxes_for_necessity_of_pyramid
    check_if_pyramid_is_present scenes_have_pyramid document_has_pyramid
needs-cases s p t [] none_there m ms = go (overall-Decides t s m)
  where
    go :
        Decides
          (check_overall_bounding_box_for_necessity_of_pyramid s t)
          (IsLarge t s.bounding_box_layer0_only)
        → Decides (needs_pyramid s p t) (IsLarge t s.bounding_box_layer0_only × ScenesLack p t [])
    go (false, e, i) = (false, rw e, (λ h. cc, λ h. i.1 h.0))
    go (true, e, i) = (
      not (scene_has_pyramid int_max p),
      ground (arith, e),
      (
        λ h. (i.0 refl, (lacks_iff int_max p).0 (ground arith)),
        λ h. ground (arith, (lacks_iff int_max p).1 h.1),
      ),
    )
needs-cases s p t (c ∷ scenes) there m ms =
    go (overall-Decides t s m) (any_scene_above-Decides t (c ∷ scenes) ms)
      (all_scenes-Answers t p (c ∷ scenes) ms)
  where
    go :
        Decides
          (check_overall_bounding_box_for_necessity_of_pyramid s t)
          (IsLarge t s.bounding_box_layer0_only)
        → Decides
            (any_scene_above (c ∷ scenes) t)
            (AnyScene (λ s. IsLarge t s.bounding_box_layer0) (c ∷ scenes))
        → Answers false
            (all_scenes_have_pyramid (c ∷ scenes) p t)
            (AnyScene (Lacks p t) (c ∷ scenes))
        → Decides
            (needs_pyramid s p t)
            (IsLarge t s.bounding_box_layer0_only × ScenesLack p t (c ∷ scenes))
    go (false, e, i) _ _ = (false, rw e, (λ h. cc, λ h. i.1 h.0))
    go (true, e, i) (false, e', i') _ =
        (false, rw (e, there, e'), (λ h. cc, λ h. i'.1 (Lacks-IsLarge p t (c ∷ scenes) h.1)))
    go (true, e, i) (true, e', i') (b, e'', i'') = (
      not b,
      ground (arith, e, e', e'', there),
      (λ h. (i.0 refl, i''.0 (ground arith)), λ h. ground (arith, i''.1 h.1)),
    )

-- On statistics without negative extents `needs_pyramid` returns, and answers `true` just when the
-- document is larger than the threshold and either has no scenes and no pyramid layer, or has a
-- scene larger than the threshold that has no pyramid layer. A pyramid layer is one above layer 0
-- with at least one subblock, in the entry of the scene, or in that of the whole document.
pub needs_pyramid-Needs :
    (s : SubBlockStatistics) (p : PyramidStatistics) (t : ThresholdParameters)
    → IsMeasured s.bounding_box_layer0_only
    → AllMeasured s.scene_bounding_boxes
    → Decides (needs_pyramid s p t) (Needs s p t)
needs_pyramid-Needs s p t m ms = needs-cases s p t s.scene_bounding_boxes refl m ms

-- A document whose overall bounding box has a negative extent, such as an empty document, makes
-- `needs_pyramid` throw unless its width alone is above the threshold.
pub needs_pyramid-narrowing_error :
    (s : SubBlockStatistics) (p : PyramidStatistics) (t : ThresholdParameters)
    → (s.bounding_box_layer0_only.w <ℤ pos 0)
      ⊎ ((s.bounding_box_layer0_only.w ≤ℤ pos t.max_extent_of_image)
          × (s.bounding_box_layer0_only.h <ℤ pos 0))
    → needs_pyramid s p t ≡ err narrowing_error
unfolding needs_pyramid check_overall_bounding_box_for_necessity_of_pyramid
    is_rectangle_above_threshold narrow_u32
needs_pyramid-narrowing_error s p t h = ground arith
