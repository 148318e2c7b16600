-- ===== src/Planes/Ends.antt =====
-- The two ends of the enumeration of the planes, and what its constructor checks.
use native.Mathlib.Nat.{mod-lt}
use czi_pyramidizer.Prelude.{
  some_injective, Option-cases, ℕ, zero, suc, ◌%◌, ◌<◌, ◌≡◌, ◌≢◌, refl, ap, ◌∙◌, sym, inl, inr,
  List, [], ◌∷◌, none, some, Bool, true, false, arith, subst, if◌then◌else◌,
}
use czi_pyramidizer.Prelude.Int.{
  ℤ, pos, pos_part, neg_part, ◌+ℤ◌, ◌-ℤ◌, ◌<ℤ◌, int_laws, eq_of_parts, parts_apart,
}
use czi_pyramidizer.Rect.{IntRect}
use czi_pyramidizer.CheckForPyramid.{SceneBoundingBox}
use czi_pyramidizer.Dimensions.{DimensionIndex, Interval, Dimensions, last_start, start_of}
use czi_pyramidizer.Planes.{
  order_of_dimensions_to_iterate, find_scene, all_scenes_have_boxes, any_interval, after_end_from,
  set_starts, first_plane,
}
use czi_pyramidizer.Planes.Digits.{
  NotIn, AllDistinct, IsProper, AllProper, IsBlank, coordinate_at, coordinate_at-none,
  coordinate_at_first,
}
use czi_pyramidizer.Planes.Steps.{plus_none}

all_scenes-none :
    (count : ℕ) (i : ℤ) (boxes : List SceneBoundingBox)
    → find_scene i boxes ≡ none
    → all_scenes_have_boxes (suc count) i boxes ≡ false
unfolding all_scenes_have_boxes
all_scenes-none count i boxes h = rw (all_scenes_have_boxes, h) refl

all_scenes-some :
    (count : ℕ) (i : ℤ) (boxes : List SceneBoundingBox) (box : IntRect)
    → find_scene i boxes ≡ some box
    → all_scenes_have_boxes (suc count) i boxes ≡ all_scenes_have_boxes count (i +ℤ pos 1) boxes
unfolding all_scenes_have_boxes
all_scenes-some count i boxes box h = rw (all_scenes_have_boxes, h) refl

-- The constructor checked every scene of the interval.
pub scene_found :
    (count r : ℕ) (i : ℤ) (boxes : List SceneBoundingBox)
    → all_scenes_have_boxes count i boxes ≡ true
    → r < count
    → (box : IntRect) × (find_scene (i +ℤ pos r) boxes ≡ some box)
scene_found zero r i boxes h l = absurd (omega arith)
scene_found (suc count) zero i boxes h l = elim (Option-cases (find_scene i boxes)) [
  | inl n ↦ absurd (cc (h, all_scenes-none count i boxes n))
  | inr (box, e) ↦ (box, ap (λ z. find_scene z boxes) (plus_none i) ∙ e)
]
scene_found (suc count) (suc r) i boxes h l = elim (Option-cases (find_scene i boxes)) [
  | inl n ↦ absurd (cc (h, all_scenes-none count i boxes n))
  | inr (box, e) ↦
      let (found, f) =
        scene_found count r (i +ℤ pos 1) boxes (sym (all_scenes-some count i boxes box e) ∙ h)
          (omega arith) in
      (found, ap (λ z. find_scene z boxes) (eq_of_parts _ _ (omega int_laws)) ∙ f)
]

-- A digit is not the size.
sum_apart : (s n : ℤ) (r : ℕ) → r < pos_part n → s +ℤ pos r ≡ s +ℤ n → ⊥
sum_apart s n r h e =
    let a : pos_part (s +ℤ pos r) ≡ pos_part (s +ℤ n) = ap pos_part e in
    let b : neg_part (s +ℤ pos r) ≡ neg_part (s +ℤ n) = ap neg_part e in
    absurd (omega (int_laws, parts_apart n))

module _ (dims : Dimensions) (bounds : dims.Bounds) where
  open dims use {
    Coordinate, empty, try_get_position, set, try_get_interval, set_position, compare_differs,
    compare_differs_iff, same_positions,
  }

  abbrev order : List DimensionIndex
  order = order_of_dimensions_to_iterate

  pub set_starts_position :
      (entries : List (DimensionIndex × Interval)) (c : Coordinate) (d : DimensionIndex)
      → try_get_position (set_starts dims entries c) d ≡ last_start d entries (try_get_position c d)
  unfolding set_starts
  set_starts_position [] c d = refl
  set_starts_position ((e, interval) ∷ entries) c d =
      set_starts_position entries (set c e interval.0) d
      ∙ ap (last_start d entries) (set_position c e interval.0 d)

  -- `begin` has each dimension at its start.
  pub first_plane_position :
      (d : DimensionIndex)
      → try_get_position (first_plane dims bounds) d ≡ start_of (try_get_interval bounds d)
  unfolding first_plane
  first_plane_position d =
      set_starts_position (dims.enum_valid_dimensions bounds) empty d
      ∙ ap (last_start d (dims.enum_valid_dimensions bounds)) (dims.empty_position d)
      ∙ dims.enum_valid_start bounds d

  pub first_plane-IsBlank : IsBlank dims bounds (first_plane dims bounds)
  first_plane-IsBlank d n = first_plane_position d ∙ ap start_of n

  after_end-none :
      (ds : List DimensionIndex) (is_first : Bool) (c : Coordinate) (d : DimensionIndex)
      → try_get_interval bounds d ≡ none
      → after_end_from dims bounds is_first c (d ∷ ds) ≡ after_end_from dims bounds is_first c ds
  unfolding after_end_from
  after_end-none ds is_first c d n = rw (after_end_from, n) refl

  abbrev end_position : Bool → Interval → ℤ
  end_position is_first i = if is_first then i.0 +ℤ i.1 else i.0 +ℤ i.1 -ℤ pos 1

  after_end-some :
      (ds : List DimensionIndex) (is_first : Bool) (c : Coordinate) (d : DimensionIndex)
      (i : Interval)
      → try_get_interval bounds d ≡ some i
      → after_end_from dims bounds is_first c (d ∷ ds)
        ≡ after_end_from dims bounds false (set c d (end_position is_first i)) ds
  unfolding after_end_from
  after_end-some ds is_first c d i n = rw (after_end_from, n) refl

  pub any_interval-none :
      (ds : List DimensionIndex) (d : DimensionIndex)
      → try_get_interval bounds d ≡ none
      → any_interval dims bounds (d ∷ ds) ≡ any_interval dims bounds ds
  unfolding any_interval
  any_interval-none ds d n = rw (any_interval, n) refl

  pub any_interval-some :
      (ds : List DimensionIndex) (d : DimensionIndex) (i : Interval)
      → try_get_interval bounds d ≡ some i
      → any_interval dims bounds (d ∷ ds) ≡ true
  unfolding any_interval
  any_interval-some ds d i n = rw (any_interval, n) refl

  after_end_other :
      (ds : List DimensionIndex) (is_first : Bool) (c : Coordinate) (d : DimensionIndex)
      → NotIn d ds
      → try_get_position (after_end_from dims bounds is_first c ds) d ≡ try_get_position c d
  unfolding after_end_from
  after_end_other [] is_first c d h = refl
  after_end_other (e ∷ ds) is_first c d (h, hs) = elim (Option-cases (try_get_interval bounds e)) [
    | inl n ↦ rw (after_end-none ds is_first c e n) (after_end_other ds is_first c d hs)
    | inr (i, n) ↦ rw (after_end-some ds is_first c e i n) (
        after_end_other ds false (set c e (end_position is_first i)) d hs
        ∙ ground (arith, set_position c e (end_position is_first i) d))
  ]

  -- No plane is the coordinate after the end.
  pub before_end :
      (ds : List DimensionIndex) (k : ℕ) (c x : Coordinate)
      → AllDistinct ds
      → AllProper dims bounds ds
      → any_interval dims bounds ds ≡ true
      → coordinate_at dims bounds ds k c ≢ after_end_from dims bounds true x ds
  unfolding any_interval after_end_from
  before_end [] k c x distinct proper any = λ eq. cc any
  before_end (d ∷ ds) k c x (apart, distinct) (p, proper) any =
      elim (Option-cases (try_get_interval bounds d)) [
        | inl n ↦ λ eq.
            before_end ds k c x distinct proper (sym (any_interval-none ds d n) ∙ any)
              (sym (coordinate_at-none dims bounds ds k c d n) ∙ eq ∙ after_end-none ds true x d n)
        | inr (i, n) ↦ λ eq.
            let q : pos 0 <ℤ i.1 = subst IsProper n p in
            let right : try_get_position (after_end_from dims bounds true x (d ∷ ds)) d
                ≡ some (i.0 +ℤ i.1) =
              ap (λ y. try_get_position y d) (after_end-some ds true x d i n)
              ∙ after_end_other ds false (set x d (i.0 +ℤ i.1)) d apart
              ∙ ground (arith, set_position x d (i.0 +ℤ i.1) d) in
            let same : some (i.0 +ℤ pos (k % pos_part i.1)) ≡ some (i.0 +ℤ i.1) =
              sym (coordinate_at_first dims bounds ds k c d i apart n)
              ∙ ap (λ y. try_get_position y d) eq
              ∙ right in
            sum_apart i.0 i.1 (k % pos_part i.1) (mod-lt k (omega arith)) (some_injective same)
      ]
