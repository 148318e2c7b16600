-- ===== src/Planes/Regions.antt =====
-- The regions that the range-for over the planes is given: each plane of the bounds, once.
use native.Mathlib.Nat.{zero-div, zero-mod}
use czi_pyramidizer.Prelude.{
  ◌-◌, ℕ, zero, suc, ◌+◌, ◌<◌, ◌≡◌, refl, ap, ◌∙◌, sym, ◌⊎◌, inl, inr, List, [], ◌∷◌, Option,
  Option-cases, none, some, some_injective, true, arith, ◌==◌, subst, Bool-cases, length, get_elem?,
  ==_iff,
}
use czi_pyramidizer.Prelude.Int.{ℤ, pos_part}
use czi_pyramidizer.Prelude.Outcome.{Error, invalid_argument, ok, err}
use czi_pyramidizer.CheckForPyramid.{SubBlockStatistics}
use czi_pyramidizer.Dimensions.{
  DimensionIndex, dim_s, dim_c, dim_z, dim_t, dim_r, dim_i, dim_h, dim_v, dim_b, code,
  code_injective, Interval, Dimensions, start_of,
}
use czi_pyramidizer.Planes.{
  PlaneEnumerator, PyramidRegion, order_of_dimensions_to_iterate, other_dimensions,
  all_scenes_have_boxes, any_interval, plane_enumerator, first_plane, planes_from, count_planes,
  pyramid_regions,
}
use czi_pyramidizer.Planes.Digits.{
  NotIn, coordinate_at, coordinate_at-none, coordinate_at-some, coordinate_at_other,
}
use czi_pyramidizer.Planes.Steps.{plus_none}
use czi_pyramidizer.Planes.Numbers.{
  Fits, OpenIn, number, number-lt-count, coordinate_at-number, number-coordinate_at,
}
use czi_pyramidizer.Planes.Ends.{first_plane_position}
use czi_pyramidizer.Planes.Enumeration.{
  IsPlane, IsRectOf, IsRegion, IsChecked, AllSized, order-AllDistinct, plane_at, proper,
  first_plane-AllFit, plane_at-AllFit, AreRegions, planes_from_lem, region_at,
}

elem_there :
    {A : Type 0} (xs : List A) (j : ℕ) → j < length xs → (x : A) × (get_elem? xs j ≡ some x)
elem_there [] j h = absurd (omega arith)
elem_there (x ∷ xs) zero h = (x, refl)
elem_there (x ∷ xs) (suc j) h = elem_there xs j (omega arith)

elem_bound : {A : Type 0} (xs : List A) (j : ℕ) (x : A) → get_elem? xs j ≡ some x → j < length xs
elem_bound [] j x h = cc h
elem_bound (y ∷ xs) zero x h = omega arith
elem_bound (y ∷ xs) (suc j) x h = omega (arith, elem_bound xs j x h)

ok_injective : {A : Type 0} {a b : A} → ok a ≡ ok b → a ≡ b
ok_injective h = cc h

no_result : {A : Type 0} {x : Error} {a : A} → err x ≡ ok a → ⊥
no_result h = cc h

b-NotIn_order : NotIn dim_b order_of_dimensions_to_iterate
b-NotIn_order = omega arith

no_position : (o : Option ℤ) → Fits none o → o ≡ none
no_position none f = refl
no_position (some v) f = absurd f

module _ (dims : Dimensions) (bounds : dims.Bounds) where
  open dims use {Coordinate, try_get_position, set, try_get_interval, set_position, same_positions}

  set_same :
      (c : Coordinate) (d : DimensionIndex) (v : ℤ) → try_get_position c d ≡ some v → set c d v ≡ c
  set_same c d v h = same_positions (set c d v) c λ e. elim (Bool-cases (code d == code e)) [
    | inl same ↦
        set_position c d v e
        ∙ rw same (
            sym h
            ∙ ap (try_get_position c) (code_injective d e ((==_iff (code d) (code e)).0 same)))
    | inr other ↦ set_position c d v e ∙ rw other refl
  ]

  -- The number 0 has every dimension at its start.
  coordinate_at_zero :
      (ds : List DimensionIndex) (c : Coordinate)
      → ((d : DimensionIndex) → try_get_position c d ≡ start_of (try_get_interval bounds d))
      → coordinate_at dims bounds ds 0 c ≡ c
  unfolding coordinate_at
  coordinate_at_zero [] c h = refl
  coordinate_at_zero (d ∷ ds) c h = elim (Option-cases (try_get_interval bounds d)) [
    | inl n ↦ coordinate_at-none dims bounds ds 0 c d n ∙ coordinate_at_zero ds c h
    | inr (i, n) ↦
        coordinate_at-some dims bounds ds 0 c d i n
        ∙ rw
            (
              zero-div (pos_part i.1),
              zero-mod (pos_part i.1),
              plus_none i.0,
              set_same c d i.0 (h d ∙ ap start_of n),
            )
            (coordinate_at_zero ds c h)
  ]

  abbrev order : List DimensionIndex
  order = order_of_dimensions_to_iterate

  -- A plane differs from `begin` in the dimensions of the order at most.
  plane_agrees :
      (p : Coordinate)
      → IsPlane dims bounds p
      → (e : DimensionIndex)
      → OpenIn dims bounds order e
        ⊎ (try_get_position (first_plane dims bounds) e ≡ try_get_position p e)
  plane_agrees p plane e = elim (Option-cases (try_get_interval bounds e)) [
    | inl n ↦ inr (
        first_plane_position dims bounds e
        ∙ ap start_of n
        ∙ sym (no_position _ (subst (λ o. Fits o (try_get_position p e)) n (plane.fits e))))
    | inr (i, n) ↦ opened e i n
  ]
    where
      opened :
          (e : DimensionIndex) (i : Interval)
          → try_get_interval bounds e ≡ some i
          → OpenIn dims bounds order e
            ⊎ (try_get_position (first_plane dims bounds) e ≡ try_get_position p e)
      opened dim_s i n = inl (inl (refl, (i, n)))
      opened dim_c i n = inl (inr (inl (refl, (i, n))))
      opened dim_z i n = inl (inr (inr (inl (refl, (i, n)))))
      opened dim_t i n = inl (inr (inr (inr (inl (refl, (i, n))))))
      opened dim_r i n = inl (inr (inr (inr (inr (inl (refl, (i, n)))))))
      opened dim_i i n = inl (inr (inr (inr (inr (inr (inl (refl, (i, n))))))))
      opened dim_h i n = inl (inr (inr (inr (inr (inr (inr (inl (refl, (i, n)))))))))
      opened dim_v i n = inl (inr (inr (inr (inr (inr (inr (inr (inl (refl, (i, n))))))))))
      opened dim_b i n = inr (first_plane_position dims bounds dim_b ∙ sym plane.b_start)

  -- A plane is the coordinate of its number.
  plane_at-number :
      (p : Coordinate)
      → IsPlane dims bounds p
      → coordinate_at dims bounds order (number dims bounds order p) (first_plane dims bounds) ≡ p
  plane_at-number p plane =
      coordinate_at-number dims bounds order p (first_plane dims bounds) plane.fits
        (plane_agrees p plane)

-- What a successful constructor has checked.
plane_enumerator-IsChecked :
    (dims : Dimensions) (statistics : SubBlockStatistics) (bounds : dims.Bounds)
    (e : PlaneEnumerator dims)
    → plane_enumerator dims statistics bounds ≡ ok e
    → (record { statistics = statistics; dim_bounds = bounds } ≡ e)
      × IsChecked dims (record { statistics = statistics; dim_bounds = bounds })
unfolding plane_enumerator
plane_enumerator-IsChecked dims statistics bounds e h =
    elim (Bool-cases (any_interval dims bounds other_dimensions)) [
      | inl any ↦ elim (Option-cases (dims.try_get_interval bounds dim_s)) [
        | inl n ↦ (
          ok_injective (sym (rw (any, n) refl) ∙ h),
          record { some_dimension = any; scenes = λ i m. absurd (cc (n, m)) },
        )
        | inr (i, n) ↦
            elim (Bool-cases
              (all_scenes_have_boxes (pos_part i.1) i.0 statistics.scene_bounding_boxes)) [
                | inl all ↦ (
                  ok_injective (sym (rw (any, n, all) refl) ∙ h),
                  record {
                    some_dimension = any;
                    scenes = λ k m.
                        subst
                          (λ x.
                            all_scenes_have_boxes (pos_part x.1) x.0 statistics.scene_bounding_boxes
                            ≡ true)
                          (some_injective (sym n ∙ m)) all;
                  },
                )
                | inr some_lack ↦
                    absurd
                      (no_result {x = invalid_argument} (sym (rw (any, n, some_lack) refl) ∙ h))
              ]
      ]
      | inr lacking ↦ absurd (no_result {x = invalid_argument} (sym (rw lacking refl) ∙ h))
    ]

module _ (dims : Dimensions) (e : PlaneEnumerator dims) (checked : IsChecked dims e)
    (sized : AllSized dims e.dim_bounds) where
  open dims use {Coordinate, try_get_position}

  abbrev dimensions : List DimensionIndex
  dimensions = order_of_dimensions_to_iterate

  abbrev count : ℕ
  count = count_planes dims e.dim_bounds dimensions

  abbrev at : ℕ → Coordinate
  at k = plane_at dims e checked sized k

  at-IsPlane : (k : ℕ) → IsPlane dims e.dim_bounds (at k)
  at-IsPlane k = record {
    fits = plane_at-AllFit dims e checked sized k;
    b_start =
        coordinate_at_other dims e.dim_bounds dimensions k (first_plane dims e.dim_bounds) dim_b
          b-NotIn_order
        ∙ first_plane_position dims e.dim_bounds dim_b;
  }

  count_positive : 0 < count
  count_positive = omega (
    arith,
    number-lt-count dims e.dim_bounds dimensions (first_plane dims e.dim_bounds)
        (first_plane-AllFit dims e checked sized),
  )

  abbrev num : Coordinate → ℕ
  num = number dims e.dim_bounds dimensions

  num-at : (k : ℕ) → k < count → num (at k) ≡ k
  num-at k h =
      number-coordinate_at dims e.dim_bounds dimensions k (first_plane dims e.dim_bounds)
        order-AllDistinct (proper dims e checked sized) h

  regions :
      (rs : List (PyramidRegion dims)) × (pyramid_regions dims e ≡ ok rs)
      × (length rs ≡ count)
      × AreRegions dims e checked sized 0 rs
  unfolding pyramid_regions
  regions =
      let n : ℕ = count - 1 in
      let more : suc n ≡ count = omega (arith, count_positive) in
      let start : at 0 ≡ first_plane dims e.dim_bounds =
        coordinate_at_zero dims e.dim_bounds dimensions (first_plane dims e.dim_bounds)
          (first_plane_position dims e.dim_bounds) in
      let (rs, result, len, all) = planes_from_lem dims e checked sized n 0 (omega (arith, more)) in
      (
        rs,
        ap (λ m. planes_from dims m e (first_plane dims e.dim_bounds)) (fuel n more)
            ∙ ap (planes_from dims (suc (suc n)) e) (sym start)
            ∙ result,
        len ∙ more,
        all,
      )
    where
      fuel : (n : ℕ) → suc n ≡ count → count + 1 ≡ suc (suc n)
      fuel n h = omega (arith, h)

  -- The region at a place is that of the plane of this number.
  stands_at :
      (rs : List (PyramidRegion dims)) (j : ℕ) (r : PyramidRegion dims)
      → AreRegions dims e checked sized 0 rs
      → get_elem? rs j ≡ some r
      → (r.plane_coordinate ≡ at j) × IsRegion dims e.statistics e.dim_bounds r
  stands_at rs j r all h =
      let (same, rect) = region_at dims e checked sized 0 rs j r all h in
      let there : at (0 + j) ≡ at j = ap at (omega arith) in
      (
        same ∙ there,
        record {
          plane = subst (IsPlane dims e.dim_bounds) (sym (same ∙ there)) (at-IsPlane j);
          rect_is =
              subst (λ c. IsRectOf dims e.statistics (try_get_position c dim_s) r.rect) (sym same)
                rect;
        },
      )

  -- Each plane stands at its number, and nowhere else.
  place_of :
      (rs : List (PyramidRegion dims)) (p : Coordinate)
      → AreRegions dims e checked sized 0 rs
      → length rs ≡ count
      → IsPlane dims e.dim_bounds p
      → (r : PyramidRegion dims) × (get_elem? rs (num p) ≡ some r) × (r.plane_coordinate ≡ p)
  place_of rs p all len plane =
      let less = number-lt-count dims e.dim_bounds dimensions p plane.fits in
      let (r, there) = elem_there rs (num p) (omega (arith, less, len)) in
      (r, there, (stands_at rs (num p) r all there).0 ∙ plane_at-number dims e.dim_bounds p plane)

  only_place :
      (rs : List (PyramidRegion dims)) (p : Coordinate) (j : ℕ) (r : PyramidRegion dims)
      → AreRegions dims e checked sized 0 rs
      → length rs ≡ count
      → get_elem? rs j ≡ some r
      → r.plane_coordinate ≡ p
      → j ≡ num p
  only_place rs p j r all len there same =
      sym (num-at j (omega (arith, elem_bound rs j r there, len)))
      ∙ ap num (sym (stands_at rs j r all there).0 ∙ same)

-- A plane is in the list, in one place.
pub record IsOnceIn (dims : Dimensions) (p : dims.Coordinate) (rs : List (PyramidRegion dims))
    : Type 0 where
  pub place : ℕ
  pub region : PyramidRegion dims
  pub there : get_elem? rs place ≡ some region
  pub is_region_of : region.plane_coordinate ≡ p
  pub only :
      (i : ℕ) (r : PyramidRegion dims)
      → get_elem? rs i ≡ some r
      → r.plane_coordinate ≡ p
      → i ≡ place

-- The regions of all planes of the bounds: each is a plane's, with the box of its scene, or with
-- the document's where there are no scenes, and each plane has one.
pub record Enumerates (dims : Dimensions) (statistics : SubBlockStatistics) (bounds : dims.Bounds)
    (rs : List (PyramidRegion dims)) : Type 0 where
  pub many : length rs ≡ count_planes dims bounds order_of_dimensions_to_iterate
  pub each :
      (j : ℕ) (r : PyramidRegion dims) → get_elem? rs j ≡ some r → IsRegion dims statistics bounds r
  pub every : (p : dims.Coordinate) → IsPlane dims bounds p → IsOnceIn dims p rs

-- The range-for over the planes of bounds, all of whose intervals have positions, ends: its body is
-- given the regions of the planes, each plane once. The enumerator is any that the constructor made.
pub pyramid_regions-Enumerates :
    (dims : Dimensions) (statistics : SubBlockStatistics) (bounds : dims.Bounds)
    (e : PlaneEnumerator dims)
    → plane_enumerator dims statistics bounds ≡ ok e
    → AllSized dims bounds
    → (rs : List (PyramidRegion dims)) × (pyramid_regions dims e ≡ ok rs)
      × Enumerates dims statistics bounds rs
pyramid_regions-Enumerates dims statistics bounds e made sized =
    let (same, checked) = plane_enumerator-IsChecked dims statistics bounds e made in
    let f : PlaneEnumerator dims = record { statistics = statistics; dim_bounds = bounds } in
    let (rs, result, len, all) = regions dims f checked sized in
    (
      rs,
      ap (pyramid_regions dims) (sym same) ∙ result,
      record {
        many = len;
        each = λ j r h. (stands_at dims f checked sized rs j r all h).1;
        every = λ p plane.
            let (r, there, of_p) = place_of dims f checked sized rs p all len plane in
            record {
              place = num dims f checked sized p;
              region = r;
              there = there;
              is_region_of = of_p;
              only = λ i r there at_p. only_place dims f checked sized rs p i r all len there at_p;
            };
      },
    )
