-- ===== src/CheckForPyramid/Layers.antt =====
-- Which scenes have a pyramid, by the statistics of their layers.
use czi_pyramidizer.Prelude.{
  ◌<◌, ◌≡◌, ◌≢◌, ap, subst, some, Option-cases, ◌↔◌, ◌⊎◌, inl, inr, true, false, List, [], ◌∷◌,
  arith, Bool-cases,
}
use czi_pyramidizer.Prelude.Int.{ℤ, eqb_ℤ, negsuc, pos}
use czi_pyramidizer.CheckForPyramid.{
  PyramidLayerStatistics, PyramidStatistics, find, does_contain_pyramid_layer, scene_has_pyramid,
}

abbrev pub AnyLayer : List PyramidLayerStatistics → Type 0
AnyLayer [] = ⊥
AnyLayer (l ∷ layers) = ((l.is_layer0 ≡ false) × (0 < l.count)) ⊎ AnyLayer layers

-- The first entry of a map under a key.
abbrev pub IsEntry :
    ℤ → List PyramidLayerStatistics → List (ℤ × List PyramidLayerStatistics) → Type 0
IsEntry key layers [] = ⊥
IsEntry key layers (entry ∷ entries) =
    ((entry.0 ≡ key) × (entry.1 ≡ layers)) ⊎ ((entry.0 ≢ key) × IsEntry key layers entries)

-- The entry of a scene has a layer above layer 0 with at least one subblock.
abbrev pub HasPyramid : PyramidStatistics → ℤ → Type 0
HasPyramid p scene =
    (layers : List PyramidLayerStatistics) × IsEntry scene layers p × AnyLayer layers

does_contain_pyramid_layer_iff :
    (layers : List PyramidLayerStatistics)
    → (does_contain_pyramid_layer layers ≡ true) ↔ AnyLayer layers
unfolding does_contain_pyramid_layer
does_contain_pyramid_layer_iff [] = (λ e. cc, λ e. absurd e)
does_contain_pyramid_layer_iff (l ∷ layers) = (
  λ e. ground (arith, (does_contain_pyramid_layer_iff layers).0),
  λ h. ground (arith, (does_contain_pyramid_layer_iff layers).1),
)

eqb_ℤ_iff : (a b : ℤ) → (eqb_ℤ a b ≡ true) ↔ (a ≡ b)
eqb_ℤ_iff (pos a) (pos b) = (λ h. ap pos (ground arith), λ e. ground arith)
eqb_ℤ_iff (pos a) (negsuc b) = (λ h. absurd (ground arith), λ e. cc)
eqb_ℤ_iff (negsuc a) (pos b) = (λ h. absurd (ground arith), λ e. cc)
eqb_ℤ_iff (negsuc a) (negsuc b) = (λ h. ap negsuc (ground arith), λ e. ground arith)

find_iff :
    (key : ℤ) (layers : List PyramidLayerStatistics)
    (entries : List (ℤ × List PyramidLayerStatistics))
    → (find key entries ≡ some layers) ↔ IsEntry key layers entries
unfolding find
find_iff key layers [] = (λ e. cc, λ e. absurd e)
find_iff key layers ((k, v) ∷ entries) = elim (Bool-cases (eqb_ℤ k key)) [
  | inl here ↦
      let same : k ≡ key = (eqb_ℤ_iff k key).0 here in
      rw here
        (λ e. inl (same, cc e), λ h. elim h [ inl e ↦ ap some e.1 | inr e ↦ absurd (e.0 same) ])
  | inr there ↦
      let differ : k ≢ key = λ e. cc ((eqb_ℤ_iff k key).1 e, there) in
      rw there (
        λ e. inr (differ, (find_iff key layers entries).0 e),
        λ h. elim h [ inl e ↦ absurd (differ e.0) | inr e ↦ (find_iff key layers entries).1 e.1 ],
      )
]

scene_has_pyramid_iff :
    (scene : ℤ) (p : PyramidStatistics) → (scene_has_pyramid scene p ≡ true) ↔ HasPyramid p scene
unfolding scene_has_pyramid
scene_has_pyramid_iff scene p = elim (Option-cases (find scene p)) [
  | inl e ↦
      rw (scene_has_pyramid, e) (λ h. cc h, λ h. let k = (find_iff scene h.0 p).1 h.1 in cc (e, k))
  | inr (layers, e) ↦
      rw (scene_has_pyramid, e)
        (
          λ h. (layers, (find_iff scene layers p).0 e, (does_contain_pyramid_layer_iff layers).0 h),
          λ h.
              let k = (find_iff scene h.0 p).1 h.1 in
              let same : h.0 ≡ layers = cc (e, k) in
              (does_contain_pyramid_layer_iff layers).1 (subst AnyLayer same h.2),
        )
]

-- A scene for which no pyramid is found has none.
pub lacks_iff :
    (scene : ℤ) (p : PyramidStatistics)
    → (scene_has_pyramid scene p ≡ false) ↔ (¬ HasPyramid p scene)
lacks_iff scene p = (
  λ e h. cc (e, (scene_has_pyramid_iff scene p).1 h),
  λ n. elim (Bool-cases (scene_has_pyramid scene p)) [
    | inl has ↦ absurd (n ((scene_has_pyramid_iff scene p).0 has))
    | inr lacks ↦ lacks
  ],
)
