-- ===== src/Operation/LayerCounts.antt =====
-- The numbers of layers that the metadata states.
use czi_pyramidizer.Prelude.{
  ℕ, ◌≡◌, refl, ap, ◌∙◌, sym, List, [], ◌∷◌, ◌++◌, Option, none, some, true, false, ◌&&◌,
  if◌then◌else◌, Bool-cases, inl, inr,
}
use czi_pyramidizer.Prelude.Int.{ℤ, eqb_ℤ}
use czi_pyramidizer.CheckForPyramid.{find}
use czi_pyramidizer.Console.{codes}
use czi_pyramidizer.Background.{same_text}
use czi_pyramidizer.Pyramidize.{int_min}
use czi_pyramidizer.Operation.{
  MetadataEdit, MetadataValue, value_bool, value_ui32, value_text, edits_of_scene, metadata_edits,
}

-- The number of layers that the edits state for a scene.
abbrev number_in : MetadataValue → Option ℕ → Option ℕ
number_in (value_bool b) later = later
number_in (value_ui32 n) later = some n
number_in (value_text t) later = later

unfoldable pub stated_layers : ℤ → List MetadataEdit → Option ℕ
stated_layers s [] = none
stated_layers s (e ∷ edits) =
    let later = stated_layers s edits in
    if eqb_ℤ e.scene_index s && same_text e.name (codes "PyramidLayersCount")
    then number_in e.value later
    else later

stated-same :
    (s t : ℤ) (n : ℕ) (edits : List MetadataEdit)
    → eqb_ℤ t s ≡ true
    → stated_layers s (edits_of_scene t n ++ edits) ≡ some n
unfolding stated_layers same_text
stated-same s t n edits h = rw h refl

stated-other :
    (s t : ℤ) (n : ℕ) (edits : List MetadataEdit)
    → eqb_ℤ t s ≡ false
    → stated_layers s (edits_of_scene t n ++ edits) ≡ stated_layers s edits
unfolding stated_layers same_text
stated-other s t n edits h = rw h refl

-- The keys are those of scenes.
abbrev pub AllScenes : List (ℤ × ℕ) → Type 0
AllScenes [] = Unit
AllScenes ((k, n) ∷ entries) = (eqb_ℤ k int_min ≡ false) × AllScenes entries

find-first :
    (key k : ℤ) (v : ℕ) (entries : List (ℤ × ℕ))
    → eqb_ℤ k key ≡ true
    → find key ((k, v) ∷ entries) ≡ some v
unfolding find
find-first key k v entries h = rw (find, h) refl

find-later :
    (key k : ℤ) (v : ℕ) (entries : List (ℤ × ℕ))
    → eqb_ℤ k key ≡ false
    → find key ((k, v) ∷ entries) ≡ find key entries
unfolding find
find-later key k v entries h = rw (find, h) refl

edits-first :
    (k : ℤ) (n : ℕ) (entries : List (ℤ × ℕ))
    → eqb_ℤ k int_min ≡ false
    → metadata_edits ((k, n) ∷ entries) ≡ edits_of_scene k n ++ metadata_edits entries
unfolding metadata_edits
edits-first k n entries h = rw h refl

-- Where every plane has a scene, the metadata that is written states, as the number of layers of a
-- scene, the one that the run has returned for it, and none for a scene that it has not.
pub stated_layers-metadata_edits :
    (s : ℤ) (info : List (ℤ × ℕ))
    → AllScenes info
    → stated_layers s (metadata_edits info) ≡ find s info
unfolding stated_layers metadata_edits find
stated_layers-metadata_edits s [] all = refl
stated_layers-metadata_edits s ((k, n) ∷ entries) (scene, all) =
    ap (stated_layers s) (edits-first k n entries scene) ∙ elim (Bool-cases (eqb_ℤ k s)) [
      | inl same ↦
          stated-same s k n (metadata_edits entries) same ∙ sym (find-first s k n entries same)
      | inr other ↦
          stated-other s k n (metadata_edits entries) other
          ∙ stated_layers-metadata_edits s entries all
          ∙ sym (find-later s k n entries other)
    ]
