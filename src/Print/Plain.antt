-- ===== src/Print/Plain.antt =====
-- What is printed to a file and to a terminal is the same but for the colours.
use czi_pyramidizer.Prelude.{ℕ, ◌≡◌, refl, List, [], ◌∷◌, Option, none, some, true, false}
use czi_pyramidizer.Prelude.Int.{ℤ}
use czi_pyramidizer.Rect.{IntRect}
use czi_pyramidizer.Dimensions.{DimensionIndex, Interval}
use czi_pyramidizer.OutputTile.{CompressionMode}
use czi_pyramidizer.Context.{Context}
use czi_pyramidizer.Console.{
  Text, ConsoleCall, set_color, move_up, write_std_out, write_line_std_out, write_line_std_err,
}
use czi_pyramidizer.Print.{
  SceneBoxes, DocumentStatistics, PrintedOptions, set_output_color, print_int_rect, print_m_index,
  print_bounds, print_scenes, print_scene_boxes, print_source_document_info, print_compression_mode,
  print_operational_parameters,
}

-- The calls without those that set a colour.
abbrev pub without_colors : List ConsoleCall → List ConsoleCall
without_colors [] = []
without_colors (set_color foreground background ∷ calls) = without_colors calls
without_colors (move_up lines ∷ calls) = move_up lines ∷ without_colors calls
without_colors (write_std_out text ∷ calls) = write_std_out text ∷ without_colors calls
without_colors (write_line_std_out text ∷ calls) = write_line_std_out text ∷ without_colors calls
without_colors (write_line_std_err text ∷ calls) = write_line_std_err text ∷ without_colors calls

-- Printing commutes with the removal of the colours.
print_int_rect_plain :
    (rect : IntRect) (later : List ConsoleCall)
    → without_colors (print_int_rect true rect later)
      ≡ print_int_rect false rect (without_colors later)
unfolding print_int_rect set_output_color
print_int_rect_plain rect later = refl

print_m_index_plain :
    (m_index : Option (ℤ × ℤ)) (later : List ConsoleCall)
    → without_colors (print_m_index true m_index later)
      ≡ print_m_index false m_index (without_colors later)
unfolding print_m_index set_output_color
print_m_index_plain none later = refl
print_m_index_plain (some m) later = refl

module _ (dimension_to_char : DimensionIndex → ℕ) where
  print_bounds_plain :
      (entries : List (DimensionIndex × Interval)) (later : List ConsoleCall)
      → without_colors (print_bounds true dimension_to_char entries later)
        ≡ print_bounds false dimension_to_char entries (without_colors later)
  unfolding print_bounds set_output_color
  print_bounds_plain [] later = refl
  print_bounds_plain (entry ∷ entries) later = rw (print_bounds_plain entries later) refl

  print_scenes_plain :
      (scenes : List SceneBoxes) (later : List ConsoleCall)
      → without_colors (print_scenes true dimension_to_char scenes later)
        ≡ print_scenes false dimension_to_char scenes (without_colors later)
  unfolding print_scenes print_int_rect set_output_color
  print_scenes_plain [] later = refl
  print_scenes_plain (scene ∷ scenes) later = rw (print_scenes_plain scenes later) refl

  print_scene_boxes_plain :
      (scenes : List SceneBoxes) (later : List ConsoleCall)
      → without_colors (print_scene_boxes true dimension_to_char scenes later)
        ≡ print_scene_boxes false dimension_to_char scenes (without_colors later)
  unfolding print_scene_boxes set_output_color
  print_scene_boxes_plain [] later = refl
  print_scene_boxes_plain (scene ∷ scenes) later =
      rw (print_scenes_plain (scene ∷ scenes) later) refl

  -- The information on a document is printed alike to a file, where no colour is set, and to a
  -- terminal, but for the colours.
  pub print_source_document_info_plain :
      (statistics : DocumentStatistics)
      → without_colors (print_source_document_info true dimension_to_char statistics)
        ≡ print_source_document_info false dimension_to_char statistics
  unfolding print_source_document_info print_int_rect set_output_color
  print_source_document_info_plain statistics =
      simp (print_m_index_plain, print_bounds_plain, print_scene_boxes_plain)

print_compression_mode_plain :
    {Parameters : Type 0} (name : CompressionMode → Text) (mode : CompressionMode)
    (determined : Option (CompressionMode × Option Parameters)) (later : List ConsoleCall)
    → without_colors (print_compression_mode true name mode determined later)
      ≡ print_compression_mode false name mode determined (without_colors later)
unfolding print_compression_mode
print_compression_mode_plain name CompressionMode.invalid none later = refl
print_compression_mode_plain name CompressionMode.invalid (some d) later = refl
print_compression_mode_plain name CompressionMode.un_compressed determined later = refl
print_compression_mode_plain name CompressionMode.jpg determined later = refl
print_compression_mode_plain name CompressionMode.jpg_xr determined later = refl
print_compression_mode_plain name CompressionMode.zstd0 determined later = refl
print_compression_mode_plain name CompressionMode.zstd1 determined later = refl

-- The same of the parameters of the operation.
pub print_operational_parameters_plain :
    {Parameters : Type 0} (name : CompressionMode → Text) (context : Context Parameters)
    (options : PrintedOptions) (color : Text)
    → without_colors (print_operational_parameters true name context options color)
      ≡ print_operational_parameters false name context options color
unfolding print_operational_parameters set_output_color
print_operational_parameters_plain name context options color = simp (print_compression_mode_plain)
