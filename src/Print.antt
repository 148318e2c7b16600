-- ===== src/Print.antt =====
-- libpyramidizer/src/pyramidizer_operation.cpp: what is printed before a run. libCZI's names of
-- dimensions and compression modes, and the text of a colour, are parameters.
pub mod Plain
use czi_pyramidizer.Prelude.{
  ℕ, List, [], ◌∷◌, ◌++◌, Option, none, some, Bool, true, false, if◌then◌else◌,
}
use czi_pyramidizer.Prelude.Int.{ℤ}
use czi_pyramidizer.Rect.{IntRect}
use czi_pyramidizer.Dimensions.{DimensionIndex, Interval}
use czi_pyramidizer.OutputTile.{CompressionMode}
use czi_pyramidizer.Context.{Context}
use czi_pyramidizer.Console.{
  Text, codes, ConsoleColor, ConsoleCall, set_color, write_std_out, write_line_std_out, to_string,
  to_string_ℤ,
}

pub record SceneBoxes : Type 0 where
  pub scene : ℤ
  pub bounding_box : IntRect
  pub bounding_box_layer0 : IntRect

-- The statistics that are printed; the M-index, from least to greatest, is `none` where it is invalid.
pub record DocumentStatistics : Type 0 where
  pub sub_block_count : ℤ
  pub bounding_box : IntRect
  pub bounding_box_layer0_only : IntRect
  pub m_index : Option (ℤ × ℤ)
  pub dim_bounds : List (DimensionIndex × Interval)
  pub scene_boxes : List SceneBoxes

-- The option texts that are printed.
pub record PrintedOptions : Type 0 where
  pub source_czi_uri : Text
  pub destination_czi_uri : Text
  pub max_top_level_pyramid_size : ℕ

module _ (is_terminal : Bool) where
  -- The six functions that set a colour, which differ in the colour alone.
  unfoldable pub set_output_color : ConsoleColor → List ConsoleCall → List ConsoleCall
  set_output_color color later =
      if is_terminal then set_color color ConsoleColor.default ∷ later else later

  abbrev pub header1 : List ConsoleCall → List ConsoleCall
  header1 later = set_output_color ConsoleColor.light_yellow later

  abbrev pub header2 : List ConsoleCall → List ConsoleCall
  header2 later = set_output_color ConsoleColor.light_cyan later

  abbrev pub value : List ConsoleCall → List ConsoleCall
  value later = set_output_color ConsoleColor.dark_green later

  abbrev pub label : List ConsoleCall → List ConsoleCall
  label later = set_output_color ConsoleColor.dark_white later

  abbrev pub reset : List ConsoleCall → List ConsoleCall
  reset later = set_output_color ConsoleColor.default later

  -- A label and a value.
  abbrev pub labelled : Text → Text → List ConsoleCall → List ConsoleCall
  labelled name text later = label (write_std_out name ∷ value (write_std_out text ∷ later))

  abbrev pub labelled_line : Text → Text → List ConsoleCall → List ConsoleCall
  labelled_line name text later =
      label (write_std_out name ∷ value (write_line_std_out text ∷ later))

  unfoldable pub print_int_rect : IntRect → List ConsoleCall → List ConsoleCall
  print_int_rect rect later = labelled (codes "X=") (to_string_ℤ rect.x) (
      labelled (codes " Y=") (to_string_ℤ rect.y) (
        labelled (codes " W=") (to_string_ℤ rect.w)
          (labelled (codes " H=") (to_string_ℤ rect.h) later)))

  unfoldable pub print_m_index : Option (ℤ × ℤ) → List ConsoleCall → List ConsoleCall
  print_m_index none later = value (write_std_out (codes "not available") ∷ later)
  print_m_index (some m) later =
      labelled (codes "min=") (to_string_ℤ m.0) (labelled (codes " max=") (to_string_ℤ m.1) later)

  module _ (dimension_to_char : DimensionIndex → ℕ) where
    unfoldable pub print_bounds :
        List (DimensionIndex × Interval) → List ConsoleCall → List ConsoleCall
    print_bounds [] later = later
    print_bounds ((dim, interval) ∷ entries) later = value (
        write_std_out (codes "  ")
        ∷ write_std_out (dimension_to_char dim ∷ [])
        ∷ labelled (codes " -> start=") (to_string_ℤ interval.0) (
            labelled (codes " size=") (to_string_ℤ interval.1)
              (write_line_std_out [] ∷ print_bounds entries later)))

    unfoldable pub print_scenes : List SceneBoxes → List ConsoleCall → List ConsoleCall
    print_scenes [] later = later
    print_scenes (scene ∷ scenes) later = labelled (codes "  Scene ") (to_string_ℤ scene.scene) (
        label (
          write_line_std_out (codes ":")
          ∷ label (
              write_std_out (codes "    All   : ")
              ∷ print_int_rect scene.bounding_box (
                  write_line_std_out []
                  ∷ label (
                      write_std_out (codes "    Layer0: ")
                      ∷ print_int_rect scene.bounding_box_layer0
                          (write_line_std_out [] ∷ print_scenes scenes later))))))

    -- The heading is left out where there are no scenes.
    unfoldable pub print_scene_boxes : List SceneBoxes → List ConsoleCall → List ConsoleCall
    print_scene_boxes [] later = later
    print_scene_boxes (scene ∷ scenes) later =
        header2
          (write_line_std_out (codes "Scene-BoundingBoxes:") ∷ print_scenes (scene ∷ scenes) later)

    unfoldable pub print_source_document_info : DocumentStatistics → List ConsoleCall
    print_source_document_info statistics = header1 (
        write_line_std_out (codes "SubBlock-Statistics")
        ∷ write_line_std_out (codes "-------------------")
        ∷ write_line_std_out []
        ∷ label (
            write_std_out (codes "SubBlock-Count: ")
            ∷ value (
                write_line_std_out (to_string_ℤ statistics.sub_block_count)
                ∷ label (
                    write_std_out (codes "Bounding-Box (All)   : ")
                    ∷ print_int_rect statistics.bounding_box (
                        write_line_std_out []
                        ∷ label (
                            write_std_out (codes "Bounding-Box (Layer0): ")
                            ∷ print_int_rect statistics.bounding_box_layer0_only (
                                write_line_std_out []
                                ∷ label (
                                    write_std_out (codes "M-Index: ")
                                    ∷ print_m_index statistics.m_index (
                                        write_line_std_out []
                                        ∷ header2 (
                                            write_line_std_out (codes "Bounds:")
                                            ∷ print_bounds statistics.dim_bounds (
                                                print_scene_boxes statistics.scene_boxes
                                                  (reset (write_line_std_out [] ∷ [])))))))))))))

  module _ (compression_mode_to_informal_string : CompressionMode → Text) where
    abbrev from_source :
        {Parameters : Type 0}
        → Option (CompressionMode × Option Parameters)
        → List ConsoleCall
        → List ConsoleCall
    from_source none later =
        write_line_std_out (codes "not specified (using 'uncompressed')") ∷ later
    from_source (some determined) later =
        write_std_out (compression_mode_to_informal_string determined.0)
        ∷ write_line_std_out (codes " (from source file)")
        ∷ later

    abbrev from_arguments : CompressionMode → List ConsoleCall → List ConsoleCall
    from_arguments mode later =
        write_std_out (compression_mode_to_informal_string mode)
        ∷ write_line_std_out (codes " (from arguments)")
        ∷ later

    unfoldable pub print_compression_mode :
        {Parameters : Type 0}
        → CompressionMode
        → Option (CompressionMode × Option Parameters)
        → List ConsoleCall
        → List ConsoleCall
    print_compression_mode CompressionMode.invalid determined later = from_source determined later
    print_compression_mode mode determined later = from_arguments mode later

    unfoldable pub print_operational_parameters :
        {Parameters : Type 0} → Context Parameters → PrintedOptions → Text → List ConsoleCall
    print_operational_parameters context options background_color = header1 (
        write_line_std_out (codes "Operational Parameters")
        ∷ write_line_std_out (codes "----------------------")
        ∷ write_line_std_out []
        ∷ labelled_line (codes "Source-CZI-URI: ") options.source_czi_uri (
            labelled_line (codes "Destination-CZI-URI: ") options.destination_czi_uri (
              labelled_line (codes "Pyramid-Tile-Size: ")
                (to_string context.command_line_options.pyramid_tile_width)
                (labelled_line (codes "Max-Top-Level-Pyramid-Size: ")
                  (to_string options.max_top_level_pyramid_size)
                  (label (
                    write_std_out (codes "Compression-Mode: ")
                    ∷ value (
                        print_compression_mode context.command_line_options.compression_mode
                          context.compression_mode_determined_from_source
                          (labelled_line (codes "Background Color: ") background_color
                            (reset (write_line_std_out [] ∷ []))))))))))
