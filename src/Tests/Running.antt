-- ===== src/Tests/Running.antt =====
-- The parts of a run besides the pyramid, run and instantiated.
use czi_pyramidizer.Prelude.{
  inl, inr, map, ℕ, ◌≡◌, refl, ◌↔◌, ◌⊎◌, List, [], ◌∷◌, none, some, true, false, arith,
}
use czi_pyramidizer.Prelude.Int.{pos}
use czi_pyramidizer.Prelude.Outcome.{ok, err, runtime_error}
use czi_pyramidizer.Bitmap.{PixelType, Bitmap}
use czi_pyramidizer.CheckForPyramid.{find}
use czi_pyramidizer.Console.{Text, codes, ConsoleCall}
use czi_pyramidizer.OutputTile.{CompressionMode, Codecs, write_pyramid_output_tile}
use czi_pyramidizer.OutputTile.Written.{TileAnswer}
use czi_pyramidizer.SourceMode.{CompressParameters, try_to_determine_compression_mode}
use czi_pyramidizer.SourceMode.Kept.{kept_parameters, write_pyramid_output_tile-kept_mode}
use czi_pyramidizer.Background.{Metadata, determine_whether_background_should_be_white}
use czi_pyramidizer.Background.White.{
  DisplayIsWhite, InfoIsWhite, determine_whether_background_should_be_white_iff,
}
use czi_pyramidizer.Attachments.{
  Attachment, AttachmentCall, copy_attachments, total_count_of_attachments,
}
use czi_pyramidizer.Attachments.Copied.{AllCopies, added, counted, copy_attachments-AllCopies}
use czi_pyramidizer.Operation.{
  metadata_edits, Document, OperationOptions, only_operate_if_pyramid_is_needed, console,
  no_operation_necessary, execute_operation,
}
use czi_pyramidizer.Options.Color.{use_fixed}
use czi_pyramidizer.Operation.Untouched.{execute_operation-untouched}
use czi_pyramidizer.CheckForPyramid.Decision.{Needs}
use czi_pyramidizer.Context.{CommandLineOptions}
use czi_pyramidizer.Operation.LayerCounts.{stated_layers, stated_layers-metadata_edits}
use czi_pyramidizer.Print.{DocumentStatistics, print_source_document_info}
use czi_pyramidizer.Print.Plain.{without_colors, print_source_document_info_plain}
use czi_pyramidizer.Tests.Ops.{rect}

abbrev encode : Bitmap → List ℕ
encode b = b.width ∷ b.height ∷ b.memory 0 ∷ []

abbrev codecs : Codecs CompressParameters
codecs = record {
  jxr_compress = λ b p. ok (encode b);
  compress_zstd0 = λ b p. ok (encode b);
  compress_zstd1 = λ b p. ok (encode b);
}

abbrev pixel : Bitmap
pixel = record {
  pixel_type = PixelType.gray8;
  width = 1;
  height = 1;
  stride = 1;
  size = 1;
  memory = λ i. 255;
}

abbrev modes : List CompressionMode
modes = CompressionMode.zstd0 ∷ CompressionMode.jpg ∷ []

write_pyramid_output_tile-kept_mode_example :
    TileAnswer {C = ℕ} codecs pixel 5
      (rect (pos 4) (pos 6) (pos 2) (pos 2))
      CompressionMode.zstd0
      (kept_parameters CompressionMode.zstd0)
      (write_pyramid_output_tile codecs CompressionMode.invalid none
        (try_to_determine_compression_mode CompressionMode.invalid modes)
        pixel
        5
        (rect (pos 4) (pos 6) (pos 2) (pos 2)))
write_pyramid_output_tile-kept_mode_example =
    write_pyramid_output_tile-kept_mode codecs pixel 5 (rect (pos 4) (pos 6) (pos 2) (pos 2))
      (omega arith) (omega arith) modes

abbrev transmitted_light : Metadata
transmitted_light = record {
  display_settings_channels = some (
      record { name = codes "Channel"; illumination_type = some (some (codes "Transmitted")) }
      ∷ []);
  dimension_channels = none;
}

determine_whether_background_should_be_white_iff_example :
    (determine_whether_background_should_be_white (some transmitted_light) ≡ true)
    ↔ (DisplayIsWhite transmitted_light.display_settings_channels ⊎ InfoIsWhite none)
determine_whether_background_should_be_white_iff_example =
    determine_whether_background_should_be_white_iff transmitted_light

abbrev thumbnail : Attachment ℕ
thumbnail = record {
  content_guid = 7;
  content_file_type = codes "JPG";
  name = codes "Thumbnail";
  raw_data = 1 ∷ 2 ∷ [];
}

copy_attachments-AllCopies_example :
    (calls : List (AttachmentCall ℕ)) × (copy_attachments (λ i. ok thumbnail) true (3 ∷ [])
      ≡ ok calls)
    × AllCopies (thumbnail ∷ []) (added calls)
    × (counted calls ≡ (total_count_of_attachments, 0) ∷ (total_count_of_attachments, 1) ∷ [])
copy_attachments-AllCopies_example =
    copy_attachments-AllCopies (λ i. ok thumbnail) (3 ∷ []) (thumbnail ∷ []) (refl, omega arith, tt)
      (omega arith)

stated_layers-metadata_edits_example :
    stated_layers (pos 2) (metadata_edits ((pos 1, 3) ∷ (pos 2, 5) ∷ []))
    ≡ find (pos 2) ((pos 1, 3) ∷ (pos 2, 5) ∷ [])
stated_layers-metadata_edits_example =
    stated_layers-metadata_edits (pos 2) ((pos 1, 3) ∷ (pos 2, 5) ∷ []) (refl, (refl, tt))

abbrev printed_statistics : DocumentStatistics
printed_statistics = record {
  sub_block_count = pos 12;
  bounding_box = rect (pos 0) (pos 0) (pos 90) (pos 50);
  bounding_box_layer0_only = rect (pos 0) (pos 0) (pos 80) (pos 50);
  m_index = none;
  dim_bounds = [];
  scene_boxes =
      record {
        scene = pos 0;
        bounding_box = rect (pos 0) (pos 0) (pos 90) (pos 50);
        bounding_box_layer0 = rect (pos 0) (pos 0) (pos 80) (pos 50);
      }
      ∷ [];
}

print_source_document_info_plain_example :
    without_colors (print_source_document_info true (λ d. 67) printed_statistics)
    ≡ print_source_document_info false (λ d. 67) printed_statistics
print_source_document_info_plain_example =
    print_source_document_info_plain (λ d. 67) printed_statistics

abbrev small_document : Document Text ℕ
small_document = record {
  statistics = record {
    bounding_box_layer0_only = rect (pos 0) (pos 0) (pos 100) (pos 100);
    scene_bounding_boxes = [];
  };
  pyramid_statistics = [];
  modes_of_layer0 = modes;
  metadata = none;
  metadata_segment = none;
  read_attachment = λ i. ok thumbnail;
  attachments = [];
}

abbrev if_needed : OperationOptions
if_needed = record {
  mode_of_operation = only_operate_if_pyramid_is_needed;
  background_color_option = record { mode = use_fixed; white_or_black = false };
  threshold_parameters = record { max_extent_of_image = 4096 };
  prints_information = true;
  has_console = true;
}

abbrev command_line : CommandLineOptions CompressParameters
command_line = record {
  pyramid_tile_width = 1024;
  pyramid_tile_height = 1024;
  compression_mode = CompressionMode.invalid;
  compress_parameters = none;
}

not_large :
    Needs small_document.statistics small_document.pyramid_statistics if_needed.threshold_parameters
    → ⊥
not_large needs = elim needs.0 [ inl w ↦ omega arith | inr h ↦ omega arith ]

-- The destination could not be opened.
execute_operation-untouched_example :
    (lines : List ConsoleCall) × (execute_operation {E = ℕ} {Stream = ℕ} command_line if_needed true
        small_document
        (λ c. ok ([], []))
        (λ c. [])
        (err runtime_error)
      ≡ ok (map console lines, no_operation_necessary))
execute_operation-untouched_example =
    execute_operation-untouched command_line if_needed true small_document (λ c. ok ([], []))
      (λ c. []) (err runtime_error) refl (omega arith) tt not_large
