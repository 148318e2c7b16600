-- ===== src/Operation.antt =====
-- libpyramidizer/src/pyramidizer_operation.cpp: `PyramidizerOperation::Execute` and what it calls
-- besides the parts in SourceMode, Background, Attachments and Print: a run as the list of its calls.
pub mod LayerCounts
pub mod Untouched
use czi_pyramidizer.SourceMode.{CompressParameters, try_to_determine_compression_mode}
use czi_pyramidizer.Background.{Metadata, determine_whether_background_should_be_white}
use czi_pyramidizer.Attachments.{Attachment, AttachmentCall, copy_attachments}
use czi_pyramidizer.Prelude.{
  ℕ, zero, suc, ◌+◌, ◌%◌, List, [], ◌∷◌, ◌++◌, map, Option, none, some, Bool, true, false, not,
  ◌&&◌, ◌||◌, ◌==◌, ltb, length, if◌then◌else◌,
}
use czi_pyramidizer.Prelude.Int.{ℤ, pos, eqb_ℤ}
use czi_pyramidizer.Prelude.Words.{u32_mod}
use czi_pyramidizer.Prelude.Outcome.{Outcome, ok, err, invalid_argument, ◌>>=◌}
use czi_pyramidizer.CheckForPyramid.{
  SubBlockStatistics, PyramidStatistics, ThresholdParameters, needs_pyramid,
}
use czi_pyramidizer.SubBlocks.{narrow_size}
use czi_pyramidizer.OutputTile.{CompressionMode}
use czi_pyramidizer.Console.{Text, codes, ConsoleCall, write_line_std_out}
use czi_pyramidizer.Context.{Context, CommandLineOptions}
use czi_pyramidizer.Pyramidize.{int_min}
use czi_pyramidizer.Options.Color.{BackgroundColorOption, BackgroundColorMode}

pub data ModeOfOperation : Type 0 where
  invalid_mode only_operate_if_pyramid_is_needed always_generate_pyramid : ModeOfOperation

-- With what is written to the console, if there is one.
unfoldable pub check_for_necessity_of_pyramid :
    ModeOfOperation
    → Bool
    → SubBlockStatistics
    → PyramidStatistics
    → ThresholdParameters
    → Outcome (Bool × List ConsoleCall)
check_for_necessity_of_pyramid invalid_mode has_console statistics pyramids threshold =
    ok (true, [])
check_for_necessity_of_pyramid always_generate_pyramid has_console statistics pyramids threshold =
    ok (true, [])
check_for_necessity_of_pyramid only_operate_if_pyramid_is_needed has_console statistics pyramids
      threshold =
    do
      needed ← needs_pyramid statistics pyramids threshold
      ok (
        needed,
        (if not needed && has_console
            then write_line_std_out
                (codes "The specified document does not need a pyramid or already contains it.")
              ∷ []
            else []),
      )

-- What `WriteMetadata` sets below the node of a scene.
pub data MetadataValue : Type 0 where
  value_bool : Bool → MetadataValue
  value_ui32 : ℕ → MetadataValue
  value_text : Text → MetadataValue

pub record MetadataEdit : Type 0 where
  pub scene_index : ℤ
  pub name : Text
  pub value : MetadataValue

abbrev pub edit : ℤ → Text → MetadataValue → MetadataEdit
edit scene_index name value = record { scene_index = scene_index; name = name; value = value }

-- The key for planes without a scene counts as scene 0.
abbrev pub scene_index_consolidated : ℤ → ℤ
scene_index_consolidated scene_index = if eqb_ℤ scene_index int_min then pos 0 else scene_index

abbrev pub edits_of_scene : ℤ → ℕ → List MetadataEdit
edits_of_scene s number_of_pyramid_layers =
    edit s (codes "IsSane") (value_bool true)
    ∷ edit s (codes "IsMinimalCoverage") (value_bool true)
    ∷ edit s (codes "MinificationFactor") (value_ui32 2)
    ∷ edit s (codes "MinificationMethod") (value_text (codes "Gaussian"))
    ∷ edit s (codes "PyramidLayersCount") (value_ui32 number_of_pyramid_layers)
    ∷ []

-- The loop of `WriteMetadata` over the scenes.
unfoldable pub metadata_edits : List (ℤ × ℕ) → List MetadataEdit
metadata_edits [] = []
metadata_edits ((scene_index, layers) ∷ entries) =
    edits_of_scene (scene_index_consolidated scene_index) layers ++ metadata_edits entries

pub data Result : Type 0 where
  no_operation_necessary operation_successful : Result

-- The calls of a run. `sync_write_metadata` writes the metadata with the edits applied.
pub data OperationCall (E Xml Guid : Type 0) : Type 0 where
  console : ConsoleCall → OperationCall E Xml Guid
  create_writer : OperationCall E Xml Guid
  pyramidized : E → OperationCall E Xml Guid
  sync_write_metadata : Xml → List MetadataEdit → OperationCall E Xml Guid
  attached : AttachmentCall Guid → OperationCall E Xml Guid
  close : OperationCall E Xml Guid

-- `PyramidizerOperationOptions`; a null pointer is `none`.
pub record PyramidizerOperationOptions (C S D : Type 0) : Type 0 where
  pub command_line_options : Option C
  pub source_stream : Option S
  pub get_destination_stream_functor : Option D

-- The constructor, with what the pointers point to.
unfoldable pub pyramidizer_operation :
    {C S D : Type 0} → PyramidizerOperationOptions C S D → Outcome (C × S × D)
pyramidizer_operation options = elim options.command_line_options [
  | none ↦ err invalid_argument
  | some command_line_options ↦ elim options.source_stream [
    | none ↦ err invalid_argument
    | some source_stream ↦ elim options.get_destination_stream_functor [
      | none ↦ err invalid_argument
      | some functor ↦ ok (command_line_options, source_stream, functor)
    ]
  ]
]

unfoldable pub white_background_color : BackgroundColorOption → Option Metadata → Bool
white_background_color option metadata = elim option.mode [
  | BackgroundColorMode.automatic ↦ determine_whether_background_should_be_white metadata
  | BackgroundColorMode.use_fixed ↦ option.white_or_black
]

-- What libCZI gives of the source document, besides its planes.
pub record Document (Xml Guid : Type 0) : Type 0 where
  pub statistics : SubBlockStatistics
  pub pyramid_statistics : PyramidStatistics
  pub modes_of_layer0 : List CompressionMode
  pub metadata : Option Metadata
  pub metadata_segment : Option Xml
  pub read_attachment : ℕ → Outcome (Attachment Guid)
  pub attachments : List ℕ

-- The options of the command line that `Execute` reads itself, and whether there is a console.
pub record OperationOptions : Type 0 where
  pub mode_of_operation : ModeOfOperation
  pub background_color_option : BackgroundColorOption
  pub threshold_parameters : ThresholdParameters
  pub prints_information : Bool
  pub has_console : Bool

abbrev pub metadata_calls :
    {E Xml Guid : Type 0} → Option Xml → List (ℤ × ℕ) → List (OperationCall E Xml Guid)
metadata_calls none result = []
metadata_calls (some xml) result = sync_write_metadata xml (metadata_edits result) ∷ []

-- `Execute`. `pyramidize` runs `DoPyramidize` with a context, `print` gives what is printed before,
-- and `create` opens the destination.
unfoldable pub execute_operation :
    {E Xml Guid Stream : Type 0}
    → CommandLineOptions CompressParameters
    → OperationOptions
    → Bool
    → Document Xml Guid
    → (Context CompressParameters → Outcome (List E × List (ℤ × ℕ)))
    → (Context CompressParameters → List ConsoleCall)
    → Outcome Stream
    → Outcome (List (OperationCall E Xml Guid) × Result)
execute_operation command_line options reporting document pyramidize print create = do
  (continue_operation, lines) ←
      check_for_necessity_of_pyramid options.mode_of_operation options.has_console
        document.statistics document.pyramid_statistics options.threshold_parameters
  let context : Context CompressParameters = record {
    command_line_options = command_line;
    progress_report = reporting;
    compression_mode_determined_from_source =
        try_to_determine_compression_mode command_line.compression_mode document.modes_of_layer0;
    background_is_white = white_background_color options.background_color_option document.metadata;
  }
  let printed = if options.prints_information && options.has_console then print context else []
  let round = do
    stream ← create
    (events, result) ← pyramidize context
    attachments ← copy_attachments document.read_attachment reporting document.attachments
    ok (
      map console (lines ++ printed)
          ++ create_writer
            ∷ (map pyramidized events
                ++ (metadata_calls document.metadata_segment result
                    ++ (map attached attachments ++ close ∷ []))),
      operation_successful,
    )
  if continue_operation then round else ok (map console lines, no_operation_necessary)
