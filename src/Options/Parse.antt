-- ===== src/Options/Parse.antt =====
-- libpyramidizer/src/commandlineoptions.cpp: `CommandLineOptions::Parse`. What CLI11 makes of the
-- arguments is a parameter, and so are libCZI's parser of compression options, rapidjson's of the
-- property bag, and `iconv`.
pub mod Stored
pub mod Results
pub mod Accepted
pub mod Errors
use czi_pyramidizer.Prelude.{
  ℕ, List, [], ◌∷◌, ◌++◌, Option, none, some, Bool, true, false, not, if◌then◌else◌,
}
use czi_pyramidizer.Prelude.Int.{ℤ}
use czi_pyramidizer.Prelude.Words.{to_u32}
use czi_pyramidizer.Prelude.Outcome.{Outcome, ok, err, Error, runtime_error, null_pointer, ◌>>=◌}
use czi_pyramidizer.CheckForPyramid.{narrow_u32}
use czi_pyramidizer.Console.{Text, codes, ConsoleCall, write_line_std_out}
use czi_pyramidizer.OutputTile.{CompressionMode}
use czi_pyramidizer.Operation.{ModeOfOperation}
use czi_pyramidizer.Main.{
  ParseResult, parsed, exit, parse_error, Command, invalid_command, check_only, pyramidize,
  is_exception,
}
use czi_pyramidizer.Strings.{Iconv, utf8_to_wstring}
use czi_pyramidizer.Options.Color.{
  BackgroundColorOption, BackgroundColorMode, automatic, try_parse_background_color_option,
}
use czi_pyramidizer.Options.PropertyBag.{
  JsonValue, PropertyBag, StreamPropertyInfo, try_parse_input_stream_creation_property_bag,
}
use czi_pyramidizer.Options.Help.{
  BuildInfo, LibCziInfo, StreamClassInfo, get_footer_text, print_help_build_info,
  print_help_streams_objects,
}

-- The local variables that CLI11 stores the arguments in.
pub record Arguments : Type 0 where
  pub source_czi_uri : Text
  pub source_stream_class : Text
  pub source_stream_creation_propbag : Text
  pub destination_czi_uri : Text
  pub compression_options : Text
  pub verbosity : ℤ
  pub top_level_pyramid_size : ℤ
  pub tile_size : ℤ
  pub overwrite_destination : Bool
  pub background_color : Text
  pub version_flag : Bool
  pub do_only_check_flag : Bool
  pub threshold_for_pyramid : ℤ
  pub mode_of_operation : ModeOfOperation

-- What `app.parse` does: it throws, for a call for help or with a text, or it returns.
pub data CliResult : Type 0 where
  call_for_help : CliResult
  cli_error : Text → CliResult
  arguments : Arguments → CliResult

-- The members of `CommandLineOptions`, but for the console. A URI is a wide string.
pub record Options (Parameters : Type 0) : Type 0 where
  pub source_czi_uri : List ℕ
  pub source_czi_stream_class : Text
  pub property_bag_for_stream_class : PropertyBag
  pub destination_czi_uri : List ℕ
  pub pyramid_tile_size : ℕ
  pub max_top_level_pyramid_size : ℕ
  pub compression_mode : CompressionMode
  pub compression_parameters : Option Parameters
  pub background_color_option : BackgroundColorOption
  pub log_verbosity_level : ℤ
  pub overwrite_destination : Bool
  pub threshold_when_pyramid_is_required : ℕ
  pub command : Command
  pub mode_of_operation : ModeOfOperation

-- The members' initializers.
abbrev pub initial_options : {Parameters : Type 0} → Options Parameters
initial_options = record {
  source_czi_uri = [];
  source_czi_stream_class = [];
  property_bag_for_stream_class = [];
  destination_czi_uri = [];
  pyramid_tile_size = 1024;
  max_top_level_pyramid_size = 1024;
  compression_mode = CompressionMode.invalid;
  compression_parameters = none;
  background_color_option = record { mode = automatic; white_or_black = false };
  log_verbosity_level = ℤ.pos 0;
  overwrite_destination = false;
  threshold_when_pyramid_is_required = 4096;
  command = invalid_command;
  mode_of_operation = ModeOfOperation.invalid_mode;
}

-- `DoConsole`, and the call of the console that is made without a test for the null pointer.
unfoldable pub do_console : Bool → List ConsoleCall → List ConsoleCall
do_console has_console calls = if has_console then calls else []

unfoldable pub call_console : Bool → List ConsoleCall → Outcome (List ConsoleCall)
call_console has_console calls = if has_console then ok calls else err null_pointer

abbrev pub is_empty : Text → Bool
is_empty [] = true
is_empty (c ∷ s) = false

-- `ThrowIfFalse`.
unfoldable pub throw_if_false : {A : Type 0} → Bool → A → Outcome A
throw_if_false b result = if b then ok result else err runtime_error

-- What is stored, from the answer of a parser and what stands behind the pointer that it was given.
unfoldable pub checked : {A : Type 0} → Bool × Option A → A → Outcome A
unfolding throw_if_false
checked (b, none) before = throw_if_false b before
checked (b, some stored) before = throw_if_false b stored

-- The outside world: what Parse calls, and what the build and libCZI say of themselves.
-- `uninitialized` is the local option that no value has been stored to.
pub record Environment (Parameters : Type 0) : Type 0 where
  pub has_console : Bool
  pub cli_parse : Text → CliResult
  pub help : Text → Text
  pub build_info : BuildInfo
  pub lib_czi_info : LibCziInfo
  pub iconv : Iconv
  pub iconv_opens : Bool
  pub parse_compression_options : Text → Outcome (CompressionMode × Option Parameters)
  pub parse_json : Text → Option (List (JsonValue × JsonValue))
  pub property_infos : List StreamPropertyInfo
  pub uninitialized : BackgroundColorOption

module _ {Parameters : Type 0} (env : Environment Parameters) where
  open env use {
    has_console, cli_parse, help, build_info, lib_czi_info, iconv, iconv_opens,
    parse_compression_options, parse_json, property_infos, uninitialized,
  }

  -- `TryParseCompressionOptions`, with the option that it stores; errors that are no exceptions
  -- are not caught.
  unfoldable pub try_parse_compression_options :
      Text → Outcome (Option (CompressionMode × Option Parameters))
  try_parse_compression_options s = elim (parse_compression_options s) [
    | ok option ↦ ok (some option)
    | err e ↦ if is_exception e then ok none else err e
  ]

  -- The validator: the text of the `CLI::ValidationError` that it throws, if it does.
  unfoldable pub validate_compression_options : Text → Outcome (Option Text)
  unfolding try_parse_compression_options
  validate_compression_options str = do
    option ← try_parse_compression_options str
    elim option [
      | none ↦ ok (some (codes "Invalid compression-options given \"" ++ (str ++ codes "\"")))
      | some parsed_option ↦ ok none
    ]

  -- The property bag, the compression options and the background colour, each of which is read
  -- only where an argument is given.
  unfoldable pub read_property_bag : Text → PropertyBag → Outcome PropertyBag
  read_property_bag [] bag = ok bag
  read_property_bag (c ∷ text) bag =
      checked
        (try_parse_input_stream_creation_property_bag property_infos (parse_json (c ∷ text))
          (some bag))
        bag

  unfoldable pub read_compression :
      Text → CompressionMode × Option Parameters → Outcome (CompressionMode × Option Parameters)
  unfolding try_parse_compression_options
  read_compression [] compression = ok compression
  read_compression (c ∷ text) compression = do
    option ← try_parse_compression_options (c ∷ text)
    elim option [ none ↦ throw_if_false false compression | some given ↦ throw_if_false true given ]

  unfoldable pub read_background_color :
      Text → BackgroundColorOption → Outcome BackgroundColorOption
  read_background_color [] color = ok color
  read_background_color (c ∷ text) color = do
    answer ← try_parse_background_color_option (c ∷ text) (some uninitialized)
    checked answer color

  -- What is stored of the arguments but for the command and the destination.
  unfoldable pub store_arguments : Arguments → Options Parameters → Outcome (Options Parameters)
  unfolding read_property_bag read_compression read_background_color
  store_arguments a options = do
    source ← utf8_to_wstring iconv iconv_opens a.source_czi_uri
    bag ← read_property_bag a.source_stream_creation_propbag options.property_bag_for_stream_class
    compression ←
        read_compression a.compression_options
          (options.compression_mode, options.compression_parameters)
    color ← read_background_color a.background_color options.background_color_option
    threshold ← narrow_u32 a.threshold_for_pyramid
    ok (record options {
      source_czi_uri = source;
      source_czi_stream_class = a.source_stream_class;
      property_bag_for_stream_class = bag;
      compression_mode = compression.0;
      compression_parameters = compression.1;
      background_color_option = color;
      pyramid_tile_size = to_u32 a.tile_size;
      max_top_level_pyramid_size = to_u32 a.top_level_pyramid_size;
      log_verbosity_level = a.verbosity;
      overwrite_destination = a.overwrite_destination;
      threshold_when_pyramid_is_required = threshold;
      mode_of_operation = a.mode_of_operation;
    })

  -- The message and the return where a file is missing.
  unfoldable pub report_missing :
      Text → Options Parameters → Outcome (List ConsoleCall × ParseResult × Options Parameters)
  unfolding call_console
  report_missing message options = do
    calls ← call_console has_console (write_line_std_out message ∷ [])
    ok (calls, parse_error, options)

  -- The choice of the command, at the end.
  unfoldable pub choose_command :
      Arguments → Options Parameters → Outcome (List ConsoleCall × ParseResult × Options Parameters)
  unfolding report_missing
  choose_command a options =
      if a.do_only_check_flag
      then ok ([], parsed, record options { command = check_only })
      else if is_empty a.destination_czi_uri
      then report_missing (codes "No destination file specified.") options
      else (do
        destination ← utf8_to_wstring iconv iconv_opens a.destination_czi_uri
        ok ([], parsed, record options { destination_czi_uri = destination; command = pyramidize }))

  unfoldable pub parse_arguments :
      Arguments → Options Parameters → Outcome (List ConsoleCall × ParseResult × Options Parameters)
  unfolding store_arguments choose_command report_missing
  parse_arguments a options =
      if a.version_flag
      then ok (
        do_console has_console (print_help_build_info build_info)
            ++ (do_console has_console (write_line_std_out [] ∷ write_line_std_out [] ∷ [])
                ++ do_console has_console (print_help_streams_objects lib_czi_info.stream_classes)),
        exit,
        options,
      )
      else if is_empty a.source_czi_uri
      then report_missing (codes "No source file specified.") options
      else (do stored ← store_arguments a options; choose_command a stored)

  -- What follows `app.parse`: the two handlers, or the rest of the function.
  unfoldable pub after_cli :
      Text
      → CliResult
      → Options Parameters
      → Outcome (List ConsoleCall × ParseResult × Options Parameters)
  unfolding parse_arguments
  after_cli footer call_for_help options =
      ok (do_console has_console (write_line_std_out (help footer) ∷ []), exit, options)
  after_cli footer (cli_error what) options =
      ok (do_console has_console (write_line_std_out what ∷ []), parse_error, options)
  after_cli footer (arguments a) options = parse_arguments a options

  -- The footer is set before the arguments are parsed.
  unfoldable pub parse :
      Options Parameters → Outcome (List ConsoleCall × ParseResult × Options Parameters)
  unfolding after_cli
  parse options = do
    footer ← get_footer_text lib_czi_info
    after_cli footer (cli_parse footer) options
