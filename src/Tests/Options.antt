-- ===== src/Tests/Options.antt =====
-- The options of the command line, and the console: runs, and the theorems at them.
use mathlib.Core.Option
use czi_pyramidizer.Prelude.{
  ◌↔◌, sym, ℕ, ◌/◌, ◌%◌, ◌<◌, ◌≡◌, refl, ◌⊎◌, inl, inr, arith, List, [], ◌∷◌, some, none, Bool,
  true, false, get_elem?,
}
use czi_pyramidizer.Prelude.Int.{ℤ, pos}
use czi_pyramidizer.Prelude.Outcome.{Outcome, Error, ok, err, runtime_error}
use czi_pyramidizer.CheckForPyramid.{find, narrow_u32}
use czi_pyramidizer.Console.{
  Text, codes, ConsoleColor, ConsoleCall, set_color, move_up, write_std_out, write_line_std_out,
}
use czi_pyramidizer.Operation.{ModeOfOperation, Result}
use czi_pyramidizer.Main.{
  Command, ParseResult, parse_error, invalid_command, check_only, run_command, is_exception, parsed,
  pyramidize,
}
use czi_pyramidizer.Strings.{utf8_to_wstring, trim, to_lower}
use czi_pyramidizer.Background.{same_text}
use czi_pyramidizer.Prelude.Words.{to_u32}
use czi_pyramidizer.Options.Color.{
  BackgroundColorOption, BackgroundColorMode, automatic, try_parse_background_color_option,
}
use czi_pyramidizer.Options.Color.Accepted.{
  ColorWord, black, Names, chosen, try_parse_background_color_option_lem,
}
use czi_pyramidizer.Options.PropertyBag.{
  JsonValue, json_string, json_int, Property, int32_property, int32_type, StreamPropertyInfo,
  PropertyBag, until_nul, read_members,
}
use czi_pyramidizer.Options.PropertyBag.Members.{AllStandFor}
use czi_pyramidizer.Options.PropertyBag.Filled.{first_of, read_members_lem}
use czi_pyramidizer.Options.Help.{get_footer_text}
use czi_pyramidizer.Options.Help.Footer.{get_footer_text_returns}
use czi_pyramidizer.Options.Parse.{
  Arguments, arguments, Options, Environment, initial_options, parse, checked, throw_if_false,
}
use czi_pyramidizer.Options.Parse.Results.{IsReady}
use czi_pyramidizer.Options.Parse.Accepted.{IsAccepted, parse-IsReady}
use czi_pyramidizer.Program.{libmain}
use czi_pyramidizer.Program.ExitCodes.{commanded, libmain-exit_code}
use czi_pyramidizer.Program.Unhandled.{libmain-unhandled}
use czi_pyramidizer.Terminal.{get_color_attribute, unix_output}
use czi_pyramidizer.Terminal.Visible.{events, events_of, events-unix_output}
use czi_pyramidizer.Terminal.Attributes.{palette, shown_color, get_color_attribute-halves}
use czi_pyramidizer.Tests.Texts.{ascii_iconv}

abbrev unset : BackgroundColorOption
unset = record { mode = automatic; white_or_black = false }

white_parses :
    try_parse_background_color_option (codes " White\n") (some unset)
    ≡ ok (true, some (record { mode = BackgroundColorMode.use_fixed; white_or_black = true }))
unfolding try_parse_background_color_option trim to_lower same_text
white_parses = refl

try_parse_background_color_option_lem_example :
    ((v : ColorWord) × Names v (codes " White\n")
      × (try_parse_background_color_option (codes " White\n") (some unset)
          ≡ ok (true, Option.map (chosen v) (some unset))))
    ⊎ (((v : ColorWord) → ¬ Names v (codes " White\n"))
        × (try_parse_background_color_option (codes " White\n") (some unset)
            ≡ ok (false, some unset)))
try_parse_background_color_option_lem_example =
    try_parse_background_color_option_lem (codes " White\n") (some unset)

abbrev infos : List StreamPropertyInfo
infos =
    record { property_name = codes "timeout"; property_id = pos 7; property_type = int32_type } ∷ []

abbrev members : List (JsonValue × JsonValue)
members = (json_string (codes "timeout"), json_int (pos 5)) ∷ []

reads_members :
    read_members infos members (some []) ≡ (true, some ((pos 7, int32_property (pos 5)) ∷ []))
unfolding read_members find same_text until_nul
reads_members = refl

read_members_lem_example :
    ((entries : List (ℤ × Property)) × (filled : PropertyBag) × AllStandFor infos members entries
      × (read_members infos members (some []) ≡ (true, some filled))
      × ((id : ℤ) → find id filled ≡ first_of (find id []) (find id entries)))
    ⊎ (((entries : List (ℤ × Property)) → ¬ AllStandFor infos members entries)
        × ((read_members infos members (some [])).0 ≡ false))
read_members_lem_example = read_members_lem infos members []

-- A command line for a pyramid, with a property bag that is no JSON object or none at all.
abbrev given : Text → Text → Arguments
given source bag = record {
  source_czi_uri = source;
  source_stream_class = [];
  source_stream_creation_propbag = bag;
  destination_czi_uri = codes "b.czi";
  compression_options = [];
  verbosity = pos 2;
  top_level_pyramid_size = pos 1024;
  tile_size = pos 512;
  overwrite_destination = false;
  background_color = codes "black";
  version_flag = false;
  do_only_check_flag = false;
  threshold_for_pyramid = pos 4096;
  mode_of_operation = ModeOfOperation.always_generate_pyramid;
}

abbrev world : Bool → Arguments → Environment ℕ
world has_console a = record {
  has_console = has_console;
  cli_parse = λ footer. arguments a;
  help = λ footer. footer;
  build_info = record {
    version = codes "1.0.0";
    compiler = [];
    repository_url = [];
    repository_branch = [];
    repository_hash = [];
  };
  lib_czi_info = record {
    version_major = 0;
    version_minor = 62;
    version_tweak = 7;
    compiler_identification = [];
    stream_classes = [];
  };
  iconv = ascii_iconv;
  iconv_opens = true;
  parse_compression_options = λ s. err runtime_error;
  parse_json = λ s. none;
  property_infos = infos;
  uninitialized = unset;
}

abbrev ready : Options ℕ
ready = record initial_options {
  source_czi_uri = codes "a.czi";
  destination_czi_uri = codes "b.czi";
  pyramid_tile_size = 512;
  background_color_option = record { mode = BackgroundColorMode.use_fixed; white_or_black = false };
  log_verbosity_level = pos 2;
  command = pyramidize;
  mode_of_operation = ModeOfOperation.always_generate_pyramid;
}

parses : parse (world true (given (codes "a.czi") [])) initial_options ≡ ok ([], parsed, ready)
unfolding parse utf8_to_wstring get_footer_text try_parse_background_color_option trim to_lower
    same_text narrow_u32 to_u32 checked throw_if_false
parses = refl

source_converts : utf8_to_wstring ascii_iconv true (codes "a.czi") ≡ ok (codes "a.czi")
unfolding utf8_to_wstring
source_converts = refl

destination_converts : utf8_to_wstring ascii_iconv true (codes "b.czi") ≡ ok (codes "b.czi")
unfolding utf8_to_wstring
destination_converts = refl

black-Names : Names black (codes "black")
unfolding to_lower
black-Names = record {
  before = [];
  word = codes "black";
  after = [];
  is_made = refl;
  before_blank = tt;
  after_blank = tt;
  spells = refl;
}

accepted : IsAccepted (world true (given (codes "a.czi") [])) (given (codes "a.czi") [])
accepted = record {
  no_version = refl;
  has_source = λ e. cc;
  source = (codes "a.czi", source_converts);
  bag = inl refl;
  compression = inl refl;
  color = inr (black, black-Names);
  threshold = (4096, refl, omega arith);
  command = inr (refl, (λ e. cc), (codes "b.czi", destination_converts));
}

abbrev footer : Text
footer = (get_footer_text_returns (world true (given (codes "a.czi") (codes "{"))).lib_czi_info).0

parse-IsReady_example :
    (options : Options ℕ) × (parse (world true (given (codes "a.czi") [])) initial_options
      ≡ ok ([], parsed, options))
    × IsReady
        (world true (given (codes "a.czi") []))
        (given (codes "a.czi") [])
        initial_options
        options
parse-IsReady_example =
    parse-IsReady (world true (given (codes "a.czi") [])) footer (given (codes "a.czi") [])
      initial_options
      (get_footer_text_returns (world true (given (codes "a.czi") [])).lib_czi_info).1 refl accepted

libmain-unhandled_example :
    libmain {Stream = ℕ}
      (world true (given (codes "a.czi") (codes "{")))
      (λ e. [])
      (λ o. ok 0)
      (λ o s. ok ([], Result.no_operation_necessary))
      (λ o s. ok true)
    ≡ err runtime_error
libmain-unhandled_example =
    libmain-unhandled (world true (given (codes "a.czi") (codes "{"))) (λ e. []) (λ o. ok 0)
      (λ o s. ok ([], Result.no_operation_necessary)) (λ o s. ok true)
      (given (codes "a.czi") (codes "{")) footer
      (get_footer_text_returns (world true (given (codes "a.czi") (codes "{"))).lib_czi_info).1 refl
      refl (codes "a.czi") (λ e. cc) source_converts (λ e. cc) (λ members entries e. cc)

abbrev report : List ConsoleCall
report =
    set_color ConsoleColor.dark_green ConsoleColor.default
    ∷ write_std_out (codes "5 of 9")
    ∷ move_up 12
    ∷ write_line_std_out (codes " done")
    ∷ []

events-unix_output_example : events (unix_output true report) ≡ events_of true report
events-unix_output_example = events-unix_output true report (omega arith)

get_color_attribute-halves_example :
    (get_color_attribute 23 ConsoleColor.light_red ConsoleColor.default < 256)
    × (get_elem? palette (get_color_attribute 23 ConsoleColor.light_red ConsoleColor.default % 16)
        ≡ shown_color (23 % 16) ConsoleColor.light_red)
    × (get_elem? palette (get_color_attribute 23 ConsoleColor.light_red ConsoleColor.default / 16)
        ≡ shown_color (23 / 16 % 16) ConsoleColor.default)
get_color_attribute-halves_example =
    get_color_attribute-halves 23 ConsoleColor.light_red ConsoleColor.default

abbrev no_what : Error → Text
no_what e = []

-- The world of the accepted command line, in which the source cannot be opened.
abbrev readable : Environment ℕ
readable = world true (given (codes "a.czi") [])

abbrev unopened : Options ℕ → Outcome ℕ
unopened o = err runtime_error

abbrev not_operated : Options ℕ → ℕ → Outcome (List ConsoleCall × Result)
not_operated o s = err runtime_error

abbrev not_checked : Options ℕ → ℕ → Outcome Bool
not_checked o s = err runtime_error

run_throws :
    (command : Command) (e : Error)
    → run_command {Stream = ℕ} command
        (err runtime_error)
        (λ s. err runtime_error)
        (λ s. err runtime_error)
      ≡ err e
    → is_exception e ≡ true
unfolding run_command is_exception
run_throws invalid_command e h = absurd (cc)
run_throws pyramidize e h = let same : runtime_error ≡ e = cc h in rw (sym same) refl
run_throws check_only e h = let same : runtime_error ≡ e = cc h in rw (sym same) refl

libmain-exit_code_example :
    ((e : Error) × (parse readable initial_options ≡ err e)
      × (libmain readable no_what unopened not_operated not_checked ≡ err e))
    ⊎ ((written : List ConsoleCall) × (parse_result : ParseResult) × (options : Options ℕ)
        × (calls : List ConsoleCall) × (code : ℕ) × (parse readable initial_options
            ≡ ok (written, parse_result, options))
        × (libmain readable no_what unopened not_operated not_checked ≡ ok (calls, code))
        × ((code ≡ 99) ↔ (parse_result ≡ parse_error))
        × ((code ≡ 1) ↔ (
            (parse_result ≡ parsed)
            × ((e : Error) × (commanded readable no_what unopened not_operated not_checked options
                  ≡ err e)))))
libmain-exit_code_example =
    libmain-exit_code readable no_what unopened not_operated not_checked
      (λ options e h. run_throws options.command e h)
