-- ===== src/Program/Unhandled.antt =====
-- Errors of the command line that leave the program by an exception, instead of by the exit code
-- for invalid arguments.
use czi_pyramidizer.Prelude.{◌≡◌, ◌≢◌, ℕ, List, [], Bool, false}
use czi_pyramidizer.Prelude.Outcome.{Outcome, ok, err, Error, runtime_error, null_pointer}
use czi_pyramidizer.Console.{Text, ConsoleCall}
use czi_pyramidizer.Operation.{Result}
use czi_pyramidizer.Strings.{utf8_to_wstring}
use czi_pyramidizer.Options.Help.{get_footer_text}
use czi_pyramidizer.Options.Parse.{
  Options, Environment, Arguments, arguments, initial_options, parse,
}
use czi_pyramidizer.Options.Parse.Errors.{IsNoBag, parse-runtime_error, parse-null_pointer}
use czi_pyramidizer.Program.{libmain}

module _ {Parameters Stream : Type 0} (env : Environment Parameters) (what : Error → Text)
    (source : Options Parameters → Outcome Stream)
    (operation : Options Parameters → Stream → Outcome (List ConsoleCall × Result))
    (needs_pyramid : Options Parameters → Stream → Outcome Bool) where
  -- An error of Parse is one of the program.
  parse_err :
      (e : Error)
      → parse env initial_options ≡ err e
      → libmain env what source operation needs_pyramid ≡ err e
  unfolding libmain
  parse_err e h = rw (libmain, h)

  module _ (a : Arguments) (footer : Text)
      (has_footer : get_footer_text env.lib_czi_info ≡ ok footer)
      (given : env.cli_parse footer ≡ arguments a) (no_version : a.version_flag ≡ false) where
    -- Where there is a source, and a property bag is given which is not a JSON object of members
    -- that the table of properties allows, the program ends by a `std::runtime_error` that nothing
    -- catches. The source's name can be converted, and the version is not asked for.
    pub libmain-unhandled :
        (uri : List ℕ)
        → a.source_czi_uri ≢ []
        → utf8_to_wstring env.iconv env.iconv_opens a.source_czi_uri ≡ ok uri
        → a.source_stream_creation_propbag ≢ []
        → IsNoBag env a.source_stream_creation_propbag
        → libmain env what source operation needs_pyramid ≡ err runtime_error
    libmain-unhandled uri has_source converts has_bag bad = parse_err runtime_error (
        parse-runtime_error env a footer has_footer given no_version initial_options uri has_source
          converts has_bag bad)

    -- Without a source and without a console, the message about the missing source is written
    -- through a null pointer. The version is not asked for.
    pub libmain-null_pointer :
        a.source_czi_uri ≡ []
        → env.has_console ≡ false
        → libmain env what source operation needs_pyramid ≡ err null_pointer
    libmain-null_pointer no_source no_console = parse_err null_pointer (
        parse-null_pointer env a footer has_footer given no_version initial_options no_source
          no_console)
