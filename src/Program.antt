-- ===== src/Program.antt =====
-- libpyramidizer/libpyramidizer.cpp: `libmain`, with the parsing of the command line, which stands before
-- the `try` block. The program, czi-pyramidizer/czi-pyramidizer.cpp, calls it alone. The source stream and what is done with it are given for the parsed options.
pub mod ExitCodes
pub mod Unhandled
use czi_pyramidizer.Prelude.{ℕ, List, ◌++◌, Bool}
use czi_pyramidizer.Prelude.Outcome.{Outcome, ok, Error, ◌>>=◌}
use czi_pyramidizer.Console.{Text, ConsoleCall}
use czi_pyramidizer.Operation.{Result}
use czi_pyramidizer.Main.{run_parsed}
use czi_pyramidizer.Options.Parse.{Options, Environment, initial_options, parse}

module _ {Parameters Stream : Type 0} (env : Environment Parameters) where
  unfoldable pub libmain :
      (Error → Text)
      → (Options Parameters → Outcome Stream)
      → (Options Parameters → Stream → Outcome (List ConsoleCall × Result))
      → (Options Parameters → Stream → Outcome Bool)
      → Outcome (List ConsoleCall × ℕ)
  libmain what source operation needs_pyramid = do
    (calls, parse_result, options) ← parse env initial_options
    (later_calls, exit_code) ←
        run_parsed what parse_result options.command (source options) (operation options)
          (needs_pyramid options)
    ok (calls ++ later_calls, exit_code)
