-- ===== src/Program/ExitCodes.antt =====
-- The exit codes of `libmain`.
use czi_pyramidizer.Prelude.{refl, ℕ, ◌≡◌, ◌↔◌, ◌⊎◌, inl, inr, List, ◌++◌, Bool, true}
use czi_pyramidizer.Prelude.Outcome.{Outcome, ok, err, Error, Outcome-cases}
use czi_pyramidizer.Console.{Text, ConsoleCall}
use czi_pyramidizer.Operation.{Result}
use czi_pyramidizer.Main.{ParseResult, parsed, parse_error, is_exception, run_command}
use czi_pyramidizer.Main.ExitCodes.{run_parsed-exit_code}
use czi_pyramidizer.Options.Parse.{Options, Environment, initial_options, parse}
use czi_pyramidizer.Program.{libmain}

module _ {Parameters Stream : Type 0} (env : Environment Parameters) (what : Error → Text)
    (source : Options Parameters → Outcome Stream)
    (operation : Options Parameters → Stream → Outcome (List ConsoleCall × Result))
    (needs_pyramid : Options Parameters → Stream → Outcome Bool) where
  -- The command of the options, without the `catch` block.
  abbrev pub commanded : Options Parameters → Outcome (List ConsoleCall × ℕ)
  commanded options =
      run_command options.command (source options) (operation options) (needs_pyramid options)

  -- An exception of Parse is one of `libmain`. Where Parse returns, so does `libmain`, provided that
  -- every error of the command is an exception: its exit code is 99 just when Parse has found the
  -- command line wrong, and 1 just when Parse has returned OK and the command has thrown.
  pub libmain-exit_code :
      ((options : Options Parameters) (e : Error)
        → commanded options ≡ err e
        → is_exception e ≡ true)
      → ((e : Error) × (parse env initial_options ≡ err e)
          × (libmain env what source operation needs_pyramid ≡ err e))
        ⊎ ((written : List ConsoleCall) × (parse_result : ParseResult) × (options : Options
              Parameters)
            × (calls : List ConsoleCall) × (code : ℕ) × (parse env initial_options
                ≡ ok (written, parse_result, options))
            × (libmain env what source operation needs_pyramid ≡ ok (calls, code))
            × ((code ≡ 99) ↔ (parse_result ≡ parse_error))
            × ((code ≡ 1)
                ↔ ((parse_result ≡ parsed) × ((e : Error) × (commanded options ≡ err e)))))
  unfolding libmain
  libmain-exit_code thrown = elim (Outcome-cases (parse env initial_options)) [
    | inr (e, h) ↦ inl (e, h, rw (libmain, h) refl)
    | inl ((written, parse_result, options), h) ↦
        let (calls, code, r, wrong, threw) =
          run_parsed-exit_code what parse_result options.command (source options)
            (operation options) (needs_pyramid options) (thrown options) in
        inr (
          written,
          parse_result,
          options,
          written ++ calls,
          code,
          h,
          rw (libmain, h, r) refl,
          wrong,
          threw,
        )
  ]
