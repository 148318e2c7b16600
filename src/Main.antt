-- ===== src/Main.antt =====
-- libpyramidizer/libpyramidizer.cpp: `libmain` from the return of `Parse` on, and its exit codes. The
-- streams and the text of an exception are parameters, and there is a console. A command that throws
-- is its error alone, without what it wrote to the console before.
pub mod ExitCodes
use czi_pyramidizer.Prelude.{
  ℕ, List, [], ◌∷◌, ◌++◌, Option, none, some, Bool, true, false, if◌then◌else◌,
}
use czi_pyramidizer.Prelude.Outcome.{
  Outcome, ok, err, Error, invalid_argument, logic_error, runtime_error, out_of_range,
  narrowing_error, division_by_zero, out_of_bounds, indeterminate, overflow, null_pointer, stuck,
  ◌>>=◌,
}
use czi_pyramidizer.Console.{Text, codes, ConsoleCall, write_line_std_out, write_line_std_err}
use czi_pyramidizer.Operation.{Result, no_operation_necessary, operation_successful}

pub data ParseResult : Type 0 where
  parsed exit parse_error : ParseResult

pub data Command : Type 0 where
  invalid_command check_only pyramidize : Command

abbrev pub retcode_success : ℕ
retcode_success = 0

abbrev pub retcode_general_error : ℕ
retcode_general_error = 1

abbrev pub retcode_pyramid_is_needed : ℕ
retcode_pyramid_is_needed = 10

abbrev pub retcode_no_action_because_no_pyramid_needed : ℕ
retcode_no_action_because_no_pyramid_needed = 11

abbrev pub retcode_invalid_arguments : ℕ
retcode_invalid_arguments = 99

-- `CreateSourceStream`; a class without a name stands for a file.
unfoldable pub create_source_stream :
    {Stream : Type 0} → Text → Outcome Stream → Outcome (Option Stream) → Outcome Stream
create_source_stream [] create_stream_from_file create_stream = create_stream_from_file
create_source_stream (c ∷ class_name) create_stream_from_file create_stream = do
  stream ← create_stream
  elim stream [ none ↦ err runtime_error | some s ↦ ok s ]

-- The errors that are exceptions, all of them derived from `std::exception`.
unfoldable pub is_exception : Error → Bool
is_exception invalid_argument = true
is_exception logic_error = true
is_exception runtime_error = true
is_exception out_of_range = true
is_exception narrowing_error = true
is_exception division_by_zero = false
is_exception out_of_bounds = false
is_exception indeterminate = false
is_exception overflow = false
is_exception null_pointer = false
is_exception stuck = false

unfoldable pub exit_code_of : Result → ℕ
exit_code_of no_operation_necessary = retcode_no_action_because_no_pyramid_needed
exit_code_of operation_successful = retcode_success

-- The `try` block: the command with its exit code. `operation` and `needs_pyramid` run with the
-- source stream.
unfoldable pub run_command :
    {Stream : Type 0}
    → Command
    → Outcome Stream
    → (Stream → Outcome (List ConsoleCall × Result))
    → (Stream → Outcome Bool)
    → Outcome (List ConsoleCall × ℕ)
run_command pyramidize source operation needs_pyramid = do
  stream ← source
  (calls, result) ← operation stream
  ok (calls ++ write_line_std_out [] ∷ [], exit_code_of result)
run_command check_only source operation needs_pyramid = do
  stream ← source
  needed ← needs_pyramid stream
  ok (
      if needed
      then (
        write_line_std_out (codes "For the specified document a pyramid should be created.") ∷ [],
        retcode_pyramid_is_needed,
      )
      else (
        write_line_std_out
              (codes "The specified document does not need a pyramid or already contains it.")
            ∷ [],
        retcode_success,
      ))
run_command invalid_command source operation needs_pyramid = ok ([], retcode_success)

-- The `catch` block.
unfoldable pub catch_exception :
    (Error → Text) → Outcome (List ConsoleCall × ℕ) → Outcome (List ConsoleCall × ℕ)
catch_exception what (ok result) = ok result
catch_exception what (err e) =
    if is_exception e
    then ok (
      write_line_std_out []
          ∷ write_line_std_out []
          ∷ write_line_std_err (codes "An unhandled exception occurred : " ++ what e)
          ∷ [],
      retcode_general_error,
    )
    else err e

-- `libmain` after `Parse` has returned: with what it returned, and the command of the options.
unfoldable pub run_parsed :
    {Stream : Type 0}
    → (Error → Text)
    → ParseResult
    → Command
    → Outcome Stream
    → (Stream → Outcome (List ConsoleCall × Result))
    → (Stream → Outcome Bool)
    → Outcome (List ConsoleCall × ℕ)
run_parsed what parsed command source operation needs_pyramid =
    catch_exception what (run_command command source operation needs_pyramid)
run_parsed what exit command source operation needs_pyramid = ok ([], retcode_success)
run_parsed what parse_error command source operation needs_pyramid =
    ok ([], retcode_invalid_arguments)
