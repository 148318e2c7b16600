-- ===== src/Console.antt =====
-- libpyramidizer/IConsoleIo.h: the console that the program writes to, as the list of the calls of
-- it. A text is the list of its character codes.
use Prim.Native.Char.{code}
use Prim.Native.String.{String}
use czi_pyramidizer.Prelude.{ℕ, zero, suc, ◌+◌, ◌/◌, ◌%◌, List, [], ◌∷◌, ◌++◌, ltb, if◌then◌else◌}
use czi_pyramidizer.Prelude.Int.{ℤ, pos, negsuc}

abbrev pub Text : Type 0
Text = List ℕ

abbrev pub codes : String → Text
codes String.[] = []
codes (String.◌∷◌ c s) = code c ∷ codes s

-- `ConsoleColor`.
pub data ConsoleColor : Type 0 where
  black dark_blue dark_green dark_cyan dark_red dark_magenta dark_yellow dark_white : ConsoleColor
  light_black light_blue light_green light_cyan light_red light_magenta : ConsoleColor
  light_yellow white default : ConsoleColor

-- The calls of `IConsoleIo`.
pub data ConsoleCall : Type 0 where
  set_color : ConsoleColor → ConsoleColor → ConsoleCall
  move_up : ℕ → ConsoleCall
  write_std_out write_line_std_out write_line_std_err : Text → ConsoleCall

-- `std::to_string`: a number has at most 20 digits where it is below 2 ^ 64.
unfoldable pub digits_from : ℕ → ℕ → Text → Text
digits_from zero n later = later
digits_from (suc fuel) n later =
    let rest = digits_from fuel (n / 10) ((48 + n % 10) ∷ later) in
    if ltb n 10 then (48 + n) ∷ later else rest

unfoldable pub to_string : ℕ → Text
to_string n = digits_from 20 n []

unfoldable pub to_string_ℤ : ℤ → Text
to_string_ℤ (pos n) = to_string n
to_string_ℤ (negsuc n) = 45 ∷ to_string (suc n)

-- What is written to the standard output.
abbrev pub written_text : List ConsoleCall → Text
written_text [] = []
written_text (set_color foreground background ∷ calls) = written_text calls
written_text (move_up lines ∷ calls) = written_text calls
written_text (write_std_out text ∷ calls) = text ++ written_text calls
written_text (write_line_std_out text ∷ calls) = text ++ 10 ∷ written_text calls
written_text (write_line_std_err text ∷ calls) = written_text calls
