-- ===== src/Terminal.antt =====
-- czi-pyramidizer/consoleio.cpp: `ConsoleIo`, which implements the console. On Unix it writes to
-- the standard output, with ANSI sequences; on Windows it sets the attributes of the console, whose
-- state is the row of the cursor here. What the system says of the terminal is a parameter.
pub mod Visible
pub mod Attributes
use czi_pyramidizer.Prelude.{
  ℕ, zero, suc, ◌+◌, ◌-◌, ◌*◌, ◌/◌, ◌%◌, List, [], ◌∷◌, ◌++◌, Bool, true, false, ltb, if◌then◌else◌,
}
use czi_pyramidizer.Prelude.Int.{ℤ, pos, ◌-ℤ◌, pos_part, neg_part, sub_ℕ, max_ℤ}
use czi_pyramidizer.Console.{
  Text, codes, ConsoleColor, ConsoleCall, set_color, move_up, write_std_out, write_line_std_out,
  write_line_std_err, to_string,
}

-- The escape character.
abbrev pub esc : ℕ
esc = 27

-- The two switches of `SetTextColorAnsi`.
unfoldable pub ansi_foreground : ConsoleColor → Text
ansi_foreground ConsoleColor.black = esc ∷ codes "[30m"
ansi_foreground ConsoleColor.dark_blue = esc ∷ codes "[34m"
ansi_foreground ConsoleColor.dark_green = esc ∷ codes "[32m"
ansi_foreground ConsoleColor.dark_cyan = esc ∷ codes "[36m"
ansi_foreground ConsoleColor.dark_red = esc ∷ codes "[31m"
ansi_foreground ConsoleColor.dark_magenta = esc ∷ codes "[35m"
ansi_foreground ConsoleColor.dark_yellow = esc ∷ codes "[33m"
ansi_foreground ConsoleColor.dark_white = esc ∷ codes "[37m"
ansi_foreground ConsoleColor.light_black = esc ∷ codes "[90m"
ansi_foreground ConsoleColor.light_blue = esc ∷ codes "[94m"
ansi_foreground ConsoleColor.light_green = esc ∷ codes "[92m"
ansi_foreground ConsoleColor.light_cyan = esc ∷ codes "[96m"
ansi_foreground ConsoleColor.light_red = esc ∷ codes "[91m"
ansi_foreground ConsoleColor.light_magenta = esc ∷ codes "[95m"
ansi_foreground ConsoleColor.light_yellow = esc ∷ codes "[93m"
ansi_foreground ConsoleColor.white = esc ∷ codes "[97m"
ansi_foreground ConsoleColor.default = esc ∷ codes "[39m"

unfoldable pub ansi_background : ConsoleColor → Text
ansi_background ConsoleColor.black = esc ∷ codes "[40m"
ansi_background ConsoleColor.dark_blue = esc ∷ codes "[44m"
ansi_background ConsoleColor.dark_green = esc ∷ codes "[42m"
ansi_background ConsoleColor.dark_cyan = esc ∷ codes "[46m"
ansi_background ConsoleColor.dark_red = esc ∷ codes "[41m"
ansi_background ConsoleColor.dark_magenta = esc ∷ codes "[45m"
ansi_background ConsoleColor.dark_yellow = esc ∷ codes "[43m"
ansi_background ConsoleColor.dark_white = esc ∷ codes "[47m"
ansi_background ConsoleColor.light_black = esc ∷ codes "[100m"
ansi_background ConsoleColor.light_blue = esc ∷ codes "[104m"
ansi_background ConsoleColor.light_green = esc ∷ codes "[102m"
ansi_background ConsoleColor.light_cyan = esc ∷ codes "[106m"
ansi_background ConsoleColor.light_red = esc ∷ codes "[101m"
ansi_background ConsoleColor.light_magenta = esc ∷ codes "[105m"
ansi_background ConsoleColor.light_yellow = esc ∷ codes "[103m"
ansi_background ConsoleColor.white = esc ∷ codes "[107m"
ansi_background ConsoleColor.default = esc ∷ codes "[49m"

-- What a call writes to the standard output on Unix. The functions for the standard error write to
-- `std::cout` too.
unfoldable pub written_on_unix : Bool → ConsoleCall → Text
unfolding ansi_foreground ansi_background
written_on_unix is_terminal_output (set_color foreground background) =
    if is_terminal_output then ansi_foreground foreground ++ ansi_background background else []
written_on_unix is_terminal_output (move_up lines_to_move_up) =
    esc ∷ 91 ∷ (to_string lines_to_move_up ++ codes "A")
written_on_unix is_terminal_output (write_std_out str) = str
written_on_unix is_terminal_output (write_line_std_out str) = str ++ 10 ∷ []
written_on_unix is_terminal_output (write_line_std_err str) = str ++ 10 ∷ []

unfoldable pub unix_output : Bool → List ConsoleCall → Text
unfolding written_on_unix
unix_output is_terminal_output [] = []
unix_output is_terminal_output (call ∷ calls) =
    written_on_unix is_terminal_output call ++ unix_output is_terminal_output calls

-- The bits of a console attribute of Windows: those of the foreground, of which the background's
-- are the sixteenfold.
abbrev pub blue : ℕ
blue = 1

abbrev pub green : ℕ
green = 2

abbrev pub red : ℕ
red = 4

abbrev pub intensity : ℕ
intensity = 8

-- The two switches of `GetColorAttribute`; the bits of one are disjoint, so that `|` is `+`. The
-- masks of the default colour select the lower and the higher four bits of the lower byte.
unfoldable pub foreground_attribute : ℕ → ConsoleColor → ℕ
foreground_attribute default_console_color ConsoleColor.black = 0
foreground_attribute default_console_color ConsoleColor.dark_blue = blue
foreground_attribute default_console_color ConsoleColor.dark_green = green
foreground_attribute default_console_color ConsoleColor.dark_cyan = green + blue
foreground_attribute default_console_color ConsoleColor.dark_red = red
foreground_attribute default_console_color ConsoleColor.dark_magenta = red + blue
foreground_attribute default_console_color ConsoleColor.dark_yellow = red + green
foreground_attribute default_console_color ConsoleColor.dark_white = red + green + blue
foreground_attribute default_console_color ConsoleColor.light_black = intensity
foreground_attribute default_console_color ConsoleColor.light_blue = intensity + blue
foreground_attribute default_console_color ConsoleColor.light_green = intensity + green
foreground_attribute default_console_color ConsoleColor.light_cyan = intensity + green + blue
foreground_attribute default_console_color ConsoleColor.light_red = intensity + red
foreground_attribute default_console_color ConsoleColor.light_magenta = intensity + red + blue
foreground_attribute default_console_color ConsoleColor.light_yellow = intensity + red + green
foreground_attribute default_console_color ConsoleColor.white = intensity + red + green + blue
foreground_attribute default_console_color ConsoleColor.default = default_console_color % 16

unfoldable pub background_attribute : ℕ → ConsoleColor → ℕ
background_attribute default_console_color ConsoleColor.black = 0
background_attribute default_console_color ConsoleColor.dark_blue = 16 * blue
background_attribute default_console_color ConsoleColor.dark_green = 16 * green
background_attribute default_console_color ConsoleColor.dark_cyan = 16 * (green + blue)
background_attribute default_console_color ConsoleColor.dark_red = 16 * red
background_attribute default_console_color ConsoleColor.dark_magenta = 16 * (red + blue)
background_attribute default_console_color ConsoleColor.dark_yellow = 16 * (red + green)
background_attribute default_console_color ConsoleColor.dark_white = 16 * (red + green + blue)
background_attribute default_console_color ConsoleColor.light_black = 16 * intensity
background_attribute default_console_color ConsoleColor.light_blue = 16 * (intensity + blue)
background_attribute default_console_color ConsoleColor.light_green = 16 * (intensity + green)
background_attribute default_console_color ConsoleColor.light_cyan = 16 * (intensity + green + blue)
background_attribute default_console_color ConsoleColor.light_red = 16 * (intensity + red)
background_attribute default_console_color ConsoleColor.light_magenta =
    16 * (intensity + red + blue)
background_attribute default_console_color ConsoleColor.light_yellow =
    16 * (intensity + red + green)
background_attribute default_console_color ConsoleColor.white =
    16 * (intensity + red + green + blue)
background_attribute default_console_color ConsoleColor.default =
    16 * (default_console_color / 16 % 16)

unfoldable pub get_color_attribute : ℕ → ConsoleColor → ConsoleColor → ℕ
unfolding foreground_attribute background_attribute
get_color_attribute default_console_color foreground background =
    foreground_attribute default_console_color foreground
    + background_attribute default_console_color background

-- The conversion of an `int` to `SHORT`, modulo 2 ^ 16.
unfoldable pub to_short : ℤ → ℤ
to_short z =
    let n = (pos_part z + (65536 - neg_part z % 65536)) % 65536 in
    if ltb n 32768 then pos n else sub_ℕ n 65536

-- `std::numeric_limits<SHORT>::max()`.
abbrev pub short_max : ℤ
short_max = pos 32767

-- `MoveUp` on Windows without virtual terminal sequences: the row that the cursor is put into.
unfoldable pub row_moved_up : ℤ → ℤ → ℤ
unfolding to_short
row_moved_up row lines_to_move_up = to_short (row -ℤ to_short (max_ℤ lines_to_move_up short_max))
