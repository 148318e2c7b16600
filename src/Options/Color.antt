-- ===== src/Options/Color.antt =====
-- libpyramidizer/src/commandlineoptions.cpp: the option --background-color and its validator.
pub mod Accepted
use mathlib.Core.Option
use czi_pyramidizer.Prelude.{◌++◌, Option, none, some, Bool, true, false, ◌||◌, if◌then◌else◌}
use czi_pyramidizer.Prelude.Outcome.{Outcome, ok, ◌>>=◌}
use czi_pyramidizer.Console.{Text, codes}
use czi_pyramidizer.Strings.{trim, to_lower}
use czi_pyramidizer.Background.{same_text}

pub data BackgroundColorMode : Type 0 where
  automatic use_fixed : BackgroundColorMode

pub record BackgroundColorOption : Type 0 where
  pub mode : BackgroundColorMode
  pub white_or_black : Bool

abbrev pub black_option : BackgroundColorOption → BackgroundColorOption
black_option option = record option { mode = use_fixed; white_or_black = false }

abbrev pub white_option : BackgroundColorOption → BackgroundColorOption
white_option option = record option { mode = use_fixed; white_or_black = true }

abbrev pub auto_option : BackgroundColorOption → BackgroundColorOption
auto_option option = record option { mode = automatic }

-- The tests of the trimmed string. The option is what the pointer points to, `none` for a null
-- pointer.
unfoldable pub choose_background_color :
    Text → Option BackgroundColorOption → Bool × Option BackgroundColorOption
choose_background_color trimmed_string option =
    if same_text trimmed_string (codes "black") || same_text trimmed_string (codes "0")
    then (true, Option.map black_option option)
    else if same_text trimmed_string (codes "white") || same_text trimmed_string (codes "1")
    then (true, Option.map white_option option)
    else if same_text trimmed_string (codes "auto")
    then (true, Option.map auto_option option)
    else (false, option)

unfoldable pub try_parse_background_color_option :
    Text → Option BackgroundColorOption → Outcome (Bool × Option BackgroundColorOption)
unfolding choose_background_color
try_parse_background_color_option str option = do
  trimmed ← trim str
  ok (choose_background_color (to_lower trimmed) option)

-- The validator: the text of the `CLI::ValidationError` that it throws, if it does.
unfoldable pub validate_background_color : Text → Outcome (Option Text)
unfolding try_parse_background_color_option
validate_background_color str = do
  parsed ← try_parse_background_color_option str none
  ok (
      if parsed.0
      then none
      else some (codes "Invalid background-color option given \"" ++ (str ++ codes "\"")))
