-- ===== src/Context.antt =====
-- libpyramidizer/src/Context.cpp: what a run passes around, and the background colour. libCZI's
-- colours are a parameter, of which the source uses white and black.
use czi_pyramidizer.Prelude.{ℕ, Bool, Option, if◌then◌else◌}
use czi_pyramidizer.Prelude.Int.{ℤ}
use czi_pyramidizer.OutputTile.{CompressionMode}

-- The options of the command line that the pyramid code reads.
pub record CommandLineOptions (Parameters : Type 0) : Type 0 where
  pub pyramid_tile_width : ℕ
  pub pyramid_tile_height : ℕ
  pub compression_mode : CompressionMode
  pub compress_parameters : Option Parameters

-- `progress_report` says whether there is a progress reporter.
pub record Context (Parameters : Type 0) : Type 0 where
  pub command_line_options : CommandLineOptions Parameters
  pub progress_report : Bool
  pub compression_mode_determined_from_source : Option (CompressionMode × Option Parameters)
  pub background_is_white : Bool

-- The colour is the same for all channels.
unfoldable pub get_background_color :
    {Color Parameters : Type 0} → Color → Color → Context Parameters → ℤ → Color
get_background_color white black context channel_number =
    if context.background_is_white then white else black
