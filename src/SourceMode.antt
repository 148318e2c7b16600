-- ===== src/SourceMode.antt =====
-- libpyramidizer/src/pyramidizer_operation.cpp: the compression of the source document, which
-- the pyramid tiles take over where the command line names none.
pub mod Kept
use czi_pyramidizer.Prelude.{
  ℕ, zero, suc, ◌+◌, ◌%◌, List, [], ◌∷◌, ◌++◌, map, Option, none, some, Bool, true, false, not,
  ◌&&◌, ◌||◌, ◌==◌, ltb, length, if◌then◌else◌,
}
use czi_pyramidizer.Prelude.Int.{ℤ, pos, eqb_ℤ}
use czi_pyramidizer.Prelude.Words.{u32_mod}
use czi_pyramidizer.Prelude.Outcome.{Outcome, ok, err, invalid_argument, ◌>>=◌}
use czi_pyramidizer.Console.{Text, codes}
use czi_pyramidizer.SubBlocks.{narrow_size}
use czi_pyramidizer.OutputTile.{CompressionMode}

-- libCZI's `CompressParameter` and its keys.
pub data CompressionParameterKey : Type 0 where
  jxrlib_quality zstd_rawcompressionlevel zstd_preprocess_dolohibytepacking :
      CompressionParameterKey

pub data CompressParameter : Type 0 where
  uint32 : ℕ → CompressParameter
  int32 : ℤ → CompressParameter
  boolean : Bool → CompressParameter

abbrev pub CompressParameters : Type 0
CompressParameters = List (CompressionParameterKey × CompressParameter)

-- The switch over the mode of the first subblock.
unfoldable pub parameters_for :
    CompressionMode → Option (CompressionMode × Option CompressParameters)
parameters_for CompressionMode.jpg_xr =
    some (CompressionMode.jpg_xr, some ((CompressionParameterKey.jxrlib_quality, uint32 950) ∷ []))
parameters_for CompressionMode.zstd0 = some (
  CompressionMode.zstd0,
  some ((CompressionParameterKey.zstd_rawcompressionlevel, int32 (pos 0)) ∷ []),
)
parameters_for CompressionMode.zstd1 = some (
  CompressionMode.zstd1,
  some (
      (CompressionParameterKey.zstd_rawcompressionlevel, int32 (pos 0))
      ∷ (CompressionParameterKey.zstd_preprocess_dolohibytepacking, boolean true)
      ∷ []),
)
parameters_for CompressionMode.un_compressed = some (CompressionMode.un_compressed, none)
parameters_for CompressionMode.invalid = none
parameters_for CompressionMode.jpg = none

-- The callback of `EnumSubset` ends the enumeration at the first subblock.
unfoldable pub first_mode : List CompressionMode → Option CompressionMode
first_mode [] = none
first_mode (mode ∷ modes) = some mode

-- The mode of the command line, and those of the subblocks of layer 0.
unfoldable pub try_to_determine_compression_mode :
    CompressionMode → List CompressionMode → Option (CompressionMode × Option CompressParameters)
try_to_determine_compression_mode CompressionMode.invalid modes = elim (first_mode modes) [
  | none ↦ none
  | some mode ↦ parameters_for mode
]
try_to_determine_compression_mode mode modes = none
