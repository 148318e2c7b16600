-- ===== src/SourceMode/Kept.antt =====
-- A pyramid tile is stored as the source's subblocks are.
use czi_pyramidizer.Prelude.{◌<◌, List, [], ◌∷◌, Option, none, some, true}
use czi_pyramidizer.Prelude.Int.{pos}
use czi_pyramidizer.Prelude.Words.{int_limit}
use czi_pyramidizer.Rect.{IntRect}
use czi_pyramidizer.Bitmap.{Bitmap}
use czi_pyramidizer.OutputTile.{CompressionMode, Codecs, write_in_mode, write_pyramid_output_tile}
use czi_pyramidizer.OutputTile.Written.{TileAnswer, write_in_mode_answer}
use czi_pyramidizer.SourceMode.{
  CompressionParameterKey, uint32, int32, boolean, CompressParameters, first_mode, parameters_for,
  try_to_determine_compression_mode,
}

-- The mode of the first subblock, or no compression where it is one that tiles are not written in.
abbrev pub kept_mode : List CompressionMode → CompressionMode
kept_mode [] = CompressionMode.un_compressed
kept_mode (CompressionMode.invalid ∷ modes) = CompressionMode.un_compressed
kept_mode (CompressionMode.un_compressed ∷ modes) = CompressionMode.un_compressed
kept_mode (CompressionMode.jpg ∷ modes) = CompressionMode.un_compressed
kept_mode (CompressionMode.jpg_xr ∷ modes) = CompressionMode.jpg_xr
kept_mode (CompressionMode.zstd0 ∷ modes) = CompressionMode.zstd0
kept_mode (CompressionMode.zstd1 ∷ modes) = CompressionMode.zstd1

-- The parameters for a mode: the quality 950 for JPEG XR, the level 0 for the others, and for Zstd1
-- the packing of the bytes besides.
abbrev pub kept_parameters : CompressionMode → Option CompressParameters
kept_parameters CompressionMode.jpg_xr =
    some ((CompressionParameterKey.jxrlib_quality, uint32 950) ∷ [])
kept_parameters CompressionMode.zstd0 =
    some ((CompressionParameterKey.zstd_rawcompressionlevel, int32 (pos 0)) ∷ [])
kept_parameters CompressionMode.zstd1 = some (
    (CompressionParameterKey.zstd_rawcompressionlevel, int32 (pos 0))
    ∷ (CompressionParameterKey.zstd_preprocess_dolohibytepacking, boolean true)
    ∷ [])
kept_parameters mode = none

-- Where the command line names no mode, a tile whose extents are `int`s is written whatever the
-- subblocks of the source are, or the compressor fails: it is written in the mode of the first of
-- them where tiles can be written in it, by the compressor for it with the parameters for it, else
-- uncompressed, also where the first is JPEG.
pub write_pyramid_output_tile-kept_mode :
    {C : Type 0} (codecs : Codecs CompressParameters) (tile : Bitmap) (coordinate : C)
    (roi : IntRect)
    → tile.width < int_limit
    → tile.height < int_limit
    → (modes : List CompressionMode)
    → TileAnswer codecs tile coordinate roi (kept_mode modes) (kept_parameters (kept_mode modes)) (
        write_pyramid_output_tile codecs CompressionMode.invalid none
          (try_to_determine_compression_mode CompressionMode.invalid modes)
          tile
          coordinate
          roi)
unfolding write_pyramid_output_tile write_in_mode try_to_determine_compression_mode first_mode
    parameters_for
write_pyramid_output_tile-kept_mode codecs tile coordinate roi wide high [] =
    write_in_mode_answer codecs tile coordinate roi wide high CompressionMode.un_compressed
      (kept_parameters CompressionMode.un_compressed)
write_pyramid_output_tile-kept_mode codecs tile coordinate roi wide high
      (CompressionMode.invalid ∷ modes) =
    write_in_mode_answer codecs tile coordinate roi wide high CompressionMode.un_compressed
      (kept_parameters CompressionMode.un_compressed)
write_pyramid_output_tile-kept_mode codecs tile coordinate roi wide high
      (CompressionMode.un_compressed ∷ modes) =
    write_in_mode_answer codecs tile coordinate roi wide high CompressionMode.un_compressed
      (kept_parameters CompressionMode.un_compressed)
write_pyramid_output_tile-kept_mode codecs tile coordinate roi wide high
      (CompressionMode.jpg ∷ modes) =
    write_in_mode_answer codecs tile coordinate roi wide high CompressionMode.un_compressed
      (kept_parameters CompressionMode.un_compressed)
write_pyramid_output_tile-kept_mode codecs tile coordinate roi wide high
      (CompressionMode.jpg_xr ∷ modes) =
    write_in_mode_answer codecs tile coordinate roi wide high CompressionMode.jpg_xr
      (kept_parameters CompressionMode.jpg_xr)
write_pyramid_output_tile-kept_mode codecs tile coordinate roi wide high
      (CompressionMode.zstd0 ∷ modes) =
    write_in_mode_answer codecs tile coordinate roi wide high CompressionMode.zstd0
      (kept_parameters CompressionMode.zstd0)
write_pyramid_output_tile-kept_mode codecs tile coordinate roi wide high
      (CompressionMode.zstd1 ∷ modes) =
    write_in_mode_answer codecs tile coordinate roi wide high CompressionMode.zstd1
      (kept_parameters CompressionMode.zstd1)
