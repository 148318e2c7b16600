-- ===== src/Tests/Writing.antt =====
-- Writing a tile, instantiated with a codec for bitmaps of one pixel.
use czi_pyramidizer.Prelude.{ℕ, List, [], ◌∷◌, none, some, arith}
use czi_pyramidizer.Prelude.Int.{pos}
use czi_pyramidizer.Prelude.Outcome.{ok}
use czi_pyramidizer.Bitmap.{PixelType, Bitmap}
use czi_pyramidizer.OutputTile.{CompressionMode, Codecs, write_pyramid_output_tile}
use czi_pyramidizer.OutputTile.Written.{TileAnswer, write_pyramid_output_tile_answer}
use czi_pyramidizer.Tests.Ops.{rect}

abbrev encode : Bitmap → List ℕ
encode b = b.width ∷ b.height ∷ b.memory 0 ∷ []

abbrev codecs : Codecs ℕ
codecs = record {
  jxr_compress = λ b p. ok (encode b);
  compress_zstd0 = λ b p. ok (encode b);
  compress_zstd1 = λ b p. ok (encode b);
}

abbrev white : Bitmap
white = record {
  pixel_type = PixelType.gray8;
  width = 1;
  height = 1;
  stride = 1;
  size = 1;
  memory = λ i. 255;
}

-- No mode on the command line, and Zstd1 determined from the source.
write_pyramid_output_tile_answer_example :
    TileAnswer {C = ℕ} codecs white 5
      (rect (pos 4) (pos 6) (pos 2) (pos 2))
      CompressionMode.zstd1
      none
      (write_pyramid_output_tile codecs CompressionMode.invalid none
        (some (CompressionMode.zstd1, none))
        white
        5
        (rect (pos 4) (pos 6) (pos 2) (pos 2)))
write_pyramid_output_tile_answer_example =
    write_pyramid_output_tile_answer codecs white 5 (rect (pos 4) (pos 6) (pos 2) (pos 2))
      (omega arith) (omega arith) CompressionMode.invalid none (some (CompressionMode.zstd1, none))
