-- ===== src/OutputTile.antt =====
-- libpyramidizer/src/do_pyramidize.cpp: `DoPyramidize::Impl::WritePyramidOutputTile` and the
-- functions that it hands the tile to. libCZI's codecs are the interface `Codecs`; a compressed
-- block is the list of its bytes. A call returns what it passes to `SyncAddSubBlock`.
pub mod Written
use czi_pyramidizer.Prelude.{Bool, false, ℕ, List, Option, none, some, length}
use czi_pyramidizer.Prelude.Int.{ℤ}
use czi_pyramidizer.Prelude.Outcome.{Outcome, ok, err, runtime_error, ◌>>=◌}
use czi_pyramidizer.Rect.{IntRect}
use czi_pyramidizer.Bitmap.{PixelType, Bitmap, Memory}
use czi_pyramidizer.Compose.{narrow_int}
use czi_pyramidizer.SubBlocks.{SubBlockPyramidType, narrow_size}

-- libCZI's `CompressionMode`.
pub data CompressionMode : Type 0 where
  invalid un_compressed jpg jpg_xr zstd0 zstd1 : CompressionMode

-- libCZI's compressors, each of which may throw. Parameters are those of the command line or of
-- the source, or a null pointer.
pub record Codecs (Parameters : Type 0) : Type 0 where
  pub jxr_compress : Bitmap → Option Parameters → Outcome (List ℕ)
  pub compress_zstd0 : Bitmap → Option Parameters → Outcome (List ℕ)
  pub compress_zstd1 : Bitmap → Option Parameters → Outcome (List ℕ)

-- The pixels as they are stored: compressed bytes and their number, or the bitmap's own memory and
-- its stride.
pub data Stored : Type 0 where
  mem_ptr : List ℕ → ℕ → Stored
  strided_bitmap : Memory → ℕ → Stored

-- libCZI's `AddSubBlockInfoMemPtr` and `AddSubBlockInfoStridedBitmap`, as a tile is written. The
-- M-index is marked invalid in all of them.
pub record TileInfo (Coordinate : Type 0) : Type 0 where
  pub coordinate : Coordinate
  pub x : ℤ
  pub y : ℤ
  pub logical_width : ℤ
  pub logical_height : ℤ
  pub physical_width : ℤ
  pub physical_height : ℤ
  pub pixel_type : PixelType
  pub compression_mode : CompressionMode
  pub pyramid_type : SubBlockPyramidType
  pub m_index_valid : Bool
  pub stored : Stored

module _ {Coordinate Parameters : Type 0} (codecs : Codecs Parameters) where
  open codecs use {jxr_compress, compress_zstd0, compress_zstd1}

  -- The fields that all of the functions fill in alike.
  unfoldable pub tile_info :
      Bitmap
      → Coordinate
      → IntRect
      → CompressionMode
      → Outcome Stored
      → Outcome (TileInfo Coordinate)
  tile_info pyramid_tile coordinate roi mode stored = do
    physical_width ← narrow_int pyramid_tile.width
    physical_height ← narrow_int pyramid_tile.height
    contents ← stored
    ok (record {
      coordinate = coordinate;
      x = roi.x;
      y = roi.y;
      logical_width = roi.w;
      logical_height = roi.h;
      physical_width = physical_width;
      physical_height = physical_height;
      pixel_type = pyramid_tile.pixel_type;
      compression_mode = mode;
      pyramid_type = SubBlockPyramidType.multi_sub_block;
      m_index_valid = false;
      stored = contents;
    })

  -- The three functions for compressed tiles, which differ in the codec and the mode alone.
  unfoldable pub write_compressed :
      (Bitmap → Option Parameters → Outcome (List ℕ))
      → CompressionMode
      → Bitmap
      → Coordinate
      → IntRect
      → Option Parameters
      → Outcome (TileInfo Coordinate)
  write_compressed compress mode pyramid_tile coordinate roi parameters = do
    compressed_bitmap ← compress pyramid_tile parameters
    tile_info pyramid_tile coordinate roi mode (do
      data_size ← narrow_size (length compressed_bitmap)
      ok (mem_ptr compressed_bitmap data_size))

  unfoldable pub write_uncompressed : Bitmap → Coordinate → IntRect → Outcome (TileInfo Coordinate)
  write_uncompressed pyramid_tile coordinate roi =
      tile_info pyramid_tile coordinate roi CompressionMode.un_compressed
        (ok (strided_bitmap pyramid_tile.memory pyramid_tile.stride))

  -- The switch over the mode.
  unfoldable pub write_in_mode :
      CompressionMode
      → Option Parameters
      → Bitmap
      → Coordinate
      → IntRect
      → Outcome (TileInfo Coordinate)
  write_in_mode CompressionMode.un_compressed parameters tile coordinate roi =
      write_uncompressed tile coordinate roi
  write_in_mode CompressionMode.invalid parameters tile coordinate roi =
      write_uncompressed tile coordinate roi
  write_in_mode CompressionMode.zstd1 parameters tile coordinate roi =
      write_compressed compress_zstd1 CompressionMode.zstd1 tile coordinate roi parameters
  write_in_mode CompressionMode.zstd0 parameters tile coordinate roi =
      write_compressed compress_zstd0 CompressionMode.zstd0 tile coordinate roi parameters
  write_in_mode CompressionMode.jpg_xr parameters tile coordinate roi =
      write_compressed jxr_compress CompressionMode.jpg_xr tile coordinate roi parameters
  write_in_mode CompressionMode.jpg parameters tile coordinate roi = err runtime_error

  -- The mode of the command line and its parameters, and those determined from the source, if any.
  unfoldable pub write_pyramid_output_tile :
      CompressionMode
      → Option Parameters
      → Option (CompressionMode × Option Parameters)
      → Bitmap
      → Coordinate
      → IntRect
      → Outcome (TileInfo Coordinate)
  write_pyramid_output_tile CompressionMode.invalid parameters (some from_source) tile coordinate
        roi =
      write_in_mode from_source.0 from_source.1 tile coordinate roi
  write_pyramid_output_tile mode parameters from_source tile coordinate roi =
      write_in_mode mode parameters tile coordinate roi
