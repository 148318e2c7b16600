-- ===== src/OutputTile/Written.antt =====
-- What becomes of a pyramid tile that is to be written, in each compression mode.
use czi_pyramidizer.Prelude.{
  ℕ, ◌≤◌, ◌<◌, ◌≡◌, ◌⊎◌, refl, List, Option, none, some, length, false, inl, inr, Bool-cases, ltb,
  arith,
}
use czi_pyramidizer.Prelude.Int.{pos}
use czi_pyramidizer.Prelude.Words.{u32_mod, int_limit}
use czi_pyramidizer.Prelude.Outcome.{
  Outcome, ok, err, Error, runtime_error, narrowing_error, Outcome-cases,
}
use czi_pyramidizer.Rect.{IntRect}
use czi_pyramidizer.Bitmap.{Bitmap}
use czi_pyramidizer.Compose.Blend.{narrow_int-ok}
use czi_pyramidizer.SubBlocks.{SubBlockPyramidType, narrow_size}
use czi_pyramidizer.SubBlocks.Copies.{narrow_size-ok}
use czi_pyramidizer.OutputTile.{
  CompressionMode, Codecs, Stored, mem_ptr, strided_bitmap, TileInfo, tile_info, write_compressed,
  write_uncompressed, write_in_mode, write_pyramid_output_tile,
}

-- The mode and the parameters in force: the command line's, else the source's.
abbrev pub in_force :
    {P : Type 0}
    → CompressionMode
    → Option P
    → Option (CompressionMode × Option P)
    → CompressionMode × Option P
in_force CompressionMode.invalid p (some from_source) = from_source
in_force mode p from_source = (mode, p)

-- libCZI's compressor for a mode. Without a mode a tile is stored as it is.
abbrev pub compressor :
    {P : Type 0} → Codecs P → CompressionMode → Option (Bitmap → Option P → Outcome (List ℕ))
compressor codecs CompressionMode.jpg_xr = some codecs.jxr_compress
compressor codecs CompressionMode.zstd0 = some codecs.compress_zstd0
compressor codecs CompressionMode.zstd1 = some codecs.compress_zstd1
compressor codecs mode = none

abbrev pub IsPlain : CompressionMode → Type 0
IsPlain mode = (mode ≡ CompressionMode.un_compressed) ⊎ (mode ≡ CompressionMode.invalid)

-- The tile info of a tile for the region roi: a subblock of a pyramid, without an M-index, marked
-- with a mode, and with the contents that are stored.
pub record IsWritten {C : Type 0} (tile : Bitmap) (coordinate : C) (roi : IntRect)
    (mode : CompressionMode) (contents : Stored) (a : TileInfo C) : Type 0 where
  pub coordinate_is : a.coordinate ≡ coordinate
  pub position : (a.x ≡ roi.x) × (a.y ≡ roi.y)
  pub logical : (a.logical_width ≡ roi.w) × (a.logical_height ≡ roi.h)
  pub physical : (a.physical_width ≡ pos tile.width) × (a.physical_height ≡ pos tile.height)
  pub type_is : a.pixel_type ≡ tile.pixel_type
  pub mode_is : a.compression_mode ≡ mode
  pub of_pyramid : a.pyramid_type ≡ SubBlockPyramidType.multi_sub_block
  pub no_m_index : a.m_index_valid ≡ false
  pub contents_are : a.stored ≡ contents

module _ {C P : Type 0} (codecs : Codecs P) (tile : Bitmap) (coordinate : C) (roi : IntRect) where
  -- Without a mode the tile's own memory is stored. In a mode with a compressor its bytes are
  -- stored, an exception of it is passed on, and 2 ^ 32 bytes or more are refused. JPEG is refused.
  pub data TileAnswer (mode : CompressionMode) (p : Option P) (written : Outcome (TileInfo C))
      : Type 0 where
    plain :
        (a : TileInfo C)
        → IsPlain mode
        → written ≡ ok a
        → IsWritten tile coordinate roi CompressionMode.un_compressed
            (strided_bitmap tile.memory tile.stride)
            a
        → TileAnswer mode p written
    compressed :
        (compress : Bitmap → Option P → Outcome (List ℕ)) (bytes : List ℕ) (a : TileInfo C)
        → compressor codecs mode ≡ some compress
        → compress tile p ≡ ok bytes
        → length bytes < u32_mod
        → written ≡ ok a
        → IsWritten tile coordinate roi mode (mem_ptr bytes (length bytes)) a
        → TileAnswer mode p written
    too_long :
        (compress : Bitmap → Option P → Outcome (List ℕ)) (bytes : List ℕ)
        → compressor codecs mode ≡ some compress
        → compress tile p ≡ ok bytes
        → u32_mod ≤ length bytes
        → written ≡ err narrowing_error
        → TileAnswer mode p written
    thrown :
        (compress : Bitmap → Option P → Outcome (List ℕ)) (e : Error)
        → compressor codecs mode ≡ some compress
        → compress tile p ≡ err e
        → written ≡ err e
        → TileAnswer mode p written
    jpeg : mode ≡ CompressionMode.jpg → written ≡ err runtime_error → TileAnswer mode p written

narrow_size-err : (n : ℕ) → ltb n u32_mod ≡ false → narrow_size n ≡ err narrowing_error
unfolding narrow_size
narrow_size-err n h = rw h refl

module _ {C P : Type 0} (codecs : Codecs P) (tile : Bitmap) (coordinate : C) (roi : IntRect)
    (width_fits : tile.width < int_limit) (height_fits : tile.height < int_limit) where
  abbrev info_of : CompressionMode → Stored → TileInfo C
  info_of mode stored = record {
    coordinate = coordinate;
    x = roi.x;
    y = roi.y;
    logical_width = roi.w;
    logical_height = roi.h;
    physical_width = pos tile.width;
    physical_height = pos tile.height;
    pixel_type = tile.pixel_type;
    compression_mode = mode;
    pyramid_type = SubBlockPyramidType.multi_sub_block;
    m_index_valid = false;
    stored = stored;
  }

  info_of-IsWritten :
      (mode : CompressionMode) (stored : Stored)
      → IsWritten tile coordinate roi mode stored (info_of mode stored)
  info_of-IsWritten mode stored = record {
    coordinate_is = refl;
    position = (refl, refl);
    logical = (refl, refl);
    physical = (refl, refl);
    type_is = refl;
    mode_is = refl;
    of_pyramid = refl;
    no_m_index = refl;
    contents_are = refl;
  }

  write_compressed_answer :
      (compress : Bitmap → Option P → Outcome (List ℕ)) (mode : CompressionMode) (p : Option P)
      → compressor codecs mode ≡ some compress
      → TileAnswer codecs tile coordinate roi mode p
          (write_compressed codecs compress mode tile coordinate roi p)
  unfolding write_compressed tile_info
  write_compressed_answer compress mode p of_mode = elim (Outcome-cases (compress tile p)) [
    | inr (e, fails) ↦ thrown compress e of_mode fails (rw (write_compressed, fails) refl)
    | inl (bytes, gives) ↦ elim (Bool-cases (ltb (length bytes) u32_mod)) [
      | inl fits ↦
          let short : length bytes < u32_mod = ground arith in
          compressed compress bytes (info_of mode (mem_ptr bytes (length bytes))) of_mode gives
            short
            (rw
              (
                write_compressed,
                gives,
                narrow_int-ok tile.width width_fits,
                narrow_int-ok tile.height height_fits,
                narrow_size-ok (length bytes) short,
              )
              refl)
            (info_of-IsWritten mode (mem_ptr bytes (length bytes)))
      | inr long ↦ too_long compress bytes of_mode gives (ground arith) (
          rw
            (
              write_compressed,
              gives,
              narrow_int-ok tile.width width_fits,
              narrow_int-ok tile.height height_fits,
              narrow_size-err (length bytes) long,
            )
            refl)
    ]
  ]

  write_uncompressed_answer :
      (mode : CompressionMode) (p : Option P)
      → IsPlain mode
      → TileAnswer codecs tile coordinate roi mode p (write_uncompressed codecs tile coordinate roi)
  unfolding write_uncompressed tile_info
  write_uncompressed_answer mode p is_plain =
      plain (info_of CompressionMode.un_compressed (strided_bitmap tile.memory tile.stride))
        is_plain
        (rw (narrow_int-ok tile.width width_fits, narrow_int-ok tile.height height_fits) refl)
        (info_of-IsWritten CompressionMode.un_compressed (strided_bitmap tile.memory tile.stride))

  pub write_in_mode_answer :
      (mode : CompressionMode) (p : Option P)
      → TileAnswer codecs tile coordinate roi mode p
          (write_in_mode codecs mode p tile coordinate roi)
  unfolding write_in_mode
  write_in_mode_answer CompressionMode.invalid p =
      write_uncompressed_answer CompressionMode.invalid p (inr refl)
  write_in_mode_answer CompressionMode.un_compressed p =
      write_uncompressed_answer CompressionMode.un_compressed p (inl refl)
  write_in_mode_answer CompressionMode.jpg p = jpeg refl refl
  write_in_mode_answer CompressionMode.jpg_xr p =
      write_compressed_answer codecs.jxr_compress CompressionMode.jpg_xr p refl
  write_in_mode_answer CompressionMode.zstd0 p =
      write_compressed_answer codecs.compress_zstd0 CompressionMode.zstd0 p refl
  write_in_mode_answer CompressionMode.zstd1 p =
      write_compressed_answer codecs.compress_zstd1 CompressionMode.zstd1 p refl

  -- Writing a tile whose extents are `int`s, in the mode and with the parameters in force, which are
  -- the command line's, or the source's where the command line names no mode. Without a mode, or
  -- for an uncompressed one, a subblock with the tile's own memory is written. With a compressor for
  -- the mode, called on the tile with the parameters, a subblock with its bytes is written, marked
  -- with the mode; an exception that it throws is passed on, and 2 ^ 32 bytes or more are refused by
  -- a narrowing error. JPEG is refused by a `std::runtime_error`. A subblock that is written is one
  -- of a pyramid, without an M-index, at the rectangle and with the extents and the type of the tile.
  pub write_pyramid_output_tile_answer :
      (mode : CompressionMode) (p : Option P) (from_source : Option (CompressionMode × Option P))
      → TileAnswer codecs tile coordinate roi
          (in_force mode p from_source).0
          (in_force mode p from_source).1
          (write_pyramid_output_tile codecs mode p from_source tile coordinate roi)
  unfolding write_pyramid_output_tile
  write_pyramid_output_tile_answer CompressionMode.invalid p none =
      write_in_mode_answer CompressionMode.invalid p
  write_pyramid_output_tile_answer CompressionMode.invalid p (some (mode, q)) =
      write_in_mode_answer mode q
  write_pyramid_output_tile_answer CompressionMode.un_compressed p s =
      write_in_mode_answer CompressionMode.un_compressed p
  write_pyramid_output_tile_answer CompressionMode.jpg p s =
      write_in_mode_answer CompressionMode.jpg p
  write_pyramid_output_tile_answer CompressionMode.jpg_xr p s =
      write_in_mode_answer CompressionMode.jpg_xr p
  write_pyramid_output_tile_answer CompressionMode.zstd0 p s =
      write_in_mode_answer CompressionMode.zstd0 p
  write_pyramid_output_tile_answer CompressionMode.zstd1 p s =
      write_in_mode_answer CompressionMode.zstd1 p
