-- ===== src/SubBlocks.antt =====
-- libpyramidizer/src/do_pyramidize.cpp: `DoPyramidize::Impl::CopySubBlocksToDestination`, which
-- copies the subblocks of a plane into the destination document. libCZI's reader is a parameter, as
-- is the type of its coordinates; a block of memory is the list of its bytes, empty where libCZI
-- gives a null pointer. The writer and the progress reporter return nothing, so that a run is the
-- list of the calls that it makes of them, in order.
pub mod Copies
use czi_pyramidizer.Prelude.{
  ℕ, ◌+◌, ◌%◌, List, [], ◌∷◌, ◌++◌, Bool, true, false, not, ◌&&◌, ltb, if◌then◌else◌, length,
}
use czi_pyramidizer.Prelude.Int.{ℤ, pos, eqb_ℤ}
use czi_pyramidizer.Prelude.Words.{u32_mod}
use czi_pyramidizer.Prelude.Outcome.{Outcome, ok, err, narrowing_error, ◌>>=◌}
use czi_pyramidizer.Rect.{IntRect}
use czi_pyramidizer.Bitmap.{PixelType}
use czi_pyramidizer.Compose.{narrow_int}

-- libCZI's `SubBlockPyramidType`, as far as the source tells it apart.
pub data SubBlockPyramidType : Type 0 where
  no_pyramid single_sub_block multi_sub_block : SubBlockPyramidType

-- The fields of libCZI's `SubBlockInfo` that the source reads.
pub record SubBlockInfo (Coordinate : Type 0) : Type 0 where
  pub coordinate : Coordinate
  pub logical_rect : IntRect
  pub physical_width : ℕ
  pub physical_height : ℕ
  pub pixel_type : PixelType
  pub m_index : ℤ
  pub pyramid_type : SubBlockPyramidType
  pub compression_mode_raw : ℤ

-- A subblock that was read: its info, and its three blocks of memory.
pub record SubBlock (Coordinate : Type 0) : Type 0 where
  pub info : SubBlockInfo Coordinate
  pub raw_data : List ℕ
  pub metadata : List ℕ
  pub attachment : List ℕ

-- libCZI's `AddSubBlockInfoMemPtr`, as the source fills it in.
pub record AddSubBlockInfo (Coordinate : Type 0) : Type 0 where
  pub raw_data : List ℕ
  pub data_size : ℕ
  pub metadata : List ℕ
  pub metadata_size : ℕ
  pub attachment : List ℕ
  pub attachment_size : ℕ
  pub coordinate : Coordinate
  pub x : ℤ
  pub y : ℤ
  pub logical_width : ℤ
  pub logical_height : ℤ
  pub physical_width : ℤ
  pub physical_height : ℤ
  pub pixel_type : PixelType
  pub pyramid_type : SubBlockPyramidType
  pub m_index : ℤ
  pub m_index_valid : Bool
  pub compression_mode_raw : ℤ

-- The calls of `SyncAddSubBlock` and of `ReportProgressCopySubBlock`.
pub data CopyCall (Coordinate : Type 0) : Type 0 where
  sync_add_sub_block : AddSubBlockInfo Coordinate → CopyCall Coordinate
  report_progress_copy_sub_block : Coordinate → ℕ → ℕ → CopyCall Coordinate

-- `gsl::narrow<uint32_t>` of a `size_t`.
unfoldable pub narrow_size : ℕ → Outcome ℕ
narrow_size n = if ltb n u32_mod then ok n else err narrowing_error

-- `std::numeric_limits<int>::max()`.
abbrev pub int_max : ℤ
int_max = pos 2147483647

module _ {Coordinate : Type 0} where
  -- What the loop's body fills in for a subblock.
  unfoldable pub add_sub_block_info : SubBlock Coordinate → Outcome (AddSubBlockInfo Coordinate)
  add_sub_block_info sub_block = do
    let info = sub_block.info
    data_size ← narrow_size (length sub_block.raw_data)
    metadata_size ← narrow_size (length sub_block.metadata)
    attachment_size ← narrow_size (length sub_block.attachment)
    physical_width ← narrow_int info.physical_width
    physical_height ← narrow_int info.physical_height
    let keeps_m_index =
        eqb_ℤ physical_width info.logical_rect.w
        && eqb_ℤ physical_height info.logical_rect.h
        && not (eqb_ℤ info.m_index int_max)
    ok (record {
      raw_data = sub_block.raw_data;
      data_size = data_size;
      metadata = sub_block.metadata;
      metadata_size = metadata_size;
      attachment = sub_block.attachment;
      attachment_size = attachment_size;
      coordinate = info.coordinate;
      x = info.logical_rect.x;
      y = info.logical_rect.y;
      logical_width = info.logical_rect.w;
      logical_height = info.logical_rect.h;
      physical_width = physical_width;
      physical_height = physical_height;
      pixel_type = info.pixel_type;
      pyramid_type = info.pyramid_type;
      m_index = if keeps_m_index then info.m_index else pos 0;
      m_index_valid = keeps_m_index;
      compression_mode_raw = info.compression_mode_raw;
    })

  -- One report, if the context has a progress reporter.
  unfoldable pub report_copy : Bool → Coordinate → ℕ → ℕ → List (CopyCall Coordinate)
  report_copy reporting plane total done =
      if reporting then report_progress_copy_sub_block plane total (done % u32_mod) ∷ [] else []

  module _ (read_sub_block : ℕ → Outcome (SubBlock Coordinate)) (reporting : Bool)
      (plane : Coordinate) where
    -- The loop over the subblocks that are left; the count wraps at 2 ^ 32.
    unfoldable pub copy_sub_blocks : ℕ → ℕ → List ℕ → Outcome (List (CopyCall Coordinate))
    copy_sub_blocks total done [] = ok []
    copy_sub_blocks total done (sub_block_index ∷ indices) = do
      sub_block ← read_sub_block sub_block_index
      info ← add_sub_block_info sub_block
      later ← copy_sub_blocks total (done + 1) indices
      ok (sync_add_sub_block info ∷ report_copy reporting plane total done ++ later)

    unfoldable pub copy_sub_blocks_to_destination : List ℕ → Outcome (List (CopyCall Coordinate))
    copy_sub_blocks_to_destination sub_blocks_of_plane = do
      let total = length sub_blocks_of_plane % u32_mod
      calls ← copy_sub_blocks total 1 sub_blocks_of_plane
      ok (report_copy reporting plane total 0 ++ calls)
