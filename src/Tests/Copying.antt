-- ===== src/Tests/Copying.antt =====
-- Bitmaps made from data, and subblocks copied, run and instantiated.
use czi_pyramidizer.Prelude.{
  zero, suc, ℕ, ◌+◌, ◌*◌, ◌<◌, ◌≡◌, refl, List, [], ◌∷◌, some, arith, true,
}
use czi_pyramidizer.Prelude.Int.{pos, negsuc}
use czi_pyramidizer.Prelude.Outcome.{Outcome, ok}
use czi_pyramidizer.Bitmap.{PixelType, Bitmap, DataToCopy, create_bitmap, bytes_per_pel}
use czi_pyramidizer.Bitmap.Create.{IsCreated, create_bitmap-IsCreated}
use czi_pyramidizer.SubBlocks.{
  SubBlock, SubBlockPyramidType, CopyCall, int_max, copy_sub_blocks_to_destination,
}
use czi_pyramidizer.SubBlocks.Copies.{
  AllCopies, added, counted, copy_sub_blocks_to_destination-AllCopies,
}
use czi_pyramidizer.Tests.Ops.{rect}

-- Two lines of three pixels of 24 bits, with a byte between the lines.
abbrev six_pixels : DataToCopy
six_pixels = record { bytes = λ i. i; count = 20; data_to_copy_stride = 10 }

create_bitmap-IsCreated_example :
    (b : Bitmap) × (create_bitmap (λ i. 0) PixelType.bgr24 3 2 (some six_pixels) ≡ ok b)
    × IsCreated PixelType.bgr24 3 2 3 b
    × ((y i : ℕ) → y < 2 → i < 9 → b.memory (y * b.stride + i) ≡ y * 10 + i)
unfolding bytes_per_pel
create_bitmap-IsCreated_example =
    create_bitmap-IsCreated (λ i. 0) PixelType.bgr24 3 2 3 six_pixels refl (omega arith)
      (omega arith) (omega arith)

-- A subblock with an M-index, and a scaled one without.
abbrev own : SubBlock ℕ
own = record {
  info = record {
    coordinate = 5;
    logical_rect = rect (negsuc 3) (pos 2) (pos 4) (pos 3);
    physical_width = 4;
    physical_height = 3;
    pixel_type = PixelType.gray8;
    m_index = pos 7;
    pyramid_type = SubBlockPyramidType.no_pyramid;
    compression_mode_raw = pos 0;
  };
  raw_data = 1 ∷ 2 ∷ 3 ∷ [];
  metadata = [];
  attachment = 9 ∷ [];
}

abbrev unset : SubBlock ℕ
unset = record own { info = record own.info { m_index = int_max } }

abbrev reader : ℕ → Outcome (SubBlock ℕ)
reader i = elim i [ zero ↦ ok own | suc n ↦ ok unset ]

copy_sub_blocks_to_destination-AllCopies_example :
    (calls : List (CopyCall ℕ)) × (copy_sub_blocks_to_destination reader true 5 (0 ∷ 1 ∷ [])
      ≡ ok calls)
    × AllCopies (own ∷ unset ∷ []) (added calls)
    × (counted calls ≡ (2, 0) ∷ (2, 1) ∷ (2, 2) ∷ [])
copy_sub_blocks_to_destination-AllCopies_example =
    copy_sub_blocks_to_destination-AllCopies reader 5 (0 ∷ 1 ∷ []) (own ∷ unset ∷ [])
      (refl, omega arith, (refl, omega arith, tt)) (omega arith)
