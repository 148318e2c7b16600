-- ===== src/Tests/Layers.antt =====
-- Composing and the tiles of a layer, run and instantiated.
use czi_pyramidizer.Prelude.{◌↔◌, List, ℕ, ◌/◌, ◌≡◌, refl, [], ◌∷◌, arith}
use czi_pyramidizer.Prelude.Int.{ℤ, pos, negsuc, ◌+ℤ◌, ◌-ℤ◌, int_laws, pos_part}
use czi_pyramidizer.Prelude.Outcome.{ok}
use czi_pyramidizer.Rect.{Contains}
use czi_pyramidizer.Bitmap.{PixelType, Memory, Bitmap}
use czi_pyramidizer.Compose.{copy_at}
use czi_pyramidizer.Compose.Blend.{IsLaidOut, pixel_offset, blended, copy_at-blended}
use czi_pyramidizer.TileHelper.Hull.{InTiles}
use czi_pyramidizer.Imaging.{Imaging}
use czi_pyramidizer.Upper.{
  get_tiles_intersecting, Call, execute, PyramidizerOptions, Tile, rects_of,
}
use czi_pyramidizer.Tiling.Cover.{IsTileable}
use czi_pyramidizer.Upper.Coverage.{IsCovered}
use czi_pyramidizer.Upper.Intersecting.{IsOneOf, Finds, get_tiles_intersecting_iff}
use czi_pyramidizer.Upper.Run.{tiles_of_region, execute-IsCovered}
use czi_pyramidizer.Decimate.Halved.{gray8}
use czi_pyramidizer.Tests.Composing.{real}
use czi_pyramidizer.Tests.Ops.{rect, concrete_ops}

abbrev one_byte : PixelType → ℕ
one_byte type = 1

-- A dark bitmap of two by two pixels, and a light one of one pixel.
abbrev dark : Bitmap
dark = record {
  pixel_type = PixelType.gray8;
  width = 2;
  height = 2;
  stride = 4;
  size = 8;
  memory = λ i. 0;
}

abbrev light : Bitmap
light = record {
  pixel_type = PixelType.gray8;
  width = 1;
  height = 1;
  stride = 4;
  size = 4;
  memory = λ i. 255;
}

dark-IsLaidOut : IsLaidOut 1 dark
dark-IsLaidOut = omega arith

light-IsLaidOut : IsLaidOut 1 light
light-IsLaidOut = omega arith

light_on_dark : blended 1 dark light (pos 1) (pos 1) 1 1 0 ≡ 255
unfolding ◌+ℤ◌
light_on_dark = refl

copy_at-blended_example :
    (m : Memory) × (copy_at concrete_ops one_byte dark light (pos 1) (pos 1)
      ≡ ok (record dark { memory = m }))
    × (m (pixel_offset 1 dark 1 1 0) ≡ blended 1 dark light (pos 1) (pos 1) 1 1 0)
copy_at-blended_example =
    copy_at-blended concrete_ops one_byte dark light (pos 1) (pos 1) dark-IsLaidOut light-IsLaidOut
      1 1 0 (omega arith) (omega arith) (omega arith)

-- Bitmaps by their extents alone.
pub record Extents : Type 0 where
  pub width : ℕ
  pub height : ℕ
  pub pixel_type : PixelType

abbrev pub extents : Imaging
extents = record {
  Image = Extents;
  width = λ b. b.width;
  height = λ b. b.height;
  pixel_type = λ b. b.pixel_type;
  Supports = λ t. Unit;
  IsOf = λ t b. b.pixel_type ≡ t;
  compose = λ roi t placements.
      ok (record { width = pos_part roi.w; height = pos_part roi.h; pixel_type = t });
  decimate =
      λ b. ok (record { width = b.width / 2; height = b.height / 2; pixel_type = b.pixel_type });
  IsOf-pixel_type = λ t b e. e;
  IsOf-Supports = λ t b e. tt;
  compose_returns = λ roi t placements supported n w h all. (_, refl, refl, refl, refl);
  decimate_returns = λ t b e w h. (_, refl, e, refl, refl);
}

abbrev ten_by_ten : Bitmap
ten_by_ten = record {
  pixel_type = PixelType.gray8;
  width = 10;
  height = 10;
  stride = 12;
  size = 120;
  memory = λ i. 0;
}

tile_is : real.IsOf PixelType.gray8 ten_by_ten
tile_is = (refl, (_, _, gray8), omega arith)

abbrev layer_tile : ℤ → ℤ → Tile Bitmap
layer_tile x y = record { rect = rect x y (pos 20) (pos 20); bitmap = ten_by_ten }

-- Two tiles of layer 1 that meet, not on multiples of 4, and the tile of layer 2 over both.
abbrev layer_2 : PyramidizerOptions Bitmap
layer_2 = record {
  tiles = layer_tile (negsuc 8) (pos 0) ∷ layer_tile (pos 11) (pos 2) ∷ [];
  region = rect (negsuc 8) (pos 0) (pos 40) (pos 22);
  pyramid_layer = 2;
  pyramid_tile_width = 64;
  pyramid_tile_height = 64;
}

layer_2-IsTileable : IsTileable (tiles_of_region concrete_ops real layer_2 1)
unfolding ◌+ℤ◌ ◌-ℤ◌
layer_2-IsTileable = omega arith

execute-IsCovered_example :
    (calls : List (Call Bitmap)) × (execute concrete_ops real layer_2 ≡ ok calls)
    × IsCovered concrete_ops real 4 PixelType.gray8
        (λ p. InTiles (rects_of layer_2.tiles) p × Contains layer_2.region p)
        ((1, 0) ∷ (1, 1) ∷ [])
        calls
unfolding ◌+ℤ◌ ◌-ℤ◌
execute-IsCovered_example =
    execute-IsCovered concrete_ops real layer_2 1 536870912 PixelType.gray8 refl (omega arith) refl
      (tile_is, (tile_is, tt)) (omega arith) (omega int_laws) (omega int_laws) layer_2-IsTileable

-- The second tile is found.
get_tiles_intersecting_iff_example :
    IsOneOf 1 (
      get_tiles_intersecting concrete_ops real 0 layer_2.tiles
        (rect (pos 25) (pos 5) (pos 3) (pos 3)))
    ↔ Finds concrete_ops real layer_2.tiles (rect (pos 25) (pos 5) (pos 3) (pos 3)) 1
get_tiles_intersecting_iff_example =
    get_tiles_intersecting_iff concrete_ops real layer_2.tiles
      (rect (pos 25) (pos 5) (pos 3) (pos 3)) 1
