-- ===== src/Tiling.antt =====
-- libpyramidizer/inc/tiling_enumerator.h: a rectangle cut into tiles, which are numbered row by row.
-- Extents of tiles and tile numbers are `std::uint32_t`, so sums and products wrap; a tile of
-- extent 0 is a division by zero.
pub mod Grid
pub mod Cover
pub mod Loop
use czi_pyramidizer.Prelude.{
  ℕ, zero, suc, ◌+◌, ◌-◌, ◌*◌, ◌%◌, List, [], ◌∷◌, ltb, ◌==◌, if◌then◌else◌,
}
use czi_pyramidizer.Prelude.Int.{ℤ, ◌+ℤ◌, ◌-ℤ◌, min_ℤ}
use czi_pyramidizer.Prelude.Words.{u32_mod, to_u32, to_int}
use czi_pyramidizer.Prelude.Outcome.{Outcome, ok, err, stuck, ◌>>=◌, div_u32, mod_u32}
use czi_pyramidizer.Rect.{IntRect}

pub record TilingEnumerator : Type 0 where
  pub roi : IntRect
  pub tile_width : ℕ
  pub tile_height : ℕ

-- `(extent + tile - 1) / tile` for an `int` and a `std::uint32_t`.
unfoldable pub tiles_along : ℤ → ℕ → Outcome ℕ
tiles_along extent tile = div_u32 ((to_u32 extent + tile + (u32_mod - 1)) % u32_mod) tile

unfoldable pub get_number_of_tiles : TilingEnumerator → Outcome ℕ
get_number_of_tiles e = do
  columns ← tiles_along e.roi.w e.tile_width
  rows ← tiles_along e.roi.h e.tile_height
  ok (columns * rows % u32_mod)

unfoldable pub get_roi : TilingEnumerator → ℕ → Outcome IntRect
get_roi e tile_no = do
  tiles_per_row ← tiles_along e.roi.w e.tile_width
  row ← div_u32 tile_no tiles_per_row
  col ← mod_u32 tile_no tiles_per_row
  let left = to_int (col * e.tile_width % u32_mod)
  let top = to_int (row * e.tile_height % u32_mod)
  ok (record {
    x = e.roi.x +ℤ left;
    y = e.roi.y +ℤ top;
    w = min_ℤ (to_int e.tile_width) (e.roi.w -ℤ left);
    h = min_ℤ (to_int e.tile_height) (e.roi.h -ℤ top);
  })

-- The iterator is the number of its tile. `operator++` stays at the end.
unfoldable pub next : TilingEnumerator → ℕ → Outcome ℕ
next e tile_no = do
  tiles ← get_number_of_tiles e
  ok (if ltb tile_no tiles then tile_no + 1 else tile_no)

-- A range-based `for` from the iterator `tile_no` up to the iterator `stop`: the rectangles that
-- the body is given, in order.
unfoldable pub iterate : ℕ → TilingEnumerator → ℕ → ℕ → Outcome (List IntRect)
iterate zero e tile_no stop = err stuck
iterate (suc fuel) e tile_no stop =
    let round = do
      rect ← get_roi e tile_no
      following ← next e tile_no
      rects ← iterate fuel e following stop
      ok (rect ∷ rects)
    in if tile_no == stop then ok [] else round

-- `for (const auto tile_rectangle : tiling_enumerator)`. Each round moves the iterator on by one,
-- so the number of tiles and one more round, which ends the loop, is fuel enough.
unfoldable pub tile_rectangles : TilingEnumerator → Outcome (List IntRect)
tile_rectangles e = do stop ← get_number_of_tiles e; iterate (stop + 1) e 0 stop
