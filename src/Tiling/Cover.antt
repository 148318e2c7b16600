-- ===== src/Tiling/Cover.antt =====
-- The tiles cut the region up: every pixel of it is in exactly one tile.
use native.Mathlib.Nat.{mod-lt, div-add-mod'}
use czi_pyramidizer.Prelude.{
  ◌≢◌, ℕ, ◌+◌, ◌-◌, ◌*◌, ◌/◌, ◌%◌, ◌≤◌, ◌<◌, ◌≡◌, ap, ◌∙◌, sym, arith, subst,
}
use czi_pyramidizer.Prelude.Int.{
  ℤ, pos, negsuc, pos_part, ◌+ℤ◌, ◌-ℤ◌, ◌≤ℤ◌, min_ℤ, int_laws, parts_apart,
}
use czi_pyramidizer.Prelude.Words.{u32_mod, int_limit, to_u32, to_int-small, to_int-mod}
use czi_pyramidizer.Prelude.Outcome.{ok, div_u32, div_u32_lem, mod_u32_lem}
use czi_pyramidizer.Rect.{IntRect, Point, Contains, Within, IsNonEmpty}
use czi_pyramidizer.Tiling.{TilingEnumerator, tiles_along, get_number_of_tiles, get_roi}
use czi_pyramidizer.Tiling.Grid.{
  tile_count, start-lt, offset-tile, in_tile, in_tile_unique, row_of, col_of, row-lt, number-lt,
}

-- A region and a tile size on which no sum and no product wraps.
pub record IsTileable (e : TilingEnumerator) : Type 0 where
  pub width_pos : 0 < e.tile_width
  pub height_pos : 0 < e.tile_height
  pub wide : pos 0 ≤ℤ e.roi.w
  pub high : pos 0 ≤ℤ e.roi.h
  pub width_fits : pos_part e.roi.w + e.tile_width ≤ int_limit
  pub height_fits : pos_part e.roi.h + e.tile_height ≤ int_limit
  pub few :
      tile_count (pos_part e.roi.w) e.tile_width * tile_count (pos_part e.roi.h) e.tile_height
      < u32_mod

abbrev pub columns : TilingEnumerator → ℕ
columns e = tile_count (pos_part e.roi.w) e.tile_width

abbrev pub rows : TilingEnumerator → ℕ
rows e = tile_count (pos_part e.roi.h) e.tile_height

-- The tile in a column and a row.
abbrev pub tile_at : TilingEnumerator → ℕ → ℕ → IntRect
tile_at e col row = record {
  x = e.roi.x +ℤ pos (col * e.tile_width);
  y = e.roi.y +ℤ pos (row * e.tile_height);
  w = min_ℤ (pos e.tile_width) (e.roi.w -ℤ pos (col * e.tile_width));
  h = min_ℤ (pos e.tile_height) (e.roi.h -ℤ pos (row * e.tile_height));
}

tiles_along_lem :
    (extent : ℤ) (tile : ℕ)
    → pos 0 ≤ℤ extent
    → 0 < tile
    → pos_part extent + tile ≤ int_limit
    → tiles_along extent tile ≡ ok (tile_count (pos_part extent) tile)
unfolding tiles_along div_u32 to_u32
tiles_along_lem (pos n) tile h p q = rw sum (ground arith)
  where
    sum : ((n + (u32_mod - 0 % u32_mod)) % u32_mod + tile + (u32_mod - 1)) % u32_mod ≡ n + tile - 1
    sum = omega arith
tiles_along_lem (negsuc n) tile h p q = absurd (omega arith)

-- The number of tiles: the columns that cover the width times the rows that cover the height.
pub get_number_of_tiles_lem :
    (e : TilingEnumerator) → IsTileable e → get_number_of_tiles e ≡ ok (columns e * rows e)
unfolding get_number_of_tiles
get_number_of_tiles_lem e v =
    rw
      (
        tiles_along_lem e.roi.w e.tile_width v.wide v.width_pos v.width_fits,
        tiles_along_lem e.roi.h e.tile_height v.high v.height_pos v.height_fits,
      )
      (ap ok (omega (arith, v.few)))

module _ (e : TilingEnumerator) (v : IsTileable e) (k : ℕ) (k_lt : k < columns e * rows e) where
  columns_pos : 0 < columns e
  columns_pos = grind arith

  col-lt : k % columns e < columns e
  col-lt = mod-lt k columns_pos

  row-lt-rows : k / columns e < rows e
  row-lt-rows = row-lt (columns e) (rows e) k columns_pos k_lt

  left-lt : k % columns e * e.tile_width < pos_part e.roi.w
  left-lt = start-lt (pos_part e.roi.w) e.tile_width v.width_pos (k % columns e) col-lt

  top-lt : k / columns e * e.tile_height < pos_part e.roi.h
  top-lt = start-lt (pos_part e.roi.h) e.tile_height v.height_pos (k / columns e) row-lt-rows

  pub get_roi_lem : get_roi e k ≡ ok (tile_at e (k % columns e) (k / columns e))
  unfolding get_roi
  get_roi_lem = rw (
    tiles_along_lem e.roi.w e.tile_width v.wide v.width_pos v.width_fits,
    div_u32_lem k (columns e) columns_pos,
    mod_u32_lem k (columns e) columns_pos,
    to_int-mod (k % columns e * e.tile_width) (omega (arith, left-lt, v.width_fits)),
    to_int-mod (k / columns e * e.tile_height) (omega (arith, top-lt, v.height_fits)),
    to_int-small e.tile_width (omega (arith, left-lt, v.width_fits)),
    to_int-small e.tile_height (omega (arith, top-lt, v.height_fits)),
  )

  -- A tile is not empty, not larger than the tile size, and lies in the region.
  pub tile_at_bounds :
      let t = tile_at e (k % columns e) (k / columns e) in
      IsNonEmpty t × (t.w ≤ℤ pos e.tile_width) × (t.h ≤ℤ pos e.tile_height) × Within t e.roi
  tile_at_bounds = (
    (
      omega (int_laws, parts_apart e.roi.w, left-lt, v.width_pos, v.wide),
      omega (int_laws, parts_apart e.roi.h, top-lt, v.height_pos, v.high),
    ),
    omega int_laws,
    omega int_laws,
    λ p c. (omega int_laws, omega int_laws, omega int_laws, omega int_laws),
  )

-- Every number below the number of tiles names a tile: a rectangle that is not empty, not larger
-- than the tile size, and inside the region.
pub get_roi_bounds :
    (e : TilingEnumerator) (k : ℕ)
    → IsTileable e
    → k < columns e * rows e
    → (t : IntRect) × (get_roi e k ≡ ok t)
      × IsNonEmpty t
      × (t.w ≤ℤ pos e.tile_width)
      × (t.h ≤ℤ pos e.tile_height)
      × Within t e.roi
get_roi_bounds e k v h =
    let (n, w, h', i) = tile_at_bounds e v k h in
    (tile_at e (k % columns e) (k / columns e), get_roi_lem e v k h, n, w, h', i)

-- The distance of a pixel from the region's corner.
abbrev pub dx : TilingEnumerator → Point → ℕ
dx e p = pos_part (p.px -ℤ e.roi.x)

abbrev pub dy : TilingEnumerator → Point → ℕ
dy e p = pos_part (p.py -ℤ e.roi.y)

-- The number of the tile that a pixel of the region is in.
abbrev pub tile_of : TilingEnumerator → Point → ℕ
tile_of e p = dy e p / e.tile_height * columns e + dx e p / e.tile_width

-- A pixel of the region is in the tile of a column and a row just when its distances are.
tile_at-Contains :
    (e : TilingEnumerator) (p : Point) (col row : ℕ)
    → Contains e.roi p
    → (col * e.tile_width ≤ dx e p) × (dx e p < col * e.tile_width + e.tile_width)
    → (row * e.tile_height ≤ dy e p) × (dy e p < row * e.tile_height + e.tile_height)
    → Contains (tile_at e col row) p
tile_at-Contains e p col row c hx hy =
    omega (int_laws, parts_apart (p.px -ℤ e.roi.x), parts_apart (p.py -ℤ e.roi.y))

Contains-tile_at :
    (e : TilingEnumerator) (p : Point) (col row : ℕ)
    → Contains (tile_at e col row) p
    → ((col * e.tile_width ≤ dx e p) × (dx e p < col * e.tile_width + e.tile_width))
      × ((row * e.tile_height ≤ dy e p) × (dy e p < row * e.tile_height + e.tile_height))
Contains-tile_at e p col row c = (
  (
    omega (int_laws, parts_apart (p.px -ℤ e.roi.x), parts_apart (p.py -ℤ e.roi.y)),
    omega (int_laws, parts_apart (p.px -ℤ e.roi.x), parts_apart (p.py -ℤ e.roi.y)),
  ),
  (
    omega (int_laws, parts_apart (p.px -ℤ e.roi.x), parts_apart (p.py -ℤ e.roi.y)),
    omega (int_laws, parts_apart (p.px -ℤ e.roi.x), parts_apart (p.py -ℤ e.roi.y)),
  ),
)

module _ (e : TilingEnumerator) (v : IsTileable e) (p : Point) (c : Contains e.roi p) where
  dx-lt : dx e p < pos_part e.roi.w
  dx-lt = omega (int_laws, parts_apart (p.px -ℤ e.roi.x), v.wide)

  dy-lt : dy e p < pos_part e.roi.h
  dy-lt = omega (int_laws, parts_apart (p.py -ℤ e.roi.y), v.high)

  col_in : dx e p / e.tile_width < columns e
  col_in = offset-tile (pos_part e.roi.w) e.tile_width v.width_pos (dx e p) dx-lt

  row_in : dy e p / e.tile_height < rows e
  row_in = offset-tile (pos_part e.roi.h) e.tile_height v.height_pos (dy e p) dy-lt

  pub tile_of-lt : tile_of e p < columns e * rows e
  tile_of-lt = number-lt (columns e) (rows e) _ _ row_in col_in

  pub tile_of-Contains : Contains (tile_at e (tile_of e p % columns e) (tile_of e p / columns e)) p
  tile_of-Contains =
      rw (col_of (columns e) _ _ col_in, row_of (columns e) _ _ col_in)
        (tile_at-Contains e p _ _ c (in_tile (dx e p) e.tile_width v.width_pos)
          (in_tile (dy e p) e.tile_height v.height_pos))

tile_number :
    (e : TilingEnumerator) (k : ℕ) (t : IntRect) (p : Point)
    → IsTileable e
    → k < columns e * rows e
    → get_roi e k ≡ ok t
    → Contains t p
    → k ≡ tile_of e p
tile_number e k t p v h g c =
    let same : tile_at e (k % columns e) (k / columns e) ≡ t = cc (get_roi_lem e v k h) in
    let (hx, hy) = Contains-tile_at e p _ _ (subst (λ r. Contains r p) (sym same) c) in
    let col = in_tile_unique (dx e p) e.tile_width (k % columns e) v.width_pos hx.0 hx.1 in
    let row = in_tile_unique (dy e p) e.tile_height (k / columns e) v.height_pos hy.0 hy.1 in
    rw (← col, ← row) (sym (div-add-mod' k (columns e)))

-- No pixel is in two tiles.
pub get_roi-disjoint :
    (e : TilingEnumerator) (j k : ℕ) (s t : IntRect) (p : Point)
    → IsTileable e
    → j < columns e * rows e
    → k < columns e * rows e
    → j ≢ k
    → get_roi e j ≡ ok s
    → get_roi e k ≡ ok t
    → Contains s p
    → ¬ Contains t p
get_roi-disjoint e j k s t p v hj hk other gj gk cj ck =
    other (tile_number e j s p v hj gj cj ∙ sym (tile_number e k t p v hk gk ck))
