-- ===== src/Dimensions.antt =====
-- libCZI's coordinates and bounds of dimensions: the interface to the methods of `CDimCoordinate`,
-- `CDimBounds` and `Utils::Compare` that the source calls. All of them are called in
-- libpyramidizer/inc/plane_enumerator.h and libpyramidizer/src/do_pyramidize.cpp.
use czi_pyramidizer.Prelude.{
  ℕ, ◌≡◌, refl, ap, ◌∙◌, sym, ◌↔◌, List, [], ◌∷◌, Option, none, some, Bool, false, ◌==◌,
  if◌then◌else◌,
}
use czi_pyramidizer.Prelude.Int.{ℤ}

-- libCZI's `DimensionIndex`.
pub data DimensionIndex : Type 0 where
  dim_z dim_c dim_t dim_r dim_s dim_i dim_h dim_v dim_b : DimensionIndex

-- The number of a dimension, by which two of them are compared.
abbrev pub code : DimensionIndex → ℕ
code dim_z = 1
code dim_c = 2
code dim_t = 3
code dim_r = 4
code dim_s = 5
code dim_i = 6
code dim_h = 7
code dim_v = 8
code dim_b = 9

-- A start and a size.
abbrev pub Interval : Type 0
Interval = ℤ × ℤ

-- The position that the last entry for the dimension gives, else the one from before.
abbrev pub last_start : DimensionIndex → List (DimensionIndex × Interval) → Option ℤ → Option ℤ
last_start d [] before = before
last_start d ((e, interval) ∷ entries) before =
    last_start d entries (if code e == code d then some interval.0 else before)

abbrev pub start_of : Option Interval → Option ℤ
start_of none = none
start_of (some interval) = some interval.0

-- A coordinate holds a position for some of the dimensions, and nothing else; bounds hold an
-- interval for some of them, and `EnumValidDimensions` gives these, each once.
pub record Dimensions : Type 1 where
  pub Coordinate : Type 0
  pub empty : Coordinate
  pub try_get_position : Coordinate → DimensionIndex → Option ℤ
  pub set : Coordinate → DimensionIndex → ℤ → Coordinate
  pub clear : Coordinate → DimensionIndex → Coordinate
  pub compare_differs : Coordinate → Coordinate → Bool
  pub Bounds : Type 0
  pub try_get_interval : Bounds → DimensionIndex → Option Interval
  pub enum_valid_dimensions : Bounds → List (DimensionIndex × Interval)
  pub empty_position : (d : DimensionIndex) → try_get_position empty d ≡ none
  pub set_position :
      (c : Coordinate) (d : DimensionIndex) (v : ℤ) (e : DimensionIndex)
      → try_get_position (set c d v) e ≡ (if code d == code e then some v else try_get_position c e)
  pub clear_position :
      (c : Coordinate) (d e : DimensionIndex)
      → try_get_position (clear c d) e ≡ (if code d == code e then none else try_get_position c e)
  pub same_positions :
      (c d : Coordinate)
      → ((e : DimensionIndex) → try_get_position c e ≡ try_get_position d e)
      → c ≡ d
  pub compare_differs_iff : (c d : Coordinate) → (compare_differs c d ≡ false) ↔ (c ≡ d)
  pub enum_valid_start :
      (b : Bounds) (d : DimensionIndex)
      → last_start d (enum_valid_dimensions b) none ≡ start_of (try_get_interval b d)

decode : ℕ → DimensionIndex
decode n =
    if n == 1
    then dim_z
    else if n == 2
    then dim_c
    else if n == 3
    then dim_t
    else if n == 4
    then dim_r
    else if n == 5
    then dim_s
    else if n == 6
    then dim_i
    else if n == 7
    then dim_h
    else if n == 8
    then dim_v
    else dim_b

decode-code : (d : DimensionIndex) → decode (code d) ≡ d
unfolding decode
decode-code dim_z = refl
decode-code dim_c = refl
decode-code dim_t = refl
decode-code dim_r = refl
decode-code dim_s = refl
decode-code dim_i = refl
decode-code dim_h = refl
decode-code dim_v = refl
decode-code dim_b = refl

-- Dimensions of the same number are the same.
pub code_injective : (d e : DimensionIndex) → code d ≡ code e → d ≡ e
code_injective d e h = sym (decode-code d) ∙ ap decode h ∙ decode-code e
