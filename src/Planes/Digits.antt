-- ===== src/Planes/Digits.antt =====
-- The planes by their numbers: the dimensions are the digits of a number in a mixed radix, the
-- first dimension the least one, and `operator++` adds one to it.
use native.Mathlib.Nat.{mod-lt, div-add-mod'}
use czi_pyramidizer.Prelude.{
  Option-cases, ℕ, suc, ◌+◌, ◌*◌, ◌/◌, ◌%◌, ◌≤◌, ◌<◌, ◌≡◌, ◌≢◌, refl, ap, ◌∙◌, sym, inl, inr, List,
  [], ◌∷◌, Option, none, some, arith, ◌==◌, if◌then◌else◌, Bool-cases, ==_iff,
}
use czi_pyramidizer.Prelude.Int.{ℤ, pos, pos_part, ◌+ℤ◌, ◌-ℤ◌, ◌<ℤ◌, ltb_ℤ}
use czi_pyramidizer.Prelude.Outcome.{ok}
use czi_pyramidizer.Dimensions.{DimensionIndex, code, Interval, Dimensions, code_injective}
use czi_pyramidizer.Tiling.Grid.{row_of, col_of}
use czi_pyramidizer.Planes.{increment, count_planes}

-- d is not in the list.
abbrev pub NotIn : DimensionIndex → List DimensionIndex → Type 0
NotIn d [] = Unit
NotIn d (e ∷ ds) = (code d ≢ code e) × NotIn d ds

abbrev pub AllDistinct : List DimensionIndex → Type 0
AllDistinct [] = Unit
AllDistinct (d ∷ ds) = NotIn d ds × AllDistinct ds

-- Every interval of the dimensions has a position.
abbrev pub IsProper : Option Interval → Type 0
IsProper none = Unit
IsProper (some interval) = pos 0 <ℤ interval.1

-- Adding one to a number changes its least digit, or carries.
pub next_digit : (n k : ℕ) → k % n + 1 < n → (suc k / n ≡ k / n) × (suc k % n ≡ k % n + 1)
next_digit n k h =
    let e : suc k ≡ k / n * n + (k % n + 1) = omega (arith, div-add-mod' k n) in
    (
      ap (λ x. x / n) e ∙ row_of n (k / n) (k % n + 1) h,
      ap (λ x. x % n) e ∙ col_of n (k / n) (k % n + 1) h,
    )

pub carry : (n k : ℕ) → 0 < n → n ≤ k % n + 1 → (suc k / n ≡ suc (k / n)) × (suc k % n ≡ 0)
carry n k h l =
    let e : suc k ≡ suc (k / n) * n + 0 = omega (arith, div-add-mod' k n, mod-lt k h) in
    (ap (λ x. x / n) e ∙ row_of n (suc (k / n)) 0 h, ap (λ x. x % n) e ∙ col_of n (suc (k / n)) 0 h)

module _ (dims : Dimensions) (bounds : dims.Bounds) where
  open dims use {Coordinate, try_get_position, set, try_get_interval, set_position, same_positions}

  abbrev pub AllProper : List DimensionIndex → Type 0
  AllProper [] = Unit
  AllProper (d ∷ ds) = IsProper (try_get_interval bounds d) × AllProper ds

  -- A second position for a dimension replaces the first, and positions of two dimensions go in
  -- any order.
  set-set : (c : Coordinate) (d : DimensionIndex) (v w : ℤ) → set (set c d v) d w ≡ set c d w
  set-set c d v w = same_positions (set (set c d v) d w) (set c d w) λ e.
      ground (arith, set_position (set c d v) d w e, set_position c d v e, set_position c d w e)

  set_comm :
      (c : Coordinate) (d e : DimensionIndex) (v w : ℤ)
      → code d ≢ code e
      → set (set c d v) e w ≡ set (set c e w) d v
  set_comm c d e v w h = same_positions (set (set c d v) e w) (set (set c e w) d v) λ f. ground (
    arith,
    set_position (set c d v) e w f,
    set_position c d v f,
    set_position (set c e w) d v f,
    set_position c e w f,
  )

  -- The coordinate with the digits of k, the other positions those of c.
  unfoldable pub coordinate_at : List DimensionIndex → ℕ → Coordinate → Coordinate
  coordinate_at [] k c = c
  coordinate_at (d ∷ ds) k c = elim (try_get_interval bounds d) [
    | none ↦ coordinate_at ds k c
    | some interval ↦
        coordinate_at ds (k / pos_part interval.1)
          (set c d (interval.0 +ℤ pos (k % pos_part interval.1)))
  ]

  pub coordinate_at-none :
      (ds : List DimensionIndex) (k : ℕ) (c : Coordinate) (d : DimensionIndex)
      → try_get_interval bounds d ≡ none
      → coordinate_at (d ∷ ds) k c ≡ coordinate_at ds k c
  unfolding coordinate_at
  coordinate_at-none ds k c d h = rw (coordinate_at, h) refl

  pub coordinate_at-some :
      (ds : List DimensionIndex) (k : ℕ) (c : Coordinate) (d : DimensionIndex) (i : Interval)
      → try_get_interval bounds d ≡ some i
      → coordinate_at (d ∷ ds) k c
        ≡ coordinate_at ds (k / pos_part i.1) (set c d (i.0 +ℤ pos (k % pos_part i.1)))
  unfolding coordinate_at
  coordinate_at-some ds k c d i h = rw (coordinate_at, h) refl

  -- A dimension outside of the list keeps its position, and may be set before.
  pub coordinate_at_other :
      (ds : List DimensionIndex) (k : ℕ) (c : Coordinate) (d : DimensionIndex)
      → NotIn d ds
      → try_get_position (coordinate_at ds k c) d ≡ try_get_position c d
  unfolding coordinate_at
  coordinate_at_other [] k c d h = refl
  coordinate_at_other (e ∷ ds) k c d (h, hs) = elim (Option-cases (try_get_interval bounds e)) [
    | inl n ↦ rw (coordinate_at-none ds k c e n) (coordinate_at_other ds k c d hs)
    | inr (i, n) ↦
        let next = set c e (i.0 +ℤ pos (k % pos_part i.1)) in
        rw (coordinate_at-some ds k c e i n) (
          coordinate_at_other ds (k / pos_part i.1) next d hs
          ∙ ground (arith, set_position c e (i.0 +ℤ pos (k % pos_part i.1)) d))
  ]

  coordinate_at-set :
      (ds : List DimensionIndex) (k : ℕ) (c : Coordinate) (d : DimensionIndex) (v : ℤ)
      → NotIn d ds
      → set (coordinate_at ds k c) d v ≡ coordinate_at ds k (set c d v)
  unfolding coordinate_at
  coordinate_at-set [] k c d v h = refl
  coordinate_at-set (e ∷ ds) k c d v (h, hs) = elim (Option-cases (try_get_interval bounds e)) [
    | inl n ↦
        rw (coordinate_at-none ds k c e n, coordinate_at-none ds k (set c d v) e n)
          (coordinate_at-set ds k c d v hs)
    | inr (i, n) ↦
        let w = i.0 +ℤ pos (k % pos_part i.1) in
        rw (coordinate_at-some ds k c e i n, coordinate_at-some ds k (set c d v) e i n)
          (coordinate_at-set ds (k / pos_part i.1) (set c e w) d v hs
            ∙ ap (coordinate_at ds (k / pos_part i.1)) (set_comm c e d w v (λ x. h (sym x))))
  ]

  -- The position of the first dimension is its digit.
  pub coordinate_at_first :
      (ds : List DimensionIndex) (k : ℕ) (c : Coordinate) (d : DimensionIndex) (i : Interval)
      → NotIn d ds
      → try_get_interval bounds d ≡ some i
      → try_get_position (coordinate_at (d ∷ ds) k c) d ≡ some (i.0 +ℤ pos (k % pos_part i.1))
  coordinate_at_first ds k c d i h n = rw (coordinate_at-some ds k c d i n) (
      coordinate_at_other ds (k / pos_part i.1) (set c d (i.0 +ℤ pos (k % pos_part i.1))) d h
      ∙ ground (arith, set_position c d (i.0 +ℤ pos (k % pos_part i.1)) d))

  -- A dimension without an interval has no position.
  abbrev pub IsBlank : Coordinate → Type 0
  IsBlank c = (d : DimensionIndex) → try_get_interval bounds d ≡ none → try_get_position c d ≡ none

  pub set-IsBlank :
      (c : Coordinate) (d : DimensionIndex) (i : Interval) (v : ℤ)
      → try_get_interval bounds d ≡ some i
      → IsBlank c
      → IsBlank (set c d v)
  set-IsBlank c d i v n blank e m = elim (Bool-cases (code d == code e)) [
    | inl same ↦ absurd (different (code_injective d e ((==_iff (code d) (code e)).0 same)))
    | inr other ↦ set_position c d v e ∙ rw other (blank e m)
  ]
    where
      different : d ≡ e → ⊥
      different same = cc (same, n, m)

  pub increment-none :
      (ds : List DimensionIndex) (c : Coordinate) (d : DimensionIndex)
      → try_get_position c d ≡ none
      → increment dims bounds (d ∷ ds) c ≡ increment dims bounds ds c
  unfolding increment
  increment-none ds c d h = rw (increment, h) refl

  pub increment-some :
      (ds : List DimensionIndex) (c : Coordinate) (d : DimensionIndex) (v : ℤ) (i : Interval)
      → try_get_position c d ≡ some v
      → try_get_interval bounds d ≡ some i
      → increment dims bounds (d ∷ ds) c ≡ (
          if ltb_ℤ v (i.0 +ℤ i.1 -ℤ pos 1)
          then ok (some (set c d (v +ℤ pos 1)))
          else increment dims bounds ds (set c d i.0))
  unfolding increment
  increment-some ds c d v i h k = rw (increment, h, k) refl

  pub count_planes-none :
      (ds : List DimensionIndex) (d : DimensionIndex)
      → try_get_interval bounds d ≡ none
      → count_planes dims bounds (d ∷ ds) ≡ count_planes dims bounds ds
  unfolding count_planes
  count_planes-none ds d h = rw (count_planes, h) refl

  pub count_planes-some :
      (ds : List DimensionIndex) (d : DimensionIndex) (i : Interval)
      → try_get_interval bounds d ≡ some i
      → count_planes dims bounds (d ∷ ds) ≡ pos_part i.1 * count_planes dims bounds ds
  unfolding count_planes
  count_planes-some ds d i h = rw (count_planes, h) refl

  -- Setting the first dimension anew.
  pub set_first :
      (ds : List DimensionIndex) (k : ℕ) (c : Coordinate) (d : DimensionIndex) (i : Interval)
      (v : ℤ)
      → NotIn d ds
      → try_get_interval bounds d ≡ some i
      → set (coordinate_at (d ∷ ds) k c) d v ≡ coordinate_at ds (k / pos_part i.1) (set c d v)
  set_first ds k c d i v apart n = rw (coordinate_at-some ds k c d i n) (
      coordinate_at-set ds (k / pos_part i.1) (set c d (i.0 +ℤ pos (k % pos_part i.1))) d v apart
      ∙ ap (coordinate_at ds (k / pos_part i.1)) (set-set c d (i.0 +ℤ pos (k % pos_part i.1)) v))
