-- ===== src/Planes/Steps.antt =====
-- `operator++` of the plane iterator adds one to the number of the plane.
use native.Mathlib.Nat.{mul-mod_right, mul-div_right}
use czi_pyramidizer.Prelude.{
  Option-cases, ℕ, suc, ◌+◌, ◌*◌, ◌/◌, ◌%◌, ◌≤◌, ◌<◌, ◌≡◌, refl, ap, ◌∙◌, sym, inl, inr, List, [],
  ◌∷◌, none, some, true, false, arith, ltb, dec_lt, subst,
}
use czi_pyramidizer.Prelude.Int.{
  ℤ, pos, pos_part, ◌+ℤ◌, ◌-ℤ◌, ◌<ℤ◌, ltb_ℤ, int_laws, eq_of_parts, parts_apart,
}
use czi_pyramidizer.Prelude.Outcome.{ok}
use czi_pyramidizer.Tiling.Grid.{row-lt}
use czi_pyramidizer.Dimensions.{DimensionIndex, Interval, Dimensions}
use czi_pyramidizer.Planes.{increment, count_planes}
use czi_pyramidizer.Planes.Digits.{
  NotIn, AllDistinct, IsProper, AllProper, IsBlank, coordinate_at, next_digit, carry,
  coordinate_at-none, coordinate_at-some, coordinate_at_other, coordinate_at_first, set-IsBlank,
  increment-none, increment-some, count_planes-none, count_planes-some, set_first,
}

below : (a b : ℕ) → a < b → ltb a b ≡ true
below a b h = ground arith

not_below : (a b : ℕ) → b ≤ a → ltb a b ≡ false
not_below a b h = ground arith

-- The test of `operator++`, on the digit.
not_last :
    (s n : ℤ) (r : ℕ)
    → pos 0 <ℤ n
    → r + 1 < pos_part n
    → ltb_ℤ (s +ℤ pos r) (s +ℤ n -ℤ pos 1) ≡ true
not_last s n r p h = below _ _ (omega (int_laws, parts_apart n))

last :
    (s n : ℤ) (r : ℕ)
    → pos 0 <ℤ n
    → pos_part n ≤ r + 1
    → ltb_ℤ (s +ℤ pos r) (s +ℤ n -ℤ pos 1) ≡ false
last s n r p h = not_below _ _ (omega (int_laws, parts_apart n))

one_more : (s : ℤ) (r : ℕ) → s +ℤ pos r +ℤ pos 1 ≡ s +ℤ pos (r + 1)
one_more s r = eq_of_parts _ _ (omega int_laws)

pub plus_none : (s : ℤ) → s +ℤ pos 0 ≡ s
plus_none s = eq_of_parts _ _ (omega int_laws)

-- The last number has the last digit, and its quotient is the last one.
full_digit : (n m k : ℕ) → 0 < n → suc k ≡ n * m → (n ≤ k % n + 1) × (suc (k / n) ≡ m)
full_digit n m k h e =
    let exact : suc k % n ≡ 0 = ap (λ x. x % n) e ∙ mul-mod_right n m in
    elim (dec_lt (k % n + 1) n) [
      | yes less ↦ absurd (omega (arith, next_digit n k less))
      | no more ↦
          let (quotient, digit) = carry n k h (omega arith) in
          (omega arith, sym quotient ∙ ap (λ x. x / n) e ∙ mul-div_right m h)
    ]

module _ (dims : Dimensions) (bounds : dims.Bounds) where
  open dims use {Coordinate, try_get_position, set, try_get_interval}

  module _ (ds : List DimensionIndex) (c : Coordinate) (d : DimensionIndex) (i : Interval)
      (apart : NotIn d ds) (n : try_get_interval bounds d ≡ some i) (p : pos 0 <ℤ i.1) where
    abbrev size : ℕ
    size = pos_part i.1

    size_pos : 0 < size
    size_pos = omega arith

    increment_digit :
        (k : ℕ)
        → k % size + 1 < size
        → increment dims bounds (d ∷ ds) (coordinate_at dims bounds (d ∷ ds) k c)
          ≡ ok (some (coordinate_at dims bounds (d ∷ ds) (suc k) c))
    increment_digit k h =
        let v = i.0 +ℤ pos (k % size) in
        let (quotient, digit) = next_digit size k h in
        increment-some dims bounds ds (coordinate_at dims bounds (d ∷ ds) k c) d v i
          (coordinate_at_first dims bounds ds k c d i apart n) n
        ∙ rw
            (
              not_last i.0 i.1 (k % size) p h,
              set_first dims bounds ds k c d i (v +ℤ pos 1) apart n,
              coordinate_at-some dims bounds ds (suc k) c d i n,
              quotient,
              digit,
              one_more i.0 (k % size),
            )
            refl

    increment_carry :
        (k : ℕ)
        → size ≤ k % size + 1
        → increment dims bounds (d ∷ ds) (coordinate_at dims bounds (d ∷ ds) k c)
          ≡ increment dims bounds ds (coordinate_at dims bounds ds (k / size) (set c d i.0))
    increment_carry k h =
        let v = i.0 +ℤ pos (k % size) in
        increment-some dims bounds ds (coordinate_at dims bounds (d ∷ ds) k c) d v i
          (coordinate_at_first dims bounds ds k c d i apart n) n
        ∙ rw (last i.0 i.1 (k % size) p h, set_first dims bounds ds k c d i i.0 apart n) refl

  increment_blank :
      (ds : List DimensionIndex) (k : ℕ) (c : Coordinate) (d : DimensionIndex)
      → NotIn d ds
      → try_get_interval bounds d ≡ none
      → IsBlank dims bounds c
      → increment dims bounds (d ∷ ds) (coordinate_at dims bounds (d ∷ ds) k c)
        ≡ increment dims bounds ds (coordinate_at dims bounds ds k c)
  increment_blank ds k c d apart n blank = rw (coordinate_at-none dims bounds ds k c d n) (
      increment-none dims bounds ds (coordinate_at dims bounds ds k c) d
        (coordinate_at_other dims bounds ds k c d apart ∙ blank d n))

  -- `operator++` goes from number k to number k + 1.
  pub increment_more :
      (ds : List DimensionIndex) (k : ℕ) (c : Coordinate)
      → AllDistinct ds
      → AllProper dims bounds ds
      → IsBlank dims bounds c
      → suc k < count_planes dims bounds ds
      → increment dims bounds ds (coordinate_at dims bounds ds k c)
        ≡ ok (some (coordinate_at dims bounds ds (suc k) c))
  unfolding count_planes
  increment_more [] k c distinct proper blank h = absurd (omega arith)
  increment_more (d ∷ ds) k c (apart, distinct) (p, proper) blank h =
      elim (Option-cases (try_get_interval bounds d)) [
        | inl n ↦
            increment_blank ds k c d apart n blank
            ∙ increment_more ds k c distinct proper blank
                (subst (λ m. suc k < m) (count_planes-none dims bounds ds d n) h)
            ∙ rw (coordinate_at-none dims bounds ds (suc k) c d n) refl
        | inr (i, n) ↦
            let q : pos 0 <ℤ i.1 = subst IsProper n p in
            let total : suc k < pos_part i.1 * count_planes dims bounds ds =
              subst (λ m. suc k < m) (count_planes-some dims bounds ds d i n) h in
            elim (dec_lt (k % pos_part i.1 + 1) (pos_part i.1)) [
              | yes less ↦ increment_digit ds c d i apart n q k less
              | no more ↦
                  let (quotient, digit) = carry (pos_part i.1) k (omega arith) (omega arith) in
                  increment_carry ds c d i apart n q k (omega arith)
                  ∙ increment_more ds (k / pos_part i.1) (set c d i.0) distinct proper
                      (set-IsBlank dims bounds c d i i.0 n blank)
                      (subst (λ m. m < count_planes dims bounds ds) quotient
                        (row-lt (pos_part i.1) (count_planes dims bounds ds) (suc k) (omega arith)
                          total))
                  ∙ rw
                      (
                        coordinate_at-some dims bounds ds (suc k) c d i n,
                        quotient,
                        digit,
                        plus_none i.0,
                      )
                      refl
            ]
      ]

  -- From the last number it goes over the end.
  pub increment_last :
      (ds : List DimensionIndex) (k : ℕ) (c : Coordinate)
      → AllDistinct ds
      → AllProper dims bounds ds
      → IsBlank dims bounds c
      → suc k ≡ count_planes dims bounds ds
      → increment dims bounds ds (coordinate_at dims bounds ds k c) ≡ ok none
  unfolding increment count_planes coordinate_at
  increment_last [] k c distinct proper blank h = refl
  increment_last (d ∷ ds) k c (apart, distinct) (p, proper) blank h =
      elim (Option-cases (try_get_interval bounds d)) [
        | inl n ↦
            increment_blank ds k c d apart n blank
            ∙ increment_last ds k c distinct proper blank (h ∙ count_planes-none dims bounds ds d n)
        | inr (i, n) ↦
            let q : pos 0 <ℤ i.1 = subst IsProper n p in
            let total : suc k ≡ pos_part i.1 * count_planes dims bounds ds =
              h ∙ count_planes-some dims bounds ds d i n in
            let full =
              full_digit (pos_part i.1) (count_planes dims bounds ds) k (omega arith) total in
            increment_carry ds c d i apart n q k full.0
            ∙ increment_last ds (k / pos_part i.1) (set c d i.0) distinct proper
                (set-IsBlank dims bounds c d i i.0 n blank) full.1
      ]
