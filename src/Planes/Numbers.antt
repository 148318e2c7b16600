-- ===== src/Planes/Numbers.antt =====
-- Every plane has one number: its coordinate is the one with the digits of the number.
use native.Mathlib.Nat.{mod-lt, div-add-mod'}
use czi_pyramidizer.Prelude.{
  Option-cases, ℕ, ◌+◌, ◌*◌, ◌/◌, ◌%◌, ◌<◌, ◌≡◌, refl, ap, ◌∙◌, sym, ◌⊎◌, inl, inr, List, [], ◌∷◌,
  Option, none, some, arith, ◌==◌, subst, Bool-cases, ==_iff,
}
use czi_pyramidizer.Prelude.Int.{
  ℤ, pos, pos_part, ◌+ℤ◌, ◌-ℤ◌, ◌<ℤ◌, ◌≤ℤ◌, int_laws, eq_of_parts, parts_apart,
}
use czi_pyramidizer.Tiling.Grid.{row_of, col_of, row-lt, number-lt}
use czi_pyramidizer.Dimensions.{DimensionIndex, code, code_injective, Interval, Dimensions}
use czi_pyramidizer.Planes.{count_planes}
use czi_pyramidizer.Planes.Digits.{
  AllDistinct, IsProper, AllProper, coordinate_at, coordinate_at-none, coordinate_at-some,
  coordinate_at_first, count_planes-none, count_planes-some,
}

-- A position lies in the interval; without an interval there is no position.
abbrev pub Fits : Option Interval → Option ℤ → Type 0
Fits none none = Unit
Fits none (some v) = ⊥
Fits (some i) none = ⊥
Fits (some i) (some v) = (i.0 ≤ℤ v) × (v <ℤ i.0 +ℤ i.1)

abbrev digit : Interval → Option ℤ → ℕ
digit i none = 0
digit i (some v) = pos_part (v -ℤ i.0)

-- The digit of a position that fits, and back.
fitting_digit :
    (i : Interval) (o : Option ℤ)
    → Fits (some i) o
    → (digit i o < pos_part i.1) × (o ≡ some (i.0 +ℤ pos (digit i o)))
fitting_digit i none f = absurd f
fitting_digit i (some v) (lo, hi) = (
  omega (int_laws, parts_apart (v -ℤ i.0), parts_apart i.1),
  ap some (eq_of_parts _ _ (omega (int_laws, parts_apart (v -ℤ i.0)))),
)

digit_of_sum : (i : Interval) (r : ℕ) → digit i (some (i.0 +ℤ pos r)) ≡ r
digit_of_sum i r = omega (int_laws, parts_apart (i.0 +ℤ pos r -ℤ i.0))

sum-Fits : (i : Interval) (r : ℕ) → r < pos_part i.1 → Fits (some i) (some (i.0 +ℤ pos r))
sum-Fits i r h = omega (int_laws, parts_apart i.1)

module _ (dims : Dimensions) (bounds : dims.Bounds) where
  open dims use {Coordinate, try_get_position, set, try_get_interval, set_position, same_positions}

  -- Every position of the coordinate fits.
  abbrev pub AllFit : Coordinate → Type 0
  AllFit p = (d : DimensionIndex) → Fits (try_get_interval bounds d) (try_get_position p d)

  unfoldable pub number : List DimensionIndex → Coordinate → ℕ
  number [] p = 0
  number (d ∷ ds) p = elim (try_get_interval bounds d) [
    | none ↦ number ds p
    | some i ↦ number ds p * pos_part i.1 + digit i (try_get_position p d)
  ]

  number-none :
      (ds : List DimensionIndex) (p : Coordinate) (d : DimensionIndex)
      → try_get_interval bounds d ≡ none
      → number (d ∷ ds) p ≡ number ds p
  unfolding number
  number-none ds p d h = rw (number, h) refl

  number-some :
      (ds : List DimensionIndex) (p : Coordinate) (d : DimensionIndex) (i : Interval)
      → try_get_interval bounds d ≡ some i
      → number (d ∷ ds) p ≡ number ds p * pos_part i.1 + digit i (try_get_position p d)
  unfolding number
  number-some ds p d i h = rw (number, h) refl

  pub number-lt-count :
      (ds : List DimensionIndex) (p : Coordinate)
      → AllFit p
      → number ds p < count_planes dims bounds ds
  unfolding number count_planes
  number-lt-count [] p fit = omega arith
  number-lt-count (d ∷ ds) p fit = elim (Option-cases (try_get_interval bounds d)) [
    | inl n ↦
        rw (number-none ds p d n, count_planes-none dims bounds ds d n) (number-lt-count ds p fit)
    | inr (i, n) ↦
        let (less, e) =
          fitting_digit i (try_get_position p d)
            (subst (λ o. Fits o (try_get_position p d)) n (fit d)) in
        rw (number-some ds p d i n, count_planes-some dims bounds ds d i n)
          (number-lt (pos_part i.1) (count_planes dims bounds ds) (number ds p)
            (digit i (try_get_position p d)) (number-lt-count ds p fit) less)
  ]

  -- The dimension is one of those whose digits are set.
  abbrev pub OpenIn : List DimensionIndex → DimensionIndex → Type 0
  OpenIn [] e = ⊥
  OpenIn (d ∷ ds) e =
      ((code d ≡ code e) × ((i : Interval) × (try_get_interval bounds d ≡ some i))) ⊎ OpenIn ds e

  -- A coordinate that fits is the one with the digits of its number.
  pub coordinate_at-number :
      (ds : List DimensionIndex) (p c : Coordinate)
      → AllFit p
      → ((e : DimensionIndex) → OpenIn ds e ⊎ (try_get_position c e ≡ try_get_position p e))
      → coordinate_at dims bounds ds (number ds p) c ≡ p
  unfolding coordinate_at number
  coordinate_at-number [] p c fit agree =
      same_positions c p (λ e. elim (agree e) [ inl o ↦ absurd o | inr x ↦ x ])
  coordinate_at-number (d ∷ ds) p c fit agree = elim (Option-cases (try_get_interval bounds d)) [
    | inl n ↦
        rw (number-none ds p d n, coordinate_at-none dims bounds ds (number ds p) c d n)
          (coordinate_at-number ds p c fit (λ e. elim (agree e) [
            | inl (inl (same, (i, m))) ↦ cc
            | inl (inr o) ↦ inl o
            | inr x ↦ inr x
          ]))
    | inr (i, n) ↦
        let o = try_get_position p d in
        let (less, e) = fitting_digit i o (subst (λ m. Fits m o) n (fit d)) in
        let next = set c d (i.0 +ℤ pos (digit i o)) in
        coordinate_at-some dims bounds ds (number (d ∷ ds) p) c d i n
        ∙ rw
            (
              number-some ds p d i n,
              row_of (pos_part i.1) (number ds p) (digit i o) less,
              col_of (pos_part i.1) (number ds p) (digit i o) less,
            )
            (coordinate_at-number ds p next fit (agree_next i e))
  ]
    where
      agree_next :
          (i : Interval)
          → try_get_position p d ≡ some (i.0 +ℤ pos (digit i (try_get_position p d)))
          → (e : DimensionIndex)
          → OpenIn ds e
            ⊎ (try_get_position (set c d (i.0 +ℤ pos (digit i (try_get_position p d)))) e
                ≡ try_get_position p e)
      agree_next i at e = elim (Bool-cases (code d == code e)) [
        | inl same ↦ inr (
            set_position c d _ e
            ∙ rw same (
                sym at
                ∙ ap (try_get_position p) (code_injective d e ((==_iff (code d) (code e)).0 same))))
        | inr other ↦ elim (agree e) [
          | inl (inl (same, m)) ↦ absurd (ground arith)
          | inl (inr o) ↦ inl o
          | inr x ↦ inr (set_position c d _ e ∙ rw other x)
        ]
      ]

  -- The number of the coordinate with the digits of k is k.
  pub number-coordinate_at :
      (ds : List DimensionIndex) (k : ℕ) (c : Coordinate)
      → AllDistinct ds
      → AllProper dims bounds ds
      → k < count_planes dims bounds ds
      → number ds (coordinate_at dims bounds ds k c) ≡ k
  unfolding count_planes number
  number-coordinate_at [] k c distinct proper h = omega arith
  number-coordinate_at (d ∷ ds) k c (apart, distinct) (p, proper) h =
      elim (Option-cases (try_get_interval bounds d)) [
        | inl n ↦ rw (coordinate_at-none dims bounds ds k c d n) (
            number-none ds (coordinate_at dims bounds ds k c) d n
            ∙ number-coordinate_at ds k c distinct proper
                (subst (λ m. k < m) (count_planes-none dims bounds ds d n) h))
        | inr (i, n) ↦
            let q : pos 0 <ℤ i.1 = subst IsProper n p in
            let size : ℕ = pos_part i.1 in
            let at : Coordinate = coordinate_at dims bounds (d ∷ ds) k c in
            let next : Coordinate = set c d (i.0 +ℤ pos (k % size)) in
            let total : k < size * count_planes dims bounds ds =
              subst (λ m. k < m) (count_planes-some dims bounds ds d i n) h in
            let rest : number ds at ≡ k / size =
              ap (number ds) (coordinate_at-some dims bounds ds k c d i n)
              ∙ number-coordinate_at ds (k / size) next distinct proper
                  (row-lt size (count_planes dims bounds ds) k (omega arith) total) in
            let least : digit i (try_get_position at d) ≡ k % size =
              ap (digit i) (coordinate_at_first dims bounds ds k c d i apart n)
              ∙ digit_of_sum i (k % size) in
            number-some ds at d i n ∙ rw (rest, least) (div-add-mod' k size)
      ]

  set-AllFit :
      (c : Coordinate) (d : DimensionIndex) (i : Interval) (r : ℕ)
      → try_get_interval bounds d ≡ some i
      → r < pos_part i.1
      → AllFit c
      → AllFit (set c d (i.0 +ℤ pos r))
  set-AllFit c d i r n h fit e = elim (Bool-cases (code d == code e)) [
    | inl same ↦
        let at : try_get_position (set c d (i.0 +ℤ pos r)) e ≡ some (i.0 +ℤ pos r) =
          set_position c d _ e ∙ rw same refl in
        let m : try_get_interval bounds e ≡ some i =
          sym
            (ap (try_get_interval bounds) (code_injective d e ((==_iff (code d) (code e)).0 same)))
          ∙ n in
        rw (at, m) (sum-Fits i r h)
    | inr other ↦ rw (set_position c d (i.0 +ℤ pos r) e, other) (fit e)
  ]

  -- The coordinates of all numbers fit.
  pub coordinate_at-AllFit :
      (ds : List DimensionIndex) (k : ℕ) (c : Coordinate)
      → AllProper dims bounds ds
      → AllFit c
      → AllFit (coordinate_at dims bounds ds k c)
  unfolding coordinate_at
  coordinate_at-AllFit [] k c proper fit = fit
  coordinate_at-AllFit (d ∷ ds) k c (p, proper) fit =
      elim (Option-cases (try_get_interval bounds d)) [
        | inl n ↦
            rw (coordinate_at-none dims bounds ds k c d n) (coordinate_at-AllFit ds k c proper fit)
        | inr (i, n) ↦
            let q : pos 0 <ℤ i.1 = subst IsProper n p in
            rw (coordinate_at-some dims bounds ds k c d i n) (
              coordinate_at-AllFit ds (k / pos_part i.1) (set c d (i.0 +ℤ pos (k % pos_part i.1)))
                proper (set-AllFit c d i (k % pos_part i.1) n (mod-lt k (omega arith)) fit))
      ]
