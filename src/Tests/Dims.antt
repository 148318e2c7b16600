-- ===== src/Tests/Dims.antt =====
-- Coordinates and bounds as functions of the dimension: the interface of libCZI's dimensions holds
-- of these.
use czi_pyramidizer.Prelude.{
  ◌≡◌, ◌≢◌, refl, ap, ◌∙◌, sym, ◌↔◌, ◌⊎◌, inl, inr, List, [], ◌∷◌, Option, Option-cases, none, some,
  Bool, true, false, ◌==◌, not, ◌&&◌, if◌then◌else◌, arith, Bool-cases, ==_iff, fun_ext,
}
use czi_pyramidizer.Prelude.Int.{ℤ, eqb_ℤ, eq_of_parts}
use czi_pyramidizer.Dimensions.{
  DimensionIndex, dim_s, dim_c, dim_z, dim_t, dim_r, dim_i, dim_h, dim_v, dim_b, code,
  code_injective, Interval, Dimensions, last_start, start_of,
}
use czi_pyramidizer.Planes.Digits.{NotIn}

abbrev Positions : Type 0
Positions = DimensionIndex → Option ℤ

abbrev Intervals : Type 0
Intervals = DimensionIndex → Option Interval

abbrev all_dimensions : List DimensionIndex
all_dimensions = dim_z ∷ dim_c ∷ dim_t ∷ dim_r ∷ dim_s ∷ dim_i ∷ dim_h ∷ dim_v ∷ dim_b ∷ []

abbrev same_position : Option ℤ → Option ℤ → Bool
same_position none none = true
same_position none (some b) = false
same_position (some a) none = false
same_position (some a) (some b) = eqb_ℤ a b

abbrev all_same : List DimensionIndex → Positions → Positions → Bool
all_same [] c d = true
all_same (e ∷ es) c d = same_position (c e) (d e) && all_same es c d

abbrev AllAgree : List DimensionIndex → Positions → Positions → Type 0
AllAgree [] c d = Unit
AllAgree (e ∷ es) c d = (c e ≡ d e) × AllAgree es c d

same_position_lem : (a b : Option ℤ) → same_position a b ≡ true → a ≡ b
same_position_lem none none h = refl
same_position_lem none (some b) h = cc h
same_position_lem (some a) none h = cc h
same_position_lem (some a) (some b) h = ap some (eq_of_parts a b ((==_iff _ _).0 h))

same_position_refl : (a : Option ℤ) → same_position a a ≡ true
same_position_refl none = refl
same_position_refl (some a) = (==_iff _ _).1 refl

all_same-AllAgree :
    (es : List DimensionIndex) (c d : Positions) → all_same es c d ≡ true → AllAgree es c d
all_same-AllAgree [] c d h = tt
all_same-AllAgree (e ∷ es) c d h = elim (Bool-cases (same_position (c e) (d e))) [
  | inl same ↦ (
    same_position_lem (c e) (d e) same,
    all_same-AllAgree es c d (sym (ap (λ b. b && all_same es c d) same) ∙ h),
  )
  | inr other ↦ absurd (cc (sym (ap (λ b. b && all_same es c d) other) ∙ h))
]

all_same_refl : (es : List DimensionIndex) (c : Positions) → all_same es c c ≡ true
all_same_refl [] c = refl
all_same_refl (e ∷ es) c = rw (same_position_refl (c e)) (all_same_refl es c)

agree_everywhere :
    (c d : Positions) → AllAgree all_dimensions c d → (e : DimensionIndex) → c e ≡ d e
agree_everywhere c d h dim_z = h.0
agree_everywhere c d h dim_c = h.1.0
agree_everywhere c d h dim_t = h.1.1.0
agree_everywhere c d h dim_r = h.1.1.1.0
agree_everywhere c d h dim_s = h.1.1.1.1.0
agree_everywhere c d h dim_i = h.1.1.1.1.1.0
agree_everywhere c d h dim_h = h.1.1.1.1.1.1.0
agree_everywhere c d h dim_v = h.1.1.1.1.1.1.1.0
agree_everywhere c d h dim_b = h.1.1.1.1.1.1.1.1.0

abbrev differ : Positions → Positions → Bool
differ c d = not (all_same all_dimensions c d)

negated : (b : Bool) → not b ≡ false → b ≡ true
negated true h = refl
negated false h = cc h

pub differ_iff : (c d : Positions) → (differ c d ≡ false) ↔ (c ≡ d)
differ_iff c d = (
  λ h. fun_ext (
      agree_everywhere c d
        (all_same-AllAgree all_dimensions c d (negated (all_same all_dimensions c d) h))),
  λ h. ap (differ c) (sym h) ∙ ap not (all_same_refl all_dimensions c),
)

abbrev pub put : Positions → DimensionIndex → Option ℤ → Positions
put c d o e = if code d == code e then o else c e

abbrev entries_of :
    DimensionIndex
    → Option Interval
    → List (DimensionIndex × Interval)
    → List (DimensionIndex × Interval)
entries_of d none entries = entries
entries_of d (some interval) entries = (d, interval) ∷ entries

abbrev valid_dimensions : List DimensionIndex → Intervals → List (DimensionIndex × Interval)
valid_dimensions [] b = []
valid_dimensions (d ∷ ds) b = entries_of d (b d) (valid_dimensions ds b)

abbrev IsOnce : DimensionIndex → List DimensionIndex → Type 0
IsOnce d [] = ⊥
IsOnce d (e ∷ es) = ((code d ≡ code e) × NotIn d es) ⊎ ((code d ≢ code e) × IsOnce d es)

pub once : (d : DimensionIndex) → IsOnce d all_dimensions
once dim_z = inl (refl, omega arith)
once dim_c = inr (omega arith, inl (refl, omega arith))
once dim_t = inr (omega arith, inr (omega arith, inl (refl, omega arith)))
once dim_r = inr (omega arith, inr (omega arith, inr (omega arith, inl (refl, omega arith))))
once dim_s =
    inr (
      omega arith,
      inr (omega arith, inr (omega arith, inr (omega arith, inl (refl, omega arith)))),
    )
once dim_i = inr (
  omega arith,
  inr (
    omega arith,
    inr (omega arith, inr (omega arith, inr (omega arith, inl (refl, omega arith)))),
  ),
)
once dim_h = inr (
  omega arith,
  inr (
    omega arith,
    inr (
      omega arith,
      inr (omega arith, inr (omega arith, inr (omega arith, inl (refl, omega arith)))),
    ),
  ),
)
once dim_v = inr (
  omega arith,
  inr (
    omega arith,
    inr (
      omega arith,
      inr (
        omega arith,
        inr (omega arith, inr (omega arith, inr (omega arith, inl (refl, omega arith)))),
      ),
    ),
  ),
)
once dim_b = inr (
  omega arith,
  inr (
    omega arith,
    inr (
      omega arith,
      inr (
        omega arith,
        inr (omega arith, inr (omega arith, inr (omega arith, inr (omega arith, inl (refl, tt))))),
      ),
    ),
  ),
)

-- A dimension that is in the list once has its entry's start.
last_start-other :
    (d : DimensionIndex) (es : List DimensionIndex) (b : Intervals) (before : Option ℤ)
    → NotIn d es
    → last_start d (valid_dimensions es b) before ≡ before
last_start-other d [] b before h = refl
last_start-other d (e ∷ es) b before (h, hs) = elim (Option-cases (b e)) [
  | inl n ↦
      ap (λ o. last_start d (entries_of e o (valid_dimensions es b)) before) n
      ∙ last_start-other d es b before hs
  | inr (i, n) ↦
      ap (λ o. last_start d (entries_of e o (valid_dimensions es b)) before) n
      ∙ ap (last_start d (valid_dimensions es b)) (ground arith)
      ∙ last_start-other d es b before hs
]

pub last_start-once :
    (d : DimensionIndex) (es : List DimensionIndex) (b : Intervals)
    → IsOnce d es
    → last_start d (valid_dimensions es b) none ≡ start_of (b d)
last_start-once d [] b h = absurd h
last_start-once d (e ∷ es) b (inl (same, hs)) = elim (Option-cases (b e)) [
  | inl n ↦
      ap (λ o. last_start d (entries_of e o (valid_dimensions es b)) none) n
      ∙ last_start-other d es b none hs
      ∙ sym (ap start_of (ap b (code_injective d e same) ∙ n))
  | inr (i, n) ↦
      ap (λ o. last_start d (entries_of e o (valid_dimensions es b)) none) n
      ∙ ap (last_start d (valid_dimensions es b)) (ground arith)
      ∙ last_start-other d es b (some i.0) hs
      ∙ sym (ap start_of (ap b (code_injective d e same) ∙ n))
]
last_start-once d (e ∷ es) b (inr (apart, h)) = elim (Option-cases (b e)) [
  | inl n ↦
      ap (λ o. last_start d (entries_of e o (valid_dimensions es b)) none) n
      ∙ last_start-once d es b h
  | inr (i, n) ↦
      ap (λ o. last_start d (entries_of e o (valid_dimensions es b)) none) n
      ∙ ap (last_start d (valid_dimensions es b)) (ground arith)
      ∙ last_start-once d es b h
]

abbrev pub concrete_dimensions : Dimensions
concrete_dimensions = record {
  Coordinate = Positions;
  empty = λ d. none;
  try_get_position = λ c d. c d;
  set = λ c d v. put c d (some v);
  clear = λ c d. put c d none;
  compare_differs = differ;
  Bounds = Intervals;
  try_get_interval = λ b d. b d;
  enum_valid_dimensions = valid_dimensions all_dimensions;
  empty_position = λ d. refl;
  set_position = λ c d v e. refl;
  clear_position = λ c d e. refl;
  same_positions = λ c d h. fun_ext h;
  compare_differs_iff = differ_iff;
  enum_valid_start = λ b d. last_start-once d all_dimensions b (once d);
}
