-- ===== src/Upper/Alignment.antt =====
-- Differences of multiples, and what is left of them after a shift.
use native.Mathlib.Nat.{div-add-mod', mul-div_left}
use czi_pyramidizer.Prelude.{
  false, ◌||◌, ℕ, suc, ◌+◌, ◌-◌, ◌*◌, ◌/◌, ◌%◌, ◌^◌, ◌≤◌, ◌<◌, ◌≡◌, ap, ◌∙◌, sym, arith, dec_lt,
  zero,
}
use czi_pyramidizer.Prelude.Int.{
  ltb_ℤ, eq_of_parts, ℤ, pos, pos_part, neg_part, ◌+ℤ◌, ◌-ℤ◌, ◌<ℤ◌, int_laws,
}
use czi_pyramidizer.Rect.{IntRect, IsNonEmpty}
use czi_pyramidizer.Latch.Floor.{IsMultiple}
use czi_pyramidizer.Latch.Bounds.{IsLatched}
use czi_pyramidizer.Upper.{scale_by_pyramid_layer_minus_one, shift_right}

-- A number without remainder is a multiple of its quotient.
whole : (n m : ℕ) → n % m ≡ 0 → n ≡ n / m * m
whole n m h = omega (arith, div-add-mod' n m)

spread : (a b m : ℕ) → b ≤ a → (a - b) * m + b * m ≡ a * m
spread a b m h =
    let e : a - b + b ≡ a = omega arith in
    let f : (a - b + b) * m ≡ a * m = ap (λ n. n * m) e in omega (arith, f)

cancel_lt : (a b m : ℕ) → a * m < b * m → a < b
cancel_lt a b m h = elim (dec_lt a b) [
  | yes less ↦ less
  | no more ↦ absurd (more (omega (arith, spread a b m (omega arith))))
]

-- The distance from one multiple to a greater one is a positive multiple.
pub distance :
    (m : ℕ) (a b : ℤ)
    → IsMultiple m a
    → IsMultiple m b
    → a <ℤ b
    → (j : ℕ) × (1 ≤ j) × (b -ℤ a ≡ pos (j * m))
distance m a b (ap0, an0) (bp0, bn0) h =
    let w1 = whole (pos_part a) m ap0 in
    let w2 = whole (neg_part a) m an0 in
    let w3 = whole (pos_part b) m bp0 in
    let w4 = whole (neg_part b) m bn0 in
    let lower = pos_part a / m + neg_part b / m in
    let upper = pos_part b / m + neg_part a / m in
    let less : lower < upper = cancel_lt lower upper m (omega (arith, w1, w2, w3, w4, h)) in
    (
      upper - lower,
      omega arith,
      eq_of_parts (b -ℤ a) (pos ((upper - lower) * m))
          (omega (int_laws, spread upper lower m (omega arith), w1, w2, w3, w4)),
    )

pub positive_power : (k : ℕ) → 0 < 2 ^ k
positive_power zero = omega arith
positive_power (suc k) = omega (arith, positive_power k)

multiple_split : (j k : ℕ) → j * 2 ^ suc k ≡ j * 2 * 2 ^ k
multiple_split j k =
    let double : 2 ^ suc k ≡ 2 ^ k * 2 = omega arith in ap (λ n. j * n) double ∙ omega arith

-- A multiple of 2 ^ (k + 1), shifted by k, is even.
shift_right_multiple : (j k : ℕ) → shift_right (pos (j * 2 ^ suc k)) k ≡ pos (j * 2)
unfolding shift_right
shift_right_multiple j k =
    ap pos (ap (λ n. n / 2 ^ k) (multiple_split j k) ∙ mul-div_left (j * 2) (positive_power k))

pub scale-multiple :
    (z : ℤ) (j k : ℕ)
    → z ≡ pos (j * 2 ^ suc k)
    → scale_by_pyramid_layer_minus_one (suc k) z ≡ pos (j * 2)
scale-multiple z j k e =
    ap (λ n. shift_right z n) (omega arith) ∙ ap (λ z. shift_right z k) e ∙ shift_right_multiple j k

-- Such an extent is at least 2 pixels after the shift.
pub large_enough :
    (w h : ℤ) (a b : ℕ)
    → w ≡ pos (a * 2)
    → h ≡ pos (b * 2)
    → 1 ≤ a
    → 1 ≤ b
    → (ltb_ℤ w (pos 2) || ltb_ℤ h (pos 2)) ≡ false
large_enough w h a b ew eh la lb = rw (ew, eh) (ground arith)

le-mul : (a b : ℕ) → 0 < b → a ≤ a * b
le-mul a zero h = elim h [ ]
le-mul a (suc b) h = omega arith

half_bound : (j k n : ℕ) → j * 2 ^ suc k < n → j * 2 < n
half_bound j k n h = omega (arith, le-mul (j * 2) (2 ^ k) (positive_power k), multiple_split j k)

pub quarter_bound : (j k n : ℕ) → 1 ≤ k → j * 2 ^ suc k < n → j * 2 * 2 < n
quarter_bound j zero n h l = elim h [ ]
quarter_bound j (suc k) n h l = half_bound (j * 2) k n (omega (arith, multiple_split j (suc k)))

-- The extents of a latched rectangle with pixels are positive multiples.
pub IsLatched-extents :
    (m : ℕ) (r l : IntRect)
    → IsLatched m r l
    → IsNonEmpty r
    → (a : ℕ) × (b : ℕ) × (1 ≤ a) × (1 ≤ b) × (l.w ≡ pos (a * m)) × (l.h ≡ pos (b * m))
IsLatched-extents m r l v (pw, ph) =
    let (a, la, ea) =
      distance m l.x (l.x +ℤ l.w) v.left_on v.right_on (omega (int_laws, v.left, v.right)) in
    let (b, lb, eb) =
      distance m l.y (l.y +ℤ l.h) v.top_on v.bottom_on (omega (int_laws, v.top, v.bottom)) in
    (a, b, la, lb, sym (back l.x l.w) ∙ ea, sym (back l.y l.h) ∙ eb)
  where
    back : (a b : ℤ) → a +ℤ b -ℤ a ≡ b
    back a b = eq_of_parts (a +ℤ b -ℤ a) b (omega int_laws)
