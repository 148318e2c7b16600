-- ===== src/Bitmap/Layout.antt =====
-- What copying lines does to the destination's memory.
use czi_pyramidizer.Prelude.{ℕ, zero, suc, ◌+◌, ◌*◌, ◌≤◌, ◌<◌, ◌≡◌, refl, ◌∙◌, arith}
use czi_pyramidizer.Prelude.Outcome.{ok}
use czi_pyramidizer.Bitmap.{Memory, copied, memcpy, copy_lines}

memcpy-ok :
    (dest : Memory) (ds d : ℕ) (source : Memory) (ss s n : ℕ)
    → d + n ≤ ds
    → s + n ≤ ss
    → memcpy dest ds d source ss s n ≡ ok (copied dest d source s n)
unfolding memcpy
memcpy-ok dest ds d source ss s n h k = ground arith

copied_in :
    (dest : Memory) (d : ℕ) (source : Memory) (s n t : ℕ)
    → t < n
    → copied dest d source s n (d + t) ≡ source (s + t)
copied_in dest d source s n t h = ground arith

copied_before :
    (dest : Memory) (d : ℕ) (source : Memory) (s n a : ℕ)
    → a < d
    → copied dest d source s n a ≡ dest a
copied_before dest d source s n a h = ground arith

copied_after :
    (dest : Memory) (d : ℕ) (source : Memory) (s n a : ℕ)
    → d + n ≤ a
    → copied dest d source s n a ≡ dest a
copied_after dest d source s n a h = ground arith

-- The lines of the destination and the source lie inside their allocations.
abbrev pub LinesFit : ℕ → ℕ → ℕ → ℕ → ℕ → Type 0
LinesFit zero size offset stride line_length = Unit
LinesFit (suc count) size offset stride line_length =
    (offset + line_length ≤ size) × LinesFit count size (offset + stride) stride line_length

-- What `count` copied lines leave in the memory m.
pub record IsCopied (count : ℕ) (dest : Memory) (d ds : ℕ) (source : Memory) (s ss n : ℕ)
    (m : Memory) : Type 0 where
  pub inside : (y t : ℕ) → y < count → t < n → m (d + y * ds + t) ≡ source (s + y * ss + t)
  pub beside : (y t : ℕ) → n ≤ t → t < ds → m (d + y * ds + t) ≡ dest (d + y * ds + t)
  pub before : (a : ℕ) → a < d → m a ≡ dest a
  pub after : (a : ℕ) → d + count * ds ≤ a → m a ≡ dest a

-- Where line y lies, seen from the first line and from the second.
first_line : (d st t : ℕ) → d + zero * st + t ≡ d + t
first_line d st t = omega arith

later_line : (d st y t : ℕ) → d + suc y * st + t ≡ d + st + y * st + t
later_line d st y t = omega arith

module _ (dest_size dest_stride : ℕ) (source : Memory) (source_size source_stride n : ℕ)
    (narrow : n ≤ dest_stride) where
  module _ (count : ℕ) (dest : Memory) (d s : ℕ) (m : Memory)
      (c : IsCopied count
        (copied dest d source s n)
        (d + dest_stride)
        dest_stride
        source
        (s + source_stride)
        source_stride
        n
        m) where
    first_inside : (t : ℕ) → t < n → m (d + t) ≡ source (s + t)
    first_inside t h = c.before (d + t) (omega arith) ∙ copied_in dest d source s n t h

    first_beside : (t : ℕ) → n ≤ t → t < dest_stride → m (d + t) ≡ dest (d + t)
    first_beside t h k =
        c.before (d + t) (omega arith) ∙ copied_after dest d source s n (d + t) (omega arith)

    inside_suc :
        (y t : ℕ)
        → y < suc count
        → t < n
        → m (d + y * dest_stride + t) ≡ source (s + y * source_stride + t)
    inside_suc zero t h k =
        rw (first_line d dest_stride t, first_line s source_stride t) (first_inside t k)
    inside_suc (suc y) t h k =
        rw (later_line d dest_stride y t, later_line s source_stride y t)
          (c.inside y t (omega arith) k)

    beside_suc :
        (y t : ℕ)
        → n ≤ t
        → t < dest_stride
        → m (d + y * dest_stride + t) ≡ dest (d + y * dest_stride + t)
    beside_suc zero t h k = rw (first_line d dest_stride t) (first_beside t h k)
    beside_suc (suc y) t h k = rw (later_line d dest_stride y t) (
        c.beside y t h k
        ∙ copied_after dest d source s n (d + dest_stride + y * dest_stride + t) (omega arith))

    IsCopied-suc : IsCopied (suc count) dest d dest_stride source s source_stride n m
    IsCopied-suc = record {
      inside = inside_suc;
      beside = beside_suc;
      before = λ a h. c.before a (omega arith) ∙ copied_before dest d source s n a h;
      after = λ a h. c.after a (omega arith) ∙ copied_after dest d source s n a (omega arith);
    }

  pub copy_lines-IsCopied :
      (count : ℕ) (dest : Memory) (d s : ℕ)
      → LinesFit count dest_size d dest_stride n
      → LinesFit count source_size s source_stride n
      → (m : Memory) × (copy_lines count dest dest_size d dest_stride source source_size s
            source_stride n
          ≡ ok m)
        × IsCopied count dest d dest_stride source s source_stride n m
  unfolding copy_lines
  copy_lines-IsCopied zero dest d s f g = (
    dest,
    refl,
    record {
      inside = λ y t h. absurd (omega arith);
      beside = λ y t _ _. refl;
      before = λ a _. refl;
      after = λ a _. refl;
    },
  )
  copy_lines-IsCopied (suc count) dest d s (f, fs) (g, gs) =
      let dest' = copied dest d source s n in
      let (m, e, c) = copy_lines-IsCopied count dest' (d + dest_stride) (s + source_stride) fs gs in
      (
        m,
        rw (memcpy-ok dest dest_size d source source_size s n f g) e,
        IsCopied-suc count dest d s m c,
      )

-- Lines that lie in the first `height` lines of an allocation fit.
pub LinesFit-rows :
    (count row height offset n stride size : ℕ)
    → row + count ≤ height
    → offset + n ≤ stride
    → stride * height ≤ size
    → LinesFit count size (row * stride + offset) stride n
LinesFit-rows zero row height offset n stride size h k l = tt
LinesFit-rows (suc count) row height offset n stride size h k l = (
  grind arith,
  rw next_row (LinesFit-rows count (row + 1) height offset n stride size (omega arith) k l),
)
  where
    next_row : row * stride + offset + stride ≡ (row + 1) * stride + offset
    next_row = omega arith
