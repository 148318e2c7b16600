-- ===== src/Compose/CopyAt.antt =====
-- The pixels of a block that `CopyAt` has copied, and those around it.
use czi_pyramidizer.Prelude.{
  dec_lt, subst, ℕ, zero, suc, ◌+◌, ◌-◌, ◌*◌, ◌≤◌, ◌<◌, ◌≡◌, arith, ap, ◌⊎◌, inl, inr,
}
use czi_pyramidizer.Bitmap.{Memory}
use czi_pyramidizer.Bitmap.Layout.{IsCopied}

-- The bytes of a pixel fit into its line.
pixel-lt : (x w k c st : ℕ) → x < w → c < k → w * k ≤ st → x * k + c < st
pixel-lt x w k c st h l f = grind arith

-- A multiple, split at a smaller one.
split_multiple : (x y k : ℕ) → y ≤ x → x * k ≡ y * k + (x - y) * k
split_multiple x y k h = omega (arith, ap (λ (t : ℕ). t * k) whole)
  where
    whole : x ≡ y + (x - y)
    whole = omega arith

-- A block of W by H pixels of k bytes at (X, Y), copied from (U, V).
module _ (k ds ss X Y W H U V : ℕ) (dest source m : Memory)
    (block : IsCopied H dest (Y * ds + X * k) ds source (V * ss + U * k) ss (k * W) m)
    (fits : (X + W) * k ≤ ds) where
  pub block_inside :
      (x y c : ℕ)
      → x < W
      → y < H
      → c < k
      → m ((Y + y) * ds + ((X + x) * k + c)) ≡ source ((V + y) * ss + ((U + x) * k + c))
  block_inside x y c hx hy hc =
      rw (there, here)
        (block.inside y (x * k + c) hy (pixel-lt x W k c (k * W) hx hc (omega arith)))
    where
      there : (Y + y) * ds + ((X + x) * k + c) ≡ Y * ds + X * k + y * ds + (x * k + c)
      there = omega arith

      here : (V + y) * ss + ((U + x) * k + c) ≡ V * ss + U * k + y * ss + (x * k + c)
      here = omega arith

  pub block_above :
      (x y c w : ℕ)
      → y < Y
      → x < w
      → c < k
      → w * k ≤ ds
      → m (y * ds + (x * k + c)) ≡ dest (y * ds + (x * k + c))
  block_above x y c w h hx hc f = block.before _ (grind (arith, pixel-lt x w k c ds hx hc f))

  pub block_right :
      (x y c w : ℕ)
      → X + W ≤ x
      → x < w
      → c < k
      → w * k ≤ ds
      → m ((Y + y) * ds + (x * k + c)) ≡ dest ((Y + y) * ds + (x * k + c))
  block_right x y c w h hx hc f = rw there (
      block.beside y ((x - X) * k + c) (omega (arith, wide, past))
        (omega (arith, pixel-lt x w k c ds hx hc f, wide)))
    where
      wide : x * k ≡ X * k + (x - X) * k
      wide = split_multiple x X k (omega arith)

      past : x * k ≡ (X + W) * k + (x - (X + W)) * k
      past = split_multiple x (X + W) k h

      there : (Y + y) * ds + (x * k + c) ≡ Y * ds + X * k + y * ds + ((x - X) * k + c)
      there = omega (arith, wide)

  -- Left of the block, the byte lies behind the block's part of the line before.
  pub block_left :
      (x y c : ℕ)
      → x < X
      → c < k
      → m ((Y + y) * ds + (x * k + c)) ≡ dest ((Y + y) * ds + (x * k + c))
  block_left x zero c h hc =
      block.before _ (omega (arith, pixel-lt x X k c (X * k) h hc (omega arith)))
  block_left x (suc y) c h hc =
      rw there
        (block.beside y (ds + (x * k + c) - X * k) (omega arith) (omega (arith, before_block)))
    where
      before_block : x * k + c < X * k
      before_block = pixel-lt x X k c (X * k) h hc (omega arith)

      there : (Y + suc y) * ds + (x * k + c) ≡ Y * ds + X * k + y * ds + (ds + (x * k + c) - X * k)
      there = omega arith

  pub block_below :
      (x y c : ℕ)
      → X ≤ x
      → H ≤ y
      → m ((Y + y) * ds + (x * k + c)) ≡ dest ((Y + y) * ds + (x * k + c))
  block_below x y c h k' =
      block.after _ (omega (arith, split_multiple x X k h, split_multiple y H ds k'))

  -- In absolute positions: the pixels of the block.
  pub block_pixel :
      (x y c : ℕ)
      → X ≤ x
      → x < X + W
      → Y ≤ y
      → y < Y + H
      → c < k
      → m (y * ds + (x * k + c)) ≡ source ((V + (y - Y)) * ss + ((U + (x - X)) * k + c))
  block_pixel x y c lx hx ly hy hc =
      subst
        (λ (p : ℕ × ℕ).
          m (p.1 * ds + (p.0 * k + c)) ≡ source ((V + (y - Y)) * ss + ((U + (x - X)) * k + c)))
        same (block_inside (x - X) (y - Y) c (omega arith) (omega arith) hc)
    where
      same : ◌≡◌ {A = ℕ × ℕ} (X + (x - X), Y + (y - Y)) (x, y)
      same = ground arith

  -- The pixels of a line from the block's first line on that are beside or below the block.
  block_line :
      (x y c w : ℕ)
      → x < w
      → c < k
      → w * k ≤ ds
      → ((x < X) ⊎ (X + W ≤ x)) ⊎ (H ≤ y)
      → m ((Y + y) * ds + (x * k + c)) ≡ dest ((Y + y) * ds + (x * k + c))
  block_line x y c w hx hc f (inl (inl left)) = block_left x y c left hc
  block_line x y c w hx hc f (inl (inr right)) = block_right x y c w right hx hc f
  block_line x y c w hx hc f (inr below) = elim (dec_lt x X) [
    | yes left ↦ block_left x y c left hc
    | no other ↦ block_below x y c (omega arith) below
  ]

  -- And the pixels around it, in lines that hold w pixels.
  pub block_around :
      (x y c w : ℕ)
      → x < w
      → c < k
      → w * k ≤ ds
      → ((x < X) ⊎ (X + W ≤ x)) ⊎ ((y < Y) ⊎ (Y + H ≤ y))
      → m (y * ds + (x * k + c)) ≡ dest (y * ds + (x * k + c))
  block_around x y c w hx hc f out = elim (dec_lt y Y) [
    | yes above ↦ block_above x y c w above hx hc f
    | no below ↦
        subst (λ (t : ℕ). m (t * ds + (x * k + c)) ≡ dest (t * ds + (x * k + c))) (omega arith)
          (block_line x (y - Y) c w hx hc f (omega arith))
  ]
