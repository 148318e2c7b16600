-- ===== src/TileHelper/Hull.antt =====
-- `GetMinimalRectForRoi` returns the least rectangle around the pixels that it has to cover.
use mathlib.Core.List.{append-nil, append_assoc}
use czi_pyramidizer.Prelude.{
  ℕ, zero, suc, ◌+◌, ◌<◌, ◌≡◌, ◌∙◌, ap, ◌↔◌, ◌⊎◌, inl, inr, true, false, List, [], ◌∷◌, ◌++◌, some,
  arith, Bool-cases, length,
}
use czi_pyramidizer.Prelude.Int.{pos, ◌+ℤ◌, ◌-ℤ◌, ◌≤ℤ◌, int_laws}
use czi_pyramidizer.Rect.{IntRect, Point, Contains, Within, IsNonEmpty, RectOps}
use czi_pyramidizer.TileHelper.{
  TileHelper, collect_tiles, next_tile, initialize_from_functor, union, unite_tiles,
  get_minimal_rect_for_roi,
}

-- A set of pixels.
abbrev pub Pixels : Type 1
Pixels = Point → Type 0

abbrev pub Either : Pixels → Pixels → Pixels
Either S T p = S p ⊎ T p

-- The pixels of the tiles.
abbrev pub InTiles : List IntRect → Pixels
InTiles [] p = ⊥
InTiles (t ∷ ts) p = Contains t p ⊎ InTiles ts p

-- r is the least rectangle that covers S. Of an empty S this says that r has no pixels.
pub record IsHull (S : Pixels) (r : IntRect) : Type 0 where
  pub covers : (p : Point) → S p → Contains r p
  pub least : (box : IntRect) → ((p : Point) → S p → Contains box p) → Within r box

-- The edges of the first are not outside those of the second.
abbrev pub Inside : IntRect → IntRect → Type 0
Inside a b = (b.x ≤ℤ a.x) × (a.x +ℤ a.w ≤ℤ b.x +ℤ b.w) × (b.y ≤ℤ a.y) × (a.y +ℤ a.h ≤ℤ b.y +ℤ b.h)

pub Within-Inside : (a b : IntRect) → IsNonEmpty a → Within a b → Inside a b
Within-Inside a b (pw, ph) h = omega (int_laws, h first (omega int_laws), h last (omega int_laws))
  where
    first : Point
    first = record { px = a.x; py = a.y }

    last : Point
    last = record { px = a.x +ℤ a.w -ℤ pos 1; py = a.y +ℤ a.h -ℤ pos 1 }

pub Inside-Within : (a b : IntRect) → Inside a b → Within a b
Inside-Within a b h p c = omega int_laws

-- A rectangle is the hull of its own pixels.
IsHull-Contains : (r : IntRect) → IsHull (Contains r) r
IsHull-Contains r = record { covers = λ p c. c; least = λ box h. h }

-- The hull depends on the set of pixels only.
pub IsHull-iff : {S T : Pixels} {r : IntRect} → ((p : Point) → S p ↔ T p) → IsHull S r → IsHull T r
IsHull-iff e h = record {
  covers = λ p t. h.covers p ((e p).1 t);
  least = λ box k. h.least box (λ p s. k p ((e p).0 s));
}

module _ (ops : RectOps) where
  open ops use {is_non_empty, intersect, invalid, is_non_empty_iff, intersect_iff, invalid_empty}

  -- A rectangle that is not `IsNonEmpty` has no pixels.
  pub no-pixels : (r : IntRect) → is_non_empty r ≡ false → (p : Point) → Contains r p → ⊥
  no-pixels r e p c = cc (e, (is_non_empty_iff r).1 (omega int_laws))

  -- Both sides have pixels.
  union-both-IsHull :
      (a b : IntRect)
      → is_non_empty a ≡ true
      → is_non_empty b ≡ true
      → IsHull (Either (Contains a) (Contains b)) (union ops a b)
  unfolding union
  union-both-IsHull a b ea eb =
      rw (ea, eb)
        (record {
          covers = λ p s. elim s [ inl ca ↦ omega int_laws | inr cb ↦ omega int_laws ];
          least = λ box h. Inside-Within _ box (
              omega (
                int_laws,
                Within-Inside a box ((is_non_empty_iff a).0 ea) (λ p ca. h p (inl ca)),
                Within-Inside b box ((is_non_empty_iff b).0 eb) (λ p cb. h p (inr cb)),
              ));
        })

  -- `Union` gives the hull of the pixels of both.
  pub union-IsHull : (a b : IntRect) → IsHull (Either (Contains a) (Contains b)) (union ops a b)
  unfolding union
  union-IsHull a b = elim (Bool-cases (is_non_empty a)) [
    | inl ea ↦ elim (Bool-cases (is_non_empty b)) [
      | inl eb ↦ union-both-IsHull a b ea eb
      | inr eb ↦
          rw (ea, eb)
            (IsHull-iff
              (λ p. (λ c. inl c, λ s. elim s [ inl c ↦ c | inr c ↦ absurd (no-pixels b eb p c) ]))
              (IsHull-Contains a))
    ]
    | inr ea ↦ elim (Bool-cases (is_non_empty b)) [
      | inl eb ↦
          rw (ea, eb)
            (IsHull-iff
              (λ p. (λ c. inr c, λ s. elim s [ inl c ↦ absurd (no-pixels a ea p c) | inr c ↦ c ]))
              (IsHull-Contains b))
      | inr eb ↦
          rw (ea, eb)
            (IsHull-iff
              (λ p. (
                λ c. absurd (no-pixels invalid invalid_empty p c),
                λ s. elim s [
                  | inl c ↦ absurd (no-pixels a ea p c)
                  | inr c ↦ absurd (no-pixels b eb p c)
                ],
              ))
              (IsHull-Contains invalid))
    ]
  ]

  -- One round of the loop: the tile's part of the region goes over to the union.
  unite_tiles-step :
      (t : IntRect) (ts : List IntRect) (roi acc r : IntRect)
      → IsHull
          (Either (Contains (union ops acc (intersect t roi))) (λ p. InTiles ts p × Contains roi p))
          r
      → IsHull (Either (Contains acc) (λ p. InTiles (t ∷ ts) p × Contains roi p)) r
  unite_tiles-step t ts roi acc r rest = record {
    covers = λ p s. rest.covers p (push p s);
    least = λ box h. rest.least box (λ p s. elim s [
      | inl c ↦ step.least box (λ q d. h q (pull q d)) p c
      | inr c ↦ h p (inr (inr c.0, c.1))
    ]);
  }
    where
      step :
          IsHull
            (Either (Contains acc) (Contains (intersect t roi)))
            (union ops acc (intersect t roi))
      step = union-IsHull acc (intersect t roi)

      push :
          (p : Point)
          → Either (Contains acc) (λ p. InTiles (t ∷ ts) p × Contains roi p) p
          → Either
              (Contains (union ops acc (intersect t roi)))
              (λ p. InTiles ts p × Contains roi p)
              p
      push p (inl c) = inl (step.covers p (inl c))
      push p (inr (inl c, d)) = inl (step.covers p (inr ((intersect_iff t roi p).1 (c, d))))
      push p (inr (inr c, d)) = inr (c, d)

      pull :
          (p : Point)
          → Either (Contains acc) (Contains (intersect t roi)) p
          → Either (Contains acc) (λ p. InTiles (t ∷ ts) p × Contains roi p) p
      pull p (inl c) = inl c
      pull p (inr c) = let (i, d) = (intersect_iff t roi p).0 c in inr (inl i, d)

  -- The pixels that the loop has covered, and those that it still has to cover.
  unite_tiles-IsHull :
      (ts : List IntRect) (roi acc : IntRect)
      → IsHull
          (Either (Contains acc) (λ p. InTiles ts p × Contains roi p))
          (unite_tiles ops ts roi acc)
  unfolding unite_tiles
  unite_tiles-IsHull [] roi acc =
      IsHull-iff (λ p. (λ c. inl c, λ s. elim s [ inl c ↦ c | inr c ↦ absurd c.0 ]))
        (IsHull-Contains acc)
  unite_tiles-IsHull (t ∷ ts) roi acc =
      unite_tiles-step t ts roi acc _ (unite_tiles-IsHull ts roi (union ops acc (intersect t roi)))

  -- `get_minimal_rect_for_roi` returns the least rectangle that covers the pixels which lie both in
  -- a tile and in the region of interest. Where there are none, it has no pixels.
  pub get_minimal_rect_for_roi-IsHull :
      (helper : TileHelper) (roi : IntRect)
      → IsHull
          (λ p. InTiles helper.tiles p × Contains roi p)
          (get_minimal_rect_for_roi ops helper roi)
  unfolding get_minimal_rect_for_roi
  get_minimal_rect_for_roi-IsHull helper roi =
      IsHull-iff (λ p. (λ s. elim s [ inl c ↦ absurd (omega int_laws) | inr c ↦ c ], λ c. inr c))
        (unite_tiles-IsHull helper.tiles roi _)

-- The loop gathers what the functor gives, in order, and ends when the sequence does.
collect_tiles-next_tile :
    (fuel : ℕ) (rects tiles : List IntRect)
    → length rects < fuel
    → collect_tiles fuel next_tile rects tiles ≡ some (tiles ++ rects)
unfolding collect_tiles next_tile
collect_tiles-next_tile zero rects tiles h = absurd (omega arith)
collect_tiles-next_tile (suc fuel) [] tiles h = rw append-nil
collect_tiles-next_tile (suc fuel) (r ∷ rects) tiles h =
    collect_tiles-next_tile fuel rects (tiles ++ r ∷ []) (omega arith)
    ∙ ap some (append_assoc tiles (r ∷ []) rects)

-- `InitializeFromFunctor` with an iterator over a sequence ends, discards the old tiles and stores
-- the sequence.
pub initialize_from_functor-next_tile :
    (rects : List IntRect) (helper : TileHelper)
    → initialize_from_functor (length rects + 1) next_tile rects helper
      ≡ some (record { tiles = rects })
unfolding initialize_from_functor
initialize_from_functor-next_tile rects helper =
    rw (collect_tiles-next_tile (length rects + 1) rects [] (omega arith), initialize_from_functor)
