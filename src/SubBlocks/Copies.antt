-- ===== src/SubBlocks/Copies.antt =====
-- Copied subblocks keep everything, and the M-index where it is the subblock's own.
use czi_pyramidizer.Prelude.{
  count_up, ◌≤◌, ℕ, ◌+◌, ◌%◌, ◌<◌, ◌≡◌, ◌≢◌, refl, ap, ◌∙◌, ◌↔◌, List, [], ◌∷◌, Bool, true, false,
  not, ◌&&◌, inl, inr, arith, length, Bool-cases, if◌then◌else◌,
}
use czi_pyramidizer.Prelude.Int.{ℤ, pos, eqb_ℤ, eq_of_parts}
use czi_pyramidizer.Prelude.Words.{u32_mod, int_limit}
use czi_pyramidizer.Prelude.Outcome.{Outcome, ok}
use czi_pyramidizer.Compose.Blend.{narrow_int-ok}
use czi_pyramidizer.SubBlocks.{
  SubBlock, AddSubBlockInfo, CopyCall, sync_add_sub_block, report_progress_copy_sub_block,
  narrow_size, int_max, add_sub_block_info, report_copy, copy_sub_blocks,
  copy_sub_blocks_to_destination,
}

eqb_ℤ_iff : (a b : ℤ) → (eqb_ℤ a b ≡ true) ↔ (a ≡ b)
eqb_ℤ_iff a b = (λ h. eq_of_parts a b (ground arith), λ e. rw e (ground arith))

and_not_iff :
    {P Q R : Type 0} (p q r : Bool)
    → (p ≡ true) ↔ P
    → (q ≡ true) ↔ Q
    → (r ≡ true) ↔ R
    → ((p && q && not r) ≡ true) ↔ (P × Q × (¬ R))
and_not_iff false q r hp hq hr = (λ e. cc, λ h. cc (hp.1 h.0))
and_not_iff true false r hp hq hr = (λ e. cc, λ h. cc (hq.1 h.1))
and_not_iff true true false hp hq hr = (λ e. (hp.0 refl, hq.0 refl, λ x. cc (hr.1 x)), λ h. refl)
and_not_iff true true true hp hq hr = (λ e. cc, λ h. absurd (h.2 (hr.0 refl)))

pub narrow_size-ok : (n : ℕ) → n < u32_mod → narrow_size n ≡ ok n
unfolding narrow_size
narrow_size-ok n h = ground arith

module _ {C : Type 0} where
  -- The sizes fit the fields that they are stored in.
  pub record IsSmall (b : SubBlock C) : Type 0 where
    pub data_fits : length b.raw_data < u32_mod
    pub metadata_fits : length b.metadata < u32_mod
    pub attachment_fits : length b.attachment < u32_mod
    pub width_fits : b.info.physical_width < int_limit
    pub height_fits : b.info.physical_height < int_limit

  -- The M-index is the subblock's own: the subblock is not scaled, and the index is set.
  abbrev pub HasMIndex : SubBlock C → Type 0
  HasMIndex b =
      (pos b.info.physical_width ≡ b.info.logical_rect.w)
      × (pos b.info.physical_height ≡ b.info.logical_rect.h)
      × (b.info.m_index ≢ int_max)

  -- What is added for the subblock b.
  pub record IsCopyOf (b : SubBlock C) (a : AddSubBlockInfo C) : Type 0 where
    pub raw_data : (a.raw_data ≡ b.raw_data) × (a.data_size ≡ length b.raw_data)
    pub metadata : (a.metadata ≡ b.metadata) × (a.metadata_size ≡ length b.metadata)
    pub attachment : (a.attachment ≡ b.attachment) × (a.attachment_size ≡ length b.attachment)
    pub coordinate : a.coordinate ≡ b.info.coordinate
    pub left : a.x ≡ b.info.logical_rect.x
    pub top : a.y ≡ b.info.logical_rect.y
    pub wide : a.logical_width ≡ b.info.logical_rect.w
    pub high : a.logical_height ≡ b.info.logical_rect.h
    pub physical :
        (a.physical_width ≡ pos b.info.physical_width)
        × (a.physical_height ≡ pos b.info.physical_height)
    pub pixels :
        (a.pixel_type ≡ b.info.pixel_type)
        × (a.pyramid_type ≡ b.info.pyramid_type)
        × (a.compression_mode_raw ≡ b.info.compression_mode_raw)
    pub m_index_kept : HasMIndex b → (a.m_index_valid ≡ true) × (a.m_index ≡ b.info.m_index)
    pub m_index_dropped : ¬ HasMIndex b → a.m_index_valid ≡ false

  abbrev keeps : SubBlock C → Bool
  keeps b =
      eqb_ℤ (pos b.info.physical_width) b.info.logical_rect.w
      && eqb_ℤ (pos b.info.physical_height) b.info.logical_rect.h
      && not (eqb_ℤ b.info.m_index int_max)

  keeps_iff : (b : SubBlock C) → (keeps b ≡ true) ↔ HasMIndex b
  keeps_iff b =
      and_not_iff _ _ _ (eqb_ℤ_iff (pos b.info.physical_width) b.info.logical_rect.w)
        (eqb_ℤ_iff (pos b.info.physical_height) b.info.logical_rect.h)
        (eqb_ℤ_iff b.info.m_index int_max)

  abbrev copy_of : SubBlock C → AddSubBlockInfo C
  copy_of b = record {
    raw_data = b.raw_data;
    data_size = length b.raw_data;
    metadata = b.metadata;
    metadata_size = length b.metadata;
    attachment = b.attachment;
    attachment_size = length b.attachment;
    coordinate = b.info.coordinate;
    x = b.info.logical_rect.x;
    y = b.info.logical_rect.y;
    logical_width = b.info.logical_rect.w;
    logical_height = b.info.logical_rect.h;
    physical_width = pos b.info.physical_width;
    physical_height = pos b.info.physical_height;
    pixel_type = b.info.pixel_type;
    pyramid_type = b.info.pyramid_type;
    m_index = if keeps b then b.info.m_index else pos 0;
    m_index_valid = keeps b;
    compression_mode_raw = b.info.compression_mode_raw;
  }

  copy_of-IsCopyOf : (b : SubBlock C) → IsCopyOf b (copy_of b)
  copy_of-IsCopyOf b = record {
    raw_data = (refl, refl);
    metadata = (refl, refl);
    attachment = (refl, refl);
    coordinate = refl;
    left = refl;
    top = refl;
    wide = refl;
    high = refl;
    physical = (refl, refl);
    pixels = (refl, refl, refl);
    m_index_kept = λ h. ((keeps_iff b).1 h, rw ((keeps_iff b).1 h) refl);
    m_index_dropped =
        λ n. elim (Bool-cases (keeps b)) [ inl e ↦ absurd (n ((keeps_iff b).0 e)) | inr e ↦ e ];
  }

  add_sub_block_info_lem : (b : SubBlock C) → IsSmall b → add_sub_block_info b ≡ ok (copy_of b)
  unfolding add_sub_block_info
  add_sub_block_info_lem b s =
      rw
        (
          narrow_size-ok (length b.raw_data) s.data_fits,
          narrow_size-ok (length b.metadata) s.metadata_fits,
          narrow_size-ok (length b.attachment) s.attachment_fits,
          narrow_int-ok b.info.physical_width s.width_fits,
          narrow_int-ok b.info.physical_height s.height_fits,
        )
        refl

  -- The reader gives a subblock for each index.
  abbrev pub AllRead : (ℕ → Outcome (SubBlock C)) → List ℕ → List (SubBlock C) → Type 0
  AllRead read [] [] = Unit
  AllRead read [] (b ∷ blocks) = ⊥
  AllRead read (i ∷ indices) [] = ⊥
  AllRead read (i ∷ indices) (b ∷ blocks) =
      (read i ≡ ok b) × IsSmall b × AllRead read indices blocks

  abbrev pub AllCopies : List (SubBlock C) → List (AddSubBlockInfo C) → Type 0
  AllCopies [] [] = Unit
  AllCopies [] (a ∷ infos) = ⊥
  AllCopies (b ∷ blocks) [] = ⊥
  AllCopies (b ∷ blocks) (a ∷ infos) = IsCopyOf b a × AllCopies blocks infos

  -- The subblocks that are added, in order.
  abbrev pub added : List (CopyCall C) → List (AddSubBlockInfo C)
  added [] = []
  added (sync_add_sub_block a ∷ calls) = a ∷ added calls
  added (report_progress_copy_sub_block plane total done ∷ calls) = added calls

  -- The numbers that are reported, in order.
  abbrev pub counted : List (CopyCall C) → List (ℕ × ℕ)
  counted [] = []
  counted (sync_add_sub_block a ∷ calls) = counted calls
  counted (report_progress_copy_sub_block plane total done ∷ calls) = (total, done) ∷ counted calls

  module _ (read : ℕ → Outcome (SubBlock C)) (plane : C) where
    -- The rounds of the loop from a count on, with a progress reporter.
    rounds :
        (total done : ℕ) (indices : List ℕ) (blocks : List (SubBlock C))
        → AllRead read indices blocks
        → done + length indices ≤ u32_mod
        → (calls : List (CopyCall C)) × (copy_sub_blocks read true plane total done indices
            ≡ ok calls)
          × AllCopies blocks (added calls)
          × (counted calls ≡ count_up total done (length indices))
    unfolding copy_sub_blocks report_copy
    rounds total done [] [] all h = ([], refl, tt, refl)
    rounds total done [] (b ∷ blocks) all h = absurd all
    rounds total done (i ∷ indices) [] all h = absurd all
    rounds total done (i ∷ indices) (b ∷ blocks) (e, small, all) h =
        let (later, el, copies, counts) =
          rounds total (done + 1) indices blocks all (omega arith) in
        let small_count : done % u32_mod ≡ done = omega arith in
        (
          sync_add_sub_block (copy_of b)
              ∷ report_progress_copy_sub_block plane total (done % u32_mod)
              ∷ later,
          rw (e, add_sub_block_info_lem b small, el) refl,
          (copy_of-IsCopyOf b, copies),
          ap (λ n. (total, n) ∷ counted later) small_count ∙ ap (λ l. (total, done) ∷ l) counts,
        )

    -- Where the reader gives a subblock for each index, the copying returns: it adds a copy of each
    -- subblock, once and in order, and reports 0 up to their number. A copy keeps the bytes, the
    -- coordinate, the position and the extents; the M-index is kept where the subblock has one and
    -- is not scaled, and is marked invalid elsewhere. The sizes and the number of subblocks are
    -- below the limits of their fields.
    pub copy_sub_blocks_to_destination-AllCopies :
        (indices : List ℕ) (blocks : List (SubBlock C))
        → AllRead read indices blocks
        → length indices + 1 ≤ u32_mod
        → (calls : List (CopyCall C)) × (copy_sub_blocks_to_destination read true plane indices
            ≡ ok calls)
          × AllCopies blocks (added calls)
          × (counted calls ≡ (length indices, 0) ∷ count_up (length indices) 1 (length indices))
    unfolding copy_sub_blocks_to_destination report_copy
    copy_sub_blocks_to_destination-AllCopies indices blocks all h =
        let bound : 1 + length indices ≤ u32_mod = omega arith in
        let total : length indices % u32_mod ≡ length indices = omega arith in
        let (calls, e, copies, counts) = rounds (length indices) 1 indices blocks all bound in
        (
          report_progress_copy_sub_block plane (length indices) 0 ∷ calls,
          rw (total, e) refl,
          copies,
          ap (λ l. (length indices, 0) ∷ l) counts,
        )
