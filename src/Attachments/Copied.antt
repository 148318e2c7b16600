-- ===== src/Attachments/Copied.antt =====
-- Every attachment is copied, once and in order.
use czi_pyramidizer.Prelude.{
  ℕ, ◌+◌, ◌%◌, ◌≤◌, ◌<◌, ◌≡◌, refl, ap, ◌∙◌, List, [], ◌∷◌, true, arith, length, count_up,
}
use czi_pyramidizer.Prelude.Words.{u32_mod}
use czi_pyramidizer.Prelude.Outcome.{Outcome, ok}
use czi_pyramidizer.SubBlocks.Copies.{narrow_size-ok}
use czi_pyramidizer.Attachments.{
  Attachment, AddAttachmentInfo, AttachmentCall, sync_add_attachment,
  report_progress_copy_attachment, total_count_of_attachments, report_attachment, write_attachment,
  copy_attachments_from, copy_attachments,
}

module _ {Guid : Type 0} where
  -- The copy of an attachment.
  pub record IsCopyOf (b : Attachment Guid) (a : AddAttachmentInfo Guid) : Type 0 where
    pub same_guid : a.content_guid ≡ b.content_guid
    pub same_type : a.content_file_type ≡ b.content_file_type
    pub same_name : a.name ≡ b.name
    pub same_data : (a.attachment_data ≡ b.raw_data) × (a.data_size ≡ length b.raw_data)

  abbrev copy_of : Attachment Guid → AddAttachmentInfo Guid
  copy_of b = record {
    content_guid = b.content_guid;
    attachment_data = b.raw_data;
    data_size = length b.raw_data;
    content_file_type = b.content_file_type;
    name = b.name;
  }

  write_attachment_lem :
      (b : Attachment Guid) → length b.raw_data < u32_mod → write_attachment b ≡ ok (copy_of b)
  unfolding write_attachment
  write_attachment_lem b h = rw (narrow_size-ok (length b.raw_data) h) refl

  -- The reader gives an attachment for each index, of fewer than 2 ^ 32 bytes.
  abbrev pub AllRead : (ℕ → Outcome (Attachment Guid)) → List ℕ → List (Attachment Guid) → Type 0
  AllRead read [] [] = Unit
  AllRead read [] (b ∷ attachments) = ⊥
  AllRead read (i ∷ indices) [] = ⊥
  AllRead read (i ∷ indices) (b ∷ attachments) =
      (read i ≡ ok b) × (length b.raw_data < u32_mod) × AllRead read indices attachments

  abbrev pub AllCopies : List (Attachment Guid) → List (AddAttachmentInfo Guid) → Type 0
  AllCopies [] [] = Unit
  AllCopies [] (a ∷ infos) = ⊥
  AllCopies (b ∷ attachments) [] = ⊥
  AllCopies (b ∷ attachments) (a ∷ infos) = IsCopyOf b a × AllCopies attachments infos

  -- The attachments that are added, and the counts that are reported, in order.
  abbrev pub added : List (AttachmentCall Guid) → List (AddAttachmentInfo Guid)
  added [] = []
  added (sync_add_attachment a ∷ calls) = a ∷ added calls
  added (report_progress_copy_attachment total done ∷ calls) = added calls

  abbrev pub counted : List (AttachmentCall Guid) → List (ℕ × ℕ)
  counted [] = []
  counted (sync_add_attachment a ∷ calls) = counted calls
  counted (report_progress_copy_attachment total done ∷ calls) = (total, done) ∷ counted calls

  module _ (read : ℕ → Outcome (Attachment Guid)) where
    rounds :
        (done : ℕ) (indices : List ℕ) (attachments : List (Attachment Guid))
        → AllRead read indices attachments
        → done + length indices ≤ u32_mod
        → (calls : List (AttachmentCall Guid)) × (copy_attachments_from read true done indices
            ≡ ok calls)
          × AllCopies attachments (added calls)
          × (counted calls ≡ count_up total_count_of_attachments done (length indices))
    unfolding copy_attachments_from report_attachment
    rounds done [] [] all h = ([], refl, tt, refl)
    rounds done [] (b ∷ attachments) all h = absurd all
    rounds done (i ∷ indices) [] all h = absurd all
    rounds done (i ∷ indices) (b ∷ attachments) (e, small, all) h =
        let (later, el, copies, counts) = rounds (done + 1) indices attachments all (omega arith) in
        let small_count : done % u32_mod ≡ done = omega arith in
        (
          sync_add_attachment (copy_of b)
              ∷ report_progress_copy_attachment total_count_of_attachments (done % u32_mod)
              ∷ later,
          rw (e, write_attachment_lem b small, el) refl,
          (
            record {
              same_guid = refl;
              same_type = refl;
              same_name = refl;
              same_data = (refl, refl);
            },
            copies,
          ),
          ap (λ n. (total_count_of_attachments, n) ∷ counted later) small_count
              ∙ ap (λ l. (total_count_of_attachments, done) ∷ l) counts,
        )

    -- Where the reader gives an attachment for each index, the copying returns: it adds a copy of each
    -- attachment, once and in order, with its identifier, type, name and bytes, and reports 0 up to
    -- their number. The attachments and their number are below the limits of their fields.
    pub copy_attachments-AllCopies :
        (indices : List ℕ) (attachments : List (Attachment Guid))
        → AllRead read indices attachments
        → length indices + 1 ≤ u32_mod
        → (calls : List (AttachmentCall Guid)) × (copy_attachments read true indices ≡ ok calls)
          × AllCopies attachments (added calls)
          × (counted calls
              ≡ (total_count_of_attachments, 0)
                ∷ count_up total_count_of_attachments 1 (length indices))
    unfolding copy_attachments report_attachment
    copy_attachments-AllCopies indices attachments all h =
        let (calls, e, copies, counts) = rounds 1 indices attachments all (omega arith) in
        (
          report_progress_copy_attachment total_count_of_attachments 0 ∷ calls,
          rw e refl,
          copies,
          ap (λ l. (total_count_of_attachments, 0) ∷ l) counts,
        )
