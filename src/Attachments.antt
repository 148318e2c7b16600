-- ===== src/Attachments.antt =====
-- libpyramidizer/src/pyramidizer_operation.cpp: the copying of the attachments. libCZI's
-- `SetContentFileType` and `SetName` store the texts whole, as they do those that fit their fields.
pub mod Copied
use czi_pyramidizer.Prelude.{
  ℕ, zero, suc, ◌+◌, ◌%◌, List, [], ◌∷◌, ◌++◌, map, Option, none, some, Bool, true, false, not,
  ◌&&◌, ◌||◌, ◌==◌, ltb, length, if◌then◌else◌,
}
use czi_pyramidizer.Prelude.Int.{ℤ, pos, eqb_ℤ}
use czi_pyramidizer.Prelude.Words.{u32_mod}
use czi_pyramidizer.Prelude.Outcome.{Outcome, ok, err, invalid_argument, ◌>>=◌}
use czi_pyramidizer.Console.{Text, codes}
use czi_pyramidizer.SubBlocks.{narrow_size}
use czi_pyramidizer.OutputTile.{CompressionMode}

-- libCZI's attachment, and `AddAttachmentInfo` as it is filled in.
pub record Attachment (Guid : Type 0) : Type 0 where
  pub content_guid : Guid
  pub content_file_type : Text
  pub name : Text
  pub raw_data : List ℕ

pub record AddAttachmentInfo (Guid : Type 0) : Type 0 where
  pub content_guid : Guid
  pub attachment_data : List ℕ
  pub data_size : ℕ
  pub content_file_type : Text
  pub name : Text

unfoldable pub write_attachment :
    {Guid : Type 0} → Attachment Guid → Outcome (AddAttachmentInfo Guid)
write_attachment attachment = do
  data_size ← narrow_size (length attachment.raw_data)
  ok (record {
    content_guid = attachment.content_guid;
    attachment_data = attachment.raw_data;
    data_size = data_size;
    content_file_type = attachment.content_file_type;
    name = attachment.name;
  })

-- The calls of the writer and of the progress reporter for attachments.
pub data AttachmentCall (Guid : Type 0) : Type 0 where
  sync_add_attachment : AddAttachmentInfo Guid → AttachmentCall Guid
  report_progress_copy_attachment : ℕ → ℕ → AttachmentCall Guid

-- `numeric_limits<uint32_t>::max()`.
abbrev pub total_count_of_attachments : ℕ
total_count_of_attachments = 4294967295

unfoldable pub report_attachment : {Guid : Type 0} → Bool → ℕ → List (AttachmentCall Guid)
report_attachment reporting done =
    if reporting
    then report_progress_copy_attachment total_count_of_attachments (done % u32_mod) ∷ []
    else []

unfoldable pub copy_attachments_from :
    {Guid : Type 0}
    → (ℕ → Outcome (Attachment Guid))
    → Bool
    → ℕ
    → List ℕ
    → Outcome (List (AttachmentCall Guid))
copy_attachments_from read_attachment reporting done [] = ok []
copy_attachments_from read_attachment reporting done (index ∷ indices) = do
  attachment ← read_attachment index
  info ← write_attachment attachment
  later ← copy_attachments_from read_attachment reporting (done + 1) indices
  ok (sync_add_attachment info ∷ (report_attachment reporting done ++ later))

-- The indices are those that the reader enumerates.
unfoldable pub copy_attachments :
    {Guid : Type 0}
    → (ℕ → Outcome (Attachment Guid))
    → Bool
    → List ℕ
    → Outcome (List (AttachmentCall Guid))
copy_attachments read_attachment reporting indices = do
  calls ← copy_attachments_from read_attachment reporting 1 indices
  ok (report_attachment reporting 0 ++ calls)
