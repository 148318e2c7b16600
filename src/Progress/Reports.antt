-- ===== src/Progress/Reports.antt =====
-- The reports: what the terminal shows after each.
use mathlib.Core.List.{append_assoc}
use czi_pyramidizer.Prelude.{
  ℕ, ◌+◌, ◌-◌, ◌≤◌, ◌≡◌, refl, ap, ◌∙◌, sym, subst, List, [], ◌∷◌, ◌++◌, ◌==◌, Bool, true, false,
  ltb, length, length-append, if◌then◌else◌, arith, Bool-cases, inl, inr,
}
use czi_pyramidizer.Console.{Text, codes, ConsoleCall, to_string, written_text}
use czi_pyramidizer.Progress.{
  ProgressReport, blanks, end_of_line, clear_remainder_and_set_new_line_length,
  report_progress_pyramidizer, report_progress_copy_sub_block, report_progress_copy_attachment,
}
use czi_pyramidizer.Progress.Row.{
  shown, IsBlankFrom, ShowsOnly, padded-ShowsOnly, blank_behind, joined, joined-append, lengths,
  length-joined, length-blanks,
}

none_missing : (a b : ℕ) → ltb a b ≡ false → blanks (b - a) ≡ []
none_missing a b h = let e : b - a ≡ 0 = ground arith in ap blanks e

-- What the end of a report writes.
end_of_line_text :
    (report : ProgressReport) (n : ℕ)
    → written_text (end_of_line report n).0
      ≡ blanks (report.last_time_line_length - n) ++ codes "\r"
unfolding clear_remainder_and_set_new_line_length
end_of_line_text report n = elim (Bool-cases (ltb n report.last_time_line_length)) [
  | inl less ↦ rw less refl
  | inr more ↦ rw (more, none_missing n report.last_time_line_length more) refl
]

-- What a whole report writes.
report_text :
    (report : ProgressReport) (pieces : List Text) (result : List ConsoleCall × ProgressReport)
    (n : ℕ)
    → written_text result.0 ≡ joined pieces (written_text (end_of_line report n).0)
    → written_text result.0
      ≡ (joined pieces [] ++ blanks (report.last_time_line_length - n)) ++ codes "\r"
report_text report pieces result n writes =
    let missing = blanks (report.last_time_line_length - n) in
    writes
    ∙ ap (joined pieces) (end_of_line_text report n)
    ∙ joined-append pieces (missing ++ codes "\r")
    ∙ sym (append_assoc (joined pieces []) missing (codes "\r"))

-- A report leaves a text alone in the row, and remembers a length behind which the row is blank.
pub record Leaves (text row : Text) (result : List ConsoleCall × ProgressReport) : Type 0 where
  pub line : Text
  pub written : written_text result.0 ≡ line ++ codes "\r"
  pub shows : ShowsOnly text (shown row line)
  pub blank : IsBlankFrom result.1.last_time_line_length (shown row line)

-- A report whose line is counted right.
counted-Leaves :
    (report : ProgressReport) (pieces : List Text) (row : Text)
    (result : List ConsoleCall × ProgressReport) (n : ℕ)
    → n ≡ lengths pieces
    → written_text result.0 ≡ joined pieces (written_text (end_of_line report n).0)
    → result.1.last_time_line_length ≡ n
    → IsBlankFrom report.last_time_line_length row
    → Leaves (joined pieces []) row result
counted-Leaves report pieces row result n count writes remembers blank =
    let text = joined pieces [] in
    let last = report.last_time_line_length in
    let same : length text ≡ n = length-joined pieces ∙ sym count in
    let (k, e) = padded-ShowsOnly last row text blank in
    record {
      line = text ++ blanks (last - length text);
      written =
          report_text report pieces result n writes
          ∙ ap (λ m. (text ++ blanks (last - m)) ++ codes "\r") (sym same);
      shows = (k, e);
      blank =
          subst (λ m. IsBlankFrom m (shown row (text ++ blanks (last - length text))))
            (same ∙ sym remembers)
            (subst (IsBlankFrom (length text)) (sym e)
              (blank_behind (length text) k text (omega arith)));
    }

abbrev sub_blocks_done : Bool → Text
sub_blocks_done one = if one then codes " subblock done." else codes " subblocks done."

sub_blocks_done-length : (one : Bool) → length (sub_blocks_done one) ≡ (if one then 15 else 16)
sub_blocks_done-length true = refl
sub_blocks_done-length false = refl

abbrev pub copy_sub_block_pieces : Text → ℕ → ℕ → List Text
copy_sub_block_pieces coordinate total done =
    codes "Copy Layer0: "
    ∷ codes "plane "
    ∷ coordinate
    ∷ codes ", "
    ∷ to_string done
    ∷ codes " of "
    ∷ to_string total
    ∷ sub_blocks_done (total == 1)
    ∷ []

-- After the report of a copied subblock the row shows this report alone, whatever the report before
-- left in it, as long as the row is blank behind the length that was remembered; and so it is again.
pub report_progress_copy_sub_block-Leaves :
    (report : ProgressReport) (coordinate : Text) (total done : ℕ) (row : Text)
    → IsBlankFrom report.last_time_line_length row
    → Leaves
        (joined (copy_sub_block_pieces coordinate total done) [])
        row
        (report_progress_copy_sub_block report coordinate total done)
unfolding report_progress_copy_sub_block clear_remainder_and_set_new_line_length
report_progress_copy_sub_block-Leaves report coordinate total done row blank =
    counted-Leaves report (copy_sub_block_pieces coordinate total done) row
      (report_progress_copy_sub_block report coordinate total done) _
      (omega (arith, sub_blocks_done-length (total == 1))) refl refl blank

abbrev pub copy_attachment_pieces : ℕ → List Text
copy_attachment_pieces done =
    codes "Copy Attachments: " ∷ to_string done ∷ codes " attachments done." ∷ []

-- The same of the report of a copied attachment.
pub report_progress_copy_attachment-Leaves :
    (report : ProgressReport) (total done : ℕ) (row : Text)
    → IsBlankFrom report.last_time_line_length row
    → Leaves
        (joined (copy_attachment_pieces done) [])
        row
        (report_progress_copy_attachment report total done)
unfolding report_progress_copy_attachment clear_remainder_and_set_new_line_length
report_progress_copy_attachment-Leaves report total done row blank =
    counted-Leaves report (copy_attachment_pieces done) row
      (report_progress_copy_attachment report total done) _ (omega arith) refl refl blank

abbrev tiles_done : Bool → Text
tiles_done one = if one then codes " tile done." else codes " tiles done."

tiles_done-length : (one : Bool) → length (tiles_done one) ≡ (if one then 11 else 12)
tiles_done-length true = refl
tiles_done-length false = refl

abbrev pub pyramidizer_pieces : Text → ℕ → ℕ → ℕ → List Text
pyramidizer_pieces coordinate layer total done =
    codes "Pyramidize: "
    ∷ codes "plane "
    ∷ coordinate
    ∷ codes ", layer "
    ∷ to_string layer
    ∷ codes ", "
    ∷ to_string done
    ∷ codes " of "
    ∷ to_string total
    ∷ tiles_done (total == 1)
    ∷ []

shown-append :
    (before text : Text) (c : ℕ)
    → length text ≡ length before
    → shown (before ++ c ∷ []) text ≡ text ++ c ∷ []
shown-append [] [] c h = refl
shown-append [] (d ∷ text) c h = absurd (omega arith)
shown-append (b ∷ before) [] c h = absurd (omega arith)
shown-append (b ∷ before) (d ∷ text) c h =
    ap (λ t. d ∷ t) (shown-append before text c (omega arith))

-- The report of the pyramid counts one character too many. Where the remembered line fills the row
-- and is longer than the report, the last character of the row is not cleared: the row shows the
-- report, blanks, and this character.
pub report_progress_pyramidizer-remainder :
    (report : ProgressReport) (coordinate : Text) (layer total done : ℕ) (before : Text) (c : ℕ)
    → report.last_time_line_length ≡ length before + 1
    → length (joined (pyramidizer_pieces coordinate layer total done) []) ≤ length before
    → (k : ℕ) × (line : Text) × (written_text
          (report_progress_pyramidizer report coordinate layer total done).0
        ≡ line ++ codes "\r")
      × (shown (before ++ c ∷ []) line
          ≡ (joined (pyramidizer_pieces coordinate layer total done) [] ++ blanks k) ++ c ∷ [])
unfolding report_progress_pyramidizer clear_remainder_and_set_new_line_length
report_progress_pyramidizer-remainder report coordinate layer total done before c last short =
    let pieces = pyramidizer_pieces coordinate layer total done in
    let text = joined pieces [] in
    let n = lengths pieces + 1 in
    let missing = report.last_time_line_length - n in
    (
      missing,
      text ++ blanks missing,
      report_text report pieces (report_progress_pyramidizer report coordinate layer total done) n (
          ap (λ m. joined pieces (written_text (end_of_line report m).0))
            (counted (to_string layer) (to_string done) (to_string total))),
      shown-append before (text ++ blanks missing) c (
          omega (
            arith,
            length-append text (blanks missing),
            length-blanks missing,
            length-joined pieces,
          )),
    )
  where
    counted :
        (a b d : Text)
        → 12
            + 6
            + length coordinate
            + 8
            + length a
            + 2
            + length b
            + 5
            + length d
            + (if total == 1 then 11 else 12)
          ≡ 12
            + (6
                + (length coordinate
                    + (8
                        + (length a
                            + (2
                                + (length b
                                    + (4
                                        + (length d + (length (tiles_done (total == 1)) + 0)))))))))
            + 1
    counted a b d = omega (arith, tiles_done-length (total == 1))
