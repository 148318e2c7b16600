-- ===== src/Tests/Reporting.antt =====
-- The reports of progress, run and instantiated.
use czi_pyramidizer.Prelude.{ℕ, ◌≡◌, refl, [], ◌∷◌, ◌++◌, arith}
use czi_pyramidizer.Console.{Text, codes, written_text, to_string, digits_from}
use czi_pyramidizer.Progress.{
  ProgressReport, blanks, report_progress_pyramidizer, report_progress_copy_sub_block,
}
use czi_pyramidizer.Progress.Row.{shown, joined}
use czi_pyramidizer.Progress.Reports.{
  Leaves, copy_sub_block_pieces, pyramidizer_pieces, report_progress_copy_sub_block-Leaves,
  report_progress_pyramidizer-remainder,
}

abbrev after_60 : ProgressReport
after_60 = record { last_time_line_length = 60 }

to_string_runs : to_string 4294967295 ≡ codes "4294967295"
unfolding to_string digits_from
to_string_runs = refl

report_progress_copy_sub_block-Leaves_example :
    Leaves
      (joined (copy_sub_block_pieces (codes "C0") 7 7) [])
      (blanks 59 ++ codes ".")
      (report_progress_copy_sub_block after_60 (codes "C0") 7 7)
report_progress_copy_sub_block-Leaves_example =
    report_progress_copy_sub_block-Leaves after_60 (codes "C0") 7 7 (blanks 59 ++ codes ".") tt

report_progress_pyramidizer-remainder_example :
    (k : ℕ) × (line : Text) × (written_text
        (report_progress_pyramidizer after_60 (codes "C0") 0 4 0).0
      ≡ line ++ codes "\r")
    × (shown (blanks 59 ++ 46 ∷ []) line
        ≡ (joined (pyramidizer_pieces (codes "C0") 0 4 0) [] ++ blanks k) ++ 46 ∷ [])
unfolding to_string digits_from
report_progress_pyramidizer-remainder_example =
    report_progress_pyramidizer-remainder after_60 (codes "C0") 0 4 0 (blanks 59) 46 refl
      (omega arith)
