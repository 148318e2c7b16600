-- ===== src/Progress.antt =====
-- libpyramidizer/libpyramidizer.cpp: `ProgressReport`, which writes each report over the last one,
-- in one row of the terminal. libCZI's text for a coordinate is a parameter. The lengths of lines
-- are exact.
pub mod Row
pub mod Reports
use czi_pyramidizer.Prelude.{
  ℕ, zero, suc, ◌+◌, ◌-◌, List, [], ◌∷◌, ◌++◌, ◌==◌, ltb, length, if◌then◌else◌,
}
use czi_pyramidizer.Console.{
  Text, codes, ConsoleColor, ConsoleCall, set_color, move_up, write_std_out, write_line_std_out,
  to_string,
}

-- The state is the length of the last line.
pub record ProgressReport : Type 0 where
  pub last_time_line_length : ℕ

-- The constructor.
abbrev pub progress_report : List ConsoleCall × ProgressReport
progress_report = (write_line_std_out [] ∷ move_up 1 ∷ [], record { last_time_line_length = 0 })

abbrev pub colored : ConsoleColor → Text → List ConsoleCall → List ConsoleCall
colored color text later = set_color color ConsoleColor.default ∷ write_std_out text ∷ later

abbrev pub blanks : ℕ → Text
blanks zero = []
blanks (suc n) = 32 ∷ blanks n

-- `ClearRemainderAndSetNewLineLength`.
unfoldable pub clear_remainder_and_set_new_line_length :
    ProgressReport → ℕ → List ConsoleCall × ProgressReport
clear_remainder_and_set_new_line_length report new_line_length = (
  if ltb new_line_length report.last_time_line_length
      then write_std_out (blanks (report.last_time_line_length - new_line_length)) ∷ []
      else [],
  record { last_time_line_length = new_line_length },
)

-- The end of each report.
abbrev pub end_of_line : ProgressReport → ℕ → List ConsoleCall × ProgressReport
end_of_line report line_length =
    let cleared = clear_remainder_and_set_new_line_length report line_length in
    (
      set_color ConsoleColor.default ConsoleColor.default
          ∷ (cleared.0 ++ write_std_out (codes "\r") ∷ []),
      cleared.1,
    )

unfoldable pub report_progress_pyramidizer :
    ProgressReport → Text → ℕ → ℕ → ℕ → List ConsoleCall × ProgressReport
report_progress_pyramidizer report coordinate_as_string layer total_count_of_tiles
      count_of_tiles_done =
    let line_length =
      12
      + 6
      + length coordinate_as_string
      + 8
      + length (to_string layer)
      + 2
      + length (to_string count_of_tiles_done)
      + 5
      + length (to_string total_count_of_tiles)
      + (if total_count_of_tiles == 1 then 11 else 12) in
    let ending = end_of_line report line_length in
    (
      colored ConsoleColor.light_yellow (codes "Pyramidize: ") (
          colored ConsoleColor.dark_white (codes "plane ") (
            colored ConsoleColor.dark_green coordinate_as_string (
              colored ConsoleColor.dark_white (codes ", layer ") (
                colored ConsoleColor.dark_green (to_string layer) (
                  colored ConsoleColor.dark_white (codes ", ") (
                    colored ConsoleColor.dark_green (to_string count_of_tiles_done) (
                      colored ConsoleColor.dark_white (codes " of ") (
                        colored ConsoleColor.dark_green (to_string total_count_of_tiles) (
                          colored ConsoleColor.dark_white
                            (if total_count_of_tiles == 1
                              then codes " tile done."
                              else codes " tiles done.")
                            ending.0))))))))),
      ending.1,
    )

unfoldable pub report_progress_copy_sub_block :
    ProgressReport → Text → ℕ → ℕ → List ConsoleCall × ProgressReport
report_progress_copy_sub_block report coordinate_as_string total_count_of_tiles
      count_of_tiles_done =
    let line_length =
      13
      + 6
      + length coordinate_as_string
      + 2
      + length (to_string count_of_tiles_done)
      + 4
      + length (to_string total_count_of_tiles)
      + (if total_count_of_tiles == 1 then 15 else 16) in
    let ending = end_of_line report line_length in
    (
      colored ConsoleColor.light_yellow (codes "Copy Layer0: ") (
          colored ConsoleColor.dark_white (codes "plane ") (
            colored ConsoleColor.dark_green coordinate_as_string (
              colored ConsoleColor.dark_white (codes ", ") (
                colored ConsoleColor.dark_green (to_string count_of_tiles_done) (
                  colored ConsoleColor.dark_white (codes " of ") (
                    colored ConsoleColor.dark_green (to_string total_count_of_tiles) (
                      colored ConsoleColor.dark_white
                        (if total_count_of_tiles == 1
                          then codes " subblock done."
                          else codes " subblocks done.")
                        ending.0))))))),
      ending.1,
    )

-- The total is not written.
unfoldable pub report_progress_copy_attachment :
    ProgressReport → ℕ → ℕ → List ConsoleCall × ProgressReport
report_progress_copy_attachment report total_count_of_attachments count_of_attachments_done =
    let line_length = 18 + length (to_string count_of_attachments_done) + 18 in
    let ending = end_of_line report line_length in
    (
      colored ConsoleColor.light_yellow (codes "Copy Attachments: ") (
          colored ConsoleColor.dark_green (to_string count_of_attachments_done)
            (colored ConsoleColor.dark_white (codes " attachments done.") ending.0)),
      ending.1,
    )
