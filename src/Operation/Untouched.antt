-- ===== src/Operation/Untouched.antt =====
-- A run on a document that needs no pyramid.
use czi_pyramidizer.Prelude.{
  ℕ, ◌≡◌, refl, ap, ◌∙◌, inl, inr, Bool-cases, List, [], ◌∷◌, Bool, false, map, if◌then◌else◌,
}
use czi_pyramidizer.Prelude.Int.{ℤ}
use czi_pyramidizer.Prelude.Outcome.{Outcome, ok}
use czi_pyramidizer.CheckForPyramid.{
  SubBlockStatistics, PyramidStatistics, ThresholdParameters, needs_pyramid,
}
use czi_pyramidizer.CheckForPyramid.Decision.{IsMeasured, AllMeasured, Needs, needs_pyramid-Needs}
use czi_pyramidizer.Console.{ConsoleCall, codes, write_line_std_out}
use czi_pyramidizer.Context.{Context, CommandLineOptions}
use czi_pyramidizer.SourceMode.{CompressParameters}
use czi_pyramidizer.Operation.{
  only_operate_if_pyramid_is_needed, check_for_necessity_of_pyramid, console, Document,
  OperationOptions, no_operation_necessary, execute_operation,
}

abbrev lines_for : Bool → List ConsoleCall
lines_for has_console =
    if has_console
    then write_line_std_out
        (codes "The specified document does not need a pyramid or already contains it.")
      ∷ []
    else []

not_necessary :
    (has_console : Bool) (s : SubBlockStatistics) (p : PyramidStatistics) (t : ThresholdParameters)
    → needs_pyramid s p t ≡ ok false
    → check_for_necessity_of_pyramid only_operate_if_pyramid_is_needed has_console s p t
      ≡ ok (false, lines_for has_console)
unfolding check_for_necessity_of_pyramid
not_necessary has_console s p t h = rw h refl

no_pyramid_needed :
    (s : SubBlockStatistics) (p : PyramidStatistics) (t : ThresholdParameters)
    → IsMeasured s.bounding_box_layer0_only
    → AllMeasured s.scene_bounding_boxes
    → (Needs s p t → ⊥)
    → needs_pyramid s p t ≡ ok false
no_pyramid_needed s p t m ms none_needed =
    let (b, e, i) = needs_pyramid-Needs s p t m ms in
    elim (Bool-cases b) [
      | inl needed ↦ absurd (none_needed (i.0 needed))
      | inr no_need ↦ e ∙ ap ok no_need
    ]

-- In the mode that operates only if a pyramid is needed, a run on a document that needs none returns
-- without any call but of the console: it does not open the destination, whether or not this could
-- be opened, and reports that no operation was necessary. The bounding boxes have no negative
-- extents.
pub execute_operation-untouched :
    {E Xml Guid Stream : Type 0} (command_line : CommandLineOptions CompressParameters)
    (options : OperationOptions) (reporting : Bool) (document : Document Xml Guid)
    (run : Context CompressParameters → Outcome (List E × List (ℤ × ℕ)))
    (print : Context CompressParameters → List ConsoleCall) (create : Outcome Stream)
    → options.mode_of_operation ≡ only_operate_if_pyramid_is_needed
    → IsMeasured document.statistics.bounding_box_layer0_only
    → AllMeasured document.statistics.scene_bounding_boxes
    → (Needs document.statistics document.pyramid_statistics options.threshold_parameters → ⊥)
    → (lines : List ConsoleCall) × (execute_operation command_line options reporting document run
          print create
        ≡ ok (map console lines, no_operation_necessary))
unfolding execute_operation
execute_operation-untouched command_line options reporting document run print create mode m ms
      none_needed =
    (
      lines_for options.has_console,
      rw
          (
            mode,
            not_necessary options.has_console document.statistics document.pyramid_statistics
                options.threshold_parameters
                (no_pyramid_needed document.statistics document.pyramid_statistics
                  options.threshold_parameters m ms none_needed),
          )
          refl,
    )
