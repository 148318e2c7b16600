-- ===== src/Options/Help.antt =====
-- libpyramidizer/src/commandlineoptions.cpp: the texts of the synopsis and of the extended version
-- information. What the build and libCZI say of themselves are arguments.
pub mod Footer
use czi_pyramidizer.Prelude.{
  ℕ, zero, suc, ◌+◌, ◌-◌, List, [], ◌∷◌, ◌++◌, Option, none, some, Bool, true, false, ◌==◌, ltb,
  drop, length, if◌then◌else◌,
}
use czi_pyramidizer.Prelude.Outcome.{Outcome, ok, ◌>>=◌}
use czi_pyramidizer.Console.{
  Text, codes, ConsoleColor, ConsoleCall, set_color, write_std_out, write_line_std_out, to_string,
}
use czi_pyramidizer.Options.Wrap.{wrap}

-- `rfind` for one character.
unfoldable pub rfind : Text → ℕ → Option ℕ
rfind [] c = none
rfind (d ∷ s) c = elim (rfind s c) [
  | none ↦ if d == c then some 0 else none
  | some i ↦ some (suc i)
]

-- The name of the executable in `make_usage`: what follows the last slash, or backslash.
unfoldable pub name_of_executable : Text → Text
unfolding rfind
name_of_executable name =
    let offset = elim (rfind name 47) as (λ _. Option ℕ) [
      | none ↦ rfind name 92
      | some i ↦ some i
    ] in
    elim offset [ none ↦ name | some i ↦ if ltb i (length name) then drop (1 + i) name else name ]

pub record Version : Type 0 where
  pub major : Text
  pub minor : Text
  pub patch : Text
  pub tweak : Text

-- `make_usage`; the stock implementation is CLI11's. It is written twice: the text that the stream
-- begins with is overwritten from its start.
unfoldable pub make_usage : (Text → Text) → Version → Text → Text
unfolding name_of_executable
make_usage stock_make_usage version name =
    let usage = stock_make_usage (name_of_executable name) in
    usage
    ++ (10
        ∷ (codes "  version: "
            ++ (version.major
                ++ (46
                    ∷ (version.minor
                        ++ (46
                            ∷ (version.patch
                                ++ ((elim version.tweak as (λ _. Text) [
                                  | [] ↦ []
                                  | c ∷ tweak ↦ 46 ∷ c ∷ tweak
                                ])
                                    ++ 10 ∷ []))))))))

-- Each line with its end.
unfoldable pub join_lines : List Text → Text
join_lines [] = []
join_lines (line ∷ lines) = line ++ (10 ∷ join_lines lines)

-- `make_option_desc`, for the width of the column of names.
unfoldable pub make_option_desc : ℕ → Text → Outcome Text
unfolding wrap join_lines
make_option_desc column_width description = do
  lines ← wrap description (80 - column_width)
  ok (join_lines lines)

-- libCZI's `StreamClassInfo`; `build_info` is `none` without a function for it.
pub record StreamClassInfo : Type 0 where
  pub class_name : Text
  pub short_description : Text
  pub build_info : Option Text

pub record LibCziInfo : Type 0 where
  pub version_major : ℕ
  pub version_minor : ℕ
  pub version_tweak : ℕ
  pub compiler_identification : Text
  pub stream_classes : List StreamClassInfo

abbrev pub footer_text : Text
footer_text =
    codes
      "This tool is used to create pyramid layers and put them into a CZI file. The image data from the source CZI is read, from this an image pyramid is constructed, and the source image and the pyramid is written into an output CZI. \\nIf the '--compressionopts' argument is given, then the pyramid-subblocks will be compressed using this specification. If not given, the compression mode is determined by inspecting the source document. The format (used with the '--compressionopts' argument) is \"compression_method: key=value; ...\". It starts with the name of the compression-method, followed by a colon, then followed by a list of key-value pairs which are separated by a semicolon. \\nExamples: \"zstd0:ExplicitLevel=3\", \"zstd1:ExplicitLevel=2;PreProcess=HiLoByteUnpack\", \"uncompressed:\", \"jpgxr:\". \\NThe following exit codes are returned from the application: \\n0 - The operation completed successfully. If running a check (--check-only flag     given), this indicates that there is no need to generate a pyramid - it is     either not needed or already present. \\n1 - Generic failure code - some kind of error occurred, which is not further characterized by the exit code. \\n10 - In check-only mode: this exit code indicates that a pyramid is needed. \\n11 - If mode-of-operation=IfNeeded - no action taken as no pyramid was needed. \\n99 - There was an error parsing the command-line arguments."

unfoldable pub stream_class_names : List StreamClassInfo → Text
stream_class_names [] = []
stream_class_names (info ∷ []) = info.class_name
stream_class_names (info ∷ next ∷ infos) =
    info.class_name ++ (codes ", " ++ stream_class_names (next ∷ infos))

unfoldable pub get_footer_text : LibCziInfo → Outcome Text
unfolding wrap join_lines stream_class_names
get_footer_text info = do
  lines ← wrap footer_text 80
  ok (
      join_lines lines
      ++ (codes "\n\n"
          ++ (codes "libCZI version: "
              ++ (to_string info.version_major
                  ++ (46
                      ∷ (to_string info.version_minor
                          ++ (46
                              ∷ (to_string info.version_tweak
                                  ++ ((elim info.compiler_identification as (λ _. Text) [
                                    | [] ↦ []
                                    | c ∷ text ↦ codes " (built with " ++ (c ∷ (text ++ codes ")"))
                                  ])
                                      ++ (10
                                          ∷ (codes " stream-classes: "
                                              ++ stream_class_names info.stream_classes)))))))))))

abbrev pub build_line : Text → Text → List ConsoleCall → List ConsoleCall
build_line name value later =
    set_color ConsoleColor.dark_white ConsoleColor.default
    ∷ write_std_out name
    ∷ set_color ConsoleColor.dark_green ConsoleColor.default
    ∷ write_line_std_out value
    ∷ later

pub record BuildInfo : Type 0 where
  pub version : Text
  pub compiler : Text
  pub repository_url : Text
  pub repository_branch : Text
  pub repository_hash : Text

-- `PrintHelpBuildInfo`, where there is a console.
unfoldable pub print_help_build_info : BuildInfo → List ConsoleCall
print_help_build_info info =
    set_color ConsoleColor.light_yellow ConsoleColor.default
    ∷ write_line_std_out (codes "Build Information")
    ∷ write_line_std_out (codes "-----------------")
    ∷ write_line_std_out []
    ∷ build_line (codes "version          : ") info.version (
        build_line (codes "compiler         : ") info.compiler (
          build_line (codes "repository-URL   : ") info.repository_url (
            build_line (codes "repository-branch: ") info.repository_branch (
              build_line (codes "repository-tag   : ") info.repository_hash
                (set_color ConsoleColor.default ConsoleColor.default ∷ [])))))

-- The build information of a class, unless it is empty.
unfoldable pub print_class_build_info : Option Text → List ConsoleCall → List ConsoleCall
print_class_build_info none later = later
print_class_build_info (some []) later = later
print_class_build_info (some (c ∷ text)) later =
    write_std_out (codes "    Build: ") ∷ write_line_std_out (c ∷ text) ∷ later

-- The loop over the classes, from the number of the next one.
unfoldable pub print_stream_classes : ℕ → List StreamClassInfo → List ConsoleCall → List ConsoleCall
unfolding print_class_build_info
print_stream_classes number [] later = later
print_stream_classes number (info ∷ infos) later =
    set_color ConsoleColor.white ConsoleColor.default
    ∷ write_std_out (to_string number ++ codes ": ")
    ∷ set_color ConsoleColor.dark_green ConsoleColor.default
    ∷ write_line_std_out info.class_name
    ∷ set_color ConsoleColor.dark_white ConsoleColor.default
    ∷ write_std_out (codes "    ")
    ∷ write_line_std_out info.short_description
    ∷ print_class_build_info info.build_info (print_stream_classes (number + 1) infos later)

-- `PrintHelpStreamsObjects`.
unfoldable pub print_help_streams_objects : List StreamClassInfo → List ConsoleCall
unfolding print_stream_classes
print_help_streams_objects infos =
    set_color ConsoleColor.light_yellow ConsoleColor.default
    ∷ write_line_std_out (codes "Available Input-Stream objects")
    ∷ write_line_std_out (codes "------------------------------")
    ∷ write_line_std_out []
    ∷ print_stream_classes 1 infos (set_color ConsoleColor.default ConsoleColor.default ∷ [])
