-- ===== src/Tests/Texts.antt =====
-- Strings and the texts of the synopsis: runs, and the theorems at them.
use czi_pyramidizer.Prelude.{
  ◌*◌, ◌≡◌, ◌≢◌, refl, ◌⊎◌, arith, List, [], ◌∷◌, map, true, ltb, length, if◌then◌else◌,
}
use czi_pyramidizer.Prelude.Outcome.{ok, err, runtime_error, out_of_range}
use czi_pyramidizer.Console.{Text, codes}
use czi_pyramidizer.Strings.{Iconv, converted, output_full, wchar_size, trim, utf8_to_wstring}
use czi_pyramidizer.Strings.Trim.{TrimAnswer, trim_answer}
use czi_pyramidizer.Strings.Wide.{IsDocumented, room_for, utf8_to_wstring_lem}
use czi_pyramidizer.Options.Wrap.{words_from, break_before, wrap}
use czi_pyramidizer.Options.Wrap.Rounds.{unwords, unmarked}
use czi_pyramidizer.Options.Wrap.Lines.{IsWrapped, wrap-IsWrapped}

trims : trim (codes " \ta b\n") ≡ ok (codes "a b")
unfolding trim
trims = refl

trim_answer_example : TrimAnswer (codes " \ta b\n")
trim_answer_example = trim_answer (codes " \ta b\n")

-- A conversion of ASCII.
abbrev pub ascii_iconv : Iconv
ascii_iconv s room =
    if ltb room (wchar_size * length s)
    then record { status = output_full; inbuf = s; written = [] }
    else record { status = converted; inbuf = []; written = s }

pub ascii_iconv-IsDocumented : IsDocumented ascii_iconv
ascii_iconv-IsDocumented = record {
  converts_all = λ s room h. ground arith;
  full_only = λ s room h. ground arith;
}

converts : utf8_to_wstring ascii_iconv true (codes "a.czi") ≡ ok (codes "a.czi")
unfolding utf8_to_wstring
converts = refl

utf8_to_wstring_lem_example :
    ((codes "a.czi" ≡ []) × (utf8_to_wstring ascii_iconv true (codes "a.czi") ≡ ok []))
    ⊎ (((ascii_iconv (codes "a.czi") (room_for (codes "a.czi"))).status ≡ converted)
        × (utf8_to_wstring ascii_iconv true (codes "a.czi")
            ≡ ok (ascii_iconv (codes "a.czi") (room_for (codes "a.czi"))).written))
    ⊎ (((ascii_iconv (codes "a.czi") (room_for (codes "a.czi"))).status ≢ converted)
        × (utf8_to_wstring ascii_iconv true (codes "a.czi") ≡ err runtime_error))
utf8_to_wstring_lem_example =
    utf8_to_wstring_lem ascii_iconv (codes "a.czi") ascii_iconv-IsDocumented

wraps :
    wrap (codes "one two \\Nthree four") 9
    ≡ ok (codes "one two" ∷ [] ∷ codes "three" ∷ codes "four" ∷ [])
unfolding wrap
wraps = refl

wrap_throws : wrap (codes "\\none two") 9 ≡ err out_of_range
unfolding wrap
wrap_throws = refl

splits :
    words_from [] (codes "one two \\Nthree four")
    ≡ codes "one" ∷ codes "two" ∷ codes "\\Nthree" ∷ codes "four" ∷ []
unfolding words_from
splits = refl

wrap-IsWrapped_example :
    (lines : List (List Text)) × (wrap (codes "one two \\Nthree four") 9 ≡ ok (map unwords lines))
    × IsWrapped 9
        (map unmarked (codes "one" ∷ codes "two" ∷ codes "\\Nthree" ∷ codes "four" ∷ []))
        lines
unfolding break_before
wrap-IsWrapped_example =
    wrap-IsWrapped (codes "one two \\Nthree four") 9 (codes "one")
      (codes "two" ∷ codes "\\Nthree" ∷ codes "four" ∷ []) splits refl (omega arith)
