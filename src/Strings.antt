-- ===== src/Strings.antt =====
-- libpyramidizer/src/utilities.cpp: the string utilities, and of `std::string` and `<cctype>` what
-- they call, in the "C" locale. A text is the list of its bytes. Of the conversion to wide strings
-- this is the one for Unix; `iconv` is a parameter.
pub mod Trim
pub mod Wide
use czi_pyramidizer.Prelude.{
  ℕ, zero, suc, ◌+◌, ◌-◌, ◌*◌, ◌/◌, List, [], ◌∷◌, ◌++◌, map, Option, none, some, Bool, true, false,
  ◌&&◌, ◌||◌, ◌==◌, ltb, leb, length, take, drop, if◌then◌else◌,
}
use czi_pyramidizer.Prelude.Outcome.{Outcome, ok, err, runtime_error, out_of_range, stuck, ◌>>=◌}
use czi_pyramidizer.Console.{Text}

-- The whitespace of `trim`, which is also that of `std::isspace`.
unfoldable pub is_space : ℕ → Bool
is_space c = c == 32 || c == 9 || c == 10 || c == 13 || c == 12 || c == 11

-- `find_first_not_of` and `find_last_not_of` for whitespace; `none` is `npos`.
unfoldable pub find_first_not_of_space : Text → Option ℕ
unfolding is_space
find_first_not_of_space [] = none
find_first_not_of_space (c ∷ s) =
    if is_space c
    then (elim (find_first_not_of_space s) [ none ↦ none | some i ↦ some (suc i) ])
    else some 0

unfoldable pub find_last_not_of_space : Text → Option ℕ
unfolding is_space
find_last_not_of_space [] = none
find_last_not_of_space (c ∷ s) = elim (find_last_not_of_space s) [
  | none ↦ if is_space c then none else some 0
  | some i ↦ some (suc i)
]

-- `substr`, which throws where it starts behind the end.
unfoldable pub substr : Text → ℕ → ℕ → Outcome Text
substr s start count =
    if leb start (length s) then ok (take count (drop start s)) else err out_of_range

unfoldable pub trim : Text → Outcome Text
unfolding find_first_not_of_space find_last_not_of_space substr
trim str = elim (find_first_not_of_space str) [
  | none ↦ ok []
  | some start ↦ elim (find_last_not_of_space str) [
    -- Not reached: `npos` as the end.
    | none ↦ substr str start (18446744073709551616 - start)
    | some end ↦ substr str start (end - start + 1)
  ]
]

-- `std::tolower`.
unfoldable pub tolower : ℕ → ℕ
tolower c = if leb 65 c && leb c 90 then c + 32 else c

unfoldable pub to_lower : Text → Text
unfolding tolower
to_lower str = map tolower str

-- What a call of `iconv` leaves: whether it has converted all, or the error, the bytes that are
-- left, and the wide characters written.
pub data IconvStatus : Type 0 where
  converted output_full illegal_sequence incomplete_sequence other_error : IconvStatus

pub record IconvResult : Type 0 where
  pub status : IconvStatus
  pub inbuf : Text
  pub written : List ℕ

-- `sizeof(wchar_t)`.
abbrev pub wchar_size : ℕ
wchar_size = 4

-- `iconv` by the bytes left and the bytes of the output buffer left.
abbrev pub Iconv : Type 0
Iconv = Text → ℕ → IconvResult

module _ (iconv : Iconv) where
  -- The loop: the bytes left, what has been written, and the size of the output buffer.
  unfoldable pub conversion_loop : ℕ → Text → List ℕ → ℕ → Outcome (List ℕ)
  conversion_loop fuel [] wbuffer outbuf_size = ok wbuffer
  conversion_loop zero (c ∷ inbuf) wbuffer outbuf_size = err stuck
  conversion_loop (suc fuel) (c ∷ inbuf) wbuffer outbuf_size =
      let result = iconv (c ∷ inbuf) (outbuf_size - wchar_size * length wbuffer) in
      let wbuffer' = wbuffer ++ result.written in
      let go_on = conversion_loop fuel result.inbuf wbuffer' outbuf_size in
      let grown = conversion_loop fuel result.inbuf wbuffer' (outbuf_size * 2) in
      elim result.status [
        | converted ↦ go_on
        | output_full ↦ grown
        | illegal_sequence ↦ err runtime_error
        | incomplete_sequence ↦ err runtime_error
        | other_error ↦ err runtime_error
      ]

  -- `iconv_opens` says whether a conversion descriptor could be opened.
  unfoldable pub utf8_to_wstring : Bool → Text → Outcome (List ℕ)
  unfolding conversion_loop
  utf8_to_wstring iconv_opens [] = ok []
  utf8_to_wstring true (c ∷ utf8_string) =
      conversion_loop 64 (c ∷ utf8_string) [] ((length (c ∷ utf8_string) + 1) * wchar_size)
  utf8_to_wstring false (c ∷ utf8_string) = err runtime_error
