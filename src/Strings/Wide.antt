-- ===== src/Strings/Wide.antt =====
-- The conversion to a wide string ends, with one call of `iconv`.
use czi_pyramidizer.Prelude.{
  ℕ, zero, suc, ◌+◌, ◌*◌, ◌≡◌, ◌≢◌, ◌<◌, refl, ◌⊎◌, inl, arith, List, [], ◌∷◌, true, length,
}
use czi_pyramidizer.Prelude.Outcome.{Outcome, ok, err, runtime_error}
use czi_pyramidizer.Console.{Text}
use czi_pyramidizer.Strings.{
  Iconv, IconvResult, converted, output_full, wchar_size, conversion_loop, utf8_to_wstring,
}

-- What is documented of `iconv`: success means that nothing is left, and the output is full only
-- where there is not room for one wide character for each byte.
pub record IsDocumented (iconv : Iconv) : Type 0 where
  pub converts_all :
      (s : Text) (room : ℕ) → (iconv s room).status ≡ converted → (iconv s room).inbuf ≡ []
  pub full_only :
      (s : Text) (room : ℕ) → (iconv s room).status ≡ output_full → room < wchar_size * length s

abbrev from_status : IconvResult → Outcome (List ℕ)
from_status result = elim result.status [ converted ↦ ok result.written | _ ↦ err runtime_error ]

-- The room that the function offers.
abbrev pub room_for : Text → ℕ
room_for s = (length s + 1) * wchar_size

loop_done :
    (iconv : Iconv) (fuel : ℕ) (s : Text) (written : List ℕ) (size : ℕ)
    → s ≡ []
    → conversion_loop iconv fuel s written size ≡ ok written
unfolding conversion_loop
loop_done iconv zero [] written size h = refl
loop_done iconv (suc fuel) [] written size h = refl
loop_done iconv fuel (c ∷ s) written size h = absurd (cc)

one_round :
    (iconv : Iconv)
    → IsDocumented iconv
    → (fuel : ℕ) (c : ℕ) (s : Text)
    → conversion_loop iconv (suc fuel) (c ∷ s) [] (room_for (c ∷ s))
      ≡ from_status (iconv (c ∷ s) (room_for (c ∷ s)))
unfolding conversion_loop
one_round iconv d fuel c s =
    let room = room_for (c ∷ s) in
    let result = iconv (c ∷ s) room in
    ground (
      arith,
      d.converts_all (c ∷ s) room,
      d.full_only (c ∷ s) room,
      loop_done iconv fuel result.inbuf result.written room,
    )

-- With `iconv` as documented, converting a text that is not empty takes one call of it: the result
-- is what this has written where it has converted, and else an exception. An empty text is
-- converted to the empty string.
pub utf8_to_wstring_lem :
    (iconv : Iconv) (s : Text)
    → IsDocumented iconv
    → ((s ≡ []) × (utf8_to_wstring iconv true s ≡ ok []))
      ⊎ (((iconv s (room_for s)).status ≡ converted)
          × (utf8_to_wstring iconv true s ≡ ok (iconv s (room_for s)).written))
      ⊎ (((iconv s (room_for s)).status ≢ converted)
          × (utf8_to_wstring iconv true s ≡ err runtime_error))
unfolding utf8_to_wstring
utf8_to_wstring_lem iconv [] d = inl (refl, refl)
utf8_to_wstring_lem iconv (c ∷ s) d = ground (arith, one_round iconv d 63 c s)
