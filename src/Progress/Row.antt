-- ===== src/Progress/Row.antt =====
-- What the row of the terminal shows after a report.
use mathlib.Core.List.{append_assoc, append-nil}
use czi_pyramidizer.Prelude.{
  ℕ, zero, suc, ◌+◌, ◌-◌, ◌≤◌, ◌≡◌, refl, ap, ◌∙◌, sym, List, [], ◌∷◌, ◌++◌, length, length-append,
  arith,
}
use czi_pyramidizer.Console.{Text}
use czi_pyramidizer.Progress.{blanks}

-- The row after a text is written over it from its start.
abbrev pub shown : Text → Text → Text
shown row [] = row
shown [] (c ∷ text) = c ∷ shown [] text
shown (r ∷ row) (c ∷ text) = c ∷ shown row text

-- From column n on the row is blank.
abbrev pub IsBlankFrom : ℕ → Text → Type 0
IsBlankFrom n [] = Unit
IsBlankFrom zero (c ∷ row) = (c ≡ 32) × IsBlankFrom zero row
IsBlankFrom (suc n) (c ∷ row) = IsBlankFrom n row

-- The row shows a text, and blanks behind it.
abbrev pub ShowsOnly : Text → Text → Type 0
ShowsOnly text row = (k : ℕ) × (row ≡ text ++ blanks k)

shown_fresh : (text : Text) → shown [] text ≡ text
shown_fresh [] = refl
shown_fresh (c ∷ text) = ap (λ t. c ∷ t) (shown_fresh text)

blank_row : (row : Text) → IsBlankFrom 0 row → (k : ℕ) × (row ≡ blanks k)
blank_row [] b = (0, refl)
blank_row (c ∷ row) (e, b) = let (k, h) = blank_row row b in (suc k, rw (e, h) refl)

-- A text that is long enough leaves nothing of the row but blanks.
shown-IsBlankFrom :
    (n : ℕ) (row text : Text)
    → IsBlankFrom n row
    → n ≤ length text
    → ShowsOnly text (shown row text)
shown-IsBlankFrom n [] text b h = (0, shown_fresh text ∙ sym (append-nil text))
shown-IsBlankFrom zero (r ∷ row) [] b h = blank_row (r ∷ row) b
shown-IsBlankFrom (suc n) (r ∷ row) [] b h = absurd (omega arith)
shown-IsBlankFrom zero (r ∷ row) (c ∷ text) b h =
    let (k, e) = shown-IsBlankFrom 0 row text b.1 (omega arith) in (k, ap (λ t. c ∷ t) e)
shown-IsBlankFrom (suc n) (r ∷ row) (c ∷ text) b h =
    let (k, e) = shown-IsBlankFrom n row text b (omega arith) in (k, ap (λ t. c ∷ t) e)

blanks_sum : (a b : ℕ) → blanks a ++ blanks b ≡ blanks (a + b)
blanks_sum zero b = ap blanks (omega arith)
blanks_sum (suc a) b =
    let e : suc (a + b) ≡ suc a + b = omega arith in ap (λ t. 32 ∷ t) (blanks_sum a b) ∙ ap blanks e

pub length-blanks : (n : ℕ) → length (blanks n) ≡ n
length-blanks zero = refl
length-blanks (suc n) = ap suc (length-blanks n)

blanks-IsBlankFrom : (n k : ℕ) → IsBlankFrom n (blanks k)
blanks-IsBlankFrom n zero = tt
blanks-IsBlankFrom zero (suc k) = (refl, blanks-IsBlankFrom 0 k)
blanks-IsBlankFrom (suc n) (suc k) = blanks-IsBlankFrom n k

-- Behind its text, the row is blank.
pub blank_behind : (n k : ℕ) (text : Text) → length text ≤ n → IsBlankFrom n (text ++ blanks k)
blank_behind n k [] h = blanks-IsBlankFrom n k
blank_behind zero k (c ∷ text) h = absurd (omega arith)
blank_behind (suc n) k (c ∷ text) h = blank_behind n k text (omega arith)

-- A text with as many blanks as are missing to the length of the last line.
pub padded-ShowsOnly :
    (last : ℕ) (row text : Text)
    → IsBlankFrom last row
    → ShowsOnly text (shown row (text ++ blanks (last - length text)))
padded-ShowsOnly last row text b =
    let missing = last - length text in
    let long : last ≤ length (text ++ blanks missing) =
      omega (arith, length-append text (blanks missing), length-blanks missing) in
    let (k, e) = shown-IsBlankFrom last row (text ++ blanks missing) b long in
    (
      missing + k,
      e
          ∙ append_assoc text (blanks missing) (blanks k)
          ∙ ap (λ t. text ++ t) (blanks_sum missing k),
    )

-- The pieces of a line, and what follows them.
abbrev pub joined : List Text → Text → Text
joined [] later = later
joined (piece ∷ pieces) later = piece ++ joined pieces later

pub joined-append :
    (pieces : List Text) (later : Text) → joined pieces later ≡ joined pieces [] ++ later
joined-append [] later = refl
joined-append (piece ∷ pieces) later =
    ap (λ t. piece ++ t) (joined-append pieces later)
    ∙ sym (append_assoc piece (joined pieces []) later)

abbrev pub lengths : List Text → ℕ
lengths [] = 0
lengths (piece ∷ pieces) = length piece + lengths pieces

pub length-joined : (pieces : List Text) → length (joined pieces []) ≡ lengths pieces
length-joined [] = refl
length-joined (piece ∷ pieces) =
    length-append piece (joined pieces []) ∙ ap (λ n. length piece + n) (length-joined pieces)
