-- ===== src/Strings/Trim.antt =====
-- What `trim` leaves of a text: all but the whitespace at both ends.
use mathlib.Core.List.{append_assoc}
use czi_pyramidizer.Prelude.{
  ℕ, ◌+◌, ◌-◌, ◌≡◌, refl, ap, ◌∙◌, sym, ◌⊎◌, inl, inr, arith, [], ◌∷◌, ◌++◌, none, some, true,
  false, Bool-cases, length, length-append, take, drop, All,
}
use czi_pyramidizer.Prelude.Outcome.{ok}
use czi_pyramidizer.Console.{Text}
use czi_pyramidizer.Strings.{
  is_space, find_first_not_of_space, find_last_not_of_space, substr, trim,
}

abbrev pub IsBlank : Text → Type 0
IsBlank s = All (λ c. is_space c ≡ true) s

-- A text that starts and ends with characters other than whitespace, and so is not empty.
pub record IsTrimmed (s : Text) : Type 0 where
  pub first : ℕ
  pub after_first : Text
  pub starts : s ≡ first ∷ after_first
  pub first_shows : is_space first ≡ false
  pub before_last : Text
  pub last : ℕ
  pub ends : s ≡ before_last ++ last ∷ []
  pub last_shows : is_space last ≡ false

first_in_blank : (s : Text) → IsBlank s → find_first_not_of_space s ≡ none
unfolding find_first_not_of_space
first_in_blank [] h = refl
first_in_blank (c ∷ s) (h, hs) = rw (h, first_in_blank s hs)

last_in_blank : (s : Text) → IsBlank s → find_last_not_of_space s ≡ none
unfolding find_last_not_of_space
last_in_blank [] h = refl
last_in_blank (c ∷ s) (h, hs) = rw (last_in_blank s hs, h)

first_after_blank :
    (l : Text) (c : ℕ) (s : Text)
    → IsBlank l
    → is_space c ≡ false
    → find_first_not_of_space (l ++ c ∷ s) ≡ some (length l)
unfolding find_first_not_of_space
first_after_blank [] c s h k = rw k
first_after_blank (b ∷ l) c s (h, hs) k = rw (h, first_after_blank l c s hs k)

last_before_blank :
    (m : Text) (d : ℕ) (r : Text)
    → IsBlank r
    → is_space d ≡ false
    → find_last_not_of_space (m ++ d ∷ r) ≡ some (length m)
unfolding find_last_not_of_space
last_before_blank [] d r h k = rw (last_in_blank r h, k)
last_before_blank (b ∷ m) d r h k = rw (last_before_blank m d r h k)

drop-length : (l s : Text) → drop (length l) (l ++ s) ≡ s
drop-length [] s = refl
drop-length (c ∷ l) s = drop-length l s

take-length : (l s : Text) → take (length l) (l ++ s) ≡ l
take-length [] s = refl
take-length (c ∷ l) s = ap (λ t. c ∷ t) (take-length l s)

substr_middle : (l m r : Text) → substr (l ++ (m ++ r)) (length l) (length m) ≡ ok m
unfolding substr
substr_middle l m r =
    rw (substr, drop-length l (m ++ r), take-length m r) (ground (arith, length-append l (m ++ r)))

pub trim_blank : (s : Text) → IsBlank s → trim s ≡ ok []
unfolding trim
trim_blank s h = rw (trim, first_in_blank s h)

-- Whitespace around a trimmed text goes.
pub trim_around : (l m r : Text) → IsBlank l → IsTrimmed m → IsBlank r → trim (l ++ (m ++ r)) ≡ ok m
unfolding trim
trim_around l m r hl t hr = rw (trim, first, last, size) (substr_middle l m r)
  where
    first : find_first_not_of_space (l ++ (m ++ r)) ≡ some (length l)
    first = rw t.starts (first_after_blank l t.first (t.after_first ++ r) hl t.first_shows)

    regroup : l ++ (m ++ r) ≡ (l ++ t.before_last) ++ t.last ∷ r
    regroup = rw t.ends (simp append_assoc)

    last : find_last_not_of_space (l ++ (m ++ r)) ≡ some (length (l ++ t.before_last))
    last = rw regroup (last_before_blank (l ++ t.before_last) t.last r hr t.last_shows)

    size : length (l ++ t.before_last) - length l + 1 ≡ length m
    size = omega (
      arith,
      length-append l t.before_last,
      length-append t.before_last (t.last ∷ []),
      ap length t.ends,
    )

-- A text is blank, or ends in whitespace behind a last other character.
from_the_end :
    (s : Text)
    → IsBlank s
      ⊎ ((m : Text) × (d : ℕ) × (r : Text) × (s ≡ m ++ d ∷ r) × (is_space d ≡ false) × IsBlank r)
from_the_end [] = inl tt
from_the_end (c ∷ s) = elim (from_the_end s) [
  | inl blank ↦ elim (Bool-cases (is_space c)) [
    | inl h ↦ inl (h, blank)
    | inr h ↦ inr ([], c, s, refl, h, blank)
  ]
  | inr (m, d, r, e, h, blank) ↦ inr (c ∷ m, d, r, ap (λ t. c ∷ t) e, h, blank)
]

from_the_start :
    (s : Text)
    → IsBlank s
      ⊎ ((l : Text) × (c : ℕ) × (t : Text) × (s ≡ l ++ c ∷ t) × IsBlank l × (is_space c ≡ false))
from_the_start [] = inl tt
from_the_start (c ∷ s) = elim (Bool-cases (is_space c)) [
  | inl h ↦ elim (from_the_start s) [
    | inl blank ↦ inl (h, blank)
    | inr (l, d, t, e, blank, shows) ↦ inr (c ∷ l, d, t, ap (λ t. c ∷ t) e, (h, blank), shows)
  ]
  | inr h ↦ inr ([], c, s, refl, tt, h)
]

middle-IsTrimmed :
    (c : ℕ) (t m : Text) (d : ℕ) (r : Text)
    → c ∷ t ≡ m ++ d ∷ r
    → is_space c ≡ false
    → is_space d ≡ false
    → IsTrimmed (m ++ d ∷ [])
middle-IsTrimmed c t [] d r e h k = record {
  first = d;
  after_first = [];
  starts = refl;
  first_shows = k;
  before_last = [];
  last = d;
  ends = refl;
  last_shows = k;
}
middle-IsTrimmed c t (b ∷ m) d r e h k = record {
  first = b;
  after_first = m ++ d ∷ [];
  starts = refl;
  first_shows = cc;
  before_last = b ∷ m;
  last = d;
  ends = refl;
  last_shows = k;
}

-- What `trim` answers: the text between whitespace at both ends, or nothing for a blank text.
pub data TrimAnswer (s : Text) : Type 0 where
  blank : IsBlank s → trim s ≡ ok [] → TrimAnswer s
  middle :
      (l m r : Text)
      → s ≡ l ++ (m ++ r)
      → IsBlank l
      → IsTrimmed m
      → IsBlank r
      → trim s ≡ ok m
      → TrimAnswer s

-- For every text `trim` returns: the empty text if there is only whitespace, else the text without
-- the whitespace at its two ends, which then starts and ends with other characters.
pub trim_answer : (s : Text) → TrimAnswer s
trim_answer s = elim (from_the_start s) [
  | inl all_blank ↦ blank all_blank (trim_blank s all_blank)
  | inr (l, c, t, e, hl, shows) ↦ elim (from_the_end (c ∷ t)) [
    | inl (h, hs) ↦ absurd (cc)
    | inr (m, d, r, e', d_shows, hr) ↦
        let trimmed = middle-IsTrimmed c t m d r e' shows d_shows in
        let regroup : s ≡ l ++ ((m ++ d ∷ []) ++ r) =
          e ∙ ap (λ x. l ++ x) (e' ∙ sym (append_assoc m (d ∷ []) r)) in
        middle l (m ++ d ∷ []) r regroup hl trimmed hr
          (rw regroup (trim_around l (m ++ d ∷ []) r hl trimmed hr))
  ]
]
