-- ===== src/Options/Wrap/Lines.antt =====
-- The lines that `wrap` makes.
use mathlib.Core.List.{append_assoc, flatten}
use czi_pyramidizer.Prelude.{
  ℕ, ◌≤◌, ◌<◌, ◌≡◌, ◌≢◌, refl, ap, ◌∙◌, ◌⊎◌, arith, List, [], ◌∷◌, ◌++◌, map, none, length, All,
}
use czi_pyramidizer.Prelude.Outcome.{ok, err, out_of_range}
use czi_pyramidizer.Console.{Text}
use czi_pyramidizer.Options.Wrap.{
  words_from, erase_last, break_before, break_line, next_line, wrap_round, wrap_words, wrap,
}
use czi_pyramidizer.Options.Wrap.Rounds.{
  spaced, unwords, unmarked, erase_last-spaced, same_line, later_line, after_empty_line,
  break_line-none, next_line-fits, round, longer-fits,
}

-- Lines of words, of which each line is at most n characters long and which hold all the words
-- in their order.
pub record IsWrapped (n : ℕ) (words : List Text) (lines : List (List Text)) : Type 0 where
  pub fits : All (λ line. length (unwords line) ≤ n) lines
  pub keeps : flatten lines ≡ words

abbrev pub Fits : ℕ → Text → Type 0
Fits n word = length (unmarked word) ≤ n

last_line :
    (n : ℕ) (line t : Text) (vec : List Text)
    → erase_last line ≡ ok t
    → wrap_words n [] line vec ≡ ok (vec ++ t ∷ [])
unfolding wrap_words erase_last
last_line n [] t vec e = cc
last_line n (c ∷ line) t vec e = cc

-- The words after a line whose last word is unmarked.
regrouped :
    (w : Text) (ws : List Text) (word : Text) (rest : List Text)
    → unmarked word ≡ word
    → (w ∷ (ws ++ word ∷ [])) ++ rest ≡ (w ∷ ws) ++ unmarked word ∷ rest
regrouped w ws word rest plain = rw plain (append_assoc (w ∷ ws) (word ∷ []) rest)

wrap_words-IsWrapped :
    (n : ℕ) (words : List Text) (w : Text) (ws vec : List Text)
    → All (Fits n) words
    → length (unwords (w ∷ ws)) ≤ n
    → (lines : List (List Text)) × (wrap_words n words (spaced (w ∷ ws)) vec
        ≡ ok (vec ++ map unwords lines))
      × IsWrapped n ((w ∷ ws) ++ map unmarked words) lines
unfolding wrap_words flatten
wrap_words-IsWrapped n [] w ws vec h k = (
  (w ∷ ws) ∷ [],
  last_line n (spaced (w ∷ ws)) (unwords (w ∷ ws)) vec (erase_last-spaced w ws),
  record { fits = (k, tt); keeps = refl },
)
wrap_words-IsWrapped n (word ∷ words) w ws vec (h, hs) k = elim (round n word w ws vec h) [
  | same_line room plain e ↦
      let (lines, returns, wrapped) =
        wrap_words-IsWrapped n words w (ws ++ word ∷ []) vec hs (longer-fits n w ws word room) in
      (
        lines,
        rw (wrap_words, e) returns,
        record {
          fits = wrapped.fits;
          keeps = wrapped.keeps ∙ regrouped w ws word (map unmarked words) plain;
        },
      )
  | later_line e ↦
      let (lines, returns, wrapped) =
        wrap_words-IsWrapped n words (unmarked word) [] (vec ++ unwords (w ∷ ws) ∷ []) hs h in
      (
        (w ∷ ws) ∷ lines,
        rw (wrap_words, e)
            (returns ∙ ap ok (append_assoc vec (unwords (w ∷ ws) ∷ []) (map unwords lines))),
        record { fits = (k, wrapped.fits); keeps = ap (λ t. (w ∷ ws) ++ t) wrapped.keeps },
      )
  | after_empty_line e ↦
      let (lines, returns, wrapped) =
        wrap_words-IsWrapped n words (unmarked word) [] (vec ++ unwords (w ∷ ws) ∷ [] ∷ []) hs h in
      (
        (w ∷ ws) ∷ [] ∷ lines,
        rw (wrap_words, e)
            (returns ∙ ap ok (append_assoc vec (unwords (w ∷ ws) ∷ [] ∷ []) (map unwords lines))),
        record {
          fits = (k, (omega arith, wrapped.fits));
          keeps = ap (λ t. (w ∷ ws) ++ t) wrapped.keeps;
        },
      )
]

plain_word-Fits : (n : ℕ) (word : Text) → break_before word ≡ none → Fits n word → length word ≤ n
plain_word-Fits n word e h = ground arith

regrouped_first :
    (word : Text) (rest : List Text)
    → break_before word ≡ none
    → (word ∷ []) ++ rest ≡ unmarked word ∷ rest
regrouped_first word rest e = rw (unmarked, e)

first_round :
    (n : ℕ) (word : Text)
    → break_before word ≡ none
    → length word ≤ n
    → wrap_round n word [] [] ≡ ok (spaced (word ∷ []), [])
unfolding wrap_round
first_round n word e h =
    rw (wrap_round, break_line-none word [] [] e, next_line-fits n word [] [] (omega arith))

-- Wrapping a text whose first word bears no mark and whose words, without their marks, are at most
-- `line_length` characters long returns: the lines hold the words of the text without their marks,
-- all of them and in their order, with one space between each two, and none is longer than
-- `line_length`.
pub wrap-IsWrapped :
    (text : Text) (line_length : ℕ) (first : Text) (words : List Text)
    → words_from [] text ≡ first ∷ words
    → break_before first ≡ none
    → All (Fits line_length) (first ∷ words)
    → (lines : List (List Text)) × (wrap text line_length ≡ ok (map unwords lines))
      × IsWrapped line_length (map unmarked (first ∷ words)) lines
unfolding wrap wrap_words
wrap-IsWrapped text line_length first words e plain (h, hs) =
    let room = plain_word-Fits line_length first plain h in
    let (lines, returns, wrapped) = wrap_words-IsWrapped line_length words first [] [] hs room in
    (
      lines,
      rw (wrap, e, wrap_words, first_round line_length first plain room) returns,
      record {
        fits = wrapped.fits;
        keeps = wrapped.keeps ∙ regrouped_first first (map unmarked words) plain;
      },
    )

-- A text whose first word bears a mark, or is longer than a line, is not wrapped: an exception is
-- thrown.
pub wrap-out_of_range :
    (text : Text) (line_length : ℕ) (first : Text) (words : List Text)
    → words_from [] text ≡ first ∷ words
    → (break_before first ≢ none) ⊎ (line_length < length first)
    → wrap text line_length ≡ err out_of_range
unfolding wrap wrap_words wrap_round break_line next_line erase_last
wrap-out_of_range text line_length first words e h = ground arith
