-- ===== src/Options/Wrap.antt =====
-- libpyramidizer/src/commandlineoptions.cpp: `CustomFormatter::wrap`, which breaks the texts of the
-- synopsis into lines.
pub mod Rounds
pub mod Lines
use czi_pyramidizer.Prelude.{
  ℕ, zero, suc, ◌+◌, List, [], ◌∷◌, ◌++◌, Option, none, some, Bool, true, false, ◌==◌, ltb, length,
  take, drop, if◌then◌else◌,
}
use czi_pyramidizer.Prelude.Outcome.{Outcome, ok, err, out_of_range, ◌>>=◌}
use czi_pyramidizer.Console.{Text}
use czi_pyramidizer.Strings.{is_space}

-- `iss >> word` until the stream is at its end: the maximal runs of other characters.
unfoldable pub add_word : Text → List Text → List Text
add_word [] words = words
add_word (c ∷ word) words = (c ∷ word) ∷ words

unfoldable pub words_from : Text → Text → List Text
unfolding add_word is_space
words_from word [] = add_word word []
words_from word (c ∷ s) = elim (is_space c) [
  | true ↦ add_word word (words_from [] s)
  | false ↦ words_from (word ++ c ∷ []) s
]

-- `line.erase(line.size() - 1)`: on an empty line the position is behind the end.
unfoldable pub erase_last : Text → Outcome Text
erase_last [] = err out_of_range
erase_last (c ∷ line) = ok (take (length line) (c ∷ line))

-- Whether a word of more than two characters begins with `\n`, or (true) with `\N`.
unfoldable pub break_before : Text → Option Bool
break_before (c ∷ d ∷ e ∷ word) =
    if c == 92 then if d == 110 then some false else if d == 78 then some true else none else none
break_before (c ∷ d ∷ []) = none
break_before (c ∷ []) = none
break_before [] = none

-- The first test of a round: the word, the line and the lines after it.
unfoldable pub break_line : Text → Text → List Text → Outcome (Text × Text × List Text)
unfolding break_before erase_last
break_line word line vec = elim (break_before word) [
  | none ↦ ok (word, line, vec)
  | some empty_line ↦ do
    whole ← erase_last line
    ok (drop 2 word, [], vec ++ whole ∷ (if empty_line then [] ∷ [] else []))
]

-- The second: the line is full.
unfoldable pub next_line : ℕ → Text → Text → List Text → Outcome (Text × List Text)
unfolding erase_last
next_line line_length word line vec =
    if ltb line_length (length line + length word)
    then (do whole ← erase_last line; ok ([], vec ++ whole ∷ []))
    else ok (line, vec)

unfoldable pub wrap_round : ℕ → Text → Text → List Text → Outcome (Text × List Text)
unfolding break_line next_line
wrap_round line_length word line vec = do
  (word', line', vec') ← break_line word line vec
  (line'', vec'') ← next_line line_length word' line' vec'
  ok (line'' ++ (word' ++ 32 ∷ []), vec'')

unfoldable pub wrap_words : ℕ → List Text → Text → List Text → Outcome (List Text)
unfolding wrap_round erase_last
wrap_words line_length [] [] vec = ok vec
wrap_words line_length [] (c ∷ line) vec = do whole ← erase_last (c ∷ line); ok (vec ++ whole ∷ [])
wrap_words line_length (word ∷ words) line vec = do
  (line', vec') ← wrap_round line_length word line vec
  wrap_words line_length words line' vec'

unfoldable pub wrap : Text → ℕ → Outcome (List Text)
unfolding wrap_words words_from
wrap text line_length = wrap_words line_length (words_from [] text) [] []
