-- ===== src/Options/Wrap/Rounds.antt =====
-- What a round of `wrap` does with a line that has words.
use mathlib.Core.List.{append_assoc}
use czi_pyramidizer.Prelude.{
  ℕ, suc, ◌+◌, ◌≤◌, ◌<◌, ◌≡◌, refl, ap, ◌∙◌, sym, ◌⊎◌, inl, inr, arith, List, [], ◌∷◌, ◌++◌, none,
  some, true, false, Bool, Bool-cases, lt→ltb, dec_lt, Option-cases, length, length-append, take,
  drop, if◌then◌else◌,
}
use czi_pyramidizer.Prelude.Outcome.{ok}
use czi_pyramidizer.Console.{Text}
use czi_pyramidizer.Options.Wrap.{erase_last, break_before, break_line, next_line, wrap_round}

-- Words with a space behind each, and with a space between each two.
abbrev pub spaced : List Text → Text
spaced [] = []
spaced (w ∷ ws) = w ++ 32 ∷ spaced ws

abbrev pub unwords : List Text → Text
unwords [] = []
unwords (w ∷ []) = w
unwords (w ∷ v ∷ ws) = w ++ 32 ∷ unwords (v ∷ ws)

-- A word without the mark of a line break.
abbrev pub unmarked : Text → Text
unmarked word = elim (break_before word) [ none ↦ word | some empty_line ↦ drop 2 word ]

spaced-unwords : (w : Text) (ws : List Text) → spaced (w ∷ ws) ≡ unwords (w ∷ ws) ++ 32 ∷ []
spaced-unwords w [] = refl
spaced-unwords w (v ∷ ws) =
    ap (λ t. w ++ 32 ∷ t) (spaced-unwords v ws)
    ∙ sym (append_assoc w (32 ∷ unwords (v ∷ ws)) (32 ∷ []))

spaced-append : (ws : List Text) (v : Text) → spaced (ws ++ v ∷ []) ≡ spaced ws ++ (v ++ 32 ∷ [])
spaced-append [] v = refl
spaced-append (w ∷ ws) v =
    ap (λ t. w ++ 32 ∷ t) (spaced-append ws v)
    ∙ sym (append_assoc w (32 ∷ spaced ws) (v ++ 32 ∷ []))

take-all : (t : Text) (c : ℕ) → take (length t) (t ++ c ∷ []) ≡ t
take-all [] c = refl
take-all (b ∷ t) c = ap (λ s. b ∷ s) (take-all t c)

length-snoc : (t : Text) (c : ℕ) → length (t ++ c ∷ []) ≡ suc (length t)
length-snoc t c = omega (arith, length-append t (c ∷ []))

erase_last-snoc : (t : Text) (c : ℕ) → erase_last (t ++ c ∷ []) ≡ ok t
unfolding erase_last
erase_last-snoc [] c = refl
erase_last-snoc (b ∷ t) c = rw (length-snoc t c) (ap (λ s. ok (b ∷ s)) (take-all t c))

pub erase_last-spaced :
    (w : Text) (ws : List Text) → erase_last (spaced (w ∷ ws)) ≡ ok (unwords (w ∷ ws))
erase_last-spaced w ws = rw (spaced-unwords w ws) (erase_last-snoc (unwords (w ∷ ws)) 32)

-- What a round does with a line that has words: it adds the word, or the line is finished, with an
-- empty line behind it perhaps, and the next one has the word alone.
pub data Round (n : ℕ) (word w : Text) (ws : List Text) (vec : List Text) : Type 0 where
  same_line :
      length (spaced (w ∷ ws)) + length word ≤ n
      → unmarked word ≡ word
      → wrap_round n word (spaced (w ∷ ws)) vec ≡ ok (spaced ((w ∷ ws) ++ word ∷ []), vec)
      → Round n word w ws vec
  later_line :
      wrap_round n word (spaced (w ∷ ws)) vec
        ≡ ok (spaced (unmarked word ∷ []), vec ++ unwords (w ∷ ws) ∷ [])
      → Round n word w ws vec
  after_empty_line :
      wrap_round n word (spaced (w ∷ ws)) vec
        ≡ ok (spaced (unmarked word ∷ []), vec ++ unwords (w ∷ ws) ∷ [] ∷ [])
      → Round n word w ws vec

pub break_line-none :
    (word line : Text) (vec : List Text)
    → break_before word ≡ none
    → break_line word line vec ≡ ok (word, line, vec)
unfolding break_line
break_line-none word line vec e = rw (break_line, e)

break_line-some :
    (word w : Text) (ws : List Text) (vec : List Text) (b : Bool)
    → break_before word ≡ some b
    → break_line word (spaced (w ∷ ws)) vec
      ≡ ok (drop 2 word, [], vec ++ unwords (w ∷ ws) ∷ (if b then [] ∷ [] else []))
unfolding break_line
break_line-some word w ws vec b e = rw (break_line, e, erase_last-spaced w ws)

pub next_line-fits :
    (n : ℕ) (word line : Text) (vec : List Text)
    → length line + length word ≤ n
    → next_line n word line vec ≡ ok (line, vec)
unfolding next_line
next_line-fits n word line vec h = ground arith

next_line-full :
    (n : ℕ) (word w : Text) (ws : List Text) (vec : List Text)
    → n < length (spaced (w ∷ ws)) + length word
    → next_line n word (spaced (w ∷ ws)) vec ≡ ok ([], vec ++ unwords (w ∷ ws) ∷ [])
unfolding next_line
next_line-full n word w ws vec h = rw (next_line, lt→ltb _ _ h, erase_last-spaced w ws)

pub round :
    (n : ℕ) (word w : Text) (ws : List Text) (vec : List Text)
    → length (unmarked word) ≤ n
    → Round n word w ws vec
unfolding wrap_round
round n word w ws vec h = elim (Option-cases (break_before word)) [
  | inl e ↦ elim (dec_lt n (length (spaced (w ∷ ws)) + length word)) [
    | yes full ↦ later_line (
        rw (
          wrap_round,
          break_line-none word _ vec e,
          next_line-full n word w ws vec full,
          unmarked,
          e,
        ))
    | no fits ↦ same_line (omega arith) (rw (unmarked, e)) (
        rw (
          wrap_round,
          break_line-none word _ vec e,
          next_line-fits n word (spaced (w ∷ ws)) vec (omega arith),
          spaced-append (w ∷ ws) word,
        ))
  ]
  | inr (b, e) ↦ marked b e (Bool-cases b)
]
  where
    short : (b : Bool) → break_before word ≡ some b → length (drop 2 word) ≤ n
    short b e = ground arith

    marked :
        (b : Bool) → break_before word ≡ some b → (b ≡ true) ⊎ (b ≡ false) → Round n word w ws vec
    marked b e (inl t) = after_empty_line (
        rw (
          wrap_round,
          break_line-some word w ws vec b e,
          next_line-fits n (drop 2 word) [] _ (omega (arith, short b e)),
          unmarked,
          e,
          t,
        ))
    marked b e (inr t) = later_line (
        rw (
          wrap_round,
          break_line-some word w ws vec b e,
          next_line-fits n (drop 2 word) [] _ (omega (arith, short b e)),
          unmarked,
          e,
          t,
        ))

length-spaced :
    (w : Text) (ws : List Text) → length (spaced (w ∷ ws)) ≡ suc (length (unwords (w ∷ ws)))
length-spaced w ws = ap length (spaced-unwords w ws) ∙ length-snoc (unwords (w ∷ ws)) 32

-- A line that has room for one more word is not too long with it.
pub longer-fits :
    (n : ℕ) (w : Text) (ws : List Text) (word : Text)
    → length (spaced (w ∷ ws)) + length word ≤ n
    → length (unwords ((w ∷ ws) ++ word ∷ [])) ≤ n
longer-fits n w ws word h = omega (
  arith,
  length-spaced w (ws ++ word ∷ []),
  ap length (spaced-append (w ∷ ws) word),
  length-append (spaced (w ∷ ws)) (word ++ 32 ∷ []),
  length-snoc word 32,
)
