-- ===== src/Options/Color/Accepted.antt =====
-- Which words the option --background-color takes.
use mathlib.Core.Option
use czi_pyramidizer.Prelude.{
  ℕ, ◌≡◌, ◌≢◌, refl, ap, ◌∙◌, sym, ◌⊎◌, inl, inr, arith, [], ◌∷◌, ◌++◌, Option, Bool, true, false,
  Bool-cases, All,
}
use czi_pyramidizer.Prelude.Outcome.{ok}
use czi_pyramidizer.Console.{Text, codes}
use czi_pyramidizer.Strings.{is_space, tolower, to_lower, trim}
use czi_pyramidizer.Strings.Trim.{IsBlank, IsTrimmed, blank, middle, trim_answer, trim_around}
use czi_pyramidizer.Background.{same_text}
use czi_pyramidizer.Background.Light.{same_text→≡}
use czi_pyramidizer.Options.Color.{
  BackgroundColorOption, black_option, white_option, auto_option, choose_background_color,
  try_parse_background_color_option,
}

-- The words that are taken, in lower case, and what each does to the option.
pub data ColorWord : Type 0 where
  black zero_digit white one_digit auto : ColorWord

abbrev pub spelled : ColorWord → Text
spelled black = codes "black"
spelled zero_digit = codes "0"
spelled white = codes "white"
spelled one_digit = codes "1"
spelled auto = codes "auto"

abbrev pub chosen : ColorWord → BackgroundColorOption → BackgroundColorOption
chosen black option = black_option option
chosen zero_digit option = black_option option
chosen white option = white_option option
chosen one_digit option = white_option option
chosen auto option = auto_option option

-- A text that spells the word, in any case and with any whitespace around it.
pub record Names (v : ColorWord) (s : Text) : Type 0 where
  pub before : Text
  pub word : Text
  pub after : Text
  pub is_made : s ≡ before ++ (word ++ after)
  pub before_blank : IsBlank before
  pub after_blank : IsBlank after
  pub spells : to_lower word ≡ spelled v

-- Lower case keeps whitespace apart from other characters.
shows_lower : (c : ℕ) → is_space (tolower c) ≡ false → is_space c ≡ false
unfolding is_space tolower
shows_lower c h = ground arith

abbrev Shows : Text → Type 0
Shows s = All (λ c. is_space c ≡ false) s

Shows-lower : (w : Text) → Shows (to_lower w) → Shows w
unfolding to_lower
Shows-lower [] h = tt
Shows-lower (c ∷ w) (h, hs) = (shows_lower c h, Shows-lower w hs)

Shows-spelled : (v : ColorWord) → Shows (spelled v)
unfolding is_space
Shows-spelled black = (refl, (refl, (refl, (refl, (refl, tt)))))
Shows-spelled zero_digit = (refl, tt)
Shows-spelled white = (refl, (refl, (refl, (refl, (refl, tt)))))
Shows-spelled one_digit = (refl, tt)
Shows-spelled auto = (refl, (refl, (refl, (refl, tt))))

-- The last character of a text.
from_last :
    (c : ℕ) (s : Text)
    → Shows (c ∷ s)
    → (m : Text) × (d : ℕ) × (c ∷ s ≡ m ++ d ∷ []) × (is_space d ≡ false)
from_last c [] (h, hs) = ([], c, refl, h)
from_last c (b ∷ s) (h, hs) =
    let (m, d, e, k) = from_last b s hs in (c ∷ m, d, ap (λ t. c ∷ t) e, k)

Shows-IsTrimmed : (s : Text) → s ≢ [] → Shows s → IsTrimmed s
Shows-IsTrimmed [] h k = absurd (h refl)
Shows-IsTrimmed (c ∷ s) h (k, ks) =
    let (m, d, e, shows) = from_last c s (k, ks) in
    record {
      first = c;
      after_first = s;
      starts = refl;
      first_shows = k;
      before_last = m;
      last = d;
      ends = e;
      last_shows = shows;
    }

word-ne-nil : (v : ColorWord) (w : Text) → to_lower w ≡ spelled v → w ≢ []
unfolding to_lower
word-ne-nil v (c ∷ w) e h = cc
word-ne-nil black [] e h = cc
word-ne-nil zero_digit [] e h = cc
word-ne-nil white [] e h = cc
word-ne-nil one_digit [] e h = cc
word-ne-nil auto [] e h = cc

-- The trimmed text of one that names a word.
trim-Names : (v : ColorWord) (s : Text) (n : Names v s) → trim s ≡ ok n.word
trim-Names v s n =
    let shows = Shows-lower n.word (rw n.spells (Shows-spelled v)) in
    rw n.is_made (
      trim_around n.before n.word n.after n.before_blank
        (Shows-IsTrimmed n.word (word-ne-nil v n.word n.spells) shows) n.after_blank)

-- The tests tell the words apart.
choose_word :
    (v : ColorWord) (option : Option BackgroundColorOption)
    → choose_background_color (spelled v) option ≡ (true, Option.map (chosen v) option)
unfolding choose_background_color same_text
choose_word black option = refl
choose_word zero_digit option = refl
choose_word white option = refl
choose_word one_digit option = refl
choose_word auto option = refl

choose_other :
    (t : Text) (option : Option BackgroundColorOption)
    → ((v : ColorWord) × (t ≡ spelled v)) ⊎ (choose_background_color t option ≡ (false, option))
unfolding choose_background_color
choose_other t option = elim (Bool-cases (same_text t (codes "black"))) [
  | inl h ↦ inl (black, same_text→≡ t _ h)
  | inr b ↦ elim (Bool-cases (same_text t (codes "0"))) [
    | inl h ↦ inl (zero_digit, same_text→≡ t _ h)
    | inr z ↦ elim (Bool-cases (same_text t (codes "white"))) [
      | inl h ↦ inl (white, same_text→≡ t _ h)
      | inr w ↦ elim (Bool-cases (same_text t (codes "1"))) [
        | inl h ↦ inl (one_digit, same_text→≡ t _ h)
        | inr o ↦ elim (Bool-cases (same_text t (codes "auto"))) [
          | inl h ↦ inl (auto, same_text→≡ t _ h)
          | inr a ↦ inr (rw (choose_background_color, b, z, w, o, a))
        ]
      ]
    ]
  ]
]

parsed_as :
    (s t : Text) (option : Option BackgroundColorOption)
    → trim s ≡ ok t
    → try_parse_background_color_option s option ≡ ok (choose_background_color (to_lower t) option)
unfolding try_parse_background_color_option
parsed_as s t option e = rw (try_parse_background_color_option, e)

-- A text that names a word is trimmed to the word.
same_trimmed : (v : ColorWord) (s t : Text) → trim s ≡ ok t → Names v s → to_lower t ≡ spelled v
same_trimmed v s t e n = let m : t ≡ n.word = cc (trim-Names v s n) in ap to_lower m ∙ n.spells

choose_none :
    (option : Option BackgroundColorOption)
    → choose_background_color (to_lower []) option ≡ (false, option)
unfolding choose_background_color to_lower same_text
choose_none option = refl

-- A text whose trimmed form is refused names no word.
no_word_named :
    (s t : Text) (option : Option BackgroundColorOption)
    → trim s ≡ ok t
    → choose_background_color (to_lower t) option ≡ (false, option)
    → (v : ColorWord) → ¬ Names v s
no_word_named s t option e no_word v n =
    let word = ap (λ x. choose_background_color x option) (same_trimmed v s t e n) in
    let h : false ≡ true =
      ap (λ (p : Bool × Option BackgroundColorOption). p.0)
        (sym no_word ∙ word ∙ choose_word v option) in
    cc h

-- For every text the option is parsed without an exception. Where the text names one of the five
-- words, in any case and with any whitespace around it, the answer is true, and the option is set
-- to what the word stands for; where it names none, the answer is false, and the option is left.
pub try_parse_background_color_option_lem :
    (s : Text) (option : Option BackgroundColorOption)
    → ((v : ColorWord) × Names v s
        × (try_parse_background_color_option s option ≡ ok (true, Option.map (chosen v) option)))
      ⊎ (((v : ColorWord) → ¬ Names v s)
          × (try_parse_background_color_option s option ≡ ok (false, option)))
try_parse_background_color_option_lem s option = elim (trim_answer s) [
  | blank h e ↦ inr (
    no_word_named s [] option e (choose_none option),
    parsed_as s [] option e ∙ ap ok (choose_none option),
  )
  | middle l m r made hl t hr e ↦ elim (choose_other (to_lower m) option) [
    | inl (v, k) ↦ inl (
      v,
      record {
        before = l;
        word = m;
        after = r;
        is_made = made;
        before_blank = hl;
        after_blank = hr;
        spells = k;
      },
      parsed_as s m option e
          ∙ ap ok (ap (λ x. choose_background_color x option) k ∙ choose_word v option),
    )
    | inr no_word ↦ inr (no_word_named s m option e no_word, parsed_as s m option e ∙ ap ok no_word)
  ]
]
