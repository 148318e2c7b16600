-- ===== src/Terminal/Visible.antt =====
-- What a terminal reads in the output on Unix.
use mathlib.Core.List.{append_assoc}
use czi_pyramidizer.Prelude.{
  ℕ, zero, suc, ◌+◌, ◌-◌, ◌*◌, ◌/◌, ◌%◌, ◌^◌, ◌<◌, ◌≡◌, ◌≢◌, refl, inl, inr, Bool-cases, ap, ◌∙◌,
  sym, arith, List, [], ◌∷◌, ◌++◌, map, Bool, true, false, ◌==◌, leb, ltb, ◌&&◌, All, if◌then◌else◌,
}
use czi_pyramidizer.Prelude.Words.{int_limit}
use czi_pyramidizer.Console.{
  Text, codes, ConsoleColor, ConsoleCall, set_color, move_up, write_std_out, write_line_std_out,
  write_line_std_err, digits_from, to_string,
}
use czi_pyramidizer.Terminal.{esc, ansi_foreground, ansi_background, written_on_unix, unix_output}

-- What a terminal does: it shows a character, takes a colour for what follows, moves the cursor up,
-- or does something else at a control sequence with a number.
pub data Event : Type 0 where
  shows : ℕ → Event
  foreground background : ConsoleColor → Event
  up : ℕ → Event
  other : ℕ → ℕ → Event

-- The colours of ECMA-48, dark ones from 30 or 40 on and light ones from 90 or 100 on.
abbrev dark : List ConsoleColor
dark =
    ConsoleColor.black ∷ ConsoleColor.dark_red ∷ ConsoleColor.dark_green ∷ ConsoleColor.dark_yellow
    ∷ ConsoleColor.dark_blue ∷ ConsoleColor.dark_magenta ∷ ConsoleColor.dark_cyan
    ∷ ConsoleColor.dark_white ∷ []

abbrev light : List ConsoleColor
light =
    ConsoleColor.light_black ∷ ConsoleColor.light_red ∷ ConsoleColor.light_green
    ∷ ConsoleColor.light_yellow ∷ ConsoleColor.light_blue ∷ ConsoleColor.light_magenta
    ∷ ConsoleColor.light_cyan ∷ ConsoleColor.white ∷ []

numbered : ℕ → List Event → List (ℕ × Event)
numbered n [] = []
numbered n (event ∷ events) = (n, event) ∷ numbered (n + 1) events

renditions : List (ℕ × Event)
unfolding numbered
renditions =
    numbered 30 (map foreground dark)
    ++ (numbered 90 (map foreground light)
        ++ (numbered 40 (map background dark)
            ++ (numbered 100 (map background light)
                ++ (39, foreground ConsoleColor.default)
                  ∷ (49, background ConsoleColor.default)
                  ∷ [])))

rendition : ℕ → List (ℕ × Event) → Event
rendition n [] = other n 109
rendition n ((k, event) ∷ table) = let rest = rendition n table in if k == n then event else rest

-- The event of a control sequence, by its number and its last character.
control : ℕ → ℕ → Event
unfolding rendition renditions
control n c = if c == 65 then up n else if c == 109 then rendition n renditions else other n c

-- A control sequence is an escape character, a bracket, a number and another character.
data Mode : Type 0 where
  plain escaped : Mode
  in_sequence : ℕ → Mode

read : Mode → Text → List Event
unfolding control
read plain [] = []
read escaped [] = []
read (in_sequence n) [] = []
read plain (c ∷ s) =
    let sequence = read escaped s in
    let rest = shows c ∷ read plain s in if c == esc then sequence else rest
read escaped (c ∷ s) = read (in_sequence 0) s
read (in_sequence n) (c ∷ s) =
    let digit = read (in_sequence (n * 10 + (c - 48))) s in
    let last = control n c ∷ read plain s in if leb 48 c && leb c 57 then digit else last

pub events : Text → List Event
unfolding read
events s = read plain s

-- The events of the calls: colours are for a terminal alone.
abbrev pub events_of : Bool → List ConsoleCall → List Event
events_of is_terminal [] = []
events_of true (set_color f b ∷ calls) = foreground f ∷ background b ∷ events_of true calls
events_of false (set_color f b ∷ calls) = events_of false calls
events_of is_terminal (move_up lines ∷ calls) = up lines ∷ events_of is_terminal calls
events_of is_terminal (write_std_out text ∷ calls) = map shows text ++ events_of is_terminal calls
events_of is_terminal (write_line_std_out text ∷ calls) =
    map shows text ++ shows 10 ∷ events_of is_terminal calls
events_of is_terminal (write_line_std_err text ∷ calls) =
    map shows text ++ shows 10 ∷ events_of is_terminal calls

-- Texts without escape characters, and numbers of lines that are those of an `int`.
abbrev pub IsPlain : Text → Type 0
IsPlain text = All (λ c. c ≢ esc) text

abbrev pub PlainCall : ConsoleCall → Type 0
PlainCall (set_color f b) = Unit
PlainCall (move_up lines) = lines < int_limit
PlainCall (write_std_out text) = IsPlain text
PlainCall (write_line_std_out text) = IsPlain text
PlainCall (write_line_std_err text) = IsPlain text

events-plain : (text s : Text) → IsPlain text → events (text ++ s) ≡ map shows text ++ events s
unfolding events
events-plain [] s h = refl
events-plain (c ∷ text) s (h, hs) = ground (arith, events-plain text s hs)

events-newline : (s : Text) → events (10 ∷ s) ≡ shows 10 ∷ events s
unfolding events
events-newline s = refl

events-line :
    (text s : Text)
    → IsPlain text
    → events ((text ++ 10 ∷ []) ++ s) ≡ map shows text ++ shows 10 ∷ events s
events-line text s h =
    ap events (append_assoc text (10 ∷ []) s)
    ∙ events-plain text (10 ∷ s) h
    ∙ ap (λ t. map shows text ++ t) (events-newline s)

events-foreground :
    (c : ConsoleColor) (s : Text) → events (ansi_foreground c ++ s) ≡ foreground c ∷ events s
unfolding events ansi_foreground
events-foreground ConsoleColor.black s = refl
events-foreground _ s = refl

events-background :
    (c : ConsoleColor) (s : Text) → events (ansi_background c ++ s) ≡ background c ∷ events s
unfolding events ansi_background
events-background ConsoleColor.black s = refl
events-background _ s = refl

events-colors :
    (f b : ConsoleColor) (s : Text)
    → events ((ansi_foreground f ++ ansi_background b) ++ s)
      ≡ foreground f ∷ background b ∷ events s
events-colors f b s =
    ap events (append_assoc (ansi_foreground f) (ansi_background b) s)
    ∙ events-foreground f (ansi_background b ++ s)
    ∙ ap (λ t. foreground f ∷ t) (events-background b s)

read_digit :
    (n k m : ℕ) (s : Text)
    → k < 10
    → n * 10 + k ≡ m
    → read (in_sequence n) ((48 + k) ∷ s) ≡ read (in_sequence m) s
unfolding read
read_digit n k m s h e = ground arith

-- A number is read as it was written.
read-digits_from :
    (fuel n : ℕ) (later s : Text)
    → n < 10 ^ fuel
    → read (in_sequence 0) (digits_from fuel n later ++ s) ≡ read (in_sequence n) (later ++ s)
unfolding digits_from
read-digits_from zero n later s h =
    let e : n ≡ 0 = omega arith in ap (λ k. read (in_sequence k) (later ++ s)) (sym e)
read-digits_from (suc fuel) n later s h = elim (Bool-cases (ltb n 10)) [
  | inl last ↦ rw last (read_digit 0 n n (later ++ s) (ground arith) (omega arith))
  | inr more ↦ rw more (
      read-digits_from fuel (n / 10) ((48 + n % 10) ∷ later) s (omega arith)
      ∙ read_digit (n / 10) (n % 10) n (later ++ s) (omega arith) (omega arith))
]

ten_digits : (n : ℕ) → n < int_limit → n < 10 ^ 20
ten_digits n h = omega arith

events-move_up :
    (n : ℕ) (s : Text)
    → n < int_limit
    → events ((esc ∷ 91 ∷ (to_string n ++ codes "A")) ++ s) ≡ up n ∷ events s
unfolding events to_string
events-move_up n s h =
    ap (λ t. read (in_sequence 0) t) (append_assoc (digits_from 20 n []) (codes "A") s)
    ∙ read-digits_from 20 n [] (65 ∷ s) (ten_digits n h)

events-nil : events [] ≡ []
unfolding events
events-nil = refl

events-call :
    (is_terminal : Bool) (call : ConsoleCall) (calls : List ConsoleCall) (s : Text)
    → PlainCall call
    → events s ≡ events_of is_terminal calls
    → events (written_on_unix is_terminal call ++ s) ≡ events_of is_terminal (call ∷ calls)
unfolding written_on_unix
events-call true (set_color f b) calls s h e =
    events-colors f b s ∙ ap (λ t. foreground f ∷ background b ∷ t) e
events-call false (set_color f b) calls s h e = e
events-call true (move_up lines) calls s h e = events-move_up lines s h ∙ ap (λ t. up lines ∷ t) e
events-call false (move_up lines) calls s h e = events-move_up lines s h ∙ ap (λ t. up lines ∷ t) e
events-call true (write_std_out text) calls s h e =
    events-plain text s h ∙ ap (λ t. map shows text ++ t) e
events-call false (write_std_out text) calls s h e =
    events-plain text s h ∙ ap (λ t. map shows text ++ t) e
events-call true (write_line_std_out text) calls s h e =
    events-line text s h ∙ ap (λ t. map shows text ++ shows 10 ∷ t) e
events-call false (write_line_std_out text) calls s h e =
    events-line text s h ∙ ap (λ t. map shows text ++ shows 10 ∷ t) e
events-call true (write_line_std_err text) calls s h e =
    events-line text s h ∙ ap (λ t. map shows text ++ shows 10 ∷ t) e
events-call false (write_line_std_err text) calls s h e =
    events-line text s h ∙ ap (λ t. map shows text ++ shows 10 ∷ t) e

-- What a terminal reads in the output is what the calls ask for, in their order: the characters of
-- the texts, those for the standard error too; the colours, each as a foreground and a background
-- and only where the output is a terminal; and the moves of the cursor, by their numbers of lines,
-- also where it is none. The texts have no escape characters, and the numbers are those of an `int`.
pub events-unix_output :
    (is_terminal : Bool) (calls : List ConsoleCall)
    → All PlainCall calls
    → events (unix_output is_terminal calls) ≡ events_of is_terminal calls
unfolding unix_output
events-unix_output true [] h = events-nil
events-unix_output false [] h = events-nil
events-unix_output is_terminal (call ∷ calls) (h, hs) =
    events-call is_terminal call calls (unix_output is_terminal calls) h
      (events-unix_output is_terminal calls hs)
