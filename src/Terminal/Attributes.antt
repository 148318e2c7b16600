-- ===== src/Terminal/Attributes.antt =====
-- The attributes of the console on Windows.
use czi_pyramidizer.Prelude.{
  ℕ, ◌+◌, ◌*◌, ◌/◌, ◌%◌, ◌<◌, ◌≡◌, refl, arith, Option, some, List, [], ◌∷◌, get_elem?,
}
use czi_pyramidizer.Prelude.Int.{ℤ, pos, negsuc, ◌-ℤ◌, max_ℤ, ◌≤ℤ◌, int_laws}
use czi_pyramidizer.Console.{ConsoleColor}
use czi_pyramidizer.Terminal.{
  foreground_attribute, background_attribute, get_color_attribute, to_short, short_max,
  row_moved_up,
}

-- The sixteen colours in the order of their bits.
abbrev pub palette : List ConsoleColor
palette =
    ConsoleColor.black ∷ ConsoleColor.dark_blue ∷ ConsoleColor.dark_green ∷ ConsoleColor.dark_cyan
    ∷ ConsoleColor.dark_red ∷ ConsoleColor.dark_magenta ∷ ConsoleColor.dark_yellow
    ∷ ConsoleColor.dark_white ∷ ConsoleColor.light_black ∷ ConsoleColor.light_blue
    ∷ ConsoleColor.light_green ∷ ConsoleColor.light_cyan ∷ ConsoleColor.light_red
    ∷ ConsoleColor.light_magenta ∷ ConsoleColor.light_yellow ∷ ConsoleColor.white ∷ []

-- The colour itself, or for the default that of the bits of the attribute before.
abbrev pub shown_color : ℕ → ConsoleColor → Option ConsoleColor
shown_color bits ConsoleColor.default = get_elem? palette bits
shown_color bits color = some color

foreground-color :
    (d : ℕ) (c : ConsoleColor)
    → (foreground_attribute d c < 16)
      × (get_elem? palette (foreground_attribute d c) ≡ shown_color (d % 16) c)
unfolding foreground_attribute
foreground-color d ConsoleColor.default = (omega arith, refl)
foreground-color d _ = (omega arith, refl)

-- The background's bits are the foreground's of the other half.
background-foreground :
    (d : ℕ) (c : ConsoleColor) → background_attribute d c ≡ 16 * foreground_attribute (d / 16) c
unfolding background_attribute foreground_attribute
background-foreground d ConsoleColor.default = refl
background-foreground d _ = refl

lower_half : (a b c : ℕ) → a < 16 → c ≡ 16 * b → (a + c) % 16 ≡ a
lower_half a b c h e = omega arith

upper_half : (a b c : ℕ) → a < 16 → c ≡ 16 * b → (a + c) / 16 ≡ b
upper_half a b c h e = omega arith

-- The attribute is a byte, whose lower half is the foreground and whose upper half is the
-- background: each is the colour that was asked for, or for the default that of the attribute
-- which the console had before.
pub get_color_attribute-halves :
    (d : ℕ) (foreground background : ConsoleColor)
    → (get_color_attribute d foreground background < 256)
      × (get_elem? palette (get_color_attribute d foreground background % 16)
          ≡ shown_color (d % 16) foreground)
      × (get_elem? palette (get_color_attribute d foreground background / 16)
          ≡ shown_color (d / 16 % 16) background)
unfolding get_color_attribute
get_color_attribute-halves d foreground background =
    let a = foreground_attribute d foreground in
    let b = foreground_attribute (d / 16) background in
    let c = background_attribute d background in
    let e = background-foreground d background in
    let (a_small, a_color) = foreground-color d foreground in
    let (b_small, b_color) = foreground-color (d / 16) background in
    (omega arith, rw (lower_half a b c a_small e) a_color, rw (upper_half a b c a_small e) b_color)

to_short-small : (z : ℤ) → negsuc 32767 ≤ℤ z → z ≤ℤ short_max → to_short z ≡ z
unfolding to_short
to_short-small z h k = ground arith

max-short : (lines : ℤ) → lines ≤ℤ short_max → max_ℤ lines short_max ≡ short_max
max-short lines h = omega int_laws

-- For 32767 lines or fewer, `MoveUp` on Windows asks for the row 32767 above that of the cursor,
-- which is outside of the console unless the cursor is in row 32767.
pub row_moved_up-far :
    (row lines : ℤ)
    → pos 0 ≤ℤ row
    → row ≤ℤ short_max
    → lines ≤ℤ short_max
    → row_moved_up row lines ≡ row -ℤ short_max
unfolding row_moved_up
row_moved_up-far row lines h k l = rw (
  max-short lines l,
  to_short-small short_max (omega arith) (omega arith),
  to_short-small (row -ℤ short_max) (omega int_laws) (omega int_laws),
)
