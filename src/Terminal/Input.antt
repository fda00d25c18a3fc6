-- ===== src/Terminal/Input.antt =====
-- crates/rdt-terminal/src/input.rs: keys and pasted text as bytes.
pub mod Decoding
pub mod Characters
pub mod Laws
pub mod Keys
mod Tests
use remote_desktop_tool.Prelude.{
  ℕ, ◌+◌, ◌-◌, ◌*◌, ◌/◌, ◌%◌, Bool, true, false, not, ◌&&◌, List, [], ◌∷◌, ◌++◌, ◌==◌, ltb, within,
  if◌then◌else◌,
}
use Prim.Native.Nat.{bit_and, bit_or}
use remote_desktop_tool.Terminal.Screen.Types.{Modes}

pub data Key : Type 0 where
  char : ℕ → Key
  enter backspace tab escape : Key
  up down right left : Key
  home end page_up page_down insert delete : Key
  f : ℕ → Key

-- `KeyModifier`: the `u8` that it wraps.
abbrev pub KeyModifier : Type 0
KeyModifier = ℕ

abbrev pub no_modifier : KeyModifier
no_modifier = 0

abbrev pub shift : KeyModifier
shift = 1

abbrev pub alt : KeyModifier
alt = 2

abbrev pub control : KeyModifier
control = 4

unfoldable pub union : KeyModifier → KeyModifier → KeyModifier
union a b = bit_or a b

unfoldable pub contains : KeyModifier → KeyModifier → Bool
contains a b = not (bit_and a b == 0)

-- `char::encode_utf8` of the standard library.
unfoldable pub encode_utf8 : ℕ → List ℕ
encode_utf8 c =
    if ltb c 0x80
    then c ∷ []
    else if ltb c 0x800
    then (0xC0 + c / 64) ∷ (0x80 + c % 64) ∷ []
    else if ltb c 0x10000
    then (0xE0 + c / 4096) ∷ (0x80 + c / 64 % 64) ∷ (0x80 + c % 64) ∷ []
    else (0xF0 + c / 262144) ∷ (0x80 + c / 4096 % 64) ∷ (0x80 + c / 64 % 64) ∷ (0x80 + c % 64) ∷ []

-- `b'0' + modifier + 1`: `u8` arithmetic, which does not wrap for the modifiers of the program.
abbrev pub modifier_digit : KeyModifier → ℕ
modifier_digit modifier = (b'0' + modifier + 1) % 256

-- `Key::Char`.
unfoldable pub encode_char : ℕ → KeyModifier → List ℕ
encode_char ch modifiers =
    if contains modifiers control && within b'a' b'z' ch
    then (ch - b'a' + 1) ∷ []
    else if contains modifiers control && within b'A' b'Z' ch
    then (ch - b'A' + 1) ∷ []
    else if contains modifiers control && ch == b' '
    then 0 ∷ []
    else encode_utf8 ch

-- The arrows: the letter is that of the inner `match`.
unfoldable pub encode_arrow : ℕ → KeyModifier → Modes → List ℕ
encode_arrow letter modifier modes =
    if modifier == 0
    then (if modes.application_cursor_keys
        then 0x1B ∷ b'O' ∷ letter ∷ []
        else 0x1B ∷ b'[' ∷ letter ∷ [])
    else 0x1B ∷ b'[' ∷ b'1' ∷ b';' ∷ modifier_digit modifier ∷ letter ∷ []

-- Home and End.
unfoldable pub encode_edge : ℕ → KeyModifier → List ℕ
encode_edge letter modifier =
    if modifier == 0
    then 0x1B ∷ b'[' ∷ letter ∷ []
    else 0x1B ∷ b'[' ∷ b'1' ∷ b';' ∷ modifier_digit modifier ∷ letter ∷ []

-- Page up and down, Insert and Delete.
unfoldable pub encode_tilde : ℕ → KeyModifier → List ℕ
encode_tilde number modifier =
    if modifier == 0
    then 0x1B ∷ b'[' ∷ number ∷ b'~' ∷ []
    else 0x1B ∷ b'[' ∷ number ∷ b';' ∷ modifier_digit modifier ∷ b'~' ∷ []

-- The letter of F1 to F4.
abbrev pub short_letter : ℕ → ℕ
short_letter number =
    if number == 1 then b'P' else if number == 2 then b'Q' else if number == 3 then b'R' else b'S'

-- The number of F5 to F12, as text.
abbrev pub number_code : ℕ → List ℕ
number_code number =
    if number == 5
    then b'1' ∷ b'5' ∷ []
    else if number == 6
    then b'1' ∷ b'7' ∷ []
    else if number == 7
    then b'1' ∷ b'8' ∷ []
    else if number == 8
    then b'1' ∷ b'9' ∷ []
    else if number == 9
    then b'2' ∷ b'0' ∷ []
    else if number == 10
    then b'2' ∷ b'1' ∷ []
    else if number == 11
    then b'2' ∷ b'3' ∷ []
    else b'2' ∷ b'4' ∷ []

unfoldable pub encode_function_key : ℕ → KeyModifier → List ℕ
encode_function_key number modifier =
    if within 1 4 number
    then (if modifier == 0
        then 0x1B ∷ b'O' ∷ short_letter number ∷ []
        else 0x1B ∷ b'[' ∷ b'1' ∷ b';' ∷ modifier_digit modifier ∷ short_letter number ∷ [])
    else if within 5 12 number
    then 0x1B
      ∷ b'['
      ∷ ((if modifier == 0 then [] else b'1' ∷ b';' ∷ modifier_digit modifier ∷ b';' ∷ [])
          ++ (number_code number ++ (b'~' ∷ [])))
    else []

unfoldable pub encode_key : Key → KeyModifier → Modes → List ℕ
encode_key (Key.char ch) modifiers modes = encode_char ch modifiers
encode_key Key.enter modifiers modes = b'\r' ∷ []
encode_key Key.backspace modifiers modes =
    if contains modifiers alt then 0x1B ∷ 0x7F ∷ [] else 0x7F ∷ []
encode_key Key.tab modifiers modes =
    if contains modifiers shift then 0x1B ∷ b'[' ∷ b'Z' ∷ [] else b'\t' ∷ []
encode_key Key.escape modifiers modes = 0x1B ∷ []
encode_key Key.up modifiers modes = encode_arrow b'A' modifiers modes
encode_key Key.down modifiers modes = encode_arrow b'B' modifiers modes
encode_key Key.right modifiers modes = encode_arrow b'C' modifiers modes
encode_key Key.left modifiers modes = encode_arrow b'D' modifiers modes
encode_key Key.home modifiers modes = encode_edge b'H' modifiers
encode_key Key.end modifiers modes = encode_edge b'F' modifiers
encode_key Key.page_up modifiers modes = encode_tilde b'5' modifiers
encode_key Key.page_down modifiers modes = encode_tilde b'6' modifiers
encode_key Key.insert modifiers modes = encode_tilde b'2' modifiers
encode_key Key.delete modifiers modes = encode_tilde b'3' modifiers
encode_key (Key.f number) modifiers modes = encode_function_key number modifiers

-- `\x1b[200~` and `\x1b[201~`.
abbrev pub paste_start : List ℕ
paste_start = 0x1B ∷ b'[' ∷ b'2' ∷ b'0' ∷ b'0' ∷ b'~' ∷ []

abbrev pub paste_end : List ℕ
paste_end = 0x1B ∷ b'[' ∷ b'2' ∷ b'0' ∷ b'1' ∷ b'~' ∷ []

-- The text is its UTF-8 bytes.
unfoldable pub encode_paste : List ℕ → Modes → List ℕ
encode_paste bytes modes =
    if not modes.bracketed_paste then bytes else paste_start ++ (bytes ++ paste_end)

unfoldable pub encode_line : List ℕ → Modes → List ℕ
encode_line command modes = encode_paste command modes ++ (b'\r' ∷ [])
