-- ===== src/Terminal/Grid.antt =====
-- crates/rdt-terminal/src/grid.rs: colours, attributes, cells, rows and the scrollback buffer.
-- A `char` is its code point, and a `u8` a number below 256.
pub mod Scrollback
use remote_desktop_tool.Prelude.{
  ℕ, ◌+◌, Bool, true, false, ◌||◌, ◌&&◌, List, [], ◌∷◌, map, ◌==◌, within, if◌then◌else◌, replicate,
}

pub data Color : Type 0 where
  default : Color
  indexed : ℕ → Color
  rgb : ℕ → ℕ → ℕ → Color

abbrev pub normal : ℕ → Color
normal index = indexed index

abbrev pub bright : ℕ → Color
bright index = indexed (index + 8)

pub record Attrs : Type 0 where
  pub fg : Color
  pub bg : Color
  pub bold : Bool
  pub dim : Bool
  pub italic : Bool
  pub underline : Bool
  pub blink : Bool
  pub inverse : Bool
  pub hidden : Bool
  pub strikethrough : Bool

abbrev pub plain : Attrs
plain = record {
  fg = default;
  bg = default;
  bold = false;
  dim = false;
  italic = false;
  underline = false;
  blink = false;
  inverse = false;
  hidden = false;
  strikethrough = false;
}

pub record Cell : Type 0 where
  pub ch : ℕ
  pub attrs : Attrs
  pub width : ℕ

-- The ranges of `matches!` in `is_wide`.
unfoldable pub is_wide : ℕ → Bool
is_wide c =
    within 0x1100 0x115F c
    || within 0x2E80 0x303E c
    || within 0x3041 0x33FF c
    || within 0x3400 0x4DBF c
    || within 0x4E00 0x9FFF c
    || within 0xA000 0xA4CF c
    || within 0xAC00 0xD7A3 c
    || within 0xF900 0xFAFF c
    || within 0xFE30 0xFE6F c
    || within 0xFF00 0xFF60 c
    || within 0xFFE0 0xFFE6 c
    || within 0x1F300 0x1F64F c
    || within 0x1F900 0x1F9FF c
    || within 0x20000 0x2FFFD c
    || within 0x30000 0x3FFFD c

-- `Cell::empty`.
abbrev pub empty_cell : Cell
empty_cell = record { ch = b' '; attrs = plain; width = 1 }

-- `Cell::new`.
abbrev pub new_cell : ℕ → Attrs → Cell
new_cell ch attrs = record { ch = ch; attrs = attrs; width = if is_wide ch then 2 else 1 }

pub record Row : Type 0 where
  pub cells : List Cell
  pub wrapped : Bool

-- `Row::blank`.
abbrev pub blank : ℕ → Row
blank cols = record { cells = replicate cols empty_cell; wrapped = false }

-- `char::is_whitespace` of the standard library: the Unicode property White_Space.
unfoldable pub is_whitespace : ℕ → Bool
is_whitespace c =
    within 0x09 0x0D c
    || c == 0x20
    || c == 0x85
    || c == 0xA0
    || c == 0x1680
    || within 0x2000 0x200A c
    || c == 0x2028
    || c == 0x2029
    || c == 0x202F
    || c == 0x205F
    || c == 0x3000

-- A character before what is left of the text behind it.
unfoldable pub trim_keep : ℕ → List ℕ → List ℕ
trim_keep c [] = if is_whitespace c then [] else c ∷ []
trim_keep c (d ∷ ds) = c ∷ d ∷ ds

-- `str::trim_end` of the standard library.
unfoldable pub trim_end : List ℕ → List ℕ
trim_end [] = []
trim_end (c ∷ cs) = trim_keep c (trim_end cs)

-- `Row::text`.
unfoldable pub text : Row → List ℕ
text row = trim_end (map (λ cell. cell.ch) row.cells)
