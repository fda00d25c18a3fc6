-- ===== src/Terminal/Screen/Attributes.antt =====
-- `sgr` and `take_extended_color` of crates/rdt-terminal/src/term.rs. The index into `params` is
-- the list of the parameters that are left.
use remote_desktop_tool.Prelude.{
  ℕ, zero, suc, ◌-◌, ◌%◌, true, false, ◌||◌, List, [], ◌∷◌, Option, none, some, ◌==◌, within,
  if◌then◌else◌, length,
}
use remote_desktop_tool.Terminal.Grid.{Color, normal, bright, Attrs, plain}
use remote_desktop_tool.Terminal.Screen.Types.{Terminal, set_attrs}

abbrev pub take_indexed : List ℕ → Option Color × List ℕ
take_indexed [] = (none, [])
take_indexed (value ∷ rest) = (some (Color.indexed (value % 256)), rest)

abbrev pub take_rgb : List ℕ → Option Color × List ℕ
take_rgb (r ∷ g ∷ b ∷ rest) = (some (Color.rgb (r % 256) (g % 256) (b % 256)), rest)
take_rgb rest = (none, rest)

-- The colour, and the parameters after it. `as u8` keeps the low byte. Where a value is missing,
-- the kind alone is taken.
unfoldable pub take_extended_color : List ℕ → Option Color × List ℕ
take_extended_color [] = (none, [])
take_extended_color (kind ∷ rest) =
    if kind == 5 then take_indexed rest else if kind == 2 then take_rgb rest else (none, rest)

-- The codes that take no further parameter.
unfoldable pub sgr_simple : ℕ → Attrs → Attrs
sgr_simple code a =
    if code == 0
    then plain
    else if code == 1
    then record a { bold = true }
    else if code == 2
    then record a { dim = true }
    else if code == 3
    then record a { italic = true }
    else if code == 4
    then record a { underline = true }
    else if code == 5 || code == 6
    then record a { blink = true }
    else if code == 7
    then record a { inverse = true }
    else if code == 8
    then record a { hidden = true }
    else if code == 9
    then record a { strikethrough = true }
    else if code == 21
    then record a { bold = false }
    else if code == 22
    then record a { bold = false; dim = false }
    else if code == 23
    then record a { italic = false }
    else if code == 24
    then record a { underline = false }
    else if code == 25
    then record a { blink = false }
    else if code == 27
    then record a { inverse = false }
    else if code == 28
    then record a { hidden = false }
    else if code == 29
    then record a { strikethrough = false }
    else if within 30 37 code
    then record a { fg = normal (code - 30) }
    else if code == 39
    then record a { fg = Color.default }
    else if within 40 47 code
    then record a { bg = normal (code - 40) }
    else if code == 49
    then record a { bg = Color.default }
    else if within 90 97 code
    then record a { fg = bright (code - 90) }
    else if within 100 107 code
    then record a { bg = bright (code - 100) }
    else a

abbrev pub set_fg : Option Color → Attrs → Attrs
set_fg none a = a
set_fg (some color) a = record a { fg = color }

abbrev pub set_bg : Option Color → Attrs → Attrs
set_bg none a = a
set_bg (some color) a = record a { bg = color }

-- One round of the loop: the attributes, and the parameters that are left.
unfoldable pub sgr_step : ℕ → List ℕ → Attrs → Attrs × List ℕ
sgr_step code rest a =
    if code == 38
    then (let (color, left) = take_extended_color rest in (set_fg color a, left))
    else if code == 48
    then (let (color, left) = take_extended_color rest in (set_bg color a, left))
    else (sgr_simple code a, rest)

-- `while index < params.len()`, on fuel.
unfoldable pub sgr_loop : ℕ → List ℕ → Attrs → Attrs
sgr_loop zero params a = a
sgr_loop (suc fuel) [] a = a
sgr_loop (suc fuel) (code ∷ rest) a = let (b, left) = sgr_step code rest a in sgr_loop fuel left b

unfoldable pub sgr : Terminal → List ℕ → Terminal
sgr t [] = set_attrs t plain
sgr t (code ∷ rest) = set_attrs t (sgr_loop (length (code ∷ rest)) (code ∷ rest) t.cursor.attrs)
