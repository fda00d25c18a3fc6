-- ===== src/Terminal/Screen/Tests.antt =====
-- The theorems on the terminal at concrete inputs.
use remote_desktop_tool.Prelude.{ℕ, ◌≡◌, false, refl, List, [], ◌∷◌, some, arith}
use remote_desktop_tool.Terminal.Screen.Styles.{Style, simple, foreground, background}
use remote_desktop_tool.Terminal.Grid.{Color, plain, new_cell, is_wide}
use remote_desktop_tool.Terminal.Screen.Types.{Cursor, Terminal, clamp, new}
use remote_desktop_tool.Terminal.Screen.Write.{print}
use remote_desktop_tool.Terminal.Screen.{advance, resize}
use remote_desktop_tool.Terminal.Screen.Valid.{IsValid, new-IsValid}
use remote_desktop_tool.Terminal.Screen.Valid.Sequences.{advance-IsValid}
use remote_desktop_tool.Terminal.Screen.Valid.Resize.{resize-IsValid}
use remote_desktop_tool.Terminal.Screen.Content.{OnlyCell, print-narrow}

abbrev small : Terminal
small = new 4 3

-- "ab", a new line, and `CSI 2 J`.
abbrev input : List ℕ
input = b'a' ∷ b'b' ∷ 0x0D ∷ 0x0A ∷ 0x1B ∷ b'[' ∷ b'2' ∷ b'J' ∷ []

advance-IsValid_example : (u : Terminal) × (advance small input ≡ some u) × IsValid u
advance-IsValid_example = advance-IsValid small input (new-IsValid 4 3)

resize-IsValid_example :
    (u : Terminal) × (resize small 6 2 ≡ some u)
    × IsValid u
    × (u.cols ≡ clamp 1 500 6)
    × (u.rows ≡ clamp 1 200 2)
unfolding new
resize-IsValid_example = resize-IsValid small 6 2 (new-IsValid 4 3) refl tt

abbrev low : Cursor
low = record { row = 2; col = 1; attrs = plain }

-- A terminal whose saved cursor is in its last row.
abbrev with_saved : Terminal
with_saved = record small { saved_cursor = some low }

with_saved-IsValid : IsValid with_saved
unfolding new
with_saved-IsValid =
    let v = new-IsValid 4 3 in
    record {
      size = v.size;
      screen_fits = v.screen_fits;
      cursor_fits = v.cursor_fits;
      region_fits = v.region_fits;
      saved_screen_fits = tt;
      saved_cursor_fits = omega arith;
      parser_fits = v.parser_fits;
    }

-- "x" at home.
print-narrow_example :
    (u : Terminal) × (print small b'x' ≡ some u)
    × OnlyCell small.screen u.screen 0 0 (new_cell b'x' plain)
    × (u.cursor.row ≡ 0)
    × (u.cursor.col ≡ 1)
    × (u.wrap_pending ≡ false)
unfolding new is_wide
print-narrow_example = print-narrow small b'x' (new-IsValid 4 3) refl refl (omega arith) refl refl

-- Bold, palette colour 202 and an RGB background.
abbrev styles : List Style
styles = simple 1 ∷ foreground (Color.indexed 202) ∷ background (Color.rgb 1 2 3) ∷ []
