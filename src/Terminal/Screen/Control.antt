-- ===== src/Terminal/Screen/Control.antt =====
-- `csi`, `esc`, `osc`, `set_private_mode`, `switch_screen` and the cursor moves of
-- crates/rdt-terminal/src/term.rs. `none` is a panic.
use remote_desktop_tool.Prelude.{
  ℕ, ◌+◌, ◌-◌, Bool, true, false, ◌&&◌, ◌||◌, List, [], ◌∷◌, Option, none, some, ◌>>=◌, ◌==◌, ltb,
  leb, if◌then◌else◌, get_elem?, min, max, replicate, ◌%◌, ◌^◌,
}
use remote_desktop_tool.Terminal.Grid.{Row, blank}
use remote_desktop_tool.Terminal.Screen.Types.{
  Terminal, Cursor, home, new, set_row, set_col, mark_dirty,
}
use remote_desktop_tool.Terminal.Screen.Scroll.{
  line_feed, reverse_index, scroll_up, scroll_down, insert_lines, delete_lines,
}
use remote_desktop_tool.Terminal.Screen.Erase.{
  erase_display, erase_line, delete_chars, insert_chars, erase_chars,
}
use remote_desktop_tool.Terminal.Screen.Attributes.{sgr}

abbrev pub contains : List ℕ → ℕ → Bool
contains [] a = false
contains (x ∷ xs) a = x == a || contains xs a

-- `-` is `saturating_sub` in these four.
unfoldable pub move_cursor_up : Terminal → ℕ → Terminal
move_cursor_up t count = record (set_row t (max (t.cursor.row - count) t.region_top)) {
  wrap_pending = false;
}

unfoldable pub move_cursor_down : Terminal → ℕ → Terminal
move_cursor_down t count = record (set_row t (min (t.cursor.row + count) (t.rows - 1))) {
  wrap_pending = false;
}

unfoldable pub move_cursor_right : Terminal → ℕ → Terminal
move_cursor_right t count = record (set_col t (min (t.cursor.col + count) (t.cols - 1))) {
  wrap_pending = false;
}

unfoldable pub move_cursor_left : Terminal → ℕ → Terminal
move_cursor_left t count = record (set_col t (t.cursor.col - count)) { wrap_pending = false }

unfoldable pub clamp_row : Terminal → ℕ → ℕ
clamp_row t row =
    if t.modes.origin then min (row + t.region_top) (t.rows - 1) else min row (t.rows - 1)

abbrev pub zero_or : ℕ → Option ℕ → ℕ
zero_or default none = default
zero_or default (some value) = if value == 0 then default else value

-- The closure `param` of `csi`.
abbrev pub param : List ℕ → ℕ → ℕ → ℕ
param params index default = zero_or default (get_elem? params index)

-- `H` and `f`.
unfoldable pub cursor_position : Terminal → List ℕ → Terminal
cursor_position t params =
    let row = clamp_row t (param params 0 1 - 1) in
    let col = min (param params 1 1 - 1) (t.cols - 1) in
    record (set_col (set_row t row) col) { wrap_pending = false }

-- `r`. `rows` is at most 200, so `as u16` keeps it.
unfoldable pub set_region : Terminal → List ℕ → Terminal
set_region t params =
    let top = param params 0 1 - 1 in
    let bottom = param params 1 (t.rows % 2 ^ 16) in
    if ltb top bottom && leb bottom t.rows
    then set_col
        (set_row (record t { region_top = top; region_bottom = bottom })
          (if t.modes.origin then top else 0))
        0
    else t

abbrev pub save_cursor : Terminal → Terminal
save_cursor t = record t { saved_cursor = some t.cursor }

-- `if let Some(cursor) = self.saved_cursor`.
abbrev pub restored : Option Cursor → Cursor → Cursor
restored none cursor = cursor
restored (some saved) cursor = saved

abbrev pub restore_cursor : Terminal → Terminal
restore_cursor t = record t { cursor = restored t.saved_cursor t.cursor }

abbrev pub set_insert : Terminal → Bool → Terminal
set_insert t enable = record t { modes = record (t.modes) { insert = enable } }

-- The `else if` of `switch_screen`: back to the main screen, if one was saved.
abbrev pub leave_alternate : Option (List Row) → Terminal → Terminal
leave_alternate none t = t
leave_alternate (some screen) t = restore_cursor (record t { screen = screen; saved_screen = none })

unfoldable pub switch_screen : Terminal → Bool → Terminal
switch_screen t true = if t.modes.alternate_screen then t else record t {
  saved_screen = some t.screen;
  screen = replicate t.rows (blank t.cols);
  saved_cursor = some t.cursor;
  cursor = home;
  modes = record (t.modes) { alternate_screen = true };
  dirty = true;
}
switch_screen t false =
    if t.modes.alternate_screen
    then (let u = leave_alternate t.saved_screen t in
        record u { modes = record (u.modes) { alternate_screen = false }; dirty = true })
    else t

unfoldable pub set_private_mode : Terminal → ℕ → Bool → Terminal
set_private_mode t mode enable = mark_dirty (
    if mode == 1
    then record t { modes = record (t.modes) { application_cursor_keys = enable } }
    else if mode == 4
    then set_insert t enable
    else if mode == 6
    then set_col
        (set_row (record t { modes = record (t.modes) { origin = enable } })
          (if enable then t.region_top else 0))
        0
    else if mode == 7
    then record t { modes = record (t.modes) { auto_wrap = enable } }
    else if mode == 25
    then record t { modes = record (t.modes) { cursor_visible = enable } }
    else if mode == 47 || mode == 1047 || mode == 1049
    then switch_screen t enable
    else if mode == 1048
    then (if enable then save_cursor t else restore_cursor t)
    else if mode == 2004
    then record t { modes = record (t.modes) { bracketed_paste = enable } }
    else t)

-- The arms of the second `match` of `csi`; those that do nothing are the last line.
unfoldable pub csi_action : Terminal → List ℕ → ℕ → Option Terminal
csi_action t params action =
    let first = param params 0 1 in
    if action == b'A'
    then some (move_cursor_up t first)
    else if action == b'B' || action == b'e'
    then some (move_cursor_down t first)
    else if action == b'C' || action == b'a'
    then some (move_cursor_right t first)
    else if action == b'D'
    then some (move_cursor_left t first)
    else if action == b'E'
    then some (set_col (move_cursor_down t first) 0)
    else if action == b'F'
    then some (set_col (move_cursor_up t first) 0)
    else if action == b'G' || action == b'`'
    then some (set_col t (min (first - 1) (t.cols - 1)))
    else if action == b'H' || action == b'f'
    then some (cursor_position t params)
    else if action == b'd'
    then some (set_row t (clamp_row t (first - 1)))
    else if action == b'J'
    then erase_display t (param params 0 0)
    else if action == b'K'
    then erase_line t (param params 0 0)
    else if action == b'L'
    then insert_lines t first
    else if action == b'M'
    then delete_lines t first
    else if action == b'P'
    then delete_chars t first
    else if action == b'@'
    then insert_chars t first
    else if action == b'X'
    then erase_chars t first
    else if action == b'S'
    then scroll_up t first
    else if action == b'T'
    then scroll_down t first
    else if action == b'r'
    then some (set_region t params)
    else if action == b's'
    then some (save_cursor t)
    else if action == b'u'
    then some (restore_cursor t)
    else if action == b'm'
    then some (sgr t params)
    else if action == b'h'
    then some (if param params 0 0 == 4 then set_insert t true else t)
    else if action == b'l'
    then some (if param params 0 0 == 4 then set_insert t false else t)
    else some t

unfoldable pub csi : Terminal → List ℕ → List ℕ → ℕ → Option Terminal
csi t params intermediates action =
    if contains intermediates b'?'
    then some (set_private_mode t (param params 0 0) (action == b'h'))
    else do u ← csi_action t params action; some (mark_dirty u)

-- The intermediates are not looked at.
unfoldable pub esc : Terminal → List ℕ → ℕ → Option Terminal
esc t intermediates action = do
  u ←
      (if action == b'7'
        then some (save_cursor t)
        else if action == b'8'
        then some (restore_cursor t)
        else if action == b'D'
        then line_feed t
        else if action == b'M'
        then reverse_index t
        else if action == b'E'
        then line_feed (set_col t 0)
        else if action == b'c'
        then some (new t.cols t.rows)
        else if action == b'='
        then some (record t { modes = record (t.modes) { application_keypad = true } })
        else if action == b'>'
        then some (record t { modes = record (t.modes) { application_keypad = false } })
        else some t)
  some (mark_dirty u)

-- The kinds "0", "1" and "2" set the title.
abbrev pub is_title : List ℕ → Bool
is_title (c ∷ []) = c == b'0' || c == b'1' || c == b'2'
is_title _ = false

unfoldable pub osc : Terminal → List (List ℕ) → Terminal
osc t (kind ∷ title ∷ rest) = if is_title kind then record t { title = title } else t
osc t _ = t
