-- ===== src/Terminal/Screen/Write.antt =====
-- Writing characters and control codes: `print`, `put_char`, `execute`, `backspace` and `tab` of
-- crates/rdt-terminal/src/term.rs. `none` is a panic.
use remote_desktop_tool.Prelude.{
  ℕ, ◌+◌, ◌-◌, ◌*◌, ◌/◌, ◌%◌, ◌^◌, true, false, ◌&&◌, ◌||◌, List, Option, some, ◌>>=◌, ◌==◌, ltb,
  leb, if◌then◌else◌, length, take, min, insert, repeat,
}
use remote_desktop_tool.Terminal.Grid.{Cell, Row, is_wide, empty_cell, new_cell}
use remote_desktop_tool.Terminal.Screen.Types.{Terminal, set_col, mark_dirty, edit_row, write_cell}
use remote_desktop_tool.Terminal.Screen.Scroll.{line_feed}

-- The end of `put_char`: the cursor moves on, or waits at the right margin.
unfoldable pub move_on : Terminal → ℕ → Terminal
move_on t width =
    let col = t.cursor.col + width in
    if leb t.cols col
    then (if t.modes.auto_wrap
        then record (set_col t t.cols) { wrap_pending = true }
        else set_col t (t.cols - 1))
    else set_col t col

-- The second column of a wide glyph.
abbrev pub second_half : Cell → Cell
second_half cell = record { ch = b' '; attrs = cell.attrs; width = 1 }

-- `if cell.width == 2 && col + 1 < self.cols`.
unfoldable pub write_second : ℕ → ℕ → ℕ → Cell → List Row → Option (List Row)
write_second cols row col cell screen =
    if cell.width == 2 && ltb (col + 1) cols
    then write_cell row (col + 1) (second_half cell) screen
    else some screen

unfoldable pub put_char : Terminal → ℕ → Option Terminal
put_char t ch =
    let cell = new_cell ch t.cursor.attrs in
    let row = t.cursor.row in
    let col = t.cursor.col in
    if leb t.cols col then some t else do
      written ← write_cell row col cell t.screen
      screen ← write_second t.cols row col cell written
      some (move_on (record t { screen = screen; dirty = true }) cell.width)

-- The loop of insert mode, on the cells of the cursor's row.
unfoldable pub shift_right : ℕ → ℕ → ℕ → List Cell → Option (List Cell)
shift_right cols col width cells =
    repeat width
      (λ row. do longer ← insert row (min col (length row)) empty_cell; some (take cols longer))
      cells

unfoldable pub make_room : Terminal → ℕ → Option Terminal
make_room t ch =
    let width = if is_wide ch then 2 else 1 in
    do
      screen ← edit_row t.cursor.row (shift_right t.cols t.cursor.col width) t.screen
      some (record t { screen = screen })

-- `if self.wrap_pending`, the first part of `print`.
unfoldable pub wrap_line : Terminal → Option Terminal
wrap_line t =
    if t.wrap_pending
    then (do u ← line_feed t; some (record (set_col u 0) { wrap_pending = false }))
    else some t

unfoldable pub print : Terminal → ℕ → Option Terminal
print t ch = do
  u ← wrap_line t
  v ← (if u.modes.insert then make_room u ch else some u)
  put_char v ch

-- `-` is `saturating_sub`.
unfoldable pub backspace : Terminal → Terminal
backspace t = record (set_col t (t.cursor.col - 1)) { wrap_pending = false }

unfoldable pub tab : Terminal → Terminal
tab t = set_col t (min ((t.cursor.col / 8 + 1) * 8) (t.cols - 1))

-- `bell_count` is a `u64`, and the release profile wraps.
unfoldable pub execute : Terminal → ℕ → Option Terminal
execute t code = do
  u ←
      (if code == 0x07
        then some (record t { bell_count = (t.bell_count + 1) % 2 ^ 64 })
        else if code == 0x08
        then some (backspace t)
        else if code == 0x09
        then some (tab t)
        else if code == 0x0A || code == 0x0B || code == 0x0C
        then line_feed t
        else if code == 0x0D
        then some (record (set_col t 0) { wrap_pending = false })
        else some t)
  some (mark_dirty u)
