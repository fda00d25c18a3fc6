-- ===== src/Terminal/Screen/Scroll.antt =====
-- Moving whole lines: `line_feed`, `reverse_index`, `scroll_up`, `scroll_down`, `insert_lines` and
-- `delete_lines` of crates/rdt-terminal/src/term.rs. `none` is a panic.
use remote_desktop_tool.Prelude.{
  ℕ, ◌+◌, ◌-◌, Bool, false, ◌&&◌, ◌||◌, List, Option, some, ◌>>=◌, ◌==◌, ltb, leb, if◌then◌else◌,
  length, remove, insert, repeat,
}
use remote_desktop_tool.Terminal.Grid.{Row, blank}
use remote_desktop_tool.Terminal.Grid.Scrollback
use remote_desktop_tool.Terminal.Grid.Scrollback.{Scrollback}
use remote_desktop_tool.Terminal.Screen.Types.{Terminal, set_row, set_col, mark_dirty}

-- A line that leaves the full screen at its top goes to the scrollback.
abbrev pub retire : Terminal → Row → Scrollback Row
retire t removed =
    if t.region_top == 0 && t.region_bottom == t.rows
    then Scrollback.push t.scrollback removed
    else t.scrollback

-- One round of the loop of `scroll_up`. `region_bottom` is positive, so `-` is `saturating_sub`.
unfoldable pub scroll_up_once : Terminal → Option Terminal
scroll_up_once t = do
  r ← remove t.screen t.region_top
  screen ← insert r.1 (t.region_bottom - 1) (blank t.cols)
  some (record t { screen = screen; scrollback = retire t r.0 })

unfoldable pub scroll_up : Terminal → ℕ → Option Terminal
scroll_up t lines = do u ← repeat lines scroll_up_once t; some (mark_dirty u)

-- `if self.region_bottom <= self.screen.len()`; `region_bottom` is positive.
unfoldable pub drop_bottom : Terminal → Option (List Row)
drop_bottom t =
    if leb t.region_bottom (length t.screen)
    then (do r ← remove t.screen (t.region_bottom - 1); some r.1)
    else some t.screen

-- One round of the loops of `scroll_down` and `insert_lines`: the last line of the region makes
-- room for a blank one at `at`.
unfoldable pub open_line : (Terminal → ℕ) → Terminal → Option Terminal
open_line at t = do
  shorter ← drop_bottom t
  screen ← insert shorter (at t) (blank t.cols)
  some (record t { screen = screen })

unfoldable pub scroll_down : Terminal → ℕ → Option Terminal
scroll_down t lines = do u ← repeat lines (open_line (λ u. u.region_top)) t; some (mark_dirty u)

unfoldable pub line_feed : Terminal → Option Terminal
line_feed t =
    let u = record t { wrap_pending = false } in
    if t.cursor.row + 1 == t.region_bottom
    then scroll_up u 1
    else if ltb (t.cursor.row + 1) t.rows
    then some (set_row u (t.cursor.row + 1))
    else some u

unfoldable pub reverse_index : Terminal → Option Terminal
reverse_index t =
    if t.cursor.row == t.region_top then scroll_down t 1 else some (set_row t (t.cursor.row - 1))

-- `self.cursor.row < self.region_top || self.cursor.row >= self.region_bottom`.
abbrev pub outside_region : Terminal → Bool
outside_region t = ltb t.cursor.row t.region_top || leb t.region_bottom t.cursor.row

unfoldable pub insert_lines : Terminal → ℕ → Option Terminal
insert_lines t count =
    if outside_region t
    then some t
    else do u ← repeat count (open_line (λ u. u.cursor.row)) t; some (set_col u 0)

-- One round of the loop of `delete_lines`.
unfoldable pub close_line : Terminal → Option Terminal
close_line t = do
  r ← remove t.screen t.cursor.row
  screen ← insert r.1 (t.region_bottom - 1) (blank t.cols)
  some (record t { screen = screen })

unfoldable pub delete_lines : Terminal → ℕ → Option Terminal
delete_lines t count =
    if outside_region t then some t else do u ← repeat count close_line t; some (set_col u 0)
