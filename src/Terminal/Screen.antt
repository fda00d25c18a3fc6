-- ===== src/Terminal/Screen.antt =====
-- crates/rdt-terminal/src/term.rs: the actions of the parser applied to the screen.
-- `none` is a panic: an index out of range in a `Vec`.
pub mod Types
pub mod Scroll
pub mod Write
pub mod Erase
pub mod Attributes
pub mod Control
pub mod Valid
pub mod Chunks
pub mod Styles
pub mod Content
pub mod History
mod Tests
use remote_desktop_tool.Prelude.{
  ℕ, ◌-◌, Bool, true, false, not, ◌&&◌, List, [], ◌∷◌, ◌++◌, Option, none, some, ◌>>=◌, map, ◌==◌,
  ltb, leb, if◌then◌else◌, length, take, drop, replicate, min,
}
use remote_desktop_tool.Terminal.Grid.{Cell, Row, empty_cell, blank}
use remote_desktop_tool.Terminal.Grid.Scrollback
use remote_desktop_tool.Terminal.Parser
use remote_desktop_tool.Terminal.Parser.Types.{Action}
use remote_desktop_tool.Terminal.Screen.Types.{Terminal, Cursor, home, clamp}
use remote_desktop_tool.Terminal.Screen.Write.{print, execute}
use remote_desktop_tool.Terminal.Screen.Erase.{cleared}
use remote_desktop_tool.Terminal.Screen.Control.{csi, esc, osc}

unfoldable pub apply : Terminal → Action → Option Terminal
apply t (Action.print ch) = print t ch
apply t (Action.execute code) = execute t code
apply t (Action.csi params intermediates ignore action) =
    if not ignore then csi t params intermediates action else some t
apply t (Action.esc intermediates ignore action) =
    if not ignore then esc t intermediates action else some t
apply t (Action.osc params bell_terminated) = some (osc t params)
apply t _ = some t

-- The loop of `advance`.
unfoldable pub apply_all : Terminal → List Action → Option Terminal
apply_all t [] = some t
apply_all t (a ∷ actions) = do u ← apply t a; apply_all u actions

-- `advance`: the parser runs over all the bytes before the first action is applied.
unfoldable pub advance : Terminal → List ℕ → Option Terminal
advance t bytes = do
  parsed ← Parser.advance t.parser bytes
  apply_all (record t { parser = parsed.0 }) parsed.1

pub record Snapshot : Type 0 where
  pub rows : List Row
  pub cursor : Cursor
  pub cursor_visible : Bool
  pub title : List ℕ
  pub scrollback_lines : ℕ
  pub dirty : Bool

unfoldable pub snapshot : Terminal → Snapshot × Terminal
snapshot t = (
  record {
    rows = t.screen;
    cursor = t.cursor;
    cursor_visible = t.modes.cursor_visible && not t.modes.alternate_screen;
    title = t.title;
    scrollback_lines = length t.scrollback.lines;
    dirty = t.dirty;
  },
  record t { dirty = false },
)

-- `Vec::resize`.
abbrev pub resized {ℓ} : {A : Type ℓ} → ℕ → A → List A → List A
resized n v xs = take n xs ++ replicate (n - length xs) v

abbrev pub resize_row : ℕ → Row → Row
resize_row cols row = record row { cells = resized cols empty_cell row.cells }

-- The number of rows changes: blank ones are added below, or the first ones retire to the
-- scrollback. `drain(0..removed)` panics past the end.
unfoldable pub resize_rows : ℕ → Terminal → Option Terminal
resize_rows rows t =
    if ltb t.rows rows
    then some (record t { screen = resized rows (blank t.cols) t.screen })
    else if leb (t.rows - rows) (length t.screen)
    then some (record t {
      screen = drop (t.rows - rows) t.screen;
      scrollback = Scrollback.push_all t.scrollback (take (t.rows - rows) t.screen);
    })
    else none

-- The rest of `resize`: the region is the whole screen, and the cursor is moved into it.
abbrev pub resize_cursor : ℕ → ℕ → Cursor → Cursor
resize_cursor cols rows cursor = record cursor {
  row = min cursor.row (rows - 1);
  col = min cursor.col (cols - 1);
}

unfoldable pub resize_clamped : Terminal → ℕ → ℕ → Option Terminal
resize_clamped t cols rows = if cols == t.cols && rows == t.rows then some t else do
  u ← resize_rows rows (record t { cols = cols; screen = map (resize_row cols) t.screen })
  some (record u {
    rows = rows;
    region_top = 0;
    region_bottom = rows;
    cursor = resize_cursor cols rows u.cursor;
    dirty = true;
  })

unfoldable pub resize : Terminal → ℕ → ℕ → Option Terminal
resize t cols rows = resize_clamped t (clamp 1 500 cols) (clamp 1 200 rows)

unfoldable pub clear_all : Terminal → Terminal
clear_all t = record t {
  screen = map cleared t.screen;
  scrollback = Scrollback.clear t.scrollback;
  cursor = home;
  dirty = true;
}

unfoldable pub reset_parser : Terminal → Terminal
reset_parser t = record t { parser = Parser.reset t.parser; wrap_pending = false }
