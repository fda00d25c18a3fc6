-- ===== src/Terminal/Screen/Types.antt =====
-- The types of crates/rdt-terminal/src/term.rs, and the constructor of `Terminal`.
use remote_desktop_tool.Prelude.{
  ℕ, Bool, true, false, List, [], Option, none, some, ◌>>=◌, min, max, modify, replicate,
}
use remote_desktop_tool.Terminal.Grid.{Attrs, plain, Cell, Row, blank}
use remote_desktop_tool.Terminal.Grid.Scrollback
use remote_desktop_tool.Terminal.Grid.Scrollback.{Scrollback}
use remote_desktop_tool.Terminal.Parser.Types as Bytes
use remote_desktop_tool.Terminal.Parser.Types.{Parser}

pub record Modes : Type 0 where
  pub cursor_visible : Bool
  pub application_cursor_keys : Bool
  pub application_keypad : Bool
  pub bracketed_paste : Bool
  pub origin : Bool
  pub auto_wrap : Bool
  pub alternate_screen : Bool
  pub insert : Bool

pub record Cursor : Type 0 where
  pub row : ℕ
  pub col : ℕ
  pub attrs : Attrs

-- `Cursor::default`.
abbrev pub home : Cursor
home = record { row = 0; col = 0; attrs = plain }

pub record Terminal : Type 0 where
  pub cols : ℕ
  pub rows : ℕ
  pub screen : List Row
  pub saved_screen : Option (List Row)
  pub saved_cursor : Option Cursor
  pub scrollback : Scrollback Row
  pub cursor : Cursor
  pub modes : Modes
  pub region_top : ℕ
  pub region_bottom : ℕ
  pub title : List ℕ
  pub dirty : Bool
  pub parser : Parser
  pub wrap_pending : Bool
  pub bell_count : ℕ

abbrev pub default_scrollback : ℕ
default_scrollback = 10000

-- `n.clamp(lo, hi)`.
abbrev pub clamp : ℕ → ℕ → ℕ → ℕ
clamp lo hi n = min (max n lo) hi

abbrev pub default_modes : Modes
default_modes = record {
  cursor_visible = true;
  application_cursor_keys = false;
  application_keypad = false;
  bracketed_paste = false;
  origin = false;
  auto_wrap = true;
  alternate_screen = false;
  insert = false;
}

-- The body of `Terminal::new`, after its arguments are clamped.
unfoldable pub new_clamped : ℕ → ℕ → Terminal
new_clamped cols rows = record {
  cols = cols;
  rows = rows;
  screen = replicate rows (blank cols);
  saved_screen = none;
  saved_cursor = none;
  scrollback = Scrollback.new default_scrollback;
  cursor = home;
  modes = default_modes;
  region_top = 0;
  region_bottom = rows;
  title = [];
  dirty = true;
  parser = Bytes.new;
  wrap_pending = false;
  bell_count = 0;
}

unfoldable pub new : ℕ → ℕ → Terminal
unfolding new_clamped
new cols rows = new_clamped (clamp 1 500 cols) (clamp 1 200 rows)

-- `self.cursor.row = row`, and so on.
abbrev pub set_row : Terminal → ℕ → Terminal
set_row t row = record t { cursor = record (t.cursor) { row = row } }

abbrev pub set_col : Terminal → ℕ → Terminal
set_col t col = record t { cursor = record (t.cursor) { col = col } }

abbrev pub set_attrs : Terminal → Attrs → Terminal
set_attrs t attrs = record t { cursor = record (t.cursor) { attrs = attrs } }

abbrev pub mark_dirty : Terminal → Terminal
mark_dirty t = record t { dirty = true }

-- `self.screen[row].cells = f(..)`, where `f` may panic.
abbrev pub edit_row : ℕ → (List Cell → Option (List Cell)) → List Row → Option (List Row)
edit_row row f screen =
    modify screen row (λ r. do cells ← f r.cells; some (record r { cells = cells }))

-- `self.screen[row].cells[col] = cell`.
abbrev pub write_cell : ℕ → ℕ → Cell → List Row → Option (List Row)
write_cell row col cell screen = edit_row row (λ cells. modify cells col (λ old. some cell)) screen
