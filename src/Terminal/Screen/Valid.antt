-- ===== src/Terminal/Screen/Valid.antt =====
-- The invariant of the terminal of crates/rdt-terminal/src/term.rs, and how it is rebuilt after a
-- change of one component.
pub mod Scroll
pub mod Write
pub mod Erase
pub mod Control
pub mod Sequences
pub mod Resize
use remote_desktop_tool.Prelude.{
  ℕ, ◌+◌, ◌-◌, ◌≤◌, ◌<◌, ◌≡◌, refl, Bool, true, false, List, Option, none, some, arith, ◌>>=◌, min,
  max, if◌then◌else◌, length, replicate, length-replicate, All, All-replicate, Ensures,
  Ensures-bind, Sized, modify, modify-Sized, modify-length, weaken-Ensures,
}
use remote_desktop_tool.Terminal.Grid.{Cell, Row, blank, empty_cell}
use remote_desktop_tool.Terminal.Grid.Scrollback.{Scrollback}
use remote_desktop_tool.Terminal.Parser.Types.{Parser}
use remote_desktop_tool.Terminal.Parser.WellFormed.{WellFormed, new-WellFormed}
use remote_desktop_tool.Terminal.Screen.Types.{
  set_row, set_col, edit_row, write_cell, Cursor, Terminal, clamp, new_clamped, new,
}

abbrev pub OptionAll {ℓ} : {A : Type ℓ} → (A → Type 0) → Option A → Type 0
OptionAll P none = Unit
OptionAll P (some a) = P a

-- A row has a cell for every column. It may be longer: `delete_chars` past the end of a line
-- pushes cells and removes none.
abbrev pub Fits : ℕ → Row → Type 0
Fits cols row = cols ≤ length row.cells

abbrev pub ScreenFits : ℕ → ℕ → List Row → Type 0
ScreenFits cols rows screen = Sized (Fits cols) rows screen

-- The column may be one past the last: the cursor then waits to wrap.
pub record CursorFits (cols rows : ℕ) (cursor : Cursor) : Type 0 where
  pub row_lt : cursor.row < rows
  pub col_le : cursor.col ≤ cols

pub record RegionFits (rows top bottom : ℕ) : Type 0 where
  pub top_lt : top < bottom
  pub bottom_le : bottom ≤ rows

pub record SizeFits (cols rows : ℕ) : Type 0 where
  pub cols_pos : 1 ≤ cols
  pub cols_le : cols ≤ 500
  pub rows_pos : 1 ≤ rows
  pub rows_le : rows ≤ 200

pub record Fields (cols rows : ℕ) (screen : List Row) (cursor : Cursor) (top bottom : ℕ)
    (saved_screen : Option (List Row)) (saved_cursor : Option Cursor) (parser : Parser)
    : Type 0 where
  pub size : SizeFits cols rows
  pub screen_fits : ScreenFits cols rows screen
  pub cursor_fits : CursorFits cols rows cursor
  pub region_fits : RegionFits rows top bottom
  pub saved_screen_fits : OptionAll (ScreenFits cols rows) saved_screen
  pub saved_cursor_fits : OptionAll (CursorFits cols rows) saved_cursor
  pub parser_fits : WellFormed parser

abbrev pub IsValid : Terminal → Type 0
IsValid t =
    Fields t.cols t.rows t.screen t.cursor t.region_top t.region_bottom t.saved_screen
      t.saved_cursor t.parser

-- The step does not panic, and leaves a valid terminal.
abbrev pub Safe : Option Terminal → Type 0
Safe = Ensures IsValid

pub Safe-bind :
    (m : Option Terminal) (f : Terminal → Option Terminal)
    → Safe m
    → ((t : Terminal) → IsValid t → Safe (f t))
    → Safe (m >>= f)
Safe-bind = Ensures-bind IsValid IsValid

pub Ensures-if {ℓ} :
    {A : Type ℓ} (P : A → Type 0) (b : Bool) (x y : Option A)
    → Ensures P x
    → Ensures P y
    → Ensures P (if b then x else y)
Ensures-if P true x y hx hy = hx
Ensures-if P false x y hx hy = hy

pub blank-Fits : (cols : ℕ) → Fits cols (blank cols)
blank-Fits cols = omega (arith, length-replicate cols empty_cell)

pub blank_screen-Fits : (cols rows : ℕ) → ScreenFits cols rows (replicate rows (blank cols))
blank_screen-Fits cols rows = (
  length-replicate rows (blank cols),
  All-replicate (Fits cols) rows (blank cols) (blank-Fits cols),
)

pub with_screen-IsValid :
    (t : Terminal) (screen : List Row)
    → IsValid t
    → ScreenFits t.cols t.rows screen
    → IsValid (record t { screen = screen })
with_screen-IsValid t screen v s = record {
  size = v.size;
  screen_fits = s;
  cursor_fits = v.cursor_fits;
  region_fits = v.region_fits;
  saved_screen_fits = v.saved_screen_fits;
  saved_cursor_fits = v.saved_cursor_fits;
  parser_fits = v.parser_fits;
}

pub with_cursor-IsValid :
    (t : Terminal) (cursor : Cursor)
    → IsValid t
    → CursorFits t.cols t.rows cursor
    → IsValid (record t { cursor = cursor })
with_cursor-IsValid t cursor v c = record {
  size = v.size;
  screen_fits = v.screen_fits;
  cursor_fits = c;
  region_fits = v.region_fits;
  saved_screen_fits = v.saved_screen_fits;
  saved_cursor_fits = v.saved_cursor_fits;
  parser_fits = v.parser_fits;
}

pub set_row-IsValid : (t : Terminal) (row : ℕ) → IsValid t → row < t.rows → IsValid (set_row t row)
set_row-IsValid t row v h = with_cursor-IsValid t _ v (omega arith)

pub set_col-IsValid : (t : Terminal) (col : ℕ) → IsValid t → col ≤ t.cols → IsValid (set_col t col)
set_col-IsValid t col v h = with_cursor-IsValid t _ v (omega arith)

-- A row stays long enough when its cells do.
pub edit_row-Fits :
    (cols rows row : ℕ) (f : List Cell → Option (List Cell)) (screen : List Row)
    → ((cells : List Cell) → cols ≤ length cells → Ensures (λ c. cols ≤ length c) (f cells))
    → row < rows
    → ScreenFits cols rows screen
    → Ensures (ScreenFits cols rows) (edit_row row f screen)
edit_row-Fits cols rows row f screen keep lt s =
    modify-Sized (Fits cols) screen row rows _
      (λ r fit. Ensures-bind (λ c. cols ≤ length c) _ (f r.cells) _ (keep r.cells fit) (λ c k. k)) s
      lt

pub write_cell-Fits :
    (cols rows row col : ℕ) (cell : Cell) (screen : List Row)
    → row < rows
    → col < cols
    → ScreenFits cols rows screen
    → Ensures (ScreenFits cols rows) (write_cell row col cell screen)
write_cell-Fits cols rows row col cell screen lt inside =
    edit_row-Fits cols rows row _ screen
      (λ cells fit.
        weaken-Ensures _ _ (modify cells col (λ old. some cell)) (λ c k. omega arith)
          (modify-length cells col cell (omega arith)))
      lt

new_clamped-IsValid : (cols rows : ℕ) → SizeFits cols rows → IsValid (new_clamped cols rows)
unfolding new_clamped
new_clamped-IsValid cols rows s = record {
  size = s;
  screen_fits = blank_screen-Fits cols rows;
  cursor_fits = omega arith;
  region_fits = omega arith;
  saved_screen_fits = tt;
  saved_cursor_fits = tt;
  parser_fits = new-WellFormed;
}

-- A new terminal is valid, whatever size is asked for.
pub new-IsValid : (cols rows : ℕ) → IsValid (new cols rows)
unfolding new
new-IsValid cols rows = new_clamped-IsValid (clamp 1 500 cols) (clamp 1 200 rows) (omega arith)
