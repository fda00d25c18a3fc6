-- ===== src/Terminal/Screen/Erase.antt =====
-- Erasing, and moving characters in a line: `erase_display`, `erase_line`, `erase_line_part`,
-- `clear_row`, `delete_chars`, `insert_chars` and `erase_chars` of
-- crates/rdt-terminal/src/term.rs. `none` is a panic.
use remote_desktop_tool.Prelude.{
  ℕ, zero, suc, ◌+◌, ◌-◌, false, List, [], ◌∷◌, ◌++◌, Option, some, ◌>>=◌, map, ◌==◌, ltb,
  if◌then◌else◌, length, take, min, remove, insert, repeat, modify,
}
use remote_desktop_tool.Terminal.Grid.{Cell, Row, empty_cell, new_cell}
use remote_desktop_tool.Terminal.Grid.Scrollback
use remote_desktop_tool.Terminal.Screen.Types.{Terminal, home, edit_row, write_cell}

-- `for i in from..from + n`, where a round may panic.
unfoldable pub for_range {ℓ} : {S : Type ℓ} → ℕ → ℕ → (ℕ → S → Option S) → S → Option S
for_range zero from body s = some s
for_range (suc n) from body s = do u ← body from s; for_range n (from + 1) body u

abbrev pub with_screen : Terminal → Option (List Row) → Option Terminal
with_screen t screen = do s ← screen; some (record t { screen = s })

-- The loop is over `from.min(cols)..to.min(cols)`, which is empty where it would run backwards.
unfoldable pub erase_line_part : Terminal → ℕ → ℕ → Option Terminal
erase_line_part t from to =
    let first = min from t.cols in
    with_screen t (
      for_range (min to t.cols - first) first
        (λ col. write_cell t.cursor.row col (new_cell b' ' t.cursor.attrs)) t.screen)

abbrev pub cleared : Row → Row
cleared row = record { cells = map (λ cell. empty_cell) row.cells; wrapped = false }

unfoldable pub clear_row : ℕ → List Row → Option (List Row)
clear_row row screen = modify screen row (λ r. some (cleared r))

-- The loop `for row in from..to`.
unfoldable pub clear_rows : ℕ → ℕ → Terminal → Option Terminal
clear_rows from to t = with_screen t (for_range (to - from) from clear_row t.screen)

unfoldable pub erase_display : Terminal → ℕ → Option Terminal
erase_display t mode =
    if mode == 0
    then (do u ← erase_line_part t t.cursor.col t.cols; clear_rows (u.cursor.row + 1) u.rows u)
    else if mode == 1
    then (do u ← clear_rows 0 t.cursor.row t; erase_line_part u 0 (u.cursor.col + 1))
    else do
      u ← clear_rows 0 t.rows t
      some (record u { scrollback = Scrollback.clear u.scrollback; cursor = home })

unfoldable pub erase_line : Terminal → ℕ → Option Terminal
erase_line t mode =
    if mode == 0
    then erase_line_part t t.cursor.col t.cols
    else if mode == 1
    then erase_line_part t 0 (t.cursor.col + 1)
    else erase_line_part t 0 t.cols

-- One round of `delete_chars`, on the cells of the cursor's row.
unfoldable pub delete_char : ℕ → List Cell → Option (List Cell)
delete_char col cells = do
  kept ← (if ltb col (length cells) then (do r ← remove cells col; some r.1) else some cells)
  some (kept ++ (empty_cell ∷ []))

-- A loop over the cells of the cursor's row; with no round the row is not looked at.
abbrev pub edit_line : Terminal → ℕ → (List Cell → Option (List Cell)) → Option Terminal
edit_line t count body = with_screen t (repeat count (edit_row t.cursor.row body) t.screen)

unfoldable pub delete_chars : Terminal → ℕ → Option Terminal
delete_chars t count = edit_line t count (delete_char t.cursor.col)

-- One round of `insert_chars`.
unfoldable pub insert_char : ℕ → ℕ → List Cell → Option (List Cell)
insert_char cols col cells = do
  longer ← insert cells (min col (length cells - 1)) empty_cell
  some (take cols longer)

unfoldable pub insert_chars : Terminal → ℕ → Option Terminal
insert_chars t count = edit_line t count (insert_char t.cols t.cursor.col)

-- One round of `erase_chars`, at one column.
unfoldable pub erase_char : Terminal → ℕ → List Row → Option (List Row)
erase_char t col screen =
    if ltb col t.cols
    then write_cell t.cursor.row col (new_cell b' ' t.cursor.attrs) screen
    else some screen

unfoldable pub erase_chars : Terminal → ℕ → Option Terminal
erase_chars t count = with_screen t (for_range count t.cursor.col (erase_char t) t.screen)
