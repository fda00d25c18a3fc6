-- ===== src/Terminal/Screen/Content.antt =====
-- What the operations of crates/rdt-terminal/src/term.rs do to the text on the screen.
use mathlib.Core.Path.{subst}
use native.Mathlib.Decide.{ℕ_discrete}
use remote_desktop_tool.Prelude.{
  get_in_range, modify-set, All, All-get_elem?, ℕ, ◌+◌, ◌<◌, ◌≡◌, ◌≢◌, ◌⊎◌, refl, sym, ◌∙◌, inl,
  inr, arith, true, false, List, Option, some, ◌>>=◌, ◌==◌, leb, if◌then◌else◌, length, get_elem?,
  set, get_elem?-set_self, get_elem?-set_ne,
}
use remote_desktop_tool.Terminal.Grid.{Cell, Row, is_wide, new_cell}
use remote_desktop_tool.Terminal.Screen.Types.{Terminal, write_cell}
use remote_desktop_tool.Terminal.Screen.Write.{move_on, write_second, put_char, wrap_line, print}
use remote_desktop_tool.Terminal.Screen.Valid.{IsValid, Fits}

-- The cell at a row and a column.
abbrev pub cell_at : List Row → ℕ → ℕ → Option Cell
cell_at screen row col = do r ← get_elem? screen row; get_elem? r.cells col

-- `screen'` differs from `screen` in one cell, which is now `cell`.
abbrev pub OnlyCell : List Row → List Row → ℕ → ℕ → Cell → Type 0
OnlyCell screen screen' row col cell =
    (cell_at screen' row col ≡ some cell)
    × ((r c : ℕ) → (r ≢ row) ⊎ (c ≢ col) → cell_at screen' r c ≡ cell_at screen r c)

elsewhere :
    (screen : List Row) (row col : ℕ) (cell : Cell) {r : Row}
    → get_elem? screen row ≡ some r
    → row < length screen
    → (r' c' : ℕ) → (r' ≢ row) ⊎ (c' ≢ col)
    → cell_at (set screen row (record r { cells = set r.cells col cell })) r' c'
      ≡ cell_at screen r' c'
elsewhere screen row col cell {r} e lt r' c' other = elim (ℕ_discrete r' row) [
  | yes same ↦
      rw (same, get_elem?-set_self screen row (record r { cells = set r.cells col cell }) lt, e)
        (get_elem?-set_ne r.cells cell (column other same))
  | no differs ↦
      rw
        (get_elem?-set_ne screen (record r { cells = set r.cells col cell }) (λ q. differs (sym q)))
]
  where
    column : (r' ≢ row) ⊎ (c' ≢ col) → r' ≡ row → col ≢ c'
    column (inl differs) same q = differs same
    column (inr differs) same q = differs (sym q)

only_cell :
    (screen : List Row) (row col : ℕ) (cell : Cell) {r : Row}
    → get_elem? screen row ≡ some r
    → row < length screen
    → col < length r.cells
    → OnlyCell screen (set screen row (record r { cells = set r.cells col cell })) row col cell
only_cell screen row col cell {r} e lt inside = (
  rw (get_elem?-set_self screen row (record r { cells = set r.cells col cell }) lt)
      (get_elem?-set_self r.cells col cell inside),
  elsewhere screen row col cell e lt,
)

-- Writing a cell in range does not panic, and changes that cell alone.
write_cell-OnlyCell :
    (cols row col : ℕ) (cell : Cell) (screen : List Row)
    → row < length screen
    → All (Fits cols) screen
    → col < cols
    → (screen' : List Row) × (write_cell row col cell screen ≡ some screen')
      × OnlyCell screen screen' row col cell
write_cell-OnlyCell cols row col cell screen lt fits inside =
    let (r, e) = get_in_range screen row lt in
    let long = All-get_elem? (Fits cols) screen row fits e in
    let (old, at) = get_in_range r.cells col (omega arith) in
    (
      set screen row (record r { cells = set r.cells col cell }),
      modify-set screen row _ e (rw (modify-set r.cells col (λ x. some cell) at refl)),
      only_cell screen row col cell e lt (omega arith),
    )

move_on-narrow :
    (t : Terminal)
    → t.cursor.col < t.cols
    → t.modes.auto_wrap ≡ true
    → ((move_on t 1).screen ≡ t.screen)
      × (((move_on t 1).cursor.row ≡ t.cursor.row)
          × ((move_on t 1).cursor.col ≡ t.cursor.col + 1)
          × ((move_on t 1).wrap_pending
              ≡ (if t.cursor.col + 1 == t.cols then true else t.wrap_pending)))
unfolding move_on
move_on-narrow t inside auto = ground arith

print-written :
    (t : Terminal) (ch : ℕ) (screen' : List Row)
    → t.wrap_pending ≡ false
    → t.modes.insert ≡ false
    → t.cursor.col < t.cols
    → is_wide ch ≡ false
    → write_cell t.cursor.row t.cursor.col (new_cell ch t.cursor.attrs) t.screen ≡ some screen'
    → print t ch ≡ some (move_on (record t { screen = screen'; dirty = true }) 1)
unfolding print wrap_line put_char write_second
print-written t ch screen' w i inside narrow e =
    let before : leb t.cols t.cursor.col ≡ false = ground arith in rw (w, i, before, e, narrow)

-- In a valid terminal with auto wrap and without insert mode, printing a narrow character inside a
-- line, with no wrap pending, puts it with the cursor's attributes into the cell at the cursor,
-- changes no other cell of the screen, and moves the cursor one column on; a wrap is pending after it
-- exactly when the line is full.
pub print-narrow :
    (t : Terminal) (ch : ℕ)
    → IsValid t
    → t.wrap_pending ≡ false
    → t.modes.insert ≡ false
    → t.cursor.col < t.cols
    → is_wide ch ≡ false
    → t.modes.auto_wrap ≡ true
    → (u : Terminal) × (print t ch ≡ some u)
      × OnlyCell t.screen u.screen t.cursor.row t.cursor.col (new_cell ch t.cursor.attrs)
      × (u.cursor.row ≡ t.cursor.row)
      × (u.cursor.col ≡ t.cursor.col + 1)
      × (u.wrap_pending ≡ (t.cursor.col + 1 == t.cols))
print-narrow t ch v w i inside narrow auto =
    let (screen', e, only) =
      write_cell-OnlyCell t.cols t.cursor.row t.cursor.col (new_cell ch t.cursor.attrs) t.screen
        (omega (arith, v.screen_fits.0)) v.screen_fits.1 inside in
    let written = record t { screen = screen'; dirty = true } in
    let (same, moved) = move_on-narrow written inside auto in
    (
      move_on written 1,
      print-written t ch screen' w i inside narrow e,
      subst (λ s. OnlyCell t.screen s t.cursor.row t.cursor.col (new_cell ch t.cursor.attrs))
          (sym same) only,
      moved.0,
      moved.1,
      moved.2 ∙ rw w (ground arith),
    )
