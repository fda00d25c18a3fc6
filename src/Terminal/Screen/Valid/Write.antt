-- ===== src/Terminal/Screen/Valid/Write.antt =====
-- Printing and the control codes keep the invariant, and do not panic.
use remote_desktop_tool.Prelude.{
  ℕ, ◌+◌, ◌-◌, ◌≤◌, ◌<◌, true, List, some, inl, inr, arith, ◌>>=◌, ◌==◌, ◌&&◌, ◌||◌, ltb, leb,
  if◌then◌else◌, Bool-cases, length, take, min, length-take, insert, Ensures, Ensures-bind,
  repeat-Ensures, insert-length,
}
use remote_desktop_tool.Terminal.Grid.{Cell, Row, is_wide, empty_cell, new_cell}
use remote_desktop_tool.Terminal.Screen.Types.{Terminal, mark_dirty, edit_row, write_cell}
use remote_desktop_tool.Terminal.Screen.Scroll.{line_feed}
use remote_desktop_tool.Terminal.Screen.Write.{
  move_on, second_half, write_second, put_char, shift_right, make_room, wrap_line, print, backspace,
  tab, execute,
}
use remote_desktop_tool.Terminal.Screen.Valid.{
  IsValid, Safe, Safe-bind, Ensures-if, ScreenFits, with_screen-IsValid, set_col-IsValid,
  edit_row-Fits, write_cell-Fits,
}
use remote_desktop_tool.Terminal.Screen.Valid.Scroll.{line_feed-Safe}

move_on-IsValid : (t : Terminal) (width : ℕ) → IsValid t → IsValid (move_on t width)
unfolding move_on
move_on-IsValid t width v = elim (Bool-cases (leb t.cols (t.cursor.col + width))) [
  | inl margin ↦ rw margin (elim (Bool-cases t.modes.auto_wrap) [
    | inl wraps ↦ rw wraps (set_col-IsValid t t.cols v (omega arith))
    | inr stays ↦ rw stays (set_col-IsValid t (t.cols - 1) v (omega arith))
  ])
  | inr inside ↦ rw inside (set_col-IsValid t (t.cursor.col + width) v (ground arith))
]

write_second-Fits :
    (cols rows row col : ℕ) (cell : Cell) (screen : List Row)
    → row < rows
    → ScreenFits cols rows screen
    → Ensures (ScreenFits cols rows) (write_second cols row col cell screen)
unfolding write_second
write_second-Fits cols rows row col cell screen lt h =
    elim (Bool-cases (cell.width == 2 && ltb (col + 1) cols)) [
      | inl wide ↦
          rw wide
            (write_cell-Fits cols rows row (col + 1) (second_half cell) screen lt (ground arith) h)
      | inr narrow ↦ rw narrow h
    ]

pub put_char-Safe : (t : Terminal) (ch : ℕ) → IsValid t → Safe (put_char t ch)
unfolding put_char
put_char-Safe t ch v = elim (Bool-cases (leb t.cols t.cursor.col)) [
  | inl outside ↦ rw outside v
  | inr inside ↦
      let cell = new_cell ch t.cursor.attrs in
      let row = t.cursor.row in
      let col = t.cursor.col in
      let fits = ScreenFits t.cols t.rows in
      rw inside (
        Ensures-bind fits IsValid (write_cell row col cell t.screen) _
          (write_cell-Fits t.cols t.rows row col cell t.screen (omega arith) (ground arith)
            v.screen_fits)
          (λ written h.
            Ensures-bind fits IsValid (write_second t.cols row col cell written) _
              (write_second-Fits t.cols t.rows row col cell written (omega arith) h)
              (λ screen k.
                move_on-IsValid (record t { screen = screen; dirty = true }) cell.width
                  (with_screen-IsValid t screen v k))))
]

-- Inserting a cell and cutting the row at the margin leaves it long enough.
pub insert_cut-length :
    (cols at : ℕ) (cells : List Cell)
    → cols ≤ length cells
    → at ≤ length cells
    → Ensures
        (λ c. cols ≤ length c)
        (do longer ← insert cells at empty_cell; some (take cols longer))
insert_cut-length cols at cells fit le =
    Ensures-bind _ (λ c. cols ≤ length c) (insert cells at empty_cell) _
      (insert-length cells at empty_cell le) (λ longer k. omega (arith, length-take cols longer))

shift_right-length :
    (cols col width : ℕ) (cells : List Cell)
    → cols ≤ length cells
    → Ensures (λ c. cols ≤ length c) (shift_right cols col width cells)
unfolding shift_right
shift_right-length cols col width =
    repeat-Ensures (λ c. cols ≤ length c) _
      (λ row fit. insert_cut-length cols (min col (length row)) row fit (omega arith)) width

make_room-Safe : (t : Terminal) (ch : ℕ) → IsValid t → Safe (make_room t ch)
unfolding make_room
make_room-Safe t ch v =
    let width = if is_wide ch then 2 else 1 in
    Ensures-bind (ScreenFits t.cols t.rows) IsValid
      (edit_row t.cursor.row (shift_right t.cols t.cursor.col width) t.screen) _
      (edit_row-Fits t.cols t.rows t.cursor.row _ t.screen
        (shift_right-length t.cols t.cursor.col width) (omega arith) v.screen_fits)
      (λ screen k. with_screen-IsValid t screen v k)

wrap_line-Safe : (t : Terminal) → IsValid t → Safe (wrap_line t)
unfolding wrap_line
wrap_line-Safe t v =
    Ensures-if IsValid t.wrap_pending _ (some t)
      (Safe-bind (line_feed t) _ (line_feed-Safe t v) (λ u w. set_col-IsValid u 0 w (omega arith)))
      v

pub print-Safe : (t : Terminal) (ch : ℕ) → IsValid t → Safe (print t ch)
unfolding print
print-Safe t ch v = Safe-bind (wrap_line t) _ (wrap_line-Safe t v) (λ u w.
    Safe-bind (if u.modes.insert then make_room u ch else some u) (λ x. put_char x ch)
      (Ensures-if IsValid u.modes.insert (make_room u ch) (some u) (make_room-Safe u ch w) w)
      (λ x k. put_char-Safe x ch k))

pub execute-Safe : (t : Terminal) (code : ℕ) → IsValid t → Safe (execute t code)
unfolding execute backspace tab
execute-Safe t code v =
    Safe-bind _ (λ u. some (mark_dirty u))
      (Ensures-if IsValid (code == 0x07) _ _ v (
        Ensures-if IsValid (code == 0x08) _ _ (set_col-IsValid t (t.cursor.col - 1) v (omega arith))
          (Ensures-if IsValid (code == 0x09) _ _ (set_col-IsValid t _ v (omega arith)) (
            Ensures-if IsValid (code == 0x0A || code == 0x0B || code == 0x0C) (line_feed t) _
              (line_feed-Safe t v)
              (Ensures-if IsValid (code == 0x0D) _ (some t) (set_col-IsValid t 0 v (omega arith))
                v)))))
      (λ u w. w)
