-- ===== src/Terminal/Screen/Valid/Erase.antt =====
-- Erasing and moving characters in a line keep the invariant, and do not panic.
use remote_desktop_tool.Prelude.{
  ℕ, zero, suc, ◌+◌, ◌-◌, ◌≤◌, ◌<◌, ◌≡◌, List, [], ◌∷◌, Option, inl, inr, arith, ◌==◌, ltb,
  Bool-cases, length, length-append, length-map, min, remove, Ensures, Ensures-bind, modify-Sized,
  remove-length, repeat-Ensures, bind_assoc,
}
use remote_desktop_tool.Terminal.Grid.{Cell, Row, empty_cell}
use remote_desktop_tool.Terminal.Screen.Types.{Terminal, home, edit_row}
use remote_desktop_tool.Terminal.Screen.Erase.{
  for_range, with_screen, erase_line_part, cleared, clear_row, clear_rows, erase_display,
  erase_line, delete_char, edit_line, delete_chars, insert_char, insert_chars, erase_char,
  erase_chars,
}
use remote_desktop_tool.Terminal.Screen.Valid.{
  IsValid, Safe, Safe-bind, Ensures-if, Fits, ScreenFits, with_screen-IsValid, with_cursor-IsValid,
  edit_row-Fits, write_cell-Fits,
}
use remote_desktop_tool.Terminal.Screen.Valid.Write.{insert_cut-length}

-- A loop keeps what each of its rounds keeps; a round knows that it lies in the range.
for_range-Ensures {ℓ} :
    {S : Type ℓ} (P : S → Type 0) (stop : ℕ) (body : ℕ → S → Option S)
    → ((i : ℕ) (s : S) → i < stop → P s → Ensures P (body i s))
    → (n from : ℕ) (s : S) → from + n ≤ stop
    → P s
    → Ensures P (for_range n from body s)
unfolding for_range
for_range-Ensures P stop body keep zero from s le h = h
for_range-Ensures P stop body keep (suc n) from s le h =
    Ensures-bind P P (body from s) _ (keep from s (omega arith) h)
      (λ u k. for_range-Ensures P stop body keep n (from + 1) u (omega arith) k)

with_screen-Safe :
    (t : Terminal) (screen : Option (List Row))
    → IsValid t
    → Ensures (ScreenFits t.cols t.rows) screen
    → Safe (with_screen t screen)
with_screen-Safe t screen v h =
    Ensures-bind (ScreenFits t.cols t.rows) IsValid screen _ h (λ s k. with_screen-IsValid t s v k)

erase_line_part-Safe : (t : Terminal) (from to : ℕ) → IsValid t → Safe (erase_line_part t from to)
unfolding erase_line_part
erase_line_part-Safe t from to v = with_screen-Safe t _ v (
    for_range-Ensures (ScreenFits t.cols t.rows) t.cols _
      (λ col s lt h. write_cell-Fits t.cols t.rows t.cursor.row col _ s (omega arith) lt h) _ _
      t.screen (omega arith) v.screen_fits)

pub cleared-Fits : (cols : ℕ) (row : Row) → Fits cols row → Fits cols (cleared row)
cleared-Fits cols row fit = omega (arith, length-map row.cells (λ (cell : Cell). empty_cell))

clear_row-Fits :
    (cols rows row : ℕ) (screen : List Row)
    → row < rows
    → ScreenFits cols rows screen
    → Ensures (ScreenFits cols rows) (clear_row row screen)
unfolding clear_row
clear_row-Fits cols rows row screen lt h =
    modify-Sized (Fits cols) screen row rows _ (λ r fit. cleared-Fits cols r fit) h lt

clear_rows-Safe :
    (from to : ℕ) (t : Terminal) → to ≤ t.rows → IsValid t → Safe (clear_rows from to t)
unfolding clear_rows
clear_rows-Safe from to t le v = elim (Bool-cases (ltb from to)) [
  | inl some_rows ↦ with_screen-Safe t _ v (
      for_range-Ensures (ScreenFits t.cols t.rows) t.rows clear_row
        (λ row s lt h. clear_row-Fits t.cols t.rows row s lt h) (to - from) from t.screen
        (ground arith) v.screen_fits)
  | inr no_rows ↦
      let none_left : to - from ≡ 0 = ground arith in
      with_screen-Safe t _ v (rw none_left (unfold for_range in v.screen_fits))
]

pub erase_display-Safe : (t : Terminal) (mode : ℕ) → IsValid t → Safe (erase_display t mode)
unfolding erase_display
erase_display-Safe t mode v =
    Ensures-if IsValid (mode == 0) _ _
      (Safe-bind (erase_line_part t t.cursor.col t.cols) _ (erase_line_part-Safe t _ _ v)
        (λ u w. clear_rows-Safe (u.cursor.row + 1) u.rows u (omega arith) w))
      (Ensures-if IsValid (mode == 1) _ _
        (Safe-bind (clear_rows 0 t.cursor.row t) _
          (clear_rows-Safe 0 t.cursor.row t (omega arith) v) (λ u w. erase_line_part-Safe u 0 _ w))
        (Safe-bind (clear_rows 0 t.rows t) _ (clear_rows-Safe 0 t.rows t (omega arith) v)
          (λ u w. with_cursor-IsValid u home w (omega arith))))

pub erase_line-Safe : (t : Terminal) (mode : ℕ) → IsValid t → Safe (erase_line t mode)
unfolding erase_line
erase_line-Safe t mode v = Ensures-if IsValid (mode == 0) _ _ (erase_line_part-Safe t _ _ v) (
    Ensures-if IsValid (mode == 1) _ _ (erase_line_part-Safe t 0 _ v)
      (erase_line_part-Safe t 0 t.cols v))

-- A loop over the cells of the cursor's row.
edit_line-Safe :
    (t : Terminal) (count : ℕ) (body : List Cell → Option (List Cell))
    → ((cells : List Cell) → t.cols ≤ length cells → Ensures (λ c. t.cols ≤ length c) (body cells))
    → IsValid t
    → Safe (edit_line t count body)
edit_line-Safe t count body keep v = with_screen-Safe t _ v (
    repeat-Ensures (ScreenFits t.cols t.rows) (edit_row t.cursor.row body)
      (λ s h. edit_row-Fits t.cols t.rows t.cursor.row body s keep (omega arith) h) count t.screen
      v.screen_fits)

-- The row gets a cell at its end, and loses at most one.
delete_char-length :
    (cols col : ℕ) (cells : List Cell)
    → cols ≤ length cells
    → Ensures (λ c. cols ≤ length c) (delete_char col cells)
unfolding delete_char
delete_char-length cols col cells fit = elim (Bool-cases (ltb col (length cells))) [
  | inl inside ↦
      rw (inside, bind_assoc)
        (Ensures-bind _ (λ c. cols ≤ length c) (remove cells col) _
          (remove-length cells col (ground arith))
          (λ r k. omega (arith, length-append r.1 (empty_cell ∷ []))))
  | inr past ↦ rw past (omega (arith, length-append cells (empty_cell ∷ [])))
]

pub delete_chars-Safe : (t : Terminal) (count : ℕ) → IsValid t → Safe (delete_chars t count)
unfolding delete_chars
delete_chars-Safe t count =
    edit_line-Safe t count (delete_char t.cursor.col) (delete_char-length t.cols t.cursor.col)

pub insert_chars-Safe : (t : Terminal) (count : ℕ) → IsValid t → Safe (insert_chars t count)
unfolding insert_chars insert_char
insert_chars-Safe t count = edit_line-Safe t count (insert_char t.cols t.cursor.col) (λ cells fit.
    insert_cut-length t.cols (min t.cursor.col (length cells - 1)) cells fit (omega arith))

erase_char-Fits :
    (t : Terminal) (col : ℕ) (screen : List Row)
    → IsValid t
    → ScreenFits t.cols t.rows screen
    → Ensures (ScreenFits t.cols t.rows) (erase_char t col screen)
unfolding erase_char
erase_char-Fits t col screen v h = elim (Bool-cases (ltb col t.cols)) [
  | inl inside ↦
      rw inside
        (write_cell-Fits t.cols t.rows t.cursor.row col _ screen (omega arith) (ground arith) h)
  | inr past ↦ rw past h
]

pub erase_chars-Safe : (t : Terminal) (count : ℕ) → IsValid t → Safe (erase_chars t count)
unfolding erase_chars
erase_chars-Safe t count v = with_screen-Safe t _ v (
    for_range-Ensures (ScreenFits t.cols t.rows) (t.cursor.col + count) (erase_char t)
      (λ col s lt h. erase_char-Fits t col s v h) count t.cursor.col t.screen (omega arith)
      v.screen_fits)
