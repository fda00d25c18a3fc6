-- ===== src/Terminal/Screen/Valid/Scroll.antt =====
-- The operations on whole lines keep the invariant, and do not panic.
use remote_desktop_tool.Prelude.{
  ℕ, ◌+◌, ◌-◌, ◌<◌, ◌≡◌, List, some, inl, inr, arith, ◌>>=◌, ◌==◌, ltb, leb, Bool-cases, length,
  remove, insert, repeat, Ensures-bind, repeat-Ensures, remove-Sized, insert-Sized,
}
use remote_desktop_tool.Prelude.{true, false, bind_assoc}
use remote_desktop_tool.Terminal.Grid.{Row, blank}
use remote_desktop_tool.Terminal.Screen.Types.{Terminal}
use remote_desktop_tool.Terminal.Screen.Scroll.{
  scroll_up_once, scroll_up, drop_bottom, open_line, scroll_down, line_feed, reverse_index,
  insert_lines, close_line, delete_lines, outside_region,
}
use remote_desktop_tool.Terminal.Screen.Valid.{
  IsValid, Safe, Safe-bind, Ensures-if, Fits, ScreenFits, blank-Fits, with_screen-IsValid,
  set_row-IsValid, set_col-IsValid,
}

-- A line leaves at `from`, and a blank one comes in at `to`.
replace_line-Safe :
    (t : Terminal) (from to : ℕ) (put : List Row → Row → Terminal)
    → IsValid t
    → from < t.rows
    → to < t.rows
    → ((screen : List Row) (r : Row) → ScreenFits t.cols t.rows screen → IsValid (put screen r))
    → Safe
        (do r ← remove t.screen from; screen ← insert r.1 to (blank t.cols); some (put screen r.0))
replace_line-Safe t from to put v lf lt finish =
    let n : ℕ = t.rows - 1 in
    Ensures-bind _ IsValid (remove t.screen from) _
      (remove-Sized (Fits t.cols) t.screen from n (omega arith, v.screen_fits.1) (omega arith))
      (λ r k.
        Ensures-bind _ IsValid (insert r.1 to (blank t.cols)) _
          (insert-Sized (Fits t.cols) r.1 to n (blank t.cols) k.1 (omega arith) (blank-Fits t.cols))
          (λ screen h. finish screen r.0 (omega (arith, h.0), h.1)))

scroll_up_once-Safe : (t : Terminal) → IsValid t → Safe (scroll_up_once t)
unfolding scroll_up_once
scroll_up_once-Safe t v =
    replace_line-Safe t t.region_top (t.region_bottom - 1) _ v (omega arith) (omega arith)
      (λ screen r h. with_screen-IsValid t screen v h)

pub scroll_up-Safe : (t : Terminal) (lines : ℕ) → IsValid t → Safe (scroll_up t lines)
unfolding scroll_up
scroll_up-Safe t lines v =
    Safe-bind (repeat lines scroll_up_once t) _
      (repeat-Ensures IsValid scroll_up_once scroll_up_once-Safe lines t v) (λ u w. w)

-- The test of the loops always passes: the screen has all its rows.
drop_bottom-remove :
    (t : Terminal)
    → IsValid t
    → drop_bottom t ≡ (remove t.screen (t.region_bottom - 1) >>= λ r. some r.1)
unfolding drop_bottom
drop_bottom-remove t v =
    let passes : leb t.region_bottom (length t.screen) ≡ true = ground arith in rw passes

open_line-Safe :
    (at : Terminal → ℕ)
    → ((t : Terminal) → IsValid t → at t < t.rows)
    → (t : Terminal) → IsValid t
    → Safe (open_line at t)
unfolding open_line
open_line-Safe at inside t v = rw (drop_bottom-remove t v) (
    rw bind_assoc (
      replace_line-Safe t (t.region_bottom - 1) (at t) _ v (omega arith) (inside t v)
        (λ screen r h. with_screen-IsValid t screen v h)))

open_lines-Safe :
    (at : Terminal → ℕ)
    → ((t : Terminal) → IsValid t → at t < t.rows)
    → (n : ℕ) (t : Terminal) → IsValid t
    → Safe (repeat n (open_line at) t)
open_lines-Safe at inside = repeat-Ensures IsValid (open_line at) (open_line-Safe at inside)

pub scroll_down-Safe : (t : Terminal) (lines : ℕ) → IsValid t → Safe (scroll_down t lines)
unfolding scroll_down
scroll_down-Safe t lines v =
    Safe-bind (repeat lines (open_line (λ u. u.region_top)) t) _
      (open_lines-Safe _ (λ u w. omega arith) lines t v) (λ u w. w)

pub line_feed-Safe : (t : Terminal) → IsValid t → Safe (line_feed t)
unfolding line_feed
line_feed-Safe t v = elim (Bool-cases (t.cursor.row + 1 == t.region_bottom)) [
  | inl at_end ↦ rw at_end (scroll_up-Safe (record t { wrap_pending = false }) 1 v)
  | inr inside ↦ rw inside (elim (Bool-cases (ltb (t.cursor.row + 1) t.rows)) [
    | inl room ↦ rw room (set_row-IsValid t (t.cursor.row + 1) v (ground arith))
    | inr last ↦ rw last v
  ])
]

pub reverse_index-Safe : (t : Terminal) → IsValid t → Safe (reverse_index t)
unfolding reverse_index
reverse_index-Safe t v =
    Ensures-if IsValid (t.cursor.row == t.region_top) (scroll_down t 1) _ (scroll_down-Safe t 1 v)
      (set_row-IsValid t (t.cursor.row - 1) v (omega arith))

pub insert_lines-Safe : (t : Terminal) (count : ℕ) → IsValid t → Safe (insert_lines t count)
unfolding insert_lines
insert_lines-Safe t count v = Ensures-if IsValid (outside_region t) (some t) _ v (
    Safe-bind (repeat count (open_line (λ u. u.cursor.row)) t) _
      (open_lines-Safe _ (λ u w. omega arith) count t v)
      (λ u w. set_col-IsValid u 0 w (omega arith)))

close_line-Safe : (t : Terminal) → IsValid t → Safe (close_line t)
unfolding close_line
close_line-Safe t v =
    replace_line-Safe t t.cursor.row (t.region_bottom - 1) _ v (omega arith) (omega arith)
      (λ screen r h. with_screen-IsValid t screen v h)

pub delete_lines-Safe : (t : Terminal) (count : ℕ) → IsValid t → Safe (delete_lines t count)
unfolding delete_lines
delete_lines-Safe t count v = Ensures-if IsValid (outside_region t) (some t) _ v (
    Safe-bind (repeat count close_line t) _
      (repeat-Ensures IsValid close_line close_line-Safe count t v)
      (λ u w. set_col-IsValid u 0 w (omega arith)))
