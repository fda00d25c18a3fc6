-- ===== src/Terminal/Screen/Valid/Control.antt =====
-- The control sequences keep the invariant, and do not panic.
use remote_desktop_tool.Prelude.{
  ℕ, ◌-◌, ◌<◌, Bool, true, false, List, Option, none, some, inl, inr, arith, ◌==◌, ◌||◌, ◌&&◌, ltb,
  leb, if◌then◌else◌, Bool-cases, ◌%◌, ◌^◌,
}
use remote_desktop_tool.Terminal.Grid.{Row}
use remote_desktop_tool.Terminal.Screen.Types.{Cursor, Terminal, set_row, set_col}
use remote_desktop_tool.Terminal.Screen.Control.{
  move_cursor_up, move_cursor_down, move_cursor_right, move_cursor_left, clamp_row, param,
  cursor_position, set_region, save_cursor, restore_cursor, restored, set_insert, leave_alternate,
  switch_screen, set_private_mode,
}
use remote_desktop_tool.Terminal.Screen.Valid.{
  IsValid, OptionAll, CursorFits, ScreenFits, blank_screen-Fits, with_cursor-IsValid,
  set_row-IsValid, set_col-IsValid,
}

pub if-IsValid : (b : Bool) (t u : Terminal) → IsValid t → IsValid u → IsValid (if b then t else u)
if-IsValid true t u v w = v
if-IsValid false t u v w = w

module _ (t : Terminal) (v : IsValid t) where
  pub move_cursor_up-IsValid : (count : ℕ) → IsValid (move_cursor_up t count)
  unfolding move_cursor_up
  move_cursor_up-IsValid count = set_row-IsValid t _ v (omega arith)

  pub move_cursor_down-IsValid : (count : ℕ) → IsValid (move_cursor_down t count)
  unfolding move_cursor_down
  move_cursor_down-IsValid count = set_row-IsValid t _ v (omega arith)

  pub move_cursor_right-IsValid : (count : ℕ) → IsValid (move_cursor_right t count)
  unfolding move_cursor_right
  move_cursor_right-IsValid count = set_col-IsValid t _ v (omega arith)

  pub move_cursor_left-IsValid : (count : ℕ) → IsValid (move_cursor_left t count)
  unfolding move_cursor_left
  move_cursor_left-IsValid count = set_col-IsValid t _ v (omega arith)

  pub clamp_row-lt : (row : ℕ) → clamp_row t row < t.rows
  unfolding clamp_row
  clamp_row-lt row = ground arith

  pub cursor_position-IsValid : (params : List ℕ) → IsValid (cursor_position t params)
  unfolding cursor_position
  cursor_position-IsValid params =
      with_cursor-IsValid t _ v (omega (arith, clamp_row-lt (param params 0 1 - 1)))

  pub set_region-IsValid : (params : List ℕ) → IsValid (set_region t params)
  unfolding set_region
  set_region-IsValid params =
      let top : ℕ = param params 0 1 - 1 in
      let bottom : ℕ = param params 1 (t.rows % 2 ^ 16) in
      elim (Bool-cases (ltb top bottom && leb bottom t.rows)) [
        | inl accepted ↦ rw accepted (record {
          size = v.size;
          screen_fits = v.screen_fits;
          cursor_fits = ground arith;
          region_fits = ground arith;
          saved_screen_fits = v.saved_screen_fits;
          saved_cursor_fits = v.saved_cursor_fits;
          parser_fits = v.parser_fits;
        })
        | inr refused ↦ rw refused v
      ]

  pub save_cursor-IsValid : IsValid (save_cursor t)
  save_cursor-IsValid = record {
    size = v.size;
    screen_fits = v.screen_fits;
    cursor_fits = v.cursor_fits;
    region_fits = v.region_fits;
    saved_screen_fits = v.saved_screen_fits;
    saved_cursor_fits = v.cursor_fits;
    parser_fits = v.parser_fits;
  }

restored-Fits :
    (cols rows : ℕ) (saved : Option Cursor) (cursor : Cursor)
    → OptionAll (CursorFits cols rows) saved
    → CursorFits cols rows cursor
    → CursorFits cols rows (restored saved cursor)
restored-Fits cols rows none cursor s c = c
restored-Fits cols rows (some saved) cursor s c = s

pub restore_cursor-IsValid : (t : Terminal) → IsValid t → IsValid (restore_cursor t)
restore_cursor-IsValid t v =
    with_cursor-IsValid t _ v
      (restored-Fits t.cols t.rows t.saved_cursor t.cursor v.saved_cursor_fits v.cursor_fits)

leave_alternate-IsValid :
    (saved : Option (List Row)) (t : Terminal)
    → OptionAll (ScreenFits t.cols t.rows) saved
    → IsValid t
    → IsValid (leave_alternate saved t)
leave_alternate-IsValid none t s v = v
leave_alternate-IsValid (some screen) t s v =
    restore_cursor-IsValid (record t { screen = screen; saved_screen = none })
      (record {
        size = v.size;
        screen_fits = s;
        cursor_fits = v.cursor_fits;
        region_fits = v.region_fits;
        saved_screen_fits = tt;
        saved_cursor_fits = v.saved_cursor_fits;
        parser_fits = v.parser_fits;
      })

switch_screen-IsValid :
    (t : Terminal) (alternate : Bool) → IsValid t → IsValid (switch_screen t alternate)
unfolding switch_screen
switch_screen-IsValid t true v = if-IsValid t.modes.alternate_screen t _ v (record {
  size = v.size;
  screen_fits = blank_screen-Fits t.cols t.rows;
  cursor_fits = omega arith;
  region_fits = v.region_fits;
  saved_screen_fits = v.screen_fits;
  saved_cursor_fits = v.cursor_fits;
  parser_fits = v.parser_fits;
})
switch_screen-IsValid t false v =
    if-IsValid t.modes.alternate_screen _ t
      (leave_alternate-IsValid t.saved_screen t v.saved_screen_fits v) v

-- `IsValid` of a term that is compared as a whole, and not field by field.
record Kept (t : Terminal) : Type 0 where
  valid : IsValid t

if-Kept : (b : Bool) (t u : Terminal) → IsValid t → Kept u → Kept (if b then t else u)
if-Kept true t u v w = record { valid = v }
if-Kept false t u v w = w

set_origin-IsValid :
    (t : Terminal) (enable : Bool)
    → IsValid t
    → IsValid (
        set_col
          (set_row
            (record t { modes = record (t.modes) { origin = enable } })
            (if enable then t.region_top else 0))
          0)
set_origin-IsValid t enable v = with_cursor-IsValid t _ v (ground arith)

pub set_private_mode-IsValid :
    (t : Terminal) (mode : ℕ) (enable : Bool) → IsValid t → IsValid (set_private_mode t mode enable)
unfolding set_private_mode
set_private_mode-IsValid t mode enable v =
    let kept = if-Kept (mode == 1) _ _ v (
      if-Kept (mode == 4) (set_insert t enable) _ v (
        if-Kept (mode == 6) _ _ (set_origin-IsValid t enable v) (
          if-Kept (mode == 7) _ _ v (
            if-Kept (mode == 25) _ _ v (
              if-Kept (mode == 47 || mode == 1047 || mode == 1049) _ _
                (switch_screen-IsValid t enable v)
                (if-Kept (mode == 1048) _ _
                  (if-IsValid enable _ _ (save_cursor-IsValid t v) (restore_cursor-IsValid t v))
                  (if-Kept (mode == 2004) _ t v (record { valid = v })))))))) in
    kept.valid
