-- ===== src/Terminal/Screen/Valid/Resize.antt =====
-- `resize`, `clear_all` and `reset_parser` of crates/rdt-terminal/src/term.rs: when they keep the
-- invariant, and what a saved cursor outside the new size does.
use mathlib.Core.Path.{subst}
use remote_desktop_tool.Prelude.{
  modify-none, ℕ, ◌-◌, ◌≤◌, ◌<◌, ◌≡◌, refl, sym, ap, ◌∙◌, true, false, ◌&&◌, List, [], none, some,
  inl, inr, arith, ◌>>=◌, map, ◌==◌, ltb, leb, Bool-cases, length, take, replicate, length-append,
  length-take, length-drop, length-replicate, length-map, All-append, All-take, All-drop,
  All-replicate, All-map, Ensures, Ensures-bind, Ensures-some,
}
use remote_desktop_tool.Terminal.Grid.{Row, empty_cell, blank}
use remote_desktop_tool.Terminal.Grid.Scrollback.{Scrollback}
use remote_desktop_tool.Terminal.Parser.WellFormed.{WellFormed}
use remote_desktop_tool.Terminal.Screen.Types.{Modes, Cursor, Terminal, clamp}
use remote_desktop_tool.Terminal.Screen.Erase.{cleared}
use remote_desktop_tool.Terminal.Screen.Write.{print, wrap_line, put_char}
use remote_desktop_tool.Terminal.Screen.Control.{esc}
use remote_desktop_tool.Terminal.Screen.{
  resized, resize_row, resize_rows, resize_clamped, resize, clear_all,
}
use remote_desktop_tool.Terminal.Screen.Valid.{
  OptionAll, Fits, ScreenFits, CursorFits, SizeFits, IsValid, blank-Fits,
}
use remote_desktop_tool.Terminal.Screen.Valid.Erase.{cleared-Fits}

length-resized {ℓ} : {A : Type ℓ} (n : ℕ) (v : A) (xs : List A) → length (resized n v xs) ≡ n
length-resized n v xs =
    length-append (take n xs) (replicate (n - length xs) v)
    ∙ omega (arith, length-take n xs, length-replicate (n - length xs) v)

resize_row-Fits : (cols : ℕ) (row : Row) → Fits cols (resize_row cols row)
resize_row-Fits cols row = omega (arith, length-resized cols empty_cell row.cells)

-- What `resize_rows` leaves alone.
record Unchanged (t u : Terminal) : Type 0 where
  cols_eq : u.cols ≡ t.cols
  saved_screen_eq : u.saved_screen ≡ t.saved_screen
  saved_cursor_eq : u.saved_cursor ≡ t.saved_cursor
  modes_eq : u.modes ≡ t.modes
  wrap_pending_eq : u.wrap_pending ≡ t.wrap_pending
  parser_eq : u.parser ≡ t.parser

only_rows :
    (t : Terminal) (screen : List Row) (scrollback : Scrollback Row)
    → Unchanged t (record t { screen = screen; scrollback = scrollback })
only_rows t screen scrollback = record {
  cols_eq = refl;
  saved_screen_eq = refl;
  saved_cursor_eq = refl;
  modes_eq = refl;
  wrap_pending_eq = refl;
  parser_eq = refl;
}

resize_rows-Fits :
    (rows : ℕ) (t : Terminal)
    → ScreenFits t.cols t.rows t.screen
    → Ensures (λ u. ScreenFits t.cols rows u.screen × Unchanged t u) (resize_rows rows t)
unfolding resize_rows
resize_rows-Fits rows t h = elim (Bool-cases (ltb t.rows rows)) [
  | inl more ↦ rw more (
    (
      length-resized rows (blank t.cols) t.screen,
      All-append (Fits t.cols) (take rows t.screen) _ (All-take (Fits t.cols) rows t.screen h.1)
          (All-replicate (Fits t.cols) (rows - length t.screen) _ (blank-Fits t.cols)),
    ),
    only_rows t _ t.scrollback,
  )
  | inr fewer ↦
      let enough : leb (t.rows - rows) (length t.screen) ≡ true = ground arith in
      rw (fewer, enough)
        (
          (
            ground (arith, length-drop (t.rows - rows) t.screen),
            All-drop (Fits t.cols) (t.rows - rows) t.screen h.1,
          ),
          only_rows t _ _,
        )
]

all-Fits :
    (cols rows cols' : ℕ) (screen : List Row)
    → ScreenFits cols rows screen
    → ScreenFits cols' rows (map (resize_row cols') screen)
all-Fits cols rows cols' screen h = (
  length-map screen (resize_row cols') ∙ h.0,
  All-map (Fits cols) (Fits cols') (resize_row cols') (λ row fit. resize_row-Fits cols' row) screen
      h.1,
)

-- What is asked of a resize: the invariant, and the size.
abbrev pub Resized : ℕ → ℕ → Terminal → Type 0
Resized cols rows u = IsValid u × (u.cols ≡ cols) × (u.rows ≡ rows)

resize_clamped-Ensures :
    (t : Terminal) (cols rows : ℕ)
    → SizeFits cols rows
    → IsValid t
    → t.saved_screen ≡ none
    → OptionAll (CursorFits cols rows) t.saved_cursor
    → Ensures (Resized cols rows) (resize_clamped t cols rows)
unfolding resize_clamped
resize_clamped-Ensures t cols rows size v no_screen saved =
    let widened = record t { cols = cols; screen = map (resize_row cols) t.screen } in
    elim (Bool-cases (cols == t.cols && rows == t.rows)) [
      | inl same ↦ rw same (v, ground arith, ground arith)
      | inr changed ↦ rw changed (
          Ensures-bind _ (Resized cols rows) (resize_rows rows widened) _
            (resize_rows-Fits rows widened (all-Fits t.cols t.rows cols t.screen v.screen_fits))
            (λ u k. (
              record {
                size = omega (arith, k.1.cols_eq);
                screen_fits = rw k.1.cols_eq k.0;
                cursor_fits = omega (arith, k.1.cols_eq);
                region_fits = omega arith;
                saved_screen_fits = rw (k.1.saved_screen_eq ∙ no_screen) tt;
                saved_cursor_fits = rw (k.1.cols_eq, k.1.saved_cursor_eq) saved;
                parser_fits = subst WellFormed (sym k.1.parser_eq) v.parser_fits;
              },
              k.1.cols_eq,
              refl,
            )))
    ]

-- A resize does not panic, leaves a valid terminal and gives it the clamped size, while no main
-- screen is put aside and the saved cursor, if any, lies in the new size.
pub resize-IsValid :
    (t : Terminal) (cols rows : ℕ)
    → IsValid t
    → t.saved_screen ≡ none
    → OptionAll (CursorFits (clamp 1 500 cols) (clamp 1 200 rows)) t.saved_cursor
    → (u : Terminal) × (resize t cols rows ≡ some u)
      × IsValid u
      × (u.cols ≡ clamp 1 500 cols)
      × (u.rows ≡ clamp 1 200 rows)
unfolding resize
resize-IsValid t cols rows v no_screen saved =
    let (u, e, k) =
      Ensures-some (Resized (clamp 1 500 cols) (clamp 1 200 rows)) _
        (resize_clamped-Ensures t _ _ (omega arith) v no_screen saved) in
    (u, e, k.0, k.1, k.2)

-- Clearing keeps a terminal valid.
pub clear_all-IsValid : (t : Terminal) → IsValid t → IsValid (clear_all t)
unfolding clear_all
clear_all-IsValid t v = record {
  size = v.size;
  screen_fits = (
    length-map t.screen cleared ∙ v.screen_fits.0,
    All-map (Fits t.cols) (Fits t.cols) cleared (cleared-Fits t.cols) t.screen v.screen_fits.1,
  );
  cursor_fits = omega arith;
  region_fits = v.region_fits;
  saved_screen_fits = v.saved_screen_fits;
  saved_cursor_fits = v.saved_cursor_fits;
  parser_fits = v.parser_fits;
}

-- The size that is asked for differs, and a saved cursor lies in a row that goes away.
record Stale (cols rows : ℕ) (saved : Cursor) (u : Terminal) : Type 0 where
  cols_eq : u.cols ≡ cols
  rows_eq : length u.screen ≡ rows
  saved_eq : u.saved_cursor ≡ some saved
  plain_mode : u.modes.insert ≡ false
  no_wrap : u.wrap_pending ≡ false

resize_clamped-Stale :
    (t : Terminal) (cols rows : ℕ) (saved : Cursor)
    → IsValid t
    → t.saved_cursor ≡ some saved
    → rows ≤ saved.row
    → t.modes.insert ≡ false
    → t.wrap_pending ≡ false
    → Ensures (Stale cols rows saved) (resize_clamped t cols rows)
unfolding resize_clamped
resize_clamped-Stale t cols rows saved v e past i w =
    let widened = record t { cols = cols; screen = map (resize_row cols) t.screen } in
    let fits : CursorFits t.cols t.rows saved =
      subst (OptionAll (CursorFits t.cols t.rows)) e v.saved_cursor_fits in
    elim (Bool-cases (cols == t.cols && rows == t.rows)) [
      | inl same ↦ absurd (ground arith)
      | inr changed ↦ rw changed (
          Ensures-bind _ (Stale cols rows saved) (resize_rows rows widened) _
            (resize_rows-Fits rows widened (all-Fits t.cols t.rows cols t.screen v.screen_fits))
            (λ u k. record {
              cols_eq = k.1.cols_eq;
              rows_eq = k.0.0;
              saved_eq = k.1.saved_cursor_eq ∙ e;
              plain_mode = ap (λ (m : Modes). m.insert) k.1.modes_eq ∙ i;
              no_wrap = k.1.wrap_pending_eq ∙ w;
            }))
    ]

restore-print-panics :
    (u : Terminal) (cols rows : ℕ) (saved : Cursor) (ch : ℕ)
    → saved.col < cols
    → rows ≤ saved.row
    → Stale cols rows saved u
    → (esc u [] b'8' >>= λ r. print r ch) ≡ none
unfolding esc print wrap_line put_char
restore-print-panics u cols rows saved ch inside past s =
    let before : leb u.cols saved.col ≡ false = ground arith in
    let missing = modify-none u.screen saved.row (ground arith) in
    rw (s.saved_eq, s.no_wrap, s.plain_mode, before, missing _)

-- A defect: `resize` leaves the saved cursor where it is. If its row goes away, restoring it
-- (`ESC 8`) and printing any character panics, in the plain modes and for a column that stays.
pub resize-restore-print-panics :
    (t : Terminal) (cols rows : ℕ) (saved : Cursor) (ch : ℕ)
    → IsValid t
    → t.saved_cursor ≡ some saved
    → saved.col < clamp 1 500 cols
    → clamp 1 200 rows ≤ saved.row
    → t.modes.insert ≡ false
    → t.wrap_pending ≡ false
    → (resize t cols rows >>= λ u. esc u [] b'8' >>= λ r. print r ch) ≡ none
unfolding resize
resize-restore-print-panics t cols rows saved ch v e inside past i w =
    let (u, done, stale) =
      Ensures-some (Stale (clamp 1 500 cols) (clamp 1 200 rows) saved)
        (resize_clamped t (clamp 1 500 cols) (clamp 1 200 rows))
        (resize_clamped-Stale t _ (clamp 1 200 rows) saved v e past i w) in
    rw done (restore-print-panics u _ _ saved ch inside past stale)
