-- ===== src/Terminal/Screen/History.antt =====
-- Scrolling and the scrollback of crates/rdt-terminal/src/term.rs together, and the alternate
-- screen.
use remote_desktop_tool.Prelude.{
  ℕ, zero, suc, ◌+◌, ◌-◌, ◌≤◌, ◌<◌, ◌≡◌, refl, sym, ap, ◌∙◌, arith, true, false, List, [], ◌∷◌,
  ◌++◌, none, some, ◌==◌, length, replicate, append_assoc, append-nil, length-append, remove,
  repeat, insert_end,
}
use remote_desktop_tool.Terminal.Grid.{Row, blank}
use remote_desktop_tool.Terminal.Grid.Scrollback
use remote_desktop_tool.Terminal.Grid.Scrollback.{Scrollback}
use remote_desktop_tool.Terminal.Screen.Types.{Cursor, Terminal, mark_dirty}
use remote_desktop_tool.Terminal.Screen.Scroll.{scroll_up_once, scroll_up}
use remote_desktop_tool.Terminal.Screen.Control.{switch_screen}
use remote_desktop_tool.Terminal.Screen.Valid.{IsValid}

-- All the lines that can be seen: the scrollback above the screen.
abbrev pub history : Terminal → List Row
history t = t.scrollback.lines ++ t.screen

-- The whole screen scrolls.
record WholeRegion (t : Terminal) : Type 0 where
  top : t.region_top ≡ 0
  bottom : t.region_bottom ≡ t.rows
  full : length t.screen ≡ t.rows
  rows_pos : 1 ≤ t.rows

push_room :
    (s : Scrollback Row) (x : Row)
    → length s.lines < s.limit
    → (Scrollback.push s x).lines ≡ s.lines ++ (x ∷ [])
unfolding Scrollback.push
push_room s x h = ground arith

limit-push : (s : Scrollback Row) (x : Row) → (Scrollback.push s x).limit ≡ s.limit
unfolding Scrollback.push
limit-push s x = ground arith

-- One line is scrolled.
abbrev scrolled : Terminal → Row → List Row → Terminal
scrolled t x xs = record t {
  screen = xs ++ (blank t.cols ∷ []);
  scrollback = Scrollback.push t.scrollback x;
}

scroll_up_once-scrolled :
    (t : Terminal) (x : Row) (xs : List Row)
    → t.screen ≡ x ∷ xs
    → WholeRegion t
    → scroll_up_once t ≡ some (scrolled t x xs)
unfolding scroll_up_once remove
scroll_up_once-scrolled t x xs e w =
    let last : t.rows - 1 ≡ length xs = omega (arith, w.full, ap length e) in
    let same : (t.rows == t.rows) ≡ true = ground arith in
    rw (e, w.top, w.bottom, last, insert_end xs (blank t.cols), same)

history-scrolled :
    (t : Terminal) (x : Row) (xs : List Row)
    → t.screen ≡ x ∷ xs
    → length t.scrollback.lines < t.scrollback.limit
    → history (scrolled t x xs) ≡ history t ++ (blank t.cols ∷ [])
history-scrolled t x xs e room =
    rw (push_room t.scrollback x room, e)
      (append_assoc t.scrollback.lines (x ∷ []) (xs ++ (blank t.cols ∷ []))
        ∙ sym (append_assoc t.scrollback.lines (x ∷ xs) (blank t.cols ∷ [])))

scrolled-WholeRegion :
    (t : Terminal) (x : Row) (xs : List Row)
    → t.screen ≡ x ∷ xs
    → WholeRegion t
    → WholeRegion (scrolled t x xs)
scrolled-WholeRegion t x xs e w = record {
  top = w.top;
  bottom = w.bottom;
  full = omega (arith, length-append xs (blank t.cols ∷ []), ap length e, w.full);
  rows_pos = w.rows_pos;
}

first_row :
    (t : Terminal) (screen : List Row)
    → t.screen ≡ screen
    → WholeRegion t
    → (x : Row) × (xs : List Row) × (t.screen ≡ x ∷ xs)
first_row t [] e w = absurd (omega (arith, ap length e, w.full, w.rows_pos))
first_row t (x ∷ xs) e w = (x, xs, e)

scroll_history :
    (n : ℕ) (t : Terminal)
    → WholeRegion t
    → length t.scrollback.lines + n ≤ t.scrollback.limit
    → (u : Terminal) × (repeat n scroll_up_once t ≡ some u)
      × (history u ≡ history t ++ replicate n (blank t.cols))
unfolding repeat
scroll_history zero t w room = (t, refl, sym (append-nil (history t)))
scroll_history (suc n) t w room =
    let (x, xs, e) = first_row t t.screen refl w in
    let next = scrolled t x xs in
    let grown : length next.scrollback.lines ≡ length t.scrollback.lines + 1 =
      ap length (push_room t.scrollback x (omega arith))
      ∙ length-append t.scrollback.lines (x ∷ []) in
    let (u, done, lines) =
      scroll_history n next (scrolled-WholeRegion t x xs e w)
        (omega (arith, grown, limit-push t.scrollback x)) in
    (
      u,
      rw (scroll_up_once-scrolled t x xs e w) done,
      lines
          ∙ ap (λ (l : List Row). l ++ replicate n (blank t.cols))
              (history-scrolled t x xs e (omega arith))
          ∙ append_assoc (history t) (blank t.cols ∷ []) (replicate n (blank t.cols)),
    )

-- Scrolling the whole screen by any number of lines loses no line and reorders none while the
-- scrollback has room: scrollback and screen together are what they were, with that many blank
-- lines below.
pub history-scroll_up :
    (t : Terminal) (n : ℕ)
    → IsValid t
    → t.region_top ≡ 0
    → t.region_bottom ≡ t.rows
    → length t.scrollback.lines + n ≤ t.scrollback.limit
    → (u : Terminal) × (scroll_up t n ≡ some u)
      × (history u ≡ history t ++ replicate n (blank t.cols))
unfolding scroll_up
history-scroll_up t n v top bottom room =
    let whole : WholeRegion t = record {
      top = top;
      bottom = bottom;
      full = v.screen_fits.0;
      rows_pos = v.size.rows_pos;
    } in
    let (u, done, lines) = scroll_history n t whole room in (mark_dirty u, rw done, lines)

-- Entering the alternate screen gives a blank screen. If what then changes is the screen and the
-- cursor only, so that no other cursor is saved, leaving the alternate screen brings back the rows
-- and the cursor of the main screen, with its attributes, and the modes, and drops the saved screen.
pub alternate-screen-restored :
    (t : Terminal) (screen : List Row) (cursor : Cursor)
    → t.modes.alternate_screen ≡ false
    → let inside = switch_screen t true in
      let outside = switch_screen (record inside { screen = screen; cursor = cursor }) false in
      (inside.screen ≡ replicate t.rows (blank t.cols))
      × (outside.screen ≡ t.screen)
      × (outside.cursor ≡ t.cursor)
      × (outside.modes ≡ t.modes)
      × (outside.saved_screen ≡ none)
unfolding switch_screen
alternate-screen-restored t screen cursor m = rw m (refl, refl, refl, refl, refl)
