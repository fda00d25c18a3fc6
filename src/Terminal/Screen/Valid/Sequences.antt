-- ===== src/Terminal/Screen/Valid/Sequences.antt =====
-- `csi`, `esc`, `osc` and the actions of the parser keep the invariant, and do not panic.
use remote_desktop_tool.Prelude.{
  ℕ, ◌-◌, ◌≡◌, Bool, true, false, not, List, [], ◌∷◌, Option, some, arith, ◌==◌, ◌||◌,
  if◌then◌else◌, Ensures-bind, Ensures-some,
}
use remote_desktop_tool.Terminal.Grid.{Attrs}
use remote_desktop_tool.Terminal.Parser
use remote_desktop_tool.Terminal.Parser.Types.{Action, Parser}
use remote_desktop_tool.Terminal.Parser.WellFormed.{WellFormed, StepFits, advance-Ensures}
use remote_desktop_tool.Terminal.Screen.{apply, apply_all, advance}
use remote_desktop_tool.Terminal.Screen.Types.{Terminal, set_col, set_attrs, mark_dirty, new}
use remote_desktop_tool.Terminal.Screen.Attributes.{sgr}
use remote_desktop_tool.Terminal.Screen.Scroll.{line_feed, reverse_index}
use remote_desktop_tool.Terminal.Screen.Control.{
  contains, param, set_insert, csi_action, csi, esc, osc, is_title, move_cursor_up,
  move_cursor_down,
}
use remote_desktop_tool.Terminal.Screen.Valid.{
  IsValid, Safe, Safe-bind, Ensures-if, with_cursor-IsValid, set_row-IsValid, set_col-IsValid,
  new-IsValid,
}
use remote_desktop_tool.Terminal.Screen.Valid.Scroll.{
  scroll_up-Safe, scroll_down-Safe, line_feed-Safe, reverse_index-Safe, insert_lines-Safe,
  delete_lines-Safe,
}
use remote_desktop_tool.Terminal.Screen.Valid.Write.{print-Safe, execute-Safe}
use remote_desktop_tool.Terminal.Screen.Valid.Erase.{
  erase_display-Safe, erase_line-Safe, delete_chars-Safe, insert_chars-Safe, erase_chars-Safe,
}
use remote_desktop_tool.Terminal.Screen.Valid.Control.{
  if-IsValid, move_cursor_up-IsValid, move_cursor_down-IsValid, move_cursor_right-IsValid,
  move_cursor_left-IsValid, clamp_row-lt, cursor_position-IsValid, set_region-IsValid,
  save_cursor-IsValid, restore_cursor-IsValid, set_private_mode-IsValid,
}

set_attrs-IsValid : (t : Terminal) (attrs : Attrs) → IsValid t → IsValid (set_attrs t attrs)
set_attrs-IsValid t attrs v = with_cursor-IsValid t _ v (omega arith)

sgr-IsValid : (t : Terminal) (params : List ℕ) → IsValid t → IsValid (sgr t params)
unfolding sgr
sgr-IsValid t [] v = set_attrs-IsValid t _ v
sgr-IsValid t (code ∷ rest) v = set_attrs-IsValid t _ v

-- One arm of the `match`, and the arms after it.
arm : (b : Bool) (m n : Option Terminal) → Safe m → Safe n → Safe (if b then m else n)
arm = Ensures-if IsValid

csi_action-Safe :
    (t : Terminal) (params : List ℕ) (action : ℕ) → IsValid t → Safe (csi_action t params action)
unfolding csi_action
csi_action-Safe t params action v =
    let first : ℕ = param params 0 1 in
    arm (action == b'A') _ _ (move_cursor_up-IsValid t v _) (
      arm (action == b'B' || action == b'e') _ _ (move_cursor_down-IsValid t v _) (
        arm (action == b'C' || action == b'a') _ _ (move_cursor_right-IsValid t v _) (
          arm (action == b'D') _ _ (move_cursor_left-IsValid t v _) (
            arm (action == b'E') _ _
              (set_col-IsValid (move_cursor_down t first) 0 (move_cursor_down-IsValid t v first)
                (omega arith))
              (arm (action == b'F') _ _
                (set_col-IsValid (move_cursor_up t first) 0 (move_cursor_up-IsValid t v first)
                  (omega arith))
                (arm (action == b'G' || action == b'`') _ _ (set_col-IsValid t _ v (omega arith)) (
                  arm (action == b'H' || action == b'f') _ _ (cursor_position-IsValid t v params) (
                    arm (action == b'd') _ _ (set_row-IsValid t _ v (clamp_row-lt t v (first - 1)))
                      (arm (action == b'J') _ _ (erase_display-Safe t _ v) (
                        arm (action == b'K') _ _ (erase_line-Safe t _ v) (
                          arm (action == b'L') _ _ (insert_lines-Safe t _ v) (
                            arm (action == b'M') _ _ (delete_lines-Safe t _ v) (
                              arm (action == b'P') _ _ (delete_chars-Safe t _ v) (
                                arm (action == b'@') _ _ (insert_chars-Safe t _ v) (
                                  arm (action == b'X') _ _ (erase_chars-Safe t _ v) (
                                    arm (action == b'S') _ _ (scroll_up-Safe t _ v) (
                                      arm (action == b'T') _ _ (scroll_down-Safe t _ v) (
                                        arm (action == b'r') _ _ (set_region-IsValid t v params) (
                                          arm (action == b's') _ _ (save_cursor-IsValid t v) (
                                            arm (action == b'u') _ _ (restore_cursor-IsValid t v) (
                                              arm (action == b'm') _ _ (sgr-IsValid t params v) (
                                                arm (action == b'h') _ _
                                                  (if-IsValid (param params 0 0 == 4)
                                                    (set_insert t true) t v v)
                                                  (arm (action == b'l') _ _
                                                    (if-IsValid (param params 0 0 == 4)
                                                      (set_insert t false) t v v)
                                                    v)))))))))))))))))))))))

csi-Safe :
    (t : Terminal) (params intermediates : List ℕ) (action : ℕ)
    → IsValid t
    → Safe (csi t params intermediates action)
unfolding csi
csi-Safe t params intermediates action v =
    arm (contains intermediates b'?') _ _
      (set_private_mode-IsValid t (param params 0 0) (action == b'h') v)
      (Safe-bind (csi_action t params action) _ (csi_action-Safe t params action v) (λ u w. w))

esc-Safe :
    (t : Terminal) (intermediates : List ℕ) (action : ℕ)
    → IsValid t
    → Safe (esc t intermediates action)
unfolding esc
esc-Safe t intermediates action v =
    Safe-bind _ (λ u. some (mark_dirty u))
      (arm (action == b'7') _ _ (save_cursor-IsValid t v) (
        arm (action == b'8') _ _ (restore_cursor-IsValid t v) (
          arm (action == b'D') (line_feed t) _ (line_feed-Safe t v) (
            arm (action == b'M') (reverse_index t) _ (reverse_index-Safe t v) (
              arm (action == b'E') (line_feed (set_col t 0)) _
                (line_feed-Safe (set_col t 0) (set_col-IsValid t 0 v (omega arith)))
                (arm (action == b'c') (some (new t.cols t.rows)) _ (new-IsValid t.cols t.rows)
                  (arm (action == b'=') _ _ v (arm (action == b'>') _ (some t) v v))))))))
      (λ u w. w)

osc-IsValid : (t : Terminal) (params : List (List ℕ)) → IsValid t → IsValid (osc t params)
unfolding osc
osc-IsValid t [] v = v
osc-IsValid t (kind ∷ []) v = v
osc-IsValid t (kind ∷ title ∷ rest) v =
    if-IsValid (is_title kind) (record t { title = title }) t v v

pub apply-Safe : (t : Terminal) (a : Action) → IsValid t → Safe (apply t a)
unfolding apply
apply-Safe t (Action.print ch) v = print-Safe t ch v
apply-Safe t (Action.execute code) v = execute-Safe t code v
apply-Safe t (Action.csi params intermediates ignore action) v =
    arm (not ignore) _ (some t) (csi-Safe t params intermediates action v) v
apply-Safe t (Action.esc intermediates ignore action) v =
    arm (not ignore) _ (some t) (esc-Safe t intermediates action v) v
apply-Safe t (Action.osc params bell_terminated) v = osc-IsValid t params v
apply-Safe t _ v = v

with_parser-IsValid :
    (t : Terminal) (parser : Parser)
    → IsValid t
    → WellFormed parser
    → IsValid (record t { parser = parser })
with_parser-IsValid t parser v w = record {
  size = v.size;
  screen_fits = v.screen_fits;
  cursor_fits = v.cursor_fits;
  region_fits = v.region_fits;
  saved_screen_fits = v.saved_screen_fits;
  saved_cursor_fits = v.saved_cursor_fits;
  parser_fits = w;
}

pub apply_all-Safe : (actions : List Action) (t : Terminal) → IsValid t → Safe (apply_all t actions)
unfolding apply_all
apply_all-Safe [] t v = v
apply_all-Safe (a ∷ actions) t v =
    Safe-bind (apply t a) _ (apply-Safe t a v) (λ u w. apply_all-Safe actions u w)

-- Whatever bytes the remote side sends, a valid terminal takes them without a panic in its parser or
-- on its screen, and is valid afterwards: its rows, its cursors and its scroll region fit its size, and
-- its parser has room in the UTF-8 buffer for the next byte.
pub advance-IsValid :
    (t : Terminal) (bytes : List ℕ)
    → IsValid t
    → (u : Terminal) × (advance t bytes ≡ some u) × IsValid u
unfolding advance
advance-IsValid t bytes v = Ensures-some IsValid _ (
    Ensures-bind StepFits IsValid (Parser.advance t.parser bytes) _
      (advance-Ensures bytes t.parser v.parser_fits)
      (λ s fits.
        apply_all-Safe s.1 (record t { parser = s.0 }) (with_parser-IsValid t s.0 v fits.0)))
