-- ===== src/Terminal/Parser/Tests.antt =====
-- The parser on the inputs of its own unit tests.
use remote_desktop_tool.Prelude.{ℕ, ◌≡◌, refl, false, Option, some, ◌>>=◌, List, [], ◌∷◌}
use remote_desktop_tool.Terminal.Parser.Types.{Action, new}
use remote_desktop_tool.Terminal.Parser.Utf8.{
  ground, ground_idle, utf8, utf8_start, utf8_continue, decode_utf8,
}
use remote_desktop_tool.Terminal.Parser.Control.{
  escape, escape_intermediate, csi_entry, csi_param, csi_intermediate, csi_ignore, csi_dispatch,
}
use remote_desktop_tool.Terminal.Parser.Strings.{
  dcs_entry, dcs_param, dcs_intermediate, dcs_passthrough, dcs_ignore, dcs_dispatch_start,
  osc_string, sos_pm_apc, split_osc,
}
use remote_desktop_tool.Terminal.Parser.{dispatch, step, advance}

parse : List ℕ → Option (List Action)
unfolding advance step dispatch ground ground_idle utf8 utf8_start utf8_continue decode_utf8 escape
    escape_intermediate csi_entry csi_param csi_intermediate csi_ignore csi_dispatch dcs_entry
    dcs_param dcs_intermediate dcs_passthrough dcs_ignore dcs_dispatch_start osc_string sos_pm_apc
    split_osc
parse bytes = do r ← advance new bytes; some r.1

cursor_movement :
    parse (0x1B ∷ b'[' ∷ b'1' ∷ b'2' ∷ b';' ∷ b'3' ∷ b'4' ∷ b'H' ∷ [])
    ≡ some (Action.csi (12 ∷ 34 ∷ []) [] false b'H' ∷ [])
unfolding parse
cursor_movement = refl

two_bytes : parse (0xC3 ∷ 0xA9 ∷ []) ≡ some (Action.print 0xE9 ∷ [])
unfolding parse
two_bytes = refl

broken_sequence : parse (0xC3 ∷ b'a' ∷ []) ≡ some (Action.print 0xFFFD ∷ Action.print b'a' ∷ [])
unfolding parse
broken_sequence = refl

title :
    parse (0x1B ∷ b']' ∷ b'2' ∷ b';' ∷ b't' ∷ 0x1B ∷ b'\\' ∷ [])
    ≡ some (Action.osc ((b'2' ∷ []) ∷ (b't' ∷ []) ∷ []) false ∷ [])
unfolding parse
title = refl

device_control :
    parse (0x1B ∷ b'P' ∷ b'1' ∷ b'$' ∷ b'r' ∷ b'x' ∷ 0x1B ∷ b'\\' ∷ [])
    ≡ some (
        Action.dcs_start (1 ∷ []) (b'$' ∷ []) b'r'
        ∷ Action.dcs_data (b'x' ∷ [])
        ∷ Action.dcs_end
        ∷ [])
unfolding parse
device_control = refl
