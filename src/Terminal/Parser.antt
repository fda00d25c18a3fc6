-- ===== src/Terminal/Parser.antt =====
-- crates/rdt-terminal/src/parser.rs: the state machine from bytes to actions.
-- A handler gets the parser and the byte, and returns the new parser with the actions that it
-- pushes onto `out`, oldest first; `none` is a panic. A byte is a number below 256, a text a list of code points.
pub mod Types
pub mod Utf8
pub mod Control
pub mod Strings
pub mod Chunks
pub mod Params
pub mod Resync
pub mod WellFormed
mod Tests
use remote_desktop_tool.Prelude.{
  ℕ, Bool, true, false, not, ◌&&◌, ◌||◌, List, [], ◌∷◌, ◌++◌, Option, some, ◌>>=◌, ◌==◌,
  if◌then◌else◌,
}
use remote_desktop_tool.Terminal.Parser.Types.{Action, State, Parser, new, clear}
use remote_desktop_tool.Terminal.Parser.Utf8.{ground}
use remote_desktop_tool.Terminal.Parser.Control.{
  escape, escape_intermediate, csi_entry, csi_param, csi_intermediate, csi_ignore,
}
use remote_desktop_tool.Terminal.Parser.Strings.{
  dcs_entry, dcs_param, dcs_intermediate, dcs_passthrough, dcs_ignore, osc_string, sos_pm_apc,
}

-- The states that handle ESC themselves.
abbrev pub handles_escape : State → Bool
handles_escape State.osc_string = true
handles_escape State.dcs_passthrough = true
handles_escape State.sos_pm_apc_string = true
handles_escape _ = false

-- The `match self.state` of `step`.
unfoldable pub dispatch : State → Parser → ℕ → Option (Parser × List Action)
dispatch State.ground p byte = ground p byte
dispatch State.escape p byte = some (escape p byte)
dispatch State.escape_intermediate p byte = some (escape_intermediate p byte)
dispatch State.csi_entry p byte = some (csi_entry p byte)
dispatch State.csi_param p byte = some (csi_param p byte)
dispatch State.csi_intermediate p byte = some (csi_intermediate p byte)
dispatch State.csi_ignore p byte = some (csi_ignore p byte)
dispatch State.dcs_entry p byte = some (dcs_entry p byte, [])
dispatch State.dcs_param p byte = some (dcs_param p byte, [])
dispatch State.dcs_intermediate p byte = some (dcs_intermediate p byte, [])
dispatch State.dcs_passthrough p byte = some (dcs_passthrough p byte)
dispatch State.dcs_ignore p byte = some (dcs_ignore p byte, [])
dispatch State.osc_string p byte = some (osc_string p byte)
dispatch State.sos_pm_apc_string p byte = some (sos_pm_apc p byte, [])

unfoldable pub step : Parser → ℕ → Option (Parser × List Action)
step p byte =
    if byte == 0x18 || byte == 0x1A
    then some (record (clear p) { state = State.ground }, Action.execute byte ∷ [])
    else if byte == 0x1B && not (handles_escape p.state)
    then some (record (clear p) { state = State.escape }, [])
    else dispatch p.state p byte

-- `Parser::advance`; `advance_byte` is `step`.
unfoldable pub advance : Parser → List ℕ → Option (Parser × List Action)
advance p [] = some (p, [])
advance p (byte ∷ bytes) = do
  s ← step p byte
  rest ← advance s.0 bytes
  some (rest.0, s.1 ++ rest.1)

-- `Parser::reset`.
unfoldable pub reset : Parser → Parser
reset p = new
