-- ===== src/Terminal/Parser/Control.antt =====
-- The escape and CSI states of crates/rdt-terminal/src/parser.rs.
use remote_desktop_tool.Prelude.{
  ℕ, ◌-◌, true, false, ◌||◌, List, [], ◌∷◌, none, some, ◌==◌, within, if◌then◌else◌,
}
use remote_desktop_tool.Terminal.Parser.Types.{
  Action, State, Parser, push_param, push_intermediate, accumulate,
}

-- A complete escape sequence: what both escape states do at a final byte.
abbrev pub esc_dispatch : Parser → ℕ → Parser × List Action
esc_dispatch p byte = (
  record p { intermediates = []; state = State.ground },
  Action.esc p.intermediates false byte ∷ [],
)

unfoldable pub escape : Parser → ℕ → Parser × List Action
escape p byte =
    if byte == b'['
    then (record p { state = State.csi_entry }, [])
    else if byte == b']'
    then (record p { osc_buffer = []; state = State.osc_string }, [])
    else if byte == b'P'
    then (record p { state = State.dcs_entry }, [])
    else if byte == b'X' || byte == b'^' || byte == b'_'
    then (record p { state = State.sos_pm_apc_string }, [])
    else if byte == b'\\'
    then (record p { state = State.ground }, [])
    else if within 0x20 0x2F byte
    then (record (push_intermediate p byte) { state = State.escape_intermediate }, [])
    else if within 0x30 0x7E byte
    then esc_dispatch p byte
    else (record p { state = State.ground }, [])

unfoldable pub escape_intermediate : Parser → ℕ → Parser × List Action
escape_intermediate p byte =
    if within 0x20 0x2F byte
    then (push_intermediate p byte, [])
    else if within 0x30 0x7E byte
    then esc_dispatch p byte
    else (record p { state = State.ground }, [])

-- What `csi_dispatch` and `csi_ignore` leave behind.
abbrev pub csi_done : Parser → Parser
csi_done p = record p {
  params = [];
  intermediates = [];
  ignore = false;
  current_param = none;
  state = State.ground;
}

unfoldable pub csi_dispatch : Parser → ℕ → Parser × List Action
csi_dispatch p byte =
    let q = push_param p in (csi_done q, Action.csi q.params q.intermediates q.ignore byte ∷ [])

unfoldable pub csi_entry : Parser → ℕ → Parser × List Action
csi_entry p byte =
    if within b'0' b'9' byte
    then (record p { current_param = some (byte - b'0'); state = State.csi_param }, [])
    else if byte == b';'
    then (record (push_param p) { state = State.csi_param }, [])
    else if byte == b':'
    then (record (push_param p) { state = State.csi_ignore }, [])
    else if within 0x3C 0x3F byte
    then (record (push_intermediate p byte) { state = State.csi_param }, [])
    else if within 0x20 0x2F byte
    then (record (push_intermediate p byte) { state = State.csi_intermediate }, [])
    else if within 0x40 0x7E byte
    then csi_dispatch p byte
    else (p, [])

unfoldable pub csi_param : Parser → ℕ → Parser × List Action
csi_param p byte =
    if within b'0' b'9' byte
    then (record p { current_param = some (accumulate p.current_param (byte - b'0')) }, [])
    else if byte == b';'
    then (push_param p, [])
    else if byte == b':'
    then (record (push_param p) { state = State.csi_ignore }, [])
    else if within 0x20 0x2F byte
    then (record (push_intermediate p byte) { state = State.csi_intermediate }, [])
    else if within 0x40 0x7E byte
    then csi_dispatch p byte
    else if within 0x3C 0x3F byte
    then (record p { ignore = true; state = State.csi_ignore }, [])
    else (p, [])

unfoldable pub csi_intermediate : Parser → ℕ → Parser × List Action
csi_intermediate p byte =
    if within 0x20 0x2F byte
    then (push_intermediate p byte, [])
    else if within 0x30 0x3F byte
    then (record p { ignore = true; state = State.csi_ignore }, [])
    else if within 0x40 0x7E byte
    then csi_dispatch p byte
    else (p, [])

unfoldable pub csi_ignore : Parser → ℕ → Parser × List Action
csi_ignore p byte =
    if within 0x40 0x7E byte
    then (csi_done p, Action.csi p.params p.intermediates true byte ∷ [])
    else (p, [])
