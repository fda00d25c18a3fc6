-- ===== src/Terminal/Parser/Strings.antt =====
-- The device control, OSC and SOS/PM/APC states of crates/rdt-terminal/src/parser.rs.
use remote_desktop_tool.Prelude.{
  ℕ, ◌-◌, true, false, ◌||◌, List, [], ◌∷◌, ◌++◌, Option, none, some, ◌==◌, within, if◌then◌else◌,
}
use remote_desktop_tool.Terminal.Parser.Types.{
  Action, State, Parser, clear, push_param, push_intermediate, accumulate,
}

unfoldable pub dcs_dispatch_start : Parser → ℕ → Parser
dcs_dispatch_start p byte =
    let q = push_param p in
    record q {
      params = [];
      intermediates = [];
      current_param = none;
      dcs_buffer = [];
      state = State.dcs_passthrough;
      pending_dcs_start = some (q.params, q.intermediates, byte);
    }

unfoldable pub dcs_entry : Parser → ℕ → Parser
dcs_entry p byte =
    if within b'0' b'9' byte
    then record p { current_param = some (byte - b'0'); state = State.dcs_param }
    else if byte == b';'
    then record (push_param p) { state = State.dcs_param }
    else if within 0x3C 0x3F byte
    then record (push_intermediate p byte) { state = State.dcs_param }
    else if within 0x20 0x2F byte
    then record (push_intermediate p byte) { state = State.dcs_intermediate }
    else if within 0x40 0x7E byte
    then dcs_dispatch_start p byte
    else p

unfoldable pub dcs_param : Parser → ℕ → Parser
dcs_param p byte =
    if within b'0' b'9' byte
    then record p { current_param = some (accumulate p.current_param (byte - b'0')) }
    else if byte == b';'
    then push_param p
    else if within 0x3C 0x3F byte
    then record p { state = State.dcs_ignore }
    else if within 0x20 0x2F byte
    then record (push_intermediate p byte) { state = State.dcs_intermediate }
    else if within 0x40 0x7E byte
    then dcs_dispatch_start p byte
    else p

unfoldable pub dcs_intermediate : Parser → ℕ → Parser
dcs_intermediate p byte =
    if within 0x20 0x2F byte
    then push_intermediate p byte
    else if within 0x30 0x3F byte
    then record p { state = State.dcs_ignore }
    else if within 0x40 0x7E byte
    then dcs_dispatch_start p byte
    else p

-- `if let Some(..) = self.pending_dcs_start.take()`.
abbrev pub start_action : Option (List ℕ × List ℕ × ℕ) → List Action
start_action none = []
start_action (some (params, intermediates, action)) =
    Action.dcs_start params intermediates action ∷ []

-- `if !self.dcs_buffer.is_empty()`.
abbrev pub data_action : List ℕ → List Action
data_action [] = []
data_action (byte ∷ bytes) = Action.dcs_data (byte ∷ bytes) ∷ []

unfoldable pub dcs_passthrough : Parser → ℕ → Parser × List Action
dcs_passthrough p byte =
    let first = start_action p.pending_dcs_start in
    let q = record p { pending_dcs_start = none } in
    let ended = first ++ (data_action p.dcs_buffer ++ (Action.dcs_end ∷ [])) in
    if within 0x00 0x17 byte || byte == 0x19 || within 0x1C 0x7E byte
    then (record q { dcs_buffer = p.dcs_buffer ++ (byte ∷ []) }, first)
    else if byte == 0x7F
    then (q, first)
    else if byte == 0x1B
    then (record (clear q) { state = State.escape }, ended)
    else (record q { dcs_buffer = []; state = State.ground }, ended)

unfoldable pub dcs_ignore : Parser → ℕ → Parser
dcs_ignore p byte = p

-- One more character at the front of the first part.
abbrev pub grow : ℕ → List (List ℕ) → List (List ℕ)
grow c [] = (c ∷ []) ∷ []
grow c (part ∷ parts) = (c ∷ part) ∷ parts

-- `str::split(';')` of the standard library.
unfoldable pub split_osc : List ℕ → List (List ℕ)
split_osc [] = [] ∷ []
split_osc (c ∷ cs) = if c == b';' then [] ∷ split_osc cs else grow c (split_osc cs)

unfoldable pub osc_string : Parser → ℕ → Parser × List Action
osc_string p byte =
    if byte == 0x07
    then (
      record p { osc_buffer = []; state = State.ground },
      Action.osc (split_osc p.osc_buffer) true ∷ [],
    )
    else if byte == 0x1B
    then (
      record p { osc_buffer = []; state = State.escape },
      Action.osc (split_osc p.osc_buffer) false ∷ [],
    )
    else if within 0x20 0x7F byte
    then (record p { osc_buffer = p.osc_buffer ++ (byte ∷ []) }, [])
    else (p, [])

unfoldable pub sos_pm_apc : Parser → ℕ → Parser
sos_pm_apc p byte = if byte == 0x07 then record p { state = State.ground } else p
