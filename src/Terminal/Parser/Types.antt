-- ===== src/Terminal/Parser/Types.antt =====
-- The types of crates/rdt-terminal/src/parser.rs, and the helpers of all its handlers.
use remote_desktop_tool.Prelude.{
  ℕ, ◌*◌, ◌+◌, Bool, false, List, [], ◌∷◌, ◌++◌, Option, none, some, replicate, min,
}

pub data Action : Type 0 where
  print : ℕ → Action
  execute : ℕ → Action
  csi : List ℕ → List ℕ → Bool → ℕ → Action
  esc : List ℕ → Bool → ℕ → Action
  osc : List (List ℕ) → Bool → Action
  dcs_start : List ℕ → List ℕ → ℕ → Action
  dcs_data : List ℕ → Action
  dcs_end : Action

pub data State : Type 0 where
  ground escape escape_intermediate : State
  csi_entry csi_param csi_intermediate csi_ignore : State
  dcs_entry dcs_param dcs_intermediate dcs_passthrough dcs_ignore : State
  osc_string sos_pm_apc_string : State

-- `utf8` is the array of four bytes.
pub record Parser : Type 0 where
  pub state : State
  pub params : List ℕ
  pub current_param : Option ℕ
  pub intermediates : List ℕ
  pub ignore : Bool
  pub osc_buffer : List ℕ
  pub dcs_buffer : List ℕ
  pub utf8 : List ℕ
  pub utf8_len : ℕ
  pub utf8_expected : ℕ
  pub pending_dcs_start : Option (List ℕ × List ℕ × ℕ)

abbrev pub new : Parser
new = record {
  state = ground;
  params = [];
  current_param = none;
  intermediates = [];
  ignore = false;
  osc_buffer = [];
  dcs_buffer = [];
  utf8 = replicate 4 0;
  utf8_len = 0;
  utf8_expected = 0;
  pending_dcs_start = none;
}

abbrev pub clear : Parser → Parser
clear p = record p {
  params = [];
  current_param = none;
  intermediates = [];
  ignore = false;
  osc_buffer = [];
  dcs_buffer = [];
  utf8_len = 0;
  utf8_expected = 0;
}

abbrev pub unwrap_or_zero : Option ℕ → ℕ
unwrap_or_zero none = 0
unwrap_or_zero (some n) = n

abbrev pub push_param : Parser → Parser
push_param p = record p {
  params = p.params ++ (unwrap_or_zero p.current_param ∷ []);
  current_param = none;
}

abbrev pub push_intermediate : Parser → ℕ → Parser
push_intermediate p byte = record p { intermediates = p.intermediates ++ (byte ∷ []) }

abbrev pub u16_max : ℕ
u16_max = 65535

-- `unwrap_or(0).saturating_mul(10).saturating_add(digit).min(u16::MAX)`.
abbrev pub accumulate : Option ℕ → ℕ → ℕ
accumulate current digit =
    min (min (min (unwrap_or_zero current * 10) u16_max + digit) u16_max) u16_max
