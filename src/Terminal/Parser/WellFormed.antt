-- ===== src/Terminal/Parser/WellFormed.antt =====
-- The invariant of the parser of crates/rdt-terminal/src/parser.rs: the UTF-8 buffer is never
-- written out of bounds, and every number that is read fits into a `u16`.
use remote_desktop_tool.Prelude.{
  ℕ, ◌+◌, ◌≤◌, ◌<◌, ◌≡◌, ◌⊎◌, inl, inr, arith, List, [], ◌∷◌, ◌++◌, Option, none, some, ◌==◌,
  Bool-cases, set, length, length-set, All, All-append, Ensures, Ensures-bind, Ensures-some,
}
use remote_desktop_tool.Terminal.Parser
use remote_desktop_tool.Terminal.Parser.{handles_escape}
use remote_desktop_tool.Terminal.Parser.Types.{Parser, Action, State, new, u16_max, unwrap_or_zero}
use remote_desktop_tool.Terminal.Parser.Utf8
use remote_desktop_tool.Terminal.Parser.Utf8.{
  decode_utf8, utf8, utf8_start, utf8_continue, ground_idle, prefix, unwrap_or_replacement,
  is_continuation,
}
use remote_desktop_tool.Terminal.Parser.Control.{
  escape, escape_intermediate, csi_entry, csi_param, csi_intermediate, csi_ignore, csi_dispatch,
}
use remote_desktop_tool.Terminal.Parser.Strings.{
  dcs_entry, dcs_param, dcs_intermediate, dcs_passthrough, dcs_ignore, dcs_dispatch_start,
  osc_string, sos_pm_apc, start_action, data_action,
}

abbrev pub AreU16 : List ℕ → Type 0
AreU16 ns = All (λ n. n ≤ u16_max) ns

abbrev pub IsU16? : Option ℕ → Type 0
IsU16? none = Unit
IsU16? (some n) = n ≤ u16_max

abbrev pub PendingFits : Option (List ℕ × List ℕ × ℕ) → Type 0
PendingFits none = Unit
PendingFits (some (params, intermediates, action)) = AreU16 params

pub record WellFormed (p : Parser) : Type 0 where
  pub four_bytes : length p.utf8 ≡ 4
  pub open_sequence : (p.utf8_len ≡ 0) ⊎ ((p.utf8_len < p.utf8_expected) × (p.utf8_expected ≤ 4))
  pub params_fit : AreU16 p.params
  pub current_fits : IsU16? p.current_param
  pub pending_fits : PendingFits p.pending_dcs_start

-- A Unicode scalar value.
abbrev pub IsScalar : ℕ → Type 0
IsScalar c = (c < 0xD800) ⊎ ((0xDFFF < c) × (c < 0x110000))

-- The numbers of an action are `u16` values, and what is printed is a character.
abbrev pub ActionFits : Action → Type 0
ActionFits (Action.print c) = IsScalar c
ActionFits (Action.csi params intermediates ignore action) = AreU16 params
ActionFits (Action.dcs_start params intermediates action) = AreU16 params
ActionFits _ = Unit

abbrev pub StepFits : Parser × List Action → Type 0
StepFits (p, actions) = WellFormed p × All ActionFits actions

push_param-fits :
    (p : Parser) → WellFormed p → AreU16 (p.params ++ (unwrap_or_zero p.current_param ∷ []))
push_param-fits p w = All-append (λ n. n ≤ u16_max) p.params _ w.params_fit (ground arith, tt)

-- What is decoded, or put in the place of what cannot be, is a character.
decoded-IsScalar : (bytes : List ℕ) → IsScalar (unwrap_or_replacement (decode_utf8 bytes))
unfolding decode_utf8
decoded-IsScalar [] = ground arith
decoded-IsScalar (a ∷ []) = ground arith
decoded-IsScalar (a ∷ b ∷ []) = ground arith
decoded-IsScalar (a ∷ b ∷ c ∷ []) = ground arith
decoded-IsScalar (a ∷ b ∷ c ∷ d ∷ []) = ground arith
decoded-IsScalar (a ∷ b ∷ c ∷ d ∷ e ∷ rest) = ground arith

utf8_start-fits : (p : Parser) (byte : ℕ) → WellFormed p → StepFits (utf8_start p byte)
unfolding utf8_start
utf8_start-fits p byte w = ground (arith, length-set p.utf8 0 byte)

utf8_continue-fits :
    (p : Parser) (byte : ℕ)
    → WellFormed p
    → 0 < p.utf8_len
    → Ensures StepFits (utf8_continue p byte)
unfolding utf8_continue
utf8_continue-fits p byte w begun = ground (
  arith,
  length-set p.utf8 p.utf8_len byte,
  decoded-IsScalar (prefix (p.utf8_len + 1) (set p.utf8 p.utf8_len byte)),
)

ground_idle-fits : (p : Parser) (byte : ℕ) → WellFormed p → StepFits (ground_idle p byte)
unfolding ground_idle
ground_idle-fits p byte w = ground (arith, utf8_start-fits p byte w)

utf8-fits : (p : Parser) (byte : ℕ) → WellFormed p → Ensures StepFits (utf8 p byte)
unfolding utf8
utf8-fits p byte w = elim (Bool-cases (p.utf8_len == 0)) [
  | inl closed ↦ rw closed (utf8_start-fits p byte w)
  | inr begun ↦ rw begun (elim (Bool-cases (is_continuation byte)) [
    | inl more ↦ rw more (utf8_continue-fits p byte w (ground arith))
    | inr broken ↦
        let q = record p { utf8_len = 0; utf8_expected = 0 } in
        let kept : WellFormed q = ground arith in
        let (w', fits) = ground_idle-fits q byte kept in rw broken (w', (ground arith, fits))
  ])
]

ground-fits : (p : Parser) (byte : ℕ) → WellFormed p → Ensures StepFits (Utf8.ground p byte)
unfolding Utf8.ground
ground-fits p byte w = ground (arith, utf8-fits p byte w)

module _ (p : Parser) (byte : ℕ) (w : WellFormed p) where
  escape-fits : StepFits (escape p byte)
  unfolding escape
  escape-fits = ground arith

  csi_param-fits : StepFits (csi_param p byte)
  unfolding csi_param csi_dispatch
  csi_param-fits = ground (arith, push_param-fits p w)

  escape_intermediate-fits : StepFits (escape_intermediate p byte)
  unfolding escape_intermediate
  escape_intermediate-fits = ground arith

  csi_entry-fits : StepFits (csi_entry p byte)
  unfolding csi_entry csi_dispatch
  csi_entry-fits = ground (arith, push_param-fits p w)

  csi_intermediate-fits : StepFits (csi_intermediate p byte)
  unfolding csi_intermediate csi_dispatch
  csi_intermediate-fits = ground (arith, push_param-fits p w)

  csi_ignore-fits : StepFits (csi_ignore p byte)
  unfolding csi_ignore
  csi_ignore-fits = ground arith

  dcs_entry-fits : WellFormed (dcs_entry p byte)
  unfolding dcs_entry dcs_dispatch_start
  dcs_entry-fits = ground (arith, push_param-fits p w)

  dcs_param-fits : WellFormed (dcs_param p byte)
  unfolding dcs_param dcs_dispatch_start
  dcs_param-fits = ground (arith, push_param-fits p w)

  dcs_intermediate-fits : WellFormed (dcs_intermediate p byte)
  unfolding dcs_intermediate dcs_dispatch_start
  dcs_intermediate-fits = ground (arith, push_param-fits p w)

  data_action-fits : (bytes : List ℕ) → All ActionFits (data_action bytes ++ (Action.dcs_end ∷ []))
  data_action-fits [] = (tt, tt)
  data_action-fits (b ∷ bytes) = (tt, (tt, tt))

  start_action-fits :
      (pending : Option (List ℕ × List ℕ × ℕ))
      → PendingFits pending
      → All ActionFits (start_action pending)
  start_action-fits none h = tt
  start_action-fits (some (params, intermediates, action)) h = (h, tt)

  dcs_passthrough-fits : StepFits (dcs_passthrough p byte)
  unfolding dcs_passthrough
  dcs_passthrough-fits =
      let first = start_action-fits p.pending_dcs_start w.pending_fits in
      ground (
        arith,
        first,
        All-append ActionFits (start_action p.pending_dcs_start) _ first
            (data_action-fits p.dcs_buffer),
      )

  osc_string-fits : StepFits (osc_string p byte)
  unfolding osc_string
  osc_string-fits = ground arith

  sos_pm_apc-fits : WellFormed (sos_pm_apc p byte)
  unfolding sos_pm_apc
  sos_pm_apc-fits = ground arith

dispatch-fits :
    (s : State) (p : Parser) (byte : ℕ) → WellFormed p → Ensures StepFits (Parser.dispatch s p byte)
unfolding Parser.dispatch dcs_ignore
dispatch-fits State.ground p byte w = ground-fits p byte w
dispatch-fits State.escape p byte w = escape-fits p byte w
dispatch-fits State.escape_intermediate p byte w = escape_intermediate-fits p byte w
dispatch-fits State.csi_entry p byte w = csi_entry-fits p byte w
dispatch-fits State.csi_param p byte w = csi_param-fits p byte w
dispatch-fits State.csi_intermediate p byte w = csi_intermediate-fits p byte w
dispatch-fits State.csi_ignore p byte w = csi_ignore-fits p byte w
dispatch-fits State.dcs_entry p byte w = (dcs_entry-fits p byte w, tt)
dispatch-fits State.dcs_param p byte w = (dcs_param-fits p byte w, tt)
dispatch-fits State.dcs_intermediate p byte w = (dcs_intermediate-fits p byte w, tt)
dispatch-fits State.dcs_passthrough p byte w = dcs_passthrough-fits p byte w
dispatch-fits State.dcs_ignore p byte w = (w, tt)
dispatch-fits State.osc_string p byte w = osc_string-fits p byte w
dispatch-fits State.sos_pm_apc_string p byte w = (sos_pm_apc-fits p byte w, tt)

step-fits : (p : Parser) (byte : ℕ) → WellFormed p → Ensures StepFits (Parser.step p byte)
unfolding Parser.step
step-fits p byte w = ground (arith, dispatch-fits p.state p byte w)

pub advance-Ensures :
    (bytes : List ℕ) (p : Parser) → WellFormed p → Ensures StepFits (Parser.advance p bytes)
unfolding Parser.advance
advance-Ensures [] p w = (w, tt)
advance-Ensures (byte ∷ bytes) p w =
    Ensures-bind StepFits StepFits (Parser.step p byte) _ (step-fits p byte w) (λ s first.
      Ensures-bind StepFits StepFits (Parser.advance s.0 bytes) _
        (advance-Ensures bytes s.0 first.0)
        (λ r rest. (rest.0, All-append ActionFits s.1 r.1 first.1 rest.1)))

-- From a well-formed parser, such as a new one, any bytes are taken without a panic and leave a
-- well-formed parser: the UTF-8 buffer has room for the next byte, and the parameters that are
-- collected are `u16` values. So are those of every action, and every printed character is a Unicode
-- scalar value.
pub advance-fits :
    (bytes : List ℕ) (p : Parser)
    → WellFormed p
    → (r : Parser × List Action) × (Parser.advance p bytes ≡ some r) × StepFits r
advance-fits bytes p w = Ensures-some StepFits _ (advance-Ensures bytes p w)

pub new-WellFormed : WellFormed new
new-WellFormed = ground arith
