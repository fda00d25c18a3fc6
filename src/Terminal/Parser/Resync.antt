-- ===== src/Terminal/Parser/Resync.antt =====
-- How the parser of crates/rdt-terminal/src/parser.rs gets out of a sequence, and where it does not.
use remote_desktop_tool.Prelude.{ℕ, ◌≡◌, ◌≢◌, refl, arith, List, [], ◌∷◌, some, All}
use remote_desktop_tool.Terminal.Parser
use remote_desktop_tool.Terminal.Parser.{handles_escape}
use remote_desktop_tool.Terminal.Parser.Types.{Parser, State}
use remote_desktop_tool.Terminal.Parser.Strings.{sos_pm_apc}

-- Neither BEL nor CAN nor SUB.
abbrev pub IsSwallowed : ℕ → Type 0
IsSwallowed byte = (byte ≢ 0x07) × (byte ≢ 0x18) × (byte ≢ 0x1A)

step_swallowed :
    (p : Parser) (byte : ℕ)
    → p.state ≡ State.sos_pm_apc_string
    → IsSwallowed byte
    → Parser.step p byte ≡ some (p, [])
unfolding Parser.step Parser.dispatch sos_pm_apc
step_swallowed p byte s h = ground arith

-- A defect: in an SOS, PM or APC string the parser swallows every byte but BEL, CAN and SUB. The
-- string terminator `ESC \` is among what is swallowed, so the output that follows a string that
-- ends as it should is lost, up to the next BEL, CAN or SUB.
pub string-swallows :
    (p : Parser) (bytes : List ℕ)
    → p.state ≡ State.sos_pm_apc_string
    → All IsSwallowed bytes
    → Parser.advance p bytes ≡ some (p, [])
unfolding Parser.advance
string-swallows p [] s h = refl
string-swallows p (byte ∷ bytes) s h =
    rw (step_swallowed p byte s h.0) (rw (string-swallows p bytes s h.1))
