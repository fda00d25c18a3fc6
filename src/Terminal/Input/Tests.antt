-- ===== src/Terminal/Input/Tests.antt =====
-- The theorems on the parser and on the encoded keys at concrete inputs.
use remote_desktop_tool.Prelude.{◌≡◌, refl, inl, arith, false, List, [], ◌∷◌, some}
use remote_desktop_tool.Terminal.Parser
use remote_desktop_tool.Terminal.Parser.Types.{Parser, Action, State, new}
use remote_desktop_tool.Terminal.Parser.Params.{csi_text, Dispatches, csi_text-parsed}
use remote_desktop_tool.Terminal.Parser.WellFormed.{StepFits, advance-fits, new-WellFormed}
use remote_desktop_tool.Terminal.Screen.Types.{default_modes}
use remote_desktop_tool.Terminal.Input.{Key, shift, encode_key}
use remote_desktop_tool.Terminal.Input.Keys.{key-parsed}
use remote_desktop_tool.Terminal.Input.Decoding.{IsReady}
use remote_desktop_tool.Terminal.Input.Characters.{Reads}
use remote_desktop_tool.Terminal.Input.Laws.{encode_text, print_text, Reads-text}

-- `ESC [ 12 ; ; 99999 H`.
csi_text-parsed_example :
    Dispatches new
      (0x1B ∷ b'[' ∷ csi_text (1 ∷ 2 ∷ []) ([] ∷ (9 ∷ 9 ∷ 9 ∷ 9 ∷ 9 ∷ []) ∷ []) b'H')
      (12 ∷ 0 ∷ 65535 ∷ [])
      []
      false
      b'H'
csi_text-parsed_example =
    csi_text-parsed new (1 ∷ 2 ∷ []) ([] ∷ (9 ∷ 9 ∷ 9 ∷ 9 ∷ 9 ∷ []) ∷ []) b'H' refl (omega arith)
      (omega arith) (omega arith)

advance-fits_example :
    (r : Parser × List Action) × (Parser.advance new (0xF0 ∷ 0x9F ∷ 0x8E ∷ 0x89 ∷ b'[' ∷ [])
      ≡ some r)
    × StepFits r
advance-fits_example = advance-fits (0xF0 ∷ 0x9F ∷ 0x8E ∷ 0x89 ∷ b'[' ∷ []) new new-WellFormed

abbrev in_string : Parser
in_string = record new { state = State.sos_pm_apc_string }

new-IsReady : IsReady new
new-IsReady = ground arith

-- "é漢".
Reads-text_example : Reads new (encode_text (0xE9 ∷ 0x6F22 ∷ [])) (print_text (0xE9 ∷ 0x6F22 ∷ []))
Reads-text_example =
    Reads-text (0xE9 ∷ 0x6F22 ∷ []) new new-IsReady
      ((omega arith, inl (omega arith)), ((omega arith, inl (omega arith)), tt))

-- Shift and the arrow up: `ESC [ 1 ; 2 A`.
key-parsed_example :
    Dispatches new (encode_key Key.up shift default_modes) (1 ∷ 2 ∷ []) [] false b'A'
key-parsed_example = key-parsed new Key.up shift default_modes refl (omega arith) (omega arith) refl
