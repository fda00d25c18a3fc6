-- ===== src/Terminal/Input/Laws.antt =====
-- What the parser of crates/rdt-terminal makes of the bytes that its input encoder produces.
use remote_desktop_tool.Prelude.{ℕ, ◌≤◌, ◌≡◌, refl, false, List, [], ◌∷◌, ◌++◌, All, ◌∙◌, ap, ◌>>=◌}
use remote_desktop_tool.Terminal.Parser
use remote_desktop_tool.Terminal.Parser.Types.{Parser, Action}
use remote_desktop_tool.Terminal.Parser.WellFormed.{IsScalar}
use remote_desktop_tool.Terminal.Parser.Chunks.{after, and_then, parser-append}
use remote_desktop_tool.Terminal.Screen.Types.{Modes}
use remote_desktop_tool.Terminal.Input.{
  Key, KeyModifier, contains, control, encode_utf8, encode_char, encode_key,
}
use remote_desktop_tool.Terminal.Input.Decoding.{IsReady}
use remote_desktop_tool.Terminal.Input.Characters.{Reads, Reads-char}

-- The bytes of a character key, held without Control, are read by a parser that is ready as that
-- character, if it is a scalar value from the space on, whatever else is held.
pub key-char-echo :
    (p : Parser) (c : ℕ) (m : KeyModifier) (modes : Modes)
    → IsReady p
    → 0x20 ≤ c
    → IsScalar c
    → contains m control ≡ false
    → Reads p (encode_key (Key.char c) m modes) (Action.print c ∷ [])
unfolding encode_key encode_char
key-char-echo p c m modes r lo s free = rw free (Reads-char p c r lo s)

-- A text as the bytes of its characters, and the actions that print it.
abbrev pub encode_text : List ℕ → List ℕ
encode_text [] = []
encode_text (c ∷ cs) = encode_utf8 c ++ encode_text cs

abbrev pub print_text : List ℕ → List Action
print_text [] = []
print_text (c ∷ cs) = Action.print c ∷ print_text cs

-- A Unicode scalar value from the space on.
abbrev pub IsPrintable : ℕ → Type 0
IsPrintable c = (0x20 ≤ c) × IsScalar c

-- The UTF-8 bytes of any text of scalar values from the space on, of one to four bytes each, are
-- read by a parser that is ready as exactly the text's characters, and it is ready for more.
pub Reads-text :
    (cs : List ℕ) (p : Parser)
    → IsReady p
    → All IsPrintable cs
    → Reads p (encode_text cs) (print_text cs)
Reads-text [] p r h = (p, unfold Parser.advance in refl, r)
Reads-text (c ∷ cs) p r h =
    let (q, first, ready) = Reads-char p c r h.0.0 h.0.1 in
    let (last, rest, again) = Reads-text cs q ready h.1 in
    (
      last,
      parser-append (encode_utf8 c) (encode_text cs) p
          ∙ ap (λ m. m >>= (λ s. and_then s (encode_text cs))) first
          ∙ ap (λ m. m >>= after (Action.print c ∷ [])) rest,
      again,
    )
