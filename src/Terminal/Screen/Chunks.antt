-- ===== src/Terminal/Screen/Chunks.antt =====
-- What the reset sequence does to a chunk of input of crates/rdt-terminal that ends inside another
-- sequence.
use remote_desktop_tool.Prelude.{ℕ, ◌≡◌, refl, false, some, List, [], ◌∷◌}
use remote_desktop_tool.Terminal.Parser
use remote_desktop_tool.Terminal.Parser.{handles_escape}
use remote_desktop_tool.Terminal.Parser.Types.{Parser, Action, State, clear}
use remote_desktop_tool.Terminal.Parser.Control.{escape}
use remote_desktop_tool.Terminal.Screen.Types.{Terminal}
use remote_desktop_tool.Terminal.Screen.Control.{esc}
use remote_desktop_tool.Terminal.Screen.{apply, apply_all, advance}

-- The parser right after `ESC c`.
abbrev after_reset : Parser → Parser
after_reset p = record (clear p) { state = State.ground }

reset_actions :
    (p q : Parser) (ys : List ℕ)
    → handles_escape p.state ≡ false
    → Parser.advance (after_reset p) ys ≡ some (q, [])
    → Parser.advance p (0x1B ∷ b'c' ∷ ys) ≡ some (q, Action.esc [] false b'c' ∷ [])
unfolding Parser.advance Parser.step Parser.dispatch escape
reset_actions p q ys h e = rw (h, e)

-- A defect: `advance` parses a whole chunk before it applies the actions, and `ESC c` puts a new
-- parser in place. So a sequence that starts after `ESC c` in the same chunk and is not complete at
-- its end is forgotten: the terminal is the one that a chunk without `ys` leaves.
pub reset-forgets-partial :
    (t : Terminal) (q : Parser) (ys : List ℕ)
    → handles_escape t.parser.state ≡ false
    → Parser.advance (after_reset t.parser) ys ≡ some (q, [])
    → advance t (0x1B ∷ b'c' ∷ ys) ≡ advance t (0x1B ∷ b'c' ∷ [])
unfolding advance apply_all apply esc
reset-forgets-partial t q ys h e = rw (
  reset_actions t.parser q ys h e,
  reset_actions t.parser (after_reset t.parser) [] h (unfold Parser.advance in refl),
)
