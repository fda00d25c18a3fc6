-- ===== src/Terminal/Grid/Scrollback/Tests.antt =====
-- The scrollback at concrete inputs.
use remote_desktop_tool.Prelude.{ℕ, [], ◌∷◌, List}
use remote_desktop_tool.Terminal.Grid.Scrollback.{Scrollback}

abbrev three : List ℕ
three = 10 ∷ 20 ∷ 30 ∷ []

abbrev full : Scrollback ℕ
full = record { lines = three; limit = 5 }
