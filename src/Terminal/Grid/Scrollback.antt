-- ===== src/Terminal/Grid/Scrollback.antt =====
-- `Scrollback` of crates/rdt-terminal/src/grid.rs, over any type of line.
pub mod Laws
mod Tests
use remote_desktop_tool.Prelude.{
  ℕ, zero, suc, List, [], ◌∷◌, ◌++◌, Option, ◌==◌, ltb, if◌then◌else◌, length, get_elem?,
}

-- The `VecDeque` is the list of its lines, oldest first.
pub record Scrollback {ℓ} (A : Type ℓ) : Type ℓ where
  pub limit : ℕ
  pub lines : List A

module _ {ℓ} {A : Type ℓ} where
  abbrev pub new : ℕ → Scrollback A
  new limit = record { limit = limit; lines = [] }

  -- `pop_front`, its result dropped.
  abbrev pub pop_front : List A → List A
  pop_front [] = []
  pop_front (x ∷ xs) = xs

  unfoldable pub push : Scrollback A → A → Scrollback A
  push s row =
      if s.limit == 0
      then s
      else let kept = if length s.lines == s.limit then pop_front s.lines else s.lines in
        record s { lines = kept ++ (row ∷ []) }

  unfoldable pub line : Scrollback A → ℕ → Option A
  line s index = get_elem? s.lines index

  unfoldable pub clear : Scrollback A → Scrollback A
  clear s = record s { lines = [] }

  -- `while self.lines.len() > self.limit`, on the number of lines as fuel.
  unfoldable pub trim : ℕ → ℕ → List A → List A
  trim zero limit lines = lines
  trim (suc fuel) limit lines =
      let rest = trim fuel limit (pop_front lines) in
      if ltb limit (length lines) then rest else lines

  unfoldable pub set_limit : Scrollback A → ℕ → Scrollback A
  unfolding trim
  set_limit s limit = record s { limit = limit; lines = trim (length s.lines) limit s.lines }

  -- Lines pushed one after the other, oldest first.
  unfoldable pub push_all : Scrollback A → List A → Scrollback A
  push_all s [] = s
  push_all s (x ∷ xs) = push_all (push s x) xs
