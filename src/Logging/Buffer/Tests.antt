-- ===== src/Logging/Buffer/Tests.antt =====
-- The log buffer at concrete inputs.
use remote_desktop_tool.Prelude.{ℕ, ◌-◌, ◌≡◌, ◌==◌, refl, arith, true, List, [], ◌∷◌, length, drop}
use remote_desktop_tool.Logging.Buffer.{
  LogEntry, new, make_space, push, is_empty, clear, warn, level_rank, filter,
}
use remote_desktop_tool.Logging.Buffer.Laws.{push_all, push_all-newest}

-- A line of one letter, at the level "WARN".
abbrev entry : ℕ → LogEntry
entry c = record {
  stamp = c;
  level = b'W' ∷ b'A' ∷ b'R' ∷ b'N' ∷ [];
  target = b't' ∷ [];
  message = c ∷ b'0' ∷ b'1' ∷ [];
}

abbrev lines : List LogEntry
lines = entry b'A' ∷ entry b'B' ∷ entry b'C' ∷ []

keeps_two : (push_all (new 2) lines).entries ≡ entry b'B' ∷ entry b'C' ∷ []
unfolding new make_space push
keeps_two = refl

zero_capacity : is_empty (push (new 0) (entry b'A')) ≡ true
unfolding new push
zero_capacity = refl

empties : is_empty (clear (push_all (new 2) lines)) ≡ true
unfolding new push
empties = refl

-- " c0 ", in any case.
finds :
    filter (λ c. c == b' ') (push_all (new 2) lines) (b' ' ∷ b'c' ∷ b'0' ∷ b' ' ∷ []) warn
    ≡ entry b'C' ∷ []
unfolding new make_space push level_rank filter
finds = refl

push_all-newest_example :
    ((push_all (new 2) lines).entries ≡ drop (length lines - 2) lines)
    × ((push_all (new 2) lines).dropped ≡ length lines - 2)
push_all-newest_example = push_all-newest 2 lines (omega arith) (omega arith)
