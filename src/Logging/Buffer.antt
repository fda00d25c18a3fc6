-- ===== src/Logging/Buffer.antt =====
-- `LogBuffer` of crates/rdt-logging/src/buffer.rs.
pub mod Laws
mod Tests
use remote_desktop_tool.Prelude.{
  ℕ, ◌+◌, ◌%◌, ◌^◌, Bool, ◌&&◌, ◌||◌, List, [], ◌∷◌, ◌++◌, ◌==◌, leb, if◌then◌else◌, length,
}
use remote_desktop_tool.Text.{same_text, lower_ascii, contains, trim}

-- The stamp is in milliseconds.
pub record LogEntry : Type 0 where
  pub stamp : ℕ
  pub level : List ℕ
  pub target : List ℕ
  pub message : List ℕ

pub record LogBuffer : Type 0 where
  pub entries : List LogEntry
  pub capacity : ℕ
  pub dropped : ℕ

unfoldable pub new : ℕ → LogBuffer
new capacity = record { entries = []; capacity = capacity; dropped = 0 }

-- The loop of `push`. The guard on the capacity keeps it from running on an empty buffer.
unfoldable pub make_space : ℕ → List LogEntry → ℕ → List LogEntry × ℕ
make_space capacity [] dropped = ([], dropped)
make_space capacity (e ∷ entries) dropped =
    let rest = make_space capacity entries ((dropped + 1) % 2 ^ 64) in
    if leb capacity (length (e ∷ entries)) then rest else (e ∷ entries, dropped)

unfoldable pub push : LogBuffer → LogEntry → LogBuffer
push b entry =
    if b.capacity == 0
    then b
    else let (kept, dropped) = make_space b.capacity b.entries b.dropped in
      record b { entries = kept ++ (entry ∷ []); dropped = dropped }

abbrev pub is_empty : LogBuffer → Bool
is_empty b = length b.entries == 0

abbrev pub clear : LogBuffer → LogBuffer
clear b = record b { entries = [] }

pub data Level : Type 0 where
  trace debug info warn error : Level

abbrev pub as_str : Level → List ℕ
as_str trace = b't' ∷ b'r' ∷ b'a' ∷ b'c' ∷ b'e' ∷ []
as_str debug = b'd' ∷ b'e' ∷ b'b' ∷ b'u' ∷ b'g' ∷ []
as_str info = b'i' ∷ b'n' ∷ b'f' ∷ b'o' ∷ []
as_str warn = b'w' ∷ b'a' ∷ b'r' ∷ b'n' ∷ []
as_str error = b'e' ∷ b'r' ∷ b'r' ∷ b'o' ∷ b'r' ∷ []

abbrev pub rank_of : List ℕ → ℕ
rank_of s =
    if same_text s (as_str trace)
    then 0
    else if same_text s (as_str debug)
    then 1
    else if same_text s (as_str info)
    then 2
    else if same_text s (as_str warn)
    then 3
    else if same_text s (as_str error)
    then 4
    else 2

unfoldable pub level_rank : List ℕ → ℕ
level_rank level = rank_of (lower_ascii level)

-- The two filters. An entry is shown if the trimmed needle is empty or stands in its text.
abbrev pub is_shown : List ℕ → Level → LogEntry → Bool
is_shown needle min_level e =
    leb (level_rank (as_str min_level)) (level_rank e.level)
    && (length needle == 0
        || contains (lower_ascii needle) (lower_ascii e.message)
        || contains (lower_ascii needle) (lower_ascii e.target))

abbrev pub keep_shown : List ℕ → Level → List LogEntry → List LogEntry
keep_shown needle min_level [] = []
keep_shown needle min_level (e ∷ entries) =
    let rest = keep_shown needle min_level entries in
    if is_shown needle min_level e then e ∷ rest else rest

-- `white` is `char::is_whitespace`.
unfoldable pub filter : (ℕ → Bool) → LogBuffer → List ℕ → Level → List LogEntry
filter white b needle min_level = keep_shown (trim white needle) min_level b.entries
