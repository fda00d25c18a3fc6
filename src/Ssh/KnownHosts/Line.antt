-- ===== src/Ssh/KnownHosts/Line.antt =====
-- Reading and writing the lines of the database: `KnownHostEntry::parse` and `to_line`, and
-- `KnownHosts::parse` and `to_string_lossy` of crates/rdt-ssh/src/known_hosts.rs.
pub mod Laws
pub mod Database
pub mod Tests
use remote_desktop_tool.Prelude.{
  ℕ, suc, ◌+◌, Bool, true, false, ◌||◌, List, [], ◌∷◌, ◌++◌, Option, none, some, if◌then◌else◌,
}
use remote_desktop_tool.Text.{is_nil, same_text, starts_with, split_all, join, lines, trim, words}
use remote_desktop_tool.Types.Errors.{ErrorCode, RdtResult, ok, err}
use remote_desktop_tool.Ssh.KnownHosts.Pattern.{Library}
use remote_desktop_tool.Ssh.KnownHosts.Entry.{Marker, KnownHostEntry}

-- "@cert-authority" and "@revoked".
abbrev pub authority_word : List ℕ
authority_word =
    b'@' ∷ b'c' ∷ b'e' ∷ b'r' ∷ b't' ∷ b'-' ∷ b'a' ∷ b'u' ∷ b't' ∷ b'h' ∷ b'o' ∷ b'r' ∷ b'i' ∷ b't'
    ∷ b'y' ∷ []

abbrev pub revoked_word : List ℕ
revoked_word = b'@' ∷ b'r' ∷ b'e' ∷ b'v' ∷ b'o' ∷ b'k' ∷ b'e' ∷ b'd' ∷ []

abbrev pub marker_of : List ℕ → Marker
marker_of first =
    if same_text first authority_word
    then Marker.cert_authority
    else if same_text first revoked_word
    then Marker.revoked
    else Marker.plain

abbrev pub malformed : RdtResult (Option KnownHostEntry)
malformed = err ErrorCode.config

abbrev pub marker_text : Marker → List ℕ
marker_text Marker.plain = []
marker_text Marker.cert_authority = authority_word ++ (b' ' ∷ [])
marker_text Marker.revoked = revoked_word ++ (b' ' ∷ [])

abbrev pub comment_text : List ℕ → List ℕ
comment_text [] = []
comment_text (c ∷ comment) = b' ' ∷ c ∷ comment

module _ (lib : Library) where
  -- The entry, once the key is decoded.
  abbrev pub with_key :
      ℕ → Marker → List ℕ → List ℕ → List ℕ → Option (List ℕ) → RdtResult (Option KnownHostEntry)
  with_key number marker patterns key_type comment (some (k ∷ key)) = ok (
      some (record {
        marker = marker;
        patterns = split_all b',' patterns;
        key_type = key_type;
        key = k ∷ key;
        comment = comment;
        line = number;
      }))
  with_key number marker patterns key_type comment _ = malformed

  -- The fields after the patterns.
  abbrev pub with_patterns : ℕ → Marker → List ℕ → List (List ℕ) → RdtResult (Option KnownHostEntry)
  with_patterns number marker patterns (key_type ∷ encoded ∷ comment) =
      with_key number marker patterns key_type (join b' ' comment) (lib.base64_decode encoded)
  with_patterns number marker patterns _ = malformed

  -- The field of the patterns is the first one, or the one after the marker.
  abbrev pub after_marker : ℕ → Marker → List ℕ → List (List ℕ) → RdtResult (Option KnownHostEntry)
  after_marker number Marker.plain first fields = with_patterns number Marker.plain first fields
  after_marker number marker first [] = malformed
  after_marker number marker first (patterns ∷ fields) = with_patterns number marker patterns fields

  abbrev pub parse_fields : ℕ → List (List ℕ) → RdtResult (Option KnownHostEntry)
  parse_fields number [] = ok none
  parse_fields number (first ∷ fields) = after_marker number (marker_of first) first fields

  -- `white` is `char::is_whitespace` of the standard library.
  unfoldable pub parse_line : (ℕ → Bool) → List ℕ → ℕ → RdtResult (Option KnownHostEntry)
  parse_line white line number =
      let trimmed = trim white line in
      if is_nil trimmed || starts_with (b'#' ∷ []) trimmed
      then ok none
      else parse_fields number (words white trimmed)

  unfoldable pub to_line : KnownHostEntry → List ℕ
  to_line e =
      marker_text e.marker
      ++ (join b',' e.patterns
          ++ (b' ' ∷ (e.key_type ++ (b' ' ∷ (lib.base64_encode e.key ++ comment_text e.comment)))))

  -- A line that is malformed, or has no entry, is skipped.
  abbrev pub or_skip : RdtResult (Option KnownHostEntry) → List KnownHostEntry → List KnownHostEntry
  or_skip (ok (some e)) entries = e ∷ entries
  or_skip _ entries = entries

  unfoldable pub parse_lines : (ℕ → Bool) → ℕ → List (List ℕ) → List KnownHostEntry
  parse_lines white number [] = []
  parse_lines white number (line ∷ rest) =
      or_skip (parse_line white line number) (parse_lines white (number + 1) rest)

  unfoldable pub parse_database : (ℕ → Bool) → List ℕ → List KnownHostEntry
  parse_database white text = parse_lines white 1 (lines text)

  unfoldable pub to_string_lossy : List KnownHostEntry → List ℕ
  to_string_lossy [] = []
  to_string_lossy (e ∷ entries) = to_line e ++ (b'\n' ∷ to_string_lossy entries)
