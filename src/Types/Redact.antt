-- ===== src/Types/Redact.antt =====
-- The redaction of secrets in crates/rdt-types/src/redact.rs. A text is the list of its characters.
mod Ends
mod Hidden
mod Pieces
mod Same
mod Tests
use remote_desktop_tool.Prelude.{
  ℕ, zero, suc, ◌+◌, ◌-◌, Bool, true, false, not, ◌&&◌, ◌||◌, List, [], ◌∷◌, ◌++◌, Option, none,
  some, ◌==◌, leb, within, if◌then◌else◌, length, take, drop,
}
use remote_desktop_tool.Text.{is_nil, same_text, lower_ascii, starts_with, contains, replace}
use remote_desktop_tool.Types.Endpoint.{byte_len}

-- "<redacted>".
abbrev pub redacted : List ℕ
redacted = b'<' ∷ b'r' ∷ b'e' ∷ b'd' ∷ b'a' ∷ b'c' ∷ b't' ∷ b'e' ∷ b'd' ∷ b'>' ∷ []

abbrev pub sensitive_keys : List (List ℕ)
sensitive_keys =
    (b'p' ∷ b'a' ∷ b's' ∷ b's' ∷ b'w' ∷ b'o' ∷ b'r' ∷ b'd' ∷ [])
    ∷ (b'p' ∷ b'a' ∷ b's' ∷ b's' ∷ b'w' ∷ b'd' ∷ [])
    ∷ (b'p' ∷ b'a' ∷ b's' ∷ b's' ∷ b'p' ∷ b'h' ∷ b'r' ∷ b'a' ∷ b's' ∷ b'e' ∷ [])
    ∷ (b'p' ∷ b'a' ∷ b's' ∷ b's' ∷ [])
    ∷ (b's' ∷ b'e' ∷ b'c' ∷ b'r' ∷ b'e' ∷ b't' ∷ [])
    ∷ (b't' ∷ b'o' ∷ b'k' ∷ b'e' ∷ b'n' ∷ [])
    ∷ (b'a' ∷ b'p' ∷ b'i' ∷ b'k' ∷ b'e' ∷ b'y' ∷ [])
    ∷ (b'a' ∷ b'p' ∷ b'i' ∷ b'_' ∷ b'k' ∷ b'e' ∷ b'y' ∷ [])
    ∷ (b'a' ∷ b'u' ∷ b't' ∷ b'h' ∷ b'o' ∷ b'r' ∷ b'i' ∷ b'z' ∷ b'a' ∷ b't' ∷ b'i' ∷ b'o' ∷ b'n'
        ∷ [])
    ∷ (b'a' ∷ b'u' ∷ b't' ∷ b'h' ∷ [])
    ∷ (b'c' ∷ b'r' ∷ b'e' ∷ b'd' ∷ b'e' ∷ b'n' ∷ b't' ∷ b'i' ∷ b'a' ∷ b'l' ∷ [])
    ∷ (b'c' ∷ b'r' ∷ b'e' ∷ b'd' ∷ b'e' ∷ b'n' ∷ b't' ∷ b'i' ∷ b'a' ∷ b'l' ∷ b's' ∷ [])
    ∷ (b'p' ∷ b'r' ∷ b'i' ∷ b'v' ∷ b'a' ∷ b't' ∷ b'e' ∷ b'_' ∷ b'k' ∷ b'e' ∷ b'y' ∷ [])
    ∷ (b'p' ∷ b'r' ∷ b'i' ∷ b'v' ∷ b'a' ∷ b't' ∷ b'e' ∷ b'k' ∷ b'e' ∷ b'y' ∷ [])
    ∷ (b'o' ∷ b't' ∷ b'p' ∷ [])
    ∷ (b'p' ∷ b'i' ∷ b'n' ∷ [])
    ∷ []

unfoldable pub redact_secret_in : List ℕ → List ℕ → List ℕ
redact_secret_in text secret = if is_nil secret then text else replace secret redacted text

-- The secrets of a `Redactor`.
abbrev pub Redactor : Type 0
Redactor = List (List ℕ)

abbrev pub any_same : Redactor → List ℕ → Bool
any_same [] secret = false
any_same (known ∷ secrets) secret = same_text known secret || any_same secrets secret

unfoldable pub with_secret : Redactor → List ℕ → Redactor
with_secret secrets secret =
    if leb 4 (byte_len secret) && not (any_same secrets secret)
    then secrets ++ (secret ∷ [])
    else secrets

abbrev pub secret_count : Redactor → ℕ
secret_count secrets = length secrets

-- The loop of `redact`.
unfoldable pub redact_all : Redactor → List ℕ → List ℕ
redact_all [] output = output
redact_all (secret ∷ secrets) output =
    redact_all secrets (if contains secret output then replace secret redacted output else output)

-- The length of a separator at `c`, or 0.
abbrev pub separator_len : ℕ → List ℕ → ℕ
separator_len c ahead =
    if c == b'=' then 1 else if c == b':' && starts_with (b' ' ∷ []) ahead then 2 else 0

abbrev pub is_key_char : ℕ → Bool
is_key_char c =
    within b'a' b'z' c || within b'A' b'Z' c || within b'0' b'9' c || c == b'_' || c == b'-'

-- The key in front of a separator, from the characters behind it, nearest first.
abbrev pub key_before : List ℕ → List ℕ → List ℕ
key_before [] key = key
key_before (c ∷ behind) key =
    let longer = key_before behind (c ∷ key) in if is_key_char c then longer else key

-- `str::ends_with`.
abbrev pub ends_with : List ℕ → List ℕ → Bool
ends_with s [] = is_nil s
ends_with s (c ∷ text) = same_text s (c ∷ text) || ends_with s text

abbrev pub any_sensitive : List (List ℕ) → List ℕ → Bool
any_sensitive [] key = false
any_sensitive (candidate ∷ keys) key =
    same_text (lower_ascii key) (lower_ascii candidate)
    || ends_with candidate key
    || any_sensitive keys key

-- A text with another in front of it in reverse.
abbrev pub behind_of : List ℕ → List ℕ → List ℕ
behind_of [] behind = behind
behind_of (c ∷ s) behind = behind_of s (c ∷ behind)

-- `white` is `char::is_whitespace` of the standard library.
module _ (white : ℕ → Bool) where
  -- Where a value ends: a header's at the end of the line.
  abbrev pub ends_value : Bool → ℕ → Bool
  ends_value header_style c = if header_style then c == b'\n' else white c || c == b',' || c == b';'

  -- The value at the start of a text, and the rest.
  unfoldable pub split_value : Bool → List ℕ → List ℕ × List ℕ
  split_value header_style [] = ([], [])
  split_value header_style (c ∷ ahead) =
      let (value, rest) = split_value header_style ahead in
      if ends_value header_style c then ([], c ∷ ahead) else (c ∷ value, rest)

  -- The output after a pair, whose key stands at the end of the output already.
  abbrev pub emit : List ℕ → List ℕ → List ℕ → List ℕ → List ℕ
  emit output key separator value =
      take (length output - length key) output
      ++ key
      ++ separator
      ++ (if any_sensitive sensitive_keys key && not (is_nil value) then redacted else value)

  -- The outer loop on fuel, with the characters behind and ahead of the index. `none` is out of fuel.
  unfoldable pub scrub_from : ℕ → List ℕ → List ℕ → List ℕ → Option (List ℕ)
  scrub_from fuel behind [] output = some output
  scrub_from zero behind (c ∷ ahead) output = none
  scrub_from (suc f) behind (c ∷ ahead) output =
      let len = separator_len c ahead in
      let separator = take len (c ∷ ahead) in
      let (value, rest) = split_value (len == 2) (drop len (c ∷ ahead)) in
      let key = key_before behind [] in
      let copied = scrub_from f (c ∷ behind) ahead (output ++ (c ∷ [])) in
      let after_pair =
        scrub_from f (behind_of value (behind_of separator behind)) rest
          (emit output key separator value) in
      if len == 0 then copied else after_pair

  unfoldable pub scrub_sensitive_pairs : List ℕ → Option (List ℕ)
  scrub_sensitive_pairs text = scrub_from (length text) [] text []

  unfoldable pub redact : Redactor → List ℕ → Option (List ℕ)
  redact secrets text = scrub_sensitive_pairs (redact_all secrets text)

  abbrev pub show : Redactor → List ℕ → Bool → Option (List ℕ)
  show secrets value is_secret = if is_secret then some redacted else redact secrets value
