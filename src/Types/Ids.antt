-- ===== src/Types/Ids.antt =====
-- The identifiers of crates/rdt-types/src/ids.rs: `Display` and `FromStr` of `ProfileId` and
-- `SessionId`. An identifier is the list of its bytes, and a text that of its bytes in UTF-8.
pub mod Laws
mod Tests
use remote_desktop_tool.Prelude.{
  ℕ, zero, suc, ◌+◌, ◌-◌, ◌*◌, ◌/◌, ◌%◌, Bool, true, false, not, ◌&&◌, List, [], ◌∷◌, ◌++◌, Option,
  none, some, ◌>>=◌, ◌==◌, ltb, within, if◌then◌else◌, length,
}

-- `ID_BYTES`.
abbrev pub id_bytes : ℕ
id_bytes = 8

pub data IdParseError : Type 0 where
  wrong_length : ℕ → IdParseError
  not_hex : IdParseError

-- The result of `from_str`, which may also panic.
pub data Outcome : Type 0 where
  parsed : List ℕ → Outcome
  failed : IdParseError → Outcome
  panicked : Outcome

abbrev pub hex_digit : ℕ → ℕ
hex_digit d = if ltb d 10 then b'0' + d else b'a' + (d - 10)

-- `{byte:02x}` for each byte.
unfoldable pub display : List ℕ → List ℕ
display [] = []
display (byte ∷ id) = hex_digit (byte / 16) ∷ hex_digit (byte % 16) ∷ display id

-- `char::to_digit` with radix 16.
abbrev pub digit_of : ℕ → Option ℕ
digit_of c =
    if within b'0' b'9' c
    then some (c - b'0')
    else if within b'a' b'f' c
    then some (c - b'a' + 10)
    else if within b'A' b'F' c
    then some (c - b'A' + 10)
    else none

-- `u8::from_str_radix` with radix 16 of two characters: the first may be a plus sign.
abbrev pub from_str_radix : ℕ → ℕ → Option ℕ
from_str_radix a b =
    if a == b'+' then digit_of b else do high ← digit_of a; low ← digit_of b; some (high * 16 + low)

-- `str::is_char_boundary` in front of a rest of the text: no continuation byte follows.
abbrev pub is_boundary : List ℕ → Bool
is_boundary [] = true
is_boundary (c ∷ s) = not (within 0x80 0xBF c)

abbrev pub prepend : ℕ → Outcome → Outcome
prepend byte (parsed id) = parsed (byte ∷ id)
prepend byte other = other

-- A pair that is read, and the outcome for the rest of the text.
abbrev pub after_pair : Option ℕ → Outcome → Outcome
after_pair none rest = failed not_hex
after_pair (some byte) rest = prepend byte rest

-- The loop over the pairs. A slice that does not end at characters panics.
unfoldable pub read_pairs : List ℕ → Outcome
read_pairs [] = parsed []
read_pairs (a ∷ []) = panicked
read_pairs (a ∷ b ∷ text) =
    let rest = read_pairs text in
    if is_boundary (a ∷ []) && is_boundary text
    then after_pair (from_str_radix a b) rest
    else panicked

unfoldable pub from_str : List ℕ → Outcome
from_str text =
    if not (length text == id_bytes * 2)
    then failed (wrong_length (length text))
    else read_pairs text
