-- ===== src/Terminal/Parser/Utf8.antt =====
-- `ground` and `utf8` of crates/rdt-terminal/src/parser.rs. `none` is a panic: an index or a slice
-- past the end of the array `utf8`. The index 0 of that array is checked when it is compiled.
use remote_desktop_tool.Prelude.{
  ℕ, zero, suc, ◌+◌, ◌-◌, ◌*◌, Bool, not, ◌&&◌, ◌||◌, List, [], ◌∷◌, Option, none, some, ◌==◌, leb,
  ltb, within, if◌then◌else◌, set, length,
}
use remote_desktop_tool.Terminal.Parser.Types.{Action, Parser}

abbrev pub replacement_character : ℕ
replacement_character = 0xFFFD

-- `byte & 0xC0 == 0x80`, for a byte.
abbrev pub is_continuation : ℕ → Bool
is_continuation byte = within 0x80 0xBF byte

-- `std::str::from_utf8(slice).ok().and_then(|text| text.chars().next())` of the standard library
-- on a slice of two to four bytes that one character fills: overlong forms, surrogates and values
-- past U+10FFFF are refused.
unfoldable pub decode_utf8 : List ℕ → Option ℕ
decode_utf8 (a ∷ b ∷ []) =
    if within 0xC2 0xDF a && is_continuation b then some ((a - 0xC0) * 64 + (b - 0x80)) else none
decode_utf8 (a ∷ b ∷ c ∷ []) =
    let value = (a - 0xE0) * 4096 + (b - 0x80) * 64 + (c - 0x80) in
    if within 0xE0 0xEF a
      && is_continuation b
      && is_continuation c
      && leb 0x800 value
      && not (within 0xD800 0xDFFF value)
    then some value
    else none
decode_utf8 (a ∷ b ∷ c ∷ d ∷ []) =
    let value = (a - 0xF0) * 262144 + (b - 0x80) * 4096 + (c - 0x80) * 64 + (d - 0x80) in
    if within 0xF0 0xF4 a
      && is_continuation b
      && is_continuation c
      && is_continuation d
      && within 0x10000 0x10FFFF value
    then some value
    else none
decode_utf8 _ = none

abbrev pub unwrap_or_replacement : Option ℕ → ℕ
unwrap_or_replacement none = replacement_character
unwrap_or_replacement (some c) = c

-- `self.utf8[..n]`.
abbrev pub prefix : ℕ → List ℕ → List ℕ
prefix zero bytes = []
prefix (suc n) [] = []
prefix (suc n) (b ∷ bytes) = b ∷ prefix n bytes

-- The branch `self.utf8_len == 0` of `utf8`.
unfoldable pub utf8_start : Parser → ℕ → Parser × List Action
utf8_start p byte =
    let started = λ (expected : ℕ). record p {
      utf8_expected = expected;
      utf8 = set p.utf8 0 byte;
      utf8_len = 1;
    } in
    if within 0xC0 0xDF byte
    then (started 2, [])
    else if within 0xE0 0xEF byte
    then (started 3, [])
    else if within 0xF0 0xF7 byte
    then (started 4, [])
    else (p, Action.print replacement_character ∷ [])

-- `ground` when no sequence is open (`utf8_len == 0`).
unfoldable pub ground_idle : Parser → ℕ → Parser × List Action
ground_idle p byte =
    if within 0x00 0x17 byte || byte == 0x19 || within 0x1C 0x1F byte
    then (p, Action.execute byte ∷ [])
    else if within 0x20 0x7F byte
    then (p, Action.print byte ∷ [])
    else utf8_start p byte

-- The last branch of `utf8`: a continuation byte. The write at `utf8_len` and the slice up to the
-- new length panic past the end of the array.
unfoldable pub utf8_continue : Parser → ℕ → Option (Parser × List Action)
utf8_continue p byte =
    let bytes = set p.utf8 p.utf8_len byte in
    let len = p.utf8_len + 1 in
    if leb (length p.utf8) p.utf8_len
    then none
    else if len == p.utf8_expected
    then (if ltb (length p.utf8) len
        then none
        else some (
          record p { utf8 = bytes; utf8_len = 0; utf8_expected = 0 },
          Action.print (unwrap_or_replacement (decode_utf8 (prefix len bytes))) ∷ [],
        ))
    else some (record p { utf8 = bytes; utf8_len = len }, [])

-- The replacement character goes out before the actions of the byte that is processed again.
abbrev pub utf8_reprocess : Parser × List Action → Parser × List Action
utf8_reprocess (q, actions) = (q, Action.print replacement_character ∷ actions)

-- An invalid continuation is reported, and the byte is handed back to `ground`, where no sequence
-- is open any more.
unfoldable pub utf8 : Parser → ℕ → Option (Parser × List Action)
utf8 p byte =
    if p.utf8_len == 0
    then some (utf8_start p byte)
    else if not (is_continuation byte)
    then some (utf8_reprocess (ground_idle (record p { utf8_len = 0; utf8_expected = 0 }) byte))
    else utf8_continue p byte

unfoldable pub ground : Parser → ℕ → Option (Parser × List Action)
ground p byte =
    if ltb 0 p.utf8_len && ltb byte 0x80
    then utf8 p byte
    else if within 0x00 0x17 byte || byte == 0x19 || within 0x1C 0x1F byte
    then some (p, Action.execute byte ∷ [])
    else if within 0x20 0x7F byte
    then some (p, Action.print byte ∷ [])
    else utf8 p byte
