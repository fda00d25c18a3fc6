-- ===== src/Types/Endpoint.antt =====
-- `Endpoint` of crates/rdt-types/src/proto.rs: parsing and printing of hosts with ports. A text is the
-- list of its characters.
pub mod Laws
mod Tests
use remote_desktop_tool.Prelude.{
  ℕ, ◌+◌, Bool, true, false, ◌||◌, List, [], ◌∷◌, ◌++◌, Option, none, some, ltb, if◌then◌else◌,
  length,
}
use remote_desktop_tool.Text.{
  is_nil, has_char, strip_char, split_once, rsplit_once, parse_u16, decimal, trim,
}
use remote_desktop_tool.Types.Errors.{
  ErrorCode, RdtResult, ok, err, and_then, Protocol, default_port,
}

pub record Endpoint : Type 0 where
  pub host : List ℕ
  pub port : ℕ

abbrev pub invalid {ℓ} : {A : Type ℓ} → RdtResult A
invalid = err ErrorCode.invalid_input

-- `str::len`: the bytes in UTF-8.
abbrev pub char_len : ℕ → ℕ
char_len c = if ltb c 0x80 then 1 else if ltb c 0x800 then 2 else if ltb c 0x10000 then 3 else 4

abbrev pub byte_len : List ℕ → ℕ
byte_len [] = 0
byte_len (c ∷ s) = char_len c + byte_len s

abbrev pub any_white : (ℕ → Bool) → List ℕ → Bool
any_white white [] = false
any_white white (c ∷ s) = white c || any_white white s

abbrev pub or_invalid : Option ℕ → RdtResult ℕ
or_invalid (some port) = ok port
or_invalid none = invalid

-- `white` is `char::is_whitespace` of the standard library.
module _ (white : ℕ → Bool) where
  unfoldable pub validate_host : List ℕ → RdtResult {0} Unit
  validate_host host =
      if is_nil host
      then invalid
      else if ltb 253 (byte_len host)
      then invalid
      else if any_white white host
      then invalid
      else if has_char b'/' host || has_char b'@' host
      then invalid
      else ok tt

  unfoldable pub new : List ℕ → ℕ → RdtResult Endpoint
  new host port = and_then (validate_host host) (λ u. ok (record { host = host; port = port }))

  unfoldable pub parse_port : List ℕ → RdtResult ℕ
  parse_port text = or_invalid (parse_u16 (trim white text))

  -- The port behind `]`, from the remainder and what follows a colon in it.
  abbrev pub port_after : Protocol → List ℕ → Option (List ℕ) → RdtResult ℕ
  port_after protocol remainder (some port_text) = parse_port port_text
  port_after protocol remainder none =
      if is_nil remainder then ok (default_port protocol) else invalid

  -- After `[`, by the split around `]`.
  abbrev pub parse_bracketed : Protocol → Option (List ℕ × List ℕ) → RdtResult Endpoint
  parse_bracketed protocol none = invalid
  parse_bracketed protocol (some (host, remainder)) =
      and_then (port_after protocol remainder (strip_char b':' remainder)) (new host)

  -- Without brackets, by the split around the last colon.
  abbrev pub parse_plain : Protocol → List ℕ → Option (List ℕ × List ℕ) → RdtResult Endpoint
  parse_plain protocol text none = new text (default_port protocol)
  parse_plain protocol text (some (host, port_text)) =
      if is_nil host
      then new text (default_port protocol)
      else and_then (parse_port port_text) (new host)

  abbrev pub parse_text : Protocol → List ℕ → Option (List ℕ) → RdtResult Endpoint
  parse_text protocol text (some rest) = parse_bracketed protocol (split_once b']' rest)
  parse_text protocol text none = parse_plain protocol text (rsplit_once b':' text)

  unfoldable pub parse : List ℕ → Protocol → RdtResult Endpoint
  parse written protocol =
      let text = trim white written in
      if is_nil text then invalid else parse_text protocol text (strip_char b'[' text)

-- `Display`.
unfoldable pub display : Endpoint → List ℕ
display e =
    if has_char b':' e.host
    then b'[' ∷ (e.host ++ (b']' ∷ b':' ∷ decimal e.port))
    else e.host ++ (b':' ∷ decimal e.port)
