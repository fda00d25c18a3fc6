-- ===== src/Ssh/KnownHosts/Pattern.antt =====
-- Host patterns of crates/rdt-ssh/src/known_hosts.rs: `pattern_matches` and what it calls.
pub mod Laws
use remote_desktop_tool.Prelude.{
  ℕ, Bool, true, false, not, ◌&&◌, List, [], ◌∷◌, ◌++◌, Option, none, some, ◌>>=◌, ◌==◌,
  if◌then◌else◌,
}
use remote_desktop_tool.Text.{has_char, strip_char, split_once, rsplit_once, parse_u16, decimal}
use remote_desktop_tool.Ssh.KnownHosts.Wildcard.{wildcard_match}

-- What the module takes from elsewhere: the case tables of the standard library, and the crates
-- base64, hmac with sha1, sha2 and subtle. `verify` is the check of a message authentication code
-- under a salt; a salt that the crate refuses is `none`.
pub record Library : Type 0 where
  pub lower_char : ℕ → ℕ
  pub lower_text : List ℕ → List ℕ
  pub base64_encode : List ℕ → List ℕ
  pub base64_decode : List ℕ → Option (List ℕ)
  pub verify : List ℕ → Option (List ℕ → List ℕ → Bool)
  pub ct_eq : List ℕ → List ℕ → Bool
  pub fingerprint : List ℕ → List ℕ

-- The answer of a loop that ends, and `false` where a `let … else` returns it.
abbrev pub answer : Option Bool → Bool
answer none = false
answer (some b) = b

-- `tail.strip_prefix(':').and_then(|value| value.parse().ok())`.
abbrev pub bracket_port : List ℕ → Option ℕ
bracket_port tail = strip_char b':' tail >>= parse_u16

-- After `[`: the host up to `]`, and the port behind it.
abbrev pub bracketed : List ℕ → Option (List ℕ × List ℕ) → List ℕ × Option ℕ
bracketed rest none = (rest, none)
bracketed rest (some (host, tail)) = (host, bracket_port tail)

-- A bare IPv6 address has several colons and no port.
abbrev pub unbracketed : List ℕ → Option (List ℕ × List ℕ) → List ℕ × Option ℕ
unbracketed pattern none = (pattern, none)
unbracketed pattern (some (host, port)) =
    if not (has_char b':' host) then (host, parse_u16 port) else (pattern, none)

-- The two cases of `split_host_port`.
abbrev pub split_rest : List ℕ → Option (List ℕ) → List ℕ × Option ℕ
split_rest pattern (some rest) = bracketed rest (split_once b']' rest)
split_rest pattern none = unbracketed pattern (rsplit_once b':' pattern)

unfoldable pub split_host_port : List ℕ → List ℕ × Option ℕ
split_host_port pattern = split_rest pattern (strip_char b'[' pattern)

-- `strip_prefix("|1|")`.
unfoldable pub hashed_body : List ℕ → Option (List ℕ)
hashed_body pattern = do a ← strip_char b'|' pattern; b ← strip_char b'1' a; strip_char b'|' b

module _ (lib : Library) where
  -- A host as it is recorded: the port is written only when it is not 22.
  unfoldable pub recorded_host : List ℕ → ℕ → List ℕ
  recorded_host host port =
      if port == 22
      then lib.lower_text host
      else b'[' ∷ (lib.lower_text host ++ (b']' ∷ b':' ∷ decimal port))

  unfoldable pub hashed_matches : List ℕ → List ℕ → ℕ → Bool
  hashed_matches body host port = answer (do
    parts ← split_once b'|' body
    salt ← lib.base64_decode parts.0
    digest ← lib.base64_decode parts.1
    mac ← lib.verify salt
    some (mac (recorded_host host port) digest))

  -- `expected != port`, if the pattern has a port.
  abbrev pub wrong_port : Option ℕ → ℕ → Bool
  wrong_port none port = false
  wrong_port (some expected) port = not (expected == port)

  unfoldable pub plain_matches : List ℕ → List ℕ → ℕ → Bool
  plain_matches pattern host port =
      let (pattern_host, pattern_port) = split_host_port pattern in
      if wrong_port pattern_port port
      then false
      else answer (wildcard_match lib.lower_char pattern_host (lib.lower_text host))

  abbrev pub body_matches : List ℕ → Option (List ℕ) → List ℕ → ℕ → Bool
  body_matches pattern (some body) host port = hashed_matches body host port
  body_matches pattern none host port = plain_matches pattern host port

  unfoldable pub pattern_matches : List ℕ → List ℕ → ℕ → Bool
  pattern_matches pattern host port = body_matches pattern (hashed_body pattern) host port
