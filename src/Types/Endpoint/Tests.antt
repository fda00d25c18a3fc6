-- ===== src/Types/Endpoint/Tests.antt =====
-- Endpoints at concrete inputs. White space is the blank.
use remote_desktop_tool.Prelude.{ℕ, ◌≡◌, ◌==◌, refl, arith, Bool, List, [], ◌∷◌}
use remote_desktop_tool.Text.{split_once, rsplit_once, read_digits, parse_unsigned}
use remote_desktop_tool.Types.Errors.{ok, Protocol}
use remote_desktop_tool.Types.Endpoint.{invalid, validate_host, new, parse_port, parse, display}
use remote_desktop_tool.Types.Endpoint.Laws.{parse-display}

abbrev is_blank : ℕ → Bool
is_blank c = c == b' '

-- "::1".
abbrev loopback : List ℕ
loopback = b':' ∷ b':' ∷ b'1' ∷ []

-- An IPv6 address without brackets is read as the host ":" with port 1.
bare_loopback : parse is_blank loopback Protocol.ssh ≡ ok (record { host = b':' ∷ []; port = 1 })
unfolding parse new validate_host parse_port split_once rsplit_once read_digits parse_unsigned
bare_loopback = refl

-- " h:x" and "[::1".
bad_port : parse is_blank (b' ' ∷ b'h' ∷ b':' ∷ b'x' ∷ []) Protocol.ssh ≡ invalid
unfolding parse new validate_host parse_port split_once rsplit_once read_digits parse_unsigned
bad_port = refl

unterminated : parse is_blank (b'[' ∷ loopback) Protocol.ssh ≡ invalid
unfolding parse split_once
unterminated = refl

-- "[::1]".
default_of_protocol :
    parse is_blank (b'[' ∷ b':' ∷ b':' ∷ b'1' ∷ b']' ∷ []) Protocol.rdp
    ≡ ok (record { host = loopback; port = 3389 })
unfolding parse new validate_host split_once
default_of_protocol = refl

parse-display_example :
    parse is_blank (display (record { host = loopback; port = 2222 })) Protocol.ssh
    ≡ ok (record { host = loopback; port = 2222 })
parse-display_example =
    parse-display is_blank (λ c low high. ground arith) loopback 2222 Protocol.ssh valid
      (omega arith) (omega arith, (omega arith, (omega arith, tt)))
      (omega arith, (omega arith, (omega arith, tt)))
  where
    valid : validate_host is_blank loopback ≡ ok tt
    valid = unfold validate_host in refl
