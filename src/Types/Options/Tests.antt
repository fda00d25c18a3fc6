-- ===== src/Types/Options/Tests.antt =====
-- Names of protocols and policies at concrete inputs. White space is the blank.
use remote_desktop_tool.Prelude.{ℕ, ◌≡◌, ◌==◌, refl, Bool, [], ◌∷◌}
use remote_desktop_tool.Types.Errors.{ok, Protocol}
use remote_desktop_tool.Types.Options.{
  accept_new, host_key_policy_name, host_key_policy_of, protocol_of,
}

abbrev is_blank : ℕ → Bool
is_blank c = c == b' '

reads_policy : host_key_policy_of is_blank (host_key_policy_name accept_new) ≡ ok accept_new
reads_policy = refl

-- " RDP".
reads_protocol : protocol_of is_blank (b' ' ∷ b'R' ∷ b'D' ∷ b'P' ∷ []) ≡ ok Protocol.rdp
reads_protocol = refl
