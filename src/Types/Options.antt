-- ===== src/Types/Options.antt =====
-- The policies, credentials and connection options of crates/rdt-types/src/proto.rs. Durations are in
-- seconds; a path is its text, and a font size its 32 bits.
mod Tests
use remote_desktop_tool.Prelude.{
  ℕ, Bool, true, false, List, [], ◌∷◌, Option, none, some, ◌||◌, if◌then◌else◌,
}
use remote_desktop_tool.Text.{same_text, lower_ascii, trim}
use remote_desktop_tool.Types.Errors.{ErrorCode, RdtResult, ok, err, Protocol}
use remote_desktop_tool.Session.Reconnect.{ReconnectPolicy}
use remote_desktop_tool.Session.Reconnect

pub data HostKeyPolicy : Type 0 where
  strict accept_new : HostKeyPolicy

abbrev pub auto_accepts_unknown : HostKeyPolicy → Bool
auto_accepts_unknown accept_new = true
auto_accepts_unknown strict = false

abbrev pub is_strict : HostKeyPolicy → Bool
is_strict strict = true
is_strict accept_new = false

abbrev pub host_key_policy_name : HostKeyPolicy → List ℕ
host_key_policy_name strict = b's' ∷ b't' ∷ b'r' ∷ b'i' ∷ b'c' ∷ b't' ∷ []
host_key_policy_name accept_new =
    b'a' ∷ b'c' ∷ b'c' ∷ b'e' ∷ b'p' ∷ b't' ∷ b'-' ∷ b'n' ∷ b'e' ∷ b'w' ∷ []

abbrev pub protocol_name : Protocol → List ℕ
protocol_name Protocol.ssh = b's' ∷ b's' ∷ b'h' ∷ []
protocol_name Protocol.rdp = b'r' ∷ b'd' ∷ b'p' ∷ []

-- `white` is `char::is_whitespace` of the standard library.
module _ (white : ℕ → Bool) where
  abbrev pub host_key_policy_of : List ℕ → RdtResult HostKeyPolicy
  host_key_policy_of text =
      let word = lower_ascii (trim white text) in
      if same_text word (host_key_policy_name strict)
      then ok strict
      else if same_text word (host_key_policy_name accept_new)
          || same_text word (b'a' ∷ b'c' ∷ b'c' ∷ b'e' ∷ b'p' ∷ b't' ∷ b'n' ∷ b'e' ∷ b'w' ∷ [])
      then ok accept_new
      else err ErrorCode.invalid_input

  abbrev pub protocol_of : List ℕ → RdtResult Protocol
  protocol_of text =
      let word = lower_ascii (trim white text) in
      if same_text word (protocol_name Protocol.ssh)
      then ok Protocol.ssh
      else if same_text word (protocol_name Protocol.rdp)
          || same_text word (b'r' ∷ b'd' ∷ b'p' ∷ b'-' ∷ b't' ∷ b'c' ∷ b'p' ∷ [])
      then ok Protocol.rdp
      else err ErrorCode.invalid_input

pub data SecretBackend : Type 0 where
  os_keystore encrypted_vault : SecretBackend

abbrev pub backend_name : SecretBackend → List ℕ
backend_name os_keystore =
    b'o' ∷ b's' ∷ b'-' ∷ b'k' ∷ b'e' ∷ b'y' ∷ b's' ∷ b't' ∷ b'o' ∷ b'r' ∷ b'e' ∷ []
backend_name encrypted_vault =
    b'e' ∷ b'n' ∷ b'c' ∷ b'r' ∷ b'y' ∷ b'p' ∷ b't' ∷ b'e' ∷ b'd' ∷ b'-' ∷ b'v' ∷ b'a' ∷ b'u' ∷ b'l'
    ∷ b't' ∷ []

pub record StoredSecret : Type 0 where
  pub backend : SecretBackend
  pub key : List ℕ

pub data CredentialSource : Type 0 where
  prompt : CredentialSource
  stored : StoredSecret → CredentialSource

abbrev pub is_prompt : CredentialSource → Bool
is_prompt prompt = true
is_prompt (stored secret) = false

pub record PrivateKeyAuth : Type 0 where
  pub path : List ℕ
  pub passphrase : CredentialSource

pub data AuthMethod : Type 0 where
  no_auth : AuthMethod
  password keyboard_interactive : CredentialSource → AuthMethod
  private_key : PrivateKeyAuth → AuthMethod
  agent : Option (List ℕ) → AuthMethod

abbrev pub default_auth : AuthMethod
default_auth = password prompt

abbrev pub describe : AuthMethod → List ℕ
describe no_auth = b'n' ∷ b'o' ∷ b'n' ∷ b'e' ∷ []
describe (password source) = b'p' ∷ b'a' ∷ b's' ∷ b's' ∷ b'w' ∷ b'o' ∷ b'r' ∷ b'd' ∷ []
describe (private_key key) =
    if is_prompt key.passphrase
    then b'p' ∷ b'r' ∷ b'i' ∷ b'v' ∷ b'a' ∷ b't' ∷ b'e' ∷ b' ' ∷ b'k' ∷ b'e' ∷ b'y' ∷ []
    else b'p' ∷ b'r' ∷ b'i' ∷ b'v' ∷ b'a' ∷ b't' ∷ b'e' ∷ b' ' ∷ b'k' ∷ b'e' ∷ b'y' ∷ b' ' ∷ b'('
      ∷ b's' ∷ b't' ∷ b'o' ∷ b'r' ∷ b'e' ∷ b'd' ∷ b' ' ∷ b'p' ∷ b'a' ∷ b's' ∷ b's' ∷ b'p' ∷ b'h'
      ∷ b'r' ∷ b'a' ∷ b's' ∷ b'e' ∷ b')' ∷ []
describe (agent identity) = b's' ∷ b's' ∷ b'h' ∷ b' ' ∷ b'a' ∷ b'g' ∷ b'e' ∷ b'n' ∷ b't' ∷ []
describe (keyboard_interactive source) =
    b'k' ∷ b'e' ∷ b'y' ∷ b'b' ∷ b'o' ∷ b'a' ∷ b'r' ∷ b'd' ∷ b'-' ∷ b'i' ∷ b'n' ∷ b't' ∷ b'e' ∷ b'r'
    ∷ b'a' ∷ b'c' ∷ b't' ∷ b'i' ∷ b'v' ∷ b'e' ∷ []

pub record TerminalOptions : Type 0 where
  pub cols : ℕ
  pub rows : ℕ
  pub scrollback_lines : ℕ
  pub font_size : ℕ
  pub term : List ℕ
  pub bell : Bool

-- 14.0 is 0x41600000.
abbrev pub default_terminal : TerminalOptions
default_terminal = record {
  cols = 100;
  rows = 30;
  scrollback_lines = 5000;
  font_size = 0x41600000;
  term =
      b'x' ∷ b't' ∷ b'e' ∷ b'r' ∷ b'm' ∷ b'-' ∷ b'2' ∷ b'5' ∷ b'6' ∷ b'c' ∷ b'o' ∷ b'l' ∷ b'o'
      ∷ b'r' ∷ [];
  bell = true;
}

pub record SshOptions : Type 0 where
  pub keepalive_secs : ℕ
  pub connect_timeout_secs : ℕ
  pub idle_timeout_secs : ℕ
  pub compression : Bool
  pub host_key_policy : HostKeyPolicy
  pub known_hosts : Option (List ℕ)
  pub terminal : TerminalOptions
  pub command : Option (List ℕ)
  pub environment : List (List ℕ)
  pub sftp_enabled : Bool
  pub reconnect : ReconnectPolicy

abbrev pub default_ssh : SshOptions
default_ssh = record {
  keepalive_secs = 30;
  connect_timeout_secs = 15;
  idle_timeout_secs = 0;
  compression = false;
  host_key_policy = strict;
  known_hosts = none;
  terminal = default_terminal;
  command = none;
  environment = [];
  sftp_enabled = true;
  reconnect = Reconnect.default;
}

pub data ColorDepth : Type 0 where
  rgb565 true_color24 true_color32 : ColorDepth

abbrev pub bits_per_pixel : ColorDepth → ℕ
bits_per_pixel rgb565 = 16
bits_per_pixel true_color24 = 24
bits_per_pixel true_color32 = 32

pub data CertPolicy : Type 0 where
  verify_chain verify_or_pinned trust_on_first_use : CertPolicy

pub record RdpOptions : Type 0 where
  pub width : ℕ
  pub height : ℕ
  pub color_depth : ColorDepth
  pub cert_policy : CertPolicy
  pub pinned_fingerprint : Option (List ℕ)
  pub ca_bundle : Option (List ℕ)
  pub clipboard : Bool
  pub dynamic_resize : Bool
  pub domain : Option (List ℕ)
  pub console_session : Bool
  pub allow_tls_fallback : Bool
  pub reconnect : ReconnectPolicy
  pub connect_timeout_secs : ℕ

abbrev pub default_rdp : RdpOptions
default_rdp = record {
  width = 1280;
  height = 800;
  color_depth = true_color24;
  cert_policy = verify_chain;
  pinned_fingerprint = none;
  ca_bundle = none;
  clipboard = true;
  dynamic_resize = true;
  domain = none;
  console_session = false;
  allow_tls_fallback = false;
  reconnect = Reconnect.default;
  connect_timeout_secs = 15;
}

pub record KeyboardLayout : Type 0 where
  pub id : ℕ
  pub name : List ℕ

abbrev pub us_layout : KeyboardLayout
us_layout = record {
  id = 0x409;
  name = b'U' ∷ b'S' ∷ b' ' ∷ b'E' ∷ b'n' ∷ b'g' ∷ b'l' ∷ b'i' ∷ b's' ∷ b'h' ∷ [];
}

abbrev pub uk_layout : KeyboardLayout
uk_layout = record {
  id = 0x809;
  name = b'U' ∷ b'K' ∷ b' ' ∷ b'E' ∷ b'n' ∷ b'g' ∷ b'l' ∷ b'i' ∷ b's' ∷ b'h' ∷ [];
}

abbrev pub german_layout : KeyboardLayout
german_layout = record { id = 0x407; name = b'G' ∷ b'e' ∷ b'r' ∷ b'm' ∷ b'a' ∷ b'n' ∷ [] }

abbrev pub french_layout : KeyboardLayout
french_layout = record { id = 0x40C; name = b'F' ∷ b'r' ∷ b'e' ∷ b'n' ∷ b'c' ∷ b'h' ∷ [] }

abbrev pub spanish_layout : KeyboardLayout
spanish_layout = record { id = 0x40A; name = b'S' ∷ b'p' ∷ b'a' ∷ b'n' ∷ b'i' ∷ b's' ∷ b'h' ∷ [] }

abbrev pub all_layouts : List KeyboardLayout
all_layouts = us_layout ∷ uk_layout ∷ german_layout ∷ french_layout ∷ spanish_layout ∷ []
