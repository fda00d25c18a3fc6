-- ===== src/Config/Profile.antt =====
-- `ConnectionProfile` of crates/rdt-config/src/profile.rs. The messages of its errors are left out.
use remote_desktop_tool.Prelude.{
  ℕ, Bool, true, false, not, ◌&&◌, ◌||◌, List, [], ◌∷◌, ◌++◌, Option, none, ◌==◌, ltb,
  if◌then◌else◌,
}
use remote_desktop_tool.Text.{is_nil, decimal, trim}
use remote_desktop_tool.Types.Errors.{ErrorCode, RdtResult, ok, err, Protocol}
use remote_desktop_tool.Types.Endpoint.{Endpoint, byte_len, any_white}
use remote_desktop_tool.Types.Options.{
  CertPolicy, verify_chain, verify_or_pinned, trust_on_first_use, auto_accepts_unknown, is_strict,
  AuthMethod, default_auth, SshOptions, default_ssh, RdpOptions, default_rdp,
}

pub record ConnectionProfile : Type 0 where
  pub id : List ℕ
  pub name : List ℕ
  pub group : Option (List ℕ)
  pub endpoint : Endpoint
  pub protocol : Protocol
  pub auth : AuthMethod
  pub jump_host : Option Endpoint
  pub ssh : SshOptions
  pub rdp : RdpOptions
  pub notes : List ℕ
  pub tags : List (List ℕ)
  pub connect_on_startup : Bool
  pub sort_index : ℕ

-- The identifier is drawn at random.
abbrev pub new : List ℕ → List ℕ → List ℕ → ℕ → Protocol → ConnectionProfile
new id name host port protocol = record {
  id = id;
  name = name;
  group = none;
  endpoint = record { host = host; port = port };
  protocol = protocol;
  auth = default_auth;
  jump_host = none;
  ssh = default_ssh;
  rdp = default_rdp;
  notes = [];
  tags = [];
  connect_on_startup = false;
  sort_index = 0;
}

abbrev pub address : ConnectionProfile → List ℕ
address p = p.endpoint.host ++ (b':' ∷ decimal p.endpoint.port)

-- The `matches!` on the certificate policy.
abbrev pub checks_certificate : CertPolicy → Bool
checks_certificate verify_chain = true
checks_certificate verify_or_pinned = true
checks_certificate trust_on_first_use = true

-- `white` is `char::is_whitespace` of the standard library.
module _ (white : ℕ → Bool) where
  abbrev pub any_blank : List (List ℕ) → Bool
  any_blank [] = false
  any_blank (tag ∷ tags) = is_nil (trim white tag) || any_blank tags

  unfoldable pub validate : ConnectionProfile → RdtResult {0} Unit
  validate p =
      if is_nil (trim white p.name)
      then err ErrorCode.config
      else if ltb 120 (byte_len p.name)
      then err ErrorCode.config
      else if is_nil (trim white p.endpoint.host)
      then err ErrorCode.config
      else if p.endpoint.port == 0
      then err ErrorCode.config
      else if any_white white p.endpoint.host
      then err ErrorCode.config
      else if any_blank p.tags
      then err ErrorCode.config
      else if not (is_strict p.ssh.host_key_policy) && auto_accepts_unknown p.ssh.host_key_policy
      then err ErrorCode.config
      else if not (checks_certificate p.rdp.cert_policy)
      then err ErrorCode.config
      else ok tt

  abbrev pub is_valid : ConnectionProfile → Bool
  is_valid p = elim (validate p) [ ok u ↦ true | err code ↦ false ]
