-- ===== src/Ssh/Session/Auth.antt =====
-- `authenticate` of crates/rdt-ssh/src/session.rs with what it calls.
use remote_desktop_tool.Prelude.{
  ℕ, Bool, true, false, List, [], ◌∷◌, Option, none, some, if◌then◌else◌,
}
use remote_desktop_tool.Text.{is_nil}
use remote_desktop_tool.Types.Errors.{ErrorCode, RdtResult, ok, err, and_then}
use remote_desktop_tool.Types.Options.{
  StoredSecret, CredentialSource, prompt, stored, PrivateKeyAuth, AuthMethod, no_auth, password,
  keyboard_interactive, private_key, agent,
}
use remote_desktop_tool.Ssh.Session.{SshConnection, Answer, classified}

-- What is sent to the server to authenticate.
pub data Sent : Type 0 where
  no_credential : Sent
  password_text : List ℕ → Sent
  key_text : List ℕ → Sent
  interactive_start : Sent

-- How the server answers each kind of authentication: the keyboard-interactive one has a start and a
-- first step.
pub record Server : Type 0 where
  pub accepts_none : List ℕ → Answer Bool
  pub accepts_password : List ℕ → List ℕ → Answer Bool
  pub accepts_key : List ℕ → List ℕ → Answer Bool
  pub starts_interactive : List ℕ → Answer Unit
  pub next_interactive : List ℕ → Answer Unit

-- The provider of secrets, the reading of the file that a path names once its tilde is expanded, and the
-- decoding of a private key with or without a passphrase.
pub record Secrets : Type 0 where
  pub fetch : StoredSecret → RdtResult (Option (List ℕ))
  pub read_key : List ℕ → Option (List ℕ)
  pub decode_key : List ℕ → Option (List ℕ) → Option (List ℕ)

abbrev pub found_or {ℓ} : {A : Type ℓ} → ErrorCode → Option A → RdtResult A
found_or code none = err code
found_or code (some a) = ok a

-- `unwrap_or_else(Secret::empty)`, of the passphrase.
abbrev pub passphrase_text : Option (List ℕ) → Option (List ℕ)
passphrase_text none = some []
passphrase_text (some text) = some text

-- An empty passphrase is as good as none.
abbrev pub used_passphrase : Option (List ℕ) → Option (List ℕ)
used_passphrase none = none
used_passphrase (some text) = if is_nil text then none else some text

module _ (server : Server) (secrets : Secrets) where
  abbrev pub resolve_secret : CredentialSource → RdtResult (List ℕ)
  resolve_secret prompt = err ErrorCode.authentication
  resolve_secret (stored reference) =
      and_then (secrets.fetch reference) (found_or ErrorCode.keystore)

  abbrev pub key_passphrase : CredentialSource → RdtResult (Option (List ℕ))
  key_passphrase prompt = ok none
  key_passphrase (stored reference) =
      and_then (secrets.fetch reference) (λ found. ok (passphrase_text found))

  unfoldable pub load_private_key : PrivateKeyAuth → RdtResult (List ℕ)
  load_private_key key = and_then (found_or ErrorCode.io (secrets.read_key key.path)) (λ text.
      and_then (key_passphrase key.passphrase) (λ passphrase.
        found_or ErrorCode.crypto (secrets.decode_key text (used_passphrase passphrase))))

  -- What the server says of a password or a key.
  abbrev pub if_accepted : RdtResult Bool → RdtResult {0} Unit
  if_accepted (err code) = err code
  if_accepted (ok true) = ok tt
  if_accepted (ok false) = err ErrorCode.authentication

  -- What the server says where its answer is not looked at.
  abbrev pub if_answered : {A : Type 0} → RdtResult A → RdtResult {0} Unit
  if_answered (err code) = err code
  if_answered (ok answer) = ok tt

  abbrev pub with_password : List ℕ → RdtResult (List ℕ) → RdtResult {0} Unit × List Sent
  with_password username (err code) = (err code, [])
  with_password username (ok text) =
      (if_accepted (classified (server.accepts_password username text)), password_text text ∷ [])

  abbrev pub with_key : List ℕ → RdtResult (List ℕ) → RdtResult {0} Unit × List Sent
  with_key username (err code) = (err code, [])
  with_key username (ok key) =
      (if_accepted (classified (server.accepts_key username key)), key_text key ∷ [])

  abbrev pub authenticate_by : AuthMethod → List ℕ → RdtResult {0} Unit × List Sent
  authenticate_by no_auth username =
      (if_answered (classified (server.accepts_none username)), no_credential ∷ [])
  authenticate_by (password source) username = with_password username (resolve_secret source)
  authenticate_by (private_key key) username = with_key username (load_private_key key)
  authenticate_by (agent path) username = (err ErrorCode.authentication, [])
  authenticate_by (keyboard_interactive source) username = (
    and_then (classified (server.starts_interactive username))
        (λ u. if_answered (classified (server.next_interactive username))),
    interactive_start ∷ [],
  )

  -- The result, with what was sent to the server.
  unfoldable pub authenticate : SshConnection → RdtResult {0} Unit × List Sent
  authenticate connection = authenticate_by connection.auth connection.username
