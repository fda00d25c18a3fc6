-- ===== src/Ssh/Handler.antt =====
-- The decision on a server's key in crates/rdt-ssh/src/handler.rs: `check_server_key` of `ClientHandler`,
-- with the host key policy of crates/rdt-types/src/proto.rs.
pub mod Laws
pub mod Saved
mod Tests
use remote_desktop_tool.Prelude.{
  ℕ, Bool, true, false, List, [], ◌∷◌, ◌++◌, Option, none, some, if◌then◌else◌,
}
use remote_desktop_tool.Types.Errors.{ErrorCode, RdtResult, ok, err}
use remote_desktop_tool.Types.Options.{
  HostKeyPolicy, strict, accept_new, auto_accepts_unknown, is_strict,
}
use remote_desktop_tool.Ssh.KnownHosts.Pattern.{Library}
use remote_desktop_tool.Ssh.KnownHosts.Entry.{KnownHostEntry}
use remote_desktop_tool.Ssh.KnownHosts.{
  HostKeyStatus, trusted, unknown, changed, revoked, excluded, is_fatal, check, accept,
}

pub data HostKeyDecision : Type 0 where
  accept_once accept_and_save reject : HostKeyDecision

-- `Prompt::UnknownHostKey` without its answer channel.
pub record Prompt : Type 0 where
  pub host : List ℕ
  pub port : ℕ
  pub key_type : List ℕ
  pub fingerprint : List ℕ

-- The handler, or its part that the callback holds, with the database of host keys and what it has sent to the user. The channels of the
-- server play no part in the decision.
pub record ClientHandler : Type 0 where
  pub known_hosts : List KnownHostEntry
  pub host : List ℕ
  pub port : ℕ
  pub policy : HostKeyPolicy
  pub prompts : List Prompt
  pub accepted_fingerprint : Option (List ℕ)

-- The match of `verify_host_key` of `ClientHandler`.
abbrev pub verify_status : HostKeyStatus → HostKeyPolicy → RdtResult Bool
verify_status trusted policy = ok true
verify_status unknown policy =
    if auto_accepts_unknown policy then ok true else err ErrorCode.host_key_unknown
verify_status (changed fingerprint key_type) policy = err ErrorCode.host_key_mismatch
verify_status revoked policy = err ErrorCode.host_key_mismatch
verify_status excluded policy = err ErrorCode.host_key_mismatch

-- `if let Ok(true)`.
abbrev pub is_ok_true : RdtResult Bool → Bool
is_ok_true (ok answer) = answer
is_ok_true (err code) = false

module _ (lib : Library) where
  unfoldable pub verify_host_key : ClientHandler → List ℕ → List ℕ → RdtResult Bool
  verify_host_key h key_type key =
      verify_status (check lib h.known_hosts h.host h.port key_type key) h.policy

  -- `verify_host_key` of `HandlerRef`, which the callback uses.
  abbrev pub verify_trusted : HostKeyStatus → RdtResult Bool
  verify_trusted trusted = ok true
  verify_trusted _ = err ErrorCode.host_key_unknown

  -- The database is saved as well; that this fails is only logged.
  unfoldable pub remember_host_key : ClientHandler → List ℕ → List ℕ → ClientHandler
  remember_host_key h key_type key = record h {
    known_hosts = accept lib h.known_hosts h.host h.port key_type key h.host;
  }

  abbrev pub accepted_with : ClientHandler → List ℕ → ClientHandler
  accepted_with h key = record h { accepted_fingerprint = some (lib.fingerprint key) }

  -- What follows the user's answer; `none` is an answer channel that is closed.
  abbrev pub on_reply :
      ClientHandler → List ℕ → List ℕ → Option HostKeyDecision → RdtResult Bool × ClientHandler
  on_reply h key_type key (some accept_and_save) =
      (ok true, accepted_with (remember_host_key h key_type key) key)
  on_reply h key_type key (some accept_once) = (ok true, accepted_with h key)
  on_reply h key_type key (some reject) = (err ErrorCode.host_key_unknown, h)
  on_reply h key_type key none = (err ErrorCode.host_key_unknown, h)

  abbrev pub prompt_for : ClientHandler → List ℕ → List ℕ → Prompt
  prompt_for h key_type key = record {
    host = h.host;
    port = h.port;
    key_type = key_type;
    fingerprint = lib.fingerprint key;
  }

  -- The question to the user: `listening` is whether `prompts.send` succeeds.
  abbrev pub ask :
      ClientHandler
      → List ℕ
      → List ℕ
      → Bool
      → Option HostKeyDecision
      → RdtResult Bool × ClientHandler
  ask h key_type key listening reply =
      if listening
      then on_reply (record h { prompts = h.prompts ++ (prompt_for h key_type key ∷ []) }) key_type
          key reply
      else (err ErrorCode.host_key_unknown, h)

  unfoldable pub check_server_key :
      ClientHandler
      → List ℕ
      → List ℕ
      → Bool
      → Option HostKeyDecision
      → RdtResult Bool × ClientHandler
  check_server_key h key_type key listening reply =
      if is_ok_true (verify_trusted (check lib h.known_hosts h.host h.port key_type key))
      then (ok true, accepted_with h key)
      else if is_fatal (check lib h.known_hosts h.host h.port key_type key)
      then (err ErrorCode.host_key_mismatch, h)
      else if is_strict h.policy
      then (err ErrorCode.host_key_unknown, h)
      else ask h key_type key listening reply
