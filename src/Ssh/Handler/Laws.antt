-- ===== src/Ssh/Handler/Laws.antt =====
-- Which servers crates/rdt-ssh/src/handler.rs connects to.
use remote_desktop_tool.Prelude.{
  ℕ, ◌≡◌, refl, ap, Bool, true, false, List, Option, none, some, if◌then◌else◌, ◌&&◌,
}
use remote_desktop_tool.Types.Errors.{ErrorCode, RdtResult, ok, err}
use remote_desktop_tool.Ssh.KnownHosts.Pattern.{Library}
use remote_desktop_tool.Ssh.KnownHosts.{
  HostKeyStatus, trusted, unknown, changed, revoked, excluded, check, accept,
}
use remote_desktop_tool.Ssh.KnownHosts.Verdict.{verdict, check-verdict}
use remote_desktop_tool.Types.Options.{HostKeyPolicy, strict, accept_new, is_strict}
use remote_desktop_tool.Ssh.Handler.{
  HostKeyDecision, accept_once, accept_and_save, reject, ClientHandler, remember_host_key, ask,
  check_server_key,
}

-- Whether the user was asked and let the key in.
abbrev pub is_accepted : Option HostKeyDecision → Bool
is_accepted (some accept_once) = true
is_accepted (some accept_and_save) = true
is_accepted _ = false

-- The rule for a connection: the key is trusted, or it is unknown, the policy is accept-new, and the
-- user can be asked and accepts it.
abbrev pub may_connect : HostKeyStatus → HostKeyPolicy → Bool → Option HostKeyDecision → Bool
may_connect trusted policy listening reply = true
may_connect unknown accept_new listening reply = listening && is_accepted reply
may_connect _ policy listening reply = false

-- The rule for the database: an unknown key is entered if the policy is accept-new, and the user can
-- be asked and wants to save it.
abbrev pub may_save : HostKeyStatus → HostKeyPolicy → Bool → Option HostKeyDecision → Bool
may_save unknown accept_new listening (some accept_and_save) = listening
may_save _ policy listening reply = false

-- The code of a refusal.
abbrev pub refusal : HostKeyStatus → ErrorCode
refusal unknown = ErrorCode.host_key_unknown
refusal trusted = ErrorCode.host_key_unknown
refusal _ = ErrorCode.host_key_mismatch

module _ (lib : Library) (h : ClientHandler) (key_type key : List ℕ) where
  -- What the callback decides and leaves behind, by the verdict.
  abbrev pub Decided :
      HostKeyStatus
      → HostKeyPolicy
      → Bool
      → Option HostKeyDecision
      → RdtResult Bool × ClientHandler
      → Type 0
  Decided status policy listening reply result =
      (result.0
        ≡ (if may_connect status policy listening reply then ok true else err (refusal status)))
      × (result.1.known_hosts ≡ (
          if may_save status policy listening reply
          then accept lib h.known_hosts h.host h.port key_type key h.host
          else h.known_hosts))
      × (result.1.accepted_fingerprint ≡ (
          if may_connect status policy listening reply
          then some (lib.fingerprint key)
          else h.accepted_fingerprint))

  ask-Decided :
      (listening : Bool) (reply : Option HostKeyDecision)
      → Decided unknown accept_new listening reply (ask lib h key_type key listening reply)
  unfolding remember_host_key
  ask-Decided false none = (refl, refl, refl)
  ask-Decided false (some accept_once) = (refl, refl, refl)
  ask-Decided false (some accept_and_save) = (refl, refl, refl)
  ask-Decided false (some reject) = (refl, refl, refl)
  ask-Decided true none = (refl, refl, refl)
  ask-Decided true (some accept_once) = (refl, refl, refl)
  ask-Decided true (some accept_and_save) = (refl, refl, refl)
  ask-Decided true (some reject) = (refl, refl, refl)

  by_status :
      (status : HostKeyStatus) (policy : HostKeyPolicy)
      → check lib h.known_hosts h.host h.port key_type key ≡ status
      → h.policy ≡ policy
      → (listening : Bool) (reply : Option HostKeyDecision)
      → Decided status policy listening reply (check_server_key lib h key_type key listening reply)
  unfolding check_server_key
  by_status trusted policy e p listening reply = rw e (refl, refl, refl)
  by_status unknown accept_new e p listening reply =
      let lenient : is_strict h.policy ≡ false = ap is_strict p in
      rw (e, lenient) (ask-Decided listening reply)
  by_status unknown strict e p listening reply = rw (e, p) (refl, refl, refl)
  by_status (changed fingerprint type) policy e p listening reply = rw e (refl, refl, refl)
  by_status revoked policy e p listening reply = rw e (refl, refl, refl)
  by_status excluded policy e p listening reply = rw e (refl, refl, refl)

  -- The callback connects exactly if the rules allow it: a trusted key always, an unknown key only
  -- under the policy accept-new and with the user's consent, any other key never, and a refusal says
  -- whether the key is unknown or wrong. The database changes only if the user wants to save an
  -- unknown key, and the fingerprint is kept only for a key that is let in. The verdict is that of the
  -- first entries with the key or with another key of its type.
  pub check_server_key-Decided :
      (listening : Bool) (reply : Option HostKeyDecision)
      → Decided
          (verdict lib h.host h.port key_type key h.known_hosts)
          h.policy
          listening
          reply
          (check_server_key lib h key_type key listening reply)
  check_server_key-Decided listening reply =
      by_status _ _ (check-verdict lib h.host h.port key_type key h.known_hosts) refl listening
        reply
