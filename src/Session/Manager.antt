-- ===== src/Session/Manager.antt =====
-- `SessionManager` of crates/rdt-session/src/lib.rs. `release` only drops a copy of a sender and
-- changes nothing.
pub mod Laws
pub mod Limit
mod Tests
use remote_desktop_tool.Prelude.{
  ℕ, ◌+◌, ◌-◌, Bool, true, false, List, [], ◌∷◌, ◌++◌, Option, none, some, ◌>>=◌, ◌==◌, leb,
  if◌then◌else◌, length,
}
use remote_desktop_tool.Session.Reconnect.{ReconnectPolicy}
use remote_desktop_tool.Types.Errors.{
  Protocol, ErrorCode, config, session_state, RdtResult, ok, err,
}
use remote_desktop_tool.Session.Types.{
  SessionState, connecting, authenticating, connected, reconnecting, disconnected, failed,
  cancelled, idle, is_terminal, SessionInfo, SessionSlot, ManagerPolicy, AuditEventKind,
  AuditOutcome, AuditEvent, Sessions, SessionManager, lookup, discard, alter, count_live,
}

abbrev pub empty : ManagerPolicy → SessionManager
empty policy = record { inner = []; policy = policy; audited = []; sent = []; fired = [] }

unfoldable pub new : ManagerPolicy → RdtResult SessionManager
new policy = if policy.max_concurrent == 0 then err config else ok (empty policy)

abbrev pub active_count : SessionManager → ℕ
active_count m = count_live m.inner

unfoldable pub get : SessionManager → ℕ → Option SessionInfo
get m id = do slot ← lookup m.inner id; some slot.info

abbrev pub audit_kind : SessionState → AuditEventKind
audit_kind connecting = AuditEventKind.session_connect
audit_kind authenticating = AuditEventKind.auth_attempt
audit_kind connected = AuditEventKind.session_established
audit_kind reconnecting = AuditEventKind.session_reconnect
audit_kind disconnected = AuditEventKind.session_closed
audit_kind cancelled = AuditEventKind.session_closed
audit_kind failed = AuditEventKind.session_closed
audit_kind idle = AuditEventKind.session_connect

abbrev pub audit_outcome : SessionState → AuditOutcome
audit_outcome failed = AuditOutcome.failure
audit_outcome cancelled = AuditOutcome.denied
audit_outcome connected = AuditOutcome.success
audit_outcome _ = AuditOutcome.info

-- The attempts after a transition to the state.
abbrev pub next_attempt : SessionState → ℕ → ℕ
next_attempt reconnecting attempt = attempt + 1
next_attempt _ attempt = attempt

abbrev pub set_state : SessionState → List ℕ → SessionSlot → SessionSlot
set_state state detail slot = record slot {
  info = record slot.info {
    state = state;
    detail = detail;
    attempt = next_attempt state slot.info.attempt;
  };
}

abbrev pub audit_event : ℕ → SessionState → List ℕ → AuditEvent
audit_event id state detail = record {
  kind = audit_kind state;
  outcome = audit_outcome state;
  session = id;
  detail = detail;
}

unfoldable pub transition : SessionManager → ℕ → SessionState → List ℕ → SessionManager
transition m id state detail = record m {
  inner = alter m.inner id (set_state state detail);
  sent = m.sent ++ ((id, state, detail) ∷ []);
  audited = if m.policy.audit then m.audited ++ (audit_event id state detail ∷ []) else m.audited;
}

-- "connecting".
abbrev pub connecting_text : List ℕ
connecting_text = b'c' ∷ b'o' ∷ b'n' ∷ b'n' ∷ b'e' ∷ b'c' ∷ b't' ∷ b'i' ∷ b'n' ∷ b'g' ∷ []

-- "cancelled by the user".
abbrev pub cancelled_text : List ℕ
cancelled_text =
    b'c' ∷ b'a' ∷ b'n' ∷ b'c' ∷ b'e' ∷ b'l' ∷ b'l' ∷ b'e' ∷ b'd' ∷ b' ' ∷ b'b' ∷ b'y' ∷ b' ' ∷ b't'
    ∷ b'h' ∷ b'e' ∷ b' ' ∷ b'u' ∷ b's' ∷ b'e' ∷ b'r' ∷ []

-- The slot that `register` enters.
abbrev pub new_slot : ℕ → Option ℕ → Protocol → List ℕ → ℕ → ℕ → ℕ → SessionSlot
new_slot id profile protocol address commands cancel now = record {
  info = record {
    id = id;
    profile = profile;
    protocol = protocol;
    address = address;
    state = connecting;
    detail = connecting_text;
    started = now;
    attempt = 0;
  };
  commands = commands;
  cancel = cancel;
}

-- `HashMap::insert`.
abbrev pub enter : SessionManager → ℕ → SessionSlot → SessionManager
enter m id slot = record m { inner = (id, slot) ∷ discard m.inner id }

-- `HashMap::insert` replaces the slot of the same id. The handle is the id with `commands`; `now` is
-- the clock.
unfoldable pub register :
    SessionManager
    → ℕ
    → Option ℕ
    → Protocol
    → List ℕ
    → ℕ
    → ℕ
    → ℕ
    → RdtResult (SessionManager × ℕ × ℕ)
register m id profile protocol address commands cancel now =
    if leb m.policy.max_concurrent (active_count m)
    then err session_state
    else ok (
      transition (enter m id (new_slot id profile protocol address commands cancel now)) id
          connecting connecting_text,
      id,
      commands,
    )

-- `accepts` tells whether the receiver of a command channel is still there.
unfoldable pub send : (ℕ → Bool) → SessionManager → ℕ → RdtResult ℕ
send accepts m id = elim (lookup m.inner id) [
  | none ↦ err session_state
  | some slot ↦ if accepts slot.commands then ok slot.commands else err session_state
]

-- The token of the slot, used if there is one.
abbrev pub fire : Option SessionSlot → List ℕ → List ℕ
fire none fired = fired
fire (some slot) fired = fired ++ (slot.cancel ∷ [])

unfoldable pub cancel : SessionManager → ℕ → SessionManager
cancel m id =
    transition (record m { inner = discard m.inner id; fired = fire (lookup m.inner id) m.fired })
      id cancelled cancelled_text

unfoldable pub cancel_ids : SessionManager → List ℕ → SessionManager
cancel_ids m [] = m
cancel_ids m (id ∷ ids) = cancel_ids (cancel m id) ids

abbrev pub keys : Sessions → List ℕ
keys [] = []
keys (x ∷ xs) = x.0 ∷ keys xs

unfoldable pub cancel_all : SessionManager → SessionManager
cancel_all m = cancel_ids m (keys m.inner)

-- `retain` of the sessions that are not finished.
abbrev pub unfinished : Sessions → Sessions
unfinished [] = []
unfinished (x ∷ xs) =
    let rest = unfinished xs in if is_terminal x.1.info.state then rest else x ∷ rest

unfoldable pub prune : SessionManager → SessionManager × ℕ
prune m = let kept = unfinished m.inner in (record m { inner = kept }, length m.inner - length kept)
