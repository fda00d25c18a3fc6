-- ===== src/Session/Types.antt =====
-- The states, slots and policy of crates/rdt-session/src/lib.rs. A session id, a channel's end, a
-- cancellation token and an `Instant` are numbers; the map of sessions is an association list.
use remote_desktop_tool.Prelude.{
  ℕ, ◌+◌, Bool, true, false, List, [], ◌∷◌, Option, none, some, ◌==◌, if◌then◌else◌,
}
use remote_desktop_tool.Types.Errors.{Protocol}
use remote_desktop_tool.Session.Reconnect.{ReconnectPolicy}

pub data SessionState : Type 0 where
  idle connecting authenticating connected : SessionState
  reconnecting disconnected failed cancelled : SessionState

abbrev pub is_active : SessionState → Bool
is_active connected = true
is_active _ = false

abbrev pub is_terminal : SessionState → Bool
is_terminal disconnected = true
is_terminal failed = true
is_terminal cancelled = true
is_terminal _ = false

abbrev pub is_pending : SessionState → Bool
is_pending connecting = true
is_pending authenticating = true
is_pending reconnecting = true
is_pending _ = false

pub record SessionInfo : Type 0 where
  pub id : ℕ
  pub profile : Option ℕ
  pub protocol : Protocol
  pub address : List ℕ
  pub state : SessionState
  pub detail : List ℕ
  pub started : ℕ
  pub attempt : ℕ

pub record SessionSlot : Type 0 where
  pub info : SessionInfo
  pub commands : ℕ
  pub cancel : ℕ

pub record ManagerPolicy : Type 0 where
  pub max_concurrent : ℕ
  pub reconnect : ReconnectPolicy
  pub audit : Bool

pub data AuditEventKind : Type 0 where
  session_connect session_established session_closed session_reconnect auth_attempt : AuditEventKind
  host_key_accepted host_key_rejected certificate_decision file_transfer : AuditEventKind
  clipboard_transfer config_changed vault_access service_changed command_executed : AuditEventKind

pub data AuditOutcome : Type 0 where
  success failure denied info : AuditOutcome

-- What `transition` hands to the audit log: an event without its time stamp, and without a profile,
-- which it never sets.
pub record AuditEvent : Type 0 where
  pub kind : AuditEventKind
  pub outcome : AuditOutcome
  pub session : ℕ
  pub detail : List ℕ

abbrev pub Sessions : Type 0
Sessions = List (ℕ × SessionSlot)

-- `audited`, `sent` and `fired` are what left the manager so far: the records of the audit log, the
-- broadcasts, and the cancellation tokens that were used.
pub record SessionManager : Type 0 where
  pub inner : Sessions
  pub policy : ManagerPolicy
  pub audited : List AuditEvent
  pub sent : List (ℕ × SessionState × List ℕ)
  pub fired : List ℕ

-- `HashMap::get`.
abbrev pub lookup : Sessions → ℕ → Option SessionSlot
lookup [] id = none
lookup (x ∷ xs) id = if x.0 == id then some x.1 else lookup xs id

-- `HashMap::remove`, without the value.
abbrev pub discard : Sessions → ℕ → Sessions
discard [] id = []
discard (x ∷ xs) id = let rest = discard xs id in if x.0 == id then rest else x ∷ rest

-- A write through `HashMap::get_mut`.
abbrev pub alter : Sessions → ℕ → (SessionSlot → SessionSlot) → Sessions
alter [] id f = []
alter (x ∷ xs) id f = let rest = alter xs id f in if x.0 == id then (x.0, f x.1) ∷ xs else x ∷ rest

-- The number of the sessions that are not finished.
abbrev pub live : SessionState → ℕ
live s = if is_terminal s then 0 else 1

abbrev pub count_live : Sessions → ℕ
count_live [] = 0
count_live (x ∷ xs) = live x.1.info.state + count_live xs
