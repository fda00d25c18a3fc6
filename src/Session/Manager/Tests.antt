-- ===== src/Session/Manager/Tests.antt =====
-- The session manager at concrete inputs.
use remote_desktop_tool.Prelude.{ℕ, ◌≡◌, ◌≢◌, ◌⊎◌, ◌≤◌, ◌<◌, refl, [], none, some, true}
use remote_desktop_tool.Session.Reconnect
use remote_desktop_tool.Types.Errors.{Protocol, ok, err, session_state}
use remote_desktop_tool.Session.Types.{connecting, SessionManager, ManagerPolicy, disconnected}
use remote_desktop_tool.Session.Manager.{
  new, empty, register, transition, prune, get, send, active_count, enter, new_slot,
  connecting_text,
}
use remote_desktop_tool.Session.Manager.Limit.{
  register-limit, Reachable, created, registered, Reachable-InLimit, InLimit,
}

abbrev one_session : ManagerPolicy
one_session = record { max_concurrent = 1; reconnect = Reconnect.default; audit = true }

-- The manager after it registered session 7.
abbrev busy : SessionManager
busy =
    transition (enter (empty one_session) 7 (new_slot 7 none Protocol.ssh [] 1 2 0)) 7 connecting
      connecting_text

busy-Reachable : Reachable one_session busy
unfolding new register
busy-Reachable =
    registered (empty one_session) busy 7 none Protocol.ssh [] 1 2 0
      (created (empty one_session) refl) refl

-- A second session is refused while the first is there, and admitted when it has ended.
second_refused : register busy 8 none Protocol.rdp [] 3 4 0 ≡ err session_state
unfolding register transition
second_refused = refl

ended : (prune (transition busy 7 disconnected [])).1 ≡ 1
unfolding prune transition
ended = refl

unknown : send (λ c. true) busy 9 ≡ err session_state
unfolding send transition
unknown = refl

Reachable-InLimit_example : InLimit one_session busy
Reachable-InLimit_example = Reachable-InLimit one_session busy busy-Reachable

register-limit_example :
    ((1 ≤ active_count (empty one_session))
      × (register (empty one_session) 7 none Protocol.ssh [] 1 2 0 ≡ err session_state))
    ⊎ ((active_count (empty one_session) < 1)
        × ((m' : SessionManager) × (register (empty one_session) 7 none Protocol.ssh [] 1 2 0
              ≡ ok (m', 7, 1))
            × (m'.policy ≡ one_session)
            × (active_count m' ≤ 1)
            × (get m' 7 ≡ some (new_slot 7 none Protocol.ssh [] 1 2 0).info)
            × ((other : ℕ) → other ≢ 7 → get m' other ≡ get (empty one_session) other)))
register-limit_example = register-limit (empty one_session) 7 none Protocol.ssh [] 1 2 0
