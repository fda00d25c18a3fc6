-- ===== src/Ssh/Session/Pump.antt =====
-- The task of `pump` in crates/rdt-ssh/src/session.rs, and the handle that feeds it.
use remote_desktop_tool.Prelude.{ℕ, Bool, true, false, List, [], ◌∷◌, ◌++◌, if◌then◌else◌}
use remote_desktop_tool.Types.Errors.{ErrorCode, RdtResult, ok, err}
use remote_desktop_tool.Ssh.Session.{TerminalSize}

pub data SessionCommand : Type 0 where
  send_data : List ℕ → SessionCommand
  resize_to : TerminalSize → SessionCommand
  send_end : SessionCommand
  disconnect_now : SessionCommand

-- The calls on the channel and on the connection.
pub data Request : Type 0 where
  data_request : List ℕ → Request
  window_change : TerminalSize → Request
  end_request close_request disconnect_request : Request

-- `send`, `resize` and `send_eof`: whether the task still receives.
abbrev pub send_command :
    Bool → List SessionCommand → SessionCommand → RdtResult {0} Unit × List SessionCommand
send_command true queue command = (ok tt, queue ++ (command ∷ []))
send_command false queue command = (err ErrorCode.session_state, queue)

-- A request, and the rest where it succeeds.
abbrev pub and_rest : Bool → Request → List Request → List Request
and_rest succeeds request rest = request ∷ (if succeeds then rest else [])

-- The requests for the commands, each with whether its request succeeds.
unfoldable pub pump : List (SessionCommand × Bool) → List Request
pump [] = []
pump ((send_data bytes, succeeds) ∷ commands) =
    and_rest succeeds (data_request bytes) (pump commands)
pump ((resize_to size, succeeds) ∷ commands) =
    and_rest succeeds (window_change size) (pump commands)
pump ((send_end, succeeds) ∷ commands) = and_rest succeeds end_request (pump commands)
pump ((disconnect_now, succeeds) ∷ commands) = close_request ∷ disconnect_request ∷ []
