-- ===== src/Ssh/Session/Connect.antt =====
-- `connect` of `SshSession` in crates/rdt-ssh/src/session.rs.
use remote_desktop_tool.Prelude.{ℕ, Bool, true, false, List, [], ◌∷◌, Option, none, some}
use remote_desktop_tool.Text.{is_nil, split_once, trim}
use remote_desktop_tool.Types.Errors.{ErrorCode, RdtResult, ok, err, and_then}
use remote_desktop_tool.Ssh.KnownHosts.Pattern.{Library}
use remote_desktop_tool.Ssh.KnownHosts.Entry.{KnownHostEntry}
use remote_desktop_tool.Ssh.Handler.{HostKeyDecision, ClientHandler, check_server_key}
use remote_desktop_tool.Ssh.Session.{TerminalSize, SshCommand, SshConnection, SshError, classify}
use remote_desktop_tool.Ssh.Session.Auth.{Sent, Server, Secrets, authenticate}

-- What comes of `client::connect`: a timeout, an error, or a server that presents the type and the bytes of
-- its key. The user may listen and answer, and the error is what russh reports of a key that is refused.
pub data Reaching : Type 0 where
  timed_out : Reaching
  refused : SshError → Reaching
  presents : List ℕ → List ℕ → Bool → Option HostKeyDecision → SshError → Reaching

-- The errors of the requests on the channel, where they fail.
pub record Requests : Type 0 where
  pub open_session : Option SshError
  pub pty : Option SshError
  pub start : Option SshError

-- The session with the variables that were asked for.
pub record Connected : Type 0 where
  pub size : TerminalSize
  pub command : SshCommand
  pub fingerprint : Option (List ℕ)
  pub variables : List (List ℕ × List ℕ)

abbrev pub refuse_if : Bool → ErrorCode → RdtResult {0} Unit
refuse_if true code = err code
refuse_if false code = ok tt

abbrev pub requested : Option SshError → RdtResult {0} Unit
requested none = ok tt
requested (some error) = err (classify error)

abbrev pub and_variable : Option (List ℕ × List ℕ) → List (List ℕ × List ℕ) → List (List ℕ × List ℕ)
and_variable none rest = rest
and_variable (some variable) rest = variable ∷ rest

-- The loop over the environment: an entry without `=` is passed over.
abbrev pub variables_of : List (List ℕ) → List (List ℕ × List ℕ)
variables_of [] = []
variables_of (v ∷ environment) = and_variable (split_once b'=' v) (variables_of environment)

-- The known hosts of the connection, from what loading their file gives.
abbrev pub hosts_of :
    Option (List ℕ) → RdtResult (List KnownHostEntry) → RdtResult (List KnownHostEntry)
hosts_of none loaded = ok []
hosts_of (some path) loaded = loaded

abbrev pub new_handler : SshConnection → List KnownHostEntry → ClientHandler
new_handler connection hosts = record {
  known_hosts = hosts;
  host = connection.host;
  port = connection.port;
  policy = connection.host_key_policy;
  prompts = [];
  accepted_fingerprint = none;
}

-- The result of `connect`, with what was sent to authenticate and the handler.
abbrev pub Attempt : Type 0
Attempt = RdtResult Connected × List Sent × Option ClientHandler

module _ (white : ℕ → Bool) (lib : Library) (server : Server) (secrets : Secrets) where
  abbrev pub check_connection : SshConnection → RdtResult {0} Unit
  check_connection connection =
      and_then (refuse_if (is_nil (trim white connection.host)) ErrorCode.invalid_input)
        (λ named. refuse_if (is_nil (trim white connection.username)) ErrorCode.invalid_input)

  -- The requests on the channel.
  abbrev pub open_channel : Requests → SshConnection → ClientHandler → RdtResult Connected
  open_channel requests connection handler = and_then (requested requests.open_session) (λ opened.
      and_then (requested requests.pty) (λ sized. and_then (requested requests.start) (λ started.
        ok (record {
          size = connection.size;
          command = connection.command;
          fingerprint = handler.accepted_fingerprint;
          variables = variables_of connection.environment;
        }))))

  -- What follows the authentication.
  abbrev pub authenticated :
      Requests → SshConnection → ClientHandler → RdtResult {0} Unit × List Sent → Attempt
  authenticated requests connection handler (err code, sent) = (err code, sent, some handler)
  authenticated requests connection handler (ok u, sent) =
      (open_channel requests connection handler, sent, some handler)

  -- What follows the callback on the server's key.
  abbrev pub key_checked :
      Requests → SshConnection → SshError → RdtResult Bool × ClientHandler → Attempt
  key_checked requests connection error (ok true, handler) =
      authenticated requests connection handler (authenticate server secrets connection)
  key_checked requests connection error (ok false, handler) =
      (err (classify error), [], some handler)
  key_checked requests connection error (err code, handler) =
      (err (classify error), [], some handler)

  abbrev pub reach : Reaching → Requests → SshConnection → ClientHandler → Attempt
  reach timed_out requests connection handler = (err ErrorCode.timeout, [], some handler)
  reach (refused error) requests connection handler = (err (classify error), [], some handler)
  reach (presents key_type key listening reply error) requests connection handler =
      key_checked requests connection error
        (check_server_key lib handler key_type key listening reply)

  abbrev pub with_hosts :
      Reaching → Requests → SshConnection → RdtResult (List KnownHostEntry) → Attempt
  with_hosts reaching requests connection (err code) = (err code, [], none)
  with_hosts reaching requests connection (ok hosts) =
      reach reaching requests connection (new_handler connection hosts)

  abbrev pub when_checked :
      Reaching
      → Requests
      → SshConnection
      → RdtResult (List KnownHostEntry)
      → RdtResult {0} Unit
      → Attempt
  when_checked reaching requests connection loaded (err code) = (err code, [], none)
  when_checked reaching requests connection loaded (ok u) =
      with_hosts reaching requests connection (hosts_of connection.known_hosts_path loaded)

  unfoldable pub connect :
      Reaching → Requests → SshConnection → RdtResult (List KnownHostEntry) → Attempt
  connect reaching requests connection loaded =
      when_checked reaching requests connection loaded (check_connection connection)
