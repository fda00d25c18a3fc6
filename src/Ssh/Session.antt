-- ===== src/Ssh/Session.antt =====
-- Connecting and authenticating in crates/rdt-ssh/src/session.rs, and the commands of a session. What russh
-- and the server answer is in `Server`; the messages of errors are left out.
pub mod Auth
pub mod Connect
pub mod Pump
pub mod Laws
mod Tests
use remote_desktop_tool.Prelude.{ℕ, Bool, List, [], Option, none, some, max}
use remote_desktop_tool.Types.Errors.{ErrorCode, RdtResult, ok, err}
use remote_desktop_tool.Types.Options.{HostKeyPolicy, AuthMethod, SshOptions}

pub record TerminalSize : Type 0 where
  pub cols : ℕ
  pub rows : ℕ

abbrev pub default_size : TerminalSize
default_size = record { cols = 80; rows = 24 }

pub data SshCommand : Type 0 where
  interactive_shell : SshCommand
  run_command : List ℕ → SshCommand

-- Durations are in seconds.
pub record SshConnection : Type 0 where
  pub host : List ℕ
  pub port : ℕ
  pub username : List ℕ
  pub host_key_policy : HostKeyPolicy
  pub known_hosts_path : Option (List ℕ)
  pub auth : AuthMethod
  pub command : SshCommand
  pub size : TerminalSize
  pub term : List ℕ
  pub keepalive_secs : ℕ
  pub connect_timeout : ℕ
  pub compression : Bool
  pub environment : List (List ℕ)
  pub agent_socket : Option (List ℕ)

abbrev pub new :
    List ℕ → ℕ → List ℕ → AuthMethod → SshOptions → SshCommand → TerminalSize → SshConnection
new host port username auth options command size = record {
  host = host;
  port = port;
  username = username;
  host_key_policy = options.host_key_policy;
  known_hosts_path = options.known_hosts;
  auth = auth;
  command = command;
  size = size;
  term = options.terminal.term;
  keepalive_secs = options.keepalive_secs;
  connect_timeout = max options.connect_timeout_secs 1;
  compression = options.compression;
  environment = options.environment;
  agent_socket = none;
}

-- The errors of russh that the code tells apart.
pub data SshError : Type 0 where
  disconnect timeout inconsistent kex_init negotiation too_many_auth_attempts : SshError
  io socket_disconnect address_family_not_supported key_decryption key other : SshError

abbrev pub classify : SshError → ErrorCode
classify disconnect = ErrorCode.network
classify timeout = ErrorCode.timeout
classify inconsistent = ErrorCode.protocol
classify kex_init = ErrorCode.protocol
classify negotiation = ErrorCode.protocol
classify too_many_auth_attempts = ErrorCode.authentication
classify io = ErrorCode.network
classify socket_disconnect = ErrorCode.network
classify address_family_not_supported = ErrorCode.network
classify key_decryption = ErrorCode.crypto
classify key = ErrorCode.crypto
classify other = ErrorCode.protocol

-- An answer of russh.
pub data Answer (A : Type 0) : Type 0 where
  answered : A → Answer A
  failed : SshError → Answer A

-- `map_err` with `classify`.
abbrev pub classified : {A : Type 0} → Answer A → RdtResult A
classified (answered a) = ok a
classified (failed error) = err (classify error)
