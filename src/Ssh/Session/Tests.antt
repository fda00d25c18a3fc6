-- ===== src/Ssh/Session/Tests.antt =====
-- SSH sessions at concrete inputs. Keys are compared as texts.
use remote_desktop_tool.Prelude.{◌≡◌, ◌==◌, refl, true, false, [], ◌∷◌, none, some}
use remote_desktop_tool.Text.{same_text, split_once}
use remote_desktop_tool.Types.Errors.{ok}
use remote_desktop_tool.Types.Options.{
  AuthMethod, no_auth, password, stored, encrypted_vault, default_ssh,
}
use remote_desktop_tool.Ssh.KnownHosts.Pattern.{Library}
use remote_desktop_tool.Ssh.Handler.{accept_once}
use remote_desktop_tool.Ssh.Session.{
  SshConnection, new, interactive_shell, default_size, answered, other,
}
use remote_desktop_tool.Ssh.Session.Auth.{Server, Secrets, authenticate}
use remote_desktop_tool.Ssh.Session.Connect.{
  Reaching, presents, Requests, connect, hosts_of, variables_of,
}
use remote_desktop_tool.Ssh.Session.Pump.{
  pump, send_data, send_end, disconnect_now, data_request, close_request, disconnect_request,
}
use remote_desktop_tool.Ssh.Session.Laws.{
  Guarded, KeyLetIn, connect-Guarded, Accepted, authenticate-Accepted,
}

abbrev ascii : Library
ascii = record {
  lower_char = λ c. c;
  lower_text = λ s. s;
  base64_encode = λ s. s;
  base64_decode = λ s. some s;
  verify = λ salt. none;
  ct_eq = same_text;
  fingerprint = λ key. key;
}

-- A server that knows one password.
abbrev server : Server
server = record {
  accepts_none = λ username. answered false;
  accepts_password = λ username text. answered (same_text text (b'p' ∷ []));
  accepts_key = λ username key. answered false;
  starts_interactive = λ username. answered tt;
  next_interactive = λ username. answered tt;
}

abbrev secrets : Secrets
secrets = record {
  fetch = λ reference. ok (some (b'p' ∷ []));
  read_key = λ path. none;
  decode_key = λ text passphrase. none;
}

abbrev connection : AuthMethod → SshConnection
connection method = new (b'h' ∷ []) 22 (b'u' ∷ []) method default_ssh interactive_shell default_size

abbrev by_password : SshConnection
by_password = connection (password (stored (record { backend = encrypted_vault; key = b'k' ∷ [] })))

-- A key that is not on record, and a user who would accept it.
abbrev stranger : Reaching
stranger = presents (b'r' ∷ []) (7 ∷ []) true (some accept_once) other

abbrev requests : Requests
requests = record { open_session = none; pty = none; start = none }

connect-Guarded_example :
    Guarded
      (λ c. c == 32)
      ascii
      server
      secrets
      by_password
      (KeyLetIn (λ c. c == 32) ascii server secrets stranger by_password (hosts_of none (ok [])))
      (connect (λ c. c == 32) ascii server secrets stranger requests by_password (ok []))
connect-Guarded_example =
    connect-Guarded (λ c. c == 32) ascii server secrets stranger requests by_password (ok [])

password_succeeds : (authenticate server secrets by_password).0 ≡ ok tt
unfolding authenticate
password_succeeds = refl

authenticate-Accepted_example : Accepted server secrets by_password.auth by_password.username
authenticate-Accepted_example = authenticate-Accepted server secrets by_password password_succeeds

-- A server that refuses the method `none` is taken to have accepted it.
none_refused : (authenticate server secrets (connection no_auth)).0 ≡ ok tt
unfolding authenticate
none_refused = refl

-- An entry of the environment without `=` is passed over, and one is split at the first.
variables_split :
    variables_of ((b'A' ∷ b'=' ∷ b'b' ∷ b'=' ∷ []) ∷ (b'C' ∷ []) ∷ [])
    ≡ (b'A' ∷ [], b'b' ∷ b'=' ∷ []) ∷ []
unfolding split_once
variables_split = refl

-- Nothing is sent after the disconnect.
stops :
    pump ((send_data (1 ∷ []), true) ∷ (disconnect_now, true) ∷ (send_end, true) ∷ [])
    ≡ data_request (1 ∷ []) ∷ close_request ∷ disconnect_request ∷ []
unfolding pump
stops = refl
