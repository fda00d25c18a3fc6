-- ===== src/Ssh/Session/Laws.antt =====
-- What an attempt to connect sends, and what it has shown when it succeeds.
use remote_desktop_tool.Prelude.{
  ℕ, ◌≡◌, ◌≢◌, refl, sym, ap, ◌⊎◌, inl, inr, arith, Bool, true, false, List, [],
}
use remote_desktop_tool.Types.Errors.{ErrorCode, RdtResult, ok, err, and_then}
use remote_desktop_tool.Types.Options.{
  CredentialSource, PrivateKeyAuth, AuthMethod, no_auth, password, keyboard_interactive,
  private_key, agent,
}
use remote_desktop_tool.Ssh.KnownHosts.Pattern.{Library}
use remote_desktop_tool.Ssh.KnownHosts.Entry.{KnownHostEntry}
use remote_desktop_tool.Ssh.Handler.{ClientHandler, check_server_key}
use remote_desktop_tool.Ssh.Session.{
  SshConnection, SshError, Answer, answered, failed, classify, classified,
}
use remote_desktop_tool.Ssh.Session.Auth.{
  Sent, Server, Secrets, resolve_secret, load_private_key, if_accepted, if_answered, with_password,
  with_key, authenticate_by, authenticate,
}
use remote_desktop_tool.Ssh.Session.Connect.{
  Reaching, timed_out, refused, presents, Requests, Connected, hosts_of, new_handler, Attempt,
  check_connection, authenticated, key_checked, reach, with_hosts, when_checked, connect,
}

module _ (white : ℕ → Bool) (lib : Library) (server : Server) (secrets : Secrets) where
  -- The server presented a key that the callback let in.
  abbrev pub LetIn : Reaching → ClientHandler → Type 0
  LetIn timed_out handler = ⊥
  LetIn (refused error) handler = ⊥
  LetIn (presents key_type key listening reply error) handler =
      (check_server_key lib handler key_type key listening reply).0 ≡ ok true

  -- How an attempt ended: without sending anything, and with an error; or after the key was let in, with
  -- what the authentication sent, and a session only where it succeeded.
  abbrev pub Guarded : SshConnection → Type 0 → Attempt → Type 0
  Guarded connection let_in attempt =
      ((attempt.1 ≡ []) × ((c : Connected) → attempt.0 ≢ ok c))
      ⊎ (let_in
          × (attempt.1 ≡ (authenticate server secrets connection).1)
          × ((c : Connected)
              → attempt.0 ≡ ok c
              → (authenticate server secrets connection).0 ≡ ok tt))

  err-ok : (code : ErrorCode) (c : Connected) → err code ≢ ok c
  err-ok code c h = absurd (ground arith)

  authenticated-Guarded :
      (requests : Requests) (connection : SshConnection) (handler : ClientHandler) (let_in : Type 0)
      (done : RdtResult {0} Unit × List Sent)
      → let_in
      → authenticate server secrets connection ≡ done
      → Guarded connection let_in
          (authenticated white lib server secrets requests connection handler done)
  authenticated-Guarded requests connection handler let_in (err code, sent) h e =
      inr (h, sym (ap (λ d. d.1) e), λ c never. absurd (err-ok code c never))
  authenticated-Guarded requests connection handler let_in (ok tt, sent) h e =
      inr (h, sym (ap (λ d. d.1) e), λ c opened. ap (λ d. d.0) e)

  key_checked-Guarded :
      (requests : Requests) (connection : SshConnection) (error : SshError)
      (checked : RdtResult Bool × ClientHandler)
      → Guarded connection
          (checked.0 ≡ ok true)
          (key_checked white lib server secrets requests connection error checked)
  key_checked-Guarded requests connection error (ok true, handler) =
      authenticated-Guarded requests connection handler (ok true ≡ ok true)
        (authenticate server secrets connection) refl refl
  key_checked-Guarded requests connection error (ok false, handler) =
      inl (refl, err-ok (classify error))
  key_checked-Guarded requests connection error (err code, handler) =
      inl (refl, err-ok (classify error))

  reach-Guarded :
      (reaching : Reaching) (requests : Requests) (connection : SshConnection)
      (handler : ClientHandler)
      → Guarded connection
          (LetIn reaching handler)
          (reach white lib server secrets reaching requests connection handler)
  reach-Guarded timed_out requests connection handler = inl (refl, err-ok ErrorCode.timeout)
  reach-Guarded (refused error) requests connection handler = inl (refl, err-ok (classify error))
  reach-Guarded (presents key_type key listening reply error) requests connection handler =
      key_checked-Guarded requests connection error
        (check_server_key lib handler key_type key listening reply)

  -- The known hosts were loaded, and the key that the server presented was let in against them.
  abbrev pub KeyLetIn : Reaching → SshConnection → RdtResult (List KnownHostEntry) → Type 0
  KeyLetIn reaching connection (err code) = ⊥
  KeyLetIn reaching connection (ok hosts) = LetIn reaching (new_handler connection hosts)

  with_hosts-Guarded :
      (reaching : Reaching) (requests : Requests) (connection : SshConnection)
      (hosts : RdtResult (List KnownHostEntry))
      → Guarded connection
          (KeyLetIn reaching connection hosts)
          (with_hosts white lib server secrets reaching requests connection hosts)
  with_hosts-Guarded reaching requests connection (err code) = inl (refl, err-ok code)
  with_hosts-Guarded reaching requests connection (ok hosts) =
      reach-Guarded reaching requests connection (new_handler connection hosts)

  when_checked-Guarded :
      (reaching : Reaching) (requests : Requests) (connection : SshConnection)
      (loaded : RdtResult (List KnownHostEntry)) (checked : RdtResult {0} Unit)
      → Guarded connection
          (KeyLetIn reaching connection (hosts_of connection.known_hosts_path loaded))
          (when_checked white lib server secrets reaching requests connection loaded checked)
  when_checked-Guarded reaching requests connection loaded (err code) = inl (refl, err-ok code)
  when_checked-Guarded reaching requests connection loaded (ok u) =
      with_hosts-Guarded reaching requests connection (hosts_of connection.known_hosts_path loaded)

  -- No credential leaves the program before the server's key is let in: either an attempt sends nothing to
  -- authenticate and fails, or the known hosts were loaded, the callback let in the key that the server
  -- presented, what was sent is what the authentication sends, and there is a session only where the
  -- authentication succeeded.
  pub connect-Guarded :
      (reaching : Reaching) (requests : Requests) (connection : SshConnection)
      (loaded : RdtResult (List KnownHostEntry))
      → Guarded connection
          (KeyLetIn reaching connection (hosts_of connection.known_hosts_path loaded))
          (connect white lib server secrets reaching requests connection loaded)
  unfolding connect
  connect-Guarded reaching requests connection loaded =
      when_checked-Guarded reaching requests connection loaded
        (check_connection white lib server secrets connection)

module _ (server : Server) (secrets : Secrets) where
  -- What the server has said where the authentication succeeds.
  abbrev pub Accepted : AuthMethod → List ℕ → Type 0
  Accepted no_auth username = (b : Bool) × (server.accepts_none username ≡ answered b)
  Accepted (password source) username =
      (text : List ℕ) × (resolve_secret server secrets source ≡ ok text)
      × (server.accepts_password username text ≡ answered true)
  Accepted (private_key key) username =
      (text : List ℕ) × (load_private_key server secrets key ≡ ok text)
      × (server.accepts_key username text ≡ answered true)
  Accepted (agent path) username = ⊥
  Accepted (keyboard_interactive source) username =
      (server.starts_interactive username ≡ answered tt)
      × (server.next_interactive username ≡ answered tt)

  if_accepted-true :
      (a b : Answer Bool)
      → a ≡ b
      → if_accepted server secrets (classified b) ≡ ok tt
      → a ≡ answered true
  if_accepted-true a (answered true) e h = e
  if_accepted-true a (answered false) e h = absurd (ground arith)
  if_accepted-true a (failed error) e h = absurd (ground arith)

  with_password-Accepted :
      (source : CredentialSource) (username : List ℕ) (found : RdtResult (List ℕ))
      → resolve_secret server secrets source ≡ found
      → (with_password server secrets username found).0 ≡ ok tt
      → Accepted (password source) username
  with_password-Accepted source username (err code) e h = absurd (ground arith)
  with_password-Accepted source username (ok text) e h = (
    text,
    e,
    if_accepted-true (server.accepts_password username text) (server.accepts_password username text)
        refl h,
  )

  with_key-Accepted :
      (key : PrivateKeyAuth) (username : List ℕ) (found : RdtResult (List ℕ))
      → load_private_key server secrets key ≡ found
      → (with_key server secrets username found).0 ≡ ok tt
      → Accepted (private_key key) username
  with_key-Accepted key username (err code) e h = absurd (ground arith)
  with_key-Accepted key username (ok text) e h = (
    text,
    e,
    if_accepted-true (server.accepts_key username text) (server.accepts_key username text) refl h,
  )

  no_auth-Accepted :
      (username : List ℕ) (a : Answer Bool)
      → server.accepts_none username ≡ a
      → if_answered server secrets (classified a) ≡ ok tt
      → Accepted no_auth username
  no_auth-Accepted username (answered b) e h = (b, e)
  no_auth-Accepted username (failed error) e h = absurd (ground arith)

  interactive-Accepted :
      (source : CredentialSource) (username : List ℕ) (a b : Answer Unit)
      → server.starts_interactive username ≡ a
      → server.next_interactive username ≡ b
      → and_then (classified a) (λ u. if_answered server secrets (classified b)) ≡ ok tt
      → Accepted (keyboard_interactive source) username
  interactive-Accepted source username (answered u) (answered w) e f h = (e, f)
  interactive-Accepted source username (answered u) (failed error) e f h = absurd (ground arith)
  interactive-Accepted source username (failed error) b e f h = absurd (ground arith)

  -- Where the authentication succeeds, the server has accepted the password or the key that the provider
  -- gave; it never succeeds with an agent. For the method `none` the server has only answered, yes or no, and
  -- for the keyboard-interactive one it has only answered the start and one step.
  pub authenticate-Accepted :
      (connection : SshConnection)
      → (authenticate server secrets connection).0 ≡ ok tt
      → Accepted connection.auth connection.username
  unfolding authenticate
  authenticate-Accepted connection h = by_method connection.auth h
    where
      by_method :
          (method : AuthMethod)
          → (authenticate_by server secrets method connection.username).0 ≡ ok tt
          → Accepted method connection.username
      by_method no_auth e =
          no_auth-Accepted connection.username (server.accepts_none connection.username) refl e
      by_method (password source) e =
          with_password-Accepted source connection.username (resolve_secret server secrets source)
            refl e
      by_method (private_key key) e =
          with_key-Accepted key connection.username (load_private_key server secrets key) refl e
      by_method (agent path) e = absurd (ground arith)
      by_method (keyboard_interactive source) e =
          interactive-Accepted source connection.username
            (server.starts_interactive connection.username)
            (server.next_interactive connection.username) refl refl e
