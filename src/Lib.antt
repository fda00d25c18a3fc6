-- ===== src/Lib.antt =====
-- Verification of the remote desktop tool: the terminal emulator of crates/rdt-terminal, through
-- which every byte of a remote shell goes, the session manager of crates/rdt-session, the database of
-- host keys of crates/rdt-ssh, the certificates, the session and the picture of crates/rdt-rdp, the saved
-- profiles of crates/rdt-config, the vault of crates/rdt-secrets, the log buffer of crates/rdt-logging, and
-- the endpoints, options, identifiers, timestamps and error codes of crates/rdt-types.
--
-- The program's parts. A session to an endpoint first asks the database of host keys for a verdict on
-- the server's key (crates/rdt-ssh/src/known_hosts.rs), and the callback of the transport decides by it,
-- the policy and the user's answer (crates/rdt-ssh/src/handler.rs); only then is the user authenticated
-- (crates/rdt-ssh/src/session.rs). A shell session then reads bytes from the remote
-- side and hands them to `Terminal::advance`. The parser (crates/rdt-terminal/src/parser.rs) turns them
-- into actions, the screen (crates/rdt-terminal/src/term.rs) applies these to its rows, its cursor and
-- its modes, and rows that leave the screen retire to the scrollback
-- (crates/rdt-terminal/src/grid.rs). Keys and pasted text go the other way as bytes
-- (crates/rdt-terminal/src/input.rs), under the modes of the screen. A desktop session checks the
-- server's certificate (crates/rdt-rdp/src/tls.rs), and then its task takes commands and packets in turn
-- (crates/rdt-rdp/src/session.rs) and paints bitmaps into a framebuffer that remembers what changed
-- (crates/rdt-rdp/src/framebuffer.rs). The profiles of the hosts and the settings are kept by a store
-- with a file (crates/rdt-config/src), and passwords in the operating system's keystore or an encrypted
-- vault (crates/rdt-secrets/src). The session
-- manager (crates/rdt-session/src/lib.rs) owns the sessions, bounds how many run at once, and reports
-- every change of state; the delays between reconnections come from `ReconnectPolicy` of
-- crates/rdt-types/src/proto.rs. Log lines are kept in a bounded buffer
-- (crates/rdt-logging/src/buffer.rs).
--
-- The files.
--   Prelude: shared names; Prelude/Tests: Boolean tests; Prelude/Lists: lists over the native
--     numbers; Prelude/Vectors: Rust's `Vec`, where `none` is the panic of an index out of range.
--   Text: what the program uses of the standard library's strings. Text/Numbers, Splits, Trims: lemmas.
--   Types/Errors: the codes of crates/rdt-types/src/error.rs, and `Protocol`. Types/Endpoint: `Endpoint`
--     of crates/rdt-types/src/proto.rs. Types/Options: the policies, credentials and options of that
--     file. Types/Ids: crates/rdt-types/src/ids.rs.
--     Types/Redact: crates/rdt-types/src/redact.rs. Proofs: Endpoint/Laws, Ids/Laws, Redact/Ends,
--     Same, Pieces and Hidden.
--   Calendar, Calendar/Format: crates/rdt-types/src/timeutil.rs. Proofs: Laws.
--   Logging/Buffer: crates/rdt-logging/src/buffer.rs. Proofs: Laws.
--   Terminal/Grid, Terminal/Grid/Scrollback: crates/rdt-terminal/src/grid.rs.
--   Terminal/Parser/Types, Utf8, Control, Strings: the state, `ground` and `utf8`, the escape and
--     control sequence states, and the string states of crates/rdt-terminal/src/parser.rs, one
--     function per method. Terminal/Parser: `step` and `advance`. Proofs: Chunks, Params, Resync,
--     WellFormed.
--   Terminal/Screen/Types, Scroll, Write, Erase, Attributes, Control: the methods of `Terminal` in
--     crates/rdt-terminal/src/term.rs by what they do. Terminal/Screen: `apply`, `advance`,
--     `snapshot`, `resize`, `clear_all`, `reset_parser`. Proofs: Valid and its children (no panic),
--     Chunks, Content, Styles, History.
--   Terminal/Input: crates/rdt-terminal/src/input.rs. Proofs: Decoding, Characters, Laws, Keys.
--   Session/Types, Session/Manager: the state and the operations of crates/rdt-session/src/lib.rs,
--     with the audit kinds of crates/rdt-logging/src/audit.rs. Proofs: Laws, Limit.
--   Session/Reconnect: `ReconnectPolicy`. Proofs: Bounds.
--   Ssh/KnownHosts/Wildcard, Pattern, Entry: `wildcard_match`, `pattern_matches` with what it calls, and
--     `KnownHostEntry::matches` of crates/rdt-ssh/src/known_hosts.rs. Ssh/KnownHosts: `check`, `accept`
--     and `forget`. Ssh/KnownHosts/Line: reading and writing of the file's lines, and of its text.
--     Ssh/KnownHosts/Files: `load`, `save` and `remember_host_key` on the file. Proofs: Files/Laws,
--     Line/Laws and Database, Wildcard/Meaning, Decides and Ends, Pattern/Laws, Entry/Laws, Verdict,
--     Accept.
--   Ssh/Handler: `check_server_key` of crates/rdt-ssh/src/handler.rs, with `HostKeyPolicy` of
--     crates/rdt-types/src/proto.rs. Proofs: Laws, Saved (the next connection).
--   Ssh/Session, Ssh/Session/Auth, Connect, Pump: the connection description, `authenticate`, `connect` and
--     `pump` of crates/rdt-ssh/src/session.rs. Proofs: Laws.
--   Rdp/Framebuffer/Rect: `DamageRect`; Rdp/Framebuffer/Bytes: slices of byte vectors; Rdp/Framebuffer:
--     `Framebuffer` of crates/rdt-rdp/src/framebuffer.rs. Proofs: Rect/Laws, Bytes/Laws, Valid, Runs,
--     Blit.
--   Rdp/Certificates: crates/rdt-rdp/src/tls.rs, with `tls::connect` of crates/rdt-rdp/src/session.rs.
--     Proofs: Laws, Trust.
--   Rdp/Session, Rdp/Session/Input, Handle, Connect: the task, the encoding of input, the handle and
--     `connect` of crates/rdt-rdp/src/session.rs. Proofs: Laws, Attempt.
--   Rdp/Clipboard: crates/rdt-rdp/src/clipboard.rs on Unix. Proofs: Laws.
--   Config/Settings, Profile, Migrate, Store and Store/Files: settings.rs, profile.rs, migrate.rs and
--     store.rs of crates/rdt-config/src. Proofs: Store/Names, Store/Laws, Store/Files/Laws,
--     Store/Runs (runs of calls, saves, reloads and other programs).
--   Secrets/Entries, Secrets/Vault: crates/rdt-secrets/src/vault.rs. Secrets/Store: its `VaultHandle`, and
--     `SecretStore` of crates/rdt-secrets/src/lib.rs. Proofs: Vault/Format, Laws and Passphrase, Store/Laws.
--   Each Tests file runs the definitions and the theorems at concrete inputs.
--
-- How the code is modelled. A method on `&mut self` takes the state and returns the next one; where
-- it can panic it returns an `Option`. A character is its code point, a string its characters or its
-- bytes, an action list the vector that the method pushes to. The collections are lists; the map of
-- sessions is an association list in which a new entry replaces that of the same id, and what the
-- manager sends out (broadcasts, audit records, used cancellation tokens) is logged in its state.
-- `usize` does not overflow in the terminal, whose numbers are bounded by its size and by 65535;
-- saturating and `u16` arithmetic is written out, and the sum of a delay wraps at 2^64. The sizes and
-- offsets of a picture are `u32` and wrap at 2^32, and a slice out of range is `none`. An index into a
-- pattern is the rest of the pattern from there on.
--
-- The array of the UTF-8 decoder is a list, and an index past its end is a panic of the parser.
-- `cfg(unix)` is an argument of the saves of the configuration.
--
-- A file is what reading it gives, and each call of the operating system can fail by a record `Faults` that
-- the operation takes; a file that is written by way of a temporary one is replaced at the rename. The
-- session task is a loop over turns: each turn carries the command or the packet that the task takes and
-- what ironrdp answers, so a theorem about all lists of turns is one about all interleavings of the two
-- sources. Random salts, nonces and identifiers are arguments.
--
-- What other crates and the standard library's tables provide is a parameter: the record `Library` of
-- Ssh/KnownHosts/Pattern has the case conversions, base64, HMAC, the constant-time comparison and the
-- fingerprint, and `white` of Text, Types/Endpoint, Logging/Buffer and Config is `char::is_whitespace`. The records
-- `Library` of Rdp/Certificates and of Secrets/Vault have SHA-256, Argon2, the cipher, JSON, base64 and
-- UTF-8, `Toml` of Config/Migrate the crate toml, and `Keystore` of Secrets/Store the operating system's
-- keystore, `Server` and `Secrets` of Ssh/Session/Auth the server's answers and the provider of
-- secrets; where a theorem needs that something encoded can be decoded, it says so.
--
-- Fuel. The loop of `sgr` runs on as many rounds as there are parameters, and each round takes at
-- least one (Terminal/Screen/Styles); trimming the scrollback runs on as many rounds as there are
-- lines, and each takes one (Terminal/Grid/Scrollback/Laws). The loop of `wildcard_match` runs on
-- (length of the text + 1) * (length of the pattern + 1) rounds, since each round moves on in the
-- pattern or tries the star at a later character (Ssh/KnownHosts/Wildcard/Ends). The
-- scan for sensitive pairs runs on as many rounds as there are characters (Types/Redact/Ends), and so
-- does `str::replace`. A number is printed
-- in at most twenty digits, which are enough for 64 bits (Text/Numbers). All other loops are structural.
--
-- Not modelled: the texts of errors; the order of `SessionManager::list`, which depends on the clock;
-- `next_retry_delay` and `subscribe`; `KeyModifier::xterm_parameter`, which nothing calls; the channels
-- of tokio, of which `send` takes the receiver's presence as a parameter; random identifiers and the clock; the sort orders of profiles; export of a vault;
-- the parts of the RDP configuration that ironrdp alone reads, and the names announced to the server; the
-- remaining files and crates (the SSH agent, the keystore, log files, the platform,
-- the agent service, the command line and the user interface).
pub mod Prelude
pub mod Text
pub mod Types
pub mod Calendar
pub mod Logging
pub mod Config
pub mod Terminal
pub mod Session
pub mod Ssh
pub mod Rdp
pub mod Secrets
