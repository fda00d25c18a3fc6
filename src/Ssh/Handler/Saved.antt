-- ===== src/Ssh/Handler/Saved.antt =====
-- A key that the user saves in crates/rdt-ssh/src/handler.rs, and the next connection, whose database
-- `connect` of crates/rdt-ssh/src/session.rs loads from the file.
use remote_desktop_tool.Prelude.{ℕ, ◌≡◌, ◌≤◌, refl, ap, ◌∙◌, Bool, true, List, Option, some, All}
use remote_desktop_tool.Types.Errors.{ok}
use remote_desktop_tool.Types.Options.{HostKeyPolicy}
use remote_desktop_tool.Text.Trims.{IsWhiteSpace}
use remote_desktop_tool.Ssh.KnownHosts.Pattern.{Library}
use remote_desktop_tool.Ssh.KnownHosts.Pattern.Laws.{IsPlainHost}
use remote_desktop_tool.Ssh.KnownHosts.{trusted, check, accept}
use remote_desktop_tool.Ssh.KnownHosts.Accept.{IsNotRevoked}
use remote_desktop_tool.Ssh.KnownHosts.Line.{parse_database, to_string_lossy}
use remote_desktop_tool.Ssh.KnownHosts.Line.Laws.{IsBase64, IsWritable}
use remote_desktop_tool.Ssh.KnownHosts.Line.Database.{numbered, parse_database-to_string_lossy}
use remote_desktop_tool.Ssh.KnownHosts.Files.{
  Database, SaveFaults, read_text, load_database, save_database, remember_in_file,
}
use remote_desktop_tool.Ssh.KnownHosts.Files.Laws.{numbered-check, save_text-ok}
use remote_desktop_tool.Ssh.Handler.{
  HostKeyDecision, ClientHandler, accepted_with, check_server_key,
}

trusted-accepted :
    (lib : Library) (h : ClientHandler) (key_type key : List ℕ) (listening : Bool)
    (reply : Option HostKeyDecision)
    → check lib h.known_hosts h.host h.port key_type key ≡ trusted
    → check_server_key lib h key_type key listening reply ≡ (ok true, accepted_with lib h key)
unfolding check_server_key
trusted-accepted lib h key_type key listening reply e = rw e refl

module _ (lib : Library) (white : ℕ → Bool) (h : ClientHandler) (key_type key : List ℕ) where
  -- The database of a connection to a file with the text `text`.
  abbrev pub loaded : List ℕ → List ℕ → Database
  loaded path text = record { entries = parse_database lib white text; path = some path }

  -- What a connection to the same host makes of the same key, once the text `after` is in the file:
  -- the database loads, and the callback lets the key in, whatever the policy, without a question.
  abbrev pub LetsIn : List ℕ → Option (List ℕ) → Type 0
  LetsIn path after =
      (d : Database) × (load_database lib white path (read_text after) ≡ ok d)
      × ((policy : HostKeyPolicy) (listening : Bool) (reply : Option HostKeyDecision)
          → let next : ClientHandler = record h { known_hosts = d.entries; policy = policy } in
            check_server_key lib next key_type key listening reply
            ≡ (ok true, accepted_with lib next key))

  -- The database and the file after the user has had the key saved.
  abbrev pub remembered : List ℕ → List ℕ → SaveFaults → Database × Option (List ℕ)
  remembered path text faults =
      remember_in_file lib white faults (loaded path text) (some text) h.host h.port key_type key

  -- A key of a plain host, at a port of 16 bits, that the user saves on a connection whose file of known
  -- hosts exists and has the text `text`: if the save succeeds, the next connection loads a database with
  -- which its callback lets the same key of the host in without a question, whatever the policy. No
  -- revoked entry of the file holds the key for the host, the comparison finds the key equal to itself,
  -- the entries and the new one can be written as lines, base64 codes are read back without white space,
  -- printable ASCII characters are not white space, and blanks, line feeds and carriage returns are.
  pub remembered-LetsIn :
      (path text : List ℕ) (faults : SaveFaults)
      → IsWhiteSpace white
      → white b' ' ≡ true
      → white b'\n' ≡ true
      → white b'\r' ≡ true
      → IsBase64 white lib
      → IsPlainHost lib h.host
      → h.port ≤ 65535
      → lib.ct_eq key key ≡ true
      → All (IsNotRevoked lib h.host h.port key) (parse_database lib white text)
      → All
          (IsWritable white)
          (accept lib (parse_database lib white text) h.host h.port key_type key h.host)
      → (save_database lib white faults (remembered path text faults).0 (some text)).0 ≡ ok tt
      → LetsIn path (remembered path text faults).1
  unfolding remember_in_file save_database
  remembered-LetsIn path text faults printable blank feed return base64 plain le same clean writable
        done =
      let entries = accept lib (parse_database lib white text) h.host h.port key_type key h.host in
      let again =
        parse_database-to_string_lossy lib white printable blank feed return entries base64
          writable in
      let written = save_text-ok faults (to_string_lossy lib entries) path (some text) done in
      (
        record { entries = numbered 1 entries; path = some path },
        ap (λ after. load_database lib white path (read_text after)) written
            ∙ ap (λ es. ok (record { entries = es; path = some path })) again,
        (λ policy listening reply.
            trusted-accepted lib (record h { known_hosts = numbered 1 entries; policy = policy })
              key_type key listening reply
              (numbered-check lib h.host h.port key_type key (parse_database lib white text) h.host
                1 plain le same clean)),
      )
