-- ===== src/Ssh/Handler/Tests.antt =====
-- The decision on a key at concrete inputs, and a key that is saved, with the library of the tests of
-- lines: keys are compared as texts, and no salt verifies.
use remote_desktop_tool.Prelude.{ℕ, ◌≡◌, refl, arith, true, false, List, [], ◌∷◌, none, some}
use remote_desktop_tool.Text.{lines, split_all, words}
use remote_desktop_tool.Types.Errors.{ErrorCode, ok, err}
use remote_desktop_tool.Ssh.KnownHosts.Pattern.{recorded_host}
use remote_desktop_tool.Ssh.KnownHosts.Pattern.Laws.{IsPlainHost}
use remote_desktop_tool.Ssh.KnownHosts.{check_from, check, without_stale, accepted, accept}
use remote_desktop_tool.Ssh.KnownHosts.Verdict.{verdict}
use remote_desktop_tool.Types.Options.{HostKeyPolicy, strict, accept_new}
use remote_desktop_tool.Ssh.Handler.{
  accept_once, accept_and_save, reject, ClientHandler, verify_host_key, check_server_key,
}
use remote_desktop_tool.Ssh.Handler.Laws.{Decided, check_server_key-Decided}
use remote_desktop_tool.Ssh.Handler.Saved.{LetsIn, remembered, remembered-LetsIn}
use remote_desktop_tool.Config.Store.Files.{missing}
use remote_desktop_tool.Ssh.KnownHosts.Files.{
  Database, SaveFaults, read_text, load_database, save_database, remember_in_file,
}
use remote_desktop_tool.Ssh.KnownHosts.Line.Laws.{IsWritable}
use remote_desktop_tool.Ssh.KnownHosts.Line.{parse_lines, parse_database}
use remote_desktop_tool.Ssh.KnownHosts.Line.Tests.{is_white, shifting, shifting-IsBase64}

-- "box", with nothing on record.
abbrev handler : HostKeyPolicy → ClientHandler
handler policy = record {
  known_hosts = [];
  host = b'b' ∷ b'o' ∷ b'x' ∷ [];
  port = 2222;
  policy = policy;
  prompts = [];
  accepted_fingerprint = none;
}

abbrev key_type : List ℕ
key_type = b'r' ∷ []

abbrev key : List ℕ
key = 7 ∷ []

-- The policy strict refuses an unknown key without asking.
strict_refuses :
    check_server_key shifting (handler strict) key_type key true (some accept_and_save)
    ≡ (err ErrorCode.host_key_unknown, handler strict)
unfolding check_server_key check check_from
strict_refuses = refl

-- The policy accept-new asks for an unknown key, though the check without the callback lets it in.
accept_new_asks :
    (check_server_key shifting (handler accept_new) key_type key true (some reject)).0
    ≡ err ErrorCode.host_key_unknown
unfolding check_server_key check check_from
accept_new_asks = refl

accept_new_verifies : verify_host_key shifting (handler accept_new) key_type key ≡ ok true
unfolding verify_host_key check check_from
accept_new_verifies = refl

check_server_key-Decided_example :
    Decided shifting
      (handler accept_new)
      key_type
      key
      (verdict shifting (b'b' ∷ b'o' ∷ b'x' ∷ []) 2222 key_type key [])
      accept_new
      true
      (some accept_once)
      (check_server_key shifting (handler accept_new) key_type key true (some accept_once))
check_server_key-Decided_example =
    check_server_key-Decided shifting (handler accept_new) key_type key true (some accept_once)

box-IsPlainHost : IsPlainHost shifting (b'b' ∷ b'o' ∷ b'x' ∷ [])
box-IsPlainHost = record {
  lower = (refl, (refl, (refl, tt)));
  starless = (ground arith, (ground arith, (ground arith, tt)));
  no_star = ((λ e. omega (arith, e)), ((λ e. omega (arith, e)), ((λ e. omega (arith, e)), tt)));
  no_bang = ((λ e. omega (arith, e)), ((λ e. omega (arith, e)), ((λ e. omega (arith, e)), tt)));
  no_bar = ((λ e. omega (arith, e)), ((λ e. omega (arith, e)), ((λ e. omega (arith, e)), tt)));
  no_open = ((λ e. omega (arith, e)), ((λ e. omega (arith, e)), ((λ e. omega (arith, e)), tt)));
  no_close = ((λ e. omega (arith, e)), ((λ e. omega (arith, e)), ((λ e. omega (arith, e)), tt)));
  no_colon = ((λ e. omega (arith, e)), ((λ e. omega (arith, e)), ((λ e. omega (arith, e)), tt)));
}

-- "box" at its default port.
abbrev at_22 : ClientHandler
at_22 = record (handler accept_new) { port = 22 }

abbrev no_save_faults : SaveFaults
no_save_faults = record { create_dir = false; open_file = false; write = none; restrict = false }

accepted-IsWritable :
    IsWritable is_white (accepted shifting at_22.host at_22.port key_type key at_22.host)
unfolding recorded_host
accepted-IsWritable = record {
  some_pattern = refl;
  no_comma =
      (((λ e. omega (arith, e)), ((λ e. omega (arith, e)), ((λ e. omega (arith, e)), tt))), tt);
  solid_patterns = ((refl, (refl, (refl, tt))), tt);
  unmarked = λ e. (refl, refl);
  some_type = refl;
  solid_type = (refl, tt);
  some_key = refl;
  spaced = unfold words in refl;
}

-- The file exists and is empty.
remembered-LetsIn_example :
    LetsIn shifting is_white at_22 key_type key
      (b'f' ∷ [])
      (remembered shifting is_white at_22 key_type key (b'f' ∷ []) [] no_save_faults).1
unfolding remember_in_file save_database accept without_stale recorded_host parse_database
    parse_lines lines split_all words
remembered-LetsIn_example =
    remembered-LetsIn shifting is_white at_22 key_type key (b'f' ∷ []) [] no_save_faults
      (λ c low high. ground arith) refl refl refl shifting-IsBase64 box-IsPlainHost (omega arith)
      refl tt (accepted-IsWritable, tt) refl

-- A missing file: the key is not saved, so the next connection starts from an empty database again.
missing_unsaved :
    let d : Database = record { entries = []; path = none } in
    let (kept, file) =
      remember_in_file shifting is_white no_save_faults d none (b'b' ∷ []) 22 key_type key in
    (load_database shifting is_white (b'f' ∷ []) missing ≡ ok d)
    × (load_database shifting is_white (b'f' ∷ []) (read_text file) ≡ ok d)
unfolding remember_in_file save_database
missing_unsaved = (refl, refl)
