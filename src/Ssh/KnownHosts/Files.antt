-- ===== src/Ssh/KnownHosts/Files.antt =====
-- Reading and writing the file of the database: `KnownHosts::load` and `save` of
-- crates/rdt-ssh/src/known_hosts.rs, and `remember_host_key` of crates/rdt-ssh/src/handler.rs on the file.
pub mod Laws
use remote_desktop_tool.Prelude.{ℕ, Bool, List, [], Option, none, some, if◌then◌else◌, take}
use remote_desktop_tool.Types.Errors.{ErrorCode, RdtResult, ok, err}
use remote_desktop_tool.Config.Store.Files.{Reading, contents, missing, unreadable}
use remote_desktop_tool.Ssh.KnownHosts.Pattern.{Library}
use remote_desktop_tool.Ssh.KnownHosts.Entry.{KnownHostEntry}
use remote_desktop_tool.Ssh.KnownHosts.{accept}
use remote_desktop_tool.Ssh.KnownHosts.Line.{parse_database, to_string_lossy}

-- `KnownHosts` with the path of its file.
pub record Database : Type 0 where
  pub entries : List KnownHostEntry
  pub path : Option (List ℕ)

-- Which calls of the operating system fail in `save`, and how much of the text is written before
-- `std::fs::write` fails, which has emptied the file by then.
pub record SaveFaults : Type 0 where
  pub create_dir : Bool
  pub open_file : Bool
  pub write : Option ℕ
  pub restrict : Bool

-- The end of `save`; the file is its text, `none` one that does not exist.
abbrev pub write_whole : SaveFaults → Option ℕ → List ℕ → RdtResult {0} Unit × Option (List ℕ)
write_whole faults (some n) text = (err ErrorCode.io, some (take n text))
write_whole faults none text =
    if faults.restrict then (err ErrorCode.permission, some text) else (ok tt, some text)

-- `save` once the path is known.
abbrev pub save_text :
    SaveFaults → List ℕ → Option (List ℕ) → Option (List ℕ) → RdtResult {0} Unit × Option (List ℕ)
save_text faults text none file = (err ErrorCode.config, file)
save_text faults text (some path) file =
    if faults.create_dir
    then (err ErrorCode.io, file)
    else if faults.open_file
    then (err ErrorCode.io, file)
    else write_whole faults faults.write text

-- What `read_to_string` gives for a file of valid UTF-8.
abbrev pub read_text : Option (List ℕ) → Reading
read_text none = missing
read_text (some text) = contents text

module _ (lib : Library) (white : ℕ → Bool) where
  -- `load`; the reading of the file is given. A missing file gives a database without a path.
  abbrev pub load_database : List ℕ → Reading → RdtResult Database
  load_database path (contents text) =
      ok (record { entries = parse_database lib white text; path = some path })
  load_database path missing = ok (record { entries = []; path = none })
  load_database path unreadable = err ErrorCode.io

  unfoldable pub save_database :
      SaveFaults → Database → Option (List ℕ) → RdtResult {0} Unit × Option (List ℕ)
  save_database faults d file = save_text faults (to_string_lossy lib d.entries) d.path file

  -- `remember_host_key` on the database and its file: that the save fails is only logged.
  unfoldable pub remember_in_file :
      SaveFaults
      → Database
      → Option (List ℕ)
      → List ℕ
      → ℕ
      → List ℕ
      → List ℕ
      → Database × Option (List ℕ)
  remember_in_file faults d file host port key_type key =
      let kept : Database = record d {
        entries = accept lib d.entries host port key_type key host;
      } in
      (kept, (save_database faults kept file).1)
