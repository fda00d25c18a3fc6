-- ===== src/Config/Store/Files.antt =====
-- Reading and writing the file of a store, crates/rdt-config/src/store.rs. A path with the extension
-- `tmp`, whose temporary file would be the file itself, is left out.
pub mod Laws
use remote_desktop_tool.Prelude.{
  ℕ, Bool, true, false, List, [], Option, none, some, if◌then◌else◌, take,
}
use remote_desktop_tool.Text.{is_nil}
use remote_desktop_tool.Types.Errors.{ErrorCode, RdtResult, ok, err}
use remote_desktop_tool.Config.Migrate.{Toml, or_config_error, migrate}
use remote_desktop_tool.Config.Store.{Config, default_config, ConfigStore}

pub record File : Type 0 where
  pub text : List ℕ
  pub owner_only : Bool

-- The file of the store and its `<path>.tmp`.
pub record Disk : Type 0 where
  pub target : Option File
  pub temporary : Option File

-- Which calls of the operating system fail, and how much of the text is written before the write fails.
-- A crash after a call leaves the disk as a failure of the next one does.
pub record Faults : Type 0 where
  pub create_dir : Bool
  pub create : Bool
  pub restrict : Bool
  pub write : Option ℕ
  pub sync : Bool
  pub rename : Bool

abbrev pub no_faults : Faults
no_faults = record {
  create_dir = false;
  create = false;
  restrict = false;
  write = none;
  sync = false;
  rename = false;
}

-- What reading the file gives.
pub data Reading : Type 0 where
  contents : List ℕ → Reading
  missing unreadable : Reading

abbrev pub read_file : Option File → Reading
read_file none = missing
read_file (some f) = contents f.text

-- `File::create`: a file that exists is emptied and keeps its permissions.
abbrev pub created : Option File → File
created none = record { text = []; owner_only = false }
created (some f) = record { text = []; owner_only = f.owner_only }

-- `restrict_to_owner` of crates/rdt-platform/src/platform_impl.rs, when it succeeds. `unix` is
-- `cfg(unix)`: elsewhere it does nothing.
abbrev pub restrict_to_owner : Bool → File → File
restrict_to_owner true f = record f { owner_only = true }
restrict_to_owner false f = f

-- The text that is in the temporary file after the write.
abbrev pub written : Option ℕ → List ℕ → List ℕ
written none text = text
written (some n) text = take n text

abbrev pub write_failed : Option ℕ → Bool
write_failed none = false
write_failed (some n) = true

-- A call of the operating system with `?`: its failure returns, with the disk as it is then.
abbrev pub attempt : Bool → ErrorCode → Disk → RdtResult {0} Unit × Disk → RdtResult {0} Unit × Disk
attempt failed code d rest = if failed then (err code, d) else rest

unfoldable pub atomic_write : Bool → Faults → Disk → List ℕ → RdtResult {0} Unit × Disk
atomic_write unix faults d text =
    let made = created d.temporary in
    let created_only : Disk = record d { temporary = some made } in
    let restricted = restrict_to_owner unix made in
    let full : File = record restricted { text = written faults.write text } in
    let filled : Disk = record d { temporary = some full } in
    let moved : Disk = record { target = some full; temporary = none } in
    attempt faults.create_dir ErrorCode.io d (
      attempt faults.create ErrorCode.io d (
        attempt faults.restrict ErrorCode.permission created_only (
          attempt (write_failed faults.write) ErrorCode.io filled (
            attempt faults.sync ErrorCode.io filled
              (attempt faults.rename ErrorCode.io filled (ok tt, moved))))))

-- `toml` holds what the crate toml does for the migration; `encode` and `decode` are its text of a
-- document and the document of a text.
module _ (toml : Toml) (encode : Config → Option (List ℕ)) (decode : List ℕ → Option Config) where
  -- `load` of a text that is read, once it is migrated.
  abbrev pub load_parsed : List ℕ → Option Config → RdtResult ConfigStore
  load_parsed path none = err ErrorCode.config
  load_parsed path (some config) = ok (record { path = path; inner = config; dirty = false })

  abbrev pub load_migrated : List ℕ → RdtResult (List ℕ) → RdtResult ConfigStore
  load_migrated path (err code) = err code
  load_migrated path (ok text) = load_parsed path (decode text)

  -- `load`; the reading of the file is given.
  abbrev pub load : List ℕ → Reading → RdtResult ConfigStore
  load path (contents text) = load_migrated path (migrate toml text)
  load path missing = ok (record { path = path; inner = default_config; dirty = true })
  load path unreadable = err ErrorCode.config

  abbrev pub to_toml : ConfigStore → RdtResult (List ℕ)
  to_toml s = or_config_error (encode s.inner)

  -- `save` once the document is written.
  abbrev pub save_written :
      RdtResult {0} Unit × Disk → ConfigStore → RdtResult {0} Unit × ConfigStore × Disk
  save_written (err code, d) s = (err code, s, d)
  save_written (ok u, d) s = (ok tt, record s { dirty = false }, d)

  abbrev pub save_encoded :
      Bool
      → Faults
      → RdtResult (List ℕ)
      → ConfigStore
      → Disk
      → RdtResult {0} Unit × ConfigStore × Disk
  save_encoded unix faults (err code) s d = (err code, s, d)
  save_encoded unix faults (ok text) s d = save_written (atomic_write unix faults d text) s

  unfoldable pub save : Bool → Faults → ConfigStore → Disk → RdtResult {0} Unit × ConfigStore × Disk
  save unix faults s d =
      let encoded = save_encoded unix faults (to_toml s) s d in
      if is_nil s.path then (err ErrorCode.config, s, d) else encoded

  abbrev pub take_over : RdtResult ConfigStore → ConfigStore → RdtResult {0} Unit × ConfigStore
  take_over (err code) s = (err code, s)
  take_over (ok reloaded) s = (ok tt, record s { inner = reloaded.inner; dirty = false })

  abbrev pub reload : ConfigStore → Reading → RdtResult {0} Unit × ConfigStore
  reload s reading = take_over (load s.path reading) s
