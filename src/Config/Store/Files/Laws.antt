-- ===== src/Config/Store/Files/Laws.antt =====
-- What is on the disk after a save, and what a reload makes of it.
use remote_desktop_tool.Prelude.{
  ℕ, ◌≡◌, ◌≢◌, refl, ap, ◌∙◌, ◌⊎◌, inl, inr, arith, Bool, Bool-cases, true, false, List, Option,
  none, some,
}
use remote_desktop_tool.Text.{is_nil}
use remote_desktop_tool.Types.Errors.{ErrorCode, RdtResult, ok, err}
use remote_desktop_tool.Config.Settings.{current_schema_version}
use remote_desktop_tool.Config.Migrate.{Toml, or_config_error, migrate}
use remote_desktop_tool.Config.Store.{Config, ConfigStore}
use remote_desktop_tool.Config.Store.Files.{
  File, Disk, Faults, no_faults, read_file, created, restrict_to_owner, atomic_write, load_migrated,
  load_parsed, save, save_encoded, save_written, take_over, reload, write_failed, written, attempt,
}

-- The file that a save leaves: it holds the text, and on Unix its owner alone can read it.
abbrev pub IsPrivate : Bool → List ℕ → Option File → Type 0
IsPrivate unix text none = ⊥
IsPrivate unix text (some f) = (f.text ≡ text) × (unix ≡ true → f.owner_only ≡ true)

-- A write that succeeds has put the whole text in the file.
abbrev pub Replaced : Bool → List ℕ → RdtResult {0} Unit × Disk → Type 0
Replaced unix text done = (done.0 ≡ ok tt) × IsPrivate unix text done.1.target

-- A write that fails has left the file as it was.
abbrev pub Kept : Disk → RdtResult {0} Unit × Disk → Type 0
Kept d done = (done.0 ≢ ok tt) × (done.1.target ≡ d.target)

ok-err : {A : Type 0} (code : ErrorCode) (a : A) → err code ≢ ok a
ok-err code a h = absurd (ground arith)

abbrev pub Atomic : Bool → List ℕ → Disk → RdtResult {0} Unit × Disk → Type 0
Atomic unix text d done = Replaced unix text done ⊎ Kept d done

attempt-Atomic :
    (unix failed : Bool) (code : ErrorCode) (text : List ℕ) (d kept : Disk)
    (rest : RdtResult {0} Unit × Disk)
    → kept.target ≡ d.target
    → Atomic unix text d rest
    → Atomic unix text d (attempt failed code kept rest)
attempt-Atomic unix true code text d kept rest same h = inr (ok-err code tt, same)
attempt-Atomic unix false code text d kept rest same h = h

restrict_to_owner-owner_only :
    (unix : Bool) (f : File) → unix ≡ true → (restrict_to_owner unix f).owner_only ≡ true
restrict_to_owner-owner_only true f h = refl
restrict_to_owner-owner_only false f h = absurd (ground arith)

-- The write, and what follows it, with the restricted file.
write-Atomic :
    (unix : Bool) (f : File) (failed_at : Option ℕ) (text : List ℕ) (d : Disk) (sync rename : Bool)
    → (unix ≡ true → f.owner_only ≡ true)
    → let full : File = record f { text = written failed_at text } in
      let filled : Disk = record d { temporary = some full } in
      let moved : Disk = record { target = some full; temporary = none } in
      Atomic unix text d (
        attempt
          (write_failed failed_at)
          ErrorCode.io
          filled
          (attempt sync ErrorCode.io filled (attempt rename ErrorCode.io filled (ok tt, moved))))
write-Atomic unix f (some n) text d sync rename h = inr (ok-err ErrorCode.io tt, refl)
write-Atomic unix f none text d true rename h = inr (ok-err ErrorCode.io tt, refl)
write-Atomic unix f none text d false true h = inr (ok-err ErrorCode.io tt, refl)
write-Atomic unix f none text d false false h = inl (refl, (refl, h))

pub atomic_write-Atomic :
    (unix : Bool) (faults : Faults) (d : Disk) (text : List ℕ)
    → Atomic unix text d (atomic_write unix faults d text)
unfolding atomic_write
atomic_write-Atomic unix faults d text =
    let made = created d.temporary in
    attempt-Atomic unix faults.create_dir ErrorCode.io text d d _ refl (
      attempt-Atomic unix faults.create ErrorCode.io text d d _ refl (
        attempt-Atomic unix faults.restrict ErrorCode.permission text d _ _ refl (
          write-Atomic unix (restrict_to_owner unix made) faults.write text d faults.sync
            faults.rename (restrict_to_owner-owner_only unix made))))

module _ (toml : Toml) (encode : Config → Option (List ℕ)) (decode : List ℕ → Option Config) where
  -- A save that succeeds: the file holds the document, and the store is clean.
  abbrev pub Saved : Bool → ConfigStore → RdtResult {0} Unit × ConfigStore × Disk → Type 0
  Saved unix s done =
      (text : List ℕ) × (encode s.inner ≡ some text)
      × (done.0 ≡ ok tt)
      × (done.1 ≡ record s { dirty = false })
      × IsPrivate unix text done.2.target

  -- A save that fails: the store and the file are as they were.
  abbrev pub Unsaved : ConfigStore → Disk → RdtResult {0} Unit × ConfigStore × Disk → Type 0
  Unsaved s d done = (done.0 ≢ ok tt) × (done.1 ≡ s) × (done.2.target ≡ d.target)

  save_written-Saved :
      (unix : Bool) (s : ConfigStore) (d : Disk) (text : List ℕ) (done : RdtResult {0} Unit × Disk)
      → encode s.inner ≡ some text
      → Atomic unix text d done
      → Saved unix s (save_written toml encode decode done s)
        ⊎ Unsaved s d (save_written toml encode decode done s)
  save_written-Saved unix s d text (ok tt, after) e (inl h) = inl (text, e, refl, refl, h.1)
  save_written-Saved unix s d text (err code, after) e (inl h) = absurd (ok-err code tt h.0)
  save_written-Saved unix s d text (ok tt, after) e (inr h) = absurd (h.0 refl)
  save_written-Saved unix s d text (err code, after) e (inr h) = inr (ok-err code tt, refl, h.1)

  encoded-Saved :
      (unix : Bool) (faults : Faults) (s : ConfigStore) (d : Disk) (t : Option (List ℕ))
      → encode s.inner ≡ t
      → let done = save_encoded toml encode decode unix faults (or_config_error t) s d in
        Saved unix s done ⊎ Unsaved s d done
  encoded-Saved unix faults s d none e = inr (ok-err ErrorCode.config tt, refl, refl)
  encoded-Saved unix faults s d (some text) e =
      save_written-Saved unix s d text (atomic_write unix faults d text) e
        (atomic_write-Atomic unix faults d text)

  -- Whichever calls of the operating system fail, and wherever the save is cut off: either it succeeds,
  -- the file holds the encoding of the whole document, on Unix readable by its owner only whatever the
  -- permissions of an older temporary file were, and the store is clean, or it fails, and the file and the
  -- store, with its mark of unsaved changes, are as they were.
  pub save-Saved :
      (unix : Bool) (faults : Faults) (s : ConfigStore) (d : Disk)
      → Saved unix s (save toml encode decode unix faults s d)
        ⊎ Unsaved s d (save toml encode decode unix faults s d)
  unfolding save
  save-Saved unix faults s d = elim (Bool-cases (is_nil s.path)) [
    | inl detached ↦ rw detached (inr (ok-err ErrorCode.config tt, refl, refl))
    | inr attached ↦ rw attached (encoded-Saved unix faults s d (encode s.inner) refl)
  ]

  migrate_current :
      (text : List ℕ) → toml.probe text ≡ some current_schema_version → migrate toml text ≡ ok text
  unfolding migrate
  migrate_current text h = rw h refl

  -- Where the crate toml reads the document and its version back from the text that it writes of it: a store
  -- with a path whose document has the current schema version and can be encoded is saved when no call
  -- fails, and a reload then, in whatever state the store is by that time, brings back the saved document
  -- and leaves the store clean.
  pub save-reload :
      (unix : Bool) (s later : ConfigStore) (d : Disk) (text : List ℕ)
      → is_nil s.path ≡ false
      → s.inner.schema_version ≡ current_schema_version
      → encode s.inner ≡ some text
      → decode text ≡ some s.inner
      → toml.probe text ≡ some s.inner.schema_version
      → let saved = save toml encode decode unix no_faults s d in
        (saved.0 ≡ ok tt)
        × (reload toml encode decode later (read_file saved.2.target)
            ≡ (ok tt, record later { inner = s.inner; dirty = false }))
  unfolding save atomic_write
  save-reload unix s later d text attached current e back version =
      let readable : migrate toml text ≡ ok text =
        migrate_current text (version ∙ ap some current) in
      rw (attached, e)
        (
          refl,
          ap
                (λ r.
                  take_over toml encode decode (load_migrated toml encode decode later.path r)
                    later)
                readable
              ∙ ap
                  (λ c.
                    take_over toml encode decode (load_parsed toml encode decode later.path c)
                      later)
                  back,
        )
