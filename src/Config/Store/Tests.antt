-- ===== src/Config/Store/Tests.antt =====
-- The store of profiles and its file at concrete inputs.
use remote_desktop_tool.Prelude.{
  ℕ, ◌≡◌, ◌⊎◌, ◌==◌, refl, true, false, List, [], ◌∷◌, Option, none, some, ◌∙◌, sym, ap, subst,
}
use remote_desktop_tool.Types.Errors.{Protocol, ErrorCode, RdtResult, ok, err}
use remote_desktop_tool.Types.Options.{accept_new}
use remote_desktop_tool.Config.Settings.{default_settings}
use remote_desktop_tool.Config.Profile.{ConnectionProfile, new, validate}
use remote_desktop_tool.Config.Migrate.{Toml, migrate}
use remote_desktop_tool.Config.Store.{
  Config, default_config, ConfigStore, in_memory, find, find_by_name, set_settings, add, update,
  remove,
}
use remote_desktop_tool.Config.Store.Laws.{
  Operation, adding, updating, removing, perform, perform_all, IsSound, changed, find-perform,
}
use remote_desktop_tool.Config.Store.Files.{
  Disk, Faults, no_faults, Reading, contents, missing, unreadable, read_file, load, save, reload,
}
use remote_desktop_tool.Config.Store.Files.Laws.{Saved, Unsaved, save-Saved, save-reload}
use remote_desktop_tool.Config.Store.Runs.{
  Call, calling, saving, reloading, replacing, run, LoadsSound, KeepsProfiles, AreSound,
  run-AreSound,
}

abbrev sample : ConnectionProfile
sample = new (1 ∷ []) (b'b' ∷ b'o' ∷ b'x' ∷ []) (b'h' ∷ []) 22 Protocol.ssh

-- Another identifier, and the same name in capitals.
abbrev namesake : ConnectionProfile
namesake = new (2 ∷ []) (b'B' ∷ b'O' ∷ b'X' ∷ []) (b'h' ∷ []) 22 Protocol.ssh

abbrev renamed : ConnectionProfile
renamed = record sample { name = b'p' ∷ b'c' ∷ [] }

abbrev operations : List Operation
operations =
    adding sample ∷ adding namesake ∷ updating renamed ∷ adding namesake ∷ removing (1 ∷ []) ∷ []

find-perform_example :
    find (perform (λ c. c == 32) in_memory (adding sample)).1 (1 ∷ [])
    ≡ changed
        (λ c. c == 32)
        (perform (λ c. c == 32) in_memory (adding sample)).0
        (adding sample)
        (find in_memory)
        (1 ∷ [])
find-perform_example = find-perform (λ c. c == 32) in_memory (adding sample) (1 ∷ [])

-- The names are compared without regard to case, and a name that is given up can be taken.
names_taken :
    (perform
      (λ c. c == 32)
      (perform_all (λ c. c == 32) in_memory (adding sample ∷ []))
      (adding namesake)).0
    ≡ false
unfolding add validate
names_taken = refl

names_free :
    find_by_name (perform_all (λ c. c == 32) in_memory operations) (b'b' ∷ b'o' ∷ b'x' ∷ [])
    ≡ some namesake
unfolding add update remove validate
names_free = refl

-- A profile that accepts new host keys cannot be saved.
accept_new-refused :
    validate
      (λ c. c == 32)
      (record sample { ssh = record sample.ssh { host_key_policy = accept_new } })
    ≡ err ErrorCode.config
unfolding validate
accept_new-refused = refl

abbrev toml : Toml
toml = record {
  Value = List ℕ;
  probe = λ text. some 1;
  from_text = λ text. some text;
  to_text = λ text. some text;
  stamp = λ version text. text;
}

abbrev on_disk : ConfigStore
on_disk = record in_memory { path = b'f' ∷ [] }

abbrev full_disk : Faults
full_disk = record no_faults { write = some 1 }

abbrev old_disk : Disk
old_disk = record {
  target = some (record { text = 5 ∷ 6 ∷ []; owner_only = true });
  temporary = none;
}

save-Saved_example :
    Saved toml
      (λ c. some (7 ∷ 8 ∷ []))
      (λ text. some default_config)
      true
      on_disk
      (save toml
        (λ c. some (7 ∷ 8 ∷ []))
        (λ text. some default_config)
        true
        full_disk
        on_disk
        old_disk)
    ⊎ Unsaved toml
        (λ c. some (7 ∷ 8 ∷ []))
        (λ text. some default_config)
        on_disk
        old_disk
        (save toml
          (λ c. some (7 ∷ 8 ∷ []))
          (λ text. some default_config)
          true
          full_disk
          on_disk
          old_disk)
save-Saved_example =
    save-Saved toml (λ c. some (7 ∷ 8 ∷ [])) (λ text. some default_config) true full_disk on_disk
      old_disk

save-reload_example :
    let later = set_settings on_disk default_settings in
    let saved =
      save toml
        (λ c. some (7 ∷ 8 ∷ []))
        (λ text. some default_config)
        true
        no_faults
        on_disk
        old_disk in
    (saved.0 ≡ ok tt)
    × (reload toml
          (λ c. some (7 ∷ 8 ∷ []))
          (λ text. some default_config)
          later
          (read_file saved.2.target)
        ≡ (ok tt, record later { inner = default_config; dirty = false }))
save-reload_example =
    save-reload toml (λ c. some (7 ∷ 8 ∷ [])) (λ text. some default_config) true on_disk
      (set_settings on_disk default_settings) old_disk (7 ∷ 8 ∷ []) refl refl refl refl refl

-- Only documents without profiles are written.
abbrev encode_profiles : List ConnectionProfile → Option (List ℕ)
encode_profiles [] = some (7 ∷ [])
encode_profiles (p ∷ profiles) = none

abbrev encode_empty : Config → Option (List ℕ)
encode_empty c = encode_profiles c.profiles

abbrev decode_empty : List ℕ → Option Config
decode_empty text = some default_config

abbrev loaded_profiles : RdtResult ConfigStore → List ConnectionProfile
loaded_profiles (ok r) = r.inner.profiles
loaded_profiles (err code) = []

loads_empty :
    (path : List ℕ) (reading : Reading) (r : ConfigStore)
    → load toml encode_empty decode_empty path reading ≡ ok r
    → r.inner.profiles ≡ []
unfolding migrate
loads_empty path (contents text) r h = ap loaded_profiles (sym h)
loads_empty path missing r h = ap loaded_profiles (sym h)
loads_empty path unreadable r h = ap loaded_profiles (sym h)

written_empty :
    (profiles : List ConnectionProfile) (text : List ℕ)
    → encode_profiles profiles ≡ some text
    → profiles ≡ []
written_empty [] text h = refl
written_empty (p ∷ profiles) text h = cc

empty-KeepsProfiles : KeepsProfiles (λ c. c == 32) true toml encode_empty decode_empty
empty-KeepsProfiles c text path r e h =
    loads_empty path (contents text) r h ∙ sym (written_empty c.profiles text e)

empty-LoadsSound :
    (reading : Reading) → LoadsSound (λ c. c == 32) true toml encode_empty decode_empty reading
empty-LoadsSound reading path r h =
    subst (IsSound (λ c. c == 32)) (sym (loads_empty path reading r h)) (tt, tt)

-- A save, two profiles of one name, a save that fails, another program's file and a reload.
abbrev calls : List Call
calls =
    saving no_faults
    ∷ calling (adding sample)
    ∷ calling (adding namesake)
    ∷ saving no_faults
    ∷ replacing none
    ∷ reloading false
    ∷ []

run-AreSound_example :
    AreSound
      (λ c. c == 32)
      true
      toml
      encode_empty
      decode_empty
      (run (λ c. c == 32) true toml encode_empty decode_empty (on_disk, old_disk) calls)
run-AreSound_example =
    run-AreSound (λ c. c == 32) true toml encode_empty decode_empty empty-KeepsProfiles on_disk
      old_disk calls (tt, (tt, (tt, (tt, (empty-LoadsSound missing, (tt, tt))))))
      ((tt, tt), empty-LoadsSound (contents (5 ∷ 6 ∷ [])))
