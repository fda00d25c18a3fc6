-- ===== src/Config/Store/Runs.antt =====
-- Runs of all the calls of crates/rdt-config/src/store.rs that change a store, with saves, reloads and
-- what other programs do to its file.
use remote_desktop_tool.Prelude.{
  ℕ, ◌≡◌, refl, sym, subst, inl, inr, Bool, true, false, List, [], ◌∷◌, Option, none, some,
  if◌then◌else◌, All,
}
use remote_desktop_tool.Types.Errors.{RdtResult, ok, err}
use remote_desktop_tool.Config.Migrate.{Toml}
use remote_desktop_tool.Config.Store.{Config, ConfigStore}
use remote_desktop_tool.Config.Store.Laws.{Operation, perform, IsSound, perform-IsSound}
use remote_desktop_tool.Config.Store.Files.{
  File, Disk, Faults, Reading, contents, unreadable, read_file, load, save, take_over, reload,
}
use remote_desktop_tool.Config.Store.Files.Laws.{IsPrivate, save-Saved}

-- A call of the store, or another program that puts something in the place of its file. A reload may
-- fail to read the file.
pub data Call : Type 0 where
  calling : Operation → Call
  saving : Faults → Call
  reloading : Bool → Call
  replacing : Option File → Call

-- `white` is `char::is_whitespace` of the standard library; `unix` is `cfg(unix)`.
module _ (white : ℕ → Bool) (unix : Bool) (toml : Toml) (encode : Config → Option (List ℕ))
    (decode : List ℕ → Option Config) where
  abbrev pub run_call : ConfigStore × Disk → Call → ConfigStore × Disk
  run_call (s, d) (calling op) = ((perform white s op).1, d)
  run_call (s, d) (saving faults) =
      let done = save toml encode decode unix faults s d in (done.1, done.2)
  run_call (s, d) (reloading fails) =
      let reading = if fails then unreadable else read_file d.target in
      ((reload toml encode decode s reading).1, d)
  run_call (s, d) (replacing target) = (s, record d { target = target })

  abbrev pub run : ConfigStore × Disk → List Call → ConfigStore × Disk
  run sd [] = sd
  run sd (call ∷ calls) = run (run_call sd call) calls

  -- Whatever a reading of the file is loaded as, the profiles are sound.
  abbrev pub LoadsSound : Reading → Type 0
  LoadsSound reading =
      (path : List ℕ) (r : ConfigStore)
      → load toml encode decode path reading ≡ ok r
      → IsSound white r.inner.profiles

  -- What another program puts in the place of the file loads as sound profiles, if at all.
  abbrev pub IsSoundCall : Call → Type 0
  IsSoundCall (replacing target) = LoadsSound (read_file target)
  IsSoundCall _ = Unit

  -- A document that is written and read again, by way of the migration, keeps its profiles.
  abbrev pub KeepsProfiles : Type 0
  KeepsProfiles =
      (c : Config) (text path : List ℕ) (r : ConfigStore)
      → encode c ≡ some text
      → load toml encode decode path (contents text) ≡ ok r
      → r.inner.profiles ≡ c.profiles

  abbrev pub AreSound : ConfigStore × Disk → Type 0
  AreSound sd = IsSound white sd.0.inner.profiles × LoadsSound (read_file sd.1.target)

  private_file-LoadsSound :
      KeepsProfiles
      → (c : Config) (text : List ℕ) (target : Option File) → IsSound white c.profiles
      → encode c ≡ some text
      → IsPrivate unix text target
      → LoadsSound (read_file target)
  private_file-LoadsSound keeps c text none sound e h path r loaded = absurd h
  private_file-LoadsSound keeps c text (some f) sound e h path r loaded =
      subst (IsSound white)
        (sym (keeps c f.text path r (subst (λ t. encode c ≡ some t) (sym h.0) e) loaded)) sound

  save-AreSound :
      KeepsProfiles
      → (faults : Faults) (s : ConfigStore) (d : Disk) → AreSound (s, d)
      → AreSound (run_call (s, d) (saving faults))
  save-AreSound keeps faults s d h = elim (save-Saved toml encode decode unix faults s d) [
    | inl saved ↦
        let (text, e, done, store, file) = saved in
        (
          subst (λ (t : ConfigStore). IsSound white t.inner.profiles) (sym store) h.0,
          private_file-LoadsSound keeps s.inner text _ h.0 e file,
        )
    | inr unsaved ↦ (
      subst (λ (t : ConfigStore). IsSound white t.inner.profiles) (sym unsaved.1) h.0,
      subst (λ target. LoadsSound (read_file target)) (sym unsaved.2) h.1,
    )
  ]

  take_over-IsSound :
      (s : ConfigStore) (m : RdtResult ConfigStore)
      → ((r : ConfigStore) → m ≡ ok r → IsSound white r.inner.profiles)
      → IsSound white s.inner.profiles
      → IsSound white (take_over toml encode decode m s).1.inner.profiles
  take_over-IsSound s (err code) h sound = sound
  take_over-IsSound s (ok r) h sound = h r refl

  run_call-AreSound :
      KeepsProfiles
      → (s : ConfigStore) (d : Disk) (call : Call) → IsSoundCall call
      → AreSound (s, d)
      → AreSound (run_call (s, d) call)
  run_call-AreSound keeps s d (calling op) c h = (perform-IsSound white s op h.0, h.1)
  run_call-AreSound keeps s d (saving faults) c h = save-AreSound keeps faults s d h
  run_call-AreSound keeps s d (reloading true) c h = h
  run_call-AreSound keeps s d (reloading false) c h = (
    take_over-IsSound s (load toml encode decode s.path (read_file d.target)) (h.1 s.path) h.0,
    h.1,
  )
  run_call-AreSound keeps s d (replacing target) c h = (h.0, c)

  -- From a store whose profiles all pass `validate` and have distinct names, and a file that is loaded as
  -- such profiles if at all, any sequence of adds, updates, removals, settings, saves and reloads, with any
  -- outcome and whatever calls of the operating system fail, leaves a store and a file of that kind, even if
  -- other programs replace or remove the file in between. What other programs put there is itself loaded as
  -- such profiles if at all, since a reload validates nothing, and a document that is written and
  -- loaded keeps its profiles.
  pub run-AreSound :
      KeepsProfiles
      → (s : ConfigStore) (d : Disk) (calls : List Call) → All IsSoundCall calls
      → AreSound (s, d)
      → AreSound (run (s, d) calls)
  run-AreSound keeps s d [] cs h = h
  run-AreSound keeps s d (call ∷ calls) cs h =
      let (s', d') = run_call (s, d) call in
      run-AreSound keeps s' d' calls cs.1 (run_call-AreSound keeps s d call cs.0 h)
