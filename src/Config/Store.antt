-- ===== src/Config/Store.antt =====
-- The document and the store of crates/rdt-config/src/store.rs.
pub mod Names
pub mod Laws
pub mod Files
pub mod Runs
mod Tests
use remote_desktop_tool.Prelude.{
  ℕ, zero, suc, ◌+◌, Bool, true, false, not, ◌&&◌, ◌||◌, List, [], ◌∷◌, ◌++◌, Option, none, some,
  ◌==◌, if◌then◌else◌, length, set,
}
use remote_desktop_tool.Text.{same_text, lower_ascii}
use remote_desktop_tool.Types.Errors.{ErrorCode, RdtResult, ok, err}
use remote_desktop_tool.Config.Settings.{Settings, default_settings, current_schema_version}
use remote_desktop_tool.Config.Profile.{ConnectionProfile, validate}

pub record Config : Type 0 where
  pub schema_version : ℕ
  pub settings : Settings
  pub profiles : List ConnectionProfile

abbrev pub default_config : Config
default_config = record {
  schema_version = current_schema_version;
  settings = default_settings;
  profiles = [];
}

-- An empty path is that of a store without a file.
pub record ConfigStore : Type 0 where
  pub path : List ℕ
  pub inner : Config
  pub dirty : Bool

abbrev pub in_memory : ConfigStore
in_memory = record { path = []; inner = default_config; dirty = false }

-- The write to the profiles, after which the store is dirty.
abbrev pub with_profiles : ConfigStore → List ConnectionProfile → ConfigStore
with_profiles s profiles = record s { inner = record s.inner { profiles = profiles }; dirty = true }

abbrev pub set_settings : ConfigStore → Settings → ConfigStore
set_settings s settings = record s { inner = record s.inner { settings = settings }; dirty = true }

abbrev pub find_in : List ConnectionProfile → List ℕ → Option ConnectionProfile
find_in [] id = none
find_in (p ∷ profiles) id =
    let rest = find_in profiles id in if same_text p.id id then some p else rest

abbrev pub find : ConfigStore → List ℕ → Option ConnectionProfile
find s id = find_in s.inner.profiles id

-- `eq_ignore_ascii_case`.
abbrev pub same_name : List ℕ → List ℕ → Bool
same_name a b = same_text (lower_ascii a) (lower_ascii b)

abbrev pub find_name_in : List ConnectionProfile → List ℕ → Option ConnectionProfile
find_name_in [] name = none
find_name_in (p ∷ profiles) name =
    let rest = find_name_in profiles name in if same_name p.name name then some p else rest

abbrev pub find_by_name : ConfigStore → List ℕ → Option ConnectionProfile
find_by_name s name = find_name_in s.inner.profiles name

abbrev pub name_used : List ConnectionProfile → List ℕ → Bool
name_used [] name = false
name_used (p ∷ profiles) name = same_name p.name name || name_used profiles name

-- The position of an identifier, counted from `at`.
abbrev pub position_from : ℕ → List ConnectionProfile → List ℕ → Option ℕ
position_from at [] id = none
position_from at (p ∷ profiles) id =
    let rest = position_from (at + 1) profiles id in if same_text p.id id then some at else rest

-- Whether a profile at another position than `index` has the name; positions count from `at`.
abbrev pub name_used_elsewhere : ℕ → ℕ → List ConnectionProfile → List ℕ → Bool
name_used_elsewhere at index [] name = false
name_used_elsewhere at index (p ∷ profiles) name =
    not (at == index) && same_name p.name name || name_used_elsewhere (at + 1) index profiles name

abbrev pub without_id : List ConnectionProfile → List ℕ → List ConnectionProfile
without_id [] id = []
without_id (p ∷ profiles) id =
    let rest = without_id profiles id in if same_text p.id id then rest else p ∷ rest

-- `remove`.
unfoldable pub remove : ConfigStore → List ℕ → RdtResult {0} Unit × ConfigStore
remove s id =
    let kept = without_id s.inner.profiles id in
    if length kept == length s.inner.profiles
    then (err ErrorCode.not_found, s)
    else (ok tt, with_profiles s kept)

-- `white` is `char::is_whitespace` of the standard library.
module _ (white : ℕ → Bool) where
  -- `add` after `validate`.
  abbrev pub add_valid :
      RdtResult {0} Unit → ConfigStore → ConnectionProfile → RdtResult (List ℕ) × ConfigStore
  add_valid (err code) s p = (err code, s)
  add_valid (ok u) s p =
      if name_used s.inner.profiles p.name
      then (err ErrorCode.config, s)
      else (ok p.id, with_profiles s (s.inner.profiles ++ (p ∷ [])))

  unfoldable pub add : ConfigStore → ConnectionProfile → RdtResult (List ℕ) × ConfigStore
  add s p = add_valid (validate white p) s p

  -- `update` once the position is known.
  abbrev pub update_at :
      Option ℕ → ConfigStore → ConnectionProfile → RdtResult {0} Unit × ConfigStore
  update_at none s p = (err ErrorCode.not_found, s)
  update_at (some index) s p =
      if name_used_elsewhere 0 index s.inner.profiles p.name
      then (err ErrorCode.config, s)
      else (ok tt, with_profiles s (set s.inner.profiles index p))

  abbrev pub update_valid :
      RdtResult {0} Unit → ConfigStore → ConnectionProfile → RdtResult {0} Unit × ConfigStore
  update_valid (err code) s p = (err code, s)
  update_valid (ok u) s p = update_at (position_from 0 s.inner.profiles p.id) s p

  unfoldable pub update : ConfigStore → ConnectionProfile → RdtResult {0} Unit × ConfigStore
  update s p = update_valid (validate white p) s p
