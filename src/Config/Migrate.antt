-- ===== src/Config/Migrate.antt =====
-- `migrate` of crates/rdt-config/src/migrate.rs.
use remote_desktop_tool.Prelude.{ℕ, List, Option, none, some, ◌==◌, ltb, if◌then◌else◌}
use remote_desktop_tool.Types.Errors.{ErrorCode, RdtResult, ok, err}
use remote_desktop_tool.Config.Settings.{current_schema_version}

-- What the module takes from the crate toml: the `schema_version` of a text, with 0 where it has none;
-- the value of a text; its text; and a value with `schema_version` written into its table, if it is one.
pub record Toml : Type 1 where
  pub Value : Type 0
  pub probe : List ℕ → Option ℕ
  pub from_text : List ℕ → Option Value
  pub to_text : Value → Option (List ℕ)
  pub stamp : ℕ → Value → Value

-- `unwrap_or(0)`.
abbrev pub or_zero : Option ℕ → ℕ
or_zero none = 0
or_zero (some version) = version

abbrev pub or_config_error : Option (List ℕ) → RdtResult (List ℕ)
or_config_error none = err ErrorCode.config
or_config_error (some text) = ok text

module _ (toml : Toml) where
  abbrev pub document_version : List ℕ → ℕ
  document_version text = or_zero (toml.probe text)

  abbrev pub stamped : Option toml.Value → RdtResult (List ℕ)
  stamped none = err ErrorCode.config
  stamped (some value) = or_config_error (toml.to_text (toml.stamp current_schema_version value))

  unfoldable pub migrate : List ℕ → RdtResult (List ℕ)
  migrate text =
      let version = document_version text in
      if version == current_schema_version
      then ok text
      else if ltb current_schema_version version
      then err ErrorCode.unsupported
      else stamped (toml.from_text text)
