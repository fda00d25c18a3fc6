-- ===== src/Secrets/Store.antt =====
-- `VaultHandle` of crates/rdt-secrets/src/vault.rs and `SecretStore` of crates/rdt-secrets/src/lib.rs.
pub mod Laws
mod Tests
use remote_desktop_tool.Prelude.{
  ℕ, Bool, true, false, List, [], ◌∷◌, Option, none, some, if◌then◌else◌, length,
}
use remote_desktop_tool.Types.Errors.{ErrorCode, RdtResult, ok, err, and_then}
use remote_desktop_tool.Types.Options.{SecretBackend, os_keystore, encrypted_vault, StoredSecret}
use remote_desktop_tool.Secrets.Entries.{Entries, keys}
use remote_desktop_tool.Secrets.Vault.{
  Vault, Library, Faults, Changed, create, open_vault, get, secrets_of, set, delete,
}
use remote_desktop_tool.Secrets.Vault.Laws.{read_file}

pub data VaultHandle : Type 0 where
  closed : List ℕ → VaultHandle
  opened : Vault → VaultHandle

-- The keystore of the operating system.
pub record Keystore : Type 1 where
  pub State : Type 0
  pub available : Bool
  pub set_item : State → List ℕ → List ℕ → RdtResult {0} Unit × State
  pub get_item : State → List ℕ → RdtResult (List ℕ)
  pub delete_item : State → List ℕ → RdtResult {0} Unit × State

abbrev pub is_open : VaultHandle → Bool
is_open (closed path) = false
is_open (opened v) = true

module _ (lib : Library) (os : Keystore) where
  -- The store, with the file of the vault and the keystore that it acts on.
  pub record SecretStore : Type 0 where
    pub vault : VaultHandle
    pub vault_path : List ℕ
    pub default_backend : SecretBackend
    pub file : Option (List ℕ)
    pub keystore : os.State

  abbrev pub with_vault {ℓ} : {A : Type ℓ} → VaultHandle → (Vault → RdtResult A) → RdtResult A
  with_vault (opened v) action = action v
  with_vault (closed path) action = err ErrorCode.vault

  -- What a change of the open vault makes of the store.
  abbrev pub after_change : SecretStore → Changed lib → RdtResult {0} Unit × SecretStore
  after_change s done = (done.0, record s { vault = opened done.1; file = done.2 })

  abbrev pub with_vault_mut :
      VaultHandle → SecretStore → (Vault → Changed lib) → RdtResult {0} Unit × SecretStore
  with_vault_mut (opened v) s action = after_change s (action v)
  with_vault_mut (closed path) s action = (err ErrorCode.vault, s)

  abbrev pub is_unlocked : SecretStore → Bool
  is_unlocked s = is_open s.vault

  abbrev pub unlocked : RdtResult Vault → SecretStore → RdtResult {0} Unit × SecretStore
  unlocked (err code) s = (err code, s)
  unlocked (ok v) s = (ok tt, record s { vault = opened v })

  abbrev pub unlock : SecretStore → List ℕ → RdtResult {0} Unit × SecretStore
  unlock s passphrase = unlocked (open_vault lib s.vault_path passphrase (read_file s.file)) s

  abbrev pub lock : SecretStore → SecretStore
  lock s = record s { vault = closed s.vault_path }

  -- `create_vault`, once the file is created.
  abbrev pub created_vault :
      RdtResult Vault × Option (List ℕ) → SecretStore → List ℕ → RdtResult {0} Unit × SecretStore
  created_vault (err code, file) s passphrase = (err code, record s { file = file })
  created_vault (ok v, file) s passphrase = unlock (record s { file = file }) passphrase

  abbrev pub create_vault :
      Faults → List ℕ → List ℕ → SecretStore → List ℕ → RdtResult {0} Unit × SecretStore
  create_vault faults salt nonce s passphrase =
      created_vault (create lib faults salt nonce s.vault_path passphrase s.file) s passphrase

  abbrev pub after_item :
      SecretStore → RdtResult {0} Unit × os.State → RdtResult {0} Unit × SecretStore
  after_item s done = (done.0, record s { keystore = done.1 })

  -- The write of `store_in`.
  abbrev pub write_in :
      SecretBackend
      → Faults
      → List ℕ
      → SecretStore
      → List ℕ
      → List ℕ
      → RdtResult {0} Unit × SecretStore
  write_in os_keystore faults nonce s key value =
      let written = after_item s (os.set_item s.keystore key value) in
      if os.available then written else (err ErrorCode.keystore, s)
  write_in encrypted_vault faults nonce s key value =
      with_vault_mut s.vault s (λ v. set lib faults nonce v key value s.file)

  abbrev pub referred :
      SecretBackend
      → List ℕ
      → RdtResult {0} Unit × SecretStore
      → RdtResult StoredSecret × SecretStore
  referred backend key (err code, s) = (err code, s)
  referred backend key (ok u, s) = (ok (record { backend = backend; key = key }), s)

  unfoldable pub store_in :
      Faults
      → List ℕ
      → SecretStore
      → SecretBackend
      → List ℕ
      → List ℕ
      → RdtResult StoredSecret × SecretStore
  store_in faults nonce s backend key value =
      referred backend key (write_in backend faults nonce s key value)

  abbrev pub preferred : Bool → SecretBackend
  preferred true = os_keystore
  preferred false = encrypted_vault

  abbrev pub store :
      Faults → List ℕ → SecretStore → List ℕ → List ℕ → RdtResult StoredSecret × SecretStore
  store faults nonce s key value = store_in faults nonce s (preferred os.available) key value

  abbrev pub read_from : SecretBackend → SecretStore → List ℕ → RdtResult (List ℕ)
  read_from os_keystore s key = os.get_item s.keystore key
  read_from encrypted_vault s key = with_vault s.vault (λ v. get lib v key)

  abbrev pub read : SecretStore → StoredSecret → RdtResult (List ℕ)
  read s reference = read_from reference.backend s reference.key

  abbrev pub fallback : SecretBackend → SecretBackend
  fallback os_keystore = encrypted_vault
  fallback encrypted_vault = os_keystore

  -- A value with the backend that it came from; the second error is dropped.
  abbrev pub or_fallback :
      SecretBackend → RdtResult (List ℕ) → RdtResult (List ℕ) → RdtResult (List ℕ × SecretBackend)
  or_fallback backend (ok value) second = ok (value, backend)
  or_fallback backend (err primary) (ok value) = ok (value, fallback backend)
  or_fallback backend (err primary) (err code) = err primary

  unfoldable pub read_lenient : SecretStore → StoredSecret → RdtResult (List ℕ × SecretBackend)
  read_lenient s reference =
      or_fallback reference.backend (read s reference)
        (read_from (fallback reference.backend) s reference.key)

  abbrev pub delete_from :
      SecretBackend → Faults → List ℕ → SecretStore → List ℕ → RdtResult {0} Unit × SecretStore
  delete_from os_keystore faults nonce s key = after_item s (os.delete_item s.keystore key)
  delete_from encrypted_vault faults nonce s key =
      with_vault_mut s.vault s (λ v. delete lib faults nonce v key s.file)

  abbrev pub delete_secret :
      Faults → List ℕ → SecretStore → StoredSecret → RdtResult {0} Unit × SecretStore
  delete_secret faults nonce s reference =
      delete_from reference.backend faults nonce s reference.key

  abbrev pub vault_keys : SecretStore → RdtResult (List (List ℕ))
  vault_keys s = with_vault s.vault (λ v. ok (keys v.payload.entries))

  -- The writes of `migrate_vault_to_keystore`, up to the first that fails.
  abbrev pub copy_all : Entries → os.State → RdtResult {0} Unit × os.State
  copy_all [] items = (ok tt, items)
  copy_all (e ∷ entries) items = and_copy (os.set_item items e.0 e.1) (copy_all entries)
    where
      and_copy :
          RdtResult {0} Unit × os.State
          → (os.State → RdtResult {0} Unit × os.State)
          → RdtResult {0} Unit × os.State
      and_copy (err code, after) rest = (err code, after)
      and_copy (ok u, after) rest = rest after

  abbrev pub counted : ℕ → RdtResult {0} Unit × SecretStore → RdtResult ℕ × SecretStore
  counted n (err code, s) = (err code, s)
  counted n (ok u, s) = (ok n, s)

  abbrev pub migrate_entries : RdtResult Entries → SecretStore → RdtResult ℕ × SecretStore
  migrate_entries (err code) s = (err code, s)
  migrate_entries (ok entries) s =
      counted (length entries) (after_item s (copy_all entries s.keystore))

  unfoldable pub migrate_vault_to_keystore : SecretStore → RdtResult ℕ × SecretStore
  migrate_vault_to_keystore s =
      let migrated =
        migrate_entries (with_vault s.vault (λ v. secrets_of lib v.payload.entries)) s in
      if os.available then migrated else (err ErrorCode.keystore, s)
