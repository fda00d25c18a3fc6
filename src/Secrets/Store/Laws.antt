-- ===== src/Secrets/Store/Laws.antt =====
-- Locking and unlocking the store of crates/rdt-secrets/src/lib.rs.
use remote_desktop_tool.Prelude.{
  ℕ, ◌≡◌, ◌≢◌, refl, ◌⊎◌, inl, inr, arith, List, Option, if◌then◌else◌, length,
}
use remote_desktop_tool.Text.{same_text}
use remote_desktop_tool.Types.Errors.{ErrorCode, RdtResult, ok, err}
use remote_desktop_tool.Types.Options.{encrypted_vault, StoredSecret}
use remote_desktop_tool.Secrets.Vault.{Vault, Library, Faults, Changed, open_vault, get, set}
use remote_desktop_tool.Secrets.Vault.Format.{IsKeyed, IsReversible}
use remote_desktop_tool.Secrets.Vault.Laws.{read_file, IsReadable, set-reopened}
use remote_desktop_tool.Secrets.Store.{
  opened, Keystore, SecretStore, after_change, unlock, lock, referred, store_in, read,
  delete_secret, vault_keys,
}

module _ (lib : Library) (os : Keystore) where
  -- While the vault is locked, whatever is asked of it is refused as an error of the vault: no value is
  -- read, and neither its file nor the keystore changes.
  pub lock-refuses :
      (s : SecretStore lib os) (faults : Faults) (nonce key value : List ℕ)
      → let reference : StoredSecret = record { backend = encrypted_vault; key = key } in
        let locked = lock lib os s in
        (read lib os locked reference ≡ err ErrorCode.vault)
        × (store_in lib os faults nonce locked encrypted_vault key value
            ≡ (err ErrorCode.vault, locked))
        × (delete_secret lib os faults nonce locked reference ≡ (err ErrorCode.vault, locked))
        × (vault_keys lib os locked ≡ err ErrorCode.vault)
  unfolding store_in
  lock-refuses s faults nonce key value = (refl, refl, refl, refl)

  -- The store with an open vault, at its path.
  abbrev pub holding : SecretStore lib os → Vault → SecretStore lib os
  holding s v = record s { vault = opened v; vault_path = v.path }

  -- A vault that opens to these values.
  abbrev OpensTo : Vault → List ℕ → Option (List ℕ) → (List ℕ → RdtResult (List ℕ)) → Type 0
  OpensTo v passphrase file values =
      (u : Vault) × (open_vault lib v.path passphrase (read_file file) ≡ ok u)
      × ((other : List ℕ) → get lib u other ≡ values other)

  unlocked-read :
      (s : SecretStore lib os) (v : Vault) (passphrase key : List ℕ) (file : Option (List ℕ))
      (values : List ℕ → RdtResult (List ℕ))
      → OpensTo v passphrase file values
      → let reference : StoredSecret = record { backend = encrypted_vault; key = key } in
        let again = unlock lib os (lock lib os (record (holding s v) { file = file })) passphrase in
        (again.0 ≡ ok tt) × (read lib os again.1 reference ≡ values key)
  unlocked-read s v passphrase key file values opens = rw opens.1 (refl, opens.2 key)

  referred-read :
      (s : SecretStore lib os) (v : Vault) (passphrase key : List ℕ) (before : Option (List ℕ))
      (values : List ℕ → RdtResult (List ℕ)) (done : Changed lib) (reference : StoredSecret)
      → ((done.0 ≡ ok tt) × OpensTo v passphrase done.2 values)
        ⊎ ((done.0 ≢ ok tt) × (done.2 ≡ before))
      → let stored = referred lib os encrypted_vault key (after_change lib os (holding s v) done) in
        stored.0 ≡ ok reference
        → let again = unlock lib os (lock lib os stored.1) passphrase in
          (again.0 ≡ ok tt)
          × ((other : List ℕ)
              → read lib os again.1 (record { backend = encrypted_vault; key = other })
                ≡ values other)
  referred-read s v passphrase key before values (err code, w, file) reference alt h =
      absurd (ground arith)
  referred-read s v passphrase key before values (ok tt, w, file) reference (inr failed) h =
      absurd (failed.0 refl)
  referred-read s v passphrase key before values (ok tt, w, file) reference (inl stored) h = (
    (unlocked-read s v passphrase key file values stored.1).0,
    λ other. (unlocked-read s v passphrase other file values stored.1).1,
  )

  -- A secret that was stored in the open vault is still there once the vault has been locked and unlocked
  -- with its passphrase, and every other secret of the vault is as it was. The vault stands at the path of
  -- the store and has its key from the passphrase, the nonce has 12 bytes, and what other crates encrypt,
  -- encode and write as text can be read back.
  pub store_in-unlock-read :
      (s : SecretStore lib os) (v : Vault) (faults : Faults) (passphrase nonce key value : List ℕ)
      (reference : StoredSecret)
      → IsReversible lib
      → IsReadable lib
      → IsKeyed lib passphrase v
      → length nonce ≡ 12
      → let stored = store_in lib os faults nonce (holding s v) encrypted_vault key value in
        stored.0 ≡ ok reference
        → let again = unlock lib os (lock lib os stored.1) passphrase in
          (again.0 ≡ ok tt)
          × ((other : List ℕ)
              → read lib os again.1 (record { backend = encrypted_vault; key = other })
                ≡ (if same_text key other then ok value else get lib v other))
  unfolding store_in
  store_in-unlock-read s v faults passphrase nonce key value reference r readable keyed n h =
      referred-read s v passphrase key s.file
        (λ other. if same_text key other then ok value else get lib v other)
        (set lib faults nonce v key value s.file) reference
        (set-reopened lib faults v passphrase nonce key value s.file r readable keyed n) h
