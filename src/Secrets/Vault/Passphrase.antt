-- ===== src/Secrets/Vault/Passphrase.antt =====
-- The passphrase of a vault: creating it, changing it, and what a change that failed leaves.
use remote_desktop_tool.Prelude.{
  ℕ, ◌≡◌, ◌≢◌, refl, ◌⊎◌, inl, inr, arith, false, List, ◌++◌, Option, some, take, length, replicate,
}
use remote_desktop_tool.Text.{is_nil}
use remote_desktop_tool.Types.Errors.{ok}
use remote_desktop_tool.Secrets.Entries.{insert}
use remote_desktop_tool.Secrets.Vault.{
  nonce_len, build_header, Vault, Library, Faults, with_entries, save_changed, set,
  change_passphrase, open_vault,
}
use remote_desktop_tool.Secrets.Vault.Format.{take-left, prefix, IsKeyed, IsReversible}
use remote_desktop_tool.Secrets.Vault.Laws.{read_file, Stored, save_changed-Stored}

build_header-salt :
    (salt : List ℕ) → length salt ≡ 16 → take 36 (build_header salt) ≡ prefix ++ salt
unfolding build_header
build_header-salt salt h = take-left 36 (prefix ++ salt) (replicate nonce_len 0) (omega (arith, h))

module _ (lib : Library) where
  -- The vault with the key of a new passphrase.
  abbrev pub rekeyed : Vault → List ℕ → List ℕ → Vault
  rekeyed v salt key = record v { key = key; header = build_header salt }

  rekeyed-IsKeyed :
      (v : Vault) (passphrase salt key : List ℕ)
      → length salt ≡ 16
      → lib.kdf passphrase salt ≡ some key
      → IsKeyed lib passphrase (rekeyed v salt key)
  rekeyed-IsKeyed v passphrase salt key s k = record {
    salt = salt;
    salt_len = s;
    salted = build_header-salt salt s;
    derived = k;
  }

  change_passphrase-rekeyed :
      (faults : Faults) (v : Vault) (passphrase salt nonce key : List ℕ) (file : Option (List ℕ))
      → is_nil passphrase ≡ false
      → lib.kdf passphrase salt ≡ some key
      → change_passphrase lib faults salt nonce v passphrase file
        ≡ save_changed lib faults nonce (rekeyed v salt key) file
  unfolding change_passphrase
  change_passphrase-rekeyed faults v passphrase salt nonce key file p k = rw (p, k) refl

  -- A change to a passphrase that is not empty and gives a key: where it reports success, the file opens
  -- with the new passphrase to the same entries; where it reports an error, the file is as it was. The
  -- salt has 16 bytes and the nonce 12, and what other crates encrypt and encode can be read back.
  pub change_passphrase-reopened :
      (faults : Faults) (v : Vault) (passphrase salt nonce key : List ℕ) (file : Option (List ℕ))
      → IsReversible lib
      → is_nil passphrase ≡ false
      → length salt ≡ 16
      → length nonce ≡ 12
      → lib.kdf passphrase salt ≡ some key
      → let done = change_passphrase lib faults salt nonce v passphrase file in
        ((done.0 ≡ ok tt)
          × ((u : Vault) × (open_vault lib v.path passphrase (read_file done.2) ≡ ok u)
              × (u.payload ≡ v.payload)))
        ⊎ ((done.0 ≢ ok tt) × (done.2 ≡ file))
  change_passphrase-reopened faults v passphrase salt nonce key file r p s n k =
      rw (change_passphrase-rekeyed faults v passphrase salt nonce key file p k)
        (elim (save_changed-Stored lib faults (rekeyed v salt key) passphrase nonce file r
          (rekeyed-IsKeyed v passphrase salt key s k) n) [
            | inl stored ↦ inl (stored.0, (stored.1.0, stored.1.1, stored.1.2))
            | inr kept ↦ inr kept
          ])

  -- Even where the change reports an error, the vault in memory has the new key: the next `set` that
  -- reports success leaves a file that opens with the new passphrase. The new passphrase is not empty and
  -- gives a key, the salt has 16 bytes and the nonce of the `set` 12, and what other crates encrypt and
  -- encode can be read back.
  pub change_passphrase-set :
      (faults later : Faults) (v : Vault) (passphrase salt nonce key next_nonce name value : List ℕ)
      (file : Option (List ℕ))
      → IsReversible lib
      → is_nil passphrase ≡ false
      → length salt ≡ 16
      → length next_nonce ≡ 12
      → lib.kdf passphrase salt ≡ some key
      → let changed = change_passphrase lib faults salt nonce v passphrase file in
        Stored lib passphrase changed.2 (set lib later next_nonce changed.1 name value changed.2)
  unfolding set
  change_passphrase-set faults later v passphrase salt nonce key next_nonce name value file r p s n
        k =
      let w = rekeyed v salt key in
      let changed = save_changed lib faults nonce w file in
      rw (change_passphrase-rekeyed faults v passphrase salt nonce key file p k) (
        save_changed-Stored lib later
          (with_entries lib w (insert v.payload.entries name (lib.encode (lib.utf8 value))))
          passphrase next_nonce changed.2 r
          (record { salt = salt; salt_len = s; salted = build_header-salt salt s; derived = k }) n)
