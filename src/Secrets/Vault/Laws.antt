-- ===== src/Secrets/Vault/Laws.antt =====
-- What the operations of a vault make of its entries and of its file.
use remote_desktop_tool.Prelude.{
  ℕ, ◌≡◌, ◌≢◌, refl, ap, ◌∙◌, ◌⊎◌, inl, inr, arith, Bool-cases, List, Option, none, some,
  if◌then◌else◌, length,
}
use remote_desktop_tool.Text.{same_text}
use remote_desktop_tool.Types.Errors.{ErrorCode, RdtResult, ok, err}
use remote_desktop_tool.Secrets.Entries.{lookup, insert, lookup-insert}
use remote_desktop_tool.Secrets.Vault.{
  Vault, Library, Faults, attempt, replace_file, saved_bytes, write_bytes, open_vault, get,
  with_entries, Changed, save_changed, set,
}
use remote_desktop_tool.Secrets.Vault.Format.{
  full_header, IsKeyed, IsReversible, saved_bytes-open_vault,
}

-- Either the bytes are the file, or there is an error and the file is as it was.
abbrev Replaces : List ℕ → Option (List ℕ) → RdtResult {0} Unit × Option (List ℕ) → Type 0
Replaces bytes file done =
    ((done.0 ≡ ok tt) × (done.1 ≡ some bytes)) ⊎ ((done.0 ≢ ok tt) × (done.1 ≡ file))

err-ok : {A : Type 0} (code : ErrorCode) (a : A) → err code ≢ ok a
err-ok code a h = absurd (ground arith)

attempt-Replaces :
    (fault : Option ErrorCode) (bytes : List ℕ) (file : Option (List ℕ))
    (rest : RdtResult {0} Unit × Option (List ℕ))
    → Replaces bytes file rest
    → Replaces bytes file (attempt fault rest file)
attempt-Replaces none bytes file rest h = h
attempt-Replaces (some code) bytes file rest h = inr (err-ok code tt, refl)

replace_file-Replaces :
    (faults : Faults) (bytes : List ℕ) (file : Option (List ℕ))
    → Replaces bytes file (replace_file faults bytes file)
unfolding replace_file
replace_file-Replaces faults bytes file = attempt-Replaces faults.create_dir bytes file _ (
    attempt-Replaces faults.create bytes file _ (
      attempt-Replaces faults.write bytes file _ (
        attempt-Replaces faults.sync bytes file _ (
          attempt-Replaces faults.restrict bytes file _
            (attempt-Replaces faults.rename bytes file _ (inl (refl, refl)))))))

-- Reading the file of a vault.
abbrev pub read_file : Option (List ℕ) → RdtResult (List ℕ)
read_file none = err ErrorCode.io
read_file (some bytes) = ok bytes

module _ (lib : Library) where
  -- The file can be opened with the passphrase, to a vault with the same payload, and the same key.
  abbrev pub Opens : List ℕ → Vault → Option (List ℕ) → Type 0
  Opens passphrase v file =
      (u : Vault) × (open_vault lib v.path passphrase (read_file file) ≡ ok u)
      × (u.payload ≡ v.payload)
      × (u.key ≡ v.key)

  -- Either the operation reports success and the file opens to the vault in memory, or it reports an error
  -- and the file is as it was.
  abbrev pub Stored : List ℕ → Option (List ℕ) → Changed lib → Type 0
  Stored passphrase file done =
      ((done.0 ≡ ok tt) × Opens passphrase done.1 done.2) ⊎ ((done.0 ≢ ok tt) × (done.2 ≡ file))

  opened-Stored :
      (v : Vault) (passphrase nonce bytes : List ℕ) (file : Option (List ℕ))
      (done : RdtResult {0} Unit × Option (List ℕ))
      → IsReversible lib
      → IsKeyed lib passphrase v
      → length nonce ≡ 12
      → saved_bytes lib v nonce ≡ ok bytes
      → Replaces bytes file done
      → Stored passphrase file (done.0, v, done.1)
  opened-Stored v passphrase nonce bytes file done r keyed n h (inr kept) = inr kept
  opened-Stored v passphrase nonce bytes file done r keyed n h (inl written) = inl (
    written.0,
    (
      record v { header = full_header keyed.salt nonce },
      ap (λ f. open_vault lib v.path passphrase (read_file f)) written.1
          ∙ saved_bytes-open_vault lib v passphrase nonce bytes r keyed n h,
      refl,
      refl,
    ),
  )

  write_bytes-Stored :
      (faults : Faults) (v : Vault) (passphrase nonce : List ℕ) (file : Option (List ℕ))
      (encoded : RdtResult (List ℕ))
      → IsReversible lib
      → IsKeyed lib passphrase v
      → length nonce ≡ 12
      → saved_bytes lib v nonce ≡ encoded
      → let done = write_bytes lib faults encoded file in Stored passphrase file (done.0, v, done.1)
  write_bytes-Stored faults v passphrase nonce file (err code) r keyed n h =
      inr (err-ok code tt, refl)
  write_bytes-Stored faults v passphrase nonce file (ok bytes) r keyed n h =
      opened-Stored v passphrase nonce bytes file (replace_file faults bytes file) r keyed n h
        (replace_file-Replaces faults bytes file)

  pub save_changed-Stored :
      (faults : Faults) (v : Vault) (passphrase nonce : List ℕ) (file : Option (List ℕ))
      → IsReversible lib
      → IsKeyed lib passphrase v
      → length nonce ≡ 12
      → Stored passphrase file (save_changed lib faults nonce v file)
  save_changed-Stored faults v passphrase nonce file r keyed n =
      write_bytes-Stored faults v passphrase nonce file (saved_bytes lib v nonce) r keyed n refl

  -- The bytes of a text are read back as the text.
  pub record IsReadable : Type 0 where
    pub decodes : (raw : List ℕ) → lib.decode (lib.encode raw) ≡ some raw
    pub reads : (text : List ℕ) → lib.from_utf8 (lib.utf8 text) ≡ some text

  lookup-get :
      (v w : Vault) (key other value : List ℕ)
      → IsReadable
      → lookup w.payload.entries other ≡ (
          if same_text key other
          then some (lib.encode (lib.utf8 value))
          else lookup v.payload.entries other)
      → get lib w other ≡ (if same_text key other then ok value else get lib v other)
  lookup-get v w key other value r h = elim (Bool-cases (same_text key other)) [
    | inl same ↦
        let found : lookup w.payload.entries other ≡ some (lib.encode (lib.utf8 value)) =
          rw same at h in
        rw (same, found, r.decodes (lib.utf8 value), r.reads value) refl
    | inr differs ↦
        let found : lookup w.payload.entries other ≡ lookup v.payload.entries other =
          rw differs at h in
        rw (differs, found) refl
  ]

  -- Where a `set` reports success, the file opens with the passphrase to a vault that reads the new value
  -- under its key and what was there under every other; where it reports an error, the file is as it was.
  -- The vault has its key from the passphrase, the nonce has 12 bytes, and what other crates encrypt,
  -- encode and write as text can be read back.
  pub set-reopened :
      (faults : Faults) (v : Vault) (passphrase nonce key value : List ℕ) (file : Option (List ℕ))
      → IsReversible lib
      → IsReadable
      → IsKeyed lib passphrase v
      → length nonce ≡ 12
      → let done = set lib faults nonce v key value file in
        ((done.0 ≡ ok tt)
          × ((u : Vault) × (open_vault lib v.path passphrase (read_file done.2) ≡ ok u)
              × ((other : List ℕ)
                  → get lib u other ≡ (if same_text key other then ok value else get lib v other))))
        ⊎ ((done.0 ≢ ok tt) × (done.2 ≡ file))
  unfolding set
  set-reopened faults v passphrase nonce key value file r readable keyed n =
      let w = with_entries lib v (insert v.payload.entries key (lib.encode (lib.utf8 value))) in
      let same_key : IsKeyed lib passphrase w = record {
        salt = keyed.salt;
        salt_len = keyed.salt_len;
        salted = keyed.salted;
        derived = keyed.derived;
      } in
      elim (save_changed-Stored faults w passphrase nonce file r same_key n) [
        | inr kept ↦ inr kept
        | inl stored ↦ inl (
          stored.0,
          (
            stored.1.0,
            stored.1.1,
            λ other. lookup-get v stored.1.0 key other value readable (
                ap (λ p. lookup p.entries other) stored.1.2
                ∙ lookup-insert v.payload.entries key (lib.encode (lib.utf8 value)) other),
          ),
        )
      ]
