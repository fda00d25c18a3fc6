-- ===== src/Secrets/Vault/Format.antt =====
-- The file of a vault: what a save writes can be opened.
use remote_desktop_tool.Prelude.{
  ℕ, ◌≡◌, zero, suc, length-append, refl, sym, ap, ◌∙◌, arith, true, false, List, [], ◌∷◌, ◌++◌,
  Option, none, some, ltb, take, drop, length,
}
use remote_desktop_tool.Text.{same_text}
use remote_desktop_tool.Types.Errors.{ErrorCode, RdtResult, ok, err, and_then}
use remote_desktop_tool.Secrets.Vault.{
  magic, le_bytes, memory_cost, time_cost, parallelism, PayloadMap, Vault, Library, or_error,
  saved_header, saved_bytes, open_bytes, open_vault,
}

pub take-left : (n : ℕ) (xs ys : List ℕ) → length xs ≡ n → take n (xs ++ ys) ≡ xs
take-left zero [] ys h = refl
take-left zero (x ∷ xs) ys h = absurd (omega arith)
take-left (suc n) [] ys h = absurd (omega arith)
take-left (suc n) (x ∷ xs) ys h = ap (λ t. x ∷ t) (take-left n xs ys (omega arith))

drop-left : (n : ℕ) (xs ys : List ℕ) → length xs ≡ n → drop n (xs ++ ys) ≡ ys
drop-left zero [] ys h = refl
drop-left zero (x ∷ xs) ys h = absurd (omega arith)
drop-left (suc n) [] ys h = absurd (omega arith)
drop-left (suc n) (x ∷ xs) ys h = drop-left n xs ys (omega arith)

-- The header up to the salt.
abbrev pub prefix : List ℕ
prefix = magic ++ le_bytes memory_cost ++ le_bytes time_cost ++ le_bytes parallelism

abbrev pub full_header : List ℕ → List ℕ → List ℕ
full_header salt nonce = prefix ++ salt ++ nonce

length-full_header :
    (salt nonce : List ℕ)
    → length salt ≡ 16
    → length nonce ≡ 12
    → length (full_header salt nonce) ≡ 48
length-full_header salt nonce s n = omega (arith, length-append salt nonce)

module _ (lib : Library) where
  -- The key of the vault is that of the passphrase and of the salt in its header.
  pub record IsKeyed (passphrase : List ℕ) (v : Vault) : Type 0 where
    pub salt : List ℕ
    pub salt_len : length salt ≡ 16
    pub salted : take 36 v.header ≡ prefix ++ salt
    pub derived : lib.kdf passphrase salt ≡ some v.key

  -- What a text is encrypted to can be decrypted, and what a payload is encoded to can be decoded.
  pub record IsReversible : Type 0 where
    pub decrypts :
        (key nonce aad text cipher : List ℕ)
        → lib.encrypt key nonce aad text ≡ some cipher
        → lib.decrypt key nonce aad cipher ≡ some text
    pub parses :
        (payload : PayloadMap) (text : List ℕ)
        → lib.to_json payload ≡ some text
        → lib.from_json text ≡ some payload

  -- What `save` wrote, with the texts between.
  pub record IsWritten (v : Vault) (nonce bytes : List ℕ) : Type 0 where
    pub plain : List ℕ
    pub cipher : List ℕ
    pub encoded : lib.to_json v.payload ≡ some plain
    pub encrypted : lib.encrypt v.key nonce (saved_header lib v nonce) plain ≡ some cipher
    pub whole : bytes ≡ saved_header lib v nonce ++ cipher

  encrypted-IsWritten :
      (v : Vault) (nonce bytes plain : List ℕ) (found : Option (List ℕ))
      → lib.to_json v.payload ≡ some plain
      → lib.encrypt v.key nonce (saved_header lib v nonce) plain ≡ found
      → and_then
          (or_error ErrorCode.vault found)
          (λ cipher. ok (saved_header lib v nonce ++ cipher))
        ≡ ok bytes
      → IsWritten v nonce bytes
  encrypted-IsWritten v nonce bytes plain none j e h = absurd (ground arith)
  encrypted-IsWritten v nonce bytes plain (some cipher) j e h = record {
    plain = plain;
    cipher = cipher;
    encoded = j;
    encrypted = e;
    whole = sym (ok-inj h);
  }
    where
      value_or : RdtResult (List ℕ) → List ℕ
      value_or (ok text) = text
      value_or (err code) = []

      ok-inj : {s t : List ℕ} → ok s ≡ ok t → s ≡ t
      ok-inj p = ap value_or p

  encoded-IsWritten :
      (v : Vault) (nonce bytes : List ℕ) (found : Option (List ℕ))
      → lib.to_json v.payload ≡ found
      → and_then (or_error ErrorCode.vault found) (λ plain.
        and_then
          (or_error ErrorCode.vault (lib.encrypt v.key nonce (saved_header lib v nonce) plain))
          (λ cipher. ok (saved_header lib v nonce ++ cipher)))
        ≡ ok bytes
      → IsWritten v nonce bytes
  encoded-IsWritten v nonce bytes none j h = absurd (ground arith)
  encoded-IsWritten v nonce bytes (some plain) j h =
      encrypted-IsWritten v nonce bytes plain
        (lib.encrypt v.key nonce (saved_header lib v nonce) plain) j refl h

  saved_bytes-IsWritten :
      (v : Vault) (nonce bytes : List ℕ)
      → saved_bytes lib v nonce ≡ ok bytes
      → IsWritten v nonce bytes
  unfolding saved_bytes
  saved_bytes-IsWritten v nonce bytes h =
      encoded-IsWritten v nonce bytes (lib.to_json v.payload) refl h

  open_parts :
      (path passphrase bytes header salt nonce key plain cipher : List ℕ) (payload : PayloadMap)
      → ltb (length bytes) 48 ≡ false
      → same_text (take 8 bytes) magic ≡ true
      → take 48 bytes ≡ header
      → drop 48 bytes ≡ cipher
      → take 16 (drop 20 header) ≡ salt
      → drop 36 header ≡ nonce
      → lib.kdf passphrase salt ≡ some key
      → lib.decrypt key nonce header cipher ≡ some plain
      → lib.from_json plain ≡ some payload
      → open_bytes lib path passphrase bytes
        ≡ ok (record { path = path; key = key; header = header; payload = payload })
  open_parts path passphrase bytes header salt nonce key plain cipher payload long marked h c s n k
        d j =
      rw (long, marked, h, c, s, n, k, d, j) refl

  open_full :
      (path passphrase salt nonce key plain cipher : List ℕ) (payload : PayloadMap)
      → length salt ≡ 16
      → length nonce ≡ 12
      → lib.kdf passphrase salt ≡ some key
      → lib.decrypt key nonce (full_header salt nonce) cipher ≡ some plain
      → lib.from_json plain ≡ some payload
      → open_bytes lib path passphrase (full_header salt nonce ++ cipher)
        ≡ ok (record { path = path; key = key; header = full_header salt nonce; payload = payload })
  open_full path passphrase salt nonce key plain cipher payload s n k d j =
      let header = full_header salt nonce in
      let whole = length-full_header salt nonce s n in
      open_parts path passphrase (header ++ cipher) header salt nonce key plain cipher payload
        (ground (arith, whole, length-append header cipher)) refl (take-left 48 header cipher whole)
        (drop-left 48 header cipher whole) (take-left 16 salt nonce s) (drop-left 16 salt nonce s) k
        d j

  -- What `save` writes can be opened with the passphrase of the vault, and gives the vault back with the
  -- new nonce in its header, where encryption and encoding can be undone.
  pub saved_bytes-open_vault :
      (v : Vault) (passphrase nonce bytes : List ℕ)
      → IsReversible
      → (keyed : IsKeyed passphrase v) → length nonce ≡ 12
      → saved_bytes lib v nonce ≡ ok bytes
      → open_vault lib v.path passphrase (ok bytes)
        ≡ ok (record v { header = full_header keyed.salt nonce })
  unfolding open_vault
  saved_bytes-open_vault v passphrase nonce bytes r keyed n h =
      let w = saved_bytes-IsWritten v nonce bytes h in
      let header : saved_header lib v nonce ≡ full_header keyed.salt nonce =
        ap (λ t. t ++ nonce) keyed.salted in
      let bytes_are : bytes ≡ full_header keyed.salt nonce ++ w.cipher =
        w.whole ∙ ap (λ t. t ++ w.cipher) header in
      let encrypted : lib.encrypt v.key nonce (full_header keyed.salt nonce) w.plain
          ≡ some w.cipher =
        ap (λ t. lib.encrypt v.key nonce t w.plain) (sym header) ∙ w.encrypted in
      ap (open_bytes lib v.path passphrase) bytes_are
      ∙ open_full v.path passphrase keyed.salt nonce v.key w.plain w.cipher v.payload keyed.salt_len
          n keyed.derived
          (r.decrypts v.key nonce (full_header keyed.salt nonce) w.plain w.cipher encrypted)
          (r.parses v.payload w.plain w.encoded)
