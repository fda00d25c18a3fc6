-- ===== src/Secrets/Vault.antt =====
-- The encrypted vault of crates/rdt-secrets/src/vault.rs. A text and a file are lists of characters and of
-- bytes. The messages of errors are left out.
pub mod Format
pub mod Laws
pub mod Passphrase
pub mod Tests
use remote_desktop_tool.Prelude.{
  ℕ, ◌+◌, ◌*◌, ◌/◌, ◌%◌, ◌^◌, Bool, true, false, List, [], ◌∷◌, ◌++◌, Option, none, some, ltb,
  if◌then◌else◌, take, drop, length, replicate,
}
use remote_desktop_tool.Text.{is_nil, same_text}
use remote_desktop_tool.Types.Errors.{ErrorCode, RdtResult, ok, err, and_then}
use remote_desktop_tool.Secrets.Entries.{Entries, lookup, insert, remove, keys}

-- "RDTVLT1" and a zero byte.
abbrev pub magic : List ℕ
magic = b'R' ∷ b'D' ∷ b'T' ∷ b'V' ∷ b'L' ∷ b'T' ∷ b'1' ∷ 0 ∷ []

abbrev pub memory_cost : ℕ
memory_cost = 64 * 1024

abbrev pub time_cost : ℕ
time_cost = 3

abbrev pub parallelism : ℕ
parallelism = 1

abbrev pub nonce_len : ℕ
nonce_len = 12

abbrev pub header_len : ℕ
header_len = 48

-- `u32::to_le_bytes`.
abbrev pub le_bytes : ℕ → List ℕ
le_bytes n = n % 256 ∷ n / 256 % 256 ∷ n / 65536 % 256 ∷ n / 16777216 % 256 ∷ []

unfoldable pub build_header : List ℕ → List ℕ
build_header salt =
    magic
    ++ le_bytes memory_cost
    ++ le_bytes time_cost
    ++ le_bytes parallelism
    ++ salt
    ++ replicate nonce_len 0

pub record PayloadMap : Type 0 where
  pub version : ℕ
  pub entries : Entries

pub record Vault : Type 0 where
  pub path : List ℕ
  pub key : List ℕ
  pub header : List ℕ
  pub payload : PayloadMap

-- What other crates do: Argon2id with the parameters above, of a passphrase and a salt; ChaCha20-Poly1305
-- with a key, a nonce, the additional data and a text; JSON; base64 and UTF-8.
pub record Library : Type 0 where
  pub kdf : List ℕ → List ℕ → Option (List ℕ)
  pub encrypt : List ℕ → List ℕ → List ℕ → List ℕ → Option (List ℕ)
  pub decrypt : List ℕ → List ℕ → List ℕ → List ℕ → Option (List ℕ)
  pub to_json : PayloadMap → Option (List ℕ)
  pub from_json : List ℕ → Option PayloadMap
  pub encode : List ℕ → List ℕ
  pub decode : List ℕ → Option (List ℕ)
  pub utf8 : List ℕ → List ℕ
  pub from_utf8 : List ℕ → Option (List ℕ)

-- The errors of the calls of the operating system, where they fail.
pub record Faults : Type 0 where
  pub create_dir : Option ErrorCode
  pub create : Option ErrorCode
  pub write : Option ErrorCode
  pub sync : Option ErrorCode
  pub restrict : Option ErrorCode
  pub rename : Option ErrorCode

abbrev pub no_faults : Faults
no_faults = record {
  create_dir = none;
  create = none;
  write = none;
  sync = none;
  restrict = none;
  rename = none;
}

abbrev pub or_error {ℓ} : {A : Type ℓ} → ErrorCode → Option A → RdtResult A
or_error code none = err code
or_error code (some a) = ok a

-- A call of the operating system with `?`, before what follows it.
abbrev pub attempt :
    Option ErrorCode
    → RdtResult {0} Unit × Option (List ℕ)
    → Option (List ℕ)
    → RdtResult {0} Unit × Option (List ℕ)
attempt none rest file = rest
attempt (some code) rest file = (err code, file)

-- The calls that put the bytes in the place of the file, by way of a temporary file.
unfoldable pub replace_file :
    Faults → List ℕ → Option (List ℕ) → RdtResult {0} Unit × Option (List ℕ)
replace_file faults bytes file =
    attempt faults.create_dir
      (attempt faults.create
        (attempt faults.write
          (attempt faults.sync
            (attempt faults.restrict (attempt faults.rename (ok tt, some bytes) file) file) file)
          file)
        file)
      file

module _ (lib : Library) where
  abbrev pub derive_key : List ℕ → List ℕ → RdtResult (List ℕ)
  derive_key passphrase salt = or_error ErrorCode.crypto (lib.kdf passphrase salt)

  abbrev pub saved_header : Vault → List ℕ → List ℕ
  saved_header v nonce = take 36 v.header ++ nonce

  -- The bytes that `save` writes.
  unfoldable pub saved_bytes : Vault → List ℕ → RdtResult (List ℕ)
  saved_bytes v nonce = and_then (or_error ErrorCode.vault (lib.to_json v.payload)) (λ plaintext.
      and_then (or_error ErrorCode.vault (lib.encrypt v.key nonce (saved_header v nonce) plaintext))
        (λ ciphertext. ok (saved_header v nonce ++ ciphertext)))

  abbrev pub write_bytes :
      Faults → RdtResult (List ℕ) → Option (List ℕ) → RdtResult {0} Unit × Option (List ℕ)
  write_bytes faults (err code) file = (err code, file)
  write_bytes faults (ok bytes) file = replace_file faults bytes file

  -- `save` with the random nonce; the bytes of the file go in and out.
  abbrev pub save : Faults → List ℕ → Vault → Option (List ℕ) → RdtResult {0} Unit × Option (List ℕ)
  save faults nonce v file = write_bytes faults (saved_bytes v nonce) file

  -- `create` once the key is derived and the file written.
  abbrev pub created :
      Vault → RdtResult {0} Unit × Option (List ℕ) → RdtResult Vault × Option (List ℕ)
  created v (err code, file) = (err code, file)
  created v (ok u, file) = (ok v, file)

  abbrev pub create_keyed :
      Faults
      → List ℕ
      → List ℕ
      → List ℕ
      → RdtResult (List ℕ)
      → Option (List ℕ)
      → RdtResult Vault × Option (List ℕ)
  create_keyed faults salt nonce path (err code) file = (err code, file)
  create_keyed faults salt nonce path (ok key) file =
      let v : Vault = record {
        path = path;
        key = key;
        header = build_header salt;
        payload = record { version = 1; entries = [] };
      } in
      created v (save faults nonce v file)

  -- `create` with the random salt and nonce.
  unfoldable pub create :
      Faults
      → List ℕ
      → List ℕ
      → List ℕ
      → List ℕ
      → Option (List ℕ)
      → RdtResult Vault × Option (List ℕ)
  create faults salt nonce path passphrase file =
      let made = create_keyed faults salt nonce path (derive_key passphrase salt) file in
      if is_nil passphrase then (err ErrorCode.vault, file) else made

  -- `open` of a file with a header: with the key, and with the payload.
  abbrev pub open_payload : List ℕ → List ℕ → List ℕ → List ℕ → RdtResult Vault
  open_payload path bytes key header =
      and_then
        (or_error ErrorCode.vault (lib.decrypt key (drop 36 header) header (drop header_len bytes)))
        (λ plaintext.
          and_then (or_error ErrorCode.vault (lib.from_json plaintext))
            (λ payload. ok (record { path = path; key = key; header = header; payload = payload })))

  abbrev pub open_bytes : List ℕ → List ℕ → List ℕ → RdtResult Vault
  open_bytes path passphrase bytes =
      let header = take header_len bytes in
      let opened =
        and_then (derive_key passphrase (take 16 (drop 20 header)))
          (λ key. open_payload path bytes key header) in
      if ltb (length bytes) header_len
      then err ErrorCode.vault
      else if same_text (take 8 bytes) magic
      then opened
      else err ErrorCode.vault

  -- `open`, from what reading the file gives.
  unfoldable pub open_vault : List ℕ → List ℕ → RdtResult (List ℕ) → RdtResult Vault
  open_vault path passphrase reading = and_then reading (open_bytes path passphrase)

  -- The value of an entry.
  abbrev pub secret_of : List ℕ → RdtResult (List ℕ)
  secret_of encoded =
      and_then (or_error ErrorCode.vault (lib.decode encoded))
        (λ raw. or_error ErrorCode.vault (lib.from_utf8 raw))

  abbrev pub get : Vault → List ℕ → RdtResult (List ℕ)
  get v key = and_then (or_error ErrorCode.vault (lookup v.payload.entries key)) secret_of

  -- `entries`.
  abbrev pub secrets_of : Entries → RdtResult Entries
  secrets_of [] = ok []
  secrets_of (e ∷ entries) =
      let rest = secrets_of entries in
      and_then (secret_of e.1) (λ text. and_then rest (λ others. ok ((e.0, text) ∷ others)))

  abbrev pub with_entries : Vault → Entries → Vault
  with_entries v entries = record v { payload = record v.payload { entries = entries } }

  -- The vault in memory with the outcome of a save.
  abbrev pub Changed : Type 0
  Changed = RdtResult {0} Unit × Vault × Option (List ℕ)

  abbrev pub save_changed : Faults → List ℕ → Vault → Option (List ℕ) → Changed
  save_changed faults nonce v file = let done = save faults nonce v file in (done.0, v, done.1)

  unfoldable pub set : Faults → List ℕ → Vault → List ℕ → List ℕ → Option (List ℕ) → Changed
  set faults nonce v key value file =
      save_changed faults nonce
        (with_entries v (insert v.payload.entries key (lib.encode (lib.utf8 value)))) file

  abbrev pub delete_found :
      Option (List ℕ) → Faults → List ℕ → Vault → List ℕ → Option (List ℕ) → Changed
  delete_found none faults nonce v key file = (err ErrorCode.vault, v, file)
  delete_found (some value) faults nonce v key file =
      save_changed faults nonce (with_entries v (remove v.payload.entries key)) file

  unfoldable pub delete : Faults → List ℕ → Vault → List ℕ → Option (List ℕ) → Changed
  delete faults nonce v key file =
      delete_found (lookup v.payload.entries key) faults nonce v key file

  abbrev pub change_keyed :
      Faults → List ℕ → List ℕ → Vault → RdtResult (List ℕ) → Option (List ℕ) → Changed
  change_keyed faults salt nonce v (err code) file = (err code, v, file)
  change_keyed faults salt nonce v (ok key) file =
      save_changed faults nonce (record v { key = key; header = build_header salt }) file

  -- `change_passphrase` with the random salt and nonce.
  unfoldable pub change_passphrase :
      Faults → List ℕ → List ℕ → Vault → List ℕ → Option (List ℕ) → Changed
  change_passphrase faults salt nonce v passphrase file =
      let changed = change_keyed faults salt nonce v (derive_key passphrase salt) file in
      if is_nil passphrase then (err ErrorCode.vault, v, file) else changed
