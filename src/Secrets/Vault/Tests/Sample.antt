-- ===== src/Secrets/Vault/Tests/Sample.antt =====
-- Concrete functions in the place of the other crates, and a vault.
use remote_desktop_tool.Prelude.{
  ℕ, ◌≡◌, refl, sym, ap, arith, List, [], ◌∷◌, ◌++◌, Option, none, some, replicate,
}
use remote_desktop_tool.Secrets.Entries.{Entries}
use remote_desktop_tool.Secrets.Vault.{PayloadMap, Vault, Library, build_header}
use remote_desktop_tool.Secrets.Vault.Format.{IsKeyed, IsReversible}
use remote_desktop_tool.Secrets.Vault.Laws.{IsReadable}

-- A payload without entries, or with one entry whose key has one character.
abbrev to_numbers : ℕ → Entries → Option (List ℕ)
to_numbers version [] = some (version ∷ [])
to_numbers version ((c ∷ [], value) ∷ []) = some (version ∷ c ∷ value)
to_numbers version _ = none

abbrev from_numbers : List ℕ → Option PayloadMap
from_numbers [] = none
from_numbers (version ∷ []) = some (record { version = version; entries = [] })
from_numbers (version ∷ c ∷ value) =
    some (record { version = version; entries = (c ∷ [], value) ∷ [] })

abbrev pub lib : Library
lib = record {
  kdf = λ passphrase salt. some (passphrase ++ salt);
  encrypt = λ key nonce aad text. some text;
  decrypt = λ key nonce aad cipher. some cipher;
  to_json = λ payload. to_numbers payload.version payload.entries;
  from_json = from_numbers;
  encode = λ raw. raw;
  decode = λ text. some text;
  utf8 = λ text. text;
  from_utf8 = λ raw. some raw;
}

abbrev or_nil : Option (List ℕ) → List ℕ
or_nil none = []
or_nil (some text) = text

reads_back :
    (version : ℕ) (entries : Entries) (text : List ℕ)
    → to_numbers version entries ≡ some text
    → from_numbers text ≡ some (record { version = version; entries = entries })
reads_back version [] text e = ap (λ t. from_numbers (or_nil t)) (sym e)
reads_back version (([], value) ∷ entries) text e = absurd (ground arith)
reads_back version ((c ∷ d ∷ key, value) ∷ entries) text e = absurd (ground arith)
reads_back version ((c ∷ [], value) ∷ next ∷ entries) text e = absurd (ground arith)
reads_back version ((c ∷ [], value) ∷ []) text e = ap (λ t. from_numbers (or_nil t)) (sym e)

pub lib-IsReversible : IsReversible lib
lib-IsReversible = record {
  decrypts = λ key nonce aad text cipher e. sym e;
  parses = λ payload text e. reads_back payload.version payload.entries text e;
}

pub lib-IsReadable : IsReadable lib
lib-IsReadable = record { decodes = λ raw. refl; reads = λ text. refl }

abbrev pub salt : List ℕ
salt = replicate 16 7

abbrev pub nonce : List ℕ
nonce = replicate 12 9

abbrev pub vault : Vault
vault = record {
  path = b'f' ∷ [];
  key = b'p' ∷ salt;
  header = build_header salt;
  payload = record { version = 1; entries = [] };
}

pub vault-IsKeyed : IsKeyed lib (b'p' ∷ []) vault
unfolding build_header
vault-IsKeyed = record { salt = salt; salt_len = refl; salted = refl; derived = refl }
