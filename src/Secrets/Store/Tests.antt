-- ===== src/Secrets/Store/Tests.antt =====
-- The store of secrets at concrete inputs.
use remote_desktop_tool.Prelude.{ℕ, ◌≡◌, refl, false, List, [], ◌∷◌, none, if◌then◌else◌}
use remote_desktop_tool.Text.{same_text}
use remote_desktop_tool.Types.Errors.{ErrorCode, ok, err}
use remote_desktop_tool.Types.Options.{encrypted_vault, StoredSecret}
use remote_desktop_tool.Secrets.Vault.{no_faults, get, set, saved_bytes, replace_file}
use remote_desktop_tool.Secrets.Vault.Tests.Sample.{
  lib, lib-IsReversible, lib-IsReadable, nonce, vault, vault-IsKeyed,
}
use remote_desktop_tool.Secrets.Store.{closed, Keystore, SecretStore, unlock, lock, store_in, read}
use remote_desktop_tool.Secrets.Store.Laws.{holding, store_in-unlock-read}

abbrev os : Keystore
os = record {
  State = Unit;
  available = false;
  set_item = λ items key value. (err ErrorCode.keystore, items);
  get_item = λ items key. err ErrorCode.keystore;
  delete_item = λ items key. (err ErrorCode.keystore, items);
}

abbrev secrets : SecretStore lib os
secrets = record {
  vault = closed [];
  vault_path = [];
  default_backend = encrypted_vault;
  file = none;
  keystore = tt;
}

abbrev reference : StoredSecret
reference = record { backend = encrypted_vault; key = b'k' ∷ [] }

stored_here :
    (store_in lib os no_faults nonce
      (holding lib os secrets vault)
      encrypted_vault
      (b'k' ∷ [])
      (b'v' ∷ [])).0
    ≡ ok reference
unfolding store_in set saved_bytes replace_file
stored_here = refl

store_in-unlock-read_example :
    let stored =
      store_in lib os no_faults nonce
        (holding lib os secrets vault)
        encrypted_vault
        (b'k' ∷ [])
        (b'v' ∷ []) in
    let again = unlock lib os (lock lib os stored.1) (b'p' ∷ []) in
    (again.0 ≡ ok tt)
    × ((other : List ℕ)
        → read lib os again.1 (record { backend = encrypted_vault; key = other })
          ≡ (if same_text (b'k' ∷ []) other then ok (b'v' ∷ []) else get lib vault other))
store_in-unlock-read_example =
    store_in-unlock-read lib os secrets vault no_faults (b'p' ∷ []) nonce (b'k' ∷ []) (b'v' ∷ [])
      reference lib-IsReversible lib-IsReadable vault-IsKeyed refl stored_here
