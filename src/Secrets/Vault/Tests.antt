-- ===== src/Secrets/Vault/Tests.antt =====
-- The vault at concrete inputs.
pub mod Sample
use remote_desktop_tool.Prelude.{
  ℕ, ◌≡◌, ◌≢◌, ◌⊎◌, refl, true, false, List, [], ◌∷◌, Option, none, some, if◌then◌else◌, length,
  replicate,
}
use remote_desktop_tool.Text.{same_text}
use remote_desktop_tool.Types.Errors.{ErrorCode, RdtResult, ok, err}
use remote_desktop_tool.Secrets.Vault.{
  Vault, Faults, no_faults, build_header, open_vault, get, set, change_passphrase, create,
  replace_file, saved_bytes,
}
use remote_desktop_tool.Secrets.Vault.Format.{IsKeyed}
use remote_desktop_tool.Secrets.Vault.Laws.{read_file, Stored, set-reopened}
use remote_desktop_tool.Secrets.Vault.Passphrase.{change_passphrase-reopened, change_passphrase-set}
use remote_desktop_tool.Secrets.Vault.Tests.Sample.{
  lib, lib-IsReversible, lib-IsReadable, salt, nonce, vault, vault-IsKeyed,
}

set-reopened_example :
    let done = set lib no_faults nonce vault (b'k' ∷ []) (b'v' ∷ []) none in
    ((done.0 ≡ ok tt)
      × ((u : Vault) × (open_vault lib vault.path (b'p' ∷ []) (read_file done.2) ≡ ok u)
          × ((other : List ℕ)
              → get lib u other
                ≡ (if same_text (b'k' ∷ []) other then ok (b'v' ∷ []) else get lib vault other))))
    ⊎ ((done.0 ≢ ok tt) × (done.2 ≡ none))
set-reopened_example =
    set-reopened lib no_faults vault (b'p' ∷ []) nonce (b'k' ∷ []) (b'v' ∷ []) none lib-IsReversible
      lib-IsReadable vault-IsKeyed refl

set_succeeds : (set lib no_faults nonce vault (b'k' ∷ []) (b'v' ∷ []) none).0 ≡ ok tt
unfolding set saved_bytes replace_file
set_succeeds = refl

change_passphrase-reopened_example :
    let done = change_passphrase lib no_faults salt nonce vault (b'q' ∷ []) none in
    ((done.0 ≡ ok tt)
      × ((u : Vault) × (open_vault lib vault.path (b'q' ∷ []) (read_file done.2) ≡ ok u)
          × (u.payload ≡ vault.payload)))
    ⊎ ((done.0 ≢ ok tt) × (done.2 ≡ none))
change_passphrase-reopened_example =
    change_passphrase-reopened lib no_faults vault (b'q' ∷ []) salt nonce (b'q' ∷ salt) none
      lib-IsReversible refl refl refl refl

-- The rename fails.
abbrev stuck : Faults
stuck = record no_faults { rename = some ErrorCode.permission }

change_passphrase-set_example :
    let changed = change_passphrase lib stuck salt nonce vault (b'q' ∷ []) none in
    Stored lib
      (b'q' ∷ [])
      changed.2
      (set lib no_faults nonce changed.1 (b'k' ∷ []) (b'v' ∷ []) changed.2)
change_passphrase-set_example =
    change_passphrase-set lib stuck no_faults vault (b'q' ∷ []) salt nonce (b'q' ∷ salt) nonce
      (b'k' ∷ []) (b'v' ∷ []) none lib-IsReversible refl refl refl refl

change_reports :
    (change_passphrase lib stuck salt nonce vault (b'q' ∷ []) none).0 ≡ err ErrorCode.permission
unfolding change_passphrase saved_bytes replace_file
change_reports = refl
