-- ===== src/Ssh/KnownHosts/Files/Laws.antt =====
-- What the next connection reads of the database that crates/rdt-ssh/src/known_hosts.rs has saved.
use remote_desktop_tool.Prelude.{
  ℕ, ◌+◌, ◌≡◌, ◌≤◌, refl, ap, ◌∙◌, arith, true, ◌&&◌, List, [], ◌∷◌, ◌++◌, Option, none, some, All,
}
use remote_desktop_tool.Types.Errors.{ok}
use remote_desktop_tool.Ssh.KnownHosts.Pattern.{Library}
use remote_desktop_tool.Ssh.KnownHosts.Pattern.Laws.{IsPlainHost}
use remote_desktop_tool.Ssh.KnownHosts.Entry.{KnownHostEntry, matches}
use remote_desktop_tool.Ssh.KnownHosts.{trusted, check, without_stale, accepted, accept}
use remote_desktop_tool.Ssh.KnownHosts.Verdict.{check-verdict}
use remote_desktop_tool.Ssh.KnownHosts.Accept.{
  IsNotRevoked, accepted-matches, without_stale-All, first-trusted,
}
use remote_desktop_tool.Ssh.KnownHosts.Line.Database.{numbered}
use remote_desktop_tool.Ssh.KnownHosts.Files.{SaveFaults, write_whole, save_text}

pub write_whole-ok :
    (faults : SaveFaults) (n : Option ℕ) (text : List ℕ)
    → (write_whole faults n text).0 ≡ ok tt
    → (write_whole faults n text).1 ≡ some text
write_whole-ok faults (some n) text h = absurd (ground arith)
write_whole-ok faults none text h = ground arith

-- A save that succeeds has put the whole text in the file.
pub save_text-ok :
    (faults : SaveFaults) (text path : List ℕ) (file : Option (List ℕ))
    → (save_text faults text (some path) file).0 ≡ ok tt
    → (save_text faults text (some path) file).1 ≡ some text
save_text-ok faults text path file h = ground (arith, write_whole-ok faults faults.write text)

module _ (lib : Library) (host : List ℕ) (port : ℕ) (key_type key : List ℕ) where
  matches-line :
      (e : KnownHostEntry) (n : ℕ)
      → matches lib (record e { line = n }) host port ≡ matches lib e host port
  unfolding matches
  matches-line e n = refl

  numbered-IsNotRevoked :
      (entries : List KnownHostEntry) (n : ℕ)
      → All (IsNotRevoked lib host port key) entries
      → All (IsNotRevoked lib host port key) (numbered n entries)
  numbered-IsNotRevoked [] n h = tt
  numbered-IsNotRevoked (e ∷ entries) n h = (
    (λ revoked. ap (λ b. b && lib.ct_eq e.key key) (matches-line e n) ∙ h.0 revoked),
    numbered-IsNotRevoked entries (n + 1) h.1,
  )

  numbered-append :
      (entries : List KnownHostEntry) (last : KnownHostEntry) (n : ℕ)
      → (k : ℕ) × (numbered n (entries ++ (last ∷ []))
          ≡ numbered n entries ++ (record last { line = k } ∷ []))
  numbered-append [] last n = (n, refl)
  numbered-append (e ∷ entries) last n =
      let (k, same) = numbered-append entries last (n + 1) in
      (k, ap (λ rest. record e { line = n } ∷ rest) same)

  -- The entry of an accepted key is found in whatever lines the entries stand.
  pub numbered-check :
      (entries : List KnownHostEntry) (comment : List ℕ) (n : ℕ)
      → IsPlainHost lib host
      → port ≤ 65535
      → lib.ct_eq key key ≡ true
      → All (IsNotRevoked lib host port key) entries
      → check lib
          (numbered n (accept lib entries host port key_type key comment))
          host
          port
          key_type
          key
        ≡ trusted
  unfolding accept
  numbered-check entries comment n plain le same clean =
      let kept = without_stale lib entries host port key_type in
      let last = accepted lib host port key_type key comment in
      let (k, split) = numbered-append kept last n in
      let found =
        matches-line last k ∙ accepted-matches lib host port key_type key comment plain le in
      let kept_clean = numbered-IsNotRevoked kept n (
        without_stale-All lib host port key_type key (IsNotRevoked lib host port key) entries
          clean) in
      ap (λ es. check lib es host port key_type key) split
      ∙ check-verdict lib host port key_type key
          (numbered n kept ++ (record last { line = k } ∷ []))
      ∙ first-trusted lib host port key_type key (numbered n kept) (record last { line = k })
          kept_clean refl (rw (found, same) refl) _
