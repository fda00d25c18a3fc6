-- ===== src/Ssh/KnownHosts/Accept.antt =====
-- What `accept` of crates/rdt-ssh/src/known_hosts.rs does to later checks.
use remote_desktop_tool.Prelude.{
  ℕ, ◌≡◌, ◌≤◌, ◌≢◌, refl, sym, ◌∙◌, inl, inr, Bool, true, false, ◌&&◌, Bool-cases, List, [], ◌∷◌,
  ◌++◌, All,
}
use remote_desktop_tool.Text.{same_text}
use remote_desktop_tool.Ssh.KnownHosts.Pattern.{Library}
use remote_desktop_tool.Ssh.KnownHosts.Pattern.Laws.{
  IsPlainHost, recorded_host-matches, recorded_host-unmarked,
}
use remote_desktop_tool.Ssh.KnownHosts.Entry.{
  Marker, KnownHostEntry, negation, matches_from, matches,
}
use remote_desktop_tool.Ssh.KnownHosts.{HostKeyStatus, trusted, is_plain, without_stale, accepted}
use remote_desktop_tool.Ssh.KnownHosts.Verdict.{first, holds_key, by_marker, by_key}

false≢true : false ≢ true
false≢true e = cc

first_two : (a b c : Bool) → (a && (b && c)) ≡ true → (a && b) ≡ true
first_two true true c h = refl
first_two true false c h = h
first_two false b c h = h

pub accepted-matches :
    (lib : Library) (host : List ℕ) (port : ℕ) (key_type key comment : List ℕ)
    → IsPlainHost lib host
    → port ≤ 65535
    → matches lib (accepted lib host port key_type key comment) host port ≡ true
unfolding matches matches_from negation
accepted-matches lib host port key_type key comment plain le =
    rw (recorded_host-unmarked lib host plain port)
      (rw (recorded_host-matches lib host plain port le) refl)

-- The key stands in no revoked entry for the host.
abbrev pub IsNotRevoked : Library → List ℕ → ℕ → List ℕ → KnownHostEntry → Type 0
IsNotRevoked lib host port key e =
    e.marker ≡ Marker.revoked → (matches lib e host port && lib.ct_eq e.key key) ≡ false

module _ (lib : Library) (host : List ℕ) (port : ℕ) (key_type key : List ℕ) where
  pub without_stale-All :
      (P : KnownHostEntry → Type 0) (entries : List KnownHostEntry)
      → All P entries
      → All P (without_stale lib entries host port key_type)
  unfolding without_stale
  without_stale-All P [] h = tt
  without_stale-All P (e ∷ entries) h =
      elim (Bool-cases
        (is_plain lib e.marker && same_text e.key_type key_type && matches lib e host port)) [
          | inl stale ↦ rw stale (without_stale-All P entries h.1)
          | inr kept ↦ rw kept (h.0, without_stale-All P entries h.1)
        ]

  not_revoked-by_marker :
      (e : KnownHostEntry) (m : Marker)
      → e.marker ≡ m
      → IsNotRevoked lib host port key e
      → holds_key lib host port key_type key e ≡ true
      → by_marker lib host port key_type key e.marker ≡ trusted
  not_revoked-by_marker e Marker.plain em clean h = rw em refl
  not_revoked-by_marker e Marker.cert_authority em clean h = rw em refl
  not_revoked-by_marker e Marker.revoked em clean h =
      let refused = clean em in
      let held = first_two (matches lib e host port) (lib.ct_eq e.key key) _ h in
      absurd (false≢true (sym refused ∙ held))

  pub first-trusted :
      (entries : List KnownHostEntry) (last : KnownHostEntry)
      → All (IsNotRevoked lib host port key) entries
      → last.marker ≡ Marker.plain
      → holds_key lib host port key_type key last ≡ true
      → (status : HostKeyStatus)
      → by_key lib host port key_type key
          (first (holds_key lib host port key_type key) (entries ++ (last ∷ [])))
          status
        ≡ trusted
  first-trusted [] last clean plain h status = rw h (rw plain refl)
  first-trusted (e ∷ entries) last clean plain h status =
      elim (Bool-cases (holds_key lib host port key_type key e)) [
        | inl here ↦ rw here (not_revoked-by_marker e e.marker refl clean.0 here)
        | inr elsewhere ↦ rw elsewhere (first-trusted entries last clean.1 plain h status)
      ]
