-- ===== src/Ssh/KnownHosts/Pattern/Laws.antt =====
-- The pattern that crates/rdt-ssh/src/known_hosts.rs records for a host matches the host.
use remote_desktop_tool.Prelude.{
  ℕ, ◌≡◌, ◌≤◌, refl, inl, inr, arith, Bool, Bool-cases, true, false, List, [], ◌∷◌, ◌++◌, Option,
  none, some, ◌==◌, All, ◌||◌,
}
use remote_desktop_tool.Text.{strip_char, decimal}
use remote_desktop_tool.Text.Numbers.{parse_unsigned-decimal}
use remote_desktop_tool.Text.Splits.{Lacks, strip_char-none, split_once-append, rsplit_once-none}
use remote_desktop_tool.Ssh.KnownHosts.Wildcard.{accepts, wildcard_match}
use remote_desktop_tool.Ssh.KnownHosts.Wildcard.Meaning.{Matches}
use remote_desktop_tool.Ssh.KnownHosts.Wildcard.Decides.{
  Decides, IsStarless, wildcard_match-Decides,
}
use remote_desktop_tool.Ssh.KnownHosts.Pattern.{
  Library, answer, split_host_port, hashed_body, recorded_host, plain_matches, pattern_matches,
}

-- A host name, in lower case, without the characters that mean something in a pattern. Lower case
-- characters stay as they are, and the star has no other case.
pub record IsPlainHost (lib : Library) (host : List ℕ) : Type 0 where
  pub lower : All (λ c. lib.lower_char c ≡ c) (lib.lower_text host)
  pub starless : IsStarless lib.lower_char (lib.lower_text host)
  pub no_star : Lacks b'*' (lib.lower_text host)
  pub no_bang : Lacks b'!' (lib.lower_text host)
  pub no_bar : Lacks b'|' (lib.lower_text host)
  pub no_open : Lacks b'[' (lib.lower_text host)
  pub no_close : Lacks b']' (lib.lower_text host)
  pub no_colon : Lacks b':' (lib.lower_text host)

pub Decides-yes : (G : Type 0) (r : Option Bool) → Decides G r → G → answer r ≡ true
Decides-yes G none d g = absurd d
Decides-yes G (some true) d g = refl
Decides-yes G (some false) d g = absurd (d g)

Matches-self :
    (lower : ℕ → ℕ) (h : List ℕ) → All (λ c. lower c ≡ c) h → Lacks b'*' h → Matches lower h h
Matches-self lower [] same free = refl
Matches-self lower (c ∷ h) same free =
    let other : (c == b'*') ≡ false = ground (arith, free.0) in
    rw other (unfold accepts in accepted, Matches-self lower h same.1 free.1)
  where
    accepted : (c == b'?' || lower c == c) ≡ true
    accepted = rw (same.0) (ground arith)

module _ (lib : Library) (host : List ℕ) (plain : IsPlainHost lib host) where
  split_plain : split_host_port (lib.lower_text host) ≡ (lib.lower_text host, none)
  unfolding split_host_port
  split_plain =
      rw (strip_char-none b'[' (lib.lower_text host) plain.no_open)
        (rw (rsplit_once-none b':' (lib.lower_text host) plain.no_colon) refl)

  split_with_port :
      (port : ℕ)
      → port ≤ 65535
      → split_host_port (b'[' ∷ (lib.lower_text host ++ (b']' ∷ b':' ∷ decimal port)))
        ≡ (lib.lower_text host, some port)
  unfolding split_host_port
  split_with_port port le =
      rw (split_once-append b']' (lib.lower_text host) (b':' ∷ decimal port) plain.no_close)
        (rw (parse_unsigned-decimal 65535 port le (omega arith)) refl)

  glob_self :
      answer (wildcard_match lib.lower_char (lib.lower_text host) (lib.lower_text host)) ≡ true
  glob_self =
      Decides-yes _ _
        (wildcard_match-Decides lib.lower_char (lib.lower_text host) (lib.lower_text host)
          plain.starless)
        (Matches-self lib.lower_char (lib.lower_text host) plain.lower plain.no_star)

  -- The pattern recorded for a plain host matches the host at its port.
  pub recorded_host-matches :
      (port : ℕ) → port ≤ 65535 → pattern_matches lib (recorded_host lib host port) host port ≡ true
  unfolding recorded_host pattern_matches hashed_body plain_matches
  recorded_host-matches port le = elim (Bool-cases (port == 22)) [
    | inl usual ↦
        rw usual
          (rw (strip_char-none b'|' (lib.lower_text host) plain.no_bar) (rw split_plain glob_self))
    | inr other ↦
        let same : (port == port) ≡ true = ground arith in
        rw other (rw (split_with_port port le) (rw same glob_self))
  ]

  pub recorded_host-unmarked : (port : ℕ) → strip_char b'!' (recorded_host lib host port) ≡ none
  unfolding recorded_host
  recorded_host-unmarked port = elim (Bool-cases (port == 22)) [
    | inl usual ↦ rw usual (strip_char-none b'!' (lib.lower_text host) plain.no_bang)
    | inr other ↦ rw other refl
  ]
