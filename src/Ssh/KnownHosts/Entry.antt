-- ===== src/Ssh/KnownHosts/Entry.antt =====
-- `KnownHostEntry::matches` of crates/rdt-ssh/src/known_hosts.rs.
pub mod Laws
use remote_desktop_tool.Prelude.{
  ℕ, Bool, true, false, not, ◌&&◌, ◌||◌, List, [], ◌∷◌, Option, none, some, ◌==◌, if◌then◌else◌,
}
use remote_desktop_tool.Text.{strip_char}
use remote_desktop_tool.Ssh.KnownHosts.Pattern.{Library, pattern_matches}

pub data Marker : Type 0 where
  plain cert_authority revoked : Marker

pub record KnownHostEntry : Type 0 where
  pub marker : Marker
  pub patterns : List (List ℕ)
  pub key_type : List ℕ
  pub key : List ℕ
  pub comment : List ℕ
  pub line : ℕ

-- Whether a `!` stands in front, and the pattern without it.
abbrev pub negated_or : List ℕ → Option (List ℕ) → Bool × List ℕ
negated_or pattern (some rest) = (true, rest)
negated_or pattern none = (false, pattern)

unfoldable pub negation : List ℕ → Bool × List ℕ
negation pattern = negated_or pattern (strip_char b'!' pattern)

module _ (lib : Library) where
  -- The loop over the patterns, with the flag `matched`.
  unfoldable pub matches_from : List (List ℕ) → List ℕ → ℕ → Bool → Bool
  matches_from [] host port matched = matched
  matches_from (written ∷ patterns) host port matched =
      let (negated, pattern) = negation written in
      let once = matches_from patterns host port true in
      let next = matches_from patterns host port matched in
      if pattern_matches lib pattern host port then (if negated then false else once) else next

  unfoldable pub matches : KnownHostEntry → List ℕ → ℕ → Bool
  matches e host port = matches_from e.patterns host port false
