-- ===== src/Ssh/KnownHosts.antt =====
-- crates/rdt-ssh/src/known_hosts.rs: the entries of the database and the verdict on a server's key.
pub mod Wildcard
pub mod Pattern
pub mod Entry
pub mod Line
pub mod Verdict
pub mod Accept
pub mod Files
mod Tests
use remote_desktop_tool.Prelude.{
  ℕ, ◌+◌, ◌-◌, Bool, true, false, not, ◌&&◌, List, [], ◌∷◌, ◌++◌, Option, none, some, ◌==◌,
  if◌then◌else◌, length,
}
use remote_desktop_tool.Text.{same_text}
use remote_desktop_tool.Ssh.KnownHosts.Pattern.{Library, recorded_host}
use remote_desktop_tool.Ssh.KnownHosts.Entry.{Marker, KnownHostEntry, matches}

pub data HostKeyStatus : Type 0 where
  trusted unknown revoked excluded : HostKeyStatus
  changed : List ℕ → List ℕ → HostKeyStatus

abbrev pub is_trusted : HostKeyStatus → Bool
is_trusted trusted = true
is_trusted _ = false

abbrev pub is_fatal : HostKeyStatus → Bool
is_fatal (changed fingerprint key_type) = true
is_fatal revoked = true
is_fatal excluded = true
is_fatal _ = false

-- `Option::get_or_insert`.
abbrev pub get_or_insert : Option KnownHostEntry → KnownHostEntry → Option KnownHostEntry
get_or_insert none e = some e
get_or_insert (some old) e = some old

module _ (lib : Library) where
  -- What follows the loop of `check`.
  abbrev pub finish : Option KnownHostEntry → Option KnownHostEntry → HostKeyStatus
  finish (some e) other = changed (lib.fingerprint e.key) e.key_type
  finish none (some e) = unknown
  finish none none = unknown

  -- An entry with the key: `none` is `continue`.
  abbrev pub on_same_key : Marker → Option HostKeyStatus
  on_same_key Marker.revoked = some revoked
  on_same_key Marker.cert_authority = none
  on_same_key Marker.plain = some trusted

  abbrev pub is_revoked : Marker → Bool
  is_revoked Marker.revoked = true
  is_revoked _ = false

  abbrev pub or_next : Option HostKeyStatus → HostKeyStatus → HostKeyStatus
  or_next (some status) next = status
  or_next none next = next

  -- The loop of `check`, with the two entries that it remembers.
  unfoldable pub check_from :
      List KnownHostEntry
      → List ℕ
      → ℕ
      → List ℕ
      → List ℕ
      → Option KnownHostEntry
      → Option KnownHostEntry
      → HostKeyStatus
  check_from [] host port key_type key same other = finish same other
  check_from (e ∷ entries) host port key_type key same other =
      let next = check_from entries host port key_type key same other in
      let next_same = check_from entries host port key_type key (get_or_insert same e) other in
      let next_other = check_from entries host port key_type key same (get_or_insert other e) in
      if not (matches lib e host port)
      then next
      else if lib.ct_eq e.key key
      then or_next (on_same_key e.marker) next
      else if is_revoked e.marker
      then next
      else if same_text e.key_type key_type
      then next_same
      else next_other

  unfoldable pub check : List KnownHostEntry → List ℕ → ℕ → List ℕ → List ℕ → HostKeyStatus
  check entries host port key_type key = check_from entries host port key_type key none none

  abbrev pub is_plain : Marker → Bool
  is_plain Marker.plain = true
  is_plain _ = false

  -- `retain` of `accept`.
  unfoldable pub without_stale : List KnownHostEntry → List ℕ → ℕ → List ℕ → List KnownHostEntry
  without_stale [] host port key_type = []
  without_stale (e ∷ entries) host port key_type =
      let rest = without_stale entries host port key_type in
      if is_plain e.marker && same_text e.key_type key_type && matches lib e host port
      then rest
      else e ∷ rest

  abbrev pub accepted : List ℕ → ℕ → List ℕ → List ℕ → List ℕ → KnownHostEntry
  accepted host port key_type key comment = record {
    marker = Marker.plain;
    patterns = recorded_host lib host port ∷ [];
    key_type = key_type;
    key = key;
    comment = comment;
    line = 0;
  }

  unfoldable pub accept :
      List KnownHostEntry → List ℕ → ℕ → List ℕ → List ℕ → List ℕ → List KnownHostEntry
  accept entries host port key_type key comment =
      without_stale entries host port key_type ++ (accepted host port key_type key comment ∷ [])

  -- `retain` of `forget`.
  unfoldable pub without_host : List KnownHostEntry → List ℕ → ℕ → List KnownHostEntry
  without_host [] host port = []
  without_host (e ∷ entries) host port =
      let rest = without_host entries host port in
      if matches lib e host port then rest else e ∷ rest

  -- The entries that stay, and how many were dropped.
  unfoldable pub forget : List KnownHostEntry → List ℕ → ℕ → List KnownHostEntry × ℕ
  forget entries host port =
      let kept = without_host entries host port in (kept, length entries - length kept)
