-- ===== src/Ssh/KnownHosts/Verdict.antt =====
-- `check` of crates/rdt-ssh/src/known_hosts.rs against the two entries that decide it.
use remote_desktop_tool.Prelude.{
  ℕ, ◌≡◌, refl, ◌∙◌, inl, inr, Bool, true, false, not, ◌&&◌, Bool-cases, List, [], ◌∷◌, ◌++◌,
  Option, none, some, if◌then◌else◌,
}
use remote_desktop_tool.Text.{same_text}
use remote_desktop_tool.Ssh.KnownHosts.Pattern.{Library}
use remote_desktop_tool.Ssh.KnownHosts.Entry.{Marker, KnownHostEntry, matches}
use remote_desktop_tool.Ssh.KnownHosts.{
  HostKeyStatus, trusted, unknown, revoked, changed, get_or_insert, finish, on_same_key, is_revoked,
  or_next, check_from, check, without_host, forget,
}

-- The first entry that satisfies the test.
abbrev pub first : (KnownHostEntry → Bool) → List KnownHostEntry → Option KnownHostEntry
first test [] = none
first test (e ∷ entries) = let next = first test entries in if test e then some e else next

pub first-append :
    (test : KnownHostEntry → Bool) (xs ys : List KnownHostEntry)
    → first test xs ≡ none
    → first test (xs ++ ys) ≡ first test ys
first-append test [] ys e = refl
first-append test (x ∷ xs) ys e = elim (Bool-cases (test x)) [
  | inl yes_test ↦ let found : first test (x ∷ xs) ≡ some x = rw yes_test refl in cc
  | inr no_test ↦ rw no_test (first-append test xs ys (rw no_test at e))
]

abbrev pub is_authority : Marker → Bool
is_authority Marker.cert_authority = true
is_authority _ = false

module _ (lib : Library) (host : List ℕ) (port : ℕ) (key_type key : List ℕ) where
  -- An entry for the host that holds this very key, and is no certificate authority.
  abbrev pub holds_key : KnownHostEntry → Bool
  holds_key e = matches lib e host port && (lib.ct_eq e.key key && not (is_authority e.marker))

  -- An entry for the host that holds another key of the same type, and is not revoked.
  abbrev pub holds_other : KnownHostEntry → Bool
  holds_other e =
      matches lib e host port
      && (not (lib.ct_eq e.key key)
          && (not (is_revoked lib e.marker) && same_text e.key_type key_type))

  abbrev pub by_marker : Marker → HostKeyStatus
  by_marker Marker.revoked = revoked
  by_marker _ = trusted

  abbrev pub by_other : Option KnownHostEntry → HostKeyStatus
  by_other none = unknown
  by_other (some e) = changed (lib.fingerprint e.key) e.key_type

  abbrev pub by_key : Option KnownHostEntry → HostKeyStatus → HostKeyStatus
  by_key none status = status
  by_key (some e) status = by_marker e.marker

  -- The verdict: by the first entry with the key, else by the first with another key of the type.
  abbrev pub verdict : List KnownHostEntry → HostKeyStatus
  verdict entries = by_key (first holds_key entries) (by_other (first holds_other entries))

  abbrev or_first : Option KnownHostEntry → Option KnownHostEntry → Option KnownHostEntry
  or_first none e = e
  or_first (some old) e = some old

  finish-by_other : (same other : Option KnownHostEntry) → finish lib same other ≡ by_other same
  finish-by_other none none = refl
  finish-by_other none (some e) = refl
  finish-by_other (some e) other = refl

  same_key :
      (e : KnownHostEntry) (m : Marker)
      → e.marker ≡ m
      → (found : Option KnownHostEntry) (status next : HostKeyStatus) → next ≡ by_key found status
      → or_next lib (on_same_key lib m) next
        ≡ by_key (if not (is_authority m) then some e else found) status
  same_key e Marker.plain em found status next h = rw em refl
  same_key e Marker.cert_authority em found status next h = h
  same_key e Marker.revoked em found status next h = rw em refl

  check_from-verdict :
      (entries : List KnownHostEntry) (same other : Option KnownHostEntry)
      → check_from lib entries host port key_type key same other
        ≡ by_key (first holds_key entries) (by_other (or_first same (first holds_other entries)))
  unfolding check_from
  check_from-verdict [] none other = finish-by_other none other
  check_from-verdict [] (some e) other = refl
  check_from-verdict (e ∷ entries) same other =
      let next = check_from-verdict entries same other in
      let next_same = check_from-verdict entries (get_or_insert same e) other in
      let next_other = check_from-verdict entries same (get_or_insert other e) in
      elim (Bool-cases (matches lib e host port)) [
        | inr elsewhere ↦ rw elsewhere next
        | inl here ↦ elim (Bool-cases (lib.ct_eq e.key key)) [
          | inl with_key ↦
              rw (here, with_key) (same_key e e.marker refl (first holds_key entries) _ _ next)
          | inr another ↦ elim (Bool-cases (is_revoked lib e.marker)) [
            | inl bad ↦ rw (here, another, bad) next
            | inr good ↦ elim (Bool-cases (same_text e.key_type key_type)) [
              | inl same_type ↦ rw (here, another, good, same_type) (next_same ∙ keeps same e)
              | inr other_type ↦ rw (here, another, good, other_type) next_other
            ]
          ]
        ]
      ]
    where
      keeps :
          (o : Option KnownHostEntry) (x : KnownHostEntry)
          → by_key
              (first holds_key entries)
              (by_other (or_first (get_or_insert o x) (first holds_other entries)))
            ≡ by_key (first holds_key entries) (by_other (or_first o (some x)))
      keeps none x = refl
      keeps (some y) x = refl

  -- The verdict on a key is that of the first entry for the host that holds the key and is no
  -- certificate authority: revoked, or trusted. Without one it is `changed`, with the first entry for
  -- the host that holds another key of the type and is not revoked, or else unknown.
  pub check-verdict :
      (entries : List KnownHostEntry) → check lib entries host port key_type key ≡ verdict entries
  unfolding check
  check-verdict entries = check_from-verdict entries none none

  absent_everywhere :
      (test : KnownHostEntry → Bool) (entries : List KnownHostEntry)
      → ((e : KnownHostEntry) → matches lib e host port ≡ false → test e ≡ false)
      → first test (without_host lib entries host port) ≡ none
  unfolding without_host
  absent_everywhere test [] local = refl
  absent_everywhere test (e ∷ entries) local = elim (Bool-cases (matches lib e host port)) [
    | inl here ↦ rw here (absent_everywhere test entries local)
    | inr elsewhere ↦ rw elsewhere (rw (local e elsewhere) (absent_everywhere test entries local))
  ]

  -- Once a host is forgotten, every key of it is unknown, whatever the database held.
  pub forget-check :
      (entries : List KnownHostEntry)
      → check lib (forget lib entries host port).0 host port key_type key ≡ unknown
  unfolding forget
  forget-check entries =
      check-verdict (without_host lib entries host port)
      ∙ rw
          (
            absent_everywhere holds_key entries (λ e h. rw h refl),
            absent_everywhere holds_other entries (λ e h. rw h refl),
          )
          refl
