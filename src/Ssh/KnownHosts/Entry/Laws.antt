-- ===== src/Ssh/KnownHosts/Entry/Laws.antt =====
-- `KnownHostEntry::matches` of crates/rdt-ssh/src/known_hosts.rs against the two kinds of patterns.
use remote_desktop_tool.Prelude.{
  ℕ, ◌≡◌, refl, Bool, true, false, not, ◌&&◌, ◌||◌, List, [], ◌∷◌, if◌then◌else◌,
}
use remote_desktop_tool.Ssh.KnownHosts.Pattern.{Library, pattern_matches}
use remote_desktop_tool.Ssh.KnownHosts.Entry.{KnownHostEntry, negation, matches_from, matches}

-- One round of the loop, on Booleans: `n` says whether the pattern is negated, `hit` whether it
-- matches, `m` is the flag, and `a` and `d` are what the patterns behind it give.
round :
    (n hit m a d once next : Bool)
    → once ≡ ((true || a) && not d)
    → next ≡ ((m || a) && not d)
    → (if hit then (if n then false else once) else next)
      ≡ ((m || ((not n && hit) || a)) && not ((n && hit) || d))
round true true true a d once next o e = refl
round true true false true d once next o e = refl
round true true false false d once next o e = refl
round true false m a d once next o e = e
round false true true a d once next o e = o
round false true false a d once next o e = o
round false false m a d once next o e = e

module _ (lib : Library) (host : List ℕ) (port : ℕ) where
  -- A pattern without `!` matches the host, and a pattern with `!` does.
  abbrev pub allowed : List (List ℕ) → Bool
  allowed [] = false
  allowed (written ∷ patterns) =
      (not (negation written).0 && pattern_matches lib (negation written).1 host port)
      || allowed patterns

  abbrev pub denied : List (List ℕ) → Bool
  denied [] = false
  denied (written ∷ patterns) =
      ((negation written).0 && pattern_matches lib (negation written).1 host port)
      || denied patterns

  matches_from-allowed :
      (patterns : List (List ℕ)) (matched : Bool)
      → matches_from lib patterns host port matched
        ≡ ((matched || allowed patterns) && not (denied patterns))
  unfolding matches_from
  matches_from-allowed [] true = refl
  matches_from-allowed [] false = refl
  matches_from-allowed (written ∷ patterns) matched =
      round (negation written).0 (pattern_matches lib (negation written).1 host port) matched
        (allowed patterns) (denied patterns) _ _ (matches_from-allowed patterns true)
        (matches_from-allowed patterns matched)

  -- An entry applies to a host exactly when one of its patterns matches and none of its negated ones
  -- does, wherever these stand in the list.
  pub matches-allowed :
      (e : KnownHostEntry)
      → matches lib e host port ≡ (allowed e.patterns && not (denied e.patterns))
  unfolding matches
  matches-allowed e = matches_from-allowed e.patterns false
