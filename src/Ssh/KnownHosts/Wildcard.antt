-- ===== src/Ssh/KnownHosts/Wildcard.antt =====
-- `wildcard_match` of crates/rdt-ssh/src/known_hosts.rs. An index into the pattern or the text is
-- the list from there on.
pub mod Meaning
pub mod Decides
pub mod Ends
use remote_desktop_tool.Prelude.{
  ℕ, zero, suc, ◌+◌, ◌*◌, Bool, true, false, ◌||◌, List, [], ◌∷◌, Option, none, some, ◌==◌,
  if◌then◌else◌, length, drop,
}

-- The pattern after the last star, and the text from which the star was last tried.
abbrev pub Star : Type 0
Star = Option (List ℕ × List ℕ)

-- The second loop and the last test.
unfoldable pub only_stars : List ℕ → Bool
only_stars [] = true
only_stars (x ∷ p) = let rest = only_stars p in if x == b'*' then rest else false

-- `lower` is the first character of `char::to_lowercase`.
module _ (lower : ℕ → ℕ) where
  -- The first test of the loop.
  unfoldable pub accepts : ℕ → ℕ → Bool
  accepts x c = x == b'?' || lower x == c

  -- The last two branches of the loop.
  abbrev pub retry : Star → (List ℕ → List ℕ → Star → Option Bool) → Option Bool
  retry none next = some false
  retry (some (p, t)) next = next p (drop 1 t) (some (p, drop 1 t))

  -- The first loop on fuel, and what follows it. `none` is out of fuel.
  unfoldable pub loop : ℕ → List ℕ → List ℕ → Star → Option Bool
  loop zero p t star = none
  loop (suc f) p [] star = some (only_stars p)
  loop (suc f) [] (c ∷ t) star = retry star (loop f)
  loop (suc f) (x ∷ p) (c ∷ t) star =
      let onward = loop f p t star in
      let started = loop f p (c ∷ t) (some (p, c ∷ t)) in
      let again = retry star (loop f) in
      if accepts x c then onward else if x == b'*' then started else again

  -- The text is in lower case already.
  unfoldable pub wildcard_match : List ℕ → List ℕ → Option Bool
  wildcard_match pattern text = loop ((length text + 1) * (length pattern + 1)) pattern text none
