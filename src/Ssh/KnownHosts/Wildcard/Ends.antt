-- ===== src/Ssh/KnownHosts/Wildcard/Ends.antt =====
-- The loop of `wildcard_match` of crates/rdt-ssh/src/known_hosts.rs ends on every text.
use remote_desktop_tool.Prelude.{
  ℕ, zero, suc, ◌+◌, ◌*◌, ◌≤◌, ◌<◌, ◌≡◌, refl, inl, inr, arith, Bool, false, Bool-cases, List, [],
  ◌∷◌, Option, none, some, ◌==◌, length,
}
use remote_desktop_tool.Ssh.KnownHosts.Wildcard.{
  Star, only_stars, accepts, retry, loop, wildcard_match,
}

abbrev Ends : Option Bool → Type 0
Ends r = (b : Bool) × (r ≡ some b)

module _ (lower : ℕ → ℕ) (k : ℕ) where
  -- The star's text is at least as long as what is left, and at most `m`.
  abbrev InReach : ℕ → List ℕ → Star → Type 0
  InReach m t none = length t ≤ m
  InReach m t (some (q, s)) = (length t ≤ length s) × (length s ≤ m) × (length q < k)

  InReach-next : (m c : ℕ) (t : List ℕ) (star : Star) → InReach m (c ∷ t) star → InReach m t star
  InReach-next m c t none h = omega arith
  InReach-next m c t (some (q, s)) h = (omega (arith, h.0), h.1, h.2)

  InReach-bound : (m : ℕ) (t : List ℕ) (star : Star) → InReach m t star → length t ≤ m
  InReach-bound m t none h = h
  InReach-bound m t (some (q, s)) h = omega (arith, h.0, h.1)

  retry-Ends :
      (f m c : ℕ) (p t : List ℕ) (star : Star) (next : List ℕ → List ℕ → Star → Option Bool)
      → ((m' : ℕ) (p' t' : List ℕ) (star' : Star)
          → length p' < k
          → InReach m' t' star'
          → m' * k + length p' < f
          → Ends (next p' t' star'))
      → m * k + length p < suc f
      → InReach m (c ∷ t) star
      → Ends (retry lower star next)
  retry-Ends f m c p t none next ih fuel h = (false, refl)
  retry-Ends f m c p t (some (q, [])) next ih fuel h = absurd (omega (arith, h.0))
  retry-Ends f zero c p t (some (q, d ∷ s)) next ih fuel h = absurd (omega (arith, h.1))
  retry-Ends f (suc m) c p t (some (q, d ∷ s)) next ih fuel h =
      ih m q s (some (q, s)) h.2 (omega arith, omega (arith, h.1), h.2) (omega (arith, h.2))

  loop-Ends :
      (f m : ℕ) (p t : List ℕ) (star : Star)
      → length p < k
      → InReach m t star
      → m * k + length p < f
      → Ends (loop lower f p t star)
  unfolding loop
  loop-Ends zero m p t star short h fuel = absurd (omega (arith, fuel))
  loop-Ends (suc f) m p [] star short h fuel = (only_stars p, refl)
  loop-Ends (suc f) m [] (c ∷ t) star short h fuel =
      retry-Ends f m c [] t star (loop lower f) (loop-Ends f) fuel h
  loop-Ends (suc f) m (x ∷ p) (c ∷ t) star short h fuel = elim (Bool-cases (accepts lower x c)) [
    | inl yes_byte ↦
        rw yes_byte (loop-Ends f m p t star (omega arith) (InReach-next m c t star h) (omega arith))
    | inr no_byte ↦ elim (Bool-cases (x == b'*')) [
      | inl is_star ↦
          rw (no_byte, is_star)
            (loop-Ends f m p (c ∷ t) (some (p, c ∷ t)) (omega arith)
              (omega arith, InReach-bound m (c ∷ t) star h, omega arith) (omega arith))
      | inr other ↦
          rw (no_byte, other) (retry-Ends f m c (x ∷ p) t star (loop lower f) (loop-Ends f) fuel h)
    ]
  ]

-- The loop of `wildcard_match` ends within its fuel on every pattern and every text.
pub wildcard_match-ends :
    (lower : ℕ → ℕ) (pattern text : List ℕ)
    → (b : Bool) × (wildcard_match lower pattern text ≡ some b)
unfolding wildcard_match
wildcard_match-ends lower pattern text =
    loop-Ends lower (length pattern + 1) _ (length text) pattern text none (omega arith)
      (omega arith) (omega arith)
