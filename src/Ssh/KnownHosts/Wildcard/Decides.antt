-- ===== src/Ssh/KnownHosts/Wildcard/Decides.antt =====
-- The loop of `wildcard_match` of crates/rdt-ssh/src/known_hosts.rs decides the meaning of patterns.
use remote_desktop_tool.Prelude.{
  ℕ, zero, suc, ◌+◌, ◌*◌, ◌≤◌, ◌<◌, ◌≡◌, ◌≢◌, ◌↔◌, refl, inl, inr, arith, Bool, true, false,
  Bool-cases, List, [], ◌∷◌, Option, none, some, ◌==◌, length, All,
}
use remote_desktop_tool.Ssh.KnownHosts.Wildcard.{
  Star, only_stars, accepts, retry, loop, wildcard_match,
}
use remote_desktop_tool.Ssh.KnownHosts.Wildcard.Meaning.{
  Anywhere, Starts, Matches, Anywhere-here, Anywhere-map, Anywhere-twice, star_out, byte_out,
  accepts-star, Anywhere-rest, only_stars_iff,
}

-- The run ended with the right answer to the question `G`.
abbrev pub Decides : Type 0 → Option Bool → Type 0
Decides G none = ⊥
Decides G (some true) = G
Decides G (some false) = ¬ G

answer-Decides : {G : Type 0} (b : Bool) → (b ≡ true) ↔ G → Decides G (some b)
answer-Decides true e = e.0 refl
answer-Decides false e = λ g. absurd (false≢true (e.1 g))
  where
    false≢true : false ≢ true
    false≢true e = cc

-- No character of the text is the lower case of a star.
abbrev pub IsStarless : (ℕ → ℕ) → List ℕ → Type 0
IsStarless lower t = All (λ c. c ≢ lower b'*') t

-- `G` is the question at the start; every pattern that is still to come is shorter than `k`.
module _ (lower : ℕ → ℕ) (G : Type 0) (k : ℕ) where
  -- What the last star is good for; `m` bounds the text that it can still try.
  abbrev Saved : ℕ → List ℕ → List ℕ → Star → Type 0
  Saved m p t none = G → Matches lower p t
  Saved m p t (some (q, s)) =
      (G ↔ Anywhere (Matches lower q) s)
      × (Matches lower q s → Matches lower p t)
      × (length t ≤ length s)
      × (length s ≤ m)
      × (length q < k)
      × IsStarless lower s

  record Inv (f m : ℕ) (p t : List ℕ) (star : Star) : Type 0 where
    now : Matches lower p t → G
    later : G → Anywhere (Matches lower p) t
    saved : Saved m p t star
    text_bound : length t ≤ m
    pattern_bound : length p < k
    starless : IsStarless lower t
    fuel : m * k + length p < f

  Inv-star :
      {f m : ℕ} {p t : List ℕ}
      → G ↔ Anywhere (Matches lower p) t
      → length t ≤ m
      → length p < k
      → IsStarless lower t
      → m * k + length p < f
      → Inv f m p t (some (p, t))
  Inv-star {p} {t} e ht hp free hf = record {
    now = λ d. e.1 (Anywhere-here (Matches lower p) t d);
    later = e.0;
    saved = (e, λ d. d, omega arith, ht, hp, free);
    text_bound = ht;
    pattern_bound = hp;
    starless = free;
    fuel = hf;
  }

  Saved-byte :
      (m x c : ℕ) (p t : List ℕ) (star : Star)
      → (x == b'*') ≡ false
      → Saved m (x ∷ p) (c ∷ t) star
      → Saved m p t star
  Saved-byte m x c p t none other h = λ g. (rw other at (h g)).1
  Saved-byte m x c p t (some (q, s)) other (e, down, shorter, hs, hq, free) =
      (e, λ d. (rw other at (down d)).1, omega arith, hs, hq, free)

  Inv-byte :
      {f m : ℕ} (x c : ℕ) (p t : List ℕ) (star : Star)
      → (x == b'*') ≡ false
      → accepts lower x c ≡ true
      → Inv (suc f) m (x ∷ p) (c ∷ t) star
      → Inv f m p t star
  Inv-byte {m} x c p t star other yes_byte i = record {
    now = λ d. i.now (rw other (yes_byte, d));
    later = λ g. Anywhere-rest (accepts lower x) (Matches lower p) c t (
        Anywhere-map (Matches lower (x ∷ p)) (Starts (accepts lower x) (Matches lower p))
          (byte_out lower x p other) (c ∷ t) (i.later g));
    saved = Saved-byte m x c p t star other i.saved;
    text_bound = omega arith;
    pattern_bound = omega arith;
    starless = i.starless.1;
    fuel = omega arith;
  }

  -- After a mismatch the last star takes one more character: `m` goes down and pays for the pattern.
  retry-Decides :
      {f : ℕ} (c : ℕ) (p t : List ℕ) (m : ℕ) (star : Star)
      (next : List ℕ → List ℕ → Star → Option Bool)
      → ((m' : ℕ) (p' t' : List ℕ) (star' : Star)
          → Inv f m' p' t' star'
          → Decides G (next p' t' star'))
      → Inv (suc f) m p (c ∷ t) star
      → ¬ Matches lower p (c ∷ t)
      → Decides G (retry lower star next)
  retry-Decides c p t m none next ih i fails = λ g. fails (i.saved g)
  retry-Decides c p t m (some (q, [])) next ih i fails = absurd (omega (arith, i.saved.2))
  retry-Decides c p t zero (some (q, d ∷ s)) next ih i fails = absurd (omega (arith, i.saved.3))
  retry-Decides c p t (suc m) (some (q, d ∷ s)) next ih i fails =
      let (e, down, shorter, hs, hq, free) = i.saved in
      let later : G → Anywhere (Matches lower q) s =
        λ g. elim (e.0 g) [ inl here ↦ absurd (fails (down here)) | inr rest ↦ rest ] in
      ih m q s (some (q, s))
        (Inv-star (later, λ a. e.1 (inr a)) (omega arith) (omega arith) free.1 (omega arith))

  loop-Decides :
      (f m : ℕ) (p t : List ℕ) (star : Star) → Inv f m p t star → Decides G (loop lower f p t star)
  unfolding loop
  loop-Decides zero m p t star i = absurd (omega (arith, i.fuel))
  loop-Decides (suc f) m p [] star i =
      let (sound, complete) = only_stars_iff lower p in
      answer-Decides (only_stars p) (λ h. i.now (sound h), λ g. complete (i.later g))
  loop-Decides (suc f) m [] (c ∷ t) star i =
      retry-Decides c [] t m star (loop lower f) (loop-Decides f) i (λ e. cc)
  loop-Decides (suc f) m (x ∷ p) (c ∷ t) star i = elim (Bool-cases (x == b'*')) [
    | inl is_star ↦
        let refused : accepts lower x c ≡ false = accepts-star lower x c is_star i.starless.0 in
        let again : G ↔ Anywhere (Matches lower p) (c ∷ t) = (
          λ g. Anywhere-twice (Matches lower p) (c ∷ t) (
              Anywhere-map (Matches lower (x ∷ p)) (Anywhere (Matches lower p))
                (star_out lower x p is_star) (c ∷ t) (i.later g)),
          λ a. i.now (rw is_star a),
        ) in
        rw (refused, is_star)
          (loop-Decides f m p (c ∷ t) (some (p, c ∷ t)) (
            Inv-star again i.text_bound (omega (arith, i.pattern_bound)) i.starless
              (omega (arith, i.fuel))))
    | inr other ↦ elim (Bool-cases (accepts lower x c)) [
      | inl yes_byte ↦
          rw yes_byte (loop-Decides f m p t star (Inv-byte x c p t star other yes_byte i))
      | inr no_byte ↦
          rw (no_byte, other)
            (retry-Decides c (x ∷ p) t m star (loop lower f) (loop-Decides f) i
              (λ d. let yes_byte = (byte_out lower x p other (c ∷ t) d).0 in cc))
    ]
  ]

-- The loop of `wildcard_match` ends within its fuel, and its answer is whether the pattern matches
-- the text, for texts in which no character is the lower case of a star.
pub wildcard_match-Decides :
    (lower : ℕ → ℕ) (pattern text : List ℕ)
    → IsStarless lower text
    → Decides (Matches lower pattern text) (wildcard_match lower pattern text)
unfolding wildcard_match
wildcard_match-Decides lower pattern text free =
    loop-Decides lower (Matches lower pattern text) (length pattern + 1) _ (length text) pattern
      text none
      (record {
        now = λ d. d;
        later = Anywhere-here (Matches lower pattern) text;
        saved = λ d. d;
        text_bound = omega arith;
        pattern_bound = omega arith;
        starless = free;
        fuel = omega arith;
      })
