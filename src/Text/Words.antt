-- ===== src/Text/Words.antt =====
-- Joining pieces and splitting them again, around a character, at white space, or into lines.
use remote_desktop_tool.Prelude.{
  ℕ, ◌≡◌, refl, sym, ap, ◌∙◌, inl, inr, arith, Bool, Bool-cases, true, false, List, [], ◌∷◌, ◌++◌,
  ◌==◌, All, All-append,
}
use remote_desktop_tool.Text.{
  is_nil, prepend_head, split_all, join, lines, trim_next, trim_end, trim, starts_white, words,
}
use remote_desktop_tool.Text.Splits.{Lacks}
use remote_desktop_tool.Text.Trims.{IsSolid}

split_all-piece : (c : ℕ) (w : List ℕ) → Lacks c w → split_all c w ≡ w ∷ []
unfolding split_all
split_all-piece c [] h = refl
split_all-piece c (d ∷ w) h =
    let other : (d == c) ≡ false = ground (arith, h.0) in rw (other, split_all-piece c w h.1) refl

split_all-append :
    (c : ℕ) (w s : List ℕ) → Lacks c w → split_all c (w ++ (c ∷ s)) ≡ w ∷ split_all c s
unfolding split_all
split_all-append c [] s h = let same : (c == c) ≡ true = ground arith in rw same refl
split_all-append c (d ∷ w) s h =
    let other : (d == c) ≡ false = ground (arith, h.0) in
    rw (other, split_all-append c w s h.1) refl

-- Pieces without the character that joins them.
pub split_all-join :
    (c : ℕ) (w : List ℕ) (ws : List (List ℕ))
    → All (Lacks c) (w ∷ ws)
    → split_all c (join c (w ∷ ws)) ≡ w ∷ ws
split_all-join c w [] h = split_all-piece c w h.0
split_all-join c w (v ∷ ws) h =
    split_all-append c w (join c (v ∷ ws)) h.0 ∙ ap (λ r. w ∷ r) (split_all-join c v ws h.1)

pub All-join :
    (P : ℕ → Type 0) (c : ℕ) (ws : List (List ℕ)) → P c → All (All P) ws → All P (join c ws)
All-join P c [] p h = tt
All-join P c (w ∷ []) p h = h.0
All-join P c (w ∷ v ∷ ws) p h =
    All-append P w (c ∷ join c (v ∷ ws)) h.0 (p, All-join P c (v ∷ ws) p h.1)

-- A line that is ended by a line feed.
pub lines-append :
    (w s : List ℕ) → Lacks b'\n' w → Lacks b'\r' w → lines (w ++ (b'\n' ∷ s)) ≡ w ∷ lines s
unfolding lines
lines-append [] s h k = refl
lines-append (d ∷ w) s h k =
    let no_feed : (d == b'\n') ≡ false = ground (arith, h.0) in
    let no_return : (d == b'\r') ≡ false = ground (arith, k.0) in
    rw (no_feed, no_return, lines-append w s h.1 k.1) refl

module _ (white : ℕ → Bool) where
  words-letter :
      (c : ℕ) (s : List ℕ)
      → white c ≡ false
      → starts_white white s ≡ false
      → words white (c ∷ s) ≡ prepend_head c (words white s)
  unfolding words
  words-letter c s solid goes_on = rw (solid, goes_on) refl

  words-last :
      (c : ℕ) (s : List ℕ)
      → white c ≡ false
      → starts_white white s ≡ true
      → words white (c ∷ s) ≡ (c ∷ []) ∷ words white s
  unfolding words
  words-last c s solid ends = rw (solid, ends) refl

  -- A word, before white space or the end.
  pub words-append :
      (w s : List ℕ)
      → IsSolid white w
      → is_nil w ≡ false
      → starts_white white s ≡ true
      → words white (w ++ s) ≡ w ∷ words white s
  words-append [] s h some_char ends = absurd (ground arith)
  words-append (c ∷ []) s h some_char ends = words-last c s h.0 ends
  words-append (c ∷ d ∷ w) s h some_char ends =
      words-letter c (d ∷ (w ++ s)) h.0 h.1.0
      ∙ ap (prepend_head c) (words-append (d ∷ w) s h.1 refl ends)

  pub words_white : (c : ℕ) (s : List ℕ) → white c ≡ true → words white (c ∷ s) ≡ words white s
  unfolding words
  words_white c s h = rw h refl

  -- A word and a blank.
  pub words-blank :
      (c : ℕ) (w s : List ℕ)
      → white c ≡ true
      → IsSolid white w
      → is_nil w ≡ false
      → words white (w ++ (c ∷ s)) ≡ w ∷ words white s
  words-blank c w s blank solid some_char =
      words-append w (c ∷ s) solid some_char blank ∙ ap (λ r. w ∷ r) (words_white c s blank)

  words-trim_next :
      (c : ℕ) (s t : List ℕ)
      → words white t ≡ words white s
      → (is_nil t ≡ false → starts_white white t ≡ starts_white white s)
      → words white (trim_next white c t) ≡ words white (c ∷ s)
  unfolding words
  words-trim_next c s [] same start = elim (Bool-cases (white c)) [
    | inl blank ↦ rw (blank, sym same) refl
    | inr solid ↦ elim (Bool-cases (starts_white white s)) [
      | inl ends ↦ rw (solid, ends, solid, sym same) refl
      | inr goes_on ↦ rw (solid, goes_on, solid, sym same) refl
    ]
  ]
  words-trim_next c s (d ∷ t) same start = rw (sym same, sym (start refl)) refl

  starts_white-trim_end :
      (s : List ℕ)
      → is_nil (trim_end white s) ≡ false
      → starts_white white (trim_end white s) ≡ starts_white white s
  starts_white-trim_end [] h = refl
  starts_white-trim_end (c ∷ s) h = head (trim_end white s) h
    where
      head :
          (t : List ℕ)
          → is_nil (trim_next white c t) ≡ false
          → starts_white white (trim_next white c t) ≡ white c
      head [] h = ground arith
      head (d ∷ t) h = refl

  words-trim_end : (s : List ℕ) → words white (trim_end white s) ≡ words white s
  words-trim_end [] = refl
  words-trim_end (c ∷ s) =
      words-trim_next c s (trim_end white s) (words-trim_end s) (starts_white-trim_end s)

  -- A text that begins with a solid character is trimmed at its end only.
  pub words-trim :
      (c : ℕ) (s : List ℕ)
      → white c ≡ false
      → (words white (trim white (c ∷ s)) ≡ words white (c ∷ s))
        × ((t : List ℕ) × (trim white (c ∷ s) ≡ c ∷ t))
  words-trim c s solid = rw solid (words-trim_end (c ∷ s), trim_next-head (trim_end white s))
    where
      trim_next-head : (t : List ℕ) → (u : List ℕ) × (trim_next white c t ≡ c ∷ u)
      trim_next-head [] = ([], rw solid refl)
      trim_next-head (d ∷ t) = (d ∷ t, refl)

  prepend-IsSolid :
      (c : ℕ) (ws : List (List ℕ))
      → white c ≡ false
      → All (IsSolid white) ws
      → All (IsSolid white) (prepend_head c ws)
  prepend-IsSolid c [] solid h = ((solid, tt), tt)
  prepend-IsSolid c (w ∷ ws) solid h = ((solid, h.0), h.1)

  pub words-IsSolid : (s : List ℕ) → All (IsSolid white) (words white s)
  unfolding words
  words-IsSolid [] = tt
  words-IsSolid (c ∷ s) =
      let rest = words-IsSolid s in
      elim (Bool-cases (white c)) [
        | inl blank ↦ rw blank rest
        | inr solid ↦ elim (Bool-cases (starts_white white s)) [
          | inl ends ↦ rw (solid, ends) ((solid, tt), rest)
          | inr goes_on ↦ rw (solid, goes_on) (prepend-IsSolid c (words white s) solid rest)
        ]
      ]
