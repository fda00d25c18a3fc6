-- ===== src/Text/Trims.antt =====
-- Trimming a text without white space at its ends.
use remote_desktop_tool.Prelude.{
  ℕ, ◌≡◌, ◌≤◌, refl, Bool, true, false, ◌&&◌, leb, arith, List, [], ◌∷◌, All,
}
use remote_desktop_tool.Text.{trim_end, trim}

-- The printable characters of ASCII are not white space.
abbrev pub IsWhiteSpace : (ℕ → Bool) → Type 0
IsWhiteSpace white = (c : ℕ) → 33 ≤ c → c ≤ 126 → white c ≡ false

module _ (white : ℕ → Bool) where
  abbrev pub IsSolid : List ℕ → Type 0
  IsSolid s = All (λ c. white c ≡ false) s

  trim_end-IsSolid : (s : List ℕ) → IsSolid s → trim_end white s ≡ s
  trim_end-IsSolid [] h = refl
  trim_end-IsSolid (c ∷ []) h = rw (h.0) refl
  trim_end-IsSolid (c ∷ d ∷ s) h = rw (trim_end-IsSolid (d ∷ s) h.1) refl

  pub trim-IsSolid : (s : List ℕ) → IsSolid s → trim white s ≡ s
  trim-IsSolid [] h = refl
  trim-IsSolid (c ∷ s) h = rw (h.0) (trim_end-IsSolid (c ∷ s) h)

  abbrev pub all_printable : List ℕ → Bool
  all_printable [] = true
  all_printable (c ∷ s) = leb 33 c && leb c 126 && all_printable s

  pub printable-IsSolid : IsWhiteSpace white → (s : List ℕ) → all_printable s ≡ true → IsSolid s
  printable-IsSolid solid [] h = tt
  printable-IsSolid solid (c ∷ s) h =
      (solid c (ground arith) (ground arith), printable-IsSolid solid s (ground arith))
