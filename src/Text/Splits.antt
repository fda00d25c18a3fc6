-- ===== src/Text/Splits.antt =====
-- Splitting a text around a character that is known to stand, or not to stand, in a part of it.
use remote_desktop_tool.Prelude.{
  ℕ, ◌≡◌, ◌≢◌, refl, ap₂, arith, true, false, List, [], ◌∷◌, ◌++◌, none, some, ◌==◌, All,
}
use remote_desktop_tool.Text.{same_text, has_char, strip_char, split_once, rsplit_once}

-- The character is not in the text.
abbrev pub Lacks : ℕ → List ℕ → Type 0
Lacks c s = All (λ d. d ≢ c) s

pub strip_char-none : (c : ℕ) (s : List ℕ) → Lacks c s → strip_char c s ≡ none
strip_char-none c [] h = refl
strip_char-none c (d ∷ s) h = let other : (d == c) ≡ false = ground (arith, h.0) in rw other refl

pub split_once-append :
    (c : ℕ) (s t : List ℕ) → Lacks c s → split_once c (s ++ (c ∷ t)) ≡ some (s, t)
unfolding split_once
split_once-append c [] t h = let same : (c == c) ≡ true = ground arith in rw same refl
split_once-append c (d ∷ s) t h =
    let other : (d == c) ≡ false = ground (arith, h.0) in
    rw (other, split_once-append c s t h.1) refl

pub rsplit_once-none : (c : ℕ) (s : List ℕ) → Lacks c s → rsplit_once c s ≡ none
unfolding rsplit_once
rsplit_once-none c [] h = refl
rsplit_once-none c (d ∷ s) h =
    let other : (d == c) ≡ false = ground (arith, h.0) in
    rw (rsplit_once-none c s h.1) (rw other refl)

pub rsplit_once-append :
    (c : ℕ) (s t : List ℕ) → Lacks c t → rsplit_once c (s ++ (c ∷ t)) ≡ some (s, t)
unfolding rsplit_once
rsplit_once-append c [] t h =
    let same : (c == c) ≡ true = ground arith in rw (rsplit_once-none c t h) (rw same refl)
rsplit_once-append c (d ∷ s) t h = rw (rsplit_once-append c s t h) refl

pub has_char-Lacks : (c : ℕ) (s : List ℕ) → Lacks c s → has_char c s ≡ false
has_char-Lacks c [] h = refl
has_char-Lacks c (d ∷ s) h =
    let other : (d == c) ≡ false = ground (arith, h.0) in rw (other, has_char-Lacks c s h.1) refl

pub same_text_refl : (s : List ℕ) → same_text s s ≡ true
same_text_refl [] = refl
same_text_refl (c ∷ s) =
    let same : (c == c) ≡ true = ground arith in rw (same, same_text_refl s) refl

pub same_text_comm : (s t : List ℕ) → same_text s t ≡ same_text t s
same_text_comm [] [] = refl
same_text_comm [] (d ∷ t) = refl
same_text_comm (c ∷ s) [] = refl
same_text_comm (c ∷ s) (d ∷ t) =
    let heads : (c == d) ≡ (d == c) = ground arith in rw (heads, same_text_comm s t) refl

pub same_text_sound : (s t : List ℕ) → same_text s t ≡ true → s ≡ t
same_text_sound [] [] h = refl
same_text_sound [] (d ∷ t) h = absurd (ground arith)
same_text_sound (c ∷ s) [] h = absurd (ground arith)
same_text_sound (c ∷ s) (d ∷ t) h =
    let heads : c ≡ d = ground arith in
    ap₂ (λ x y. x ∷ y) heads (same_text_sound s t (ground arith))
