-- ===== src/Types/Redact/Same.antt =====
-- What the scan of crates/rdt-types/src/redact.rs makes of the rest of a text depends only on the key that
-- stands in front of it.
use remote_desktop_tool.Prelude.{
  ℕ, zero, suc, ◌≡◌, ◌≤◌, refl, sym, ap, ◌∙◌, inl, inr, arith, Bool, Bool-cases, false, List, [],
  ◌∷◌, ◌++◌, ◌==◌, length, take, drop, length-drop, append_assoc,
}
use remote_desktop_tool.Types.Redact.{
  separator_len, is_key_char, key_before, behind_of, split_value, emit, scrub_from,
}
use remote_desktop_tool.Types.Redact.Ends.{split_value-shorter}

key_before-onto : (behind key : List ℕ) → key_before behind key ≡ key_before behind [] ++ key
key_before-onto [] key = refl
key_before-onto (c ∷ behind) key = elim (Bool-cases (is_key_char c)) [
  | inl of_key ↦ rw of_key (
      key_before-onto behind (c ∷ key)
      ∙ sym (append_assoc (key_before behind []) (c ∷ []) key)
      ∙ ap (λ k. k ++ key) (sym (key_before-onto behind (c ∷ []))))
  | inr other ↦ rw other refl
]

-- The same key stands at the end of what is behind.
abbrev pub SameKey : List ℕ → List ℕ → Type 0
SameKey b d = key_before b [] ≡ key_before d []

SameKey-cons : (c : ℕ) (b d : List ℕ) → SameKey b d → SameKey (c ∷ b) (c ∷ d)
SameKey-cons c b d same = elim (Bool-cases (is_key_char c)) [
  | inl of_key ↦
      rw of_key (
        key_before-onto b (c ∷ [])
        ∙ ap (λ k. k ++ (c ∷ [])) same
        ∙ sym (key_before-onto d (c ∷ [])))
  | inr other ↦ rw other refl
]

SameKey-behind_of : (s b d : List ℕ) → SameKey b d → SameKey (behind_of s b) (behind_of s d)
SameKey-behind_of [] b d same = same
SameKey-behind_of (c ∷ s) b d same = SameKey-behind_of s (c ∷ b) (c ∷ d) (SameKey-cons c b d same)

pub SameKey-other : (c : ℕ) (b d : List ℕ) → is_key_char c ≡ false → SameKey (c ∷ b) (c ∷ d)
SameKey-other c b d other = rw other refl

module _ (white : ℕ → Bool) where
  rest_length :
      (c : ℕ) (ahead : List ℕ)
      → (separator_len c ahead == 0) ≡ false
      → length
          (split_value white
            (separator_len c ahead == 2)
            (drop (separator_len c ahead) (c ∷ ahead))).1
        ≤ length ahead
  rest_length c ahead separator =
      let shorter =
        split_value-shorter white (separator_len c ahead == 2)
          (drop (separator_len c ahead) (c ∷ ahead)) in
      let dropped = length-drop (separator_len c ahead) (c ∷ ahead) in
      let some_len : 1 ≤ separator_len c ahead = ground arith in
      omega (arith, shorter, dropped, some_len)

  -- With enough fuel, only the key behind the index matters.
  pub scrub_from-same :
      (f g : ℕ) (b d ahead output : List ℕ)
      → length ahead ≤ f
      → length ahead ≤ g
      → SameKey b d
      → scrub_from white f b ahead output ≡ scrub_from white g d ahead output
  unfolding scrub_from
  scrub_from-same f g b d [] output hf hg same = refl
  scrub_from-same zero g b d (c ∷ ahead) output hf hg same = absurd (omega arith)
  scrub_from-same (suc f) zero b d (c ∷ ahead) output hf hg same = absurd (omega arith)
  scrub_from-same (suc f) (suc g) b d (c ∷ ahead) output hf hg same =
      elim (Bool-cases (separator_len c ahead == 0)) [
        | inl no_separator ↦ rw no_separator (
            scrub_from-same f g (c ∷ b) (c ∷ d) ahead (output ++ (c ∷ [])) (omega arith)
              (omega arith) (SameKey-cons c b d same))
        | inr separator ↦
            let len = separator_len c ahead in
            let pieces = split_value white (len == 2) (drop len (c ∷ ahead)) in
            let mark = take len (c ∷ ahead) in
            let shorter = rest_length c ahead separator in
            rw separator (
              ap
                (λ key.
                  scrub_from white f (behind_of pieces.0 (behind_of mark b)) pieces.1
                    (emit white output key mark pieces.0))
                same
              ∙ scrub_from-same f g (behind_of pieces.0 (behind_of mark b))
                  (behind_of pieces.0 (behind_of mark d))
                  (split_value white (separator_len c ahead == 2)
                    (drop (separator_len c ahead) (c ∷ ahead))).1
                  (emit white output (key_before d []) mark pieces.0) (omega (arith, shorter))
                  (omega (arith, shorter))
                  (SameKey-behind_of pieces.0 _ _ (SameKey-behind_of mark b d same)))
      ]
