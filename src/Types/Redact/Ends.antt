-- ===== src/Types/Redact/Ends.antt =====
-- The scan of crates/rdt-types/src/redact.rs ends within its fuel.
use remote_desktop_tool.Prelude.{
  ℕ, zero, suc, ◌≡◌, ◌≤◌, refl, arith, inl, inr, Bool, Bool-cases, List, [], ◌∷◌, some, ◌==◌,
  length, drop, length-drop,
}
use remote_desktop_tool.Types.Redact.{
  Redactor, separator_len, ends_value, split_value, scrub_from, scrub_sensitive_pairs, redact_all,
  redact,
}

module _ (white : ℕ → Bool) where
  pub split_value-shorter :
      (header_style : Bool) (s : List ℕ) → length (split_value white header_style s).1 ≤ length s
  unfolding split_value
  split_value-shorter header_style [] = omega arith
  split_value-shorter header_style (c ∷ s) = elim (Bool-cases (ends_value white header_style c)) [
    | inl ends ↦ rw ends (omega arith)
    | inr goes_on ↦ rw goes_on (omega (arith, split_value-shorter header_style s))
  ]

  scrub_from-ends :
      (fuel : ℕ) (behind ahead output : List ℕ)
      → length ahead ≤ fuel
      → (t : List ℕ) × (scrub_from white fuel behind ahead output ≡ some t)
  unfolding scrub_from
  scrub_from-ends fuel behind [] output h = (output, refl)
  scrub_from-ends zero behind (c ∷ ahead) output h = absurd (omega arith)
  scrub_from-ends (suc f) behind (c ∷ ahead) output h =
      elim (Bool-cases (separator_len c ahead == 0)) [
        | inl no_separator ↦ rw no_separator (scrub_from-ends f _ ahead _ (omega arith))
        | inr separator ↦
            let shorter =
              split_value-shorter (separator_len c ahead == 2)
                (drop (separator_len c ahead) (c ∷ ahead)) in
            let dropped = length-drop (separator_len c ahead) (c ∷ ahead) in
            let some_len : 1 ≤ separator_len c ahead = ground arith in
            rw separator (
              scrub_from-ends f _
                (split_value white (separator_len c ahead == 2)
                  (drop (separator_len c ahead) (c ∷ ahead))).1
                _ (omega (arith, shorter, dropped, some_len)))
      ]

  pub scrub-ends : (text : List ℕ) → (t : List ℕ) × (scrub_sensitive_pairs white text ≡ some t)
  unfolding scrub_sensitive_pairs
  scrub-ends text = scrub_from-ends (length text) [] text [] (omega arith)

  -- Every text is redacted, under any secrets.
  pub redact-ends :
      (secrets : Redactor) (text : List ℕ) → (t : List ℕ) × (redact white secrets text ≡ some t)
  unfolding redact
  redact-ends secrets text = scrub-ends (redact_all secrets text)
