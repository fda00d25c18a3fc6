-- ===== src/Types/Ids/Tests.antt =====
-- Identifiers at concrete inputs.
use remote_desktop_tool.Prelude.{ℕ, ◌≡◌, refl, List, [], ◌∷◌, replicate}
use remote_desktop_tool.Types.Ids.{
  wrong_length, not_hex, parsed, failed, panicked, read_pairs, from_str,
}

too_short : from_str (b'a' ∷ b'b' ∷ b'c' ∷ []) ≡ failed (wrong_length 3)
unfolding from_str
too_short = refl

no_hexadecimal : from_str (replicate 16 b'z') ≡ failed not_hex
unfolding from_str read_pairs
no_hexadecimal = refl

-- A plus sign stands for a digit.
plus_signs : from_str (b'+' ∷ b'1' ∷ replicate 14 b'0') ≡ parsed (1 ∷ replicate 7 0)
unfolding from_str read_pairs
plus_signs = refl

-- A character of three bytes that a pair cuts through.
cuts_character : from_str (0xE2 ∷ 0x82 ∷ 0xAC ∷ replicate 13 b'0') ≡ panicked
unfolding from_str read_pairs
cuts_character = refl

abbrev id : List ℕ
id = 0 ∷ 1 ∷ 15 ∷ 16 ∷ 127 ∷ 128 ∷ 254 ∷ 255 ∷ []
