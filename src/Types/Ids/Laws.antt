-- ===== src/Types/Ids/Laws.antt =====
-- Identifiers of crates/rdt-types/src/ids.rs as text and back.
use remote_desktop_tool.Prelude.{
  ℕ, ◌+◌, ◌*◌, ◌/◌, ◌%◌, ◌≤◌, ◌<◌, ◌≡◌, refl, arith, true, false, List, [], ◌∷◌, some, ◌==◌, length,
  All,
}
use remote_desktop_tool.Types.Ids.{
  id_bytes, parsed, hex_digit, display, digit_of, from_str_radix, is_boundary, read_pairs, from_str,
}

digit_of-hex_digit : (d : ℕ) → d < 16 → digit_of (hex_digit d) ≡ some d
digit_of-hex_digit d h = ground arith

hex_digit-bounds : (d : ℕ) → d < 16 → (44 ≤ hex_digit d) × (hex_digit d < 128)
hex_digit-bounds d h = ground arith

from_str_radix-byte :
    (byte : ℕ)
    → byte < 256
    → from_str_radix (hex_digit (byte / 16)) (hex_digit (byte % 16)) ≡ some byte
from_str_radix-byte byte h =
    let unsigned : (hex_digit (byte / 16) == b'+') ≡ false =
      ground (arith, hex_digit-bounds (byte / 16) (omega arith)) in
    let whole : byte / 16 * 16 + byte % 16 ≡ byte = omega arith in
    rw
      (
        unsigned,
        digit_of-hex_digit (byte / 16) (omega arith),
        digit_of-hex_digit (byte % 16) (omega arith),
        whole,
      )
      refl

is_boundary-display : (id : List ℕ) → All (λ b. b < 256) id → is_boundary (display id) ≡ true
unfolding display
is_boundary-display [] h = refl
is_boundary-display (byte ∷ id) h =
    ground (arith, hex_digit-bounds (byte / 16) (omega (arith, h.0)))

read_pairs-display : (id : List ℕ) → All (λ b. b < 256) id → read_pairs (display id) ≡ parsed id
unfolding display read_pairs
read_pairs-display [] h = refl
read_pairs-display (byte ∷ id) h =
    rw
      (
        is_boundary-display (byte ∷ id) h,
        is_boundary-display id h.1,
        from_str_radix-byte byte h.0,
        read_pairs-display id h.1,
      )
      refl

length-display : (id : List ℕ) → length (display id) ≡ 2 * length id
unfolding display
length-display [] = refl
length-display (byte ∷ id) = omega (arith, length-display id)

-- Any eight bytes are printed as a text that is read back as these bytes.
pub from_str-display :
    (id : List ℕ) → length id ≡ id_bytes → All (λ b. b < 256) id → from_str (display id) ≡ parsed id
unfolding from_str
from_str-display id eight h =
    let long : (length (display id) == 16) ≡ true = ground (arith, length-display id) in
    rw long (read_pairs-display id h)
