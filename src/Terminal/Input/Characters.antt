-- ===== src/Terminal/Input/Characters.antt =====
-- The bytes of one character, as crates/rdt-terminal encodes it, read by its parser.
use remote_desktop_tool.Prelude.{
  ℕ, ◌+◌, ◌≤◌, ◌<◌, ◌≡◌, refl, inl, inr, arith, List, [], ◌∷◌, some, ltb, Bool-cases, set, length,
  length-set, ◌∙◌,
}
use remote_desktop_tool.Terminal.Parser
use remote_desktop_tool.Terminal.Parser.Types.{Parser, Action}
use remote_desktop_tool.Terminal.Parser.Utf8.{decode_utf8}
use remote_desktop_tool.Terminal.Parser.WellFormed.{IsScalar}
use remote_desktop_tool.Terminal.Input.{encode_utf8}
use remote_desktop_tool.Terminal.Input.Decoding.{
  two, three, four, IsReady, step_ascii, opened, step_first2, step_first3, step_first4, next,
  IsOpen, step_middle, step_last, prefix-set2, prefix-set3, prefix-set4,
}

-- The bytes are read as the actions, without a panic, and the parser is ready again.
abbrev pub Reads : Parser → List ℕ → List Action → Type 0
Reads p bytes actions = (q : Parser) × (Parser.advance p bytes ≡ some (q, actions)) × IsReady q

length-set2 : (xs : List ℕ) (a b : ℕ) → length (set (set xs 0 a) 1 b) ≡ length xs
length-set2 xs a b = length-set (set xs 0 a) 1 b ∙ length-set xs 0 a

length-set3 : (xs : List ℕ) (a b c : ℕ) → length (set (set (set xs 0 a) 1 b) 2 c) ≡ length xs
length-set3 xs a b c = length-set (set (set xs 0 a) 1 b) 2 c ∙ length-set2 xs a b

length-set4 :
    (xs : List ℕ) (a b c d : ℕ) → length (set (set (set (set xs 0 a) 1 b) 2 c) 3 d) ≡ length xs
length-set4 xs a b c d = length-set (set (set (set xs 0 a) 1 b) 2 c) 3 d ∙ length-set3 xs a b c

-- A sequence that is just opened, or goes on, has room while the array has.
opened-room : (p : Parser) (byte at n : ℕ) → IsReady p → at < 4 → at < length (opened p byte n).utf8
opened-room p byte at n r lt = omega (arith, length-set p.utf8 0 byte, r.four_bytes)

next-room : (p : Parser) (byte at : ℕ) → at < length p.utf8 → at < length (next p byte).utf8
next-room p byte at lt = omega (arith, length-set p.utf8 p.utf8_len byte)

IsOpen-opened : (p : Parser) (byte n : ℕ) → IsReady p → IsOpen (opened p byte n)
IsOpen-opened p byte n r = record {
  in_ground = r.in_ground;
  begun = omega arith;
  room = opened-room p byte 1 n r (omega arith);
}

IsOpen-next :
    (p : Parser) (byte : ℕ) → IsOpen p → p.utf8_len + 1 < length p.utf8 → IsOpen (next p byte)
IsOpen-next p byte o lt = record {
  in_ground = o.in_ground;
  begun = omega arith;
  room = next-room p byte (p.utf8_len + 1) lt;
}

Reads-two :
    (p : Parser) (a b c : ℕ)
    → IsReady p
    → 0xC0 ≤ a
    → a ≤ 0xDF
    → 0x80 ≤ b
    → b ≤ 0xBF
    → decode_utf8 (a ∷ b ∷ []) ≡ some c
    → Reads p (a ∷ b ∷ []) (Action.print c ∷ [])
unfolding Parser.advance
Reads-two p a b c r a_lo a_hi b_lo b_hi e =
    let q = opened p a 2 in
    (
      record (next q b) { utf8_len = 0; utf8_expected = 0 },
      rw
          (
            step_first2 p a r a_lo a_hi,
            step_last q b (IsOpen-opened p a 2 r) b_lo b_hi refl,
            prefix-set2 p.utf8 a b r.four_bytes,
            e,
          )
          refl,
      record {
        in_ground = r.in_ground;
        no_bytes = refl;
        four_bytes = length-set2 p.utf8 a b ∙ r.four_bytes;
      },
    )

Reads-three :
    (p : Parser) (a b c d : ℕ)
    → IsReady p
    → 0xE0 ≤ a
    → a ≤ 0xEF
    → 0x80 ≤ b
    → b ≤ 0xBF
    → 0x80 ≤ c
    → c ≤ 0xBF
    → decode_utf8 (a ∷ b ∷ c ∷ []) ≡ some d
    → Reads p (a ∷ b ∷ c ∷ []) (Action.print d ∷ [])
unfolding Parser.advance
Reads-three p a b c d r a_lo a_hi b_lo b_hi c_lo c_hi e =
    let q = opened p a 3 in
    let o = IsOpen-opened p a 3 r in
    (
      record (next (next q b) c) { utf8_len = 0; utf8_expected = 0 },
      rw
          (
            step_first3 p a r a_lo a_hi,
            step_middle q b o b_lo b_hi (omega arith),
            step_last (next q b) c (IsOpen-next q b o (opened-room p a 2 3 r (omega arith))) c_lo
                c_hi refl,
            prefix-set3 p.utf8 a b c r.four_bytes,
            e,
          )
          refl,
      record {
        in_ground = r.in_ground;
        no_bytes = refl;
        four_bytes = length-set3 p.utf8 a b c ∙ r.four_bytes;
      },
    )

Reads-four :
    (p : Parser) (a b c d x : ℕ)
    → IsReady p
    → 0xF0 ≤ a
    → a ≤ 0xF7
    → 0x80 ≤ b
    → b ≤ 0xBF
    → 0x80 ≤ c
    → c ≤ 0xBF
    → 0x80 ≤ d
    → d ≤ 0xBF
    → decode_utf8 (a ∷ b ∷ c ∷ d ∷ []) ≡ some x
    → Reads p (a ∷ b ∷ c ∷ d ∷ []) (Action.print x ∷ [])
unfolding Parser.advance
Reads-four p a b c d x r a_lo a_hi b_lo b_hi c_lo c_hi d_lo d_hi e =
    let q = opened p a 4 in
    let o = IsOpen-opened p a 4 r in
    let o' = IsOpen-next q b o (opened-room p a 2 4 r (omega arith)) in
    (
      record (next (next (next q b) c) d) { utf8_len = 0; utf8_expected = 0 },
      rw
          (
            step_first4 p a r a_lo a_hi,
            step_middle q b o b_lo b_hi (omega arith),
            step_middle (next q b) c o' c_lo c_hi (omega arith),
            step_last (next (next q b) c) d
                (IsOpen-next (next q b) c o'
                  (next-room q b 3 (opened-room p a 3 4 r (omega arith))))
                d_lo d_hi refl,
            prefix-set4 p.utf8 a b c d r.four_bytes,
            e,
          )
          refl,
      record {
        in_ground = r.in_ground;
        no_bytes = refl;
        four_bytes = length-set4 p.utf8 a b c d ∙ r.four_bytes;
      },
    )

Reads-one :
    (p : Parser) (c : ℕ) → IsReady p → 0x20 ≤ c → c < 0x80 → Reads p (c ∷ []) (Action.print c ∷ [])
unfolding Parser.advance
Reads-one p c r lo hi = (p, rw (step_ascii p c r lo hi) refl, r)

-- One character.
pub Reads-char :
    (p : Parser) (c : ℕ)
    → IsReady p
    → 0x20 ≤ c
    → IsScalar c
    → Reads p (encode_utf8 c) (Action.print c ∷ [])
unfolding encode_utf8
Reads-char p c r lo s = elim (Bool-cases (ltb c 0x80)) [
  | inl one ↦ rw one (Reads-one p c r lo (ground arith))
  | inr more ↦ rw more (elim (Bool-cases (ltb c 0x800)) [
    | inl e2 ↦ rw e2 (
        Reads-two p _ _ c r (omega arith) (ground arith) (omega arith) (ground arith)
          (two c (ground arith) (ground arith)))
    | inr e3 ↦ rw e3 (elim (Bool-cases (ltb c 0x10000)) [
      | inl le ↦ rw le (
          Reads-three p _ _ _ c r (omega arith) (ground arith) (omega arith) (ground arith)
            (omega arith) (ground arith) (three c (ground arith) (ground arith) s))
      | inr gt ↦ rw gt (
          Reads-four p _ _ _ _ c r (omega arith) (ground arith) (omega arith) (ground arith)
            (omega arith) (ground arith) (omega arith) (ground arith)
            (four c (ground arith) (ground arith)))
    ])
  ])
]
