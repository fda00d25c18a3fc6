-- ===== src/Terminal/Input/Decoding.antt =====
-- UTF-8 sequences in the ground state of the parser of crates/rdt-terminal, byte by byte.
use remote_desktop_tool.Prelude.{
  ℕ, ◌+◌, ◌/◌, ◌%◌, ◌≤◌, ◌<◌, ◌≡◌, refl, arith, List, [], ◌∷◌, some, set, length,
}
use remote_desktop_tool.Terminal.Parser
use remote_desktop_tool.Terminal.Parser.Types.{Parser, Action, State}
use remote_desktop_tool.Terminal.Parser.Utf8.{
  decode_utf8, utf8_start, ground_idle, utf8_continue, utf8, prefix, unwrap_or_replacement,
  is_continuation,
}
use remote_desktop_tool.Terminal.Parser.Utf8
use remote_desktop_tool.Terminal.Parser.WellFormed.{IsScalar}

pub two :
    (c : ℕ) → 0x80 ≤ c → c < 0x800 → decode_utf8 ((0xC0 + c / 64) ∷ (0x80 + c % 64) ∷ []) ≡ some c
unfolding decode_utf8
two c lo hi = ground arith

pub three :
    (c : ℕ)
    → 0x800 ≤ c
    → c < 0x10000
    → IsScalar c
    → decode_utf8 ((0xE0 + c / 4096) ∷ (0x80 + c / 64 % 64) ∷ (0x80 + c % 64) ∷ []) ≡ some c
unfolding decode_utf8
three c lo hi s = ground arith

pub four :
    (c : ℕ)
    → 0x10000 ≤ c
    → c < 0x110000
    → decode_utf8
        ((0xF0 + c / 262144) ∷ (0x80 + c / 4096 % 64) ∷ (0x80 + c / 64 % 64) ∷ (0x80 + c % 64) ∷ [])
      ≡ some c
unfolding decode_utf8
four c lo hi = ground arith

-- No sequence of any kind is open.
pub record IsReady (p : Parser) : Type 0 where
  pub in_ground : p.state ≡ State.ground
  pub no_bytes : p.utf8_len ≡ 0
  pub four_bytes : length p.utf8 ≡ 4

pub step_ascii :
    (p : Parser) (c : ℕ)
    → IsReady p
    → 0x20 ≤ c
    → c < 0x80
    → Parser.step p c ≡ some (p, Action.print c ∷ [])
unfolding Parser.step Parser.dispatch Utf8.ground
step_ascii p c r lo hi = ground arith

-- The parser after the first byte of a sequence of `n` bytes.
abbrev pub opened : Parser → ℕ → ℕ → Parser
opened p byte n = record p { utf8_expected = n; utf8 = set p.utf8 0 byte; utf8_len = 1 }

pub step_first2 :
    (p : Parser) (byte : ℕ)
    → IsReady p
    → 0xC0 ≤ byte
    → byte ≤ 0xDF
    → Parser.step p byte ≡ some (opened p byte 2, [])
unfolding Parser.step Parser.dispatch Utf8.ground utf8 utf8_start
step_first2 p byte r lo hi = ground arith

pub step_first3 :
    (p : Parser) (byte : ℕ)
    → IsReady p
    → 0xE0 ≤ byte
    → byte ≤ 0xEF
    → Parser.step p byte ≡ some (opened p byte 3, [])
unfolding Parser.step Parser.dispatch Utf8.ground utf8 utf8_start
step_first3 p byte r lo hi = ground arith

pub step_first4 :
    (p : Parser) (byte : ℕ)
    → IsReady p
    → 0xF0 ≤ byte
    → byte ≤ 0xF7
    → Parser.step p byte ≡ some (opened p byte 4, [])
unfolding Parser.step Parser.dispatch Utf8.ground utf8 utf8_start
step_first4 p byte r lo hi = ground arith

-- The parser with one more byte of the sequence.
abbrev pub next : Parser → ℕ → Parser
next p byte = record p { utf8 = set p.utf8 p.utf8_len byte; utf8_len = p.utf8_len + 1 }

-- A sequence is open that has room for a byte.
pub record IsOpen (p : Parser) : Type 0 where
  pub in_ground : p.state ≡ State.ground
  pub begun : 0 < p.utf8_len
  pub room : p.utf8_len < length p.utf8

-- A continuation byte that is not the last.
pub step_middle :
    (p : Parser) (byte : ℕ)
    → IsOpen p
    → 0x80 ≤ byte
    → byte ≤ 0xBF
    → p.utf8_len + 1 < p.utf8_expected
    → Parser.step p byte ≡ some (next p byte, [])
unfolding Parser.step Parser.dispatch Utf8.ground utf8 utf8_continue
step_middle p byte o lo hi more = ground arith

-- The last one, with which the sequence is decoded.
pub step_last :
    (p : Parser) (byte : ℕ)
    → IsOpen p
    → 0x80 ≤ byte
    → byte ≤ 0xBF
    → p.utf8_len + 1 ≡ p.utf8_expected
    → Parser.step p byte
      ≡ some (
        record (next p byte) { utf8_len = 0; utf8_expected = 0 },
        Action.print (
              unwrap_or_replacement
                (decode_utf8 (prefix (p.utf8_len + 1) (set p.utf8 p.utf8_len byte))))
            ∷ [],
      )
unfolding Parser.step Parser.dispatch Utf8.ground utf8 utf8_continue
step_last p byte o lo hi last = ground arith

pub prefix-set2 :
    (xs : List ℕ) (a b : ℕ) → length xs ≡ 4 → prefix 2 (set (set xs 0 a) 1 b) ≡ a ∷ b ∷ []
prefix-set2 (w ∷ x ∷ xs) a b h = refl
prefix-set2 (w ∷ []) a b h = absurd (omega arith)
prefix-set2 [] a b h = absurd (omega arith)

pub prefix-set3 :
    (xs : List ℕ) (a b c : ℕ)
    → length xs ≡ 4
    → prefix 3 (set (set (set xs 0 a) 1 b) 2 c) ≡ a ∷ b ∷ c ∷ []
prefix-set3 (w ∷ x ∷ y ∷ xs) a b c h = refl
prefix-set3 (w ∷ x ∷ []) a b c h = absurd (omega arith)
prefix-set3 (w ∷ []) a b c h = absurd (omega arith)
prefix-set3 [] a b c h = absurd (omega arith)

pub prefix-set4 :
    (xs : List ℕ) (a b c d : ℕ)
    → length xs ≡ 4
    → prefix 4 (set (set (set (set xs 0 a) 1 b) 2 c) 3 d) ≡ a ∷ b ∷ c ∷ d ∷ []
prefix-set4 (w ∷ x ∷ y ∷ z ∷ xs) a b c d h = refl
prefix-set4 (w ∷ x ∷ y ∷ []) a b c d h = absurd (omega arith)
prefix-set4 (w ∷ x ∷ []) a b c d h = absurd (omega arith)
prefix-set4 (w ∷ []) a b c d h = absurd (omega arith)
prefix-set4 [] a b c d h = absurd (omega arith)
