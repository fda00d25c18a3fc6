-- ===== src/Terminal/Input/Keys.antt =====
-- The sequences of the special keys of crates/rdt-terminal/src/input.rs, read by its own parser.
use remote_desktop_tool.Prelude.{
  ℕ, zero, suc, ◌+◌, ◌/◌, ◌%◌, ◌≤◌, ◌<◌, ◌≡◌, ◌∙◌, arith, false, List, [], ◌∷◌, Option, none, some,
  ◌==◌, within, if◌then◌else◌,
}
use remote_desktop_tool.Terminal.Parser.{handles_escape}
use remote_desktop_tool.Terminal.Parser.Types.{Parser}
use remote_desktop_tool.Terminal.Parser.Params.{
  Digits, AreDigits, IsFinal, csi_text, Dispatches, csi_text-parsed,
}
use remote_desktop_tool.Terminal.Screen.Types.{Modes}
use remote_desktop_tool.Terminal.Input.{
  Key, KeyModifier, encode_arrow, encode_edge, encode_tilde, encode_function_key, encode_key,
}

-- xterm's table: the first parameter and the final byte of a key that is pressed with a modifier.
abbrev pub xterm_key : Key → Option (ℕ × ℕ)
xterm_key Key.up = some (1, b'A')
xterm_key Key.down = some (1, b'B')
xterm_key Key.right = some (1, b'C')
xterm_key Key.left = some (1, b'D')
xterm_key Key.home = some (1, b'H')
xterm_key Key.end = some (1, b'F')
xterm_key Key.page_up = some (5, b'~')
xterm_key Key.page_down = some (6, b'~')
xterm_key Key.insert = some (2, b'~')
xterm_key Key.delete = some (3, b'~')
xterm_key (Key.f (suc zero)) = some (1, b'P')
xterm_key (Key.f (suc (suc zero))) = some (1, b'Q')
xterm_key (Key.f (suc (suc (suc zero)))) = some (1, b'R')
xterm_key (Key.f (suc (suc (suc (suc zero))))) = some (1, b'S')
xterm_key _ = none

-- The bytes of such a key, as the text of a control sequence.
abbrev key_text : ℕ × ℕ → KeyModifier → List ℕ
key_text (first, final) m = 0x1B ∷ b'[' ∷ csi_text (first ∷ []) (((m + 1) ∷ []) ∷ []) final

module _ (m : KeyModifier) (modes : Modes) (pos : 0 < m) (small : m < 8) where
  key-text :
      (key : Key) {entry : ℕ × ℕ}
      → xterm_key key ≡ some entry
      → encode_key key m modes ≡ key_text entry m
  unfolding encode_key encode_arrow encode_edge encode_tilde encode_function_key
  key-text Key.up e = ground arith
  key-text (Key.f zero) e = ground arith
  key-text (Key.f (suc zero)) e = ground arith
  key-text (Key.f (suc (suc zero))) e = ground arith
  key-text (Key.f (suc (suc (suc zero)))) e = ground arith
  key-text (Key.f (suc (suc (suc (suc zero))))) e = ground arith
  key-text (Key.f (suc (suc (suc (suc (suc n)))))) e = cc
  key-text _ e = ground arith

entry-fits :
    (key : Key) {first final : ℕ}
    → xterm_key key ≡ some (first, final)
    → (first < 10) × IsFinal final
entry-fits (Key.f zero) e = cc
entry-fits (Key.f (suc zero)) e = ground arith
entry-fits (Key.f (suc (suc zero))) e = ground arith
entry-fits (Key.f (suc (suc (suc zero)))) e = ground arith
entry-fits (Key.f (suc (suc (suc (suc zero))))) e = ground arith
entry-fits (Key.f (suc (suc (suc (suc (suc n)))))) e = cc
entry-fits _ e = ground arith

-- With one of the modifiers 1 to 7, each arrow, Home, End, Page up, Page down, Insert, Delete and
-- F1 to F4 is one control sequence with the parameters and the final byte of xterm's table, the
-- second parameter being one more than the modifiers. The cursor key mode makes no difference.
pub key-parsed :
    (p : Parser) (key : Key) (m : KeyModifier) (modes : Modes) {first final : ℕ}
    → handles_escape p.state ≡ false
    → 0 < m
    → m < 8
    → xterm_key key ≡ some (first, final)
    → Dispatches p (encode_key key m modes) (first ∷ (m + 1) ∷ []) [] false final
key-parsed p key m modes {first} {final} s pos small e =
    let (digit, ends) = entry-fits key e in
    let (q, parsed, state) =
      csi_text-parsed p (first ∷ []) (((m + 1) ∷ []) ∷ []) final s (digit, tt)
        ((omega arith, tt), tt) ends in
    (q, rw (key-text m modes pos small key e) (parsed ∙ ground arith), state)

-- The number that xterm gives F5 to F12: 15, 17 to 21, 23 and 24.
abbrev pub xterm_number : ℕ → ℕ
xterm_number n = if n == 5 then 15 else if within 6 10 n then n + 11 else n + 12

-- Its two digits.
abbrev number_digits : ℕ → Digits
number_digits n = (xterm_number n / 10) ∷ (xterm_number n % 10) ∷ []

plain_function_key-text :
    (n : ℕ)
    → 5 ≤ n
    → n ≤ 12
    → encode_function_key n 0 ≡ 0x1B ∷ b'[' ∷ csi_text (number_digits n) [] b'~'
unfolding encode_function_key
plain_function_key-text n lo hi = ground arith

modified_function_key-text :
    (n : ℕ) (m : KeyModifier)
    → 5 ≤ n
    → n ≤ 12
    → 0 < m
    → m < 8
    → encode_function_key n m
      ≡ 0x1B ∷ b'[' ∷ csi_text (1 ∷ []) (((m + 1) ∷ []) ∷ number_digits n ∷ []) b'~'
unfolding encode_function_key
modified_function_key-text n m lo hi pos small = ground arith

-- F5 to F12 without a modifier are xterm's control sequence, with the key's number as its one
-- parameter. With a modifier the sequence is another than xterm's `CSI number ; modifier ~`: it has
-- the three parameters 1, modifier and number.
pub function_key-parsed :
    (p : Parser) (n : ℕ) (m : KeyModifier)
    → handles_escape p.state ≡ false
    → 5 ≤ n
    → n ≤ 12
    → 0 < m
    → m < 8
    → Dispatches p (encode_function_key n 0) (xterm_number n ∷ []) [] false b'~'
      × Dispatches p (encode_function_key n m) (1 ∷ (m + 1) ∷ xterm_number n ∷ []) [] false b'~'
function_key-parsed p n m s lo hi pos small =
    let digits : AreDigits (number_digits n) = (ground arith, (ground arith, tt)) in
    let ends : IsFinal b'~' = omega arith in
    let (q, plain, plain_state) = csi_text-parsed p (number_digits n) [] b'~' s digits tt ends in
    let (r, modified, modified_state) =
      csi_text-parsed p (1 ∷ []) (((m + 1) ∷ []) ∷ number_digits n ∷ []) b'~' s (omega arith, tt)
        ((omega arith, tt), (digits, tt)) ends in
    (
      (q, rw (plain_function_key-text n lo hi) (plain ∙ ground arith), plain_state),
      (
        r,
        rw (modified_function_key-text n m lo hi pos small) (modified ∙ ground arith),
        modified_state,
      ),
    )
