-- ===== src/Terminal/Parser/Params.antt =====
-- Control sequences with numeric parameters, as crates/rdt-terminal/src/parser.rs reads them.
use remote_desktop_tool.Prelude.{
  ℕ, ◌+◌, ◌-◌, ◌*◌, ◌≤◌, ◌<◌, ◌≡◌, refl, ◌∙◌, arith, Bool, false, List, [], ◌∷◌, ◌++◌, Option, none,
  some, ◌>>=◌, map, append_assoc, min, All,
}
use remote_desktop_tool.Terminal.Parser
use remote_desktop_tool.Terminal.Parser.{handles_escape}
use remote_desktop_tool.Terminal.Parser.Types.{
  Parser, Action, State, clear, unwrap_or_zero, push_param, u16_max, accumulate,
}
use remote_desktop_tool.Terminal.Parser.Control.{escape, csi_entry, csi_param, csi_dispatch}

-- A number is the list of its decimal digits, the first one first. It may be empty.
abbrev pub Digits : Type 0
Digits = List ℕ

abbrev pub AreDigits : Digits → Type 0
AreDigits ds = All (λ d. d < 10) ds

abbrev pub decimal : ℕ → Digits → ℕ
decimal n [] = n
decimal n (d ∷ ds) = decimal (n * 10 + d) ds

-- What the parser makes of a number: its value, held at the largest `u16`.
abbrev pub value : Digits → ℕ
value ds = min (decimal 0 ds) u16_max

abbrev pub digit_bytes : Digits → List ℕ → List ℕ
digit_bytes [] rest = rest
digit_bytes (d ∷ ds) rest = (b'0' + d) ∷ digit_bytes ds rest

-- The bytes of the numbers `ds ∷ numbers` with `;` between them, and the final byte.
abbrev pub csi_text : Digits → List Digits → ℕ → List ℕ
csi_text ds [] final = digit_bytes ds (final ∷ [])
csi_text ds (next ∷ numbers) final = digit_bytes ds (b';' ∷ csi_text next numbers final)

abbrev digits_read : Option ℕ → Digits → Option ℕ
digits_read current [] = current
digits_read current (d ∷ ds) = digits_read (some (accumulate current d)) ds

digits_read-decimal :
    (ds : Digits) (current : Option ℕ) (n : ℕ)
    → unwrap_or_zero current ≡ min n u16_max
    → AreDigits ds
    → unwrap_or_zero (digits_read current ds) ≡ min (decimal n ds) u16_max
digits_read-decimal [] current n e h = e
digits_read-decimal (d ∷ ds) current n e h =
    digits_read-decimal ds (some (accumulate current d)) (n * 10 + d) (omega arith) h.1

step_digit :
    (p : Parser) (d : ℕ)
    → p.state ≡ State.csi_param
    → d < 10
    → Parser.step p (b'0' + d)
      ≡ some (record p { current_param = some (accumulate p.current_param d) }, [])
unfolding Parser.step Parser.dispatch csi_param
step_digit p d s h = ground (arith, cancel d)
  where
    cancel : (d : ℕ) → b'0' + d - b'0' ≡ d
    cancel d = omega arith

-- A step without an action leaves what follows.
advance_nothing :
    (m : Option (Parser × List Action)) → m >>= (λ rest. some (rest.0, [] ++ rest.1)) ≡ m
advance_nothing none = refl
advance_nothing (some r) = refl

advance_digits :
    (ds : Digits) (rest : List ℕ) (p : Parser)
    → p.state ≡ State.csi_param
    → AreDigits ds
    → Parser.advance p (digit_bytes ds rest)
      ≡ Parser.advance (record p { current_param = digits_read p.current_param ds }) rest
unfolding Parser.advance
advance_digits [] rest p s h = refl
advance_digits (d ∷ ds) rest p s h =
    let q = record p { current_param = some (accumulate p.current_param d) } in
    rw (step_digit p d s h.0)
      (advance_nothing (Parser.advance q (digit_bytes ds rest)) ∙ advance_digits ds rest q s h.1)

-- A byte that ends a control sequence.
abbrev pub IsFinal : ℕ → Type 0
IsFinal byte = (0x40 ≤ byte) × (byte ≤ 0x7E)

step_separator :
    (p : Parser) → p.state ≡ State.csi_param → Parser.step p b';' ≡ some (push_param p, [])
unfolding Parser.step Parser.dispatch csi_param
step_separator p s = ground arith

step_final :
    (p : Parser) (final : ℕ)
    → p.state ≡ State.csi_param
    → IsFinal final
    → Parser.step p final ≡ some (csi_dispatch p final)
unfolding Parser.step Parser.dispatch csi_param
step_final p final s h = ground arith

-- The one action of the whole, and the state behind it.
abbrev pub Dispatches : Parser → List ℕ → List ℕ → List ℕ → Bool → ℕ → Type 0
Dispatches p bytes params intermediates ignore final =
    (q : Parser) × (Parser.advance p bytes
      ≡ some (q, Action.csi params intermediates ignore final ∷ []))
    × (q.state ≡ State.ground)

-- The number up to a `;`, and what follows.
advance_separator :
    (ds : Digits) (rest : List ℕ) (p : Parser)
    → p.state ≡ State.csi_param
    → AreDigits ds
    → Parser.advance p (digit_bytes ds (b';' ∷ rest))
      ≡ Parser.advance
          (push_param (record p { current_param = digits_read p.current_param ds }))
          rest
unfolding Parser.advance
advance_separator ds rest p s h =
    let read = record p { current_param = digits_read p.current_param ds } in
    advance_digits ds (b';' ∷ rest) p s h
    ∙ rw (step_separator read s) (advance_nothing (Parser.advance (push_param read) rest))

-- The last number and the final byte.
advance_final :
    (ds : Digits) (final : ℕ) (p : Parser)
    → p.state ≡ State.csi_param
    → AreDigits ds
    → IsFinal final
    → Parser.advance p (digit_bytes ds (final ∷ []))
      ≡ some (csi_dispatch (record p { current_param = digits_read p.current_param ds }) final)
unfolding Parser.advance csi_dispatch
advance_final ds final p s h f =
    let read = record p { current_param = digits_read p.current_param ds } in
    advance_digits ds (final ∷ []) p s h ∙ rw (step_final read final s f)

params_read :
    (numbers : List Digits) (ds : Digits) (final : ℕ) (p : Parser)
    → p.state ≡ State.csi_param
    → AreDigits ds
    → All AreDigits numbers
    → IsFinal final
    → Dispatches p
        (csi_text ds numbers final)
        (p.params ++ (unwrap_or_zero (digits_read p.current_param ds) ∷ map value numbers))
        p.intermediates
        p.ignore
        final
unfolding csi_dispatch
params_read [] ds final p s h hs f = (_, advance_final ds final p s h f, refl)
params_read (next ∷ numbers) ds final p s h hs f =
    let q = push_param (record p { current_param = digits_read p.current_param ds }) in
    let (r, parsed, state) = params_read numbers next final q s hs.0 hs.1 f in
    let read : unwrap_or_zero (digits_read none next) ≡ value next =
      digits_read-decimal next none 0 (omega arith) hs.0 in
    (
      r,
      advance_separator ds (csi_text next numbers final) p s h ∙ parsed ∙ rw (read, append_assoc),
      state,
    )

-- The first byte after `ESC [` is read as by the state of the parameters.
entry_digit :
    (p : Parser) (d : ℕ)
    → p.state ≡ State.csi_entry
    → p.current_param ≡ none
    → d < 10
    → Parser.step p (b'0' + d) ≡ Parser.step (record p { state = State.csi_param }) (b'0' + d)
unfolding Parser.step Parser.dispatch csi_entry csi_param
entry_digit p d s c h = ground arith

entry_separator :
    (p : Parser)
    → p.state ≡ State.csi_entry
    → Parser.step p b';' ≡ Parser.step (record p { state = State.csi_param }) b';'
unfolding Parser.step Parser.dispatch csi_entry csi_param
entry_separator p s = ground arith

entry_final :
    (p : Parser) (final : ℕ)
    → p.state ≡ State.csi_entry
    → IsFinal final
    → Parser.step p final ≡ Parser.step (record p { state = State.csi_param }) final
unfolding Parser.step Parser.dispatch csi_entry csi_param csi_dispatch
entry_final p final s f = ground arith

entry_text :
    (ds : Digits) (numbers : List Digits) (final : ℕ) (p : Parser)
    → p.state ≡ State.csi_entry
    → p.current_param ≡ none
    → AreDigits ds
    → IsFinal final
    → Parser.advance p (csi_text ds numbers final)
      ≡ Parser.advance (record p { state = State.csi_param }) (csi_text ds numbers final)
unfolding Parser.advance
entry_text (d ∷ ds) [] final p s c h f = rw (entry_digit p d s c h.0)
entry_text (d ∷ ds) (n ∷ ns) final p s c h f = rw (entry_digit p d s c h.0)
entry_text [] [] final p s c h f = rw (entry_final p final s f)
entry_text [] (n ∷ ns) final p s c h f = rw (entry_separator p s)

-- The parser after `ESC [`.
abbrev opened : Parser → Parser
opened p = record (clear p) { state = State.csi_entry }

advance_introducer :
    (p : Parser) (rest : List ℕ)
    → handles_escape p.state ≡ false
    → Parser.advance p (0x1B ∷ b'[' ∷ rest) ≡ Parser.advance (opened p) rest
unfolding Parser.advance Parser.step Parser.dispatch escape
advance_introducer p rest h =
    rw h (advance_nothing _ ∙ advance_nothing (Parser.advance (opened p) rest))

-- `ESC [ n1 ; n2 ; … F`, with any number of decimal numbers of any length, some perhaps empty,
-- gives one control sequence with those numbers, each held at 65535, from every state but those of
-- a string. Nothing of an earlier sequence gets into it, and the parser is in the ground state.
pub csi_text-parsed :
    (p : Parser) (ds : Digits) (numbers : List Digits) (final : ℕ)
    → handles_escape p.state ≡ false
    → AreDigits ds
    → All AreDigits numbers
    → IsFinal final
    → Dispatches p
        (0x1B ∷ b'[' ∷ csi_text ds numbers final)
        (map value (ds ∷ numbers))
        []
        false
        final
csi_text-parsed p ds numbers final e h hs f =
    let ready = record (opened p) { state = State.csi_param } in
    let (q, parsed, state) = params_read numbers ds final ready refl h hs f in
    let read : unwrap_or_zero (digits_read none ds) ≡ value ds =
      digits_read-decimal ds none 0 (omega arith) h in
    (
      q,
      advance_introducer p (csi_text ds numbers final) e
          ∙ entry_text ds numbers final (opened p) refl refl h f
          ∙ parsed
          ∙ rw read,
      state,
    )
