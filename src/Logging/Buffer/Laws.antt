-- ===== src/Logging/Buffer/Laws.antt =====
-- What a log buffer holds after any pushes.
use remote_desktop_tool.Prelude.{
  ℕ, suc, ◌+◌, ◌-◌, ◌%◌, ◌^◌, ◌≤◌, ◌<◌, ◌≡◌, refl, ap, ◌∙◌, inl, inr, arith, Bool-cases, true,
  false, List, [], ◌∷◌, ◌++◌, ◌==◌, leb, ltb, length, drop, length-append, append-nil, append_assoc,
}
use remote_desktop_tool.Logging.Buffer.{LogEntry, LogBuffer, new, make_space, push}

abbrev pub push_all : LogBuffer → List LogEntry → LogBuffer
push_all b [] = b
push_all b (e ∷ entries) = push_all (push b e) entries

make_space-under :
    (capacity : ℕ) (entries : List LogEntry) (dropped : ℕ)
    → length entries < capacity
    → make_space capacity entries dropped ≡ (entries, dropped)
unfolding make_space
make_space-under capacity [] dropped h = refl
make_space-under capacity (e ∷ entries) dropped h =
    let room : leb capacity (length (e ∷ entries)) ≡ false = ground arith in rw room refl

make_space-full :
    (capacity : ℕ) (e : LogEntry) (entries : List LogEntry) (dropped : ℕ)
    → suc (length entries) ≡ capacity
    → dropped + 1 < 2 ^ 64
    → make_space capacity (e ∷ entries) dropped ≡ (entries, dropped + 1)
unfolding make_space
make_space-full capacity e entries dropped h small =
    let full : leb capacity (length (e ∷ entries)) ≡ true = ground arith in
    let exact : (dropped + 1) % 2 ^ 64 ≡ dropped + 1 = omega arith in
    rw (full, exact) (make_space-under capacity entries (dropped + 1) (omega arith))

-- The buffer with these entries after others, of which it has dropped the oldest.
abbrev holding : ℕ → List LogEntry → ℕ → LogBuffer
holding capacity entries dropped = record {
  entries = entries;
  capacity = capacity;
  dropped = dropped;
}

push_under :
    (capacity : ℕ) (entries : List LogEntry) (dropped : ℕ) (e : LogEntry)
    → length entries < capacity
    → push (holding capacity entries dropped) e ≡ holding capacity (entries ++ (e ∷ [])) dropped
unfolding push
push_under capacity entries dropped e h =
    let some_room : (capacity == 0) ≡ false = ground arith in
    rw (some_room, make_space-under capacity entries dropped h) refl

push_full :
    (capacity : ℕ) (old : LogEntry) (entries : List LogEntry) (dropped : ℕ) (e : LogEntry)
    → suc (length entries) ≡ capacity
    → dropped + 1 < 2 ^ 64
    → push (holding capacity (old ∷ entries) dropped) e
      ≡ holding capacity (entries ++ (e ∷ [])) (dropped + 1)
unfolding push
push_full capacity old entries dropped e h small =
    let some_room : (capacity == 0) ≡ false = ground arith in
    rw (some_room, make_space-full capacity old entries dropped h small) refl

-- The last lines of `lines` that fit.
abbrev last_of : ℕ → List LogEntry → List LogEntry
last_of capacity lines = drop (length lines - capacity) lines

push_all-from :
    (capacity : ℕ) (lines entries : List LogEntry) (dropped : ℕ)
    → 1 ≤ capacity
    → length entries ≤ capacity
    → dropped + length lines < 2 ^ 64
    → push_all (holding capacity entries dropped) lines
      ≡ holding capacity
          (last_of capacity (entries ++ lines))
          (dropped + (length (entries ++ lines) - capacity))
push_all-from capacity [] entries dropped some_room fits small =
    let none_over : length entries - capacity ≡ 0 = omega arith in
    let same : dropped + 0 ≡ dropped = omega arith in rw (append-nil entries, none_over, same) refl
push_all-from capacity (e ∷ lines) [] dropped some_room fits small =
    rw (push_under capacity [] dropped e (omega arith))
      (push_all-from capacity lines (e ∷ []) dropped some_room (omega arith) (omega arith))
push_all-from capacity (e ∷ lines) (old ∷ entries) dropped some_room fits small =
    elim (Bool-cases (ltb (suc (length entries)) capacity)) [
      | inl under ↦
          let shorter : suc (length entries) < capacity = ground arith in
          let grown : length (old ∷ entries ++ (e ∷ [])) ≤ capacity =
            omega (arith, length-append entries (e ∷ []), shorter) in
          rw (push_under capacity (old ∷ entries) dropped e shorter) (
            push_all-from capacity lines (old ∷ entries ++ (e ∷ [])) dropped some_room grown
              (omega arith)
            ∙ rw (append_assoc entries (e ∷ []) lines) refl)
      | inr full ↦
          let exact : suc (length entries) ≡ capacity = ground arith in
          let kept : length (entries ++ (e ∷ [])) ≤ capacity =
            omega (arith, length-append entries (e ∷ []), exact) in
          let over : suc (length (entries ++ (e ∷ lines))) - capacity
              ≡ suc (length (entries ++ (e ∷ lines)) - capacity) =
            omega (arith, length-append entries (e ∷ lines), exact) in
          let count : dropped + 1 + (length (entries ++ (e ∷ lines)) - capacity)
              ≡ dropped + suc (length (entries ++ (e ∷ lines)) - capacity) =
            omega arith in
          rw (push_full capacity old entries dropped e exact (omega arith)) (
            push_all-from capacity lines (entries ++ (e ∷ [])) (dropped + 1) some_room kept
              (omega arith)
            ∙ rw (append_assoc entries (e ∷ []) lines, over, count) refl)
    ]

-- A new buffer with some room holds the last lines that were pushed, in their order and as many as
-- fit, and counts all others as dropped, if there are fewer than 2^64 lines.
pub push_all-newest :
    (capacity : ℕ) (lines : List LogEntry)
    → 1 ≤ capacity
    → length lines < 2 ^ 64
    → ((push_all (new capacity) lines).entries ≡ drop (length lines - capacity) lines)
      × ((push_all (new capacity) lines).dropped ≡ length lines - capacity)
unfolding new
push_all-newest capacity lines some_room small =
    let held = push_all-from capacity lines [] 0 some_room (omega arith) (omega arith) in
    (ap (λ b. b.entries) held, ap (λ b. b.dropped) held ∙ omega arith)
