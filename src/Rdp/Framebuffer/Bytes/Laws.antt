-- ===== src/Rdp/Framebuffer/Bytes/Laws.antt =====
-- Slices and copies in range do not panic, and keep the length.
use mathlib.Core.Path.{subst}
use remote_desktop_tool.Prelude.{
  ℕ, zero, suc, ◌+◌, ◌≤◌, ◌<◌, ◌≡◌, ◌⊎◌, refl, ap, ◌∙◌, arith, true, List, [], ◌∷◌, Option, some,
  leb, length, take, drop, get_elem?, length-take, length-drop, Ensures, Ensures-bind,
}
use remote_desktop_tool.Rdp.Framebuffer.Bytes.{slice, overlay, overlay_at, copy_into, for_rows_from}

pub slice-some :
    (bytes : List ℕ) (from count : ℕ)
    → from + count ≤ length bytes
    → slice bytes from count ≡ some (take count (drop from bytes))
unfolding slice
slice-some bytes from count h =
    let inside : leb (from + count) (length bytes) ≡ true = ground arith in rw inside refl

pub length-slice :
    (bytes : List ℕ) (from count : ℕ)
    → from + count ≤ length bytes
    → length (take count (drop from bytes)) ≡ count
length-slice bytes from count h =
    omega (arith, length-take count (drop from bytes), length-drop from bytes)

length-overlay : (bytes source : List ℕ) → length (overlay bytes source) ≡ length bytes
length-overlay [] source = refl
length-overlay (b ∷ bytes) [] = refl
length-overlay (b ∷ bytes) (s ∷ source) = ap suc (length-overlay bytes source)

pub length-overlay_at :
    (at : ℕ) (bytes source : List ℕ) → length (overlay_at at bytes source) ≡ length bytes
length-overlay_at zero [] source = refl
length-overlay_at (suc at) [] source = refl
length-overlay_at zero (b ∷ bytes) source = length-overlay (b ∷ bytes) source
length-overlay_at (suc at) (b ∷ bytes) source = ap suc (length-overlay_at at bytes source)

pub copy_into-some :
    (bytes : List ℕ) (at : ℕ) (source : List ℕ)
    → at + length source ≤ length bytes
    → copy_into bytes at source ≡ some (overlay_at at bytes source)
unfolding copy_into
copy_into-some bytes at source h =
    let inside : leb (at + length source) (length bytes) ≡ true = ground arith in rw inside refl

pub copy_into-length :
    (bytes : List ℕ) (at : ℕ) (source : List ℕ)
    → at + length source ≤ length bytes
    → Ensures (λ q. length q ≡ length bytes) (copy_into bytes at source)
copy_into-length bytes at source h =
    rw (copy_into-some bytes at source h) (length-overlay_at at bytes source)

-- A loop takes what each of its rounds takes one row further to the end.
pub for_rows_from-Ensures :
    (P : ℕ → List ℕ → Type 0) (f : ℕ → List ℕ → Option (List ℕ)) (total rows row : ℕ)
    (bytes : List ℕ)
    → row + rows ≡ total
    → ((r : ℕ) (p : List ℕ) → r < total → P r p → Ensures (P (suc r)) (f r p))
    → P row bytes
    → Ensures (P total) (for_rows_from row rows f bytes)
unfolding for_rows_from
for_rows_from-Ensures P f total zero row bytes h keep p =
    subst (λ n. P n bytes) {x = row} {y = total} (omega arith) p
for_rows_from-Ensures P f total (suc rows) row bytes h keep p =
    Ensures-bind (P (suc row)) (P total) (f row bytes) (for_rows_from (suc row) rows f)
      (keep row bytes (omega arith) p)
      (λ q k. for_rows_from-Ensures P f total rows (suc row) q (omega arith) keep k)

get_elem?-drop :
    (bytes : List ℕ) (from i : ℕ) → get_elem? (drop from bytes) i ≡ get_elem? bytes (from + i)
get_elem?-drop bytes zero i = ap (get_elem? bytes) {x = i} {y = 0 + i} (omega arith)
get_elem?-drop [] (suc from) i = refl
get_elem?-drop (b ∷ bytes) (suc from) i =
    get_elem?-drop bytes from i
    ∙ ap (get_elem? (b ∷ bytes)) {x = suc (from + i)} {y = suc from + i} (omega arith)

get_elem?-take :
    (bytes : List ℕ) (count i : ℕ) → i < count → get_elem? (take count bytes) i ≡ get_elem? bytes i
get_elem?-take bytes zero i h = absurd (omega arith)
get_elem?-take [] (suc count) i h = refl
get_elem?-take (b ∷ bytes) (suc count) zero h = refl
get_elem?-take (b ∷ bytes) (suc count) (suc i) h = get_elem?-take bytes count i (omega arith)

pub get_elem?-slice :
    (bytes : List ℕ) (from count i : ℕ)
    → i < count
    → get_elem? (take count (drop from bytes)) i ≡ get_elem? bytes (from + i)
get_elem?-slice bytes from count i h =
    get_elem?-take (drop from bytes) count i h ∙ get_elem?-drop bytes from i

overlay-in :
    (bytes source : List ℕ) (i : ℕ)
    → i < length source
    → length source ≤ length bytes
    → get_elem? (overlay bytes source) i ≡ get_elem? source i
overlay-in bytes [] i h le = absurd (omega arith)
overlay-in [] (s ∷ source) i h le = absurd (omega arith)
overlay-in (b ∷ bytes) (s ∷ source) zero h le = refl
overlay-in (b ∷ bytes) (s ∷ source) (suc i) h le =
    overlay-in bytes source i (omega arith) (omega arith)

overlay-out :
    (bytes source : List ℕ) (i : ℕ)
    → length source ≤ i
    → get_elem? (overlay bytes source) i ≡ get_elem? bytes i
overlay-out [] source i h = refl
overlay-out (b ∷ bytes) [] i h = refl
overlay-out (b ∷ bytes) (s ∷ source) zero h = absurd (omega arith)
overlay-out (b ∷ bytes) (s ∷ source) (suc i) h = overlay-out bytes source i (omega arith)

-- Inside what is copied stand the bytes of the source.
pub overlay_at-in :
    (at : ℕ) (bytes source : List ℕ) (j i : ℕ)
    → j ≡ at + i
    → i < length source
    → at + length source ≤ length bytes
    → get_elem? (overlay_at at bytes source) j ≡ get_elem? source i
overlay_at-in at [] source j i e h le = absurd (omega arith)
overlay_at-in zero (b ∷ bytes) source j i e h le =
    ap (get_elem? (overlay (b ∷ bytes) source)) {x = j} {y = i} (omega arith)
    ∙ overlay-in (b ∷ bytes) source i h (omega arith)
overlay_at-in (suc at) (b ∷ bytes) source zero i e h le = absurd (omega arith)
overlay_at-in (suc at) (b ∷ bytes) source (suc j) i e h le =
    overlay_at-in at bytes source j i (omega arith) h (omega arith)

-- Outside of it nothing changes.
pub overlay_at-out :
    (at : ℕ) (bytes source : List ℕ) (j : ℕ)
    → (j < at) ⊎ (at + length source ≤ j)
    → get_elem? (overlay_at at bytes source) j ≡ get_elem? bytes j
overlay_at-out at [] source j h = refl
overlay_at-out zero (b ∷ bytes) source j h = overlay-out (b ∷ bytes) source j (omega arith)
overlay_at-out (suc at) (b ∷ bytes) source zero h = refl
overlay_at-out (suc at) (b ∷ bytes) source (suc j) h =
    overlay_at-out at bytes source j (omega arith)
