-- ===== src/Rdp/Framebuffer/Bytes.antt =====
-- Slices of byte vectors, as crates/rdt-rdp/src/framebuffer.rs uses them. `none` is a panic.
pub mod Laws
use remote_desktop_tool.Prelude.{
  ℕ, zero, suc, ◌+◌, List, [], ◌∷◌, ◌++◌, Option, none, some, ◌>>=◌, leb, if◌then◌else◌, length,
  take, drop,
}

-- `&bytes[from..from + count]`.
unfoldable pub slice : List ℕ → ℕ → ℕ → Option (List ℕ)
slice bytes from count =
    if leb (from + count) (length bytes) then some (take count (drop from bytes)) else none

-- The bytes with `source` written over them from the start.
abbrev pub overlay : List ℕ → List ℕ → List ℕ
overlay [] source = []
overlay (b ∷ bytes) [] = b ∷ bytes
overlay (b ∷ bytes) (s ∷ source) = s ∷ overlay bytes source

abbrev pub overlay_at : ℕ → List ℕ → List ℕ → List ℕ
overlay_at at [] source = []
overlay_at zero (b ∷ bytes) source = overlay (b ∷ bytes) source
overlay_at (suc at) (b ∷ bytes) source = b ∷ overlay_at at bytes source

-- `bytes[at..at + source.len()].copy_from_slice(source)`.
unfoldable pub copy_into : List ℕ → ℕ → List ℕ → Option (List ℕ)
copy_into bytes at source =
    if leb (at + length source) (length bytes) then some (overlay_at at bytes source) else none

-- `for row in 0..rows`, from `row` on.
unfoldable pub for_rows_from : ℕ → ℕ → (ℕ → List ℕ → Option (List ℕ)) → List ℕ → Option (List ℕ)
for_rows_from row zero f bytes = some bytes
for_rows_from row (suc rows) f bytes = f row bytes >>= for_rows_from (suc row) rows f

abbrev pub for_rows : ℕ → (ℕ → List ℕ → Option (List ℕ)) → List ℕ → Option (List ℕ)
for_rows rows f bytes = for_rows_from 0 rows f bytes
