-- ===== src/Rdp/Framebuffer.antt =====
-- `Framebuffer` of crates/rdt-rdp/src/framebuffer.rs. `none` is a panic: a slice out of range.
pub mod Rect
pub mod Bytes
pub mod Valid
pub mod Runs
pub mod Blit
mod Tests
use remote_desktop_tool.Prelude.{
  ℕ, ◌+◌, ◌*◌, ◌%◌, ◌^◌, Bool, true, false, ◌&&◌, ◌||◌, List, [], ◌∷◌, ◌++◌, Option, none, some,
  ◌>>=◌, ◌==◌, ltb, if◌then◌else◌, length, replicate, min, max,
}
use remote_desktop_tool.Rdp.Framebuffer.Rect.{DamageRect, is_empty, clamped, union}
use remote_desktop_tool.Rdp.Framebuffer.Bytes.{slice, copy_into, for_rows_from, for_rows}

pub record Framebuffer : Type 0 where
  pub width : ℕ
  pub height : ℕ
  pub pixels : List ℕ
  pub damage : List DamageRect

-- `(width * height * 4) as usize`, a product of `u32` that wraps in a release build.
abbrev pub area : ℕ → ℕ → ℕ
area width height = width * height * 4 % 2 ^ 32

unfoldable pub new : ℕ → ℕ → Framebuffer
new width height =
    let w = max width 1 in
    let h = max height 1 in
    record { width = w; height = h; pixels = replicate (area w h) 0; damage = [] }

-- The last rectangle grows, or the first one is entered.
abbrev pub merge_last : List DamageRect → DamageRect → List DamageRect
merge_last [] rect = rect ∷ []
merge_last (d ∷ []) rect = union d rect ∷ []
merge_last (d ∷ e ∷ rest) rect = d ∷ merge_last (e ∷ rest) rect

unfoldable pub mark_dirty : Framebuffer → DamageRect → Framebuffer
mark_dirty b rect = record b { damage = merge_last b.damage rect }

unfoldable pub take_damage : Framebuffer → List DamageRect × Framebuffer
take_damage b = (b.damage, record b { damage = [] })

-- A row of `resize`, by its number, into the new pixels.
unfoldable pub resize_row : Framebuffer → ℕ → ℕ → ℕ → List ℕ → Option (List ℕ)
resize_row b width row_bytes row next = do
  source ← slice b.pixels (row * (b.width * 4)) row_bytes
  copy_into next (row * (width * 4)) source

abbrev pub resize_to : Framebuffer → ℕ → ℕ → Option Framebuffer
resize_to b width height = do
  next ←
      for_rows (min height b.height) (resize_row b width (min width b.width * 4 % 2 ^ 32))
        (replicate (area width height) 0)
  some (
      mark_dirty (record { width = width; height = height; pixels = next; damage = [] })
        (record { left = 0; top = 0; width = width; height = height }))

unfoldable pub resize : Framebuffer → ℕ → ℕ → Option Framebuffer
resize b width height =
    let w = max width 1 in
    let h = max height 1 in if w == b.width && h == b.height then some b else resize_to b w h

-- Where the row begins in the picture: `u32` arithmetic but for the last factor.
abbrev pub row_start : ℕ → DamageRect → ℕ → ℕ
row_start width rect row = ((rect.top + row) * width + rect.left) % 2 ^ 32 * 4

-- A row of `blit`, by its number.
unfoldable pub blit_row : ℕ → DamageRect → List ℕ → ℕ → List ℕ → Option (List ℕ)
blit_row width rect bitmap row pixels = do
  source ← slice bitmap (row * rect.width % 2 ^ 32 * 4) (rect.width * 4)
  copy_into pixels (row_start width rect row) source

abbrev pub blit_clamped : Framebuffer → DamageRect → List ℕ → Option Framebuffer
blit_clamped b rect bitmap =
    if is_empty rect
    then some b
    else if ltb (length bitmap) (area rect.width rect.height)
    then some b
    else do
      pixels ← for_rows rect.height (blit_row b.width rect bitmap) b.pixels
      some (mark_dirty (record b { pixels = pixels }) rect)

unfoldable pub blit : Framebuffer → DamageRect → List ℕ → Option Framebuffer
blit b rect bitmap = blit_clamped b (clamped rect b.width b.height) bitmap

-- The columns of a row of `fill`, from `column` on; `at` is in `usize`.
unfoldable pub fill_columns : ℕ → List ℕ → ℕ → ℕ → List ℕ → Option (List ℕ)
fill_columns start bgra column count pixels =
    for_rows_from column count (λ c p. copy_into p (start + c * 4) bgra) pixels

unfoldable pub fill_row : ℕ → DamageRect → List ℕ → ℕ → List ℕ → Option (List ℕ)
fill_row width rect bgra row pixels =
    fill_columns (row_start width rect row) bgra 0 rect.width pixels

abbrev pub fill_clamped : Framebuffer → DamageRect → List ℕ → Option Framebuffer
fill_clamped b rect bgra = do
  pixels ← for_rows rect.height (fill_row b.width rect bgra) b.pixels
  some (mark_dirty (record b { pixels = pixels }) rect)

unfoldable pub fill : Framebuffer → DamageRect → List ℕ → Option Framebuffer
fill b rect bgra = fill_clamped b (clamped rect b.width b.height) bgra
