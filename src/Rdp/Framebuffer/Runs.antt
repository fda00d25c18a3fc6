-- ===== src/Rdp/Framebuffer/Runs.antt =====
-- Sequences of the operations of crates/rdt-rdp/src/framebuffer.rs.
use remote_desktop_tool.Prelude.{
  ℕ, ◌+◌, ◌*◌, ◌%◌, ◌^◌, ◌≤◌, ◌<◌, ◌≡◌, refl, ◌∙◌, inl, inr, arith, Bool-cases, ◌&&◌, ◌==◌, List,
  [], ◌∷◌, Option, some, ◌>>=◌, length, replicate, take, drop, length-replicate, min, max, All,
  Ensures, Ensures-bind, Ensures-some, weaken-Ensures,
}
use remote_desktop_tool.Rdp.Framebuffer.Rect.{DamageRect, clamped}
use remote_desktop_tool.Rdp.Framebuffer.Rect.Laws.{clamped-Inside}
use remote_desktop_tool.Rdp.Framebuffer.Bytes.{for_rows_from}
use remote_desktop_tool.Rdp.Framebuffer.Bytes.Laws.{
  slice-some, length-slice, copy_into-length, for_rows_from-Ensures,
}
use remote_desktop_tool.Rdp.Framebuffer.{
  Framebuffer, area, new, mark_dirty, take_damage, resize_row, resize_to, resize, blit, fill,
}
use remote_desktop_tool.Rdp.Framebuffer.Valid.{
  IsValid, row_inside, Keeps, blit_clamped-IsValid, fill_clamped-IsValid,
}

pub new-IsValid :
    (width height : ℕ) → max width 1 * max height 1 * 4 < 2 ^ 32 → IsValid (new width height)
unfolding new
new-IsValid width height small = record {
  width_pos = omega arith;
  height_pos = omega arith;
  small = small;
  full = length-replicate (area (max width 1) (max height 1)) 0 ∙ omega arith;
  damage_inside = tt;
}

resize_row-length :
    (b : Framebuffer) (width height row : ℕ) (next : List ℕ)
    → IsValid b
    → width * height * 4 < 2 ^ 32
    → row < min height b.height
    → length next ≡ width * height * 4
    → Ensures
        (λ q. length q ≡ width * height * 4)
        (resize_row b width (min width b.width * 4 % 2 ^ 32) row next)
unfolding resize_row
resize_row-length b width height row next v small lt e =
    let count = min width b.width in
    let old = row_inside b.width b.height row 0 count (omega arith) (omega arith) in
    let fits_new = row_inside width height row 0 count (omega arith) (omega arith) in
    let bytes : count * 4 % 2 ^ 32 ≡ count * 4 = omega (arith, old, v.small) in
    let inside : row * (b.width * 4) + count * 4 ≤ length b.pixels = omega (arith, old, v.full) in
    rw (bytes, slice-some b.pixels (row * (b.width * 4)) (count * 4) inside)
      (weaken-Ensures (λ q. length q ≡ length next) (λ q. length q ≡ width * height * 4) _
        (λ q k. k ∙ e)
        (copy_into-length next (row * (width * 4))
          (take (count * 4) (drop (row * (b.width * 4)) b.pixels))
          (omega
            (arith, fits_new, e, length-slice b.pixels (row * (b.width * 4)) (count * 4) inside))))

resize_to-IsValid :
    (b : Framebuffer) (width height : ℕ)
    → IsValid b
    → 1 ≤ width
    → 1 ≤ height
    → width * height * 4 < 2 ^ 32
    → Ensures (Keeps width height) (resize_to b width height)
unfolding mark_dirty
resize_to-IsValid b width height v w h small =
    Ensures-bind (λ q. length q ≡ width * height * 4) _
      (for_rows_from 0 (min height b.height) (resize_row b width (min width b.width * 4 % 2 ^ 32))
        (replicate (area width height) 0))
      _
      (for_rows_from-Ensures (λ r q. length q ≡ width * height * 4) _ (min height b.height)
        (min height b.height) 0 _ (omega arith)
        (λ r p lt e. resize_row-length b width height r p v small lt e)
        (length-replicate (area width height) 0 ∙ omega arith))
      (λ q e. (
        record {
          width_pos = w;
          height_pos = h;
          small = small;
          full = e;
          damage_inside = (record { right = omega arith; bottom = omega arith }, tt);
        },
        refl,
        refl,
      ))

-- What the session does to the picture.
pub data Operation : Type 0 where
  resized : ℕ → ℕ → Operation
  blitted : DamageRect → List ℕ → Operation
  filled : DamageRect → List ℕ → Operation
  taken : Operation

abbrev pub perform : Framebuffer → Operation → Option Framebuffer
perform b (resized width height) = resize b width height
perform b (blitted rect bitmap) = blit b rect bitmap
perform b (filled rect bgra) = fill b rect bgra
perform b taken = some (take_damage b).1

abbrev pub perform_all : Framebuffer → List Operation → Option Framebuffer
perform_all b [] = some b
perform_all b (op ∷ ops) = perform b op >>= λ c. perform_all c ops

-- A new size has fewer than 2^32 bytes, and a colour has four.
abbrev pub InBounds : Operation → Type 0
InBounds (resized width height) = max width 1 * max height 1 * 4 < 2 ^ 32
InBounds (blitted rect bitmap) = Unit
InBounds (filled rect bgra) = length bgra ≡ 4
InBounds taken = Unit

pub perform-IsValid :
    (b : Framebuffer) (op : Operation) → IsValid b → InBounds op → Ensures IsValid (perform b op)
unfolding resize blit fill take_damage
perform-IsValid b (resized width height) v small =
    elim (Bool-cases (max width 1 == b.width && max height 1 == b.height)) [
      | inl same ↦ rw same v
      | inr differs ↦ rw differs (
          weaken-Ensures (Keeps (max width 1) (max height 1)) IsValid _ (λ c k. k.0)
            (resize_to-IsValid b (max width 1) (max height 1) v (omega arith) (omega arith) small))
    ]
perform-IsValid b (blitted rect bitmap) v h =
    weaken-Ensures (Keeps b.width b.height) IsValid _ (λ c k. k.0)
      (blit_clamped-IsValid b (clamped rect b.width b.height) bitmap v
        (clamped-Inside rect b.width b.height v.width_pos v.height_pos))
perform-IsValid b (filled rect bgra) v four =
    weaken-Ensures (Keeps b.width b.height) IsValid _ (λ c k. k.0)
      (fill_clamped-IsValid b (clamped rect b.width b.height) bgra v
        (clamped-Inside rect b.width b.height v.width_pos v.height_pos) four)
perform-IsValid b taken v h = record {
  width_pos = v.width_pos;
  height_pos = v.height_pos;
  small = v.small;
  full = v.full;
  damage_inside = tt;
}

perform_all-Ensures :
    (ops : List Operation) (b : Framebuffer)
    → IsValid b
    → All InBounds ops
    → Ensures IsValid (perform_all b ops)
perform_all-Ensures [] b v h = v
perform_all-Ensures (op ∷ ops) b v h =
    Ensures-bind IsValid IsValid (perform b op) _ (perform-IsValid b op v h.0)
      (λ c w. perform_all-Ensures ops c w h.1)

-- Any sequence of resizes, blits of any rectangles and bitmaps, fills and reads of the damage goes
-- through without a panic on a valid picture, and leaves a valid one, if every new size has fewer
-- than 2^32 bytes and every colour four.
pub perform_all-IsValid :
    (ops : List Operation) (b : Framebuffer)
    → IsValid b
    → All InBounds ops
    → (c : Framebuffer) × (perform_all b ops ≡ some c) × IsValid c
perform_all-IsValid ops b v h = Ensures-some IsValid _ (perform_all-Ensures ops b v h)
