-- ===== src/Rdp/Framebuffer/Rect.antt =====
-- `DamageRect` of crates/rdt-rdp/src/framebuffer.rs. The sums of `union` are sums of `u32` that wrap in a
-- release build.
pub mod Laws
use remote_desktop_tool.Prelude.{ℕ, ◌+◌, ◌-◌, ◌%◌, ◌^◌, Bool, ◌||◌, ◌==◌, if◌then◌else◌, min, max}

pub record DamageRect : Type 0 where
  pub left : ℕ
  pub top : ℕ
  pub width : ℕ
  pub height : ℕ

unfoldable pub is_empty : DamageRect → Bool
is_empty r = r.width == 0 || r.height == 0

unfoldable pub clamped : DamageRect → ℕ → ℕ → DamageRect
clamped r width height =
    let left = min r.left (width - 1) in
    let top = min r.top (height - 1) in
    record {
      left = left;
      top = top;
      width = min r.width (width - left);
      height = min r.height (height - top);
    }

-- `a + b` of `u32`.
abbrev pub add_u32 : ℕ → ℕ → ℕ
add_u32 a b = (a + b) % 2 ^ 32

-- The bounding box, of two rectangles that are not empty. `right` is not below `left`, nor `bottom`
-- below `top`, unless a sum wraps.
abbrev pub bounding_box : DamageRect → DamageRect → DamageRect
bounding_box a b =
    let left = min a.left b.left in
    let top = min a.top b.top in
    let right = max (add_u32 a.left a.width) (add_u32 b.left b.width) in
    let bottom = max (add_u32 a.top a.height) (add_u32 b.top b.height) in
    record { left = left; top = top; width = right - left; height = bottom - top }

unfoldable pub union : DamageRect → DamageRect → DamageRect
union a b = if is_empty a then b else if is_empty b then a else bounding_box a b
