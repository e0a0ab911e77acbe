-- ===== src/Labels/Bubbles.antt =====
-- The bubble at the pointer: `pointerBubblePlacement` of web/static/js/label-layout.js. Coordinates
-- and sizes are in pixels.
use wiredraft.Prelude.{ℕ, Bool, ◌+◌, nat_eq, string_eq, if◌then◌else◌}
use wiredraft.Prelude.Int.{ℤ, pos, ◌+ℤ◌, ◌-ℤ◌, leb_ℤ, min_ℤ, max_ℤ}
use wiredraft.Rack.{Point}

pub record BubbleSize : Type 0 where
  pub width : ℕ
  pub height : ℕ

pub record Bubble : Type 0 where
  pub x : ℤ
  pub y : ℤ
  pub width : ℕ
  pub height : ℕ
  pub tail_point : Point
  pub tail_first : Point
  pub tail_second : Point

-- `Math.max(low, Math.min(start, high))`
unfoldable pub clamp_between : ℤ → ℤ → ℤ → ℤ
clamp_between low high start = max_ℤ low (min_ℤ start high)

-- On one axis: whether the panel lies after the pointer, and where it begins.
unfoldable pub goes_after : ℤ → ℕ → ℕ → ℕ → ℕ → Bool
goes_after pointer size viewport gap margin =
    leb_ℤ (pointer +ℤ pos (gap + size)) (pos viewport -ℤ pos margin)

unfoldable pub panel_start : ℤ → ℕ → ℕ → ℕ → ℕ → ℤ
panel_start pointer size viewport gap margin =
    clamp_between (pos margin) (pos viewport -ℤ pos (size + margin)) (
      if goes_after pointer size viewport gap margin
      then pointer +ℤ pos gap
      else pointer -ℤ pos (gap + size))

unfoldable pub pointer_bubble_placement : Point → BubbleSize → BubbleSize → ℕ → ℕ → Bubble
unfolding panel_start goes_after clamp_between
pointer_bubble_placement pointer size viewport gap margin =
    let x = panel_start pointer.x size.width viewport.width gap margin in
    let y = panel_start pointer.y size.height viewport.height gap margin in
    let tail_x =
      if goes_after pointer.x size.width viewport.width gap margin
      then x
      else x +ℤ pos size.width in
    let tail_y = clamp_between (y +ℤ pos 8) (y +ℤ pos size.height -ℤ pos 8) pointer.y in
    record {
      x = x;
      y = y;
      width = size.width;
      height = size.height;
      tail_point = pointer;
      tail_first = record { x = tail_x; y = tail_y -ℤ pos 5 };
      tail_second = record { x = tail_x; y = tail_y +ℤ pos 5 };
    }
