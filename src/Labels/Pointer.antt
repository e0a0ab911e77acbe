-- ===== src/Labels/Pointer.antt =====
-- The bubble stays in the view and leaves the pointer outside: `pointerBubblePlacement` of
-- web/static/js/label-layout.js.
use wiredraft.Prelude.{
  ℕ, true, false, ◌+◌, ◌≤◌, ◌≡◌, ◌⊎◌, refl, inl, inr, if◌then◌else◌, Bool-cases, arith,
}
use wiredraft.Prelude.Int.{ℤ, pos, ◌+ℤ◌, ◌-ℤ◌, ◌≤ℤ◌, ◌<ℤ◌, int_laws, leb→le_ℤ, le→leb_ℤ}
use wiredraft.Rack.{Point}
use wiredraft.Labels.Bubbles.{
  BubbleSize, clamp_between, goes_after, panel_start, pointer_bubble_placement,
}

-- A coordinate between two bounds.
clamped :
    (low high start : ℤ)
    → low ≤ℤ high
    → (low ≤ℤ clamp_between low high start) × (clamp_between low high start ≤ℤ high)
unfolding clamp_between
clamped low high start h = ground arith

clamped_above : (low high start : ℤ) → start ≤ℤ high → start ≤ℤ clamp_between low high start
unfolding clamp_between
clamped_above low high start h = ground arith

clamped_below : (low high start : ℤ) → low ≤ℤ start → clamp_between low high start ≤ℤ start
unfolding clamp_between
clamped_below low high start h = ground arith

module _ (pointer : ℤ) (size viewport gap margin : ℕ)
    (fits : size + margin + margin ≤ viewport) where
  abbrev end : ℤ
  end = pos viewport -ℤ pos (size + margin)

  goes_after-fits :
      goes_after pointer size viewport gap margin ≡ true
      → pointer +ℤ pos (gap + size) ≤ℤ pos viewport -ℤ pos margin
  unfolding goes_after
  goes_after-fits h = leb→le_ℤ (pointer +ℤ pos (gap + size)) (pos viewport -ℤ pos margin) h

  fits-goes_after :
      pointer +ℤ pos (gap + size + margin) ≤ℤ pos viewport
      → goes_after pointer size viewport gap margin ≡ true
  unfolding goes_after
  fits-goes_after h =
      le→leb_ℤ (pointer +ℤ pos (gap + size)) (pos viewport -ℤ pos margin) (omega int_laws)

  -- On one axis the panel lies within the margins.
  pub panel_start-inside :
      (pos margin ≤ℤ panel_start pointer size viewport gap margin)
      × (panel_start pointer size viewport gap margin +ℤ pos (size + margin) ≤ℤ pos viewport)
  unfolding panel_start
  panel_start-inside = omega (
    int_laws,
    clamped (pos margin) end
        (if goes_after pointer size viewport gap margin
          then pointer +ℤ pos gap
          else pointer -ℤ pos (gap + size))
        (omega int_laws),
  )

  -- Where one side of the pointer has room, the pointer is beside the panel.
  pub panel_start-beside :
      (pos (gap + size + margin) ≤ℤ pointer)
        ⊎ (pointer +ℤ pos (gap + size + margin) ≤ℤ pos viewport)
      → ((goes_after pointer size viewport gap margin ≡ true)
          × (pointer +ℤ pos gap ≤ℤ panel_start pointer size viewport gap margin))
        ⊎ ((goes_after pointer size viewport gap margin ≡ false)
            × (panel_start pointer size viewport gap margin +ℤ pos (size + gap) ≤ℤ pointer))
  unfolding panel_start
  panel_start-beside room = elim (Bool-cases (goes_after pointer size viewport gap margin)) [
    | inl after ↦
        let inside : pointer +ℤ pos gap ≤ℤ end = omega (int_laws, goes_after-fits after) in
        rw after (inl (refl, clamped_above (pos margin) end (pointer +ℤ pos gap) inside))
    | inr before ↦
        let h : pos margin ≤ℤ pointer -ℤ pos (gap + size) = elim room [
          | inl left ↦ omega int_laws
          | inr right ↦ absurd (ground (arith, fits-goes_after right))
        ] in
        let k = clamped_below (pos margin) end (pointer -ℤ pos (gap + size)) h in
        rw before (inr (refl, omega int_laws))
  ]

-- Neither side of the pointer has room, or one has.
has_room :
    (pointer : ℤ) (size viewport gap margin : ℕ)
    → ((pointer <ℤ pos (gap + size + margin))
        × (pos viewport <ℤ pointer +ℤ pos (gap + size + margin)))
      ⊎ ((pos (gap + size + margin) ≤ℤ pointer)
          ⊎ (pointer +ℤ pos (gap + size + margin) ≤ℤ pos viewport))
has_room pointer size viewport gap margin = ground arith

-- In a view with room for the bubble and its margins, the bubble lies within the margins. If one
-- side of the pointer has room for the bubble, the gap and the margin, the pointer is beside the
-- bubble by at least the gap, and the tail starts at the edge of the bubble that is on the
-- pointer's side.
pub pointer_bubble_placement_lem :
    (pointer : Point) (size viewport : BubbleSize) (gap margin : ℕ)
    → size.width + margin + margin ≤ viewport.width
    → size.height + margin + margin ≤ viewport.height
    → let bubble = pointer_bubble_placement pointer size viewport gap margin in
      (pos margin ≤ℤ bubble.x)
      × (bubble.x +ℤ pos (bubble.width + margin) ≤ℤ pos viewport.width)
      × (pos margin ≤ℤ bubble.y)
      × (bubble.y +ℤ pos (bubble.height + margin) ≤ℤ pos viewport.height)
      × (((pointer.x <ℤ pos (gap + size.width + margin))
            × (pos viewport.width <ℤ pointer.x +ℤ pos (gap + size.width + margin)))
          ⊎ (((pointer.x +ℤ pos gap ≤ℤ bubble.x) × (bubble.tail_first.x ≡ bubble.x))
              ⊎ ((bubble.x +ℤ pos (bubble.width + gap) ≤ℤ pointer.x)
                  × (bubble.tail_first.x ≡ bubble.x +ℤ pos bubble.width))))
unfolding pointer_bubble_placement
pointer_bubble_placement_lem pointer size viewport gap margin wide tall =
    let across = panel_start-inside pointer.x size.width viewport.width gap margin wide in
    let down = panel_start-inside pointer.y size.height viewport.height gap margin tall in
    (
      across.0,
      across.1,
      down.0,
      down.1,
      elim (has_room pointer.x size.width viewport.width gap margin) [
        | inl neither ↦ inl neither
        | inr room ↦
            elim (panel_start-beside pointer.x size.width viewport.width gap margin wide room) [
              | inl (after, right) ↦ inr (inl (right, rw after refl))
              | inr (before, left) ↦ inr (inr (left, rw before refl))
            ]
      ],
    )
