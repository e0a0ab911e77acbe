-- ===== src/Tests/ExportTests.antt =====
-- Files, pages and labels of an export, run.
use Prim.Native.Char.{code}
use wiredraft.Prelude.{
  ℕ, String, List, [], ◌∷◌, ◌≡◌, ◌⊎◌, refl, length, ◌+◌, In, ◌≤◌, ok, err, arith,
}
use wiredraft.Prelude.Int.{◌<ℤ◌, pos, ◌+ℤ◌, ◌-ℤ◌, ◌≤ℤ◌}
use wiredraft.Pdf.{TilePage, page_count, build_tiled_pdf}
use wiredraft.Pdf.Xref.{IsTiled, build_tiled_pdf-IsTiled}
use wiredraft.Pdf.Tiles.{Extent, PageTile, page_at, pdf_tile_plan}
use wiredraft.Pdf.Tiles.Cover.{Holds, pdf_tile_plan-covers}
use wiredraft.Labels.{LabelItem, place_cable_labels, fallback_steps}
use wiredraft.Labels.Bubbles.{Bubble, pointer_bubble_placement}
use wiredraft.Labels.Separate.{IsPlaced, place_cable_labels-IsPlaced}
use wiredraft.Labels.Pointer.{pointer_bubble_placement_lem}

-- The encoder on ASCII.
abbrev ascii : String → List ℕ
ascii String.[] = []
ascii (String.◌∷◌ c s) = code c ∷ ascii s

abbrev pages : List TilePage
pages =
    record { bytes = 255 ∷ 216 ∷ []; pixel_width = 2; pixel_height = 1; row = 1; column = 1 } ∷ []

build_tiled_pdf-IsTiled_example : IsTiled ascii pages (build_tiled_pdf ascii pages "core")
build_tiled_pdf-IsTiled_example = build_tiled_pdf-IsTiled ascii pages "core"

no_pages : build_tiled_pdf ascii [] "core" ≡ err page_count
unfolding build_tiled_pdf
no_pages = refl

-- A map of 500 by 300 points at full scale: one page.
abbrev small : Extent
small = record { x = pos 0; y = pos 0; width = pos 150000; height = pos 90000 }

small_plan : pdf_tile_plan small 4 ≡ ok (page_at 4 small 1 1 0 ∷ [])
unfolding pdf_tile_plan
small_plan = refl

pdf_tile_plan-covers_example :
    (length (page_at 4 small 1 1 0 ∷ []) ≤ 100)
    × (tile : PageTile) × In tile (page_at 4 small 1 1 0 ∷ [])
    × Holds tile (pos 3000) (pos 96000)
unfolding ◌+ℤ◌ ◌-ℤ◌
pdf_tile_plan-covers_example =
    pdf_tile_plan-covers small 4 (pos 3000) (pos 96000) small_plan (omega arith) (omega arith)
      (omega arith) (omega arith)

-- Two labels with one anchor.
abbrev label_items : List LabelItem
label_items =
    record {
      anchor = record { x = pos 200; y = pos 200 };
      candidates = [];
      width = 60;
      height = 14;
    }
    ∷ record {
      anchor = record { x = pos 200; y = pos 200 };
      candidates = [];
      width = 60;
      height = 14;
    }
    ∷ []

place_cable_labels-IsPlaced_example :
    IsPlaced fallback_steps [] [] label_items (place_cable_labels label_items [])
place_cable_labels-IsPlaced_example = place_cable_labels-IsPlaced label_items []

abbrev bubble : Bubble
bubble =
    pointer_bubble_placement (record { x = pos 480; y = pos 50 })
      (record { width = 40; height = 20 }) (record { width = 500; height = 300 }) 16 8

pointer_bubble_placement_lem_example :
    (pos 8 ≤ℤ bubble.x)
    × (bubble.x +ℤ pos (bubble.width + 8) ≤ℤ pos 500)
    × (pos 8 ≤ℤ bubble.y)
    × (bubble.y +ℤ pos (bubble.height + 8) ≤ℤ pos 300)
    × (((pos 480 <ℤ pos (16 + 40 + 8)) × (pos 500 <ℤ pos 480 +ℤ pos (16 + 40 + 8)))
        ⊎ (((pos 480 +ℤ pos 16 ≤ℤ bubble.x) × (bubble.tail_first.x ≡ bubble.x))
            ⊎ ((bubble.x +ℤ pos (bubble.width + 16) ≤ℤ pos 480)
                × (bubble.tail_first.x ≡ bubble.x +ℤ pos bubble.width))))
unfolding ◌+ℤ◌
pointer_bubble_placement_lem_example =
    pointer_bubble_placement_lem (record { x = pos 480; y = pos 50 })
      (record { width = 40; height = 20 }) (record { width = 500; height = 300 }) 16 8 (omega arith)
      (omega arith)

-- In a view with no room beside it, the pointer is on the bubble.
covered_pointer :
    (pointer_bubble_placement
      (record { x = pos 50; y = pos 50 })
      (record { width = 80; height = 80 })
      (record { width = 100; height = 100 })
      16
      8).x
    ≡ pos 8
unfolding pointer_bubble_placement ◌-ℤ◌ ◌+ℤ◌
covered_pointer = refl
