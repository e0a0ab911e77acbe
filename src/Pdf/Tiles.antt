-- ===== src/Pdf/Tiles.antt =====
-- The plan of the pages of a large map: `pdfTilePlan` of web/static/js/pdf-tiles.js. A length is a
-- whole number of 300ths of a point, in which every length of the source is whole, and the scale is
-- given in quarters; the rounding of floating point is not modelled.
pub mod Cover
use wiredraft.Prelude.{
  ℕ, zero, suc, Bool, List, [], ◌∷◌, map, ◌+◌, ◌-◌, ◌*◌, ◌/◌, ◌%◌, ◌==◌, ◌||◌, not, nat_eq, ltb,
  contains, numbers, max, if◌then◌else◌, Result, ok, err,
}
use wiredraft.Prelude.Int.{ℤ, pos, pos_part, ◌+ℤ◌, ◌-ℤ◌, ltb_ℤ}

abbrev pub page_width : ℕ
page_width = 357165

abbrev pub page_height : ℕ
page_height = 252567

abbrev pub page_margin : ℕ
page_margin = 7200

abbrev pub page_footer : ℕ
page_footer = 4800

abbrev pub page_overlap : ℕ
page_overlap = 5400

pub record Extent : Type 0 where
  pub x : ℤ
  pub y : ℤ
  pub width : ℤ
  pub height : ℤ

pub record PageTile : Type 0 where
  pub x : ℤ
  pub y : ℤ
  pub width : ℕ
  pub height : ℕ
  pub row : ℕ
  pub column : ℕ
  pub rows : ℕ
  pub columns : ℕ

pub data PlanError : Type 0 where
  bad_extent : PlanError
  too_many_pages : PlanError

-- A length on the paper, in the units of the map.
abbrev pub on_map : ℕ → ℕ → ℕ
on_map length quarters = length * 4 / quarters

abbrev pub tile_width : ℕ → ℕ
tile_width quarters = on_map (page_width - page_margin * 2) quarters

abbrev pub tile_height : ℕ → ℕ
tile_height quarters = on_map (page_height - page_margin * 2 - page_footer) quarters

abbrev pub step_x : ℕ → ℕ
step_x quarters = tile_width quarters - on_map page_overlap quarters

abbrev pub step_y : ℕ → ℕ
step_y quarters = tile_height quarters - on_map page_overlap quarters

-- `Math.max(1, Math.ceil((extent + 40 - tile) / step) + 1)`: a quotient below 0 gives 1.
unfoldable pub tile_count : ℕ → ℕ → ℕ → ℕ
tile_count extent tile step = max 1 ((extent + 12000 - tile + (step - 1)) / step + 1)

abbrev pub page_at : ℕ → Extent → ℕ → ℕ → ℕ → PageTile
page_at quarters extent rows columns index = record {
  x = extent.x -ℤ pos 6000 +ℤ pos (index % columns * step_x quarters);
  y = extent.y -ℤ pos 6000 +ℤ pos (index / columns * step_y quarters);
  width = tile_width quarters;
  height = tile_height quarters;
  row = index / columns + 1;
  column = index % columns + 1;
  rows = rows;
  columns = columns;
}

abbrev pub tile_columns : Extent → ℕ → ℕ
tile_columns extent quarters =
    tile_count (pos_part extent.width) (tile_width quarters) (step_x quarters)

abbrev pub tile_rows : Extent → ℕ → ℕ
tile_rows extent quarters =
    tile_count (pos_part extent.height) (tile_height quarters) (step_y quarters)

abbrev pub is_bad_extent : Extent → ℕ → Bool
is_bad_extent extent quarters =
    not (contains (3 ∷ 4 ∷ 6 ∷ []) quarters)
    || not (ltb_ℤ (pos 0) extent.width)
    || not (ltb_ℤ (pos 0) extent.height)

unfoldable pub pdf_tile_plan : Extent → ℕ → Result PlanError (List PageTile)
unfolding tile_count
pdf_tile_plan extent quarters =
    let columns = tile_columns extent quarters in
    let rows = tile_rows extent quarters in
    if is_bad_extent extent quarters
    then err bad_extent
    else if ltb 100 (columns * rows)
    then err too_many_pages
    else ok (map (page_at quarters extent rows columns) (numbers 0 (columns * rows)))
