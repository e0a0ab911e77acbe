-- ===== src/Pdf/Tiles/Cover.antt =====
-- The pages of a plan cover the map: `pdfTilePlan` of web/static/js/pdf-tiles.js.
use native.Mathlib.Nat.{
  lt-div-mul-add, div-mul-le_self, mul-add-div_right, mul-add-mod_self_right, le-div_iff_mul-le,
  div-eq_of_lt, mod-eq_of_lt,
}
use wiredraft.Prelude.{
  ℕ, true, List, [], ◌∷◌, map, In, ◌+◌, ◌-◌, ◌*◌, ◌/◌, ◌%◌, ◌<◌, ◌≤◌, ◌≡◌, ◌⊎◌, refl, inl, inr,
  nat_eq, ltb, contains, max, length, Bool-cases, ok, subst, ◌∙◌, numbers, In-numbers,
  length-numbers, In-map, length-map, passed_test, arith,
}
use wiredraft.Prelude.Int.{ℤ, pos, negsuc, pos_part, neg_part, ◌+ℤ◌, ◌-ℤ◌, ◌≤ℤ◌, ◌<ℤ◌, int_laws}
use wiredraft.Pdf.Tiles.{
  Extent, PageTile, bad_extent, too_many_pages, tile_width, tile_height, step_x, step_y, tile_count,
  page_at, tile_columns, tile_rows, is_bad_extent, pdf_tile_plan,
}

-- The last of the tiles reaches to the end.
tile_count-reaches :
    (extent tile step : ℕ)
    → 0 < step
    → extent + 12000 ≤ (tile_count extent tile step - 1) * step + tile
unfolding tile_count
tile_count-reaches extent tile step above =
    let rounds = (extent + 12000 - tile + (step - 1)) / step in
    let count : max 1 (rounds + 1) - 1 ≡ rounds = omega arith in
    rw count (omega (arith, lt-div-mul-add {a = extent + 12000 - tile + (step - 1)} above))

tile_count-pos : (extent tile step : ℕ) → 0 < tile_count extent tile step
unfolding tile_count
tile_count-pos extent tile step = omega arith

-- Every place has its tile: the last that starts before it, or the last of all.
tile_of_place :
    (extent tile step place : ℕ)
    → 0 < step
    → step ≤ tile
    → place ≤ extent + 12000
    → (k : ℕ) × (k < tile_count extent tile step) × (k * step ≤ place) × (place ≤ k * step + tile)
tile_of_place extent tile step place above narrow inside =
    let count = tile_count extent tile step in
    let some_tile = tile_count-pos extent tile step in
    elim (Bool-cases (ltb (place / step) count)) [
      | inl early ↦ (
        place / step,
        ground arith,
        div-mul-le_self place step,
        omega (arith, lt-div-mul-add {a = place} above),
      )
      | inr late ↦ (
        count - 1,
        omega arith,
        (le-div_iff_mul-le above).0 (ground arith),
        omega (arith, tile_count-reaches extent tile step above),
      )
    ]

one_part : (a : ℤ) → (pos_part a ≡ 0) ⊎ (neg_part a ≡ 0)
one_part (pos n) = inr refl
one_part (negsuc n) = inl refl

-- One axis: the number of the tile that holds a place between the ends.
tile_on_axis :
    (start extent place : ℤ) (tile step : ℕ)
    → 0 < step
    → step ≤ tile
    → pos 0 <ℤ extent
    → start -ℤ pos 6000 ≤ℤ place
    → place ≤ℤ start +ℤ extent +ℤ pos 6000
    → (k : ℕ) × (k < tile_count (pos_part extent) tile step)
      × (start -ℤ pos 6000 +ℤ pos (k * step) ≤ℤ place)
      × (place ≤ℤ start -ℤ pos 6000 +ℤ pos (k * step) +ℤ pos tile)
tile_on_axis start extent place tile step above narrow wide low high =
    let from = place -ℤ (start -ℤ pos 6000) in
    let near : pos_part from ≤ pos_part extent + 12000 =
      omega (int_laws, one_part from, one_part extent) in
    let (k, below, before, after) =
      tile_of_place (pos_part extent) tile step (pos_part from) above narrow near in
    (k, below, omega (int_laws, one_part from), omega (int_laws, one_part from))

index-lt :
    (rows columns row column : ℕ)
    → row < rows
    → column < columns
    → row * columns + column < columns * rows
index-lt rows columns row column below inside = grind arith

scale_cases :
    (quarters : ℕ)
    → contains (3 ∷ 4 ∷ 6 ∷ []) quarters ≡ true
    → (quarters ≡ 3) ⊎ ((quarters ≡ 4) ⊎ (quarters ≡ 6))
scale_cases quarters h = ground arith

step_facts :
    (quarters : ℕ)
    → contains (3 ∷ 4 ∷ 6 ∷ []) quarters ≡ true
    → (0 < step_x quarters) × (0 < step_y quarters)
step_facts quarters h = elim (scale_cases quarters h) [
  | inl same ↦ rw same (omega arith)
  | inr (inl same) ↦ rw same (omega arith)
  | inr (inr same) ↦ rw same (omega arith)
]

module _ (extent : Extent) (quarters columns rows row column : ℕ) (below : row < rows)
    (inside : column < columns) where
  index_row : (row * columns + column) / columns ≡ row
  index_row =
      mul-add-div_right {m = columns} (omega arith) row column ∙ omega (arith, div-eq_of_lt inside)

  index_column : (row * columns + column) % columns ≡ column
  index_column = mul-add-mod_self_right row columns column ∙ mod-eq_of_lt inside

  -- The tile in that row and column is one of the plan.
  In-tiles :
      In
        (page_at quarters extent rows columns (row * columns + column))
        (map (page_at quarters extent rows columns) (numbers 0 (columns * rows)))
  In-tiles = In-map (page_at quarters extent rows columns) (row * columns + column) _ (
      In-numbers 0 (columns * rows) _ (omega arith)
        (omega (arith, index-lt rows columns row column below inside)))

-- The place is on the tile.
abbrev pub Holds : PageTile → ℤ → ℤ → Type 0
Holds tile x y =
    (tile.x ≤ℤ x)
    × (x ≤ℤ tile.x +ℤ pos tile.width)
    × (tile.y ≤ℤ y)
    × (y ≤ℤ tile.y +ℤ pos tile.height)

-- The pages of a plan are at most 100, and cover the map: every place in the extent, or at most 20
-- points outside it, lies on one of them.
pub pdf_tile_plan-covers :
    (extent : Extent) (quarters : ℕ) {tiles : List PageTile} (x y : ℤ)
    → pdf_tile_plan extent quarters ≡ ok tiles
    → extent.x -ℤ pos 6000 ≤ℤ x
    → x ≤ℤ extent.x +ℤ extent.width +ℤ pos 6000
    → extent.y -ℤ pos 6000 ≤ℤ y
    → y ≤ℤ extent.y +ℤ extent.height +ℤ pos 6000
    → (length tiles ≤ 100) × (tile : PageTile) × In tile tiles × Holds tile x y
unfolding pdf_tile_plan
pdf_tile_plan-covers extent quarters {tiles} x y h left right top bottom =
    let columns = tile_columns extent quarters in
    let rows = tile_rows extent quarters in
    let a = passed_test (is_bad_extent extent quarters) bad_extent _ h in
    let b = passed_test (ltb 100 (columns * rows)) too_many_pages _ a.1 in
    let scaled : contains (3 ∷ 4 ∷ 6 ∷ []) quarters ≡ true = ground arith in
    let wide : pos 0 <ℤ extent.width = ground arith in
    let tall : pos 0 <ℤ extent.height = ground arith in
    let steps = step_facts quarters scaled in
    let (column, inside, x_from, x_to) =
      tile_on_axis extent.x extent.width x (tile_width quarters) (step_x quarters) steps.0
        (omega arith) wide left right in
    let (row, below, y_from, y_to) =
      tile_on_axis extent.y extent.height y (tile_height quarters) (step_y quarters) steps.1
        (omega arith) tall top bottom in
    let index = row * columns + column in
    let tile = page_at quarters extent rows columns index in
    let row_is = index_row extent quarters columns rows row column below inside in
    let column_is = index_column extent quarters columns rows row column below inside in
    let whole : map (page_at quarters extent rows columns) (numbers 0 (columns * rows)) ≡ tiles =
      cc in
    let count = length-map (page_at quarters extent rows columns) (numbers 0 (columns * rows)) in
    let few : columns * rows ≤ 100 = ground arith in
    subst
      (λ planned. (length planned ≤ 100) × (found : PageTile) × In found planned × Holds found x y)
      whole
      (
        omega (arith, count, length-numbers 0 (columns * rows)),
        tile,
        In-tiles extent quarters columns rows row column below inside,
        (rw column_is x_from, rw column_is x_to, rw row_is y_from, rw row_is y_to),
      )
