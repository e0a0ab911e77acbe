-- ===== src/SceneTiles.antt =====
-- The tile index of the scene: web/static/js/scene-tiles.js. Coordinates are integers, so a floor
-- is the division that rounds down. The text `${x}:${y}` of a key is the pair of its numbers, and
-- the map of tiles is a function that gives the empty bucket for a missing key. An item has a type
-- with a test of identity, and its bounds.
pub mod Keys
pub mod Buckets
pub mod Query
use wiredraft.Prelude.{
  ℕ, zero, suc, Bool, true, false, ◌&&◌, ◌||◌, not, List, [], ◌∷◌, ◌++◌, Option, none, some, ◌+◌,
  ◌*◌, ◌/◌, ◌^◌, ◌-◌, ◌≡◌, refl, subst, ◌↔◌, ◌==◌, Eq, ltb, leb, if◌then◌else◌, filter, contains,
  add_all, arith,
}
use wiredraft.Prelude.Int.{ℤ, pos, negsuc, pos_part, neg_part, ◌+ℤ◌, ◌-ℤ◌, ltb_ℤ, int_eq}

abbrev pub max_tiles_per_operation : ℕ
max_tiles_per_operation = 4096

pub record SceneBounds : Type 0 where
  pub x : ℤ
  pub y : ℤ
  pub width : ℤ
  pub height : ℤ

pub record Tile : Type 0 where
  pub column : ℤ
  pub row : ℤ

unfoldable pub intersects : SceneBounds → SceneBounds → Bool
intersects left right =
    ltb_ℤ left.x (right.x +ℤ right.width)
    && ltb_ℤ right.x (left.x +ℤ left.width)
    && ltb_ℤ left.y (right.y +ℤ right.height)
    && ltb_ℤ right.y (left.y +ℤ left.height)

-- `Math.floor(a / size)`
unfoldable pub floor_div : ℤ → ℕ → ℤ
floor_div (pos n) size = pos (n / size)
floor_div (negsuc n) size = negsuc (n / size)

-- `Number.isSafeInteger`
unfoldable pub is_safe_integer : ℤ → Bool
is_safe_integer a = ltb (pos_part a + neg_part a) (2 ^ 53)

abbrev pub row_tiles : ℕ → ℤ → ℤ → List Tile → List Tile
row_tiles zero x y rest = rest
row_tiles (suc columns) x y rest =
    record { column = x; row = y } ∷ row_tiles columns (x +ℤ pos 1) y rest

-- The two loops that list the keys.
abbrev pub all_tiles : ℕ → ℕ → ℤ → ℤ → List Tile
all_tiles zero columns left y = []
all_tiles (suc rows) columns left y =
    row_tiles columns left y (all_tiles rows columns left (y +ℤ pos 1))

-- The tests of `keys`, and its loops.
unfoldable pub tiles_between : ℤ → ℤ → ℤ → ℤ → Option (List Tile)
unfolding is_safe_integer
tiles_between left top right bottom =
    let columns = pos_part (right -ℤ left) + 1 in
    let rows = pos_part (bottom -ℤ top) + 1 in
    if not (
        is_safe_integer left
        && is_safe_integer top
        && is_safe_integer right
        && is_safe_integer bottom)
      || ltb_ℤ right left
      || ltb_ℤ bottom top
    then none
    else if ltb max_tiles_per_operation columns
        || ltb max_tiles_per_operation rows
        || ltb max_tiles_per_operation (columns * rows)
    then none
    else some (all_tiles rows columns left top)

unfoldable pub keys : ℕ → SceneBounds → Option (List Tile)
unfolding floor_div tiles_between
keys size bounds =
    tiles_between (floor_div bounds.x size) (floor_div bounds.y size)
      (floor_div (bounds.x +ℤ bounds.width) size) (floor_div (bounds.y +ℤ bounds.height) size)

abbrev pub tile_same : Tile → Tile → Bool
tile_same a b = a.column == b.column && a.row == b.row

same_tile : (a b : Tile) → a.column ≡ b.column → a.row ≡ b.row → a ≡ b
same_tile a b h k i = record { column = h i; row = k i }

both : (a b : Bool) → (a && b) ≡ true → (a ≡ true) × (b ≡ true)
both a b h = (ground arith, ground arith)

pub tile_same_iff : (a b : Tile) → (tile_same a b ≡ true) ↔ (a ≡ b)
tile_same_iff a b = (
  (λ h.
      let (c, r) = both (a.column == b.column) (a.row == b.row) h in
      same_tile a b ((int_eq.same_iff a.column b.column).0 c) ((int_eq.same_iff a.row b.row).0 r)),
  (λ h.
      subst (λ b. tile_same a b ≡ true) h
        (rw ((int_eq.same_iff a.column a.column).1 refl) ((int_eq.same_iff a.row a.row).1 refl))),
)

instance abbrev pub tile_eq : Eq Tile
tile_eq = record { same = tile_same; same_iff = tile_same_iff }

module _ {A : Type 0} ⦃e : Eq A⦄ (bounds : A → SceneBounds) where
  pub record SceneTileIndex : Type 0 where
    pub tile_size : ℕ
    pub tiles : Tile → List A
    pub items : List A
    pub untiled : List A

  unfoldable pub new_index : ℕ → SceneTileIndex
  new_index tile_size = record { tile_size = tile_size; tiles = λ _. []; items = []; untiled = [] }

  unfoldable pub clear_index : SceneTileIndex → SceneTileIndex
  clear_index s = record s { tiles = λ _. []; items = []; untiled = [] }

  unfoldable pub insert_keys : A → List Tile → (Tile → List A) → Tile → List A
  insert_keys item [] tiles = tiles
  insert_keys item (key ∷ ks) tiles =
      insert_keys item ks (λ k. if key == k then tiles k ++ item ∷ [] else tiles k)

  unfoldable pub insert_item : SceneTileIndex → A → SceneTileIndex
  unfolding insert_keys keys
  insert_item s item = elim (keys s.tile_size (bounds item)) [
    | none ↦ record s { items = s.items ++ item ∷ []; untiled = s.untiled ++ item ∷ [] }
    | some ks ↦ record s { items = s.items ++ item ∷ []; tiles = insert_keys item ks s.tiles }
  ]

  -- The loop that adds the buckets of the keys to the set.
  unfoldable pub gather : (Tile → List A) → List Tile → List A → List A
  gather tiles [] result = result
  gather tiles (key ∷ ks) result = gather tiles ks (add_all result (tiles key))

  unfoldable pub query : SceneTileIndex → SceneBounds → List A
  unfolding gather intersects keys
  query s area = elim (keys s.tile_size area) [
    | none ↦ filter (λ item. intersects area (bounds item)) s.items
    | some ks ↦
        filter (λ item. intersects area (bounds item)) (gather s.tiles ks (add_all [] s.untiled))
  ]

  unfoldable pub insert_items : SceneTileIndex → List A → SceneTileIndex
  unfolding insert_item
  insert_items s [] = s
  insert_items s (item ∷ rest) = insert_items (insert_item s item) rest
