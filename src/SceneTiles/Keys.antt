-- ===== src/SceneTiles/Keys.antt =====
-- Boxes that overlap share a tile.
use native.Mathlib.Nat.{le-div_iff_mul-le, div-mul-le_self}
use wiredraft.Prelude.{
  ℕ, zero, suc, Bool, true, false, ◌&&◌, ◌||◌, not, List, ◌∷◌, Option, none, some, ◌+◌, ◌*◌, ◌/◌,
  ◌≤◌, ◌<◌, ◌≡◌, refl, ap, subst, ◌∙◌, ltb, if◌then◌else◌, contains, arith,
}
use wiredraft.Prelude.Int.{
  ℤ, pos, negsuc, pos_part, ◌+ℤ◌, ◌-ℤ◌, ltb_ℤ, max_ℤ, ◌≤ℤ◌, int_eq, int_laws, ltb→lt_ℤ,
}
use wiredraft.SceneTiles.{
  SceneBounds, Tile, tile_eq, tile_same_iff, intersects, floor_div, is_safe_integer, row_tiles,
  all_tiles, tiles_between, keys, max_tiles_per_operation,
}

div_mono : (a b size : ℕ) → 0 < size → a ≤ b → a / size ≤ b / size
div_mono a b size p h = (le-div_iff_mul-le p).1 (omega (arith, div-mul-le_self a size))

floor_div_mono : (a b : ℤ) (size : ℕ) → 0 < size → a ≤ℤ b → floor_div a size ≤ℤ floor_div b size
unfolding floor_div
floor_div_mono (pos a) (pos b) size p h = omega (arith, div_mono a b size p (omega arith))
floor_div_mono (pos a) (negsuc b) size p h = absurd (omega arith)
floor_div_mono (negsuc a) (pos b) size p h = omega arith
floor_div_mono (negsuc a) (negsuc b) size p h = omega (arith, div_mono b a size p (omega arith))

tile_at : ℤ → ℤ → Tile
tile_at x y = record { column = x; row = y }

contains-here : (key : Tile) (ks : List Tile) → contains (key ∷ ks) key ≡ true
contains-here key ks = rw ((tile_same_iff key key).1 refl) refl

contains-later :
    (key other : Tile) (ks : List Tile) → contains ks key ≡ true → contains (other ∷ ks) key ≡ true
contains-later key other ks h = ground (arith, h)

row_tiles-later :
    (columns : ℕ) (x y : ℤ) (rest : List Tile) (key : Tile)
    → contains rest key ≡ true
    → contains (row_tiles columns x y rest) key ≡ true
unfolding tile_at
row_tiles-later zero x y rest key h = h
row_tiles-later (suc columns) x y rest key h =
    contains-later key (tile_at x y) _ (row_tiles-later columns (x +ℤ pos 1) y rest key h)

contains-row_tiles :
    (columns : ℕ) (x y : ℤ) (rest : List Tile) (j : ℕ)
    → j < columns
    → contains (row_tiles columns x y rest) (tile_at (x +ℤ pos j) y) ≡ true
unfolding tile_at
contains-row_tiles zero x y rest j h = absurd (omega arith)
contains-row_tiles (suc columns) x y rest zero h =
    subst (λ z. contains (row_tiles (suc columns) x y rest) (tile_at z y) ≡ true) (omega int_laws)
      (contains-here (tile_at x y) (row_tiles columns (x +ℤ pos 1) y rest))
contains-row_tiles (suc columns) x y rest (suc j) h =
    contains-later (tile_at (x +ℤ pos (suc j)) y) (tile_at x y) _ (
      subst (λ z. contains (row_tiles columns (x +ℤ pos 1) y rest) (tile_at z y) ≡ true)
        (omega int_laws) (contains-row_tiles columns (x +ℤ pos 1) y rest j (omega arith)))

contains-all_tiles :
    (rows columns : ℕ) (left y : ℤ) (i j : ℕ)
    → i < rows
    → j < columns
    → contains (all_tiles rows columns left y) (tile_at (left +ℤ pos j) (y +ℤ pos i)) ≡ true
contains-all_tiles zero columns left y i j h k = absurd (omega arith)
contains-all_tiles (suc rows) columns left y zero j h k =
    subst (λ z. contains (all_tiles (suc rows) columns left y) (tile_at (left +ℤ pos j) z) ≡ true)
      (omega int_laws)
      (contains-row_tiles columns left y (all_tiles rows columns left (y +ℤ pos 1)) j k)
contains-all_tiles (suc rows) columns left y (suc i) j h k = row_tiles-later columns left y _ _ (
    subst
      (λ z. contains (all_tiles rows columns left (y +ℤ pos 1)) (tile_at (left +ℤ pos j) z) ≡ true)
      (omega int_laws) (contains-all_tiles rows columns left (y +ℤ pos 1) i j (omega arith) k))

some_injective : {A : Type 0} {a b : A} → some a ≡ some b → a ≡ b
some_injective h = cc

passed_guard :
    {A : Type 0} (guard : Bool) (o : Option A) {a : A}
    → (if guard then none else o) ≡ some a
    → (guard ≡ false) × (o ≡ some a)
passed_guard true o h = cc
passed_guard false o h = (refl, h)

pos-pos_part : (z : ℤ) → pos 0 ≤ℤ z → pos (pos_part z) ≡ z
pos-pos_part (pos n) h = refl
pos-pos_part (negsuc n) h = absurd (omega arith)

pos_part_mono : (a b : ℤ) → a ≤ℤ b → pos_part a ≤ pos_part b
pos_part_mono (pos a) (pos b) h = omega arith
pos_part_mono (pos a) (negsuc b) h = omega arith
pos_part_mono (negsuc a) b h = omega arith

last_two : (a b c : Bool) → (a || b || c) ≡ false → (b ≡ false) × (c ≡ false)
last_two a b c h = (ground arith, ground arith)

not_ltb→le : (a b : ℤ) → ltb_ℤ b a ≡ false → a ≤ℤ b
not_ltb→le a b h = ground arith

ahead : (a b : ℤ) → a +ℤ (b -ℤ a) ≡ b
ahead a b = omega int_laws

distance : (a b : ℤ) → a ≤ℤ b → a +ℤ pos (pos_part (b -ℤ a)) ≡ b
distance a b h = ap (λ z. a +ℤ z) (pos-pos_part (b -ℤ a) (omega int_laws)) ∙ ahead a b

-- What the keys list: every tile of the range, which is not empty.
pub record IsRange (left top right bottom : ℤ) (ks : List Tile) : Type 0 where
  pub wide : left ≤ℤ right
  pub high : top ≤ℤ bottom
  pub listed :
      (c r : ℤ)
      → left ≤ℤ c
      → c ≤ℤ right
      → top ≤ℤ r
      → r ≤ℤ bottom
      → contains ks (record { column = c; row = r }) ≡ true

tiles_between-IsRange :
    (left top right bottom : ℤ) (ks : List Tile)
    → tiles_between left top right bottom ≡ some ks
    → IsRange left top right bottom ks
unfolding tiles_between tile_at
tiles_between-IsRange left top right bottom ks h =
    let columns = pos_part (right -ℤ left) + 1 in
    let rows = pos_part (bottom -ℤ top) + 1 in
    let (safe, h1) =
      passed_guard
        (not (
            is_safe_integer left
            && is_safe_integer top
            && is_safe_integer right
            && is_safe_integer bottom)
          || ltb_ℤ right left
          || ltb_ℤ bottom top)
        _ h in
    let above =
      last_two
        (not (
          is_safe_integer left
          && is_safe_integer top
          && is_safe_integer right
          && is_safe_integer bottom))
        (ltb_ℤ right left) (ltb_ℤ bottom top) safe in
    let (_, h2) =
      passed_guard
        (ltb max_tiles_per_operation columns
          || ltb max_tiles_per_operation rows
          || ltb max_tiles_per_operation (columns * rows))
        _ h1 in
    record {
      wide = not_ltb→le left right above.0;
      high = not_ltb→le top bottom above.1;
      listed = λ c r lc cr tr rb.
          subst (λ c. contains ks (tile_at c r) ≡ true) (distance left c lc)
            (subst (λ r. contains ks (tile_at (left +ℤ pos (pos_part (c -ℤ left))) r) ≡ true)
              (distance top r tr)
              (subst
                (λ ks.
                  contains ks (
                    tile_at (left +ℤ pos (pos_part (c -ℤ left))) (top +ℤ pos (pos_part (r -ℤ top))))
                  ≡ true)
                (some_injective h2)
                (contains-all_tiles rows columns left top (pos_part (r -ℤ top))
                  (pos_part (c -ℤ left))
                  (omega (arith, pos_part_mono (r -ℤ top) (bottom -ℤ top) (omega int_laws)))
                  (omega (arith, pos_part_mono (c -ℤ left) (right -ℤ left) (omega int_laws))))));
    }

four :
    (a b c d : Bool) → (a && b && c && d) ≡ true → (a ≡ true) × (b ≡ true) × (c ≡ true) × (d ≡ true)
four a b c d h = (ground arith, ground arith, ground arith, ground arith)

-- The larger of the two starts is in both ranges.
shared :
    (a b c d : ℤ)
    → a ≤ℤ b
    → c ≤ℤ d
    → a ≤ℤ d
    → c ≤ℤ b
    → (a ≤ℤ max_ℤ a c) × (max_ℤ a c ≤ℤ b) × (c ≤ℤ max_ℤ a c) × (max_ℤ a c ≤ℤ d)
shared a b c d h k p q = (ground arith, ground arith, ground arith, ground arith)

reach : (u v : ℤ) (size : ℕ) → 0 < size → ltb_ℤ u v ≡ true → floor_div u size ≤ℤ floor_div v size
reach u v size p less = floor_div_mono u v size p (omega (arith, ltb→lt_ℤ u v less))

-- Two boxes that overlap and have keys have a key in common.
pub keys-shared :
    (size : ℕ) (left right : SceneBounds) (ks ls : List Tile)
    → 0 < size
    → keys size left ≡ some ks
    → keys size right ≡ some ls
    → intersects left right ≡ true
    → (key : Tile) × (contains ks key ≡ true) × (contains ls key ≡ true)
unfolding keys intersects
keys-shared size a b ks ls p h k meet =
    let (m1, m2, m3, m4) =
      four (ltb_ℤ a.x (b.x +ℤ b.width)) (ltb_ℤ b.x (a.x +ℤ a.width)) (ltb_ℤ a.y (b.y +ℤ b.height))
        (ltb_ℤ b.y (a.y +ℤ a.height)) meet in
    let f : ℤ → ℤ = λ z. floor_div z size in
    let in_a =
      tiles_between-IsRange (f a.x) (f a.y) (f (a.x +ℤ a.width)) (f (a.y +ℤ a.height)) ks h in
    let in_b =
      tiles_between-IsRange (f b.x) (f b.y) (f (b.x +ℤ b.width)) (f (b.y +ℤ b.height)) ls k in
    let columns =
      shared (f a.x) (f (a.x +ℤ a.width)) (f b.x) (f (b.x +ℤ b.width)) in_a.wide in_b.wide
        (reach a.x (b.x +ℤ b.width) size p m1) (reach b.x (a.x +ℤ a.width) size p m2) in
    let rows =
      shared (f a.y) (f (a.y +ℤ a.height)) (f b.y) (f (b.y +ℤ b.height)) in_a.high in_b.high
        (reach a.y (b.y +ℤ b.height) size p m3) (reach b.y (a.y +ℤ a.height) size p m4) in
    (
      record { column = max_ℤ (f a.x) (f b.x); row = max_ℤ (f a.y) (f b.y) },
      in_a.listed _ _ columns.0 columns.1 rows.0 rows.1,
      in_b.listed _ _ columns.2 columns.3 rows.2 rows.3,
    )
