-- ===== src/Tests/TileTests.antt =====
-- A tile index of three boxes, run. An item is its number.
use wiredraft.Prelude.{ℕ, [], ◌∷◌, ◌≡◌, refl, contains, filter, nat_eq, ltb, if◌then◌else◌, arith}
use wiredraft.Prelude.Int.{pos, negsuc, ◌+ℤ◌, ◌-ℤ◌}
use wiredraft.SceneTiles.{SceneBounds, intersects, new_index, insert_items, query}
use wiredraft.SceneTiles.Query.{query_refines}

-- A box for each number: small, and from 9 on over the budget of tiles.
abbrev box : ℕ → SceneBounds
box n =
    if ltb n 9
    then record { x = negsuc 99; y = pos n; width = pos 200; height = pos 200 }
    else record { x = pos 0; y = pos 0; width = pos 9000000; height = pos 9000000 }

abbrev view : SceneBounds
view = record { x = negsuc 1299; y = pos 0; width = pos 1250; height = pos 600 }

query_refines_example :
    contains (query box (insert_items box (new_index box 1200) (1 ∷ 9 ∷ [])) view) 1
    ≡ contains (filter (λ item. intersects view (box item)) (1 ∷ 9 ∷ [])) 1
query_refines_example = query_refines box 1200 (1 ∷ 9 ∷ []) view 1 (omega arith)

two_found : query box (insert_items box (new_index box 1200) (1 ∷ 9 ∷ [])) view ≡ 1 ∷ []
unfolding query insert_items new_index ◌+ℤ◌ ◌-ℤ◌
two_found = refl
