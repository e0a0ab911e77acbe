-- ===== src/SceneTiles/Query.antt =====
-- A query of the index gives what a search of all items gives.
use wiredraft.Prelude.{
  ℕ, Bool, true, false, ◌&&◌, ◌||◌, List, [], ◌∷◌, none, some, ◌<◌, ◌≡◌, refl, sym, ap, subst, ◌∙◌,
  Eq, if◌then◌else◌, filter, any, contains, add_all, contains-add_all, contains-filter, Bool-cases,
  Option-cases, inl, inr, arith,
}
use wiredraft.SceneTiles.{
  SceneBounds, Tile, tile_eq, tile_same_iff, intersects, keys, SceneTileIndex, new_index,
  insert_items, gather, query,
}
use wiredraft.SceneTiles.Keys.{keys-shared}
use wiredraft.SceneTiles.Buckets.{
  Holds, keys_or_nil, is_none, contains-gather, insert_items-Holds, new_index-Holds,
}

module _ {A : Type 0} ⦃e : Eq A⦄ (bounds : A → SceneBounds) where
  any-found :
      (tiles : Tile → List A) (ks : List Tile) (key : Tile) (a : A)
      → contains ks key ≡ true
      → contains (tiles key) a ≡ true
      → any (λ k. contains (tiles k) a) ks ≡ true
  any-found tiles [] key a h k = absurd (ground (arith, h))
  any-found tiles (other ∷ ks) key a h k = elim (Bool-cases (contains (tiles other) a)) [
    | inl f ↦ rw f refl
    | inr f ↦ elim (Bool-cases (tile_eq.same other key)) [
      | inl g ↦ absurd (
          ground (
            arith,
            f,
            subst (λ z. contains (tiles z) a ≡ true) (sym ((tile_same_iff other key).0 g)) k,
          ))
      | inr g ↦ rw f (
          any-found tiles ks key a (subst (λ b. (if b then true else contains ks key) ≡ true) g h)
            k)
    ]
  ]

  any-held :
      (s : SceneTileIndex bounds) (items : List A) (ks : List Tile) (a : A)
      → Holds bounds s items
      → any (λ k. contains (s.tiles k) a) ks ≡ true
      → contains items a ≡ true
  any-held s items [] a h k = absurd (ground (arith, k))
  any-held s items (key ∷ ks) a h k = elim (Bool-cases (contains (s.tiles key) a)) [
    | inl f ↦ ground (arith, f, h.tiled key a)
    | inr f ↦
        any-held s items ks a h
          (subst (λ b. (if b then true else any (λ k. contains (s.tiles k) a) ks) ≡ true) f k)
  ]

  -- An item that meets the area is a candidate: it is untiled, or in a bucket of a common key.
  candidate :
      (s : SceneTileIndex bounds) (items : List A) (area : SceneBounds) (ks : List Tile) (a : A)
      → Holds bounds s items
      → keys s.tile_size area ≡ some ks
      → contains items a ≡ true
      → intersects area (bounds a) ≡ true
      → (contains s.untiled a || any (λ k. contains (s.tiles k) a) ks) ≡ true
  candidate s items area ks a h k here meets = elim (Option-cases (keys s.tile_size (bounds a))) [
    | inl l ↦
        let found : contains s.untiled a ≡ true =
          h.rest a ∙ ap (λ o. contains items a && is_none o) l ∙ ground (arith, here) in
        rw found refl
    | inr (ls, l) ↦
        let (key, mine, its) = keys-shared s.tile_size area (bounds a) ks ls h.positive k l meets in
        let found : contains (s.tiles key) a ≡ true =
          h.tiled key a
          ∙ ap (λ o. contains items a && contains (keys_or_nil o) key) l
          ∙ rw here its in
        ground (arith, any-found s.tiles ks key a mine found)
  ]

  agree :
      (candidate listed meets : Bool)
      → (candidate ≡ true → listed ≡ true)
      → (listed ≡ true → meets ≡ true → candidate ≡ true)
      → (candidate && meets) ≡ (listed && meets)
  agree true true meets f g = refl
  agree true false meets f g = ground (arith, f refl)
  agree false true true f g = g refl refl
  agree false true false f g = refl
  agree false false meets f g = refl

  either_held :
      (s : SceneTileIndex bounds) (items : List A) (ks : List Tile) (a : A)
      → Holds bounds s items
      → (contains s.untiled a || any (λ k. contains (s.tiles k) a) ks) ≡ true
      → contains items a ≡ true
  either_held s items ks a h k = elim (Bool-cases (contains s.untiled a)) [
    | inl f ↦ ground (arith, f, h.rest a)
    | inr f ↦
        any-held s items ks a h
          (subst (λ b. (b || any (λ k. contains (s.tiles k) a) ks) ≡ true) f k)
  ]

  query-none :
      (s : SceneTileIndex bounds) (area : SceneBounds)
      → keys s.tile_size area ≡ none
      → query bounds s area ≡ filter (λ item. intersects area (bounds item)) s.items
  unfolding query
  query-none s area k = rw (k, query) refl

  query-some :
      (s : SceneTileIndex bounds) (area : SceneBounds) (ks : List Tile)
      → keys s.tile_size area ≡ some ks
      → query bounds s area
        ≡ filter
            (λ item. intersects area (bounds item))
            (gather bounds s.tiles ks (add_all [] s.untiled))
  unfolding query
  query-some s area ks k = rw (k, query) refl

  query-Holds :
      (s : SceneTileIndex bounds) (items : List A) (area : SceneBounds) (a : A)
      → Holds bounds s items
      → contains (query bounds s area) a ≡ (contains items a && intersects area (bounds a))
  query-Holds s items area a h = elim (Option-cases (keys s.tile_size area)) [
    | inl k ↦
        ap (λ xs. contains xs a) (query-none s area k)
        ∙ contains-filter (λ item. intersects area (bounds item)) s.items a
        ∙ ap (λ xs. contains xs a && intersects area (bounds a)) h.listed
    | inr (ks, k) ↦
        ap (λ xs. contains xs a) (query-some s area ks k)
        ∙ contains-filter (λ item. intersects area (bounds item))
            (gather bounds s.tiles ks (add_all [] s.untiled)) a
        ∙ ap (λ b. b && intersects area (bounds a))
            (contains-gather bounds s.tiles ks (add_all [] s.untiled) a
              ∙ ap (λ b. b || any (λ k. contains (s.tiles k) a) ks)
                  (contains-add_all [] s.untiled a))
        ∙ agree (contains s.untiled a || any (λ k. contains (s.tiles k) a) ks) (contains items a)
            (intersects area (bounds a)) (either_held s items ks a h)
            (candidate s items area ks a h k)
  ]

  -- The index refines the search of all items: whatever items were inserted, in whatever order and
  -- with keys or without, and whatever the area, a query gives exactly those that the scan of the
  -- items for a box that meets the area gives. The tiles have a positive size.
  pub query_refines :
      (size : ℕ) (items : List A) (area : SceneBounds) (a : A)
      → 0 < size
      → contains (query bounds (insert_items bounds (new_index bounds size) items) area) a
        ≡ contains (filter (λ item. intersects area (bounds item)) items) a
  query_refines size items area a p =
      query-Holds (insert_items bounds (new_index bounds size) items) items area a
        (insert_items-Holds bounds (new_index bounds size) [] items (new_index-Holds bounds size p))
      ∙ sym (contains-filter (λ item. intersects area (bounds item)) items a)
