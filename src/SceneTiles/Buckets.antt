-- ===== src/SceneTiles/Buckets.antt =====
-- What the buckets of the index hold: each item in those of its keys, or in the untiled list.
use mathlib.Core.List.{append-nil, append_assoc}
use wiredraft.Prelude.{
  ℕ, Bool, true, false, ◌&&◌, ◌||◌, List, [], ◌∷◌, ◌++◌, Option, none, some, ◌<◌, ◌≡◌, refl, sym,
  ap, subst, ◌∙◌, ◌==◌, Eq, if◌then◌else◌, any, contains, add_all, contains-append,
  contains-add_all, Bool-cases, Option-cases, inl, inr, arith,
}
use wiredraft.SceneTiles.{
  SceneBounds, Tile, tile_eq, keys, SceneTileIndex, new_index, insert_keys, insert_item,
  insert_items, gather,
}

abbrev pub keys_or_nil : Option (List Tile) → List Tile
keys_or_nil none = []
keys_or_nil (some ks) = ks

abbrev pub is_none {ℓ} : {A : Type ℓ} → Option A → Bool
is_none none = true
is_none (some a) = false

module _ {A : Type 0} ⦃e : Eq A⦄ (bounds : A → SceneBounds) where
  contains-insert_keys :
      (item a : A) (ks : List Tile) (tiles : Tile → List A) (k : Tile)
      → contains (insert_keys bounds item ks tiles k) a
        ≡ (contains (tiles k) a || (contains ks k && item == a))
  unfolding insert_keys
  contains-insert_keys item a [] tiles k = ground arith
  contains-insert_keys item a (key ∷ ks) tiles k =
      contains-insert_keys item a ks (λ k. if key == k then tiles k ++ item ∷ [] else tiles k) k
      ∙ elim (Bool-cases (tile_eq.same key k)) [
        | inl e ↦ rw e (ground (arith, contains-append (tiles k) (item ∷ []) a))
        | inr e ↦ rw e refl
      ]

  pub contains-gather :
      (tiles : Tile → List A) (ks : List Tile) (result : List A) (a : A)
      → contains (gather bounds tiles ks result) a
        ≡ (contains result a || any (λ k. contains (tiles k) a) ks)
  unfolding gather
  contains-gather tiles [] result a = ground arith
  contains-gather tiles (key ∷ ks) result a = ground (
    arith,
    contains-gather tiles ks (add_all result (tiles key)) a,
    contains-add_all result (tiles key) a,
  )

  -- The keys of an item, none if it is not tiled.
  abbrev pub keys_of : ℕ → A → List Tile
  keys_of size a = keys_or_nil (keys size (bounds a))

  abbrev pub is_untiled : ℕ → A → Bool
  is_untiled size a = is_none (keys size (bounds a))

  -- The index holds the items: each in the buckets of its keys, or in the untiled list.
  pub record Holds (s : SceneTileIndex bounds) (items : List A) : Type 0 where
    pub positive : 0 < s.tile_size
    pub listed : s.items ≡ items
    pub tiled :
        (k : Tile) (a : A)
        → contains (s.tiles k) a ≡ (contains items a && contains (keys_of s.tile_size a) k)
    pub rest : (a : A) → contains s.untiled a ≡ (contains items a && is_untiled s.tile_size a)

  insert_item-none :
      (s : SceneTileIndex bounds) (item : A)
      → keys s.tile_size (bounds item) ≡ none
      → insert_item bounds s item
        ≡ record s { items = s.items ++ item ∷ []; untiled = s.untiled ++ item ∷ [] }
  unfolding insert_item
  insert_item-none s item h = rw (h, insert_item) refl

  insert_item-some :
      (s : SceneTileIndex bounds) (item : A) (ks : List Tile)
      → keys s.tile_size (bounds item) ≡ some ks
      → insert_item bounds s item
        ≡ record s { items = s.items ++ item ∷ []; tiles = insert_keys bounds item ks s.tiles }
  unfolding insert_item
  insert_item-some s item ks h = rw (h, insert_item) refl

  same_kind : (test : A → Bool) (item a : A) → (item == a && test item) ≡ (item == a && test a)
  same_kind test item a = elim (Bool-cases (item == a)) [
    | inl h ↦ ap (λ z. item == a && test z) ((e.same_iff item a).0 h)
    | inr h ↦ rw h refl
  ]

  split_and :
      (before same kind : Bool) → ((before && kind) || (same && kind)) ≡ ((before || same) && kind)
  split_and before same kind = ground arith

  contains-last :
      (items : List A) (item a : A)
      → contains (items ++ item ∷ []) a ≡ (contains items a || item == a)
  contains-last items item a = contains-append items (item ∷ []) a ∙ ground arith

  -- A test of the items with one more.
  held :
      (items : List A) (item a : A) (test : A → Bool) (kind before : Bool)
      → before ≡ (contains items a && test a)
      → test item ≡ kind
      → (before || (item == a && kind)) ≡ (contains (items ++ item ∷ []) a && test a)
  held items item a test kind before h k =
      ap (λ b. before || (item == a && b)) (sym k)
      ∙ ap (λ b. before || b) (same_kind test item a)
      ∙ ap (λ b. b || (item == a && test a)) h
      ∙ split_and (contains items a) (item == a) (test a)
      ∙ ap (λ b. b && test a) (sym (contains-last items item a))

  or_nothing : (b c : Bool) → b ≡ (b || (c && false))
  or_nothing b c = ground arith

  or_all : (b c : Bool) → (b || c) ≡ (b || (c && true))
  or_all b c = ground arith

  swap_and : (b c d : Bool) → (b || (c && d)) ≡ (b || (d && c))
  swap_and b c d = ground arith

  untiled_item :
      (s : SceneTileIndex bounds) (items : List A) (item : A)
      → keys s.tile_size (bounds item) ≡ none
      → Holds s items
      → Holds
          (record s { items = s.items ++ item ∷ []; untiled = s.untiled ++ item ∷ [] })
          (items ++ item ∷ [])
  untiled_item s items item h holds = record {
    positive = holds.positive;
    listed = ap (λ xs. xs ++ item ∷ []) holds.listed;
    tiled = λ k a.
        or_nothing (contains (s.tiles k) a) (item == a)
        ∙ held items item a (λ z. contains (keys_of s.tile_size z) k) false (contains (s.tiles k) a)
            (holds.tiled k a) (ap (λ o. contains (keys_or_nil o) k) h);
    rest = λ a.
        contains-last s.untiled item a
        ∙ or_all (contains s.untiled a) (item == a)
        ∙ held items item a (is_untiled s.tile_size) true (contains s.untiled a) (holds.rest a)
            (ap is_none h);
  }

  tiled_item :
      (s : SceneTileIndex bounds) (items : List A) (item : A) (ks : List Tile)
      → keys s.tile_size (bounds item) ≡ some ks
      → Holds s items
      → Holds
          (record s { items = s.items ++ item ∷ []; tiles = insert_keys bounds item ks s.tiles })
          (items ++ item ∷ [])
  tiled_item s items item ks h holds = record {
    positive = holds.positive;
    listed = ap (λ xs. xs ++ item ∷ []) holds.listed;
    tiled = λ k a.
        contains-insert_keys item a ks s.tiles k
        ∙ swap_and (contains (s.tiles k) a) (contains ks k) (item == a)
        ∙ held items item a (λ z. contains (keys_of s.tile_size z) k) (contains ks k)
            (contains (s.tiles k) a) (holds.tiled k a) (ap (λ o. contains (keys_or_nil o) k) h);
    rest = λ a.
        or_nothing (contains s.untiled a) (item == a)
        ∙ held items item a (is_untiled s.tile_size) false (contains s.untiled a) (holds.rest a)
            (ap is_none h);
  }

  insert_item-Holds :
      (s : SceneTileIndex bounds) (items : List A) (item : A)
      → Holds s items
      → Holds (insert_item bounds s item) (items ++ item ∷ [])
  insert_item-Holds s items item h = elim (Option-cases (keys s.tile_size (bounds item))) [
    | inl k ↦
        subst (λ after. Holds after (items ++ item ∷ [])) (sym (insert_item-none s item k))
          (untiled_item s items item k h)
    | inr (ks, k) ↦
        subst (λ after. Holds after (items ++ item ∷ [])) (sym (insert_item-some s item ks k))
          (tiled_item s items item ks k h)
  ]

  pub insert_items-Holds :
      (s : SceneTileIndex bounds) (items rest : List A)
      → Holds s items
      → Holds (insert_items bounds s rest) (items ++ rest)
  unfolding insert_items
  insert_items-Holds s items [] h = subst (Holds s) (sym (append-nil items)) h
  insert_items-Holds s items (item ∷ rest) h =
      subst (Holds (insert_items bounds (insert_item bounds s item) rest))
        (append_assoc items (item ∷ []) rest)
        (insert_items-Holds (insert_item bounds s item) (items ++ item ∷ []) rest
          (insert_item-Holds s items item h))

  pub new_index-Holds : (size : ℕ) → 0 < size → Holds (new_index bounds size) []
  unfolding new_index
  new_index-Holds size p = record {
    positive = p;
    listed = refl;
    tiled = λ _ _. refl;
    rest = λ _. refl;
  }
