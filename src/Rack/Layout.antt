-- ===== src/Rack/Layout.antt =====
-- `layoutRackGroups` of web/static/js/rack.js: racks from left to right, each slid clear of those
-- before it. The layouts are listed in the order in which the source enters them in its map.
-- `String.prototype.localeCompare` is a parameter.
use mathlib.Core.List.{append-nil, append_assoc}
use wiredraft.Prelude.{
  ℕ, suc, String, Bool, true, false, ◌&&◌, ◌||◌, List, [], ◌∷◌, ◌++◌, map, Option, none, some, ◌+◌,
  ◌*◌, ◌≡◌, refl, subst, ◌⊎◌, ◌==◌, if◌then◌else◌, contains, string_eq, length, All, All-of_map,
  All-map, All-append, sym, ◌∙◌, sort, arith,
}
use wiredraft.Prelude.Int.{ℤ, pos, ◌+ℤ◌, ltb_ℤ, leb_ℤ, ◌≤ℤ◌, ◌<ℤ◌, int_eq}
use wiredraft.Topology.{Rack}
use wiredraft.Rack.{rack_bounds, rack_width, rack_face_gap, Bounds}
use wiredraft.Clearance.{slide, slide-Clear, max_of, max_of-ge, max_of-All}

pub record RackLayout : Type 0 where
  pub rack : Rack
  pub x : ℤ
  pub y : ℤ
  pub width : ℕ
  pub height : ℕ
  pub expanded : Bool

-- The comparator of the sort gives at most 0.
pub rack_before : (String → String → ℤ) → Rack → Rack → Bool
rack_before locale_compare l r =
    ltb_ℤ l.position_x r.position_x
    || (l.position_x == r.position_x
        && (ltb_ℤ l.position_y r.position_y
            || (l.position_y == r.position_y && leb_ℤ (locale_compare l.id r.id) (pos 0))))

right_edge : ℕ → RackLayout → ℤ
right_edge clearance current = current.x +ℤ pos (current.width + clearance)

-- The filter's test, for a box at `x` of the given width.
collides : Bounds → ℕ → ℕ → ℤ → RackLayout → Bool
unfolding right_edge
collides bounds width clearance x current =
    ltb_ℤ bounds.y (current.y +ℤ pos (current.height + clearance))
    && ltb_ℤ current.y (bounds.y +ℤ pos (bounds.height + clearance))
    && ltb_ℤ x (right_edge clearance current)
    && ltb_ℤ current.x (x +ℤ pos (width + clearance))

advance : ℕ → ℤ → List RackLayout → ℤ
advance clearance x collisions = max_of x (map (right_edge clearance) collisions)

layout_width : List String → Rack → ℕ
layout_width expanded rack =
    if contains expanded rack.id then rack_width * 2 + rack_face_gap else rack_width

place : List String → Rack → ℤ → RackLayout
place expanded rack x = record {
  rack = rack;
  x = x;
  y = (rack_bounds rack).y;
  width = layout_width expanded rack;
  height = (rack_bounds rack).height;
  expanded = contains expanded rack.id;
}

place_racks : List String → ℕ → List RackLayout → List Rack → Option (List RackLayout)
unfolding collides advance layout_width place
place_racks expanded clearance placed [] = some placed
place_racks expanded clearance placed (rack ∷ racks) =
    elim (slide (collides (rack_bounds rack) (layout_width expanded rack) clearance)
      (advance clearance) (suc (length placed)) placed (rack_bounds rack).x) [
        | none ↦ none
        | some x ↦ place_racks expanded clearance (placed ++ place expanded rack x ∷ []) racks
      ]

-- The entries of the source's `Map`, in order. Racks of one id would share an entry there; here
-- each has its own, so the two agree on racks with different ids. `none` stands for a loop that its
-- fuel does not end.
unfoldable pub layout_rack_groups :
    (String → String → ℤ) → List Rack → List String → ℕ → Option (List RackLayout)
unfolding place_racks rack_before
layout_rack_groups locale_compare racks expanded clearance =
    place_racks expanded clearance [] (sort (rack_before locale_compare) racks)

-- Two boxes with the clearance between them, on one side or another.
abbrev pub Separate : ℕ → RackLayout → RackLayout → Type 0
Separate c a b =
    (a.x +ℤ pos (a.width + c) ≤ℤ b.x)
    ⊎ (b.x +ℤ pos (b.width + c) ≤ℤ a.x)
    ⊎ (a.y +ℤ pos (a.height + c) ≤ℤ b.y)
    ⊎ (b.y +ℤ pos (b.height + c) ≤ℤ a.y)

abbrev pub AllSeparate : ℕ → List RackLayout → Type 0
AllSeparate c [] = Unit
AllSeparate c (a ∷ rest) = All (Separate c a) rest × AllSeparate c rest

-- The layout shows the rack at its own height on the canvas, at its own place or further right.
abbrev pub Shows : Rack → RackLayout → Type 0
Shows rack l = (l.rack ≡ rack) × (rack.position_x ≤ℤ l.x) × (l.y ≡ rack.position_y)

abbrev pub ShowAll : List Rack → List RackLayout → Type 0
ShowAll [] [] = Unit
ShowAll (r ∷ rs) (l ∷ ls) = Shows r l × ShowAll rs ls
ShowAll _ _ = ⊥

not_collides-Separate :
    (expanded : List String) (c : ℕ) (rack : Rack) (x : ℤ) (a : RackLayout)
    → collides (rack_bounds rack) (layout_width expanded rack) c x a ≡ false
    → Separate c a (place expanded rack x)
unfolding collides place layout_width
not_collides-Separate expanded c rack x a h = ground arith

ahead :
    (c : ℕ) (x : ℤ) (hits : List RackLayout) → All (λ a. right_edge c a ≤ℤ advance c x hits) hits
unfolding advance
ahead c x hits =
    All-of_map (λ e. e ≤ℤ max_of x (map (right_edge c) hits)) (right_edge c) hits
      (max_of-All x (map (right_edge c) hits))

AllSeparate-append :
    (c : ℕ) (as_placed : List RackLayout) (b : RackLayout)
    → AllSeparate c as_placed
    → All (λ a. Separate c a b) as_placed
    → AllSeparate c (as_placed ++ b ∷ [])
AllSeparate-append c [] b s h = (tt, tt)
AllSeparate-append c (a ∷ rest) b s h =
    (All-append (Separate c a) rest b s.0 h.0, AllSeparate-append c rest b s.1 h.1)

collides-reaches :
    (expanded : List String) (rack : Rack) (c : ℕ) (x : ℤ) (a : RackLayout)
    → collides (rack_bounds rack) (layout_width expanded rack) c x a ≡ true
    → x <ℤ right_edge c a
unfolding collides
collides-reaches expanded rack c x a h = ground arith

onward : (c : ℕ) (x : ℤ) (hits : List RackLayout) → x ≤ℤ advance c x hits
unfolding advance
onward c x hits = max_of-ge x (map (right_edge c) hits)

place-Shows :
    (expanded : List String) (rack : Rack) (x : ℤ)
    → (rack_bounds rack).x ≤ℤ x
    → Shows rack (place expanded rack x)
unfolding place rack_bounds
place-Shows expanded rack x h = (refl, h, refl)

place_racks-slides :
    (expanded : List String) (c : ℕ) (rack : Rack) (placed : List RackLayout)
    → (x : ℤ) × (slide
          (collides (rack_bounds rack) (layout_width expanded rack) c)
          (advance c)
          (suc (length placed))
          placed
          (rack_bounds rack).x
        ≡ some x)
      × ((rack_bounds rack).x ≤ℤ x)
      × All (λ a. Separate c a (place expanded rack x)) placed
place_racks-slides expanded c rack placed =
    let (x, e, after, clear) =
      slide-Clear (collides (rack_bounds rack) (layout_width expanded rack) c) (advance c)
        (right_edge c) (collides-reaches expanded rack c) (ahead c) (onward c) (suc (length placed))
        placed (rack_bounds rack).x (omega arith) in
    (x, e, after, All-map (not_collides-Separate expanded c rack x) placed clear)

record LaidOut (c : ℕ) (placed : List RackLayout) (racks : List Rack) (ls : List RackLayout)
    : Type 0 where
  rest : List RackLayout
  whole : ls ≡ placed ++ rest
  shown : ShowAll racks rest
  separate : AllSeparate c ls

place_racks-LaidOut :
    (expanded : List String) (c : ℕ) (placed : List RackLayout) (racks : List Rack)
    → AllSeparate c placed
    → (ls : List RackLayout) × (place_racks expanded c placed racks ≡ some ls)
      × LaidOut c placed racks ls
unfolding place_racks
place_racks-LaidOut expanded c placed [] s =
    (placed, refl, record { rest = []; whole = sym (append-nil placed); shown = tt; separate = s })
place_racks-LaidOut expanded c placed (rack ∷ racks) s =
    let (x, e, after, clear) = place_racks-slides expanded c rack placed in
    let (ls, f, laid) =
      place_racks-LaidOut expanded c (placed ++ place expanded rack x ∷ []) racks
        (AllSeparate-append c placed (place expanded rack x) s clear) in
    (
      ls,
      rw (e, place_racks) f,
      record {
        rest = place expanded rack x ∷ laid.rest;
        whole = laid.whole ∙ append_assoc placed (place expanded rack x ∷ []) laid.rest;
        shown = (place-Shows expanded rack x after, laid.shown);
        separate = laid.separate;
      },
    )

-- `layoutRackGroups` returns for any racks, and its loop ends. It shows each rack once, in the
-- order of the sort, at the rack's own height and at its own place or further right, and between
-- any two layouts there is the clearance, to one side or above.
pub layout_rack_groups-AllSeparate :
    (locale_compare : String → String → ℤ) (racks : List Rack) (expanded : List String) (c : ℕ)
    → (ls : List RackLayout) × (layout_rack_groups locale_compare racks expanded c ≡ some ls)
      × ShowAll (sort (rack_before locale_compare) racks) ls
      × AllSeparate c ls
unfolding layout_rack_groups
layout_rack_groups-AllSeparate locale_compare racks expanded c =
    let (ls, e, laid) =
      place_racks-LaidOut expanded c [] (sort (rack_before locale_compare) racks) tt in
    (
      ls,
      e,
      subst (ShowAll (sort (rack_before locale_compare) racks)) (sym laid.whole) laid.shown,
      laid.separate,
    )
