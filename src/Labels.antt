-- ===== src/Labels.antt =====
-- Labels of cables and the bubble at the pointer: web/static/js/label-layout.js. Coordinates are
-- whole numbers of half a pixel and sizes are in pixels, so half a size is a size; the bubble is in
-- pixels. Candidates on a curve, in floating point, are given with the item.
pub mod Bubbles
pub mod Separate
pub mod Pointer
use wiredraft.Prelude.{
  ℕ, zero, suc, Bool, true, false, ◌&&◌, ◌||◌, not, String, List, [], ◌∷◌, ◌++◌, map, Option, none,
  some, ◌+◌, ◌*◌, ◌/◌, ◌%◌, ◌==◌, nat_eq, string_eq, if◌then◌else◌, is_empty, filter, find?, any,
  contains, unique, Result, ok, err, ◌>>=◌, present,
}
use wiredraft.Prelude.Int.{ℤ, pos, negsuc, ◌+ℤ◌, ◌-ℤ◌, ltb_ℤ, leb_ℤ, min_ℤ, max_ℤ}
use wiredraft.Rack.{Point}
use wiredraft.Topology.{Topology, Link, LinkGroup}

pub record Rectangle : Type 0 where
  pub x : ℤ
  pub y : ℤ
  pub width : ℕ
  pub height : ℕ

pub record LabelItem : Type 0 where
  pub anchor : Point
  pub candidates : List Point
  pub width : ℕ
  pub height : ℕ

pub record Label : Type 0 where
  pub item : LabelItem
  pub x : ℤ
  pub y : ℤ
  pub rect : Rectangle

pub data LabelError : Type 0 where
  unable_to_place : LabelError

-- Five pixels, and three.
abbrev pub label_gap : ℕ
label_gap = 10

abbrev pub obstacle_gap : ℕ
obstacle_gap = 6

unfoldable pub rectangles_overlap : Rectangle → Rectangle → ℕ → Bool
rectangles_overlap left right gap =
    ltb_ℤ left.x (right.x +ℤ pos (right.width + gap))
    && ltb_ℤ right.x (left.x +ℤ pos (left.width + gap))
    && ltb_ℤ left.y (right.y +ℤ pos (right.height + gap))
    && ltb_ℤ right.y (left.y +ℤ pos (left.height + gap))

unfoldable pub centered_rect : Point → ℕ → ℕ → Rectangle
centered_rect point width height = record {
  x = point.x -ℤ pos width;
  y = point.y -ℤ pos height;
  width = width * 2;
  height = height * 2;
}

abbrev pub rect_at : LabelItem → Point → Rectangle
rect_at item point = centered_rect point item.width item.height

-- Some label that stands already is in the way.
unfoldable pub is_taken : List Label → Rectangle → Bool
is_taken placed rect = any (λ label. rectangles_overlap rect label.rect label_gap) placed

unfoldable pub is_blocked : List Rectangle → Rectangle → Bool
is_blocked obstacles rect =
    any (λ obstacle. rectangles_overlap rect obstacle obstacle_gap) obstacles

-- `direction * distance` for a direction of 1, 0 or -1, from a coordinate on.
pub data Direction : Type 0 where
  backward : Direction
  still : Direction
  forward : Direction

unfoldable pub shifted : ℤ → Direction → ℕ → ℤ
shifted from backward distance = from -ℤ pos distance
shifted from still distance = from
shifted from forward distance = from +ℤ pos distance

abbrev pub around : Point → List (Direction × Direction) → ℕ → List Point → List Point
around anchor [] radius rest = rest
around anchor ((x, y) ∷ directions) radius rest =
    record { x = shifted anchor.x x (radius * 2); y = shifted anchor.y y (radius * 2) }
    ∷ around anchor directions radius rest

abbrev pub rings : Point → List ℕ → List Point
rings anchor [] = []
rings anchor (radius ∷ radii) =
    around anchor
      ((still, backward)
        ∷ (still, forward)
        ∷ (forward, still)
        ∷ (backward, still)
        ∷ (forward, backward)
        ∷ (backward, backward)
        ∷ (forward, forward)
        ∷ (backward, forward)
        ∷ [])
      radius (rings anchor radii)

unfoldable pub radial_candidates : Point → List Point
unfolding shifted
radial_candidates anchor = anchor ∷ rings anchor (24 ∷ 42 ∷ 64 ∷ 88 ∷ 116 ∷ 150 ∷ [])

abbrev pub preferred : LabelItem → List Point
preferred item = elim item.candidates [ [] ↦ radial_candidates item.anchor | p ∷ ps ↦ p ∷ ps ]

-- `continue` on either test, so the first candidate that passes both.
unfoldable pub find_position : LabelItem → List Point → List Label → List Rectangle → Option Point
find_position item candidates placed obstacles =
    find?
      (λ candidate.
        not (is_taken placed (rect_at item candidate))
        && not (is_blocked obstacles (rect_at item candidate)))
      candidates

-- The candidate of a step of the loop: above and below the anchor in turn.
unfoldable pub step_position : LabelItem → ℕ → Point
unfolding shifted
step_position item step = record {
  x = item.anchor.x;
  y =
      shifted item.anchor.y (if step % 2 == 0 then forward else backward)
        ((step + 1) / 2 * (item.height * 2 + label_gap));
}

-- The loop from a step on, while `rounds` steps are left.
unfoldable pub fallback_position : ℕ → ℕ → LabelItem → List Label → Option Point
fallback_position zero step item placed = none
fallback_position (suc rounds) step item placed =
    let later = fallback_position rounds (step + 1) item placed in
    if is_taken placed (rect_at item (step_position item step))
    then later
    else some (step_position item step)

abbrev pub or_position {ℓ} : {A : Type ℓ} → Option A → Option A → Option A
or_position none other = other
or_position (some a) other = some a

-- Ten thousand steps.
abbrev pub fallback_steps : ℕ
fallback_steps = 10000

unfoldable pub position_of : ℕ → LabelItem → List Label → List Rectangle → Option Point
position_of steps item placed obstacles =
    or_position (find_position item (preferred item) placed obstacles) (
      or_position (find_position item (preferred item) placed [])
        (fallback_position steps 0 item placed))

abbrev pub label_at : LabelItem → Point → Label
label_at item point = record { item = item; x = point.x; y = point.y; rect = rect_at item point }

unfoldable pub place_from :
    ℕ → List Rectangle → List LabelItem → List Label → Result LabelError (List Label)
place_from steps obstacles [] placed = ok placed
place_from steps obstacles (item ∷ items) placed =
    present (position_of steps item placed obstacles) unable_to_place >>= λ point.
    place_from steps obstacles items (placed ++ label_at item point ∷ [])

unfoldable pub place_cable_labels : List LabelItem → List Rectangle → Result LabelError (List Label)
unfolding place_from
place_cable_labels items obstacles = place_from fallback_steps obstacles items []

-- The labels that are shown.
pub record Visible : Type 0 where
  pub group_ids : List String
  pub link_ids : List String

abbrev pub grouped_link_ids : List LinkGroup → List String
grouped_link_ids [] = []
grouped_link_ids (group ∷ groups) = group.link_ids ++ grouped_link_ids groups

unfoldable pub cable_label_visibility : Topology → String → Bool → Visible
cable_label_visibility t hovered show_all =
    if show_all
    then record {
      group_ids = unique (map (λ group. group.id) t.link_groups);
      link_ids = unique (
          map (λ link. link.id)
            (filter (λ link. not (contains (grouped_link_ids t.link_groups) link.id)) t.links));
    }
    else if is_empty hovered
    then record { group_ids = []; link_ids = [] }
    else elim (find? (λ group. contains group.link_ids hovered) t.link_groups) [
      | none ↦ record { group_ids = []; link_ids = hovered ∷ [] }
      | some group ↦ record { group_ids = group.id ∷ []; link_ids = [] }
    ]
