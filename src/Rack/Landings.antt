-- ===== src/Rack/Landings.antt =====
-- Where a dragged device lands: `findLanding`, `findRackLanding` and `findRackFaceLanding` of
-- web/static/js/rack.js.
use mathlib.Core.List.{reverse}
use wiredraft.Prelude.{
  ℕ, String, Bool, false, ◌&&◌, List, [], ◌∷◌, map, Option, none, some, ◌+◌, ◌-◌, ◌*◌, ◌/◌, min,
  ltb, ◌==◌, if◌then◌else◌, string_eq, nat_eq,
}
use wiredraft.Prelude.Int.{ℤ, pos, pos_part, scale, ◌+ℤ◌, ◌-ℤ◌, leb_ℤ}
use wiredraft.Topology.{Topology, Device, Rack}
use wiredraft.Rack.{
  Point, is_rack_placement_available, mounted_device_position, normalize_rack_face,
  rack_device_inset, rack_header_height, rack_mounted_device_width, rack_unit_height, rack_width,
  units_of,
}

pub record Target : Type 0 where
  pub rack : Rack
  pub rack_face : String
  pub x : ℤ
  pub y : ℤ
  pub width : ℕ

pub record Landing : Type 0 where
  pub rack : Rack
  pub rack_face : String
  pub rack_unit : ℕ
  pub position : Point
  pub is_valid : Bool
  pub reason : String

-- The body's centre lies in the bay; both sides are doubled, since the source halves two sizes.
unfoldable pub is_inside : Point → ℕ → Target → Bool
is_inside proposed display_height target =
    let center_x = scale 2 proposed.x +ℤ pos rack_mounted_device_width in
    let center_y = scale 2 proposed.y +ℤ pos display_height in
    let bay_top = target.y +ℤ pos rack_header_height in
    let bay_bottom = bay_top +ℤ pos (target.rack.height_u * rack_unit_height) in
    leb_ℤ (scale 2 target.x) center_x
    && leb_ℤ center_x (scale 2 (target.x +ℤ pos target.width))
    && leb_ℤ (scale 2 bay_top) center_y
    && leb_ℤ center_y (scale 2 bay_bottom)

-- `Math.max(0, Math.min(maxTopIndex, Math.round(offset / RACK_UNIT_HEIGHT)))`. `Math.round` goes to
-- the floor of the value plus one half; below 0 it gives at most 0, which the `max` lifts to 0.
unfoldable pub top_index_at : ℕ → ℤ → ℕ
top_index_at max_top_index offset =
    min max_top_index ((pos_part offset + rack_unit_height / 2) / rack_unit_height)

-- The slot of a body that lies inside the target.
unfoldable pub landing_on : Topology → Device → Point → Target → Landing
unfolding top_index_at
landing_on topology device proposed target =
    let rack = target.rack in
    let units = units_of device in
    let bay_top = target.y +ℤ pos rack_header_height in
    if ltb rack.height_u units
    then record {
      rack = rack;
      rack_face = target.rack_face;
      rack_unit = 1;
      position = record { x = target.x +ℤ pos rack_device_inset; y = bay_top };
      is_valid = false;
      reason = "capacity";
    }
    else let top_index = top_index_at (rack.height_u - units) (proposed.y -ℤ bay_top) in
      let rack_unit = rack.height_u - units - top_index + 1 in
      let available =
        is_rack_placement_available topology device rack.id rack_unit target.rack_face in
      record {
        rack = rack;
        rack_face = target.rack_face;
        rack_unit = rack_unit;
        position =
            mounted_device_position (record rack { position_x = target.x; position_y = target.y })
              (record device { rack_unit = rack_unit });
        is_valid = available;
        reason = if available then "available" else "occupied";
      }

-- `sourceHeight` is 0 where the source has none, or one that is not a positive number.
unfoldable pub find_landing : Topology → Device → Point → List Target → ℕ → Option Landing
unfolding is_inside
find_landing topology device proposed [] source_height = none
find_landing topology device proposed (target ∷ targets) source_height =
    let display_height =
      if ltb 0 source_height then source_height else units_of device * rack_unit_height in
    let rest = find_landing topology device proposed targets source_height in
    if is_inside proposed display_height target
    then some (landing_on topology device proposed target)
    else rest

-- `rackFaces` gives the face that a rack shows, an empty text where it has no entry.
unfoldable pub find_rack_landing : Topology → Device → Point → (String → String) → Option Landing
find_rack_landing topology device proposed rack_faces =
    find_landing topology device proposed
      (map
        (λ (rack : Rack). record {
          rack = rack;
          rack_face = normalize_rack_face (rack_faces rack.id);
          x = rack.position_x;
          y = rack.position_y;
          width = rack_width;
        })
        (reverse topology.racks))
      0

pub record FaceBox : Type 0 where
  pub rack : Rack
  pub face : String
  pub x : ℤ
  pub y : ℤ
  pub width : ℕ

unfoldable pub find_rack_face_landing :
    Topology → Device → Point → List FaceBox → ℕ → Option Landing
find_rack_face_landing topology device proposed boxes source_height =
    find_landing topology device proposed
      (map
        (λ (box : FaceBox). record {
          rack = box.rack;
          rack_face = normalize_rack_face box.face;
          x = box.x;
          y = box.y;
          width = if box.width == 0 then rack_width else box.width;
        })
        (reverse boxes))
      source_height
