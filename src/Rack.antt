-- ===== src/Rack.antt =====
-- Rack geometry and allocation: web/static/js/rack.js. Rack units are natural numbers, 0 for a
-- device that is on no rail; a stored face is a text, as it is in the document.
pub mod Landings
pub mod Faces
pub mod Placement
pub mod Snapping
pub mod Layout
pub mod Units
use mathlib.Core.List.{reverse}
use Prim.Native.Nat.{bit_or}
use wiredraft.Prelude.{
  ℕ, zero, suc, String, Bool, true, false, ◌&&◌, ◌||◌, List, [], ◌∷◌, ◌++◌, map, Option, none, some,
  ◌+◌, ◌-◌, ◌*◌, ◌/◌, max, min, ltb, leb, ◌==◌, ◌!=◌, if◌then◌else◌, string_eq, nat_eq, is_empty,
  length, filter, find?, any, all, contains, add, add_all, unique,
}
use wiredraft.Prelude.Int.{ℤ, pos, pos_part, sub_ℕ, scale, ◌+ℤ◌, ◌-ℤ◌, ltb_ℤ, leb_ℤ, max_ℤ}
use wiredraft.Topology.{Topology, Device, Rack}

abbrev pub rack_width : ℕ
rack_width = 750

abbrev pub rack_header_height : ℕ
rack_header_height = 64

abbrev pub rack_footer_height : ℕ
rack_footer_height = 20

abbrev pub rack_device_inset : ℕ
rack_device_inset = 30

abbrev pub rack_unit_height : ℕ
rack_unit_height = 100

abbrev pub rack_mounted_device_width : ℕ
rack_mounted_device_width = 690

abbrev pub rack_face_gap : ℕ
rack_face_gap = 90

unfoldable pub normalize_rack_face : String → String
normalize_rack_face face = if face == "rear" then "rear" else "front"

unfoldable pub opposite_rack_face : String → String
unfolding normalize_rack_face
opposite_rack_face face = if normalize_rack_face face == "front" then "rear" else "front"

unfoldable pub shows_both_rack_faces : Device → Bool
shows_both_rack_faces device =
    device.rack_display == "both" || (is_empty device.rack_display && device.category == "Server")

unfoldable pub installed_hardware_face : Device → String → String
unfolding opposite_rack_face normalize_rack_face
installed_hardware_face device face =
    if device.rack_reversed then opposite_rack_face face else normalize_rack_face face

-- `Math.max(1, Number(device.faceplate?.unitsU) || 1)`
abbrev pub units_of : Device → ℕ
units_of device = max 1 device.units_u

-- The `Map` of `racksWithBothFaces`, as a function; a missing rack has the mask 0.
device_face_mask : Device → ℕ
device_face_mask device =
    if shows_both_rack_faces device
    then 3
    else if normalize_rack_face device.rack_face == "front"
    then 1
    else 2

mark_device : (String → ℕ) → Device → String → ℕ
unfolding device_face_mask
mark_device faces device rack_id =
    if is_empty device.rack_id || leb device.rack_unit 0
    then faces rack_id
    else if device.rack_id == rack_id
    then bit_or (faces rack_id) (device_face_mask device)
    else faces rack_id

mark_devices : (String → ℕ) → List Device → String → ℕ
unfolding mark_device
mark_devices faces [] = faces
mark_devices faces (device ∷ devices) = mark_devices (mark_device faces device) devices

unfoldable pub racks_with_both_faces : Topology → List String
unfolding mark_devices
racks_with_both_faces topology =
    let faces = mark_devices (λ _. 0) topology.devices in
    map (λ (rack : Rack). rack.id) (filter (λ (rack : Rack). faces rack.id == 3) topology.racks)

unfoldable pub visible_rack_faces : String → Bool → List String
unfolding normalize_rack_face
visible_rack_faces face expanded =
    if expanded then "front" ∷ "rear" ∷ [] else normalize_rack_face face ∷ []

pub record Point : Type 0 where
  pub x : ℤ
  pub y : ℤ

pub record Bounds : Type 0 where
  pub x : ℤ
  pub y : ℤ
  pub width : ℕ
  pub height : ℕ

unfoldable pub rack_bounds : Rack → Bounds
rack_bounds rack = record {
  x = rack.position_x;
  y = rack.position_y;
  width = rack_width;
  height = rack_header_height + rack.height_u * rack_unit_height + rack_footer_height;
}

unfoldable pub mounted_device_position : Rack → Device → Point
mounted_device_position rack device =
    let top_unit = device.rack_unit + units_of device - 1 in
    record {
      x = rack.position_x +ℤ pos rack_device_inset;
      y =
          rack.position_y
          +ℤ pos rack_header_height
          +ℤ scale rack_unit_height (sub_ℕ rack.height_u top_unit);
    }

-- The callback of `every` in `isRackPlacementAvailable`: `current` leaves the range free.
unfoldable pub leaves_free : Device → String → ℕ → ℕ → String → Device → Bool
leaves_free device rack_id rack_unit last_unit face current =
    if current.id == device.id
      || current.rack_id != rack_id
      || ltb current.rack_unit 1
      || normalize_rack_face current.rack_face != face
    then true
    else let current_last_unit = current.rack_unit + units_of current - 1 in
      ltb last_unit current.rack_unit || ltb current_last_unit rack_unit

-- `rackUnit` is a number, so `Number.isInteger` holds of it.
unfoldable pub is_rack_placement_available : Topology → Device → String → ℕ → String → Bool
unfolding leaves_free
is_rack_placement_available topology device rack_id rack_unit rack_face =
    elim (find? (λ (rack : Rack). rack.id == rack_id) topology.racks) [
      | none ↦ false
      | some rack ↦
          let last_unit = rack_unit + units_of device - 1 in
          if ltb rack_unit 1 || ltb rack.height_u last_unit
          then false
          else all (leaves_free device rack_id rack_unit last_unit (normalize_rack_face rack_face))
              topology.devices
    ]
