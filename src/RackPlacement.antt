-- ===== src/RackPlacement.antt =====
-- Devices that are dropped on a rack: web/static/js/rack-placement.js. An item is told by its id.
-- `faceplateDisplaySize` is the parameter `display_size`. A field that a placement lacks is empty.
pub mod Mounted
use wiredraft.Prelude.{
  ℕ, String, Bool, true, false, ◌&&◌, ◌||◌, not, List, [], ◌∷◌, ◌++◌, map, Option, none, some, ◌+◌,
  ◌-◌, ◌*◌, ◌==◌, ◌!=◌, string_eq, leb, if◌then◌else◌, is_empty, filter, find?, any, all, contains,
  add, unique, Result, ok, err, ◌>>=◌, present,
}
use wiredraft.Prelude.Int.{ℤ, pos, ◌+ℤ◌}
use wiredraft.Topology.{Topology, Device, Rack, Room}
use wiredraft.Rack.{
  normalize_rack_face, is_rack_placement_available, mounted_device_position, units_of, rack_width,
  rack_face_gap,
}
use wiredraft.Clearance.{max_of}
use wiredraft.Rooms.{Size}
use wiredraft.PlacementSync.{
  DevicePosition, Change, move_device, move_rack, Conflict, device_placement_changes,
  apply_placements, update_device,
}

-- Where a new device is dropped: on a unit of a rack, or freely, in a room or in none.
pub record DropTarget : Type 0 where
  pub rack_id : String
  pub rack_unit : ℕ
  pub rack_face : String
  pub room_id : String
  pub x : ℤ
  pub y : ℤ

pub data PlacementError : Type 0 where
  room_removed : PlacementError
  does_not_fit : PlacementError
  no_rack : PlacementError
  conflict : Conflict → PlacementError
  range_taken : PlacementError

-- On a rack. `no_rack` is the access to a missing rack, which the test before it excludes.
unfoldable pub mounted_placement :
    Topology → Device → DropTarget → Result PlacementError DevicePosition
unfolding normalize_rack_face is_rack_placement_available mounted_device_position
mounted_placement t device target =
    let face = normalize_rack_face target.rack_face in
    if not (is_rack_placement_available t device target.rack_id target.rack_unit face)
    then err does_not_fit
    else present (find? (λ (item : Rack). item.id == target.rack_id) t.racks) no_rack >>= λ rack.
        let position =
          mounted_device_position rack (record device { rack_unit = target.rack_unit }) in
        ok (record {
          position_x = position.x;
          position_y = position.y;
          rack_id = target.rack_id;
          rack_unit = target.rack_unit;
          rack_face = face;
          room_id = "";
        })

unfoldable pub new_device_placement :
    Topology → Device → DropTarget → Result PlacementError DevicePosition
unfolding mounted_placement
new_device_placement t device target =
    if not (is_empty target.rack_id)
    then mounted_placement t device target
    else if not (is_empty target.room_id)
        && not (any (λ (room : Room). room.id == target.room_id) t.rooms)
    then err room_removed
    else ok (record {
      position_x = target.x;
      position_y = target.y;
      rack_id = "";
      rack_unit = 0;
      rack_face = "";
      room_id = target.room_id;
    })

abbrev pub change_id : Change → String
change_id (move_device id before after) = id
change_id (move_rack id before after) = id

abbrev pub end_unit : Device → ℕ
end_unit device = device.rack_unit + units_of device - 1

-- `current` stands still where `device` is to be mounted.
unfoldable pub is_displaced : List String → Device → Device → Bool
unfolding normalize_rack_face
is_displaced moving device current =
    not (contains moving current.id)
    && current.rack_id == device.rack_id
    && normalize_rack_face current.rack_face == normalize_rack_face device.rack_face
    && leb device.rack_unit (end_unit current)
    && leb current.rack_unit (end_unit device)

-- `next.devices.filter((item) => moving.has(item.id) && item.rackId)`
unfoldable pub moving_mounted : List String → List Device → List Device
moving_mounted moving devices =
    filter (λ (item : Device). contains moving item.id && not (is_empty item.rack_id)) devices

abbrev pub displaced_by : List String → Device → List Device → List String → List String
displaced_by moving device [] displaced = displaced
displaced_by moving device (current ∷ devices) displaced =
    displaced_by moving device devices
      (if is_displaced moving device current then add displaced current.id else displaced)

-- The keys of the map of displaced devices, in order.
abbrev pub displaced_ids : List String → List Device → List Device → List String → List String
displaced_ids moving devices [] displaced = displaced
displaced_ids moving devices (device ∷ mounted) displaced =
    displaced_ids moving devices mounted (displaced_by moving device devices displaced)

-- Beyond both elevations of every rack, and beyond the free devices.
unfoldable pub release_x : Topology → ℤ
release_x t = max_of (pos 0) (
    map (λ (rack : Rack). rack.position_x +ℤ pos (rack_width * 2 + rack_face_gap * 2)) t.racks
    ++ map (λ (device : Device). device.position_x +ℤ pos (rack_width + rack_face_gap))
        (filter (λ (device : Device). is_empty device.rack_id) t.devices))

abbrev pub released : ℤ → ℤ → Device → Device
released x y device = record device {
  rack_id = "";
  rack_unit = 0;
  rack_face = "";
  position_x = x;
  position_y = y;
}

pub record ReplacementPlan : Type 0 where
  pub changes : List Change
  pub displaced : List Device
  pub mounted : List Device

module _ (display_size : Device → Size) where
  -- The loop that puts the displaced devices below each other.
  unfoldable pub release_all : ℤ → ℤ → List String → List Device → List Device
  unfolding update_device
  release_all x y [] devices = devices
  release_all x y (id ∷ ids) devices = elim (find? (λ (device : Device). device.id == id) devices) [
    | none ↦ release_all x y ids devices
    | some device ↦
        release_all x (y +ℤ pos ((display_size (released x y device)).height + 50)) ids
          (update_device id (released x y) devices)
  ]

  unfoldable pub fits_in : Topology → Device → Bool
  unfolding is_rack_placement_available
  fits_in t device =
      is_rack_placement_available t device device.rack_id device.rack_unit device.rack_face

  -- The plan for the map with the moves replayed.
  unfoldable pub replace_in :
      Topology → List String → Topology → Result PlacementError ReplacementPlan
  unfolding moving_mounted is_displaced release_x release_all fits_in
  replace_in t moving next =
      let ids = displaced_ids moving next.devices (moving_mounted moving next.devices) [] in
      let final = record next { devices = release_all (release_x t) (pos 100) ids next.devices } in
      let mounted = moving_mounted moving final.devices in
      if not (all (fits_in final) mounted)
      then err range_taken
      else ok (record {
        changes = device_placement_changes t final.devices;
        displaced = filter (λ (device : Device). contains ids device.id) t.devices;
        mounted = mounted;
      })

  unfoldable pub plan_rack_replacement :
      Topology → List Device → Result PlacementError ReplacementPlan
  unfolding replace_in apply_placements
  plan_rack_replacement t devices =
      let changes = device_placement_changes t devices in
      elim (apply_placements false t changes) [
        | err thrown ↦ err (conflict thrown)
        | ok next ↦ replace_in t (unique (map change_id changes)) next
      ]
