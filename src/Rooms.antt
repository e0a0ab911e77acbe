-- ===== src/Rooms.antt =====
-- Rooms on the canvas: web/static/js/rooms.js. Coordinates are integers. An item is told by its id
-- where the source compares objects. `faceplateDisplaySize` is the parameter `display_size`.
pub mod Placing
pub mod Leaving
pub mod Outlines
pub mod Moves
pub mod Connections
pub mod Arranging
use wiredraft.Prelude.{
  ℕ, zero, suc, String, Bool, true, false, ◌&&◌, ◌||◌, not, List, [], ◌∷◌, ◌++◌, map, Option, none,
  some, ◌+◌, ◌*◌, ◌/◌, ◌==◌, ◌!=◌, Eq, string_eq, nat_eq, if◌then◌else◌, is_empty, filter, find?,
  contains, length,
}
use wiredraft.Prelude.Int.{ℤ, pos, negsuc, sub_ℕ, ◌+ℤ◌, ◌-ℤ◌, ltb_ℤ, leb_ℤ, max_ℤ}
use wiredraft.Topology.{Topology, Device, Rack, Room}
use wiredraft.Rack.{Bounds, Point, rack_bounds, rack_width, rack_face_gap}

abbrev pub room_header : ℕ
room_header = 100

abbrev pub room_padding : ℕ
room_padding = 240

abbrev pub room_equipment_gap : ℕ
room_equipment_gap = 180

-- A spacing of the room, or the default.
unfoldable pub padding_of : Room → ℕ
padding_of room = if room.padding == 0 then room_padding else room.padding

unfoldable pub gap_of : Room → ℕ
gap_of room = if room.equipment_gap == 0 then room_equipment_gap else room.equipment_gap

unfoldable pub find_room : Topology → String → Option Room
find_room t room_id = find? (λ (room : Room). room.id == room_id) t.rooms

unfoldable pub room_for_device : List Rack → Device → String
room_for_device racks device =
    if is_empty device.rack_id
    then device.room_id
    else elim (find? (λ (rack : Rack). rack.id == device.rack_id) racks) [
      | none ↦ ""
      | some rack ↦ rack.room_id
    ]

unfoldable pub member_racks : Topology → String → List Rack
member_racks t room_id = filter (λ (rack : Rack). rack.room_id == room_id) t.racks

unfoldable pub member_devices : Topology → String → List Device
unfolding room_for_device
member_devices t room_id =
    filter (λ (device : Device). room_for_device t.racks device == room_id) t.devices

abbrev pub shift_room : ℤ → ℤ → Room → Room
shift_room dx dy room = record room {
  position_x = room.position_x +ℤ dx;
  position_y = room.position_y +ℤ dy;
}

abbrev pub shift_rack : ℤ → ℤ → Rack → Rack
shift_rack dx dy rack = record rack {
  position_x = rack.position_x +ℤ dx;
  position_y = rack.position_y +ℤ dy;
}

abbrev pub shift_device : ℤ → ℤ → Device → Device
shift_device dx dy device = record device {
  position_x = device.position_x +ℤ dx;
  position_y = device.position_y +ℤ dy;
}

-- `item => test ? shifted : item`, over a list.
abbrev pub map_where {ℓ} : {A : Type ℓ} → (A → Bool) → (A → A) → List A → List A
map_where test f [] = []
map_where test f (x ∷ xs) = let rest = map_where test f xs in (if test x then f x else x) ∷ rest

-- The loop over the room and its members.
abbrev pub shift_members : Topology → String → ℤ → ℤ → Topology
shift_members t room_id dx dy = record t {
  rooms = map_where (λ (r : Room). r.id == room_id) (shift_room dx dy) t.rooms;
  racks = map_where (λ (r : Rack). r.room_id == room_id) (shift_rack dx dy) t.racks;
  devices =
      map_where (λ (d : Device). room_for_device t.racks d == room_id) (shift_device dx dy)
        t.devices;
}

unfoldable pub move_room : Topology → String → ℤ → ℤ → Topology
unfolding find_room room_for_device
move_room t room_id dx dy = elim (find_room t room_id) [
  | none ↦ t
  | some room ↦ shift_members t room_id dx dy
]

pub data Collection : Type 0 where
  racks : Collection
  devices : Collection

-- What the placing code reads of a rack or a device; a rack has no rack of its own.
pub record Item : Type 0 where
  pub id : String
  pub room_id : String
  pub rack_id : String
  pub bounds : Bounds

pub record Size : Type 0 where
  pub width : ℕ
  pub height : ℕ

module _ (display_size : Device → Size) where
  -- `equipmentBounds`: both elevations of a rack, or the body of a device.
  unfoldable pub rack_item : Rack → Item
  unfolding rack_bounds
  rack_item rack = record {
    id = rack.id;
    room_id = rack.room_id;
    rack_id = "";
    bounds = record (rack_bounds rack) { width = rack_width * 2 + rack_face_gap };
  }

  unfoldable pub device_item : Device → Item
  device_item device = record {
    id = device.id;
    room_id = device.room_id;
    rack_id = device.rack_id;
    bounds = record {
      x = device.position_x;
      y = device.position_y;
      width = (display_size device).width;
      height = (display_size device).height;
    };
  }

  -- `topology[collection]`
  unfoldable pub items : Topology → Collection → List Item
  unfolding rack_item device_item
  items t racks = map rack_item t.racks
  items t devices = map device_item t.devices

  unfoldable pub find_item : Topology → Collection → String → Option Item
  unfolding items
  find_item t collection id = find? (λ (item : Item). item.id == id) (items t collection)

unfoldable pub set_room : Topology → Collection → String → String → Topology
set_room t racks id room_id = record t {
  racks = map_where (λ (r : Rack). r.id == id) (λ r. record r { room_id = room_id }) t.racks;
}
set_room t devices id room_id = record t {
  devices = map_where (λ (d : Device). d.id == id) (λ d. record d { room_id = room_id }) t.devices;
}

-- A rack takes its mounted devices along.
unfoldable pub move_equipment : Topology → Collection → Item → ℤ → ℤ → Topology
move_equipment t racks item x y =
    let dx = x -ℤ item.bounds.x in
    let dy = y -ℤ item.bounds.y in
    record t {
      racks = map_where (λ (r : Rack). r.id == item.id) (shift_rack dx dy) t.racks;
      devices = map_where (λ (d : Device). d.rack_id == item.id) (shift_device dx dy) t.devices;
    }
move_equipment t devices item x y =
    let dx = x -ℤ item.bounds.x in
    let dy = y -ℤ item.bounds.y in
    record t {
      devices = map_where (λ (d : Device). d.id == item.id) (shift_device dx dy) t.devices;
    }

unfoldable pub remove_room : Topology → String → Topology
remove_room t room_id = record t {
  rooms = filter (λ (room : Room). room.id != room_id) t.rooms;
  racks = map_where (λ (r : Rack). r.room_id == room_id) (λ r. record r { room_id = "" }) t.racks;
  devices =
      map_where (λ (d : Device). d.room_id == room_id) (λ d. record d { room_id = "" }) t.devices;
}
