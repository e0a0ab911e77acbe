-- ===== src/Tests/RoomTests.antt =====
-- A room with a rack, run.
use wiredraft.Prelude.{
  String, Bool, not, ◌&&◌, ◌==◌, starts_with, contains, any, map, filter, false, [], ◌∷◌, some, ◌≡◌,
  refl, All, string_eq,
}
use wiredraft.Prelude.Int.{pos}
use wiredraft.Topology.{Topology, Device, Rack, Room}
use wiredraft.Rooms.{
  Size, Item, racks, devices, set_room, find_item, find_room, rack_item, device_item,
}
use wiredraft.Rooms.Placing.{assign_room}
use wiredraft.Rooms.Placing.Clear.{IsPlaced, assign_room-IsPlaced}
use wiredraft.Rooms.Leaving.{HasLeft, leave_room, leave_room-HasLeft, rack_boxes, device_boxes}
use wiredraft.Rooms.Outlines.{RoomBox, Encloses, boxes_in, layout_rooms, layout_rooms-Encloses}
use wiredraft.Rooms.Connections.{room_connections}
use wiredraft.Rooms.Connections.Bundles.{ids_under, AllDiffer, hides, joins, room_connections_lem}
use wiredraft.Tests.Samples.{sample, rack, loose}

abbrev sizes : Device → Size
sizes d = record { width = 600; height = 100 }

abbrev hall : Room
hall = record {
  id = "hall";
  name = "HALL";
  building = "";
  floor = "";
  position_x = pos 100;
  position_y = pos 0;
  width = 2400;
  height = 1200;
  padding = 0;
  equipment_gap = 50;
  other = "";
}

abbrev housed : Rack
housed = record (rack "r1" (pos 400)) { room_id = "hall" }

abbrev house : Topology
house = record sample { rooms = hall ∷ []; racks = housed ∷ [] }

abbrev loose_item : Item
unfolding device_item
loose_item = device_item sizes loose

assign_room-IsPlaced_example :
    (after : Topology) × (assign_room sizes house devices "loose" "hall" false ≡ some after)
    × IsPlaced sizes (set_room house devices "loose" "hall") devices loose_item hall after
unfolding find_item find_room device_item
assign_room-IsPlaced_example =
    assign_room-IsPlaced sizes house devices "loose" "hall" false loose_item hall refl refl refl
      refl

abbrev housed_item : Item
unfolding rack_item
housed_item = rack_item sizes housed

leave_room-HasLeft_example :
    (after : Topology) × (leave_room sizes house racks "r1" ≡ some after)
    × HasLeft sizes house racks housed_item hall after
unfolding find_item find_room rack_item
leave_room-HasLeft_example =
    leave_room-HasLeft sizes house racks "r1" housed_item hall refl refl refl

layout_rooms-Encloses_example :
    All
      (λ (outline : RoomBox).
        outline.collapsed ≡ false
        → All
            (Encloses outline.room outline)
            (boxes_in outline.room (rack_boxes sizes house) (device_boxes sizes house)))
      (layout_rooms house (rack_boxes sizes house) (device_boxes sizes house) [])
layout_rooms-Encloses_example =
    layout_rooms-Encloses house (rack_boxes sizes house) (device_boxes sizes house) []

-- The ends, with those that begin with "device:" before those that begin with "room:".
abbrev by_kind : String → String → Bool
by_kind a b = not (starts_with "room:" a && starts_with "device:" b)

room_connections_lem_example :
    (contains (room_connections by_kind house ("hall" ∷ [])).hidden_link_ids "l1"
      ≡ any (λ link. hides by_kind house ("hall" ∷ []) link && link.id == "l1") house.links)
    × (ids_under "device:loose" "room:hall" (room_connections by_kind house ("hall" ∷ [])).bundles
        ≡ map
            (λ link. link.id)
            (filter (joins by_kind house ("hall" ∷ []) "device:loose" "room:hall") house.links))
    × AllDiffer (room_connections by_kind house ("hall" ∷ [])).bundles
room_connections_lem_example =
    room_connections_lem by_kind house ("hall" ∷ []) "device:loose" "room:hall" "l1"
