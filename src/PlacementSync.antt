-- ===== src/PlacementSync.antt =====
-- Capturing and replaying drags: web/static/js/placement-sync.js. The source handles the two
-- collections by one function over field names; here each has its own record of placement fields.
pub mod Inventory
pub mod Queue
pub mod Replay
pub mod Refused
pub mod Serial
use wiredraft.Prelude.{
  ℕ, String, Bool, true, false, ◌&&◌, ◌||◌, List, [], ◌∷◌, ◌++◌, Option, none, some, ◌==◌, Eq,
  if◌then◌else◌, string_eq, nat_eq, is_empty, find?, not, Result, ok, err, ◌>>=◌,
}
use wiredraft.Prelude.Int.{ℤ, int_eq}
use wiredraft.Topology.{Topology, Device, Rack}

-- `position(item, "devices")`, with the fields of `placementFields.devices`.
pub record DevicePosition : Type 0 where
  pub position_x : ℤ
  pub position_y : ℤ
  pub rack_id : String
  pub rack_unit : ℕ
  pub rack_face : String
  pub room_id : String

-- `position(item, "racks")`, with the fields of `placementFields.racks`.
pub record RackPosition : Type 0 where
  pub position_x : ℤ
  pub position_y : ℤ
  pub room_id : String

unfoldable pub device_position : Device → DevicePosition
device_position d = record {
  position_x = d.position_x;
  position_y = d.position_y;
  rack_id = d.rack_id;
  rack_unit = d.rack_unit;
  rack_face =
      if is_empty d.rack_id then "" else if is_empty d.rack_face then "front" else d.rack_face;
  room_id = d.room_id;
}

unfoldable pub rack_position : Rack → RackPosition
rack_position r = record {
  position_x = r.position_x;
  position_y = r.position_y;
  room_id = r.room_id;
}

-- `samePosition` on either collection.
unfoldable pub same_device_position : DevicePosition → DevicePosition → Bool
same_device_position a b =
    a.position_x == b.position_x
    && a.position_y == b.position_y
    && a.rack_id == b.rack_id
    && a.rack_unit == b.rack_unit
    && a.rack_face == b.rack_face
    && a.room_id == b.room_id

unfoldable pub same_rack_position : RackPosition → RackPosition → Bool
same_rack_position a b =
    a.position_x == b.position_x && a.position_y == b.position_y && a.room_id == b.room_id

pub data Change : Type 0 where
  move_device : String → DevicePosition → DevicePosition → Change
  move_rack : String → RackPosition → RackPosition → Change

unfoldable pub device_change : List Device → Device → List Change
device_change snapshot item =
    elim (find? (λ (candidate : Device). candidate.id == item.id) snapshot) [
      | none ↦ []
      | some original ↦
          if same_device_position (device_position original) (device_position item)
          then []
          else move_device item.id (device_position original) (device_position item) ∷ []
    ]

rack_change : List Rack → Rack → List Change
rack_change snapshot item = elim (find? (λ (candidate : Rack). candidate.id == item.id) snapshot) [
  | none ↦ []
  | some original ↦
      if same_rack_position (rack_position original) (rack_position item)
      then []
      else move_rack item.id (rack_position original) (rack_position item) ∷ []
]

-- `placementChanges` on either collection.
unfoldable pub device_placement_changes : Topology → List Device → List Change
unfolding device_change
device_placement_changes snapshot [] = []
device_placement_changes snapshot (item ∷ items) =
    device_change snapshot.devices item ++ device_placement_changes snapshot items

unfoldable pub rack_placement_changes : Topology → List Rack → List Change
unfolding rack_change
rack_placement_changes snapshot [] = []
rack_placement_changes snapshot (item ∷ items) =
    rack_change snapshot.racks item ++ rack_placement_changes snapshot items

-- `Object.assign(item, change.after)`
abbrev pub assign_device : DevicePosition → Device → Device
assign_device p d = record d {
  position_x = p.position_x;
  position_y = p.position_y;
  rack_id = p.rack_id;
  rack_unit = p.rack_unit;
  rack_face = p.rack_face;
  room_id = p.room_id;
}

abbrev pub assign_rack : RackPosition → Rack → Rack
assign_rack p r = record r {
  position_x = p.position_x;
  position_y = p.position_y;
  room_id = p.room_id;
}

-- What a mutation of the item that `find` returns does to its array.
unfoldable pub update_device : String → (Device → Device) → List Device → List Device
update_device id f [] = []
update_device id f (d ∷ ds) =
    let rest = update_device id f ds in if d.id == id then f d ∷ ds else d ∷ rest

unfoldable pub update_rack : String → (Rack → Rack) → List Rack → List Rack
update_rack id f [] = []
update_rack id f (r ∷ rs) =
    let rest = update_rack id f rs in if r.id == id then f r ∷ rs else r ∷ rest

pub data Conflict : Type 0 where
  removed : Conflict
  moved : String → Conflict

-- The text `${item.name || "This item"}` of the error.
item_name : String → String
item_name name = if is_empty name then "This item" else name

apply_device_move :
    Bool → Topology → String → DevicePosition → DevicePosition → Result Conflict Topology
unfolding update_device
apply_device_move check t id before after =
    elim (find? (λ (candidate : Device). candidate.id == id) t.devices) [
      | none ↦ if check then err removed else ok t
      | some item ↦
          let current = device_position item in
          if check
            && not (same_device_position current before)
            && not (same_device_position current after)
          then err (moved (item_name item.name))
          else ok (record t { devices = update_device id (assign_device after) t.devices })
    ]

apply_rack_move : Bool → Topology → String → RackPosition → RackPosition → Result Conflict Topology
unfolding update_rack
apply_rack_move check t id before after =
    elim (find? (λ (candidate : Rack). candidate.id == id) t.racks) [
      | none ↦ if check then err removed else ok t
      | some item ↦
          let current = rack_position item in
          if check
            && not (same_rack_position current before)
            && not (same_rack_position current after)
          then err (moved (item_name item.name))
          else ok (record t { racks = update_rack id (assign_rack after) t.racks })
    ]

unfoldable pub apply_change : Bool → Topology → Change → Result Conflict Topology
unfolding apply_device_move apply_rack_move item_name
apply_change check t (move_device id before after) = apply_device_move check t id before after
apply_change check t (move_rack id before after) = apply_rack_move check t id before after

-- `applyPlacements`; the copy that `structuredClone` makes is the value itself.
unfoldable pub apply_placements : Bool → Topology → List Change → Result Conflict Topology
apply_placements check t [] = ok t
apply_placements check t (change ∷ changes) =
    apply_change check t change >>= λ next. apply_placements check next changes
