-- ===== src/Rooms/Arranging.antt =====
-- Rooms that are arranged anew: `arrangeRoom` of web/static/js/rooms.js. `rack_widths` gives 0 for
-- a rack that the map of widths does not have.
use wiredraft.Prelude.{
  ℕ, String, List, [], ◌∷◌, none, some, ◌+◌, ◌==◌, nat_eq, if◌then◌else◌, is_empty, filter,
}
use wiredraft.Prelude.Int.{ℤ, pos, ◌+ℤ◌, max_ℤ}
use wiredraft.Topology.{Topology, Device, Rack}
use wiredraft.Rooms.{
  room_header, padding_of, gap_of, find_room, member_racks, member_devices, racks, devices, Size,
  rack_item, device_item, move_equipment,
}

-- What the two loops keep: the document and where the next free row begins.
pub record Arranged : Type 0 where
  pub topology : Topology
  pub bottom : ℤ

module _ (display_size : Device → Size) where
  -- The racks of the room in one row.
  unfoldable pub arrange_racks : (String → ℕ) → ℕ → ℤ → ℤ → List Rack → Arranged → Arranged
  unfolding rack_item move_equipment
  arrange_racks rack_widths gap x top [] s = s
  arrange_racks rack_widths gap x top (rack ∷ rest) s =
      let item = rack_item display_size rack in
      let width = if rack_widths rack.id == 0 then item.bounds.width else rack_widths rack.id in
      arrange_racks rack_widths gap (x +ℤ pos (width + gap)) top rest (record {
        topology = move_equipment s.topology racks item x top;
        bottom = max_ℤ s.bottom (top +ℤ pos (item.bounds.height + gap));
      })

  -- The free devices below each other.
  unfoldable pub arrange_devices : ℕ → ℤ → List Device → Arranged → Arranged
  unfolding device_item move_equipment
  arrange_devices gap left [] s = s
  arrange_devices gap left (device ∷ rest) s =
      let item = device_item display_size device in
      arrange_devices gap left rest (record {
        topology = move_equipment s.topology devices item left s.bottom;
        bottom = s.bottom +ℤ pos (item.bounds.height + gap);
      })

  unfoldable pub arrange_room : Topology → String → (String → ℕ) → Topology
  unfolding arrange_racks arrange_devices find_room padding_of gap_of member_racks member_devices
  arrange_room t room_id rack_widths = elim (find_room t room_id) [
    | none ↦ t
    | some room ↦
        let left = room.position_x +ℤ pos (padding_of room) in
        let top = room.position_y +ℤ pos (room_header + padding_of room) in
        let row =
          arrange_racks rack_widths (gap_of room) left top (member_racks t room_id)
            (record { topology = t; bottom = top }) in
        (arrange_devices (gap_of room) left
          (filter (λ (device : Device). is_empty device.rack_id) (member_devices t room_id))
          row).topology
  ]
