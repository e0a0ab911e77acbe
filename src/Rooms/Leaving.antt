-- ===== src/Rooms/Leaving.antt =====
-- Equipment that leaves its room: `leaveRoom` of web/static/js/rooms.js.
use wiredraft.Prelude.{
  String, true, false, ◌&&◌, not, List, [], ◌∷◌, ◌++◌, map, Option, none, some, ◌≡◌, refl, sym, ◌∙◌,
  ◌==◌, string_eq, if◌then◌else◌, is_empty, filter, find?, find?-holds, All, Bool-cases, inl, inr,
  subst, str_iff, arith,
}
use wiredraft.Prelude.Int.{ℤ, pos, ◌+ℤ◌, ◌≤ℤ◌}
use wiredraft.Topology.{Topology, Device, Rack, Room}
use wiredraft.Rack.{Bounds}
use wiredraft.Rooms.{
  gap_of, find_room, Collection, Item, Size, rack_item, device_item, find_item, set_room,
  move_equipment,
}
use wiredraft.Rooms.Outlines.{RackBox, DeviceBox, RoomBox, boxes_in, outline_of, layout_rooms}
use wiredraft.Rooms.Placing.{too_close, is_rack, at_x, slide_right}
use wiredraft.Rooms.Placing.Clear.{not_second, slide_right-clear}

module _ (display_size : Device → Size) where
  unfoldable pub rack_boxes : Topology → List RackBox
  unfolding rack_item
  rack_boxes t =
      map (λ (rack : Rack). record { rack = rack; bounds = (rack_item display_size rack).bounds })
        t.racks

  unfoldable pub device_boxes : Topology → List DeviceBox
  unfolding device_item
  device_boxes t =
      map
        (λ (device : Device). record {
          device = device;
          bounds = (device_item display_size device).bounds;
        })
        (filter (λ (device : Device). is_empty device.rack_id) t.devices)

  -- All equipment but the item.
  unfoldable pub occupied_by_others : Topology → Collection → String → List Bounds
  unfolding rack_boxes device_boxes
  occupied_by_others t collection id =
      map (λ (box : RackBox). box.bounds)
        (filter (λ (box : RackBox). not (is_rack collection && box.rack.id == id)) (rack_boxes t))
      ++ map (λ (box : DeviceBox). box.bounds)
          (filter (λ (box : DeviceBox). not (not (is_rack collection) && box.device.id == id))
            (device_boxes t))

  unfoldable pub outline_for : Topology → Room → Option RoomBox
  unfolding layout_rooms
  outline_for t room =
      find? (λ (box : RoomBox). box.room.id == room.id)
        (layout_rooms t (rack_boxes t) (device_boxes t) [])

  -- `none` stands for a room without an outline, or for a loop that its fuel does not end.
  unfoldable pub leave_item : Topology → Collection → Item → Room → Option Topology
  unfolding outline_for occupied_by_others slide_right set_room move_equipment
  leave_item t collection item room = elim (outline_for t room) [
    | none ↦ none
    | some outline ↦
        elim (slide_right (gap_of room) (occupied_by_others t collection item.id)
          (at_x item.bounds (outline.x +ℤ outline.width +ℤ pos (gap_of room)))) [
            | none ↦ none
            | some x ↦
                some (
                  move_equipment (set_room t collection item.id "") collection item x item.bounds.y)
          ]
  ]

  unfoldable pub leave_room : Topology → Collection → String → Option Topology
  unfolding leave_item find_item find_room
  leave_room t collection id = elim (find_item display_size t collection id) [
    | none ↦ some t
    | some item ↦ elim (find_room t item.room_id) [
      | none ↦ some t
      | some room ↦
          if not (is_rack collection) && not (is_empty item.rack_id)
          then some t
          else leave_item t collection item room
    ]
  ]

  find?-outline :
      (t : Topology) (id : String) (rooms : List Room) {wanted : Room}
      → find? (λ (r : Room). r.id == id) rooms ≡ some wanted
      → (outline : RoomBox) × (find?
            (λ (box : RoomBox). box.room.id == id)
            (map
              (λ (r : Room). outline_of t (boxes_in r (rack_boxes t) (device_boxes t)) [] r)
              rooms)
          ≡ some outline)
  unfolding outline_of
  find?-outline t id [] h = cc
  find?-outline t id (r ∷ rooms) {wanted} h = elim (Bool-cases (r.id == id)) [
    | inl e ↦ (outline_of t (boxes_in r (rack_boxes t) (device_boxes t)) [] r, rw e refl)
    | inr e ↦
        let (found, k) = find?-outline t id rooms (
          subst (λ b. (if b then some r else find? (λ (r : Room). r.id == id) rooms) ≡ some wanted)
            e h) in
        (found, rw e k)
  ]

  -- Beyond the outline of the room, at the height where it was and clear of all other equipment.
  pub record HasLeft (t : Topology) (collection : Collection) (item : Item) (room : Room)
      (after : Topology) : Type 0 where
    pub outline : RoomBox
    pub outlined : outline_for t room ≡ some outline
    pub x : ℤ
    pub moved :
        after ≡ move_equipment (set_room t collection item.id "") collection item x item.bounds.y
    pub beyond : outline.x +ℤ outline.width +ℤ pos (gap_of room) ≤ℤ x
    pub clear :
        All
          (λ other. too_close (gap_of room) (at_x item.bounds x) other ≡ false)
          (occupied_by_others t collection item.id)

  leave_item-HasLeft :
      (t : Topology) (collection : Collection) (item : Item) (room : Room) (outline : RoomBox)
      → outline_for t room ≡ some outline
      → (after : Topology) × (leave_item t collection item room ≡ some after)
        × HasLeft t collection item room after
  unfolding leave_item
  leave_item-HasLeft t collection item room outline e =
      let (x, f, after, clear) =
        slide_right-clear (gap_of room) (occupied_by_others t collection item.id)
          (at_x item.bounds (outline.x +ℤ outline.width +ℤ pos (gap_of room))) in
      (
        move_equipment (set_room t collection item.id "") collection item x item.bounds.y,
        rw (e, leave_item) rw f refl,
        record {
          outline = outline;
          outlined = e;
          x = x;
          moved = refl;
          beyond = after;
          clear = clear;
        },
      )

  has_outline :
      (t : Topology) (id : String) (room : Room)
      → find_room t id ≡ some room
      → (outline : RoomBox) × (outline_for t room ≡ some outline)
  unfolding find_room outline_for layout_rooms
  has_outline t id room h =
      let same : id ≡ room.id =
        sym ((str_iff room.id id).0 (find?-holds (λ (r : Room). r.id == id) t.rooms h)) in
      find?-outline t room.id t.rooms
        (subst (λ id. find? (λ (r : Room). r.id == id) t.rooms ≡ some room) same h)

  -- Equipment in a room of the document that is on no rack leaves it: the call ends, the equipment
  -- is then in no room, right of the outline that its room had by at least the room's gap, at the
  -- height where it was, and it keeps that gap from all other racks and free devices.
  pub leave_room-HasLeft :
      (t : Topology) (collection : Collection) (id : String) (item : Item) (room : Room)
      → find_item display_size t collection id ≡ some item
      → is_empty item.rack_id ≡ true
      → find_room t item.room_id ≡ some room
      → (after : Topology) × (leave_room t collection id ≡ some after)
        × HasLeft t collection item room after
  unfolding leave_room
  leave_room-HasLeft t collection id item room found free here =
      let (outline, outlined) = has_outline t item.room_id room here in
      let (after, e, left) = leave_item-HasLeft t collection item room outline outlined in
      (
        after,
        rw (found, leave_room) rw here
            (not_second (not (is_rack collection)) (not (is_empty item.rack_id)) _ _
                (ground (arith, free))
              ∙ e),
        left,
      )
