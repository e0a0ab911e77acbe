-- ===== src/Rooms/Placing/Clear.antt =====
-- Equipment that enters a room is clear of the rest of it.
use wiredraft.Prelude.{
  All-of_two, All-of_append, ℕ, suc, String, Bool, true, false, ◌&&◌, ◌||◌, not, List, ◌⊎◌, ◌==◌,
  map, some, ◌+◌, ◌≡◌, refl, ◌∙◌, ◌!=◌, string_eq, if◌then◌else◌, is_empty, length, All, All-of_map,
  arith,
}
use wiredraft.Prelude.Int.{ℤ, pos, ◌+ℤ◌, ltb_ℤ, ◌≤ℤ◌, ◌<ℤ◌, ltb→lt_ℤ}
use wiredraft.Topology.{Topology, Device, Rack, Room}
use wiredraft.Rack.{Bounds}
use wiredraft.Clearance.{slide-Clear, max_of, max_of-ge, max_of-All}
use wiredraft.Rooms.{
  room_header, padding_of, gap_of, find_room, Collection, racks, devices, Item, Size, find_item,
  set_room, move_equipment, rack_item, device_item, room_for_device, member_racks, member_devices,
}
use wiredraft.Rooms.Placing.{
  too_close, right_of, bottom_of, at_x, at_y, slide_right, slide_down, settle, candidate_at,
  occupied_in, place_in, assign_item, assign_room, is_rack,
}

right_blocked :
    (gap : ℕ) (candidate : Bounds) (x : ℤ) (box : Bounds)
    → too_close gap (at_x candidate x) box ≡ true
    → x <ℤ right_of gap box
unfolding too_close right_of
right_blocked gap candidate x box h =
    ltb→lt_ℤ x (box.x +ℤ pos (box.width + gap)) (first_of _ _ _ _ h)
  where
    first_of : (a b c d : Bool) → (a && b && c && d) ≡ true → a ≡ true
    first_of a b c d h = ground arith

down_blocked :
    (gap : ℕ) (candidate : Bounds) (y : ℤ) (box : Bounds)
    → too_close gap (at_y candidate y) box ≡ true
    → y <ℤ bottom_of gap box
unfolding too_close bottom_of
down_blocked gap candidate y box h = ltb→lt_ℤ y (box.y +ℤ pos (box.height + gap)) (
    third_of (ltb_ℤ candidate.x (box.x +ℤ pos (box.width + gap)))
      (ltb_ℤ box.x (candidate.x +ℤ pos (candidate.width + gap)))
      (ltb_ℤ y (box.y +ℤ pos (box.height + gap))) (ltb_ℤ box.y (y +ℤ pos (candidate.height + gap)))
      h)
  where
    third_of : (a b c d : Bool) → (a && b && c && d) ≡ true → c ≡ true
    third_of a b c d h = ground arith

-- What the loop gives: a box of the same size, clear of the others, at the start or further on.
pub record IsSettled (gap : ℕ) (occupied : List Bounds) (candidate box : Bounds) : Type 0 where
  pub width : box.width ≡ candidate.width
  pub height : box.height ≡ candidate.height
  pub right : candidate.x ≤ℤ box.x
  pub down : candidate.y ≤ℤ box.y
  pub clear : All (λ other. too_close gap box other ≡ false) occupied

-- The loop along the first coordinate ends, clear of the boxes.
pub slide_right-clear :
    (gap : ℕ) (occupied : List Bounds) (candidate : Bounds)
    → (x : ℤ) × (slide_right gap occupied candidate ≡ some x)
      × (candidate.x ≤ℤ x)
      × All (λ other. too_close gap (at_x candidate x) other ≡ false) occupied
unfolding slide_right
slide_right-clear gap occupied candidate =
    slide-Clear (λ x. too_close gap (at_x candidate x))
      (λ x hits. max_of x (map (right_of gap) hits)) (right_of gap) (right_blocked gap candidate)
      (λ x hits. All-of_map _ _ _ (max_of-All x (map (right_of gap) hits)))
      (λ x hits. max_of-ge x (map (right_of gap) hits)) (suc (length occupied)) occupied candidate.x
      (omega arith)

pub slide_down-clear :
    (gap : ℕ) (occupied : List Bounds) (candidate : Bounds)
    → (y : ℤ) × (slide_down gap occupied candidate ≡ some y)
      × (candidate.y ≤ℤ y)
      × All (λ other. too_close gap (at_y candidate y) other ≡ false) occupied
unfolding slide_down
slide_down-clear gap occupied candidate =
    slide-Clear (λ y. too_close gap (at_y candidate y))
      (λ y hits. max_of y (map (bottom_of gap) hits)) (bottom_of gap) (down_blocked gap candidate)
      (λ y hits. All-of_map _ _ _ (max_of-All y (map (bottom_of gap) hits)))
      (λ y hits. max_of-ge y (map (bottom_of gap) hits)) (suc (length occupied)) occupied
      candidate.y (omega arith)

settle-IsSettled :
    (collection : Collection) (gap : ℕ) (occupied : List Bounds) (candidate : Bounds)
    → (box : Bounds) × (settle collection gap occupied candidate ≡ some box)
      × IsSettled gap occupied candidate box
unfolding settle
settle-IsSettled racks gap occupied candidate =
    let (x, e, after, clear) = slide_right-clear gap occupied candidate in
    (
      at_x candidate x,
      rw (e, settle) refl,
      record { width = refl; height = refl; right = after; down = omega arith; clear = clear },
    )
settle-IsSettled devices gap occupied candidate =
    let (y, e, after, clear) = slide_down-clear gap occupied candidate in
    (
      at_y candidate y,
      rw (e, settle) refl,
      record { width = refl; height = refl; right = omega arith; down = after; clear = clear },
    )

candidate_at-left :
    (room : Room) (collection : Collection) (item : Item) (changed : Bool) (occupied : List Bounds)
    → room.position_x +ℤ pos (padding_of room)
      ≤ℤ (candidate_at room collection item changed occupied).x
unfolding candidate_at
candidate_at-left room collection item true occupied = omega arith
candidate_at-left room collection item false occupied = ground arith

candidate_at-top :
    (room : Room) (collection : Collection) (item : Item) (changed : Bool) (occupied : List Bounds)
    → room.position_y +ℤ pos (room_header + padding_of room)
      ≤ℤ (candidate_at room collection item changed occupied).y
unfolding candidate_at
candidate_at-top room racks item true occupied = omega arith
candidate_at-top room devices item true occupied = max_of-ge _ _
candidate_at-top room racks item false occupied = ground arith
candidate_at-top room devices item false occupied = ground arith

-- Tests that do not hold.
pub not_second : {A : Type 0} (a b : Bool) (x y : A) → b ≡ false → (if a && b then x else y) ≡ y
not_second true b x y h = rw h refl
not_second false b x y h = refl

pub not_neither :
    {A : Type 0} (a b : Bool) (x y : A) → (a || b) ≡ true → (if not a && not b then x else y) ≡ y
not_neither true b x y h = refl
not_neither false true x y h = refl
not_neither false false x y h = cc

module _ (display_size : Device → Size) where
  -- The item was moved within the room to a box of its size, right of the padding at the room's
  -- left and below its header and padding. It keeps the gap from every rack of the room and from
  -- every device of the room that is on no rack, but for the item itself.
  pub record IsPlaced (t : Topology) (collection : Collection) (item : Item) (room : Room)
      (after : Topology) : Type 0 where
    pub box : Bounds
    pub moved : after ≡ move_equipment t collection item box.x box.y
    pub width : box.width ≡ item.bounds.width
    pub height : box.height ≡ item.bounds.height
    pub left : room.position_x +ℤ pos (padding_of room) ≤ℤ box.x
    pub top : room.position_y +ℤ pos (room_header + padding_of room) ≤ℤ box.y
    pub clear_of_racks :
        All
          (λ (rack : Rack).
            ((rack.room_id == room.id && not (is_rack collection && rack.id == item.id)) ≡ false)
            ⊎ (too_close (gap_of room) box (rack_item display_size rack).bounds ≡ false))
          t.racks
    pub clear_of_devices :
        All
          (λ (device : Device).
            ((room_for_device t.racks device == room.id
                && (not (not (is_rack collection) && device.id == item.id)
                    && is_empty device.rack_id))
              ≡ false)
            ⊎ (too_close (gap_of room) box (device_item display_size device).bounds ≡ false))
          t.devices

  place_in-IsPlaced :
      (t : Topology) (collection : Collection) (item : Item) (room : Room) (changed : Bool)
      → (after : Topology) × (place_in display_size t collection item room changed ≡ some after)
        × IsPlaced t collection item room after
  unfolding place_in candidate_at occupied_in member_racks member_devices
  place_in-IsPlaced t collection item room changed =
      let occupied = occupied_in display_size t collection item.id room.id in
      let candidate = candidate_at room collection item changed occupied in
      let (box, e, settled) = settle-IsSettled collection (gap_of room) occupied candidate in
      (
        move_equipment t collection item box.x box.y,
        rw (e, place_in) refl,
        record {
          box = box;
          moved = refl;
          width = settled.width;
          height = settled.height;
          left =
              omega (arith, settled.right, candidate_at-left room collection item changed occupied);
          top = omega (arith, settled.down, candidate_at-top room collection item changed occupied);
          clear_of_racks =
              All-of_two _ _ _ t.racks (All-of_map _ _ _ (All-of_append _ _ _ settled.clear).0);
          clear_of_devices =
              All-of_two _ _ _ t.devices (All-of_map _ _ _ (All-of_append _ _ _ settled.clear).1);
        },
      )

  -- Assigning equipment that is on no rack to a room of the document, where it is not in that room
  -- yet or is to be snapped, ends: the equipment is then assigned and moved to a place, right of
  -- the padding at the room's left and below its header and padding, at which it keeps the room's
  -- gap from all other racks of the room and from all other devices of the room that are on no
  -- rack.
  pub assign_room-IsPlaced :
      (t : Topology) (collection : Collection) (id room_id : String) (snap : Bool) (item : Item)
      (room : Room)
      → find_item display_size t collection id ≡ some item
      → is_empty item.rack_id ≡ true
      → find_room t room_id ≡ some room
      → (item.room_id != room_id || snap) ≡ true
      → (after : Topology) × (assign_room display_size t collection id room_id snap ≡ some after)
        × IsPlaced (set_room t collection item.id room_id) collection item room after
  unfolding assign_room assign_item
  assign_room-IsPlaced t collection id room_id snap item room found free here moving =
      let (after, e, placed) =
        place_in-IsPlaced (set_room t collection item.id room_id) collection item room
          (item.room_id != room_id) in
      (
        after,
        rw (found, assign_room)
            (not_second (not (is_rack collection)) (not (is_empty item.rack_id)) _ _
                (ground (arith, free))
              ∙ rw (here, assign_item) (not_neither (item.room_id != room_id) snap _ _ moving ∙ e)),
        placed,
      )
