-- ===== src/Rooms/Placing.antt =====
-- Equipment that enters a room: `assignRoom` of web/static/js/rooms.js. Every edge of a collision
-- is beyond the candidate's coordinate, so `Math.max` over the edges may start from that
-- coordinate.
pub mod Clear
use wiredraft.Prelude.{
  ℕ, suc, String, Bool, true, false, ◌&&◌, ◌||◌, not, List, [], ◌∷◌, ◌++◌, map, Option, none, some,
  ◌+◌, ◌*◌, ◌/◌, ◌==◌, ◌!=◌, Eq, string_eq, nat_eq, if◌then◌else◌, is_empty, filter, length,
}
use wiredraft.Prelude.Int.{ℤ, pos, negsuc, sub_ℕ, ◌+ℤ◌, ltb_ℤ, max_ℤ}
use wiredraft.Topology.{Topology, Device, Rack, Room}
use wiredraft.Rack.{Bounds, Point}
use wiredraft.Clearance.{slide, max_of}
use wiredraft.Rooms.{
  room_header, padding_of, gap_of, find_room, Collection, racks, devices, Item, Size, rack_item,
  device_item, items, find_item, member_racks, member_devices, set_room, move_equipment,
}

-- `Math.round(value / 10) * 10`: a half is rounded up.
unfoldable pub round_ten : ℤ → ℤ
round_ten (pos n) = pos ((n + 5) / 10 * 10)
round_ten (negsuc n) = sub_ℕ 0 ((n + 5) / 10 * 10)

abbrev pub is_rack : Collection → Bool
is_rack racks = true
is_rack devices = false

-- The boxes are nearer to each other than the gap, in both directions.
unfoldable pub too_close : ℕ → Bounds → Bounds → Bool
too_close gap candidate box =
    ltb_ℤ candidate.x (box.x +ℤ pos (box.width + gap))
    && ltb_ℤ box.x (candidate.x +ℤ pos (candidate.width + gap))
    && ltb_ℤ candidate.y (box.y +ℤ pos (box.height + gap))
    && ltb_ℤ box.y (candidate.y +ℤ pos (candidate.height + gap))

unfoldable pub right_of : ℕ → Bounds → ℤ
right_of gap box = box.x +ℤ pos (box.width + gap)

unfoldable pub bottom_of : ℕ → Bounds → ℤ
bottom_of gap box = box.y +ℤ pos (box.height + gap)

abbrev pub at_x : Bounds → ℤ → Bounds
at_x box x = record box { x = x }

abbrev pub at_y : Bounds → ℤ → Bounds
at_y box y = record box { y = y }

-- The loop, along the one coordinate or the other. `none` stands for a loop that its fuel does not
-- end.
unfoldable pub slide_right : ℕ → List Bounds → Bounds → Option ℤ
unfolding too_close right_of
slide_right gap occupied candidate =
    slide (λ x. too_close gap (at_x candidate x))
      (λ x collisions. max_of x (map (right_of gap) collisions)) (suc (length occupied)) occupied
      candidate.x

unfoldable pub slide_down : ℕ → List Bounds → Bounds → Option ℤ
unfolding too_close bottom_of
slide_down gap occupied candidate =
    slide (λ y. too_close gap (at_y candidate y))
      (λ y collisions. max_of y (map (bottom_of gap) collisions)) (suc (length occupied)) occupied
      candidate.y

unfoldable pub settle : Collection → ℕ → List Bounds → Bounds → Option Bounds
unfolding slide_right slide_down
settle racks gap occupied candidate = elim (slide_right gap occupied candidate) [
  | none ↦ none
  | some x ↦ some (at_x candidate x)
]
settle devices gap occupied candidate = elim (slide_down gap occupied candidate) [
  | none ↦ none
  | some y ↦ some (at_y candidate y)
]

-- Where the search for a place begins.
unfoldable pub candidate_at : Room → Collection → Item → Bool → List Bounds → Bounds
unfolding padding_of gap_of round_ten bottom_of
candidate_at room collection item changed occupied =
    let left = room.position_x +ℤ pos (padding_of room) in
    let top = room.position_y +ℤ pos (room_header + padding_of room) in
    record item.bounds {
      x = if changed then left else max_ℤ left (round_ten item.bounds.x);
      y =
          if changed && not (is_rack collection)
          then max_of top (map (bottom_of (gap_of room)) occupied)
          else if changed
          then top
          else max_ℤ top (round_ten item.bounds.y);
    }

module _ (display_size : Device → Size) where
  -- The other equipment of the room.
  unfoldable pub occupied_in : Topology → Collection → String → String → List Bounds
  unfolding member_racks member_devices rack_item device_item
  occupied_in t collection id room_id =
      map (λ (rack : Rack). (rack_item display_size rack).bounds)
        (filter (λ (rack : Rack). not (is_rack collection && rack.id == id))
          (member_racks t room_id))
      ++ map (λ (device : Device). (device_item display_size device).bounds)
          (filter
            (λ (device : Device).
              not (not (is_rack collection) && device.id == id) && is_empty device.rack_id)
            (member_devices t room_id))

  -- The end of `assignRoom`, in a room; `t` has the item there already.
  unfoldable pub place_in : Topology → Collection → Item → Room → Bool → Option Topology
  unfolding occupied_in candidate_at settle move_equipment
  place_in t collection item room changed =
      let occupied = occupied_in t collection item.id room.id in
      elim (settle collection (gap_of room) occupied
        (candidate_at room collection item changed occupied)) [
          | none ↦ none
          | some candidate ↦ some (move_equipment t collection item candidate.x candidate.y)
        ]

  unfoldable pub assign_item : Topology → Collection → Item → String → Bool → Option Topology
  unfolding place_in set_room find_room
  assign_item t collection item room_id snap =
      let changed = item.room_id != room_id in
      let assigned = set_room t collection item.id room_id in
      let found = find_room t room_id in
      if not changed && not snap then some t else elim found [
        | none ↦ if is_empty room_id then some assigned else some t
        | some room ↦ place_in assigned collection item room changed
      ]

  unfoldable pub assign_room : Topology → Collection → String → String → Bool → Option Topology
  unfolding assign_item find_item
  assign_room t collection id room_id snap = elim (find_item display_size t collection id) [
    | none ↦ some t
    | some item ↦
        if not (is_rack collection) && not (is_empty item.rack_id)
        then some t
        else assign_item t collection item room_id snap
  ]
