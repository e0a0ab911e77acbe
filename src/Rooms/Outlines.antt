-- ===== src/Rooms/Outlines.antt =====
-- The outlines of the rooms: `layoutRooms` and `roomAtPoint` of web/static/js/rooms.js.
use mathlib.Core.List.{reverse}
use wiredraft.Prelude.{
  ℕ, String, Bool, false, ◌&&◌, not, List, [], ◌∷◌, ◌++◌, map, none, some, ◌+◌, ◌≡◌, refl, subst,
  ◌==◌, string_eq, if◌then◌else◌, is_empty, filter, find?, contains, length, All, All-of_map,
  All-map_each, arith,
}
use wiredraft.Prelude.Int.{ℤ, pos, ◌+ℤ◌, ◌-ℤ◌, leb_ℤ, min_ℤ, ◌≤ℤ◌, int_laws}
use wiredraft.Topology.{Topology, Device, Rack, Room}
use wiredraft.Rack.{Bounds, Point}
use wiredraft.Clearance.{max_of, max_of-All}
use wiredraft.Rooms.{room_header, padding_of, member_racks, member_devices}

pub record RackBox : Type 0 where
  pub rack : Rack
  pub bounds : Bounds

pub record DeviceBox : Type 0 where
  pub device : Device
  pub bounds : Bounds

pub record RoomBox : Type 0 where
  pub room : Room
  pub x : ℤ
  pub y : ℤ
  pub width : ℤ
  pub height : ℤ
  pub collapsed : Bool
  pub rack_count : ℕ
  pub device_count : ℕ

-- `Math.min(x, ...edges)`
unfoldable pub min_of : ℤ → List ℤ → ℤ
min_of x [] = x
min_of x (e ∷ es) = min_of (min_ℤ x e) es

-- The boxes that the outline fits.
unfoldable pub boxes_in : Room → List RackBox → List DeviceBox → List Bounds
boxes_in room rack_boxes device_boxes =
    map (λ (box : RackBox). box.bounds)
      (filter (λ (box : RackBox). box.rack.room_id == room.id) rack_boxes)
    ++ map (λ (box : DeviceBox). box.bounds)
        (filter (λ (box : DeviceBox). is_empty box.device.rack_id && box.device.room_id == room.id)
          device_boxes)

unfoldable pub outline_of : Topology → List Bounds → List String → Room → RoomBox
unfolding padding_of min_of member_racks member_devices
outline_of t boxes collapsed room =
    let padding = padding_of room in
    let x = min_of room.position_x (map (λ (box : Bounds). box.x -ℤ pos padding) boxes) in
    let y =
      min_of room.position_y (map (λ (box : Bounds). box.y -ℤ pos (room_header + padding)) boxes) in
    let right =
      max_of (room.position_x +ℤ pos room.width)
        (map (λ (box : Bounds). box.x +ℤ pos (box.width + padding)) boxes) in
    let bottom =
      max_of (room.position_y +ℤ pos room.height)
        (map (λ (box : Bounds). box.y +ℤ pos (box.height + padding)) boxes) in
    record {
      room = room;
      x = x;
      y = y;
      width = if contains collapsed room.id then pos 720 else right -ℤ x;
      height = if contains collapsed room.id then pos 180 else bottom -ℤ y;
      collapsed = contains collapsed room.id;
      rack_count = length (member_racks t room.id);
      device_count = length (member_devices t room.id);
    }

unfoldable pub layout_rooms : Topology → List RackBox → List DeviceBox → List String → List RoomBox
unfolding outline_of boxes_in
layout_rooms t rack_boxes device_boxes collapsed =
    map (λ (room : Room). outline_of t (boxes_in room rack_boxes device_boxes) collapsed room)
      t.rooms

-- The test of `roomAtPoint`.
unfoldable pub covers : Point → RoomBox → Bool
covers point box =
    not box.collapsed
    && leb_ℤ box.x point.x
    && leb_ℤ point.x (box.x +ℤ box.width)
    && leb_ℤ box.y point.y
    && leb_ℤ point.y (box.y +ℤ box.height)

unfoldable pub room_at_point : List RoomBox → Point → String
unfolding covers
room_at_point boxes point = elim (find? (covers point) (reverse boxes)) [
  | none ↦ ""
  | some box ↦ box.room.id
]

min_of-le : (x : ℤ) (es : List ℤ) → min_of x es ≤ℤ x
unfolding min_of
min_of-le x [] = omega arith
min_of-le x (e ∷ es) = ground (arith, min_of-le (min_ℤ x e) es)

min_of-All : (x : ℤ) (es : List ℤ) → All (λ e. min_of x es ≤ℤ e) es
unfolding min_of
min_of-All x [] = tt
min_of-All x (e ∷ es) = (ground (arith, min_of-le (min_ℤ x e) es), min_of-All (min_ℤ x e) es)

-- The outline has the box inside, with the padding of the room on each side and its header above.
pub record Encloses (room : Room) (outline : RoomBox) (box : Bounds) : Type 0 where
  pub left : outline.x +ℤ pos (padding_of room) ≤ℤ box.x
  pub right : box.x +ℤ pos (box.width + padding_of room) ≤ℤ outline.x +ℤ outline.width
  pub top : outline.y +ℤ pos (room_header + padding_of room) ≤ℤ box.y
  pub bottom : box.y +ℤ pos (box.height + padding_of room) ≤ℤ outline.y +ℤ outline.height

All-zip_four :
    {A : Type 0} {P Q R S T : A → Type 0} (f : (x : A) → P x → Q x → R x → S x → T x) (xs : List A)
    → All P xs
    → All Q xs
    → All R xs
    → All S xs
    → All T xs
All-zip_four f [] p q r s = tt
All-zip_four f (x ∷ xs) p q r s = (f x p.0 q.0 r.0 s.0, All-zip_four f xs p.1 q.1 r.1 s.1)

padded_start : (x b : ℤ) (p : ℕ) → x ≤ℤ b -ℤ pos p → x +ℤ pos p ≤ℤ b
padded_start x b p h = omega int_laws

padded_end : (x right e : ℤ) → e ≤ℤ right → e ≤ℤ x +ℤ (right -ℤ x)
padded_end x right e h = omega int_laws

All-outline_of :
    (t : Topology) (boxes : List Bounds) (collapsed : List String) (room : Room)
    → contains collapsed room.id ≡ false
    → All (Encloses room (outline_of t boxes collapsed room)) boxes
unfolding outline_of
All-outline_of t boxes collapsed room h =
    let padding = padding_of room in
    let outline = outline_of t boxes collapsed room in
    let right =
      max_of (room.position_x +ℤ pos room.width)
        (map (λ (box : Bounds). box.x +ℤ pos (box.width + padding)) boxes) in
    let bottom =
      max_of (room.position_y +ℤ pos room.height)
        (map (λ (box : Bounds). box.y +ℤ pos (box.height + padding)) boxes) in
    let wide : right -ℤ outline.x ≡ outline.width = rw (h, outline_of) refl in
    let high : bottom -ℤ outline.y ≡ outline.height = rw (h, outline_of) refl in
    All-zip_four
      (λ box l t r b. record {
        left = padded_start outline.x box.x padding l;
        right =
            subst (λ w. box.x +ℤ pos (box.width + padding) ≤ℤ outline.x +ℤ w) wide
              (padded_end outline.x right _ r);
        top = padded_start outline.y box.y (room_header + padding) t;
        bottom =
            subst (λ w. box.y +ℤ pos (box.height + padding) ≤ℤ outline.y +ℤ w) high
              (padded_end outline.y bottom _ b);
      })
      boxes
      (All-of_map _ _ boxes
        (min_of-All room.position_x (map (λ (box : Bounds). box.x -ℤ pos padding) boxes)))
      (All-of_map _ _ boxes (
        min_of-All room.position_y
          (map (λ (box : Bounds). box.y -ℤ pos (room_header + padding)) boxes)))
      (All-of_map _ _ boxes (max_of-All (room.position_x +ℤ pos room.width) _))
      (All-of_map _ _ boxes (max_of-All (room.position_y +ℤ pos room.height) _))

-- A room of the layout that is not collapsed has every box of its racks and free devices inside its
-- outline, with the padding of the room on each side and the header of the room above.
pub layout_rooms-Encloses :
    (t : Topology) (rack_boxes : List RackBox) (device_boxes : List DeviceBox)
    (collapsed : List String)
    → All
        (λ outline.
          outline.collapsed ≡ false
          → All (Encloses outline.room outline) (boxes_in outline.room rack_boxes device_boxes))
        (layout_rooms t rack_boxes device_boxes collapsed)
unfolding layout_rooms outline_of
layout_rooms-Encloses t rack_boxes device_boxes collapsed =
    All-map_each _
      (λ (room : Room). outline_of t (boxes_in room rack_boxes device_boxes) collapsed room) t.rooms
      (λ room h. All-outline_of t (boxes_in room rack_boxes device_boxes) collapsed room h)
