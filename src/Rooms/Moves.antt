-- ===== src/Rooms/Moves.antt =====
-- A room and its members move together.
use wiredraft.Prelude.{
  String, Bool, List, [], ◌∷◌, none, some, ◌≡◌, refl, subst, sym, ap, ◌∙◌, ◌==◌, string_eq, find?,
  is_empty, if◌then◌else◌, Bool-cases, Option-cases, inl, inr,
}
use wiredraft.Prelude.Int.{ℤ, pos, ◌+ℤ◌, ◌-ℤ◌, int_laws}
use wiredraft.Topology.{Topology, Device, Rack, Room}
use wiredraft.Rooms.{
  find_room, room_for_device, map_where, shift_room, shift_rack, shift_device, shift_members,
  move_room,
}

pub opposite : ℤ → ℤ
opposite d = pos 0 -ℤ d

back_again : (x d : ℤ) → (x +ℤ d) +ℤ opposite d ≡ x
unfolding opposite
back_again x d = omega int_laws

map_where-undo :
    {A : Type 0} (test again : A → Bool) (f g : A → A) (xs : List A)
    → ((x : A) → again (f x) ≡ test x)
    → ((x : A) → test x ≡ again x)
    → ((x : A) → g (f x) ≡ x)
    → map_where again g (map_where test f xs) ≡ xs
map_where-undo test again f g [] same before undo = refl
map_where-undo test again f g (x ∷ xs) same before undo = elim (Bool-cases (test x)) [
  | inl e ↦
      rw e rw (same x) rw e rw (undo x)
        (ap (λ rest. x ∷ rest) (map_where-undo test again f g xs same before undo))
  | inr e ↦
      rw e rw (sym (before x)) rw e
        (ap (λ rest. x ∷ rest) (map_where-undo test again f g xs same before undo))
]

abbrev found_room : String → List Rack → String
found_room id racks = elim (find? (λ (rack : Rack). rack.id == id) racks) [
  | none ↦ ""
  | some rack ↦ rack.room_id
]

found_room-map_where :
    (test : Rack → Bool) (dx dy : ℤ) (id : String) (racks : List Rack)
    → found_room id (map_where test (shift_rack dx dy) racks) ≡ found_room id racks
found_room-map_where test dx dy id [] = refl
found_room-map_where test dx dy id (rack ∷ racks) = elim (Bool-cases (rack.id == id)) [
  | inl f ↦ elim (Bool-cases (test rack)) [
    | inl g ↦ rw g rw (f, found_room) refl
    | inr g ↦ rw g rw (f, found_room) refl
  ]
  | inr f ↦ elim (Bool-cases (test rack)) [
    | inl g ↦ rw g rw (f, found_room) (found_room-map_where test dx dy id racks)
    | inr g ↦ rw g rw (f, found_room) (found_room-map_where test dx dy id racks)
  ]
]

room_for_device-map_where :
    (test : Rack → Bool) (dx dy : ℤ) (racks : List Rack) (device : Device)
    → room_for_device (map_where test (shift_rack dx dy) racks) device
      ≡ room_for_device racks device
unfolding room_for_device
room_for_device-map_where test dx dy racks device =
    ap (λ room_id. if is_empty device.rack_id then device.room_id else room_id)
      (found_room-map_where test dx dy device.rack_id racks)

room_for_device-shift_device :
    (racks : List Rack) (dx dy : ℤ) (device : Device)
    → room_for_device racks (shift_device dx dy device) ≡ room_for_device racks device
unfolding room_for_device
room_for_device-shift_device racks dx dy device = refl

find?-map_where :
    (room_id : String) (dx dy : ℤ) (rooms : List Room) {wanted : Room}
    → find? (λ (r : Room). r.id == room_id) rooms ≡ some wanted
    → (found : Room) × (find?
          (λ (r : Room). r.id == room_id)
          (map_where (λ (r : Room). r.id == room_id) (shift_room dx dy) rooms)
        ≡ some found)
find?-map_where room_id dx dy [] h = cc
find?-map_where room_id dx dy (room ∷ rooms) {wanted} h = elim (Bool-cases (room.id == room_id)) [
  | inl e ↦ (shift_room dx dy room, rw e rw e refl)
  | inr e ↦
      let (found, k) = find?-map_where room_id dx dy rooms (
        subst
          (λ b.
            (if b then some room else find? (λ (r : Room). r.id == room_id) rooms) ≡ some wanted)
          e h) in
      (found, rw e rw e k)
]

still_there :
    (t : Topology) (room_id : String) (dx dy : ℤ) {room : Room}
    → find_room t room_id ≡ some room
    → (found : Room) × (find_room (shift_members t room_id dx dy) room_id ≡ some found)
unfolding find_room
still_there t room_id dx dy e = find?-map_where room_id dx dy t.rooms e

move_room-none :
    (t : Topology) (room_id : String) (dx dy : ℤ)
    → find_room t room_id ≡ none
    → move_room t room_id dx dy ≡ t
unfolding move_room
move_room-none t room_id dx dy e = rw (e, move_room) refl

move_room-some :
    (t : Topology) (room_id : String) (dx dy : ℤ) {room : Room}
    → find_room t room_id ≡ some room
    → move_room t room_id dx dy ≡ shift_members t room_id dx dy
unfolding move_room
move_room-some t room_id dx dy e = rw (e, move_room) refl

shift_members-shift_members :
    (t : Topology) (room_id : String) (dx dy : ℤ)
    → shift_members (shift_members t room_id dx dy) room_id (opposite dx) (opposite dy) ≡ t
shift_members-shift_members t room_id dx dy =
    let rooms =
      map_where-undo (λ (r : Room). r.id == room_id) (λ (r : Room). r.id == room_id)
        (shift_room dx dy) (shift_room (opposite dx) (opposite dy)) t.rooms (λ _. refl) (λ _. refl)
        (λ r. λ i. record r {
          position_x = back_again r.position_x dx i;
          position_y = back_again r.position_y dy i;
        }) in
    let racks =
      map_where-undo (λ (r : Rack). r.room_id == room_id) (λ (r : Rack). r.room_id == room_id)
        (shift_rack dx dy) (shift_rack (opposite dx) (opposite dy)) t.racks (λ _. refl) (λ _. refl)
        (λ r. λ i. record r {
          position_x = back_again r.position_x dx i;
          position_y = back_again r.position_y dy i;
        }) in
    let moved = map_where (λ (r : Rack). r.room_id == room_id) (shift_rack dx dy) t.racks in
    let same = room_for_device-map_where (λ (r : Rack). r.room_id == room_id) dx dy t.racks in
    let devices =
      map_where-undo (λ (d : Device). room_for_device t.racks d == room_id)
        (λ (d : Device). room_for_device moved d == room_id) (shift_device dx dy)
        (shift_device (opposite dx) (opposite dy)) t.devices
        (λ d.
          ap (λ id. id == room_id)
            (same (shift_device dx dy d) ∙ room_for_device-shift_device t.racks dx dy d))
        (λ d. ap (λ id. id == room_id) (sym (same d)))
        (λ r. λ i. record r {
          position_x = back_again r.position_x dx i;
          position_y = back_again r.position_y dy i;
        }) in
    λ i. record t { rooms = rooms i; racks = racks i; devices = devices i }

-- A room that is moved and moved back by the same distance gives the document as it was.
pub move_room-move_room :
    (t : Topology) (room_id : String) (dx dy : ℤ)
    → move_room (move_room t room_id dx dy) room_id (opposite dx) (opposite dy) ≡ t
move_room-move_room t room_id dx dy = elim (Option-cases (find_room t room_id)) [
  | inl e ↦
      ap (λ s. move_room s room_id (opposite dx) (opposite dy)) (move_room-none t room_id dx dy e)
      ∙ move_room-none t room_id _ _ e
  | inr (room, e) ↦
      ap (λ s. move_room s room_id (opposite dx) (opposite dy)) (move_room-some t room_id dx dy e)
      ∙ move_room-some (shift_members t room_id dx dy) room_id _ _ (still_there t room_id dx dy e).1
      ∙ shift_members-shift_members t room_id dx dy
]
