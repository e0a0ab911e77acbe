-- ===== src/AppState/Displays.antt =====
-- What the editor selects and shows: the setters of class `AppState` of web/static/js/state.js,
-- after the changes of the document.
use wiredraft.Prelude.{
  String, Bool, ◌&&◌, ◌||◌, List, [], Option, none, some, ◌==◌, string_eq, nat_eq, if◌then◌else◌,
  is_empty, contains, add, unique, length, all,
}
use wiredraft.AppState.{AppState, delete, emit, get, put, rack_ids}

unfoldable pub select : String → String → AppState → AppState
select type id s = emit "selection" (record s {
  selection = if is_empty type || is_empty id then none else some (record { type = type; id = id });
})

unfoldable pub set_trace : List String → AppState → AppState
set_trace ids s = emit "trace" (record s { trace_link_ids = unique ids })

-- A stored face is a text; only "rear" is the rear face.
abbrev pub face_or_front : Option String → String
face_or_front none = "front"
face_or_front (some face) = if face == "rear" then "rear" else "front"

unfoldable pub rack_face : String → AppState → String
rack_face rack_id s = face_or_front (get s.rack_faces rack_id)

unfoldable pub set_rack_face : String → String → AppState → AppState
set_rack_face rack_id face s =
    if is_empty rack_id
    then s
    else emit "rack-view" (record s {
      rack_faces = put s.rack_faces rack_id (if face == "rear" then "rear" else "front");
    })

unfoldable pub set_room_collapsed : String → Bool → AppState → AppState
set_room_collapsed room_id collapsed s = emit "room-view" (record s {
  collapsed_room_ids =
      if collapsed then add s.collapsed_room_ids room_id else delete s.collapsed_room_ids room_id;
})

-- `this.deviceFaceplateFaces.get(deviceID) ?? defaultFace`
unfoldable pub device_faceplate_face : String → String → AppState → String
device_faceplate_face device_id default_face s = elim (get s.device_faceplate_faces device_id) [
  | none ↦ face_or_front (some default_face)
  | some face ↦ face_or_front (some face)
]

unfoldable pub set_device_faceplate_face : String → String → AppState → AppState
set_device_faceplate_face device_id face s =
    let next = if face == "rear" then "rear" else "front" in
    let changed =
      emit "device-view"
        (record s { device_faceplate_faces = put s.device_faceplate_faces device_id next }) in
    if is_empty device_id then s else elim (get s.device_faceplate_faces device_id) [
      | none ↦ changed
      | some current ↦ if current == next then s else changed
    ]

abbrev pub is_rack_dual_face : String → AppState → Bool
is_rack_dual_face rack_id s = contains s.dual_face_rack_ids rack_id

-- The end of both setters: an equal set changes nothing and tells nobody.
unfoldable pub set_dual : List String → AppState → AppState
set_dual next s =
    if length next == length s.dual_face_rack_ids && all (contains s.dual_face_rack_ids) next
    then s
    else emit "rack-view" (record s { dual_face_rack_ids = next })

unfoldable pub set_rack_dual_face : String → Bool → AppState → AppState
unfolding set_dual
set_rack_dual_face rack_id expanded s =
    if is_empty rack_id
    then s
    else set_dual
        (if expanded then add s.dual_face_rack_ids rack_id else delete s.dual_face_rack_ids rack_id)
        s

unfoldable pub set_all_racks_dual_face : Bool → AppState → AppState
unfolding set_dual
set_all_racks_dual_face expanded s =
    set_dual (if expanded then unique (rack_ids s.topology) else []) s
