-- ===== src/AppState.antt =====
-- The application state with its undo history: class `AppState` of web/static/js/state.js. The
-- clones that the source makes are the values themselves. `history` and `future` are stacks, so
-- their heads are the last elements of the source's arrays; sets are lists of their members in
-- insertion order, the two maps of faces are association lists, and `events` lists the kinds of
-- the dispatched changes. The analysis results are not modelled.
pub mod Changes
pub mod Displays
pub mod History
pub mod Undo
pub mod Views
use wiredraft.Prelude.{
  ℕ, String, Bool, true, false, ◌&&◌, ◌||◌, not, List, [], ◌∷◌, ◌++◌, map, Option, none, some, ◌==◌,
  Eq, string_eq, nat_eq, if◌then◌else◌, is_empty, filter, any, contains, add, add_all, unique,
  length, take, all,
}
use wiredraft.Topology.{Topology, Device, Rack, Room, Link, Port, Annotation}
use wiredraft.Document.{same_document}
use wiredraft.EditorLock.{Lock, set_mode, allows_change, record_change}
use wiredraft.Rack.{racks_with_both_faces}

pub record Selection : Type 0 where
  pub type : String
  pub id : String

pub record AppState : Type 0 where
  pub edit_lock : Option Lock
  pub topology : Option Topology
  pub selection : Option Selection
  pub trace_link_ids : List String
  pub rack_faces : List (String × String)
  pub device_faceplate_faces : List (String × String)
  pub dual_face_rack_ids : List String
  pub automatic_dual_face_rack_ids : List String
  pub collapsed_room_ids : List String
  pub history : List Topology
  pub future : List Topology
  pub events : List String

abbrev pub new_state : Option Lock → AppState
new_state lock = record {
  edit_lock = lock;
  topology = none;
  selection = none;
  trace_link_ids = [];
  rack_faces = [];
  device_faceplate_faces = [];
  dual_face_rack_ids = [];
  automatic_dual_face_rack_ids = [];
  collapsed_room_ids = [];
  history = [];
  future = [];
  events = [];
}

-- A map as an association list: `get`, `set`, and `delete` on a set.
unfoldable pub get : List (String × String) → String → Option String
get [] key = none
get ((k, v) ∷ m) key = let rest = get m key in if k == key then some v else rest

unfoldable pub put : List (String × String) → String → String → List (String × String)
put [] key value = (key, value) ∷ []
put ((k, v) ∷ m) key value =
    let rest = put m key value in if k == key then (k, value) ∷ m else (k, v) ∷ rest

abbrev pub delete : List String → String → List String
delete s a = filter (λ x. not (x == a)) s

abbrev pub racks_of : Option Topology → List Rack
racks_of none = []
racks_of (some t) = t.racks

abbrev pub automatic_racks : Option Topology → List String
automatic_racks none = []
automatic_racks (some t) = racks_with_both_faces t

open_new : List String → List String → List String → List String
open_new known dual [] = dual
open_new known dual (rack_id ∷ ids) =
    open_new known (if contains known rack_id then dual else add dual rack_id) ids

unfoldable pub emit : String → AppState → AppState
unfolding open_new
emit kind s =
    let automatic = automatic_racks s.topology in
    let seen =
      if kind == "topology"
      then record s {
        dual_face_rack_ids = open_new s.automatic_dual_face_rack_ids s.dual_face_rack_ids automatic;
        automatic_dual_face_rack_ids = automatic;
      }
      else s in
    record seen { events = seen.events ++ kind ∷ [] }

-- Whether `ensureSelection` finds the selected entity.
unfoldable pub selection_exists : Topology → Selection → Bool
selection_exists t selection =
    if selection.type == "rack"
    then any (λ (item : Rack). item.id == selection.id) t.racks
    else if selection.type == "room"
    then any (λ (item : Room). item.id == selection.id) t.rooms
    else if selection.type == "device"
    then any (λ (item : Device). item.id == selection.id) t.devices
    else if selection.type == "link"
    then any (λ (item : Link). item.id == selection.id) t.links
    else if selection.type == "port"
    then any (λ (device : Device). any (λ (item : Port). item.id == selection.id) device.ports)
        t.devices
    else if selection.type == "annotation"
    then any (λ (item : Annotation). item.id == selection.id) t.annotations
    else false

kept_selection : Option Topology → Option Selection → Option Selection
unfolding selection_exists
kept_selection t none = none
kept_selection none (some selection) = some selection
kept_selection (some t) (some selection) =
    if selection_exists t selection then some selection else none

unfoldable pub ensure_selection : AppState → AppState
unfolding kept_selection
ensure_selection s = record s { selection = kept_selection s.topology s.selection }

-- `this.topology?.id`, where `undefined` differs from every id.
abbrev pub same_map : Option Topology → Option Topology → Bool
same_map none none = true
same_map (some a) (some b) = a.id == b.id
same_map _ _ = false

lock_for_map : ℕ → Bool → Option Lock → Option Lock
lock_for_map now same none = none
lock_for_map now same (some lock) =
    if same then some lock else some (set_mode now "read-only" "map" lock)

-- `history.push(clone(topology)); history = history.slice(-50)`
abbrev pub remember_in : List Topology → Topology → List Topology
remember_in history t = take 50 (t ∷ history)

remembered : Bool → AppState → AppState
remembered false s = s
remembered true s = elim s.topology [
  | none ↦ s
  | some t ↦ record s { history = remember_in s.history t; future = [] }
]

live : List (String × String) → List String → List (String × String)
live [] ids = []
live ((k, v) ∷ m) ids = let rest = live m ids in if contains ids k then (k, v) ∷ rest else rest

abbrev pub rack_ids : Option Topology → List String
rack_ids none = []
rack_ids (some t) = map (λ (rack : Rack). rack.id) t.racks

abbrev pub link_ids : Option Topology → List String
link_ids none = []
link_ids (some t) = map (λ (link : Link). link.id) t.links

abbrev pub device_ids : Option Topology → List String
device_ids none = []
device_ids (some t) = map (λ (device : Device). device.id) t.devices

-- The start of `setTopology`: another map forgets its views and locks the editor.
leave_map : ℕ → Option Topology → AppState → AppState
unfolding lock_for_map
leave_map now topology s =
    let same = same_map s.topology topology in
    let fresh = if same then s else record s {
      collapsed_room_ids = [];
      dual_face_rack_ids = [];
      automatic_dual_face_rack_ids = [];
    } in
    record fresh { edit_lock = lock_for_map now same s.edit_lock }

unfoldable pub set_topology : ℕ → Option Topology → Bool → AppState → AppState
unfolding leave_map remembered live
set_topology now topology remember s =
    let r = remembered remember (leave_map now topology s) in
    emit "topology" (
      ensure_selection (record r {
        topology = topology;
        device_faceplate_faces = live r.device_faceplate_faces (device_ids topology);
        rack_faces = live r.rack_faces (rack_ids topology);
        dual_face_rack_ids = filter (contains (rack_ids topology)) r.dual_face_rack_ids;
        trace_link_ids = filter (contains (link_ids topology)) r.trace_link_ids;
      }))
