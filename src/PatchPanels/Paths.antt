-- ===== src/PatchPanels/Paths.antt =====
-- The cables that one signal runs through: `patchPanelPathIndex` of web/static/js/patch-panels.js.
-- A `Set` is the list of its values in insertion order, and so is a `Map`, with its keys. `pending`
-- has the top of the source's stack at its head. A round takes one entry off the stack, and the
-- fuel of one search is one more than the number of edges, which is enough.
pub mod Rounds
pub mod Walks
pub mod Sound
pub mod Entries
pub mod Index
pub mod Edges
pub mod Closed
use Prim.Native.String.{◌++◌ as str_append}
use wiredraft.Prelude.{
  ℕ, zero, suc, String, Bool, true, false, ◌&&◌, ◌||◌, not, List, [], ◌∷◌, ◌++◌, map, Option, none,
  some, ◌==◌, ◌!=◌, Eq, string_eq, nat_eq, ltb, if◌then◌else◌, is_empty, filter, contains, add,
  add_all, unique, length,
}
use wiredraft.Topology.{Topology, Device, Port, Link}
use wiredraft.PatchPanels.{side_of, patch_panel_devices}
use wiredraft.LinkConfiguration.{ports_of}

unfoldable pub panel_port_ids : Topology → List String
unfolding patch_panel_devices
panel_port_ids t = unique (map (λ (port : Port). port.id) (ports_of (patch_panel_devices t)))

-- `${portID}:${side}`
abbrev pub termination : String → String → String
termination port_id side = str_append port_id (str_append ":" side)

-- The link has an end at a port of a panel with this key.
unfoldable pub terminates_at : List String → String → Link → Bool
unfolding side_of
terminates_at panel_ports key link =
    (contains panel_ports link.source_port_id
      && termination link.source_port_id (side_of link.source_side) == key)
    || (contains panel_ports link.target_port_id
        && termination link.target_port_id (side_of link.target_side) == key)

-- `linksByTermination.get(key) || []`
unfoldable pub links_at : List String → List Link → String → List String
unfolding terminates_at
links_at panel_ports links key =
    unique (map (λ (link : Link). link.id) (filter (terminates_at panel_ports key) links))

-- The edges that the two inner loops add for a port, in order, each with its reverse.
abbrev pub edges_from : String → List String → List (String × String)
edges_from front [] = []
edges_from front (rear ∷ rears) =
    let rest = edges_from front rears in
    if front == rear then rest else (front, rear) ∷ (rear, front) ∷ rest

abbrev pub edges_between : List String → List String → List (String × String)
edges_between [] rears = []
edges_between (front ∷ fronts) rears = edges_from front rears ++ edges_between fronts rears

unfoldable pub panel_edges : List String → List Link → List String → List (String × String)
unfolding links_at
panel_edges panel_ports links [] = []
panel_edges panel_ports links (port_id ∷ port_ids) =
    edges_between (links_at panel_ports links (termination port_id "front"))
      (links_at panel_ports links (termination port_id "rear"))
    ++ panel_edges panel_ports links port_ids

abbrev pub targets_of : List (String × String) → String → List String
targets_of [] id = []
targets_of ((from, to) ∷ edges) id =
    let rest = targets_of edges id in if from == id then to ∷ rest else rest

-- `adjacency.get(id)`
abbrev pub neighbours : List (String × String) → String → List String
neighbours edges id = unique (targets_of edges id)

-- `for (const id of ids) pending.push(id)`
unfoldable pub push_all : List String → List String → List String
push_all [] pending = pending
push_all (id ∷ ids) pending = push_all ids (id ∷ pending)

pub record Walk : Type 0 where
  pub visited : List String
  pub component : List String
  pub pending : List String

-- One round, with the entry that was popped.
unfoldable pub visit : List (String × String) → String → List String → Walk → Walk
unfolding push_all
visit edges id rest s = if contains s.visited id then record s { pending = rest } else record {
  visited = add s.visited id;
  component = add s.component id;
  pending = push_all (neighbours edges id) rest;
}

unfoldable pub search : List (String × String) → ℕ → Walk → Option Walk
unfolding visit
search edges zero s = elim s.pending [ [] ↦ some s | id ∷ rest ↦ none ]
search edges (suc fuel) s = elim s.pending [
  | [] ↦ some s
  | id ∷ rest ↦ search edges fuel (visit edges id rest s)
]

-- `pathByLinkID`: the key and its component.
abbrev pub PathIndex : Type 0
PathIndex = List (String × List String)

abbrev pub path_of : PathIndex → String → Option (List String)
path_of [] id = none
path_of ((key, component) ∷ index) id =
    let rest = path_of index id in if key == id then some component else rest

-- `pathByLinkID.set(id, component)`
unfoldable pub set_path : String → List String → PathIndex → PathIndex
set_path id component [] = (id, component) ∷ []
set_path id component ((key, old) ∷ index) =
    let rest = set_path id component index in
    if key == id then (key, component) ∷ index else (key, old) ∷ rest

unfoldable pub set_all : List String → List String → PathIndex → PathIndex
unfolding set_path
set_all [] component index = index
set_all (id ∷ ids) component index = set_all ids component (set_path id component index)

-- The outer loop: a search from every link that no search has visited.
unfoldable pub index_paths :
    List (String × String) → List String → List String → PathIndex → Option PathIndex
unfolding search set_all
index_paths edges [] visited index = some index
index_paths edges (id ∷ ids) visited index =
    let start : Walk = record { visited = visited; component = []; pending = id ∷ [] } in
    let skipped = index_paths edges ids visited index in
    elim (search edges (suc (length edges)) start) [
      | none ↦ none
      | some walk ↦
          let indexed =
            if ltb (length walk.component) 2
            then index
            else set_all walk.component walk.component index in
          let rest = index_paths edges ids walk.visited indexed in
          if contains visited id then skipped else rest
    ]

-- `none` would be a search that its fuel does not end. With no links or no panels the source
-- returns an empty map at once; without edges every component has one link, so the loop gives it.
unfoldable pub patch_panel_path_index : Topology → Option PathIndex
unfolding index_paths panel_edges panel_port_ids
patch_panel_path_index t =
    index_paths (panel_edges (panel_port_ids t) t.links (panel_port_ids t))
      (map (λ (link : Link). link.id) t.links) [] []
