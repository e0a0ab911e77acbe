-- ===== src/Rooms/Connections.antt =====
-- Cables that touch a collapsed room: `roomConnections` of web/static/js/rooms.js.
-- `before` says that a text is not after another in the order by which the two ends of a
-- bundle are sorted; the key of a bundle is its ends.
pub mod Bundles
use Prim.Native.String.{◌++◌ as str_append}
use wiredraft.Prelude.{
  add, String, Bool, ◌&&◌, not, List, [], ◌∷◌, ◌++◌, Option, none, some, ◌==◌, string_eq,
  if◌then◌else◌, is_empty, contains,
}
use wiredraft.Topology.{Topology, Device, Port, Rack, Link}
use wiredraft.Rooms.{room_for_device}

-- An entry of the map of ports.
pub record Home : Type 0 where
  pub device_id : String
  pub room_id : String

-- `ports.get(id)`, where the last device to set a port has it.
abbrev pub home_in : List Port → Home → String → Option Home → Option Home
home_in [] home id found = found
home_in (port ∷ ports) home id found =
    home_in ports home id (if port.id == id then some home else found)

unfoldable pub home_of : List Rack → List Device → String → Option Home → Option Home
unfolding room_for_device
home_of racks [] id found = found
home_of racks (device ∷ devices) id found = home_of racks devices id (
    home_in device.ports (record { device_id = device.id; room_id = room_for_device racks device })
      id found)

pub record Bundle : Type 0 where
  pub source : String
  pub target : String
  pub link_ids : List String

pub record Connections : Type 0 where
  pub hidden_link_ids : List String
  pub bundles : List Bundle

unfoldable pub endpoint : List String → Home → String
endpoint collapsed home =
    if contains collapsed home.room_id
    then str_append "room:" home.room_id
    else str_append "device:" home.device_id

-- The cable goes under the bundle of its ends, which is added if it is not there.
unfoldable pub add_to_bundle : String → String → String → List Bundle → List Bundle
add_to_bundle source target link_id [] =
    record { source = source; target = target; link_ids = link_id ∷ [] } ∷ []
add_to_bundle source target link_id (bundle ∷ bundles) =
    let rest = add_to_bundle source target link_id bundles in
    if bundle.source == source && bundle.target == target
    then record bundle { link_ids = bundle.link_ids ++ link_id ∷ [] } ∷ bundles
    else bundle ∷ rest

-- The body of the loop, for a cable with both ends on the map.
unfoldable pub connect_homes :
    (String → String → Bool) → List String → String → Home → Home → Connections → Connections
connect_homes before collapsed link_id source target c =
    let hidden = add c.hidden_link_ids link_id in
    let a = endpoint collapsed source in
    let b = endpoint collapsed target in
    if not (contains collapsed source.room_id) && not (contains collapsed target.room_id)
    then c
    else if not (is_empty source.room_id) && source.room_id == target.room_id
    then record c { hidden_link_ids = hidden }
    else record {
      hidden_link_ids = hidden;
      bundles =
          if before a b
          then add_to_bundle a b link_id c.bundles
          else add_to_bundle b a link_id c.bundles;
    }

-- A cable with an end that is on no port is passed over.
unfoldable pub connect_ends :
    (String → String → Bool)
    → List String
    → String
    → Option Home
    → Option Home
    → Connections
    → Connections
connect_ends before collapsed link_id none target c = c
connect_ends before collapsed link_id (some source) none c = c
connect_ends before collapsed link_id (some source) (some target) c =
    connect_homes before collapsed link_id source target c

abbrev pub source_home : Topology → Link → Option Home
source_home t link = home_of t.racks t.devices link.source_port_id none

abbrev pub target_home : Topology → Link → Option Home
target_home t link = home_of t.racks t.devices link.target_port_id none

unfoldable pub connect_link :
    (String → String → Bool) → Topology → List String → Link → Connections → Connections
connect_link before t collapsed link c =
    connect_ends before collapsed link.id (source_home t link) (target_home t link) c

unfoldable pub connect_links :
    (String → String → Bool) → Topology → List String → List Link → Connections → Connections
connect_links before t collapsed [] c = c
connect_links before t collapsed (link ∷ links) c =
    connect_links before t collapsed links (connect_link before t collapsed link c)

unfoldable pub room_connections : (String → String → Bool) → Topology → List String → Connections
room_connections before t collapsed =
    connect_links before t collapsed t.links (record { hidden_link_ids = []; bundles = [] })
