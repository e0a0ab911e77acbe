-- ===== src/PatchPanels.antt =====
-- Patch panels: web/static/js/patch-panels.js. A jack of a panel has a front and a rear side, each
-- with at most one cable.
pub mod Channels
pub mod Mapping
pub mod Update
pub mod Paths
use Prim.Native.String.{◌++◌ as str_append}
use wiredraft.Prelude.{
  ℕ, String, Bool, true, false, ◌&&◌, ◌||◌, not, List, [], ◌∷◌, map, Option, none, some, ◌==◌, Eq,
  string_eq, nat_eq, leb, if◌then◌else◌, is_empty, filter, find?, any, length, sort, to_lower,
  to_upper, starts_with, includes, drop, take,
}
use wiredraft.Topology.{Topology, Device, Link, Port}

-- `endpointSide(link, "source")` and `endpointSide(link, "target")`, of the stored side.
unfoldable pub side_of : String → String
side_of side = to_lower (if is_empty side then "front" else side)

unfoldable pub is_rear_panel_link : Link → Bool
unfolding side_of
is_rear_panel_link link = side_of link.source_side == "rear" || side_of link.target_side == "rear"

-- The callback of `isPortSideOccupied`: an end of the link is on the side of the port.
unfoldable pub link_occupies : String → String → Link → Bool
unfolding side_of
link_occupies port_id side link =
    (link.source_port_id == port_id && side_of link.source_side == side)
    || (link.target_port_id == port_id && side_of link.target_side == side)

unfoldable pub is_port_side_occupied : Topology → String → String → Bool
unfolding link_occupies
is_port_side_occupied t port_id side = any (link_occupies port_id side) t.links

unfoldable pub patch_panel_devices : Topology → List Device
patch_panel_devices t = filter (λ (device : Device). device.category == "PatchPanel") t.devices

pub record Availability : Type 0 where
  pub ready : Bool
  pub panel_count : ℕ
  pub message : String

unfoldable pub panel_map_availability : Topology → Availability
unfolding patch_panel_devices
panel_map_availability t =
    let count = length (patch_panel_devices t) in
    if count == 0
    then record {
      ready = false;
      panel_count = count;
      message = "No patch panels are installed. Add two with + PANEL before opening Panel Map.";
    }
    else if count == 1
    then record {
      ready = false;
      panel_count = count;
      message =
          "Only one patch panel is installed. Add one more with + PANEL before opening Panel Map.";
    }
    else record { ready = true; panel_count = count; message = "Open Panel Map" }

unfoldable pub ordered_ports : Device → List Port
ordered_ports device = sort (λ (l r : Port). leb l.port_index r.port_index) device.ports

pub record PanelPort : Type 0 where
  pub port : Port
  pub occupied : Bool
  pub front_occupied : Bool
  pub rear_occupied : Bool

-- The panel with the id, if it is one.
unfoldable pub panel_by_id : Topology → String → Option Device
unfolding patch_panel_devices
panel_by_id t id = find? (λ (candidate : Device). candidate.id == id) (patch_panel_devices t)

unfoldable pub available_patch_panel_ports : Topology → String → List PanelPort
unfolding panel_by_id ordered_ports is_port_side_occupied
available_patch_panel_ports t device_id = elim (panel_by_id t device_id) [
  | none ↦ []
  | some device ↦
      map
        (λ (port : Port). record {
          port = port;
          occupied = is_port_side_occupied t port.id "rear";
          front_occupied = is_port_side_occupied t port.id "front";
          rear_occupied = is_port_side_occupied t port.id "rear";
        })
        (ordered_ports device)
]

unfoldable pub panel_cable_type : Device → Port → String
panel_cable_type panel port =
    if port.type == "Power"
    then "POWER"
    else if starts_with "FIBER_" port.type
    then "FIBER"
    else if includes "CAT5E" (to_upper panel.model)
    then "CAT5E"
    else if includes "CAT6A" (to_upper panel.model)
    then "CAT6A"
    else "CAT6"

-- What the source throws, the names of the message left out.
pub data PanelError : Type 0 where
  no_panels : PanelError
  same_panel : PanelError
  not_positive : String → PanelError
  end_before_start : PanelError
  no_source_ports : PanelError
  no_target_ports : PanelError
  rear_mapped : List Port → PanelError
  type_mismatch : PanelError
  bad_channel_type : PanelError
  no_channel_id : PanelError
  bad_channel_id : PanelError
  no_channel_name : PanelError
  long_channel_name : PanelError
  bad_group_size : PanelError
  no_rear_mapping : PanelError
  not_of_mapping : PanelError
  no_peer : PanelError
  no_panel_port : PanelError
  no_peer_port : PanelError

-- `Panel rear map <panel> <label> ↔ <panel> <label>`
unfoldable pub mapping_notes : String → String → String → String → String
mapping_notes source source_label target target_label = str_append "Panel rear map " (
    str_append source (
      str_append " " (
        str_append source_label
          (str_append " ↔ " (str_append target (str_append " " target_label))))))
