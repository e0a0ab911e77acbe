-- ===== src/Cables.antt =====
-- Cables that are moved or new: web/static/js/link-repatch.js, `findPort` of web/static/js/state.js
-- and web/static/js/cable-defaults.js.
pub mod Swaps
use Prim.Native.String.{◌++◌ as str_append}
use wiredraft.Prelude.{
  ℕ, String, Bool, true, false, ◌&&◌, ◌||◌, not, List, [], ◌∷◌, Option, none, some, ◌==◌, ◌!=◌,
  string_eq, nat_eq, if◌then◌else◌, filter, find?, any, contains, unique, or_number, includes,
  if_given,
}
use wiredraft.Topology.{Topology, Device, Port, Link}
use wiredraft.PatchPanels.{side_of}

pub data End : Type 0 where
  source_end : End
  target_end : End

-- `["source", "target"].includes(endpoint)`
unfoldable pub end_named : String → Option End
end_named endpoint =
    if endpoint == "source"
    then some source_end
    else if endpoint == "target"
    then some target_end
    else none

abbrev pub port_at : Link → End → String
port_at link source_end = link.source_port_id
port_at link target_end = link.target_port_id

-- `endpointSide(link, end)`
unfoldable pub side_at : Link → End → String
unfolding side_of
side_at link source_end = side_of link.source_side
side_at link target_end = side_of link.target_side

pub record DevicePort : Type 0 where
  pub device : Device
  pub port : Port

abbrev pub find_port : List Device → String → Option DevicePort
find_port [] port_id = none
find_port (device ∷ devices) port_id =
    let rest = find_port devices port_id in
    elim (find? (λ (candidate : Port). candidate.id == port_id) device.ports) [
      | none ↦ rest
      | some port ↦ some (record { device = device; port = port })
    ]

pub record Swap : Type 0 where
  pub link : Link
  pub end : End

-- The body of the inner loop.
unfoldable pub swap_at : String → String → Link → End → Option Swap → Option Swap
unfolding side_at
swap_at port_id side candidate end found =
    if port_at candidate end == port_id && side_at candidate end == side
    then some (record { link = candidate; end = end })
    else found

-- The two loops: the last end on the side of the port is kept.
unfoldable pub swap_in : String → String → List Link → Option Swap → Option Swap
unfolding swap_at
swap_in port_id side [] found = found
swap_in port_id side (candidate ∷ candidates) found =
    swap_in port_id side candidates
      (swap_at port_id side candidate target_end (swap_at port_id side candidate source_end found))

pub record RepatchPlan : Type 0 where
  pub link : Link
  pub from : DevicePort
  pub to : DevicePort
  pub side : String
  pub end : End
  pub port_id : String
  pub swap : Option Swap

-- The plan for an end of a cable of the map.
unfoldable pub plan_end : Topology → Link → End → String → Option RepatchPlan
unfolding swap_in side_at
plan_end t link end port_id = if_given (find_port t.devices (port_at link end)) λ from.
    if_given (find_port t.devices port_id) λ to.
      if side_at link end == "rear" && to.device.category != "PatchPanel"
      then none
      else some (record {
        link = link;
        from = from;
        to = to;
        side = side_at link end;
        end = end;
        port_id = port_id;
        swap = swap_in port_id (side_at link end) t.links none;
      })

unfoldable pub plan_cable_repatch : Topology → String → String → String → Option RepatchPlan
unfolding plan_end end_named
plan_cable_repatch t link_id endpoint port_id = if_given (end_named endpoint) λ end.
    if_given (find? (λ (candidate : Link). candidate.id == link_id) t.links) λ link.
      if link.source_port_id == port_id || link.target_port_id == port_id
      then none
      else plan_end t link end port_id

unfoldable pub repatch_endpoint_label : DevicePort → String → String
repatch_endpoint_label place side =
    str_append place.device.name
      (str_append " / " (str_append place.port.label (if side == "rear" then " (rear)" else "")))

pub record CableProperties : Type 0 where
  pub cable_type : String
  pub vlan_ids : List ℕ
  pub primary_vlan : ℕ

unfoldable pub carried_vlans : Port → List ℕ
carried_vlans port =
    if port.mode == "Unconfigured"
    then []
    else unique (filter (λ id. id != 0) (port.native_vlan ∷ port.allowed_vlans))

unfoldable pub shared_vlans : Port → Port → List ℕ
unfolding carried_vlans
shared_vlans source target = filter (contains (carried_vlans target)) (carried_vlans source)

abbrev pub first_number : List ℕ → ℕ
first_number [] = 0
first_number (n ∷ ns) = n

-- `/SFP|FIBER_/.test(type)`
unfoldable pub is_fiber : String → Bool
is_fiber type = includes "SFP" type || includes "FIBER_" type

unfoldable pub ethernet_properties : Port → Port → List ℕ → CableProperties
unfolding is_fiber
ethernet_properties source target shared =
    let primary =
      or_number (first_number shared)
        (or_number source.native_vlan (or_number target.native_vlan 1)) in
    record {
      cable_type =
          if source.type == "COAX_F" || target.type == "COAX_F"
          then "COAX"
          else if is_fiber source.type || is_fiber target.type
          then "FIBER"
          else "CAT6A";
      vlan_ids = elim shared [ [] ↦ primary ∷ [] | id ∷ ids ↦ id ∷ ids ];
      primary_vlan = primary;
    }

abbrev pub without_vlans : String → CableProperties
without_vlans cable_type = record { cable_type = cable_type; vlan_ids = []; primary_vlan = 0 }

unfoldable pub default_cable_properties : Port → Port → CableProperties
unfolding ethernet_properties shared_vlans
default_cable_properties source target =
    let types = source.type ∷ target.type ∷ [] in
    if contains types "Power"
    then without_vlans "POWER"
    else if any (λ type. type == "SAS_MINI_HD_12G" || type == "SAS_MINI_6G") types
    then without_vlans "SAS"
    else if contains types "FC_SFP_16G"
    then without_vlans "FIBER"
    else if source.type == "POTS_RJ11" || target.type == "POTS_RJ11"
    then without_vlans "TELEPHONE"
    else ethernet_properties source target (shared_vlans source target)
