-- ===== src/PatchPanels/Mapping.antt =====
-- Mapping a range of jacks to another panel: `planPatchPanelMapping` of
-- web/static/js/patch-panels.js. A number of the form is `none` where it is no whole number.
pub mod Sound
pub mod Taken
use wiredraft.Prelude.{
  ℕ, zero, suc, String, Bool, true, false, ◌&&◌, ◌||◌, not, List, [], ◌∷◌, ◌++◌, map, Option, none,
  some, ◌+◌, ◌-◌, ◌==◌, ◌!=◌, Eq, string_eq, nat_eq, ltb, if◌then◌else◌, is_empty, filter, contains,
  length, take, drop, Result, ok, err, ◌>>=◌, present,
}
use wiredraft.Topology.{Topology, Device, Port, Link}
use wiredraft.PatchPanels.{
  PanelError, no_panels, same_panel, not_positive, end_before_start, no_source_ports,
  no_target_ports, rear_mapped, type_mismatch, side_of, ordered_ports, panel_by_id,
  panel_cable_type, mapping_notes,
}
use wiredraft.PatchPanels.Channels.{
  ChannelInput, ChannelTag, ChannelPlan, Channel, rear_channel_plan,
}

pub record MappingInput : Type 0 where
  pub source_device_id : String
  pub target_device_id : String
  pub source_start : Option ℕ
  pub source_end : Option ℕ
  pub target_start : Option ℕ
  pub channel : ChannelInput

pub record MappingPlan : Type 0 where
  pub source : Device
  pub target : Device
  pub source_ports : List Port
  pub target_ports : List Port
  pub target_end : ℕ
  pub links : List Link
  pub channels : List Channel

unfoldable pub positive_integer : Option ℕ → String → Result PanelError ℕ
positive_integer none label = err (not_positive label)
positive_integer (some n) label = if ltb n 1 then err (not_positive label) else ok n

-- The keys of `occupiedRear`: the ports with a cable on their rear side.
unfoldable pub rear_port_ids : List Link → List String
unfolding side_of
rear_port_ids [] = []
rear_port_ids (link ∷ links) =
    let rest = rear_port_ids links in
    let targets = if side_of link.target_side == "rear" then link.target_port_id ∷ rest else rest in
    if side_of link.source_side == "rear" then link.source_port_id ∷ targets else targets

unfoldable pub blocked_ports : Topology → List Port → List Port
unfolding rear_port_ids
blocked_ports t ports = filter (λ (port : Port). contains (rear_port_ids t.links) port.id) ports

unfoldable pub same_types : List Port → List Port → Bool
same_types (p ∷ ps) (q ∷ qs) = let rest = same_types ps qs in p.type == q.type && rest
same_types _ _ = true

abbrev pub tag_id : Option ChannelTag → String
tag_id none = ""
tag_id (some tag) = tag.id

abbrev pub tag_name : Option ChannelTag → String
tag_name none = ""
tag_name (some tag) = tag.name

abbrev pub tag_type : Option ChannelTag → String
tag_type none = ""
tag_type (some tag) = tag.type

unfoldable pub mapped_link : Device → Device → Port → Port → Option ChannelTag → Link
mapped_link source target source_port target_port tag = record {
  id = "";
  source_device_id = source.id;
  source_port_id = source_port.id;
  source_side = "rear";
  target_device_id = target.id;
  target_port_id = target_port.id;
  target_side = "rear";
  cable_type = panel_cable_type source source_port;
  vlan_ids = [];
  primary_vlan = 0;
  rear_channel_id = tag_id tag;
  rear_channel_name = tag_name tag;
  rear_channel_type = tag_type tag;
  notes = mapping_notes source.name source_port.label target.name target_port.label;
}

abbrev pub head_tag : List (Option ChannelTag) → Option ChannelTag
head_tag [] = none
head_tag (tag ∷ tags) = tag

unfoldable pub mapped_links :
    Device → Device → List Port → List Port → List (Option ChannelTag) → List Link
unfolding mapped_link
mapped_links source target (p ∷ ps) (q ∷ qs) tags =
    mapped_link source target p q (head_tag tags) ∷ mapped_links source target ps qs (drop 1 tags)
mapped_links source target _ _ tags = []

-- `orderedPorts(device).slice(start - 1, start - 1 + count)`
unfoldable pub port_range : Device → ℕ → ℕ → List Port
port_range device start count = take count (drop (start - 1) (ordered_ports device))

abbrev pub is_nil {ℓ} : {A : Type ℓ} → List A → Bool
is_nil [] = true
is_nil (x ∷ xs) = false

-- `sourcePorts[0]`, which is there: the range has a port.
abbrev pub first_port : List Port → Result PanelError Port
first_port [] = err no_source_ports
first_port (port ∷ ports) = ok port

-- The plan once the ranges are found: what is mapped already, the connectors and the channels.
connect_ranges :
    Topology
    → MappingInput
    → Device
    → Device
    → ℕ
    → ℕ
    → ℕ
    → List Port
    → List Port
    → Result PanelError MappingPlan
unfolding blocked_ports same_types mapped_links
connect_ranges t input source target first last target_end source_ports target_ports =
    let blocked = blocked_ports t (source_ports ++ target_ports) in
    if not (is_nil blocked)
    then err (rear_mapped blocked)
    else if not (same_types source_ports target_ports)
    then err type_mismatch
    else first_port source_ports >>= λ port.
        rear_channel_plan input.channel source port first last >>= λ plan. ok (record {
          source = source;
          target = target;
          source_ports = source_ports;
          target_ports = target_ports;
          target_end = target_end;
          links = mapped_links source target source_ports target_ports plan.metadata_by_link;
          channels = plan.channels;
        })

-- The plan for two panels.
plan_ranges : Topology → MappingInput → Device → Device → Result PanelError MappingPlan
unfolding connect_ranges positive_integer port_range
plan_ranges t input source target =
    positive_integer input.source_start "Source start port" >>= λ first.
    positive_integer input.source_end "Source end port" >>= λ last.
    positive_integer input.target_start "Target start port" >>= λ target_first.
    let count = last - first + 1 in
    let source_ports = port_range source first count in
    let target_ports = port_range target target_first count in
    if ltb last first
    then err end_before_start
    else if length source_ports != count
    then err no_source_ports
    else if length target_ports != count
    then err no_target_ports
    else connect_ranges t input source target first last (target_first + count - 1) source_ports
        target_ports

unfoldable pub plan_patch_panel_mapping : Topology → MappingInput → Result PanelError MappingPlan
unfolding plan_ranges panel_by_id
plan_patch_panel_mapping t input =
    present (panel_by_id t input.source_device_id) no_panels >>= λ source.
    present (panel_by_id t input.target_device_id) no_panels >>= λ target.
    if source.id == target.id then err same_panel else plan_ranges t input source target
