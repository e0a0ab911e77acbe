-- ===== src/PatchPanels/Update.antt =====
-- Moving one rear mapping: `planRearPanelLinkUpdate` of web/static/js/patch-panels.js.
pub mod Free
pub mod Applied
use Prim.Native.String.{count}
use wiredraft.Prelude.{
  ℕ, String, Bool, true, false, ◌&&◌, ◌||◌, not, List, [], ◌∷◌, ◌++◌, map, Option, none, some, ◌+◌,
  ◌-◌, ◌==◌, ◌!=◌, Eq, string_eq, nat_eq, ltb, if◌then◌else◌, is_empty, filter, find?, contains,
  length, trim, to_lower, Result, ok, err, ◌>>=◌, present,
}
use wiredraft.Topology.{Topology, Device, Port, Link}
use wiredraft.PatchPanels.{
  PanelError, no_rear_mapping, not_of_mapping, no_peer, same_panel, no_panel_port, no_peer_port,
  rear_mapped, type_mismatch, bad_channel_type, no_channel_name, long_channel_name, bad_channel_id,
  side_of, ordered_ports, panel_by_id, panel_cable_type, mapping_notes,
}
use wiredraft.PatchPanels.Channels.{is_version_4_uuid, text_or}
use wiredraft.PatchPanels.Mapping.{rear_port_ids, is_nil}

pub record UpdateInput : Type 0 where
  pub peer_device_id : String
  pub panel_port_id : String
  pub peer_port_id : String
  pub channel_type : String
  pub channel_name : String
  pub channel_id : String

-- The rear mapping with the id.
unfoldable pub rear_link : Topology → String → Result PanelError Link
unfolding side_of
rear_link t id =
    present (find? (λ (candidate : Link). candidate.id == id) t.links) no_rear_mapping >>= λ link.
    if side_of link.source_side != "rear" || side_of link.target_side != "rear"
    then err no_rear_mapping
    else ok link

unfoldable pub port_of : Device → String → PanelError → Result PanelError Port
unfolding ordered_ports
port_of device id thrown =
    present (find? (λ (port : Port). port.id == id) (ordered_ports device)) thrown

abbrev pub other_links : Topology → Link → List Link
other_links t link = filter (λ (candidate : Link). candidate.id != link.id) t.links

-- The rear ports that the other links take.
unfoldable pub taken_by_others : Topology → Link → List String
unfolding rear_port_ids
taken_by_others t link = rear_port_ids (other_links t link)

-- `next`, between the panel's port and the peer's, with the panel at the end where it was.
unfoldable pub moved_link : Link → Bool → Device → Port → Device → Port → Link
moved_link link panel_is_source panel panel_port peer peer_port =
    let source = if panel_is_source then panel else peer in
    let source_port = if panel_is_source then panel_port else peer_port in
    let target = if panel_is_source then peer else panel in
    let target_port = if panel_is_source then peer_port else panel_port in
    record link {
      source_device_id = source.id;
      source_port_id = source_port.id;
      source_side = "rear";
      target_device_id = target.id;
      target_port_id = target_port.id;
      target_side = "rear";
      cable_type = panel_cable_type panel panel_port;
    }

-- `device?.name || "Unknown"` and `port?.label || "—"`.
abbrev pub name_or_unknown : Option Device → String
name_or_unknown none = "Unknown"
name_or_unknown (some device) = text_or device.name "Unknown"

abbrev pub label_or_dash : Option Device → String → String
label_or_dash none port_id = "—"
label_or_dash (some device) port_id =
    elim (find? (λ (port : Port). port.id == port_id) device.ports) [
      | none ↦ "—"
      | some port ↦ text_or port.label "—"
    ]

unfoldable pub with_notes : Topology → Link → Link
unfolding panel_by_id mapping_notes
with_notes t next =
    let source = panel_by_id t next.source_device_id in
    let target = panel_by_id t next.target_device_id in
    record next {
      notes =
          mapping_notes (name_or_unknown source) (label_or_dash source next.source_port_id)
            (name_or_unknown target) (label_or_dash target next.target_port_id);
    }

unfoldable pub clear_rear_channel : Link → Link
clear_rear_channel link = record link {
  rear_channel_id = "";
  rear_channel_name = "";
  rear_channel_type = "";
}

-- The sorted pairs of devices differ: as unordered pairs.
unfoldable pub pair_changed : Link → Link → Bool
pair_changed link next = not (
    (link.source_device_id == next.source_device_id
      && link.target_device_id == next.target_device_id)
    || (link.source_device_id == next.target_device_id
        && link.target_device_id == next.source_device_id))

-- The id that the channel keeps, if any, or the one that the form gives.
unfoldable pub channel_id_for : Topology → Link → Bool → String → String → String → String
channel_id_for t link changed type name given =
    let members =
      filter (λ (candidate : Link). candidate.rear_channel_id == link.rear_channel_id) t.links in
    let kept = not changed && not (is_empty link.rear_channel_id) in
    let unchanged = kept && link.rear_channel_type == type && trim link.rear_channel_name == name in
    let reusable = kept && length members == 1 in
    if unchanged || reusable then link.rear_channel_id else to_lower (trim given)

-- The channel of the moved link.
unfoldable pub set_channel : Topology → UpdateInput → Link → Link → Result PanelError Link
unfolding pair_changed clear_rear_channel channel_id_for is_version_4_uuid
set_channel t input link next =
    let changed = pair_changed link next in
    let requested = to_lower (trim input.channel_type) in
    let name = trim input.channel_name in
    let id = channel_id_for t link changed requested name input.channel_id in
    if is_empty requested
    then ok (if changed then clear_rear_channel next else next)
    else if requested == "independent"
    then ok (clear_rear_channel next)
    else if not (requested == "tube" || requested == "discrete")
    then err bad_channel_type
    else if is_empty name
    then err no_channel_name
    else if ltb 120 (count name)
    then err long_channel_name
    else if not (is_version_4_uuid id)
    then err bad_channel_id
    else ok (record next {
      rear_channel_id = id;
      rear_channel_name = name;
      rear_channel_type = requested;
    })

-- The plan once both ports are found.
move_ends :
    Topology → UpdateInput → Link → Bool → Device → Port → Device → Port → Result PanelError Link
unfolding taken_by_others moved_link with_notes set_channel
move_ends t input link panel_is_source panel panel_port peer peer_port =
    let blocked =
      filter (λ (port : Port). contains (taken_by_others t link) port.id)
        (panel_port ∷ peer_port ∷ []) in
    if panel_port.type != peer_port.type
    then err type_mismatch
    else if not (is_nil blocked)
    then err (rear_mapped blocked)
    else set_channel t input link
        (with_notes t (moved_link link panel_is_source panel panel_port peer peer_port))

unfoldable pub plan_rear_panel_link_update :
    Topology → String → String → UpdateInput → Result PanelError Link
unfolding rear_link panel_by_id port_of move_ends
plan_rear_panel_link_update t link_id panel_id input = rear_link t link_id >>= λ link.
    present (panel_by_id t panel_id) not_of_mapping >>= λ panel.
    if link.source_device_id != panel_id && link.target_device_id != panel_id
    then err not_of_mapping
    else present (panel_by_id t input.peer_device_id) no_peer >>= λ peer.
        if peer.id == panel.id
        then err same_panel
        else port_of panel input.panel_port_id no_panel_port >>= λ panel_port.
            port_of peer input.peer_port_id no_peer_port >>= λ peer_port.
            move_ends t input link (link.source_device_id == panel_id) panel panel_port peer
              peer_port
