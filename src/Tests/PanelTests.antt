-- ===== src/Tests/PanelTests.antt =====
-- Rear mappings of two panels, run.
use wiredraft.Prelude.{
  String, [], ◌∷◌, some, Result, ok, err, ◌≡◌, refl, ◌==◌, string_eq, find?, sort, to_lower, trim,
  starts_with, includes, to_upper, decimal, arith,
}
use wiredraft.Topology.{Topology, Device, Link}
use wiredraft.PatchPanels.{side_of, ordered_ports, panel_cable_type}
use wiredraft.PatchPanels.Channels.{ChannelInput, ChannelPlan, strands, rear_channel_plan}
use wiredraft.PatchPanels.Channels.Cover.{IsCovered, rear_channel_plan-IsCovered}
use wiredraft.PatchPanels.Mapping.{MappingInput, MappingPlan, plan_patch_panel_mapping}
use wiredraft.PatchPanels.Mapping.Sound.{IsSound, plan_patch_panel_mapping-IsSound}
use wiredraft.PatchPanels.Update.{UpdateInput, plan_rear_panel_link_update}
use wiredraft.PatchPanels.Update.Free.{IsMoved, plan_rear_panel_link_update-IsMoved}
use wiredraft.PatchPanels.Paths.{PathIndex, patch_panel_path_index}
use wiredraft.PatchPanels.Paths.Walks.{meets}
use wiredraft.PatchPanels.Paths.Closed.{edges_of, across, IsPathIndex, patch_panel_path_index_lem}
use wiredraft.Tests.Samples.{sample, device, port, link}

abbrev value_or : {Thrown A : Type 0} → A → Result Thrown A → A
value_or other (ok value) = value
value_or other (err thrown) = other

-- A panel with two jacks.
abbrev panel : String → String → String → Device
panel id first second = record (device id 1 "" 0 "") {
  category = "PatchPanel";
  ports =
      port first "RJ45_10G" ∷ record (port second "RJ45_10G") { port_index = 2; label = "2" } ∷ [];
}

abbrev panels : Topology
panels = record sample { devices = panel "p" "p1" "p2" ∷ panel "q" "q1" "q2" ∷ []; links = [] }

abbrev channel : ChannelInput
channel = record {
  channel_type = "auto";
  channel_id = "123e4567-e89b-42d3-a456-426614174000";
  channel_name = "";
  grouping = strands 1;
}

abbrev both_ports : MappingInput
both_ports = record {
  source_device_id = "p";
  target_device_id = "q";
  source_start = some 1;
  source_end = some 2;
  target_start = some 1;
  channel = channel;
}

abbrev no_plan : MappingPlan
no_plan = record {
  source = panel "p" "p1" "p2";
  target = panel "q" "q1" "q2";
  source_ports = [];
  target_ports = [];
  target_end = 0;
  links = [];
  channels = [];
}

abbrev both_plan : MappingPlan
unfolding plan_patch_panel_mapping ordered_ports sort rear_channel_plan to_lower trim
    panel_cable_type starts_with includes to_upper decimal
both_plan = value_or no_plan (plan_patch_panel_mapping panels both_ports)

both_planned : plan_patch_panel_mapping panels both_ports ≡ ok both_plan
unfolding plan_patch_panel_mapping ordered_ports sort rear_channel_plan to_lower trim
    panel_cable_type starts_with includes to_upper decimal
both_planned = refl

plan_patch_panel_mapping-IsSound_example : IsSound panels both_ports both_plan
plan_patch_panel_mapping-IsSound_example =
    plan_patch_panel_mapping-IsSound panels both_ports both_plan both_planned

abbrev two_channels : ChannelPlan
unfolding rear_channel_plan to_lower trim panel_cable_type starts_with includes to_upper decimal
two_channels =
    value_or (record { channels = []; metadata_by_link = [] })
      (rear_channel_plan channel (panel "p" "p1" "p2") (port "p1" "RJ45_10G") 1 2)

two_channels_planned :
    rear_channel_plan channel (panel "p" "p1" "p2") (port "p1" "RJ45_10G") 1 2 ≡ ok two_channels
unfolding rear_channel_plan to_lower trim panel_cable_type starts_with includes to_upper decimal
two_channels_planned = refl

rear_channel_plan-IsCovered_example : IsCovered two_channels 1 1
unfolding to_lower trim
rear_channel_plan-IsCovered_example =
    rear_channel_plan-IsCovered channel (panel "p" "p1" "p2") (port "p1" "RJ45_10G") 1 2
      two_channels refl two_channels_planned 1 (omega arith)

-- A mapping between the first jacks, and a patch cable at one of them.
abbrev mapped : Topology
mapped = record panels {
  links =
      record (link "m" "p" "q") {
        source_port_id = "p1";
        source_side = "rear";
        target_port_id = "q1";
        target_side = "rear";
      }
      ∷ record (link "c" "p" "x") { source_port_id = "p1" }
      ∷ [];
}

abbrev to_second : UpdateInput
to_second = record {
  peer_device_id = "q";
  panel_port_id = "p2";
  peer_port_id = "q2";
  channel_type = "tube";
  channel_name = "T1";
  channel_id = "123e4567-e89b-42d3-a456-426614174000";
}

abbrev second_link : Link
unfolding plan_rear_panel_link_update ordered_ports sort side_of to_lower trim panel_cable_type
    starts_with includes to_upper decimal
second_link = value_or (link "m" "" "") (plan_rear_panel_link_update mapped "m" "p" to_second)

second_planned : plan_rear_panel_link_update mapped "m" "p" to_second ≡ ok second_link
unfolding plan_rear_panel_link_update ordered_ports sort side_of to_lower trim panel_cable_type
    starts_with includes to_upper decimal
second_planned = refl

plan_rear_panel_link_update-IsMoved_example :
    (before : Link) × (find? (λ (candidate : Link). candidate.id == "m") mapped.links ≡ some before)
    × (second_link.id ≡ "m")
    × IsMoved mapped before second_link
plan_rear_panel_link_update-IsMoved_example =
    plan_rear_panel_link_update-IsMoved mapped "m" "p" to_second second_link second_planned

patch_panel_path_index_lem_example :
    (index : PathIndex) × (patch_panel_path_index mapped ≡ some index)
    × IsPathIndex mapped index
    × ((x y : String) → meets (edges_of mapped) x y ≡ across mapped x y)
patch_panel_path_index_lem_example = patch_panel_path_index_lem mapped

-- The mapping and the patch cable are one path.
one_path : patch_panel_path_index mapped ≡ some (("m", "m" ∷ "c" ∷ []) ∷ ("c", "m" ∷ "c" ∷ []) ∷ [])
unfolding patch_panel_path_index side_of to_lower
one_path = refl
