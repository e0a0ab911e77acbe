-- ===== src/Tests/CableTests.antt =====
-- Cables and devices that are moved, run.
use wiredraft.Prelude.{
  [], ◌∷◌, Option, some, none, Result, ok, err, ◌≡◌, refl, map, unique, string_eq, to_lower,
}
use wiredraft.Prelude.Int.{◌+ℤ◌}
use wiredraft.Topology.{Topology, Device}
use wiredraft.PatchPanels.{side_of}
use wiredraft.Rooms.{Size}
use wiredraft.PlacementSync.{
  device_placement_changes, same_device_position, device_position, apply_change,
}
use wiredraft.Cables.{RepatchPlan, source_end, plan_cable_repatch}
use wiredraft.Cables.Swaps.{IsRepatch, plan_cable_repatch-IsRepatch}
use wiredraft.RackPlacement.{ReplacementPlan, PlacementError, plan_rack_replacement, change_id}
use wiredraft.RackPlacement.Mounted.{IsReplacement, plan_rack_replacement-IsReplacement}
use wiredraft.Tests.Samples.{sample, port, link, low, loose}

-- The end at `low` goes to the port of `loose`, where another cable is.
abbrev two_cables : Topology
two_cables = record sample { links = link "l1" "low" "high" ∷ link "l2" "x" "loose" ∷ [] }

abbrev no_repatch : RepatchPlan
no_repatch = record {
  link = link "" "" "";
  from = record { device = low; port = port "" "" };
  to = record { device = low; port = port "" "" };
  side = "";
  end = source_end;
  port_id = "";
  swap = none;
}

abbrev given_or {ℓ} : {A : Type ℓ} → A → Option A → A
given_or other none = other
given_or other (some value) = value

abbrev to_loose : RepatchPlan
unfolding plan_cable_repatch
to_loose = given_or no_repatch (plan_cable_repatch two_cables "l1" "source" "loose")

repatched : plan_cable_repatch two_cables "l1" "source" "loose" ≡ some to_loose
unfolding plan_cable_repatch side_of to_lower
repatched = refl

plan_cable_repatch-IsRepatch_example : IsRepatch two_cables "l1" "source" "loose" to_loose
plan_cable_repatch-IsRepatch_example =
    plan_cable_repatch-IsRepatch two_cables "l1" "source" "loose" to_loose repatched

abbrev sizes : Device → Size
sizes d = record { width = 600; height = 100 }

-- `loose` is dropped on the units of `high`.
abbrev dragged : Device
dragged = record loose { rack_id = "r1"; rack_unit = 4; rack_face = "front" }

abbrev empty_plan : ReplacementPlan
empty_plan = record { changes = []; displaced = []; mounted = [] }

abbrev plan_or : Result PlacementError ReplacementPlan → ReplacementPlan
plan_or (ok plan) = plan
plan_or (err thrown) = empty_plan

abbrev replacement : ReplacementPlan
unfolding plan_rack_replacement
replacement = plan_or (plan_rack_replacement sizes sample (dragged ∷ []))

replaced : plan_rack_replacement sizes sample (dragged ∷ []) ≡ ok replacement
unfolding plan_rack_replacement device_placement_changes same_device_position device_position
    apply_change
replaced = refl

plan_rack_replacement-IsReplacement_example :
    IsReplacement sizes sample
      (unique (map change_id (device_placement_changes sample (dragged ∷ []))))
      replacement
plan_rack_replacement-IsReplacement_example =
    plan_rack_replacement-IsReplacement sizes sample (dragged ∷ []) replacement
      ((refl, (refl, tt)), ((refl, tt), (tt, tt))) replaced

-- It displaces `high`.
displaces_high : map (λ (d : Device). d.id) replacement.displaced ≡ "high" ∷ []
unfolding plan_rack_replacement ◌+ℤ◌ device_placement_changes same_device_position device_position
    apply_change
displaces_high = refl
