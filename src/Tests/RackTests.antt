-- ===== src/Tests/RackTests.antt =====
-- Rack allocation, landings and layouts on the sample map.
use wiredraft.Prelude.{
  inr, inl, String, true, false, List, [], ◌∷◌, some, ok, differ, ◌≡◌, refl, arith, string_eq, sort,
}
use wiredraft.Prelude.Int.{ℤ, pos, scale, ◌+ℤ◌}
use wiredraft.Topology.{Topology}
use wiredraft.PlacementSync.{DevicePosition, device_position, move_device, apply_placements}
use wiredraft.Rack.{
  Point, is_rack_placement_available, mounted_device_position, normalize_rack_face,
}
use wiredraft.Rack.Landings.{Target, Landing, find_landing, landing_on}
use wiredraft.Rack.Placement.{
  Fits, mounted_at, Apart, is_rack_placement_available_iff, apply_placements-Apart,
}
use wiredraft.Rack.Snapping.{
  drawn, at_unit, IsSound, find_landing-mounted_device_position, find_landing-IsSound,
}
use wiredraft.Rack.Layout.{
  RackLayout, layout_rack_groups, AllSeparate, ShowAll, rack_before, layout_rack_groups-AllSeparate,
}
use wiredraft.Tests.Samples.{sample, loose, rack}

available_above : is_rack_placement_available sample loose "r1" 3 "front" ≡ true
unfolding is_rack_placement_available normalize_rack_face
available_above = refl

taken_below : is_rack_placement_available sample loose "r1" 2 "front" ≡ false
unfolding is_rack_placement_available normalize_rack_face
taken_below = refl

other_rail : is_rack_placement_available sample loose "r1" 2 "rear" ≡ true
unfolding is_rack_placement_available normalize_rack_face
other_rail = refl

is_rack_placement_available_iff_example : Fits sample (mounted_at loose "r1" 3 "front")
is_rack_placement_available_iff_example =
    (is_rack_placement_available_iff sample loose "r1" 3 "front").0 available_above

abbrev dropped : DevicePosition
dropped = record {
  position_x = pos 30;
  position_y = pos 704;
  rack_id = "r1";
  rack_unit = 3;
  rack_face = "front";
  room_id = "";
}

apply_placements-Apart_example :
    (t : Topology) × (apply_placements true sample
        (move_device "loose" (device_position loose) dropped ∷ [])
      ≡ ok t)
    × Apart t.devices
unfolding normalize_rack_face
apply_placements-Apart_example =
    apply_placements-Apart true sample loose (device_position loose) dropped
      (
        (differ "high" "low" refl, (differ "loose" "low" refl, tt)),
        ((differ "loose" "high" refl, tt), (tt, tt)),
      )
      (omega arith) refl available_above (inr (inl refl))

abbrev target : Target
target = record {
  rack = rack "r1" (pos 0);
  rack_face = "front";
  x = pos 0;
  y = pos 40;
  width = 750;
}

find_landing-mounted_device_position_example :
    (l : Landing) × (find_landing sample loose
        (mounted_device_position (drawn target) (at_unit loose 7))
        (target ∷ [])
        0
      ≡ some l)
    × (l.rack_unit ≡ 7)
    × (l.position ≡ mounted_device_position (drawn target) (at_unit loose 7))
find_landing-mounted_device_position_example =
    find_landing-mounted_device_position sample loose target [] 7 (omega arith) (omega arith)
      (omega arith)

-- A drop a little above unit 7.
abbrev drop : Point
drop = record { x = pos 44; y = pos 290 }

find_landing-IsSound_example : IsSound sample loose (landing_on sample loose drop target)
unfolding find_landing landing_on scale ◌+ℤ◌
find_landing-IsSound_example = find_landing-IsSound sample loose drop (target ∷ []) 0 refl

abbrev text_order : String → String → ℤ
text_order a b = pos 0

layout_rack_groups-AllSeparate_example :
    (ls : List RackLayout) × (layout_rack_groups text_order
        (rack "b" (pos 100) ∷ rack "a" (pos 0) ∷ [])
        ("a" ∷ [])
        90
      ≡ some ls)
    × ShowAll (sort (rack_before text_order) (rack "b" (pos 100) ∷ rack "a" (pos 0) ∷ [])) ls
    × AllSeparate 90 ls
layout_rack_groups-AllSeparate_example =
    layout_rack_groups-AllSeparate text_order (rack "b" (pos 100) ∷ rack "a" (pos 0) ∷ [])
      ("a" ∷ []) 90
