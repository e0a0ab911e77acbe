-- ===== src/Tests/PlacementTests.antt =====
-- Drags on the sample map, replayed.
use wiredraft.Prelude.{
  ◌↔◌, ℕ, String, some, none, ◌⊎◌, true, false, List, [], ◌∷◌, ok, err, ◌≡◌, refl, ◌==◌, All,
  string_eq,
}
use wiredraft.Prelude.Int.{pos}
use wiredraft.Topology.{Topology, Device}
use wiredraft.PlacementSync.{
  removed, device_position, move_device, Change, apply_placements, device_placement_changes,
}
use wiredraft.PlacementSync.Inventory.{Keeps, apply_placements-Keeps}
use wiredraft.PlacementSync.Refused.{IsRefused, apply_placements_throws_iff}
use wiredraft.PlacementSync.Replay.{apply_placements-device_placement_changes}
use wiredraft.PlacementSync.Replay.Single.{Lands, find_device}
use wiredraft.PlacementSync.Queue.{
  active, done, WriteQueue, new_queue, Turn, begins, settles, finishes, take_turn, Event, calls,
  turns, happen_all,
}
use wiredraft.PlacementSync.Serial.{IsSerial, unfinished, happen_all-IsQueue}
use wiredraft.Tests.Samples.{sample, loose}

-- The loose device, dragged.
abbrev dragged : Device
dragged = record loose { position_x = pos 500 }

abbrev drag : List Change
drag = move_device "loose" (device_position loose) (device_position dragged) ∷ []

apply_placements-Keeps_example : Keeps sample (apply_placements true sample drag)
apply_placements-Keeps_example = apply_placements-Keeps true sample drag

apply_placements-device_placement_changes_example :
    (result : Topology) × (apply_placements true sample
        (device_placement_changes sample (dragged ∷ []))
      ≡ ok result)
    × All (Lands sample result) (dragged ∷ [])
    × ((j : String)
        → All (λ (item : Device). (item.id == j) ≡ false) (dragged ∷ [])
        → find_device j result.devices ≡ find_device j sample.devices)
apply_placements-device_placement_changes_example =
    apply_placements-device_placement_changes sample sample (dragged ∷ []) (tt, tt)
      ((λ original found. (original, found, refl)), tt)

-- The second change is of a device that is gone.
abbrev competing : List Change
competing =
    move_device "loose" (device_position loose) (device_position dragged)
    ∷ move_device "gone" (device_position loose) (device_position dragged)
    ∷ []

apply_placements_throws_iff_example :
    ((apply_placements true sample competing ≡ err removed) ↔ IsRefused sample competing removed)
    × ((next : Topology) × (apply_placements false sample competing ≡ ok next))
apply_placements_throws_iff_example = apply_placements_throws_iff sample competing removed

-- The first of two saves fails, and the second begins.
abbrev two_saves : List Event
two_saves =
    calls
    ∷ turns begins 0
    ∷ calls
    ∷ turns (settles false) 0
    ∷ turns finishes 0
    ∷ turns begins 1
    ∷ []

abbrev second_save : WriteQueue
second_save = record { promises = done false ∷ active ∷ []; pending = 1 }

two_saves_lem : happen_all two_saves new_queue ≡ some second_save
unfolding happen_all
two_saves_lem = refl

-- The second cannot begin before the first is done.
second_waits : happen_all (calls ∷ calls ∷ turns begins 0 ∷ turns begins 1 ∷ []) new_queue ≡ none
unfolding happen_all
second_waits = refl

happen_all-IsQueue_example :
    IsSerial second_save.promises
    × (second_save.pending ≡ unfinished second_save.promises)
    × ((second_save.pending ≡ 0)
        ⊎ ((turn : Turn) × (place : ℕ) × (next : WriteQueue) × (take_turn turn place second_save
              ≡ some next)))
happen_all-IsQueue_example = happen_all-IsQueue two_saves two_saves_lem
