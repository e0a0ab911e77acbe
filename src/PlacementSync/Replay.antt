-- ===== src/PlacementSync/Replay.antt =====
-- A drag that is captured on one document and replayed on a fresh one.
pub mod Single
use wiredraft.Prelude.{
  String, Bool, true, false, List, [], ◌∷◌, ◌++◌, Option, none, some, ◌≡◌, refl, ◌∙◌, ◌≢◌, ◌==◌,
  arith, Bool-cases, Option-cases, inl, inr, Result, ok, err, ◌>>=◌, find?, string_eq, nat_eq,
  is_empty, str_iff, All, All-zip_with,
}
use wiredraft.Prelude.Int.{int_eq, int_beq_iff}
use wiredraft.Topology.{Topology, Device}
use wiredraft.PlacementSync.{
  DevicePosition, Change, move_device, moved, removed, item_name, Conflict, assign_device,
  update_device, apply_device_move, apply_change, apply_placements, device_position,
  same_device_position, device_change, device_placement_changes,
}
use wiredraft.PlacementSync.Replay.Single.{
  find_device, same_device_position_refl, same_device_position-eq, device_position-assign_device,
  find-update_device_self, find-update_device_ne, apply_placements-append, Agrees, Lands, Replayed,
  move_device_lem, replay_one,
}

-- The ids of the items differ.
abbrev pub Distinct : List Device → Type 0
Distinct [] = Unit
Distinct (item ∷ items) =
    All (λ (other : Device). (other.id == item.id) ≡ false) items × Distinct items

ne_symm : (a b : String) → (a == b) ≡ false → (b == a) ≡ false
ne_symm a b h = ground (arith, str_iff a b, str_iff b a)

Agrees-other :
    (t fresh result : Topology) (item other : Device)
    → Replayed t fresh item result
    → (item.id == other.id) ≡ false
    → Agrees t fresh other
    → Agrees t result other
Agrees-other t fresh result item other r ne a original found =
    let (d, there, same) = a original found in (d, r.others other.id ne ∙ there, same)

-- All items, one after another: the call goes through, each item lands, others stay.
record ReplayedAll (t fresh : Topology) (items : List Device) (result : Topology) : Type 0 where
  lands : All (Lands t result) items
  others :
      (j : String)
      → All (λ (item : Device). (item.id == j) ≡ false) items
      → find_device j result.devices ≡ find_device j fresh.devices

replay-All :
    (t fresh : Topology) (items : List Device)
    → Distinct items
    → All (Agrees t fresh) items
    → (result : Topology) × (apply_placements true fresh (device_placement_changes t items)
        ≡ ok result)
      × ReplayedAll t fresh items result
unfolding device_placement_changes
replay-All t fresh [] u a =
    (fresh, unfold apply_placements in refl, record { lands = tt; others = λ j h. refl })
replay-All t fresh (item ∷ items) u a =
    let (next, e, r) = replay_one t fresh item a.0 in
    let (result, f, rest) = replay-All t next items u.1 (
      All-zip_with {P = λ (other : Device). (other.id == item.id) ≡ false} {Q = Agrees t fresh}
        {R = Agrees t next}
        (λ other ne. Agrees-other t fresh next item other r (ne_symm other.id item.id ne)) items u.0
        a.1) in
    (
      result,
      apply_placements-append true fresh (device_change t.devices item)
            (device_placement_changes t items)
          ∙ rw e f,
      record {
        lands = (
          (λ original found.
              let (d, there, p) = r.lands original found in
              (d, rest.others item.id u.0 ∙ there, p)),
          rest.lands,
        );
        others = λ j h. rest.others j h.1 ∙ r.others j h.0;
      },
    )

-- Rebasing a drag: with distinct items, if every dragged item stands in the fresh document where it
-- stood in the captured one, the replay with the check for conflicts goes through, every item of
-- the captured document ends where it was dropped, and devices that were not dragged stay
-- unchanged.
pub apply_placements-device_placement_changes :
    (t fresh : Topology) (items : List Device)
    → Distinct items
    → All (Agrees t fresh) items
    → (result : Topology) × (apply_placements true fresh (device_placement_changes t items)
        ≡ ok result)
      × All (Lands t result) items
      × ((j : String)
          → All (λ (item : Device). (item.id == j) ≡ false) items
          → find_device j result.devices ≡ find_device j fresh.devices)
apply_placements-device_placement_changes t fresh items u a =
    let (result, e, r) = replay-All t fresh items u a in (result, e, r.lands, r.others)
