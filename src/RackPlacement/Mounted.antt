-- ===== src/RackPlacement/Mounted.antt =====
-- What a placement on a rack promises.
use wiredraft.Prelude.{
  String, Bool, true, false, not, List, [], ◌∷◌, map, some, ◌≡◌, refl, subst, ◌==◌, string_eq,
  is_empty, find?, ap, sym, ◌∙◌, ◌+◌, drop, All-of_map, All-to_map, Option-cases, inl, inr, all,
  unique, All, Result, ok, err, present, passed_test, returned_before, returned_value, on_either,
  was_present, arith,
}
use wiredraft.Topology.{Topology, Device, Rack}
use wiredraft.Rack.{is_rack_placement_available, mounted_device_position, normalize_rack_face}
use wiredraft.Rooms.{Size}
use wiredraft.Prelude.Int.{ℤ, ◌+ℤ◌, pos}
use wiredraft.PlacementSync.{
  Conflict, DevicePosition, apply_placements, device_placement_changes, update_device,
}
use wiredraft.PlacementSync.Inventory.{
  unplaced_device, unplaced_rack, unplaced, Keeps, update_device-unplaced, apply_placements-Keeps,
}
use wiredraft.PlacementSync.Replay.Single.{Agrees, Lands}
use wiredraft.PlacementSync.Replay.{Distinct, apply_placements-device_placement_changes}
use wiredraft.RackPlacement.{
  DropTarget, does_not_fit, no_rack, range_taken, conflict, new_device_placement, mounted_placement,
  change_id, moving_mounted, displaced_ids, release_x, release_all, fits_in, ReplacementPlan,
  replace_in, released, plan_rack_replacement,
}

holds_of : (b : Bool) → not b ≡ false → b ≡ true
holds_of b h = ground arith

all-All : {A : Type 0} (f : A → Bool) (xs : List A) → all f xs ≡ true → All (λ x. f x ≡ true) xs
all-All f [] h = tt
all-All f (x ∷ xs) h = (ground (arith, h), all-All f xs (ground (arith, h)))

-- Whether ids differ is told by the devices without their placements.
Distinct-unplaced :
    (ds es : List Device)
    → map unplaced_device ds ≡ map unplaced_device es
    → Distinct ds
    → Distinct es
Distinct-unplaced [] [] same apart = tt
Distinct-unplaced [] (e ∷ es) same apart = cc
Distinct-unplaced (d ∷ ds) [] same apart = cc
Distinct-unplaced (d ∷ ds) (e ∷ es) same apart =
    let first : d.id ≡ e.id = ap (head_id "") same in
    let rest : map unplaced_device ds ≡ map unplaced_device es = ap (drop 1) same in
    (
      others ds es rest (subst (λ id. All (λ (o : Device). (o.id == id) ≡ false) ds) first apart.0),
      Distinct-unplaced ds es rest apart.1,
    )
  where
    head_id : String → List Device → String
    head_id other [] = other
    head_id other (x ∷ xs) = x.id

    others :
        (ds es : List Device)
        → map unplaced_device ds ≡ map unplaced_device es
        → All (λ (o : Device). (o.id == e.id) ≡ false) ds
        → All (λ (o : Device). (o.id == e.id) ≡ false) es
    others ds es same h =
        All-of_map (λ (o : Device). (o.id == e.id) ≡ false) unplaced_device es
          (subst (All (λ (o : Device). (o.id == e.id) ≡ false)) same
            (All-to_map (λ (o : Device). (o.id == e.id) ≡ false) unplaced_device ds h))

Agrees-same : (t : Topology) (items : List Device) → All (Agrees t t) items
Agrees-same t [] = tt
Agrees-same t (item ∷ items) = (λ original found. (original, found, refl), Agrees-same t items)

module _ (display_size : Device → Size) where
  release_all-unplaced :
      (x y : ℤ) (ids : List String) (ds : List Device)
      → map unplaced_device (release_all display_size x y ids ds) ≡ map unplaced_device ds
  unfolding release_all
  release_all-unplaced x y [] ds = refl
  release_all-unplaced x y (id ∷ ids) ds =
      elim (Option-cases (find? (λ (d : Device). d.id == id) ds)) [
        | inl gone ↦ rw (gone, release_all) (release_all-unplaced x y ids ds)
        | inr (d, found) ↦
            rw (found, release_all)
              (release_all-unplaced x (y +ℤ pos ((display_size (released x y d)).height + 50)) ids
                  (update_device id (released x y) ds)
                ∙ update_device-unplaced id (released x y) ds (λ d. refl))
      ]

  -- The plan mounts every device where it fits, on the map that its changes lead to: that map
  -- differs from the given one in placements only, and the replay of the changes puts every device
  -- where that map has it.
  pub record IsReplacement (t : Topology) (moving : List String) (plan : ReplacementPlan)
      : Type 0 where
    pub next : Topology
    pub inventory : unplaced next ≡ unplaced t
    pub result : Topology
    pub replayed : apply_placements true t plan.changes ≡ ok result
    pub lands : All (Lands t result) next.devices
    pub mounted : plan.mounted ≡ moving_mounted moving next.devices
    pub fits :
        All
          (λ (device : Device).
            is_rack_placement_available next device device.rack_id device.rack_unit device.rack_face
            ≡ true)
          plan.mounted

  replace_in-IsReplacement :
      (t : Topology) (moving : List String) (next : Topology) (plan : ReplacementPlan)
      → Distinct t.devices
      → unplaced next ≡ unplaced t
      → replace_in display_size t moving next ≡ ok plan
      → IsReplacement t moving plan
  unfolding replace_in fits_in
  replace_in-IsReplacement t moving next plan apart kept h =
      let ids = displaced_ids moving next.devices (moving_mounted moving next.devices) [] in
      let final : Topology = record next {
        devices = release_all display_size (release_x t) (pos 100) ids next.devices;
      } in
      let (fit, h1) =
        passed_test (not (all (fits_in display_size final) (moving_mounted moving final.devices)))
          range_taken _ h in
      let same : unplaced final ≡ unplaced t =
        ap (λ ds. record next { devices = ds; racks = map unplaced_rack next.racks })
          (release_all-unplaced (release_x t) (pos 100) ids next.devices)
        ∙ kept in
      let (result, replayed, lands, _) =
        apply_placements-device_placement_changes t t final.devices
          (Distinct-unplaced t.devices final.devices (sym (ap (λ (m : Topology). m.devices) same))
            apart)
          (Agrees-same t final.devices) in
      subst (IsReplacement t moving) (returned_value _ refl h1) (record {
        next = final;
        inventory = same;
        result = result;
        replayed = replayed;
        lands = lands;
        mounted = refl;
        fits =
            all-All (fits_in display_size final) (moving_mounted moving final.devices)
              (ground (arith, fit));
      })

  -- On a map whose devices have different ids, a planned replacement has a map that differs from
  -- the given one in placements only, and the replay of the plan's changes on the given map, with
  -- the check for conflicts, goes through and puts every device at the position that it has there.
  -- On that map the dragged devices that are on a rack are those that the plan lists, and each of
  -- them fits where it stands: within its rack and clear of every other device there.
  pub plan_rack_replacement-IsReplacement :
      (t : Topology) (devices : List Device) (plan : ReplacementPlan)
      → Distinct t.devices
      → plan_rack_replacement display_size t devices ≡ ok plan
      → IsReplacement t (unique (map change_id (device_placement_changes t devices))) plan
  unfolding plan_rack_replacement
  plan_rack_replacement-IsReplacement t devices plan apart h =
      by_replay (apply_placements false t (device_placement_changes t devices))
        (apply_placements-Keeps false t (device_placement_changes t devices)) h
    where
      by_replay :
          (replayed : Result Conflict Topology)
          → Keeps t replayed
          → (elim replayed [
            | err thrown ↦ err (conflict thrown)
            | ok next ↦
                replace_in display_size t
                  (unique (map change_id (device_placement_changes t devices)))
                  next
          ])
            ≡ ok plan
          → IsReplacement t (unique (map change_id (device_placement_changes t devices))) plan
      by_replay (err thrown) kept k = cc
      by_replay (ok next) kept k = replace_in-IsReplacement t _ next plan apart kept k

-- The place is on a rack of the map, where the device fits and at which the rack draws it.
abbrev pub IsMountedAt : Topology → Device → DevicePosition → Type 0
IsMountedAt t device p =
    (rack : Rack) × (find? (λ (item : Rack). item.id == p.rack_id) t.racks ≡ some rack)
    × (is_rack_placement_available t device p.rack_id p.rack_unit p.rack_face ≡ true)
    × (mounted_device_position rack (record device { rack_unit = p.rack_unit })
        ≡ record { x = p.position_x; y = p.position_y })

mounted_placement-IsMountedAt :
    (t : Topology) (device : Device) (target : DropTarget) (p : DevicePosition)
    → mounted_placement t device target ≡ ok p
    → IsMountedAt t device p
unfolding mounted_placement
mounted_placement-IsMountedAt t device target p h =
    let face = normalize_rack_face target.rack_face in
    let (fit, h1) =
      passed_test (not (is_rack_placement_available t device target.rack_id target.rack_unit face))
        does_not_fit _ h in
    let (rack, found, h2) =
      returned_before (present (find? (λ (item : Rack). item.id == target.rack_id) t.racks) no_rack)
        _ h1 in
    subst (IsMountedAt t device) (returned_value _ refl h2)
      (rack, was_present _ _ found, holds_of _ fit, refl)

-- A new device that is dropped on a rack gets a place on it: the device fits there, and the
-- position is the one at which the rack draws that unit.
pub new_device_placement-IsMountedAt :
    (t : Topology) (device : Device) (target : DropTarget) (p : DevicePosition)
    → is_empty target.rack_id ≡ false
    → new_device_placement t device target ≡ ok p
    → IsMountedAt t device p
unfolding new_device_placement
new_device_placement-IsMountedAt t device target p h k =
    on_either (IsMountedAt t device) (not (is_empty target.rack_id))
      (λ _ k. mounted_placement-IsMountedAt t device target p k)
      (λ e _. absurd (ground (arith, e, h))) k
