-- ===== src/PlacementSync/Inventory.antt =====
-- A replayed drag changes placements only.
use wiredraft.Prelude.{
  String, Bool, true, false, List, [], ◌∷◌, map, ◌≡◌, refl, ◌∙◌, ◌==◌, Bool-cases, Option-cases,
  inl, inr, Result, ok, err, ◌>>=◌, find?, string_eq, if◌then◌else◌, ap,
}
use wiredraft.Prelude.Int.{pos}
use wiredraft.Topology.{Topology, Device, Rack}
use wiredraft.PlacementSync.{
  RackPosition, Change, move_device, move_rack, Conflict, assign_device, assign_rack, update_device,
  update_rack, apply_device_move, apply_rack_move, apply_change, apply_placements, removed, moved,
}

abbrev pub unplaced_device : Device → Device
unplaced_device d = record d {
  position_x = pos 0;
  position_y = pos 0;
  rack_id = "";
  rack_unit = 0;
  rack_face = "";
  room_id = "";
}

abbrev pub unplaced_rack : Rack → Rack
unplaced_rack r = record r { position_x = pos 0; position_y = pos 0; room_id = "" }

-- The document with all placements of devices and racks taken out.
abbrev pub unplaced : Topology → Topology
unplaced t = record t { devices = map unplaced_device t.devices; racks = map unplaced_rack t.racks }

-- A call that does not throw keeps all but placements.
abbrev pub Keeps : Topology → Result Conflict Topology → Type 0
Keeps t (ok t') = unplaced t' ≡ unplaced t
Keeps t (err e) = Unit {0}

pub update_device-unplaced :
    (id : String) (f : Device → Device) (ds : List Device)
    → ((d : Device) → unplaced_device (f d) ≡ unplaced_device d)
    → map unplaced_device (update_device id f ds) ≡ map unplaced_device ds
unfolding update_device
update_device-unplaced id f [] same = refl
update_device-unplaced id f (d ∷ ds) same = elim (Bool-cases (d.id == id)) [
  | inl e ↦ rw (e, update_device) (ap (λ first. first ∷ map unplaced_device ds) (same d))
  | inr e ↦ rw (e, update_device) (cc (update_device-unplaced id f ds same))
]

update_rack-unplaced :
    (id : String) (p : RackPosition) (rs : List Rack)
    → map unplaced_rack (update_rack id (assign_rack p) rs) ≡ map unplaced_rack rs
unfolding update_rack
update_rack-unplaced id p [] = refl
update_rack-unplaced id p (r ∷ rs) = elim (Bool-cases (r.id == id)) [
  | inl e ↦ rw (e, update_rack) refl
  | inr e ↦ rw (e, update_rack) (cc (update_rack-unplaced id p rs))
]

missing-Keeps : (check : Bool) (t : Topology) → Keeps t (if check then err removed else ok t)
missing-Keeps true t = tt
missing-Keeps false t = refl

conflict-Keeps :
    (test : Bool) (t t' : Topology) (name : String)
    → unplaced t' ≡ unplaced t
    → Keeps t (if test then err (moved name) else ok t')
conflict-Keeps true t t' name h = tt
conflict-Keeps false t t' name h = h

apply_change-Keeps : (check : Bool) (t : Topology) (c : Change) → Keeps t (apply_change check t c)
unfolding apply_change
apply_change-Keeps check t (move_device id before after) =
    elim (Option-cases (find? (λ (d : Device). d.id == id) t.devices)) [
      | inl e ↦ rw (e, apply_device_move) (missing-Keeps check t)
      | inr (d, e) ↦
          rw (e, apply_device_move)
            (conflict-Keeps _ t _ _ (
              ap (λ ds. record t { devices = ds; racks = map unplaced_rack t.racks })
                (update_device-unplaced id (assign_device after) t.devices (λ d. refl))))
    ]
apply_change-Keeps check t (move_rack id before after) =
    elim (Option-cases (find? (λ (r : Rack). r.id == id) t.racks)) [
      | inl e ↦ rw (e, apply_rack_move) (missing-Keeps check t)
      | inr (r, e) ↦
          rw (e, apply_rack_move)
            (conflict-Keeps _ t _ _ (
              ap (λ rs. record t { racks = rs; devices = map unplaced_device t.devices })
                (update_rack-unplaced id after t.racks)))
    ]

Keeps-trans :
    (t next : Topology) (r : Result Conflict Topology)
    → unplaced next ≡ unplaced t
    → Keeps next r
    → Keeps t r
Keeps-trans t next (ok t') h k = k ∙ h
Keeps-trans t next (err e) h k = tt

-- Replaying changes, with or without the check for conflicts, either throws or keeps the whole
-- document but the six placement fields of devices and the three of racks: inventory, names, ports
-- and cables are never replayed.
pub apply_placements-Keeps :
    (check : Bool) (t : Topology) (changes : List Change)
    → Keeps t (apply_placements check t changes)
unfolding apply_placements
apply_placements-Keeps check t [] = refl
apply_placements-Keeps check t (c ∷ cs) =
    go (apply_change check t c) (apply_change-Keeps check t c)
      (λ next. apply_placements-Keeps check next cs)
  where
    go :
        (r : Result Conflict Topology)
        → Keeps t r
        → ((next : Topology) → Keeps next (apply_placements check next cs))
        → Keeps t (r >>= λ next. apply_placements check next cs)
    go (ok next) k rest = Keeps-trans t next (apply_placements check next cs) k (rest next)
    go (err e) k rest = tt
