-- ===== src/PlacementSync/Refused.antt =====
-- Which replays the check for conflicts refuses: `applyPlacements` of
-- web/static/js/placement-sync.js.
pub mod Single
use wiredraft.Prelude.{
  String, Bool, true, false, List, [], ◌∷◌, ◌++◌, Option, none, some, ◌≡◌, ◌≢◌, ◌↔◌, refl, sym, ap,
  subst, ◌∙◌, arith, Bool-cases, Option-cases, inl, inr, Result, ok, err, Result-cases, find?,
  string_eq, ◌==◌, is_empty, str_iff, if◌then◌else◌,
}
use wiredraft.PlacementSync.Refused.Single.{
  same_error, with_device, with_rack, find_rack, IsConflict, apply_change-IsConflict,
  IsConflict-apply_change,
}
use wiredraft.Prelude.Int.{int_beq_iff}
use wiredraft.Topology.{Topology, Device, Rack}
use wiredraft.PlacementSync.{
  DevicePosition, RackPosition, Change, move_device, move_rack, Conflict, moved, removed, item_name,
  apply_device_move, apply_rack_move, apply_change, apply_placements, device_position,
  update_device, update_rack, assign_device, assign_rack, rack_position, same_device_position,
  same_rack_position,
}
use wiredraft.PlacementSync.Replay.Single.{
  find_device, same_device_position_refl, same_device_position-eq, apply_placements-append,
}

-- Some change is in conflict on the map that the changes before it lead to.
pub record IsRefused (t : Topology) (changes : List Change) (conflict : Conflict) : Type 0 where
  pub done : List Change
  pub change : Change
  pub rest : List Change
  pub split : changes ≡ done ++ change ∷ rest
  pub next : Topology
  pub led_to : apply_placements true t done ≡ ok next
  pub conflicts : IsConflict next change conflict

apply_placements-IsRefused :
    (t : Topology) (changes : List Change) (conflict : Conflict)
    → apply_placements true t changes ≡ err conflict
    → IsRefused t changes conflict
unfolding apply_placements
apply_placements-IsRefused t [] conflict h = cc
apply_placements-IsRefused t (change ∷ changes) conflict h =
    elim (Result-cases (apply_change true t change)) [
      | inl (next, e) ↦
          let later = apply_placements-IsRefused next changes conflict (sym (rw e refl) ∙ h) in
          record {
            done = change ∷ later.done;
            change = later.change;
            rest = later.rest;
            split = ap (λ xs. change ∷ xs) later.split;
            next = later.next;
            led_to = rw e later.led_to;
            conflicts = later.conflicts;
          }
      | inr (thrown, e) ↦
          let same : thrown ≡ conflict = same_error (rw e refl) h in
          record {
            done = [];
            change = change;
            rest = changes;
            split = refl;
            next = t;
            led_to = refl;
            conflicts = apply_change-IsConflict t change conflict (e ∙ ap err same);
          }
    ]

IsRefused-apply_placements :
    (t : Topology) (changes : List Change) (conflict : Conflict)
    → IsRefused t changes conflict
    → apply_placements true t changes ≡ err conflict
unfolding apply_placements
IsRefused-apply_placements t changes conflict r =
    ap (apply_placements true t) r.split
    ∙ apply_placements-append true t r.done (r.change ∷ r.rest)
    ∙ rw (r.led_to, IsConflict-apply_change r.next r.change conflict r.conflicts) refl

unchecked_change :
    (t : Topology) (change : Change) → (next : Topology) × (apply_change false t change ≡ ok next)
unfolding apply_change apply_device_move apply_rack_move
unchecked_change t (move_device id before after) = elim (Option-cases (find_device id t.devices)) [
  | inl gone ↦ (t, rw (gone, apply_device_move) refl)
  | inr (d, there) ↦ (with_device t id after, rw (there, apply_device_move) refl)
]
unchecked_change t (move_rack id before after) = elim (Option-cases (find_rack id t.racks)) [
  | inl gone ↦ (t, rw (gone, apply_rack_move) refl)
  | inr (r, there) ↦ (with_rack t id after, rw (there, apply_rack_move) refl)
]

unchecked :
    (t : Topology) (changes : List Change)
    → (next : Topology) × (apply_placements false t changes ≡ ok next)
unfolding apply_placements
unchecked t [] = (t, refl)
unchecked t (change ∷ changes) =
    let (next, e) = unchecked_change t change in
    let (last, f) = unchecked next changes in (last, rw e f)

-- A replay with the check throws exactly if some change is in conflict on the map that the changes
-- before it lead to: its device or rack is gone, or stands neither where the drag began nor where
-- it ended; it throws which of the two, with the item's name. A replay without the check never
-- throws.
pub apply_placements_throws_iff :
    (t : Topology) (changes : List Change) (conflict : Conflict)
    → ((apply_placements true t changes ≡ err conflict) ↔ IsRefused t changes conflict)
      × ((next : Topology) × (apply_placements false t changes ≡ ok next))
apply_placements_throws_iff t changes conflict = (
  (apply_placements-IsRefused t changes conflict, IsRefused-apply_placements t changes conflict),
  unchecked t changes,
)
