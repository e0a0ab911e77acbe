-- ===== src/PlacementSync/Refused/Single.antt =====
-- When one change of a replay is refused.
use wiredraft.Prelude.{
  String, Bool, true, false, List, Option, none, some, ◌≡◌, ◌≢◌, ◌↔◌, refl, sym, ap, subst, ◌∙◌,
  arith, Bool-cases, Option-cases, inl, inr, Result, ok, err, find?, string_eq, ◌==◌, is_empty,
  str_iff, if◌then◌else◌,
}
use wiredraft.Prelude.Int.{int_beq_iff}
use wiredraft.Topology.{Topology, Device, Rack}
use wiredraft.PlacementSync.{
  DevicePosition, RackPosition, Change, move_device, move_rack, Conflict, moved, removed, item_name,
  apply_device_move, apply_rack_move, apply_change, device_position, update_device, update_rack,
  assign_device, assign_rack, rack_position, same_device_position, same_rack_position,
}
use wiredraft.PlacementSync.Replay.Single.{
  find_device, same_device_position_refl, same_device_position-eq,
}

abbrev pub find_rack : String → List Rack → Option Rack
find_rack id = find? (λ (r : Rack). r.id == id)

-- The item of the change is gone, or stands neither where the drag began nor where it ended.
abbrev pub IsConflict : Topology → Change → Conflict → Type 0
IsConflict t (move_device id before after) removed = find_device id t.devices ≡ none
IsConflict t (move_device id before after) (moved name) =
    (d : Device) × (find_device id t.devices ≡ some d)
    × (device_position d ≢ before)
    × (device_position d ≢ after)
    × ((if is_empty d.name then "This item" else d.name) ≡ name)
IsConflict t (move_rack id before after) removed = find_rack id t.racks ≡ none
IsConflict t (move_rack id before after) (moved name) =
    (r : Rack) × (find_rack id t.racks ≡ some r)
    × (rack_position r ≢ before)
    × (rack_position r ≢ after)
    × ((if is_empty r.name then "This item" else r.name) ≡ name)

same_rack_position_iff : (p q : RackPosition) → (same_rack_position p q ≡ true) ↔ (p ≡ q)
unfolding same_rack_position
same_rack_position_iff p q = (
  λ h. ground (
    arith,
    int_beq_iff p.position_x q.position_x,
    int_beq_iff p.position_y q.position_y,
    str_iff p.room_id q.room_id,
  ),
  λ e.
      subst (λ q. same_rack_position p q ≡ true) e
        (ground (
          arith,
          int_beq_iff p.position_x p.position_x,
          int_beq_iff p.position_y p.position_y,
          str_iff p.room_id p.room_id,
        )),
)

same_device_position_iff : (p q : DevicePosition) → (same_device_position p q ≡ true) ↔ (p ≡ q)
same_device_position_iff p q = (
  same_device_position-eq p q,
  λ e. subst (λ q. same_device_position p q ≡ true) e (same_device_position_refl p),
)

not_same : {A : Type 0} {a b : A} {test : Bool} → (test ≡ true) ↔ (a ≡ b) → a ≢ b → test ≡ false
not_same {test = true} (to, from) n = absurd (n (to refl))
not_same {test = false} (to, from) n = refl

apart : {A : Type 0} {a b : A} {test : Bool} → (test ≡ true) ↔ (a ≡ b) → test ≡ false → a ≢ b
apart {test = true} (to, from) h e = cc
apart {test = false} (to, from) h e = let bad : false ≡ true = from e in cc

pub same_error : {a b : Conflict} {r : Result Conflict Topology} → r ≡ err a → r ≡ err b → a ≡ b
same_error h k = cc

abbrev pub with_device : Topology → String → DevicePosition → Topology
with_device t id after = record t { devices = update_device id (assign_device after) t.devices }

abbrev pub with_rack : Topology → String → RackPosition → Topology
with_rack t id after = record t { racks = update_rack id (assign_rack after) t.racks }

pub IsConflict-apply_change :
    (t : Topology) (change : Change) (conflict : Conflict)
    → IsConflict t change conflict
    → apply_change true t change ≡ err conflict
unfolding apply_change apply_device_move apply_rack_move item_name
IsConflict-apply_change t (move_device id before after) removed gone =
    rw (gone, apply_device_move) refl
IsConflict-apply_change t (move_device id before after) (moved name) (d, there, b, a, e) =
    rw
      (
        there,
        not_same (same_device_position_iff (device_position d) before) b,
        not_same (same_device_position_iff (device_position d) after) a,
        apply_device_move,
      )
      (ap (λ n. err (moved n)) e)
IsConflict-apply_change t (move_rack id before after) removed gone = rw (gone, apply_rack_move) refl
IsConflict-apply_change t (move_rack id before after) (moved name) (r, there, b, a, e) =
    rw
      (
        there,
        not_same (same_rack_position_iff (rack_position r) before) b,
        not_same (same_rack_position_iff (rack_position r) after) a,
        apply_rack_move,
      )
      (ap (λ n. err (moved n)) e)

pub apply_change-IsConflict :
    (t : Topology) (change : Change) (conflict : Conflict)
    → apply_change true t change ≡ err conflict
    → IsConflict t change conflict
unfolding apply_change apply_device_move apply_rack_move item_name
apply_change-IsConflict t (move_device id before after) conflict h =
    elim (Option-cases (find_device id t.devices)) [
      | inl gone ↦
          subst (IsConflict t (move_device id before after))
            (same_error (IsConflict-apply_change t (move_device id before after) removed gone) h)
            gone
      | inr (d, there) ↦ elim (Bool-cases (same_device_position (device_position d) before)) [
        | inl e ↦
            let bad : ok (with_device t id after) ≡ err conflict =
              sym (rw (there, e, apply_device_move) refl) ∙ h in
            cc
        | inr e ↦ elim (Bool-cases (same_device_position (device_position d) after)) [
          | inl f ↦
              let bad : ok (with_device t id after) ≡ err conflict =
                sym (rw (there, e, f, apply_device_move) refl) ∙ h in
              cc
          | inr f ↦
              let c : IsConflict t (move_device id before after) (moved (item_name d.name)) = (
                d,
                there,
                apart (same_device_position_iff (device_position d) before) e,
                apart (same_device_position_iff (device_position d) after) f,
                refl,
              ) in
              subst (IsConflict t (move_device id before after)) {x = moved (item_name d.name)}
                (same_error
                  (IsConflict-apply_change t (move_device id before after)
                    (moved (item_name d.name)) c)
                  h)
                c
        ]
      ]
    ]
apply_change-IsConflict t (move_rack id before after) conflict h =
    elim (Option-cases (find_rack id t.racks)) [
      | inl gone ↦
          subst (IsConflict t (move_rack id before after))
            (same_error (IsConflict-apply_change t (move_rack id before after) removed gone) h) gone
      | inr (r, there) ↦ elim (Bool-cases (same_rack_position (rack_position r) before)) [
        | inl e ↦
            let bad : ok (with_rack t id after) ≡ err conflict =
              sym (rw (there, e, apply_rack_move) refl) ∙ h in
            cc
        | inr e ↦ elim (Bool-cases (same_rack_position (rack_position r) after)) [
          | inl f ↦
              let bad : ok (with_rack t id after) ≡ err conflict =
                sym (rw (there, e, f, apply_rack_move) refl) ∙ h in
              cc
          | inr f ↦
              let c : IsConflict t (move_rack id before after) (moved (item_name r.name)) = (
                r,
                there,
                apart (same_rack_position_iff (rack_position r) before) e,
                apart (same_rack_position_iff (rack_position r) after) f,
                refl,
              ) in
              subst (IsConflict t (move_rack id before after)) {x = moved (item_name r.name)}
                (same_error
                  (IsConflict-apply_change t (move_rack id before after) (moved (item_name r.name))
                    c)
                  h)
                c
        ]
      ]
    ]
