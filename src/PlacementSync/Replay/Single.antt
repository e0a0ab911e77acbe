-- ===== src/PlacementSync/Replay/Single.antt =====
-- One move of a device, replayed: `applyPlacements` of web/static/js/placement-sync.js.
use wiredraft.Prelude.{
  String, ◌&&◌, not, ◌⊎◌, subst, Bool, true, false, List, [], ◌∷◌, ◌++◌, Option, some, ◌≡◌, refl,
  ◌∙◌, ◌==◌, arith, Bool-cases, Option-cases, inl, inr, Result, ok, err, ◌>>=◌, find?, string_eq,
  nat_eq, is_empty, str_iff,
}
use wiredraft.Prelude.Int.{int_eq, int_beq_iff}
use wiredraft.Topology.{Topology, Device}
use wiredraft.PlacementSync.{
  DevicePosition, Change, move_device, Conflict, assign_device, update_device, apply_device_move,
  apply_change, apply_placements, device_position, same_device_position, device_change,
}

abbrev pub find_device : String → List Device → Option Device
find_device id = find? (λ (d : Device). d.id == id)

pub same_device_position_refl : (p : DevicePosition) → same_device_position p p ≡ true
unfolding same_device_position
same_device_position_refl p = ground (
  arith,
  int_beq_iff p.position_x p.position_x,
  str_iff p.rack_id p.rack_id,
  str_iff p.rack_face p.rack_face,
  str_iff p.room_id p.room_id,
)

pub same_device_position-eq : (p q : DevicePosition) → same_device_position p q ≡ true → p ≡ q
unfolding same_device_position
same_device_position-eq p q h = ground (
  arith,
  int_beq_iff p.position_x q.position_x,
  int_beq_iff p.position_y q.position_y,
  str_iff p.rack_id q.rack_id,
  str_iff p.rack_face q.rack_face,
  str_iff p.room_id q.room_id,
)

-- Writing a captured position and reading it again gives it back.
pub device_position-assign_device :
    (item d : Device)
    → device_position (assign_device (device_position item) d) ≡ device_position item
unfolding device_position
device_position-assign_device item d = elim (Bool-cases (is_empty item.rack_id)) [
  | inl e ↦ simp e
  | inr e ↦ elim (Bool-cases (is_empty item.rack_face)) [
    | inl f ↦ simp (e, f)
    | inr f ↦ simp (e, f)
  ]
]

pub find-update_device_self :
    (id : String) (p : DevicePosition) (ds : List Device) {d : Device}
    → find_device id ds ≡ some d
    → find_device id (update_device id (assign_device p) ds) ≡ some (assign_device p d)
unfolding update_device
find-update_device_self id p [] h = absurd (ground arith)
find-update_device_self id p (x ∷ ds) {d} h = elim (Bool-cases (x.id == id)) [
  | inl e ↦ rw (e, update_device) (rw e (cc (rw e at h)))
  | inr e ↦ rw (e, update_device) (rw e (find-update_device_self id p ds (rw e at h)))
]

pub find-update_device_ne :
    (id j : String) (p : DevicePosition) (ds : List Device)
    → (id == j) ≡ false
    → find_device j (update_device id (assign_device p) ds) ≡ find_device j ds
unfolding update_device
find-update_device_ne id j p [] h = refl
find-update_device_ne id j p (x ∷ ds) h =
    ground (arith, find-update_device_ne id j p ds h, str_iff x.id id, str_iff x.id j, str_iff id j)

-- The check for conflicts does not stop a device that stands where its drag began or ended.
unchallenged :
    (check : Bool) (d : Device) (before after : DevicePosition)
    → (check ≡ false) ⊎ ((device_position d ≡ before) ⊎ (device_position d ≡ after))
    → (check
        && not (same_device_position (device_position d) before)
        && not (same_device_position (device_position d) after))
      ≡ false
unchallenged check d before after (inl e) = rw e refl
unchallenged check d before after (inr (inl e)) =
    let same : same_device_position (device_position d) before ≡ true =
      subst (λ p. same_device_position (device_position d) p ≡ true) e
        (same_device_position_refl (device_position d)) in
    ground (arith, same)
unchallenged check d before after (inr (inr e)) =
    let same : same_device_position (device_position d) after ≡ true =
      subst (λ p. same_device_position (device_position d) p ≡ true) e
        (same_device_position_refl (device_position d)) in
    ground (arith, same)

pub apply_placements-single :
    (check : Bool) (t : Topology) (d : Device) (before after : DevicePosition)
    → find_device d.id t.devices ≡ some d
    → (check ≡ false) ⊎ ((device_position d ≡ before) ⊎ (device_position d ≡ after))
    → apply_placements check t (move_device d.id before after ∷ [])
      ≡ ok (record t { devices = update_device d.id (assign_device after) t.devices })
unfolding apply_placements apply_change apply_device_move
apply_placements-single check t d before after found stays =
    rw (found, unchallenged check d before after stays, apply_device_move) refl

pub apply_placements-append :
    (check : Bool) (t : Topology) (xs ys : List Change)
    → apply_placements check t (xs ++ ys)
      ≡ (apply_placements check t xs >>= λ next. apply_placements check next ys)
unfolding apply_placements
apply_placements-append check t [] ys = refl
apply_placements-append check t (x ∷ xs) ys =
    go (apply_change check t x) (λ next. apply_placements-append check next xs ys)
  where
    go :
        (r : Result Conflict Topology)
        → ((next : Topology)
            → apply_placements check next (xs ++ ys)
              ≡ (apply_placements check next xs >>= λ last. apply_placements check last ys))
        → (r >>= λ next. apply_placements check next (xs ++ ys)) ≡ (
            (r >>= λ next. apply_placements check next xs) >>= λ last.
            apply_placements check last ys)
    go (ok next) ih = ih next
    go (err e) ih = refl

-- The fresh document has the item where the captured one had it.
abbrev pub Agrees : Topology → Topology → Device → Type 0
Agrees t fresh item =
    (original : Device)
    → find_device item.id t.devices ≡ some original
    → (d : Device) × (find_device item.id fresh.devices ≡ some d)
      × (device_position d ≡ device_position original)

-- An item of the captured document stands where it was dropped.
abbrev pub Lands : Topology → Topology → Device → Type 0
Lands t result item =
    (original : Device)
    → find_device item.id t.devices ≡ some original
    → (d : Device) × (find_device item.id result.devices ≡ some d)
      × (device_position d ≡ device_position item)

-- One item: the call goes through, and other items are where they were.
pub record Replayed (t fresh : Topology) (item : Device) (result : Topology) : Type 0 where
  pub lands : Lands t result item
  pub others :
      (j : String)
      → (item.id == j) ≡ false
      → find_device j result.devices ≡ find_device j fresh.devices

pub move_device_lem :
    (fresh : Topology) (id : String) (before after : DevicePosition) (d : Device)
    → find_device id fresh.devices ≡ some d
    → device_position d ≡ before
    → apply_placements true fresh (move_device id before after ∷ [])
      ≡ ok (record fresh { devices = update_device id (assign_device after) fresh.devices })
unfolding apply_placements apply_change apply_device_move
move_device_lem fresh id before after d there same =
    rw (there, apply_device_move, same, same_device_position_refl before)

pub replay_one :
    (t fresh : Topology) (item : Device)
    → Agrees t fresh item
    → (result : Topology) × (apply_placements true fresh (device_change t.devices item) ≡ ok result)
      × Replayed t fresh item result
unfolding device_change apply_placements
replay_one t fresh item agrees = elim (Option-cases (find_device item.id t.devices)) [
  | inl missing ↦ (
    fresh,
    rw (missing, device_change) refl,
    record { lands = λ original e. absurd (cc (missing, e)); others = λ j h. refl },
  )
  | inr (original, found) ↦
      elim (Bool-cases (same_device_position (device_position original) (device_position item))) [
        | inl still ↦
            let (d, there, same) = agrees original found in
            (
              fresh,
              rw (found, device_change) (rw still refl),
              record {
                lands = λ o e. (d, there, same ∙ same_device_position-eq _ _ still);
                others = λ j h. refl;
              },
            )
        | inr dragged ↦
            let (d, there, same) = agrees original found in
            (
              record fresh {
                devices =
                    update_device item.id (assign_device (device_position item)) fresh.devices;
              },
              rw (found, device_change)
                  (rw dragged (
                    move_device_lem fresh item.id (device_position original) (device_position item)
                      d there same)),
              record {
                lands = λ o e. (
                  assign_device (device_position item) d,
                  find-update_device_self item.id (device_position item) fresh.devices there,
                  device_position-assign_device item d,
                );
                others =
                    λ j h. find-update_device_ne item.id j (device_position item) fresh.devices h;
              },
            )
      ]
]
