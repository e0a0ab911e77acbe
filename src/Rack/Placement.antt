-- ===== src/Rack/Placement.antt =====
-- What `isRackPlacementAvailable` promises: the placed device stays in the rack and on no unit of
-- another device of that rail.
use wiredraft.Prelude.{
  ℕ, String, Bool, true, false, List, [], ◌∷◌, some, ◌+◌, ◌-◌, ◌≤◌, ◌<◌, ◌≡◌, refl, sym, subst, ◌≢◌,
  ◌↔◌, ◌⊎◌, inl, inr, ◌==◌, string_eq, str_iff, arith, find?, all, All, All-zip_with, ok,
  Bool-cases, Option-cases,
}
use wiredraft.Topology.{Topology, Device, Rack}
use wiredraft.PlacementSync.{
  DevicePosition, assign_device, update_device, move_device, apply_placements, device_position,
}
use wiredraft.PlacementSync.Replay.Single.{apply_placements-single}
use wiredraft.Rack.{normalize_rack_face, units_of, leaves_free, is_rack_placement_available}

abbrev pub last_unit : Device → ℕ
last_unit d = d.rack_unit + units_of d - 1

-- Two devices that are mounted on one rail of one rack share no unit.
abbrev pub Disjoint : Device → Device → Type 0
Disjoint a b =
    a.rack_id ≡ b.rack_id
    → normalize_rack_face a.rack_face ≡ normalize_rack_face b.rack_face
    → 1 ≤ a.rack_unit
    → 1 ≤ b.rack_unit
    → (last_unit a < b.rack_unit) ⊎ (last_unit b < a.rack_unit)

-- The device on the rail position that is asked for.
abbrev pub mounted_at : Device → String → ℕ → String → Device
mounted_at d rack_id rack_unit rack_face = record d {
  rack_id = rack_id;
  rack_unit = rack_unit;
  rack_face = rack_face;
}

pub record Fits (t : Topology) (d : Device) : Type 0 where
  pub rack : Rack
  pub found : find? (λ (r : Rack). r.id == d.rack_id) t.racks ≡ some rack
  pub above : 1 ≤ d.rack_unit
  pub below : last_unit d ≤ rack.height_u
  pub free : All (λ c. (c.id ≡ d.id) ⊎ Disjoint d c) t.devices

leaves_free-Disjoint :
    (d c : Device) (rack_id : String) (rack_unit : ℕ) (face : String)
    → leaves_free d rack_id rack_unit (rack_unit + units_of d - 1) (normalize_rack_face face) c
      ≡ true
    → (c.id ≡ d.id) ⊎ Disjoint (mounted_at d rack_id rack_unit face) c
unfolding leaves_free
leaves_free-Disjoint d c rack_id rack_unit face h = elim (Bool-cases (c.id == d.id)) [
  | inl same ↦ inl ((str_iff _ _).0 same)
  | inr other ↦ inr λ p q a b. ground (
    arith,
    str_iff c.rack_id rack_id,
    str_iff (normalize_rack_face c.rack_face) (normalize_rack_face face),
  )
]

leaves_free-All :
    (d : Device) (rack_id : String) (rack_unit : ℕ) (face : String) (cs : List Device)
    → all
        (leaves_free d rack_id rack_unit (rack_unit + units_of d - 1) (normalize_rack_face face))
        cs
      ≡ true
    → All (λ c. (c.id ≡ d.id) ⊎ Disjoint (mounted_at d rack_id rack_unit face) c) cs
leaves_free-All d rack_id rack_unit face [] h = tt
leaves_free-All d rack_id rack_unit face (c ∷ cs) h = (
  leaves_free-Disjoint d c rack_id rack_unit face (ground arith),
  leaves_free-All d rack_id rack_unit face cs (ground arith),
)

All-leaves_free :
    (d : Device) (rack_id : String) (rack_unit : ℕ) (face : String) (cs : List Device)
    → 1 ≤ rack_unit
    → All (λ c. (c.id ≡ d.id) ⊎ Disjoint (mounted_at d rack_id rack_unit face) c) cs
    → all
        (leaves_free d rack_id rack_unit (rack_unit + units_of d - 1) (normalize_rack_face face))
        cs
      ≡ true
unfolding leaves_free
All-leaves_free d rack_id rack_unit face [] a h = refl
All-leaves_free d rack_id rack_unit face (c ∷ cs) a h = ground (
  arith,
  All-leaves_free d rack_id rack_unit face cs a h.1,
  str_iff c.id d.id,
  str_iff c.rack_id rack_id,
  str_iff (normalize_rack_face c.rack_face) (normalize_rack_face face),
)

available-Fits :
    (t : Topology) (d : Device) (rack_id : String) (rack_unit : ℕ) (face : String)
    → is_rack_placement_available t d rack_id rack_unit face ≡ true
    → Fits t (mounted_at d rack_id rack_unit face)
unfolding is_rack_placement_available
available-Fits t d rack_id rack_unit face h =
    elim (Option-cases (find? (λ (r : Rack). r.id == rack_id) t.racks)) [
      | inl none_there ↦ absurd (ground arith)
      | inr (rack, e) ↦ record {
        rack = rack;
        found = e;
        above = ground arith;
        below = ground arith;
        free = leaves_free-All d rack_id rack_unit face t.devices (ground arith);
      }
    ]

Fits-available :
    (t : Topology) (d : Device) (rack_id : String) (rack_unit : ℕ) (face : String)
    → Fits t (mounted_at d rack_id rack_unit face)
    → is_rack_placement_available t d rack_id rack_unit face ≡ true
unfolding is_rack_placement_available
Fits-available t d rack_id rack_unit face h =
    ground (arith, h.found, All-leaves_free d rack_id rack_unit face t.devices h.above h.free)

-- A position is available exactly when it fits: its rack exists, the device's units lie within the
-- rack, and every other device is either not mounted on the same rail or on other units of it.
pub is_rack_placement_available_iff :
    (t : Topology) (d : Device) (rack_id : String) (rack_unit : ℕ) (face : String)
    → (is_rack_placement_available t d rack_id rack_unit face ≡ true)
      ↔ Fits t (mounted_at d rack_id rack_unit face)
is_rack_placement_available_iff t d rack_id rack_unit face =
    (available-Fits t d rack_id rack_unit face, Fits-available t d rack_id rack_unit face)

Disjoint-symm : (a b : Device) → Disjoint a b → Disjoint b a
Disjoint-symm a b h p q x y = elim (h (sym p) (sym q) y x) [ inl l ↦ inr l | inr r ↦ inl r ]

-- No two devices of the list collide on a rail.
abbrev pub Apart : List Device → Type 0
Apart [] = Unit
Apart (d ∷ ds) = All (Disjoint d) ds × Apart ds

abbrev pub UniqueIds : List Device → Type 0
UniqueIds [] = Unit
UniqueIds (d ∷ ds) = All (λ (c : Device). c.id ≢ d.id) ds × UniqueIds ds

module _ (p : DevicePosition) (d : Device) where
  All-update_device :
      (P : Device → Type 0) (cs : List Device)
      → P (assign_device p d)
      → find? (λ (c : Device). c.id == d.id) cs ≡ some d
      → All P cs
      → All P (update_device d.id (assign_device p) cs)
  unfolding update_device
  All-update_device P [] new found h = tt
  All-update_device P (c ∷ cs) new found h = elim (Bool-cases (c.id == d.id)) [
    | inl here ↦
        let same : d ≡ c = ground arith in
        rw here (subst (λ x. P (assign_device p x)) same new, h.1)
    | inr there ↦ rw there (h.0, All-update_device P cs new (ground arith) h.1)
  ]

  -- In a list with unique ids, moving `d` clear of every other device keeps all of them apart.
  Apart-update_device :
      (cs : List Device)
      → UniqueIds cs
      → Apart cs
      → All (λ c. (c.id ≡ d.id) ⊎ Disjoint (assign_device p d) c) cs
      → find? (λ (c : Device). c.id == d.id) cs ≡ some d
      → Apart (update_device d.id (assign_device p) cs)
  unfolding update_device
  Apart-update_device [] u a free found = tt
  Apart-update_device (c ∷ cs) u a free found = elim (Bool-cases (c.id == d.id)) [
    | inl here ↦
        let same : d ≡ c = ground arith in
        rw here (
          subst (λ x. All (Disjoint (assign_device p x)) cs) same
              (others cs
                (subst (λ (x : Device). All (λ (y : Device). y.id ≢ x.id) cs) (sym same) u.0)
                free.1),
          a.1,
        )
    | inr there ↦ rw there (
      All-update_device (Disjoint c) cs (Disjoint-symm (assign_device p d) c (clear c there free.0))
          (ground arith) a.0,
      Apart-update_device cs u.1 a.1 free.1 (ground arith),
    )
  ]
    where
      clear :
          (c : Device)
          → (c.id == d.id) ≡ false
          → (c.id ≡ d.id) ⊎ Disjoint (assign_device p d) c
          → Disjoint (assign_device p d) c
      clear c other (inl e) = absurd (ground (arith, str_iff c.id d.id))
      clear c other (inr h) = h

      others :
          (ys : List Device)
          → All (λ y. y.id ≢ d.id) ys
          → All (λ y. (y.id ≡ d.id) ⊎ Disjoint (assign_device p d) y) ys
          → All (Disjoint (assign_device p d)) ys
      others ys =
          All-zip_with {P = λ y. y.id ≢ d.id}
            {Q = λ y. (y.id ≡ d.id) ⊎ Disjoint (assign_device p d) y}
            {R = Disjoint (assign_device p d)}
            (λ y n h. elim h [ inl e ↦ absurd (n e) | inr r ↦ r ]) ys

-- On a map whose devices have different ids and whose mounted devices are apart in pairs, replaying
-- one move of a device of the map to an available position does not throw and keeps every pair of
-- mounted devices apart: without the check for conflicts, and with it if the device stands where
-- the drag began or where it ended.
pub apply_placements-Apart :
    (check : Bool) (t : Topology) (d : Device) (before after : DevicePosition)
    → UniqueIds t.devices
    → Apart t.devices
    → find? (λ (c : Device). c.id == d.id) t.devices ≡ some d
    → is_rack_placement_available t d after.rack_id after.rack_unit after.rack_face ≡ true
    → (check ≡ false) ⊎ ((device_position d ≡ before) ⊎ (device_position d ≡ after))
    → (t' : Topology) × (apply_placements check t (move_device d.id before after ∷ []) ≡ ok t')
      × Apart t'.devices
apply_placements-Apart check t d before after u a found free stays = (
  record t { devices = update_device d.id (assign_device after) t.devices },
  apply_placements-single check t d before after found stays,
  Apart-update_device after d t.devices u a
      (available-Fits t d after.rack_id after.rack_unit after.rack_face free).free found,
)
