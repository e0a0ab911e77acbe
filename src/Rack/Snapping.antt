-- ===== src/Rack/Snapping.antt =====
-- Where a drop lands: `findLanding`, on every branch and at the slots of a rack.
use wiredraft.Prelude.{
  ℕ, true, false, List, [], ◌∷◌, some, ◌+◌, ◌-◌, ◌*◌, ◌≤◌, ◌≡◌, refl, ap, ◌∙◌, subst, arith, ltb,
  if◌then◌else◌, Bool-cases, inl, inr,
}
use wiredraft.Prelude.Int.{ℤ, pos, scale, ◌+ℤ◌, ◌-ℤ◌, int_laws, sub_ℕ-eq-pos, le→leb_ℤ}
use wiredraft.Topology.{Topology, Device, Rack}
use wiredraft.Rack.{Point, units_of, mounted_device_position}
use wiredraft.Rack.Landings.{Target, Landing, top_index_at, landing_on, is_inside, find_landing}
use wiredraft.Rack.Placement.{Fits, mounted_at, is_rack_placement_available_iff}

-- The offset of a slot's top edge rounds to its index.
top_index_at_slot : (m k : ℕ) → k ≤ m → top_index_at m (scale 100 (pos k)) ≡ k
unfolding top_index_at scale
top_index_at_slot m k h = ground arith

offset_cancel : (a b : ℤ) (c : ℤ) → a +ℤ b +ℤ c -ℤ (a +ℤ b) ≡ c
offset_cancel a b c = omega int_laws

-- The rack drawn where the target is.
abbrev pub drawn : Target → Rack
drawn target = record target.rack { position_x = target.x; position_y = target.y }

abbrev pub at_unit : Device → ℕ → Device
at_unit d u = record d { rack_unit = u }

mounted-inside :
    (d : Device) (target : Target) (u : ℕ)
    → 1 ≤ u
    → u + units_of d - 1 ≤ target.rack.height_u
    → 375 ≤ target.width
    → is_inside (mounted_device_position (drawn target) (at_unit d u)) (units_of d * 100) target
      ≡ true
unfolding is_inside mounted_device_position
mounted-inside d target u h k w =
    let top : ℕ = u + units_of d - 1 in
    rw (sub_ℕ-eq-pos target.rack.height_u (u + units_of d - 1) k) (
      ground (
        arith,
        le→leb_ℤ (scale 2 target.x) (scale 2 (target.x +ℤ pos 30) +ℤ pos 690) (omega int_laws),
        le→leb_ℤ (scale 2 (target.x +ℤ pos 30) +ℤ pos 690) (scale 2 (target.x +ℤ pos target.width))
            (omega int_laws),
        le→leb_ℤ (scale 2 (target.y +ℤ pos 64))
            (scale 2 (target.y +ℤ pos 64 +ℤ scale 100 (pos (target.rack.height_u - top)))
              +ℤ pos (units_of d * 100))
            (omega int_laws),
        le→leb_ℤ
            (scale 2 (target.y +ℤ pos 64 +ℤ scale 100 (pos (target.rack.height_u - top)))
              +ℤ pos (units_of d * 100))
            (scale 2 (target.y +ℤ pos 64 +ℤ pos (target.rack.height_u * 100))) (omega int_laws),
      ))

landing_on-slot :
    (t : Topology) (d : Device) (target : Target) (u : ℕ)
    → 1 ≤ u
    → u + units_of d - 1 ≤ target.rack.height_u
    → (landing_on t d (mounted_device_position (drawn target) (at_unit d u)) target).rack_unit ≡ u
unfolding landing_on mounted_device_position
landing_on-slot t d target u h k =
    let bottom : ℕ = target.rack.height_u - (u + units_of d - 1) in
    rw
      (
        sub_ℕ-eq-pos target.rack.height_u (u + units_of d - 1) k,
        offset_cancel target.y (pos 64) (scale 100 (pos bottom)),
      )
      (ground (
        arith,
        top_index_at_slot (target.rack.height_u - units_of d)
            (target.rack.height_u - (u + units_of d - 1)) (omega arith),
      ))

landing_on-position :
    (t : Topology) (d : Device) (p : Point) (target : Target)
    → units_of d ≤ target.rack.height_u
    → (landing_on t d p target).position
      ≡ mounted_device_position (drawn target) (at_unit d (landing_on t d p target).rack_unit)
unfolding landing_on
landing_on-position t d p target h = ground arith

-- A body that is dropped exactly where a rack draws it at unit u lands on unit u, at that position:
-- `findLanding` inverts `mountedDevicePosition`. The first target has to be at least 375 wide, and
-- the device's units have to lie within its rack.
pub find_landing-mounted_device_position :
    (t : Topology) (d : Device) (target : Target) (targets : List Target) (u : ℕ)
    → 1 ≤ u
    → u + units_of d - 1 ≤ target.rack.height_u
    → 375 ≤ target.width
    → (l : Landing) × (find_landing t d
          (mounted_device_position (drawn target) (at_unit d u))
          (target ∷ targets)
          0
        ≡ some l)
      × (l.rack_unit ≡ u)
      × (l.position ≡ mounted_device_position (drawn target) (at_unit d u))
unfolding find_landing
find_landing-mounted_device_position t d target targets u h k w = (
  landing_on t d (mounted_device_position (drawn target) (at_unit d u)) target,
  rw (mounted-inside d target u h k w),
  landing_on-slot t d target u h k,
  landing_on-position t d _ target (omega arith)
      ∙ ap (λ v. mounted_device_position (drawn target) (at_unit d v))
          (landing_on-slot t d target u h k),
)

-- What a landing tells its caller, on every branch.
pub record IsSound (t : Topology) (d : Device) (l : Landing) : Type 0 where
  pub valid : l.is_valid ≡ true → Fits t (mounted_at d l.rack.id l.rack_unit l.rack_face)
  pub occupied :
      units_of d ≤ l.rack.height_u
      → l.is_valid ≡ false
      → ¬ Fits t (mounted_at d l.rack.id l.rack_unit l.rack_face)
  pub in_range :
      units_of d ≤ l.rack.height_u
      → (1 ≤ l.rack_unit) × (l.rack_unit + units_of d - 1 ≤ l.rack.height_u)
  pub too_tall : l.rack.height_u + 1 ≤ units_of d → l.reason ≡ "capacity"

top_index_at-le : (m : ℕ) (offset : ℤ) → top_index_at m offset ≤ m
unfolding top_index_at
top_index_at-le m offset = omega arith

landing_on-IsSound :
    (t : Topology) (d : Device) (p : Point) (target : Target)
    → IsSound t d (landing_on t d p target)
unfolding landing_on
landing_on-IsSound t d p target = elim (Bool-cases (ltb target.rack.height_u (units_of d))) [
  | inl tall ↦
      rw (tall, landing_on)
        (record {
          valid = λ v. cc;
          occupied = λ k. absurd (ground arith);
          in_range = λ k. absurd (ground arith);
          too_tall = λ k. refl;
        })
  | inr short ↦
      let top = top_index_at (target.rack.height_u - units_of d) (p.y -ℤ (target.y +ℤ pos 64)) in
      let fits =
        is_rack_placement_available_iff t d target.rack.id
          (target.rack.height_u - units_of d - top + 1) target.rack_face in
      rw (short, landing_on)
        (record {
          valid = fits.0;
          occupied = λ k v f. cc (fits.1 f);
          in_range = λ k. omega (arith, top_index_at-le (target.rack.height_u - units_of d));
          too_tall = λ k. absurd (ground arith);
        })
]

-- Every landing is sound: it is valid exactly when the placement fits the rack and the devices
-- mounted there, its units lie within the rack wherever the device is not taller than the rack, and
-- a device that is taller is refused for the rack's capacity.
pub find_landing-IsSound :
    (t : Topology) (d : Device) (p : Point) (targets : List Target) (height : ℕ) {l : Landing}
    → find_landing t d p targets height ≡ some l
    → IsSound t d l
unfolding find_landing
find_landing-IsSound t d p [] height h = absurd (ground arith)
find_landing-IsSound t d p (target ∷ targets) height {l} h =
    elim (Bool-cases (is_inside p (if ltb 0 height then height else units_of d * 100) target)) [
      | inl here ↦ subst (IsSound t d) (ground arith) (landing_on-IsSound t d p target)
      | inr there ↦ find_landing-IsSound t d p targets height (ground arith)
    ]
