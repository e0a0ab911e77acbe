-- ===== src/Rack/Faces.antt =====
-- Which racks have equipment on both sides, and which panel of a device is shown.
use mathlib.Core.Path.{fun_ext}
use mathlib.Core.Bool.{or-false}
use wiredraft.Prelude.{
  ℕ, String, Bool, true, false, ◌&&◌, ◌||◌, not, List, [], ◌∷◌, map, ◌≡◌, refl, ap, ◌⊎◌, ◌==◌,
  string_eq, nat_eq, is_empty, ltb, if◌then◌else◌, filter, any, arith, Bool-cases, inl, inr,
}
use wiredraft.Topology.{Topology, Device, Rack}
use wiredraft.Rack.{
  normalize_rack_face, opposite_rack_face, shows_both_rack_faces, installed_hardware_face,
  mark_device, mark_devices, racks_with_both_faces,
}

-- The device is on a rail of the rack, and shows a panel on the side.
abbrev on_rack : String → Device → Bool
on_rack rack_id d = not (is_empty d.rack_id) && ltb 0 d.rack_unit && d.rack_id == rack_id

abbrev shows_front : String → Device → Bool
shows_front rack_id d =
    on_rack rack_id d && (shows_both_rack_faces d || normalize_rack_face d.rack_face == "front")

abbrev shows_rear : String → Device → Bool
shows_rear rack_id d =
    on_rack rack_id d
    && (shows_both_rack_faces d || not (normalize_rack_face d.rack_face == "front"))

-- The two bits of a mask.
abbrev mask_of : Bool → Bool → ℕ
mask_of false false = 0
mask_of true false = 1
mask_of false true = 2
mask_of true true = 3

mark_device-mask :
    (faces : String → ℕ) (d : Device) (rack_id : String) (a b : Bool)
    → faces rack_id ≡ mask_of a b
    → mark_device faces d rack_id ≡ mask_of (a || shows_front rack_id d) (b || shows_rear rack_id d)
unfolding mark_device
mark_device-mask faces d rack_id true true h = ground arith
mark_device-mask faces d rack_id true false h = ground arith
mark_device-mask faces d rack_id false _ h = ground arith

or_if : (a p rest : Bool) → ((a || p) || rest) ≡ (a || (if p then true else rest))
or_if true p rest = refl
or_if false true rest = refl
or_if false false rest = refl

mark_devices-mask :
    (faces : String → ℕ) (ds : List Device) (rack_id : String) (a b : Bool)
    → faces rack_id ≡ mask_of a b
    → mark_devices faces ds rack_id
      ≡ mask_of (a || any (shows_front rack_id) ds) (b || any (shows_rear rack_id) ds)
unfolding mark_devices
mark_devices-mask faces [] rack_id a b h = rw (or-false a, or-false b) h
mark_devices-mask faces (d ∷ ds) rack_id a b h =
    rw
      (
        ← or_if a (shows_front rack_id d) (any (shows_front rack_id) ds),
        ← or_if b (shows_rear rack_id d) (any (shows_rear rack_id) ds),
      )
      (mark_devices-mask (mark_device faces d) ds rack_id (a || shows_front rack_id d)
        (b || shows_rear rack_id d) (mark_device-mask faces d rack_id a b h))

-- Equipment of the rack shows a front panel, and equipment of it shows a rear panel.
abbrev pub has_both_faces : Topology → Rack → Bool
has_both_faces t rack = any (shows_front rack.id) t.devices && any (shows_rear rack.id) t.devices

mask_of-full : (a b : Bool) → (mask_of a b == 3) ≡ (a && b)
mask_of-full true true = refl
mask_of-full true false = refl
mask_of-full false true = refl
mask_of-full false false = refl

-- `racksWithBothFaces` gives the ids of exactly the racks, in the topology's order, on which some
-- mounted device shows a front panel and some mounted device shows a rear panel.
pub racks_with_both_faces_lem :
    (t : Topology)
    → racks_with_both_faces t ≡ map (λ (rack : Rack). rack.id) (filter (has_both_faces t) t.racks)
unfolding racks_with_both_faces
racks_with_both_faces_lem t =
    ap (λ (p : Rack → Bool). map (λ (rack : Rack). rack.id) (filter p t.racks))
      (fun_ext λ (rack : Rack).
        rw (mark_devices-mask (λ _. 0) t.devices rack.id false false refl)
          (mask_of-full (any (shows_front rack.id) t.devices) (any (shows_rear rack.id) t.devices)))

face_cases :
    (face : String)
    → ((normalize_rack_face face ≡ "rear") × (opposite_rack_face face ≡ "front"))
      ⊎ ((normalize_rack_face face ≡ "front") × (opposite_rack_face face ≡ "rear"))
unfolding opposite_rack_face
face_cases face = elim (Bool-cases (face == "rear")) [
  | inl e ↦
      inl (rw (e, normalize_rack_face) refl, rw (e, normalize_rack_face, opposite_rack_face) refl)
  | inr e ↦
      inr (rw (e, normalize_rack_face) refl, rw (e, normalize_rack_face, opposite_rack_face) refl)
]

-- Reversing a device swaps the panel that each side shows, and turning a side over twice gives its
-- normal form back, where once gives the other face.
pub installed_hardware_face-reversed :
    (d : Device) (face : String)
    → (installed_hardware_face (record d { rack_reversed = true }) face
        ≡ opposite_rack_face (installed_hardware_face (record d { rack_reversed = false }) face))
      × (opposite_rack_face (opposite_rack_face face) ≡ normalize_rack_face face)
      × ((opposite_rack_face face == normalize_rack_face face) ≡ false)
unfolding installed_hardware_face
installed_hardware_face-reversed d face = elim (face_cases face) [
  | inl (n, _) ↦ rw n (refl, refl, refl)
  | inr (n, _) ↦ rw n (refl, refl, refl)
]
