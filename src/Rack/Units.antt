-- ===== src/Rack/Units.antt =====
-- `usedRackUnits` of web/static/js/rack.js: the units of a rack that equipment takes. An absent
-- face is the empty text.
use wiredraft.Prelude.{
  ℕ, zero, suc, String, Bool, true, false, ◌&&◌, ◌||◌, not, List, [], ◌∷◌, ◌≡◌, refl, ◌+◌, ◌==◌,
  string_eq, nat_eq, if◌then◌else◌, is_empty, ltb, leb, any, contains, add_all, length, IsDistinct,
  add_all-IsDistinct, contains-add_all, Bool-cases, inl, inr, arith,
}
use wiredraft.Topology.{Topology, Device}
use wiredraft.Rack.{normalize_rack_face, units_of}

-- The units from the first one on.
unfoldable pub unit_range : ℕ → ℕ → List ℕ
unit_range first zero = []
unit_range first (suc n) = first ∷ unit_range (suc first) n

-- The device is mounted in the rack, on the given face if there is one.
abbrev pub is_counted : String → String → Device → Bool
is_counted rack_id rack_face d =
    d.rack_id == rack_id
    && not (ltb d.rack_unit 1)
    && (is_empty rack_face || normalize_rack_face d.rack_face == normalize_rack_face rack_face)

unfoldable pub add_units : String → String → List Device → List ℕ → List ℕ
unfolding unit_range
add_units rack_id rack_face [] units = units
add_units rack_id rack_face (d ∷ ds) units =
    let skipped = add_units rack_id rack_face ds units in
    let added =
      add_units rack_id rack_face ds (add_all units (unit_range d.rack_unit (units_of d))) in
    if is_counted rack_id rack_face d then added else skipped

unfoldable pub used_rack_units : Topology → String → String → ℕ
unfolding add_units
used_rack_units t rack_id rack_face = length (add_units rack_id rack_face t.devices [])

-- The device is counted and takes the unit.
abbrev pub takes : String → String → ℕ → Device → Bool
takes rack_id rack_face unit d =
    is_counted rack_id rack_face d && (leb d.rack_unit unit && ltb unit (d.rack_unit + units_of d))

contains-unit_range :
    (first n u : ℕ) → contains (unit_range first n) u ≡ (leb first u && ltb u (first + n))
unfolding unit_range
contains-unit_range first zero u = ground arith
contains-unit_range first (suc n) u = ground (arith, contains-unit_range (suc first) n u)

or_first : (a b c : Bool) → ((a || b) || c) ≡ (a || (if b then true else c))
or_first true b c = refl
or_first false true c = refl
or_first false false c = refl

contains-add_units :
    (rack_id rack_face : String) (ds : List Device) (units : List ℕ) (u : ℕ)
    → contains (add_units rack_id rack_face ds units) u
      ≡ (contains units u || any (takes rack_id rack_face u) ds)
unfolding add_units
contains-add_units rack_id rack_face [] units u = ground arith
contains-add_units rack_id rack_face (d ∷ ds) units u =
    elim (Bool-cases (is_counted rack_id rack_face d)) [
      | inl e ↦
          rw
            (
              e,
              contains-add_units rack_id rack_face ds
                  (add_all units (unit_range d.rack_unit (units_of d))) u,
              contains-add_all units (unit_range d.rack_unit (units_of d)) u,
              contains-unit_range d.rack_unit (units_of d) u,
            )
            (or_first (contains units u) (leb d.rack_unit u && ltb u (d.rack_unit + units_of d))
              (any (takes rack_id rack_face u) ds))
      | inr e ↦ rw e (contains-add_units rack_id rack_face ds units u)
    ]

add_units-IsDistinct :
    (rack_id rack_face : String) (ds : List Device) (units : List ℕ)
    → IsDistinct units
    → IsDistinct (add_units rack_id rack_face ds units)
unfolding add_units
add_units-IsDistinct rack_id rack_face [] units h = h
add_units-IsDistinct rack_id rack_face (d ∷ ds) units h =
    elim (Bool-cases (is_counted rack_id rack_face d)) [
      | inl e ↦ rw e (
          add_units-IsDistinct rack_id rack_face ds
            (add_all units (unit_range d.rack_unit (units_of d)))
            (add_all-IsDistinct units (unit_range d.rack_unit (units_of d)) h))
      | inr e ↦ rw e (add_units-IsDistinct rack_id rack_face ds units h)
    ]

-- `usedRackUnits` is the size of a set without repetition that holds exactly the units that some
-- mounted device of the rack, and of the face if one is given, takes: units that two devices share
-- count once.
pub used_rack_units_lem :
    (t : Topology) (rack_id rack_face : String)
    → (units : List ℕ) × (used_rack_units t rack_id rack_face ≡ length units)
      × IsDistinct units
      × ((u : ℕ) → contains units u ≡ any (takes rack_id rack_face u) t.devices)
unfolding used_rack_units
used_rack_units_lem t rack_id rack_face = (
  add_units rack_id rack_face t.devices [],
  refl,
  add_units-IsDistinct rack_id rack_face t.devices [] tt,
  contains-add_units rack_id rack_face t.devices [],
)
