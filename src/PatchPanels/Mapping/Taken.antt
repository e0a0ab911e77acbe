-- ===== src/PatchPanels/Mapping/Taken.antt =====
-- The rear sides that are taken, and the panels of the map.
use wiredraft.Prelude.{
  In, In-of_filter, find?-In, String, Bool, true, false, ◌&&◌, ◌||◌, List, [], ◌∷◌, some, ◌≡◌, refl,
  ◌==◌, string_eq, nat_eq, if◌then◌else◌, filter, any, Bool-cases, inl, inr, contains, All, arith,
  str_iff,
}
use wiredraft.Topology.{Topology, Device, Link}
use wiredraft.PatchPanels.{patch_panel_devices, side_of, link_occupies, panel_by_id}
use wiredraft.PatchPanels.Mapping.{rear_port_ids, is_nil}

contains-two :
    (source target id : String) (rest : List String) (on_source on_target occupied : Bool)
    → contains rest id ≡ occupied
    → contains
        (if on_source
          then source ∷ (if on_target then target ∷ rest else rest)
          else if on_target
          then target ∷ rest
          else rest)
        id
      ≡ (if (source == id && on_source) || (target == id && on_target) then true else occupied)
contains-two source target id rest true true occupied h = ground (arith, h)
contains-two source target id rest true false occupied h = ground (arith, h)
contains-two source target id rest false true occupied h = ground (arith, h)
contains-two source target id rest false false occupied h = ground (arith, h)

-- The ids that the two loops gather are those of the ports whose rear side is taken.
pub contains-rear_port_ids :
    (links : List Link) (id : String)
    → contains (rear_port_ids links) id ≡ any (link_occupies id "rear") links
unfolding rear_port_ids link_occupies
contains-rear_port_ids [] id = refl
contains-rear_port_ids (link ∷ links) id =
    contains-two link.source_port_id link.target_port_id id (rear_port_ids links)
      (side_of link.source_side == "rear") (side_of link.target_side == "rear")
      (any (link_occupies id "rear") links) (contains-rear_port_ids links id)

pub filter-is_nil :
    {A : Type 0} (f : A → Bool) (xs : List A)
    → is_nil (filter f xs) ≡ true
    → All (λ x. f x ≡ false) xs
filter-is_nil f [] h = tt
filter-is_nil f (x ∷ xs) h = elim (Bool-cases (f x)) [
  | inl e ↦ absurd (ground arith)
  | inr e ↦ (e, filter-is_nil f xs (ground arith))
]

-- What `panel_by_id` finds is a patch panel of the map.
pub installed :
    (t : Topology) (id : String) {panel : Device}
    → panel_by_id t id ≡ some panel
    → In panel t.devices × (panel.category ≡ "PatchPanel")
unfolding panel_by_id patch_panel_devices
installed t id {panel} found =
    let (listed, category) =
      In-of_filter (λ (device : Device). device.category == "PatchPanel") panel t.devices
        (find?-In (λ (device : Device). device.id == id) (patch_panel_devices t) found) in
    (listed, (str_iff panel.category "PatchPanel").0 category)
