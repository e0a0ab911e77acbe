-- ===== src/Document.antt =====
-- Equality of documents and the changes that cabling mode allows: `sameDocument` and
-- `connectionChangesOnly` of web/static/js/editor-lock.js. The canonical JSON text of a value is
-- equal to another's exactly when the values are equal, so equality of records stands for it.
pub mod Cabling
use native.Mathlib.Decide.{ℕ_discrete}
use wiredraft.Prelude.{
  ℕ, String, Bool, true, false, ◌≡◌, refl, ◌↔◌, List, [], ◌∷◌, ◌++◌, map, Option, none, some, ◌==◌,
  ◌!=◌, Eq, string_eq, if◌then◌else◌, str_iff, arith, Bool-cases, inl, inr, contains, add_all,
  find?,
}
use wiredraft.Prelude.Int.{ℤ}
use wiredraft.Topology.{Topology, Port, Device, Link}

pub String-discrete : Discrete String
String-discrete a b = elim (Bool-cases (a == b)) [
  | inl e ↦ yes ((str_iff a b).0 e)
  | inr e ↦ no (λ p. ground (arith, str_iff a b))
]

pub Link-discrete : Discrete Link
Link-discrete = hlevel (String-discrete, ℕ_discrete)

pub Topology-discrete : Discrete Topology
Topology-discrete = hlevel (String-discrete, ℕ_discrete)

-- `documentContent`: the document without its revision and its time of change.
unfoldable pub document_content : Topology → Topology
document_content t = record t { revision = 0; updated_at = "" }

unfoldable pub same_document : Topology → Topology → Bool
unfolding Topology-discrete String-discrete document_content
same_document before after =
    elim (Topology-discrete (document_content before) (document_content after)) [
      | yes _ ↦ true
      | no _ ↦ false
    ]

same_link : Option Link → Option Link → Bool
unfolding Link-discrete
same_link none none = true
same_link (some a) (some b) = elim (Link-discrete a b) [ yes _ ↦ true | no _ ↦ false ]
same_link _ _ = false

-- `new Map(links.map((link) => [link.id, link])).get(id)`: a later link replaces an earlier one.
unfoldable pub link_by_id : List Link → String → Option Link
link_by_id [] id = none
link_by_id (link ∷ links) id = elim (link_by_id links id) [
  | some later ↦ some later
  | none ↦ if link.id == id then some link else none
]

abbrev pub link_ids_of : List Link → List String
link_ids_of = map (λ (link : Link). link.id)

endpoints_of : Option Link → List String
endpoints_of none = []
endpoints_of (some link) = link.source_port_id ∷ link.target_port_id ∷ []

changed_by : List Link → List Link → List String → List String
unfolding same_link endpoints_of
changed_by before after [] = []
changed_by before after (id ∷ ids) =
    let previous = link_by_id before id in
    let next = link_by_id after id in
    let rest = changed_by before after ids in
    if same_link previous next then rest else endpoints_of previous ++ endpoints_of next ++ rest

-- The ports at the ends of the links that differ, as the members of the set `changedPorts`.
changed_ports : List Link → List Link → List String
unfolding changed_by
changed_ports before after =
    changed_by before after (add_all (add_all [] (link_ids_of before)) (link_ids_of after))

-- A port without its VLAN profile, which the source takes out of the object.
abbrev pub physical_port : Port → Port
physical_port port = record port { mode = ""; native_vlan = 0; allowed_vlans = [] }

pub strip_port : List String → Port → Port
strip_port changed port = if contains changed port.id then physical_port port else port

pub strip_device : List String → Device → Device
strip_device changed device = record device { ports = map (strip_port changed) device.ports }

equipment : List String → Topology → Topology
unfolding strip_port strip_device
equipment changed t = record t {
  devices = map (strip_device changed) t.devices;
  links = [];
  link_groups = [];
}

unfoldable pub connection_changes_only : Topology → Topology → Bool
unfolding changed_ports equipment
connection_changes_only before after =
    let changed = changed_ports before.links after.links in
    if before.id != after.id
    then false
    else same_document (equipment changed before) (equipment changed after)

pub same_document_iff :
    (a b : Topology) → (same_document a b ≡ true) ↔ (document_content a ≡ document_content b)
unfolding same_document
same_document_iff a b =
    elim (Topology-discrete (document_content a) (document_content b))
      as (λ d.
        (elim d as (λ _. Bool) [ yes _ ↦ true | no _ ↦ false ] ≡ true)
        ↔ (document_content a ≡ document_content b)) [
          | yes p ↦ ((λ _. p), (λ _. refl))
          | no n ↦ ((λ e. cc), (λ p. absurd (n p)))
        ]
