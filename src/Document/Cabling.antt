-- ===== src/Document/Cabling.antt =====
-- What a change that cabling mode allows can touch.
use wiredraft.Prelude.{
  String, true, ◌≡◌, refl, sym, ap, ◌∙◌, List, [], ◌∷◌, ◌++◌, map, string_eq, arith, Bool-cases,
  inl, inr, contains, contains-append, str_iff,
}
use wiredraft.Topology.{Topology, Port, Device, Link}
use wiredraft.Document.{
  document_content, same_document_iff, link_by_id, endpoints_of, changed_by, changed_ports,
  strip_port, strip_device, equipment, connection_changes_only,
}

-- The ports that the links end at.
abbrev pub link_ports : List Link → List String
link_ports [] = []
link_ports (link ∷ links) = link.source_port_id ∷ link.target_port_id ∷ link_ports links

link_by_id-link_ports :
    (links : List Link) (id p : String)
    → contains (endpoints_of (link_by_id links id)) p ≡ true
    → contains (link_ports links) p ≡ true
unfolding link_by_id endpoints_of
link_by_id-link_ports [] id p h = h
link_by_id-link_ports (link ∷ links) id p h = ground (arith, link_by_id-link_ports links id p)

changed_by-link_ports :
    (b a : List Link) (ids : List String) (p : String)
    → contains (changed_by b a ids) p ≡ true
    → contains (link_ports b ++ link_ports a) p ≡ true
unfolding changed_by
changed_by-link_ports b a [] p h = absurd (ground arith)
changed_by-link_ports b a (id ∷ ids) p h = ground (
  arith,
  changed_by-link_ports b a ids p,
  contains-append (link_ports b) (link_ports a) p,
  contains-append (endpoints_of (link_by_id b id))
      (endpoints_of (link_by_id a id) ++ changed_by b a ids) p,
  contains-append (endpoints_of (link_by_id a id)) (changed_by b a ids) p,
  link_by_id-link_ports b id p,
  link_by_id-link_ports a id p,
)

module _ (wide narrow : List String)
    (within : (p : String) → contains narrow p ≡ true → contains wide p ≡ true) where
  strip_port-strip_port :
      (port : Port) → strip_port wide (strip_port narrow port) ≡ strip_port wide port
  unfolding strip_port
  strip_port-strip_port port = elim (Bool-cases (contains narrow port.id)) [
    | inl e ↦ rw (e, strip_port) (rw (within port.id e) refl)
    | inr e ↦ rw (e, strip_port)
  ]

  strip_ports-strip_ports :
      (ports : List Port)
      → map (strip_port wide) (map (strip_port narrow) ports) ≡ map (strip_port wide) ports
  strip_ports-strip_ports [] = refl
  strip_ports-strip_ports (port ∷ ports) =
      cc (strip_port-strip_port port, strip_ports-strip_ports ports)

  strip_devices-strip_devices :
      (devices : List Device)
      → map (strip_device wide) (map (strip_device narrow) devices)
        ≡ map (strip_device wide) devices
  unfolding strip_device
  strip_devices-strip_devices [] = refl
  strip_devices-strip_devices (d ∷ ds) =
      cc (strip_ports-strip_ports d.ports, strip_devices-strip_devices ds)

-- The two documents differ in nothing but links, link groups, and the VLAN profiles of ports that a
-- link of one of them ends at.
pub record OnlyConnections (before after : Topology) : Type 0 where
  pub id : before.id ≡ after.id
  pub name : before.name ≡ after.name
  pub racks : before.racks ≡ after.racks
  pub rooms : before.rooms ≡ after.rooms
  pub switch_systems : before.switch_systems ≡ after.switch_systems
  pub firewall_clusters : before.firewall_clusters ≡ after.firewall_clusters
  pub vlans : before.vlans ≡ after.vlans
  pub annotations : before.annotations ≡ after.annotations
  pub other : before.other ≡ after.other
  pub devices :
      map (strip_device (link_ports before.links ++ link_ports after.links)) before.devices
      ≡ map (strip_device (link_ports before.links ++ link_ports after.links)) after.devices

-- A change that `connectionChangesOnly` accepts leaves racks, rooms, VLANs, groups of devices and
-- every device with its place and name as they are; of the ports, only those that a link of the
-- document before or after ends at may have another VLAN profile, and nothing else changes in them.
pub connection_changes_only-OnlyConnections :
    (before after : Topology)
    → connection_changes_only before after ≡ true
    → OnlyConnections before after
unfolding connection_changes_only changed_ports document_content
connection_changes_only-OnlyConnections before after h = record {
  id = ground (arith, str_iff before.id after.id);
  name = ap (λ (t : Topology). t.name) same;
  racks = ap (λ (t : Topology). t.racks) same;
  rooms = ap (λ (t : Topology). t.rooms) same;
  switch_systems = ap (λ (t : Topology). t.switch_systems) same;
  firewall_clusters = ap (λ (t : Topology). t.firewall_clusters) same;
  vlans = ap (λ (t : Topology). t.vlans) same;
  annotations = ap (λ (t : Topology). t.annotations) same;
  other = ap (λ (t : Topology). t.other) same;
  devices =
      sym (strip_devices-strip_devices wide changed within before.devices)
      ∙ ap (λ (t : Topology). map (strip_device wide) t.devices) same
      ∙ strip_devices-strip_devices wide changed within after.devices;
}
  where
    wide : List String
    wide = link_ports before.links ++ link_ports after.links

    changed : List String
    changed = changed_ports before.links after.links

    within : (p : String) → contains changed p ≡ true → contains wide p ≡ true
    within p k = changed_by-link_ports before.links after.links _ p k

    same : document_content (equipment changed before) ≡ document_content (equipment changed after)
    same = (same_document_iff (equipment changed before) (equipment changed after)).0 (ground arith)
