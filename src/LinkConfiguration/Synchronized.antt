-- ===== src/LinkConfiguration/Synchronized.antt =====
-- When a link, its two ports and a configuration agree.
use wiredraft.Prelude.{
  ℕ, Bool, true, false, ◌&&◌, not, List, ◌∷◌, some, none, ◌≡◌, refl, sym, ap, ◌∙◌, ◌==◌, ◌↔◌,
  string_eq, nat_eq, arith, str_iff, nat_beq_iff,
}
use wiredraft.Topology.{Link, Port}
use wiredraft.LinkConfiguration.{
  Profile, sorted_set, normalize_link_configuration, configurable_mode, same_vlans, port_profile,
  endpoint_matches, is_physical_only_port, is_link_synchronized, is_link_configuration_synchronized,
}
use wiredraft.LinkConfiguration.Profiles.{same_list_iff, sorted_set_id, tagged_vlans-IsAbove}

same_vlans_iff : (a b : List ℕ) → (same_vlans a b ≡ true) ↔ (sorted_set a ≡ sorted_set b)
unfolding same_vlans
same_vlans_iff a b = same_list_iff (sorted_set a) (sorted_set b)

-- The VLANs of a normal profile are sorted.
sorted_normal :
    (p : Profile)
    → sorted_set (normalize_link_configuration p).allowed_vlans
      ≡ (normalize_link_configuration p).allowed_vlans
unfolding normalize_link_configuration
sorted_normal p =
    sorted_set_id _ (tagged_vlans-IsAbove (configurable_mode p.mode) p.native_vlan p.allowed_vlans)

same_profile :
    (a b : Profile)
    → a.mode ≡ b.mode
    → a.native_vlan ≡ b.native_vlan
    → a.allowed_vlans ≡ b.allowed_vlans
    → a ≡ b
same_profile a b m n v = cc (m, n, v)

endpoint_matches_iff :
    (c : Profile) (port : Port)
    → (endpoint_matches (normalize_link_configuration c) port ≡ true)
      ↔ (normalize_link_configuration (port_profile port) ≡ normalize_link_configuration c)
unfolding endpoint_matches
endpoint_matches_iff c port =
    let a = normalize_link_configuration (port_profile port) in
    let n = normalize_link_configuration c in
    (
      λ h. same_profile a n (ground (arith, h, str_iff a.mode n.mode)) (ground (arith, h)) (
          sym (sorted_normal (port_profile port))
          ∙ (same_vlans_iff a.allowed_vlans n.allowed_vlans).0 (ground (arith, h))
          ∙ sorted_normal c),
      λ e. ground (
        arith,
        str_iff a.mode n.mode,
        ap (λ (p : Profile). p.mode) e,
        ap (λ (p : Profile). p.native_vlan) e,
        (same_vlans_iff a.allowed_vlans n.allowed_vlans).1
            (ap (λ (p : Profile). sorted_set p.allowed_vlans) e),
      ),
    )

-- A conjunction of six tests, the first two negated.
six_tests :
    (a b s t p v : Bool)
    → ((not a && not b && s && t && p && v) ≡ true)
      ↔ ((a ≡ false) × (b ≡ false) × (s ≡ true) × (t ≡ true) × (p ≡ true) × (v ≡ true))
six_tests a b s t p v = ground arith

-- The four values are synchronized exactly if neither port is physical-only, both ports have the
-- normal form of the configuration, the link's primary VLAN is its native one, and the link carries
-- the same set of VLANs as it. Without the link, a port or the configuration they are not.
pub is_link_configuration_synchronized_iff :
    (link : Link) (source target : Port) (c : Profile)
    → let n = normalize_link_configuration c in
      ((is_link_configuration_synchronized (some link) (some source) (some target) (some c) ≡ true)
        ↔ ((is_physical_only_port (some source) ≡ false)
            × (is_physical_only_port (some target) ≡ false)
            × (normalize_link_configuration (port_profile source) ≡ n)
            × (normalize_link_configuration (port_profile target) ≡ n)
            × (link.primary_vlan ≡ n.native_vlan)
            × (sorted_set link.vlan_ids ≡ sorted_set (n.native_vlan ∷ n.allowed_vlans))))
      × (is_link_configuration_synchronized (some link) (some source) none (some c) ≡ false)
unfolding is_link_configuration_synchronized is_link_synchronized
is_link_configuration_synchronized_iff link source target c =
    let n = normalize_link_configuration c in
    let s = endpoint_matches_iff c source in
    let t = endpoint_matches_iff c target in
    let v = same_vlans_iff link.vlan_ids (n.native_vlan ∷ n.allowed_vlans) in
    let p = nat_beq_iff link.primary_vlan n.native_vlan in
    let six =
      six_tests (is_physical_only_port (some source)) (is_physical_only_port (some target))
        (endpoint_matches n source) (endpoint_matches n target) (link.primary_vlan == n.native_vlan)
        (same_vlans link.vlan_ids (n.native_vlan ∷ n.allowed_vlans)) in
    (
      (
        λ h. let (ps, pt, es, et, e, ev) = six.0 h in (ps, pt, s.0 es, t.0 et, p.0 e, v.0 ev),
        λ (ps, pt, es, et, e, ev). six.1 (ps, pt, s.1 es, t.1 et, p.1 e, v.1 ev),
      ),
      refl,
    )
