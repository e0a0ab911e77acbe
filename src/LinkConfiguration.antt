-- ===== src/LinkConfiguration.antt =====
-- The VLAN profile of a link and its two ports: web/static/js/link-configuration.js. Numbers of the
-- document are natural, and an absent one is 0; a map from ids is a list in which the last entry of
-- an id counts.
pub mod Profiles
pub mod Synchronized
use wiredraft.Prelude.{
  ℕ, String, Bool, true, false, ◌&&◌, ◌||◌, not, List, [], ◌∷◌, ◌++◌, map, Option, none, some, ◌==◌,
  ◌!=◌, Eq, string_eq, nat_eq, ltb, leb, if◌then◌else◌, is_empty, or_number, filter, find?, any,
  all, contains, add, add_all, unique, length, sort,
}
use wiredraft.Topology.{Topology, Device, Link, LinkGroup, Port, Vlan}

pub record Profile : Type 0 where
  pub mode : String
  pub native_vlan : ℕ
  pub allowed_vlans : List ℕ

abbrev pub configurable_modes : List String
configurable_modes = "Access" ∷ "Trunk" ∷ "Hybrid" ∷ []

abbrev pub physical_only_types : List String
physical_only_types = "SAS_MINI_HD_12G" ∷ "SAS_MINI_6G" ∷ "FC_SFP_16G" ∷ "Power" ∷ []

-- `undefined` is no physical-only port.
unfoldable pub is_physical_only_port : Option Port → Bool
is_physical_only_port none = false
is_physical_only_port (some port) = contains physical_only_types port.type

-- `new Map(items.map(item => [item.id, item])).get(id)`
unfoldable pub last_with {ℓ} : {A : Type ℓ} → (A → Bool) → List A → Option A
last_with p [] = none
last_with p (x ∷ xs) = elim (last_with p xs) [
  | none ↦ if p x then some x else none
  | some later ↦ some later
]

abbrev pub ports_of : List Device → List Port
ports_of [] = []
ports_of (device ∷ devices) = device.ports ++ ports_of devices

unfoldable pub port_by_id : Topology → String → Option Port
unfolding last_with
port_by_id t id = last_with (λ (port : Port). port.id == id) (ports_of t.devices)

unfoldable pub link_with_id : Topology → String → Option Link
unfolding last_with
link_with_id t id = last_with (λ (link : Link). link.id == id) t.links

-- The links with the ids, without those that are gone.
unfoldable pub links_with_ids : Topology → List String → List Link
unfolding link_with_id
links_with_ids t [] = []
links_with_ids t (id ∷ ids) =
    let rest = links_with_ids t ids in
    elim (link_with_id t id) [ none ↦ rest | some link ↦ link ∷ rest ]

-- The ids of the group's links, or the selected one where there is no group or an empty one.
abbrev pub scope_ids : Option LinkGroup → String → List String
scope_ids none selected = selected ∷ []
scope_ids (some group) selected = elim group.link_ids [ [] ↦ selected ∷ [] | id ∷ ids ↦ id ∷ ids ]

unfoldable pub link_configuration_scope : Topology → String → List Link
unfolding links_with_ids
link_configuration_scope t selected = links_with_ids t (
    scope_ids (find? (λ (group : LinkGroup). contains group.link_ids selected) t.link_groups)
      selected)

unfoldable pub is_physical_only_link_scope : Topology → String → Bool
unfolding link_configuration_scope port_by_id is_physical_only_port
is_physical_only_link_scope t selected =
    any
      (λ (link : Link).
        is_physical_only_port (port_by_id t link.source_port_id)
        || is_physical_only_port (port_by_id t link.target_port_id))
      (link_configuration_scope t selected)

-- `[...new Set(items)].sort((left, right) => left - right)`
unfoldable pub sorted_set : List ℕ → List ℕ
sorted_set items = sort leb (unique items)

unfoldable pub configurable_mode : String → String
configurable_mode mode = if contains configurable_modes mode then mode else "Access"

-- The tagged VLANs of a profile in a mode.
unfoldable pub tagged_vlans : String → ℕ → List ℕ → List ℕ
unfolding sorted_set
tagged_vlans mode native vlans =
    if mode == "Access" then [] else sorted_set (filter (λ v. ltb 0 v && v != native) vlans)

unfoldable pub normalize_link_configuration : Profile → Profile
unfolding configurable_mode tagged_vlans
normalize_link_configuration input = record {
  mode = configurable_mode input.mode;
  native_vlan = input.native_vlan;
  allowed_vlans = tagged_vlans (configurable_mode input.mode) input.native_vlan input.allowed_vlans;
}

abbrev pub port_profile : Port → Profile
port_profile port = record {
  mode = port.mode;
  native_vlan = port.native_vlan;
  allowed_vlans = port.allowed_vlans;
}

abbrev pub first_vlan : List Vlan → ℕ
first_vlan [] = 0
first_vlan (vlan ∷ vlans) = vlan.id

unfoldable pub default_link_configuration : Topology → Link → Port → Port → Option Profile
unfolding is_physical_only_port normalize_link_configuration
default_link_configuration t link source target =
    let native = or_number link.primary_vlan (
      or_number source.native_vlan
        (or_number target.native_vlan (or_number (first_vlan t.vlans) 1))) in
    let channels = filter (λ v. v != 0) link.vlan_ids in
    let agree = source.mode == target.mode && contains configurable_modes source.mode in
    let tagged = any (λ v. v != native) channels in
    let mode =
      if tagged
      then (if agree && source.mode != "Access" then source.mode else "Trunk")
      else if agree
      then source.mode
      else "Access" in
    if is_physical_only_port (some source) || is_physical_only_port (some target)
    then none
    else some (
        normalize_link_configuration (record {
          mode = mode;
          native_vlan = native;
          allowed_vlans = filter (λ v. v != native) channels;
        }))

pub same_list : List ℕ → List ℕ → Bool
same_list [] [] = true
same_list (x ∷ xs) (y ∷ ys) = let rest = same_list xs ys in x == y && rest
same_list _ _ = false

-- `sameVLANs`: the two arrays have the same length and agree at every index.
unfoldable pub same_vlans : List ℕ → List ℕ → Bool
unfolding same_list sorted_set
same_vlans left right = same_list (sorted_set left) (sorted_set right)

unfoldable pub endpoint_matches : Profile → Port → Bool
unfolding same_vlans normalize_link_configuration
endpoint_matches expected port =
    let actual = normalize_link_configuration (port_profile port) in
    actual.mode == expected.mode
    && actual.native_vlan == expected.native_vlan
    && same_vlans actual.allowed_vlans expected.allowed_vlans

-- The test where the link, both ports and a configuration are there.
unfoldable pub is_link_synchronized : Link → Port → Port → Profile → Bool
unfolding endpoint_matches normalize_link_configuration is_physical_only_port same_vlans
is_link_synchronized link source target configuration =
    let expected = normalize_link_configuration configuration in
    not (is_physical_only_port (some source))
    && not (is_physical_only_port (some target))
    && endpoint_matches expected source
    && endpoint_matches expected target
    && link.primary_vlan == expected.native_vlan
    && same_vlans link.vlan_ids (expected.native_vlan ∷ expected.allowed_vlans)

unfoldable pub is_link_configuration_synchronized :
    Option Link → Option Port → Option Port → Option Profile → Bool
unfolding is_link_synchronized
is_link_configuration_synchronized (some link) (some source) (some target) (some configuration) =
    is_link_synchronized link source target configuration
is_link_configuration_synchronized _ _ _ _ = false

unfoldable pub is_link_configuration_scope_synchronized : Topology → String → Option Profile → Bool
unfolding is_link_configuration_synchronized link_configuration_scope port_by_id
is_link_configuration_scope_synchronized t selected configuration =
    let links = link_configuration_scope t selected in
    ltb 0 (length links)
    && all
        (λ (link : Link).
          is_link_configuration_synchronized (some link) (port_by_id t link.source_port_id)
            (port_by_id t link.target_port_id) configuration)
        links
