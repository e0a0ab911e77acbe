-- ===== src/Systems.antt =====
-- Switch systems and firewall clusters: web/static/js/switch-systems.js and
-- web/static/js/firewall-clusters.js. What a form submits is `SystemInput`, in which an absent
-- value is empty.
pub mod Clusters
pub mod Counting
use wiredraft.Prelude.{
  ℕ, String, Bool, true, false, ◌&&◌, ◌||◌, not, List, [], ◌∷◌, map, Option, none, some, ◌+◌, ◌-◌,
  ◌==◌, ◌!=◌, Eq, string_eq, nat_eq, ltb, if◌then◌else◌, is_empty, filter, find?, contains, add,
  add_all, unique, length, trim, Result, ok, err,
}
use wiredraft.Topology.{Topology, Device, SwitchSystem, FirewallCluster}

pub record SystemInput : Type 0 where
  pub device_ids : List String
  pub name : String
  pub mode : String
  pub active_device_id : String
  pub notes : String

pub data SystemError : Type 0 where
  too_few_members : SystemError
  no_name : SystemError
  unsupported_mode : SystemError
  no_active_member : SystemError

abbrev pub switch_system_modes : List (String × String)
switch_system_modes =
    ("Stack", "Generic stack")
    ∷ ("VSF", "Aruba VSF")
    ∷ ("MCLAG", "Fortinet MC-LAG")
    ∷ ("StackWise", "Cisco StackWise")
    ∷ ("VSS", "Cisco VSS")
    ∷ ("VirtualChassis", "Juniper Virtual Chassis")
    ∷ ("IRF", "HPE / H3C IRF")
    ∷ ("Custom", "Custom logical system")
    ∷ []

abbrev pub firewall_cluster_modes : List (String × String)
firewall_cluster_modes =
    ("ActivePassive", "Active / passive") ∷ ("ActiveActive", "Active / active") ∷ []

label_of : List (String × String) → String → String → String
label_of [] fallback mode = if is_empty mode then fallback else mode
label_of ((value, label) ∷ labels) fallback mode =
    let rest = label_of labels fallback mode in if value == mode then label else rest

unfoldable pub switch_system_mode_label : String → String
unfolding label_of
switch_system_mode_label mode = label_of switch_system_modes "Logical system" mode

unfoldable pub firewall_cluster_mode_label : String → String
unfolding label_of
firewall_cluster_mode_label mode = label_of firewall_cluster_modes "Firewall cluster" mode

unfoldable pub switch_system_for_device : Topology → String → Option SwitchSystem
switch_system_for_device t device_id =
    find? (λ (system : SwitchSystem). contains system.device_ids device_id) t.switch_systems

unfoldable pub firewall_cluster_for_device : Topology → String → Option FirewallCluster
firewall_cluster_for_device t device_id =
    find? (λ (cluster : FirewallCluster). contains cluster.device_ids device_id) t.firewall_clusters

-- The members that are devices of the map.
unfoldable pub live_members : List String → List String → List String
live_members device_ids ids = filter (contains device_ids) (unique ids)

-- One loop of `logicalDeviceCount`: the devices grouped and the systems counted so far.
unfoldable pub group_members : List String → List (List String) → List String → ℕ → List String × ℕ
unfolding live_members
group_members device_ids [] grouped systems = (grouped, systems)
group_members device_ids (ids ∷ rest) grouped systems =
    let members = live_members device_ids ids in
    let skipped = group_members device_ids rest grouped systems in
    let joined = group_members device_ids rest (add_all grouped members) (systems + 1) in
    if ltb (length members) 2 then skipped else joined

abbrev pub device_ids_of : Topology → List String
device_ids_of t = unique (map (λ (device : Device). device.id) t.devices)

-- The device ids of the systems and then of the clusters.
abbrev pub systems_of : Topology → List (List String)
systems_of t = map (λ (system : SwitchSystem). system.device_ids) t.switch_systems

abbrev pub clusters_of : Topology → List (List String)
clusters_of t = map (λ (cluster : FirewallCluster). cluster.device_ids) t.firewall_clusters

unfoldable pub grouped_devices : Topology → List String × ℕ
unfolding group_members
grouped_devices t =
    let (grouped, systems) = group_members (device_ids_of t) (systems_of t) [] 0 in
    group_members (device_ids_of t) (clusters_of t) grouped systems

unfoldable pub logical_device_count : Topology → ℕ
unfolding grouped_devices
logical_device_count t =
    let (grouped, systems) = grouped_devices t in length t.devices - length grouped + systems

pub record Candidate {ℓ} (System : Type ℓ) : Type ℓ where
  pub device : Device
  pub membership : Option System
  pub available : Bool

-- `!membership || membership.id === editedSystemID`
abbrev pub is_available : Option String → String → Bool
is_available none edited = true
is_available (some id) edited = id == edited

abbrev pub map_option {ℓ κ} : {A : Type ℓ} {B : Type κ} → (A → B) → Option A → Option B
map_option f none = none
map_option f (some a) = some (f a)

unfoldable pub switch_system_candidates : Topology → String → List (Candidate SwitchSystem)
unfolding switch_system_for_device
switch_system_candidates t edited =
    map
      (λ (device : Device). record {
        device = device;
        membership = switch_system_for_device t device.id;
        available =
            is_available
              (map_option (λ (s : SwitchSystem). s.id) (switch_system_for_device t device.id))
              edited;
      })
      (filter (λ (device : Device). device.category == "Switch") t.devices)

unfoldable pub firewall_cluster_candidates : Topology → String → List (Candidate FirewallCluster)
unfolding firewall_cluster_for_device
firewall_cluster_candidates t edited =
    map
      (λ (device : Device). record {
        device = device;
        membership = firewall_cluster_for_device t device.id;
        available =
            is_available
              (map_option (λ (s : FirewallCluster). s.id) (firewall_cluster_for_device t device.id))
              edited;
      })
      (filter (λ (device : Device). device.category == "Firewall") t.devices)

abbrev pub has_mode : List (String × String) → String → Bool
has_mode modes mode = contains (map (λ (m : String × String). m.0) modes) mode

-- The id of the system that is edited, if any.
unfoldable pub build_switch_system :
    Option SwitchSystem → SystemInput → Result SystemError SwitchSystem
build_switch_system existing input =
    let device_ids = unique input.device_ids in
    let name = trim input.name in
    if ltb (length device_ids) 2
    then err too_few_members
    else if is_empty name
    then err no_name
    else if not (has_mode switch_system_modes input.mode)
    then err unsupported_mode
    else ok (record {
      id = elim existing [ none ↦ "" | some s ↦ s.id ];
      name = name;
      mode = input.mode;
      device_ids = device_ids;
      notes = trim input.notes;
    })

unfoldable pub firewall_cluster_role : FirewallCluster → String → String
firewall_cluster_role cluster device_id =
    if not (contains cluster.device_ids device_id)
    then ""
    else if cluster.mode == "ActiveActive"
    then "ACTIVE"
    else if cluster.active_device_id == device_id
    then "ACTIVE"
    else "PASSIVE"

abbrev pub active_of : SystemInput → String
active_of input = if input.mode == "ActivePassive" then input.active_device_id else ""

-- The object that `buildFirewallCluster` returns.
unfoldable pub built_cluster : Option FirewallCluster → SystemInput → FirewallCluster
built_cluster existing input = record {
  id = elim existing [ none ↦ "" | some c ↦ c.id ];
  name = trim input.name;
  mode = input.mode;
  device_ids = unique input.device_ids;
  active_device_id = active_of input;
  notes = trim input.notes;
}

unfoldable pub build_firewall_cluster :
    Option FirewallCluster → SystemInput → Result SystemError FirewallCluster
build_firewall_cluster existing input =
    if ltb (length (unique input.device_ids)) 2
    then err too_few_members
    else if is_empty (trim input.name)
    then err no_name
    else if not (has_mode firewall_cluster_modes input.mode)
    then err unsupported_mode
    else if input.mode == "ActivePassive"
        && not (contains (unique input.device_ids) (active_of input))
    then err no_active_member
    else ok (built_cluster existing input)

unfoldable pub switch_system_accent : String → String
switch_system_accent mode =
    if mode == "MCLAG" || mode == "VSS"
    then "#f0b35a"
    else if mode == "Custom"
    then "#a98dea"
    else "#42d9c8"

unfoldable pub firewall_cluster_accent : FirewallCluster → String → String
firewall_cluster_accent cluster device_id =
    if cluster.mode == "ActivePassive"
      && not (is_empty device_id)
      && cluster.active_device_id != device_id
    then "#f0b35a"
    else "#42d9c8"
