-- ===== src/Tests/LinkTests.antt =====
-- Profiles of links, run.
use wiredraft.Prelude.{
  ◌⊎◌, ok, err, ℕ, true, [], ◌∷◌, ◌≡◌, string_eq, nat_eq, ◌==◌, ◌!=◌, ◌&&◌, not, ltb, contains,
  IsAbove,
}
use wiredraft.Topology.{Topology, Link}
use wiredraft.LinkConfiguration.{Profile, configurable_modes, normalize_link_configuration}
use wiredraft.LinkConfiguration.Profiles.{normalize_link_configuration_lem}
use wiredraft.LinkGroups.{GroupInput, GroupError, GroupPlan, plan_link_group}
use wiredraft.LinkGroups.Plan.{IsPlan, IsRefused, plan_link_group-IsPlan}
use wiredraft.Tests.Samples.{sample, link}

abbrev trunk : Profile
trunk = record { mode = "Trunk"; native_vlan = 10; allowed_vlans = 30 ∷ 20 ∷ 0 ∷ 30 ∷ 10 ∷ [] }

normalize_link_configuration_lem_example :
    let n = normalize_link_configuration trunk in
    (normalize_link_configuration n ≡ n)
    × (contains configurable_modes n.mode ≡ true)
    × IsAbove 0 n.allowed_vlans
    × ((v : ℕ)
        → contains n.allowed_vlans v ≡ (
            not (n.mode == "Access")
            && (contains trunk.allowed_vlans v && (ltb 0 v && v != trunk.native_vlan))))
normalize_link_configuration_lem_example = normalize_link_configuration_lem trunk

abbrev cable : Link
cable = link "l1" "low" "high"

-- Two cables between the switches, bundled.
abbrev doubled : Topology
doubled = record sample { links = link "l1" "low" "high" ∷ link "l2" "high" "low" ∷ [] }

abbrev failover : GroupInput
failover = record { mode = "Failover"; name = ""; primary_link_id = "l2"; notes = "" }

plan_link_group-IsPlan_example :
    ((e : GroupError) × (plan_link_group doubled "l1" "l2" failover ≡ err e)
      × IsRefused doubled "l1" "l2" failover e)
    ⊎ ((p : GroupPlan) × (plan_link_group doubled "l1" "l2" failover ≡ ok p)
        × IsPlan doubled "l1" "l2" p)
plan_link_group-IsPlan_example = plan_link_group-IsPlan doubled "l1" "l2" failover
