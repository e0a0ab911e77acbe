-- ===== src/Tests/SystemTests.antt =====
-- Systems and clusters, run.
use wiredraft.Prelude.{[], ◌∷◌, none, ◌≡◌, ◌⊎◌, string_eq, ok, err}
use wiredraft.Topology.{Topology, FirewallCluster}
use wiredraft.Systems.{SystemInput, SystemError, build_firewall_cluster}
use wiredraft.Systems.Clusters.{IsFaulty, IsBuilt, build_firewall_cluster-IsBuilt}
use wiredraft.Tests.Samples.{sample}

abbrev pair : SystemInput
pair = record {
  device_ids = "low" ∷ "high" ∷ "low" ∷ [];
  name = " edge ";
  mode = "ActivePassive";
  active_device_id = "high";
  notes = "";
}

build_firewall_cluster-IsBuilt_example :
    ((e : SystemError) × (build_firewall_cluster none pair ≡ err e) × IsFaulty pair e)
    ⊎ ((c : FirewallCluster) × (build_firewall_cluster none pair ≡ ok c) × IsBuilt pair c)
build_firewall_cluster-IsBuilt_example = build_firewall_cluster-IsBuilt none pair

-- Two of the three switches in a stack.
abbrev stacked : Topology
stacked = record sample {
  switch_systems =
      (record {
        id = "s";
        name = "CORE";
        mode = "Stack";
        device_ids = "low" ∷ "high" ∷ "gone" ∷ [];
        notes = "";
      })
      ∷ [];
}
