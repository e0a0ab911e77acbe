-- ===== src/Systems/Clusters.antt =====
-- What a firewall cluster that the form accepts looks like.
use wiredraft.Prelude.{
  String, true, false, ◌&&◌, not, Option, ◌≤◌, ◌<◌, ◌≡◌, refl, ◌==◌, string_eq, nat_eq, ltb,
  if◌then◌else◌, is_empty, contains, unique, length, trim, ◌⊎◌, inl, inr, ok, err, IsDistinct,
  unique-IsDistinct, contains-unique, Bool-cases, arith, str_iff,
}
use wiredraft.Topology.{FirewallCluster}
use wiredraft.Systems.{
  SystemInput, SystemError, too_few_members, no_name, unsupported_mode, no_active_member,
  firewall_cluster_modes, has_mode, build_firewall_cluster, built_cluster, active_of,
  firewall_cluster_role,
}

-- Why an input is refused.
abbrev pub IsFaulty : SystemInput → SystemError → Type 0
IsFaulty input too_few_members = length (unique input.device_ids) < 2
IsFaulty input no_name = trim input.name ≡ ""
IsFaulty input unsupported_mode = has_mode firewall_cluster_modes input.mode ≡ false
IsFaulty input no_active_member =
    (input.mode ≡ "ActivePassive") × (contains input.device_ids input.active_device_id ≡ false)

pub record IsBuilt (input : SystemInput) (c : FirewallCluster) : Type 0 where
  pub members : (id : String) → contains c.device_ids id ≡ contains input.device_ids id
  pub distinct : IsDistinct c.device_ids
  pub enough : 2 ≤ length c.device_ids
  pub named : is_empty c.name ≡ false
  pub passive :
      c.mode ≡ "ActivePassive"
      → (contains c.device_ids c.active_device_id ≡ true)
        × ((id : String)
            → contains c.device_ids id ≡ true
            → (firewall_cluster_role c id
                ≡ (if c.active_device_id == id then "ACTIVE" else "PASSIVE")))
  pub active :
      c.mode ≡ "ActiveActive"
      → (id : String) → contains c.device_ids id ≡ true
      → firewall_cluster_role c id ≡ "ACTIVE"

role-passive :
    (c : FirewallCluster) (id : String)
    → c.mode ≡ "ActivePassive"
    → contains c.device_ids id ≡ true
    → firewall_cluster_role c id ≡ (if c.active_device_id == id then "ACTIVE" else "PASSIVE")
unfolding firewall_cluster_role
role-passive c id m h = rw (h, m) refl

role-active :
    (c : FirewallCluster) (id : String)
    → c.mode ≡ "ActiveActive"
    → contains c.device_ids id ≡ true
    → firewall_cluster_role c id ≡ "ACTIVE"
unfolding firewall_cluster_role
role-active c id m h = rw (h, m) refl

no_member :
    (input : SystemInput)
    → (input.mode == "ActivePassive" && not (contains (unique input.device_ids) (active_of input)))
      ≡ true
    → IsFaulty input no_active_member
no_member input h = ground (
  arith,
  h,
  str_iff input.mode "ActivePassive",
  contains-unique input.device_ids input.active_device_id,
)

chosen_member :
    (input : SystemInput)
    → (input.mode == "ActivePassive" && not (contains (unique input.device_ids) (active_of input)))
      ≡ false
    → input.mode ≡ "ActivePassive"
    → contains (unique input.device_ids) (active_of input) ≡ true
chosen_member input h m = ground (arith, h, m, str_iff input.mode "ActivePassive")

built_cluster-IsBuilt :
    (existing : Option FirewallCluster) (input : SystemInput)
    → ltb (length (unique input.device_ids)) 2 ≡ false
    → is_empty (trim input.name) ≡ false
    → (input.mode == "ActivePassive" && not (contains (unique input.device_ids) (active_of input)))
      ≡ false
    → IsBuilt input (built_cluster existing input)
unfolding built_cluster
built_cluster-IsBuilt existing input enough named chosen = record {
  members = λ id. contains-unique input.device_ids id;
  distinct = unique-IsDistinct input.device_ids;
  enough = ground (arith, enough);
  named = named;
  passive = λ m.
      (chosen_member input chosen m, λ id h. role-passive (built_cluster existing input) id m h);
  active = λ m id h. role-active (built_cluster existing input) id m h;
}

-- The form gives an error with its reason, or a cluster: its members are those of the input, each
-- once, and at least two; its name is not blank; in active-passive mode the active device is a
-- member, and of the members it alone has the active role; in active-active mode all have it.
pub build_firewall_cluster-IsBuilt :
    (existing : Option FirewallCluster) (input : SystemInput)
    → ((e : SystemError) × (build_firewall_cluster existing input ≡ err e) × IsFaulty input e)
      ⊎ ((c : FirewallCluster) × (build_firewall_cluster existing input ≡ ok c) × IsBuilt input c)
unfolding build_firewall_cluster
build_firewall_cluster-IsBuilt existing input =
    elim (Bool-cases (ltb (length (unique input.device_ids)) 2)) [
      | inl few ↦ inl (too_few_members, rw few refl, ground arith)
      | inr enough ↦ elim (Bool-cases (is_empty (trim input.name))) [
        | inl blank ↦
            inl (no_name, rw (enough, blank) refl, ground (arith, str_iff (trim input.name) ""))
        | inr named ↦ elim (Bool-cases (has_mode firewall_cluster_modes input.mode)) [
          | inr odd ↦ inl (unsupported_mode, rw (enough, named, odd) refl, odd)
          | inl usual ↦
              elim (Bool-cases (
                input.mode == "ActivePassive"
                && not (contains (unique input.device_ids) (active_of input)))) [
                  | inl passive ↦ inl (
                    no_active_member,
                    rw (enough, named, usual, passive) refl,
                    no_member input passive,
                  )
                  | inr chosen ↦ inr (
                    built_cluster existing input,
                    rw (enough, named, usual, chosen) refl,
                    built_cluster-IsBuilt existing input enough named chosen,
                  )
                ]
        ]
      ]
    ]
