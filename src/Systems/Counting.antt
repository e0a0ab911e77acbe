-- ===== src/Systems/Counting.antt =====
-- How many logical devices a map has.
use wiredraft.Prelude.{
  length-add_all, ℕ, String, Bool, true, ◌&&◌, ◌||◌, not, List, [], ◌∷◌, ◌++◌, map, ◌+◌, ◌≤◌, ◌≡◌,
  refl, ap, sym, string_eq, nat_eq, ltb, filter, any, contains, add_all, unique, length, inl, inr,
  IsDistinct, add_all-IsDistinct, contains-unique, contains-add_all, contains-filter,
  length-IsDistinct, Bool-cases, arith, ◌∙◌,
}
use wiredraft.Topology.{Topology, Device}
use wiredraft.Systems.{
  live_members, group_members, grouped_devices, device_ids_of, systems_of, clusters_of,
  logical_device_count,
}

-- Two or more of the ids are devices of the map.
abbrev pub is_logical : List String → List String → Bool
is_logical device_ids ids = not (ltb (length (live_members device_ids ids)) 2)

-- The device is of the map, and a member of one of the logical systems.
abbrev pub is_member : List String → String → List String → Bool
is_member device_ids id ids = is_logical device_ids ids && contains device_ids id && contains ids id

contains-live_members :
    (device_ids ids : List String) (a : String)
    → contains (live_members device_ids ids) a ≡ (contains ids a && contains device_ids a)
unfolding live_members
contains-live_members device_ids ids a =
    contains-filter (contains device_ids) (unique ids) a
    ∙ ap (λ b. b && contains device_ids a) (contains-unique ids a)

contains-group_members :
    (device_ids : List String) (all : List (List String)) (grouped : List String) (n : ℕ)
    (a : String)
    → contains (group_members device_ids all grouped n).0 a
      ≡ (contains grouped a || any (is_member device_ids a) all)
unfolding group_members
contains-group_members device_ids [] grouped n a = ground arith
contains-group_members device_ids (ids ∷ all) grouped n a =
    elim (Bool-cases (ltb (length (live_members device_ids ids)) 2)) [
      | inl few ↦ rw few (contains-group_members device_ids all grouped n a)
      | inr enough ↦ rw enough (
          ground (
            arith,
            contains-group_members device_ids all (add_all grouped (live_members device_ids ids))
                (n + 1) a,
            contains-add_all grouped (live_members device_ids ids) a,
            contains-live_members device_ids ids a,
          ))
    ]

group_members-systems :
    (device_ids : List String) (all : List (List String)) (grouped : List String) (n : ℕ)
    → (group_members device_ids all grouped n).1 ≡ n + length (filter (is_logical device_ids) all)
unfolding group_members
group_members-systems device_ids [] grouped n = omega arith
group_members-systems device_ids (ids ∷ all) grouped n =
    elim (Bool-cases (ltb (length (live_members device_ids ids)) 2)) [
      | inl few ↦ rw few (group_members-systems device_ids all grouped n)
      | inr enough ↦ rw enough (
          omega (
            arith,
            group_members-systems device_ids all (add_all grouped (live_members device_ids ids))
                (n + 1),
          ))
    ]

group_members-IsDistinct :
    (device_ids : List String) (all : List (List String)) (grouped : List String) (n : ℕ)
    → IsDistinct grouped
    → IsDistinct (group_members device_ids all grouped n).0
unfolding group_members
group_members-IsDistinct device_ids [] grouped n d = d
group_members-IsDistinct device_ids (ids ∷ all) grouped n d =
    elim (Bool-cases (ltb (length (live_members device_ids ids)) 2)) [
      | inl few ↦ rw few (group_members-IsDistinct device_ids all grouped n d)
      | inr enough ↦ rw enough (
          group_members-IsDistinct device_ids all (add_all grouped (live_members device_ids ids))
            (n + 1) (add_all-IsDistinct grouped (live_members device_ids ids) d))
    ]

any-append :
    (p : List String → Bool) (xs ys : List (List String))
    → any p (xs ++ ys) ≡ (any p xs || any p ys)
any-append p [] ys = refl
any-append p (x ∷ xs) ys = ground (arith, any-append p xs ys)

length-filter_append :
    (p : List String → Bool) (xs ys : List (List String))
    → length (filter p (xs ++ ys)) ≡ length (filter p xs) + length (filter p ys)
length-filter_append p [] ys = omega arith
length-filter_append p (x ∷ xs) ys = ground (arith, length-filter_append p xs ys)

length-ids : (ds : List Device) → length (map (λ (d : Device). d.id) ds) ≡ length ds
length-ids [] = refl
length-ids (d ∷ ds) = omega (arith, length-ids ds)

-- The device ids of all systems and clusters.
abbrev pub all_systems : Topology → List (List String)
all_systems t = systems_of t ++ clusters_of t

contains-grouped :
    (t : Topology) (a : String)
    → contains (grouped_devices t).0 a ≡ any (is_member (device_ids_of t) a) (all_systems t)
unfolding grouped_devices
contains-grouped t a = ground (
  arith,
  contains-group_members (device_ids_of t) (clusters_of t)
      (group_members (device_ids_of t) (systems_of t) [] 0).0
      (group_members (device_ids_of t) (systems_of t) [] 0).1 a,
  contains-group_members (device_ids_of t) (systems_of t) [] 0 a,
  any-append (is_member (device_ids_of t) a) (systems_of t) (clusters_of t),
)

member_is_device :
    (device_ids : List String) (a : String) (all : List (List String))
    → any (is_member device_ids a) all ≡ true
    → contains device_ids a ≡ true
member_is_device device_ids a [] h = absurd (ground (arith, h))
member_is_device device_ids a (ids ∷ all) h = ground (arith, h, member_is_device device_ids a all)

grouped-IsDistinct : (t : Topology) → IsDistinct (grouped_devices t).0
unfolding grouped_devices
grouped-IsDistinct t =
    group_members-IsDistinct (device_ids_of t) (clusters_of t) _ _
      (group_members-IsDistinct (device_ids_of t) (systems_of t) [] 0 tt)

grouped_subset : (t : Topology) → length (grouped_devices t).0 ≤ length (device_ids_of t)
grouped_subset t =
    length-IsDistinct (grouped_devices t).0 (device_ids_of t) (grouped-IsDistinct t)
      (λ a h. member_is_device (device_ids_of t) a (all_systems t) (sym (contains-grouped t a) ∙ h))

grouped_least : (t : Topology) → length (grouped_devices t).0 ≤ length t.devices
grouped_least t = omega (
  arith,
  grouped_subset t,
  length-add_all [] (map (λ (d : Device). d.id) t.devices),
  length-ids t.devices,
)

grouped_systems :
    (t : Topology)
    → (grouped_devices t).1 ≡ length (filter (is_logical (device_ids_of t)) (all_systems t))
unfolding grouped_devices
grouped_systems t = omega (
  arith,
  group_members-systems (device_ids_of t) (clusters_of t)
      (group_members (device_ids_of t) (systems_of t) [] 0).0
      (group_members (device_ids_of t) (systems_of t) [] 0).1,
  group_members-systems (device_ids_of t) (systems_of t) [] 0,
  length-filter_append (is_logical (device_ids_of t)) (systems_of t) (clusters_of t),
)

-- The logical devices and the grouped devices together are as many as the devices and the logical
-- systems: a system or cluster counts if two or more of its members are devices of the map; the
-- grouped devices are, each once, the devices of the map that are members of one that counts, and
-- they are never more than the devices, so the difference does not go below zero.
pub logical_device_count_lem :
    (t : Topology)
    → (logical_device_count t + length (grouped_devices t).0
        ≡ length t.devices + length (filter (is_logical (device_ids_of t)) (all_systems t)))
      × IsDistinct (grouped_devices t).0
      × ((id : String)
          → contains (grouped_devices t).0 id
            ≡ any (is_member (device_ids_of t) id) (all_systems t))
      × (length (grouped_devices t).0 ≤ length t.devices)
unfolding logical_device_count
logical_device_count_lem t = (
  omega (arith, grouped_least t, grouped_systems t),
  grouped-IsDistinct t,
  contains-grouped t,
  grouped_least t,
)
