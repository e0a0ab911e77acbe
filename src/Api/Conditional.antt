-- ===== src/Api/Conditional.antt =====
-- Which calls depend on the revision of a map.
use wiredraft.Prelude.{
  ℕ, String, Bool, true, false, ◌&&◌, List, [], ◌∷◌, ◌++◌, Option, some, ◌≡◌, refl, ◌∙◌, ◌<◌, ◌^◌,
  ◌==◌, string_eq, nat_eq, to_upper, any, ltb, lt→ltb, Bool-cases, inl, inr, arith,
}
use wiredraft.Api.{
  Part, fixed, escaped, HeaderKind, plain, json, plain_revision, json_revision, Call, Header,
  json_headers, is_mutation, revision_headers, headers_of,
}
use wiredraft.Api.Endpoints.{
  AccountCall, MapCall, EquipmentCall, LinkCall, GroupCall, ReviewCall, Endpoint, account, map,
  equipment, link, group, review, account_call, map_call, equipment_call, link_call, group_call,
  review_call, call_of, diagnostics, duplicate_topology, auth_status, logout, list_users,
  create_user, update_user, list_organizations, create_organization, update_organization,
  delete_organization, list_topologies, get_topology, create_topology, replace_topology,
  delete_topology, upload_photos, update_photo, delete_photo, create_rack, update_rack, delete_rack,
  create_device, update_device, delete_device, update_port, create_link, create_links,
  configure_link, update_link_media, set_link_direction, repatch_link, delete_link,
  create_link_group, update_link_group, delete_link_group, create_switch_system,
  update_switch_system, delete_switch_system, create_firewall_cluster, update_firewall_cluster,
  delete_firewall_cluster, create_vlan, update_vlan, delete_vlan, analysis, trace, list_comments,
  create_comment, reply_to_comment, update_comment, delete_comment, list_documentation_links,
  create_documentation_link, delete_documentation_link, list_shares, create_share, delete_share,
  get_shared_topology,
}

-- The path is one below a map that exists.
abbrev pub is_in_map : List Part → Bool
is_in_map (fixed a ∷ fixed b ∷ fixed c ∷ escaped id ∷ rest) =
    a == "api" && b == "v1" && c == "topologies"
is_in_map _ = false

abbrev pub takes_revision : HeaderKind → Bool
takes_revision plain = false
takes_revision json = false
takes_revision plain_revision = true
takes_revision json_revision = true

abbrev IsConditional : Call → Type 0
IsConditional call = takes_revision call.headers ≡ (is_mutation call.method && is_in_map call.path)

account_call-IsConditional : (body : String) (c : AccountCall) → IsConditional (account_call body c)
unfolding account_call is_mutation to_upper
account_call-IsConditional body diagnostics = refl
account_call-IsConditional body auth_status = refl
account_call-IsConditional body logout = refl
account_call-IsConditional body list_users = refl
account_call-IsConditional body create_user = refl
account_call-IsConditional body (update_user id) = refl
account_call-IsConditional body list_organizations = refl
account_call-IsConditional body create_organization = refl
account_call-IsConditional body (update_organization id) = refl
account_call-IsConditional body (delete_organization id) = refl

map_call-IsConditional : (body : String) (c : MapCall) → IsConditional (map_call body c)
unfolding map_call is_mutation to_upper
map_call-IsConditional body (duplicate_topology id) = refl
map_call-IsConditional body list_topologies = refl
map_call-IsConditional body (get_topology id) = refl
map_call-IsConditional body create_topology = refl
map_call-IsConditional body (replace_topology id) = refl
map_call-IsConditional body (delete_topology id) = refl
map_call-IsConditional body (upload_photos id target_kind target_id files) = refl
map_call-IsConditional body (update_photo id photo_id) = refl
map_call-IsConditional body (delete_photo id photo_id) = refl
map_call-IsConditional body (analysis id) = refl
map_call-IsConditional body (trace id source target vlan) = refl
map_call-IsConditional body (get_shared_topology id token) = refl

equipment_call-IsConditional :
    (body : String) (c : EquipmentCall) → IsConditional (equipment_call body c)
unfolding equipment_call is_mutation to_upper
equipment_call-IsConditional body (create_rack id) = refl
equipment_call-IsConditional body (update_rack id rack_id) = refl
equipment_call-IsConditional body (delete_rack id rack_id) = refl
equipment_call-IsConditional body (create_device id) = refl
equipment_call-IsConditional body (update_device id device_id) = refl
equipment_call-IsConditional body (delete_device id device_id) = refl
equipment_call-IsConditional body (update_port id port_id) = refl

link_call-IsConditional : (body : String) (c : LinkCall) → IsConditional (link_call body c)
unfolding link_call is_mutation to_upper
link_call-IsConditional body (create_link id) = refl
link_call-IsConditional body (create_links id) = refl
link_call-IsConditional body (configure_link id link_id) = refl
link_call-IsConditional body (update_link_media id link_id) = refl
link_call-IsConditional body (set_link_direction id link_id) = refl
link_call-IsConditional body (repatch_link id link_id) = refl
link_call-IsConditional body (delete_link id link_id) = refl
link_call-IsConditional body (create_link_group id) = refl
link_call-IsConditional body (update_link_group id group_id) = refl
link_call-IsConditional body (delete_link_group id group_id) = refl

group_call-IsConditional : (body : String) (c : GroupCall) → IsConditional (group_call body c)
unfolding group_call is_mutation to_upper
group_call-IsConditional body (create_switch_system id) = refl
group_call-IsConditional body (update_switch_system id system_id) = refl
group_call-IsConditional body (delete_switch_system id system_id) = refl
group_call-IsConditional body (create_firewall_cluster id) = refl
group_call-IsConditional body (update_firewall_cluster id cluster_id) = refl
group_call-IsConditional body (delete_firewall_cluster id cluster_id) = refl
group_call-IsConditional body (create_vlan id) = refl
group_call-IsConditional body (update_vlan id vlan_id) = refl
group_call-IsConditional body (delete_vlan id vlan_id) = refl

review_call-IsConditional : (body : String) (c : ReviewCall) → IsConditional (review_call body c)
unfolding review_call is_mutation to_upper
review_call-IsConditional body (list_comments id) = refl
review_call-IsConditional body (create_comment id) = refl
review_call-IsConditional body (reply_to_comment id thread_id) = refl
review_call-IsConditional body (update_comment id thread_id) = refl
review_call-IsConditional body (delete_comment id thread_id) = refl
review_call-IsConditional body (list_documentation_links id) = refl
review_call-IsConditional body (create_documentation_link id) = refl
review_call-IsConditional body (delete_documentation_link id link_id) = refl
review_call-IsConditional body (list_shares id) = refl
review_call-IsConditional body (create_share id) = refl
review_call-IsConditional body (delete_share id share_id) = refl

call_of-IsConditional : (body : String) (e : Endpoint) → IsConditional (call_of body e)
unfolding call_of
call_of-IsConditional body (account c) = account_call-IsConditional body c
call_of-IsConditional body (map c) = map_call-IsConditional body c
call_of-IsConditional body (equipment c) = equipment_call-IsConditional body c
call_of-IsConditional body (link c) = link_call-IsConditional body c
call_of-IsConditional body (group c) = group_call-IsConditional body c
call_of-IsConditional body (review c) = review_call-IsConditional body c

abbrev pub is_if_match : Header → Bool
is_if_match header = header.0 == "If-Match"

any-last :
    (headers : List Header) (value : String)
    → any is_if_match (headers ++ ("If-Match", value) ∷ []) ≡ true
any-last [] value = refl
any-last (header ∷ headers) value = elim (Bool-cases (is_if_match header)) [
  | inl e ↦ rw e refl
  | inr e ↦ rw e (any-last headers value)
]

not_below : (n : ℕ) → 0 < n → ltb n 1 ≡ false
not_below n h = ground arith

revision_headers-takes :
    (revision : ℕ) (provided : Option ℕ) (headers : List Header)
    → 0 < revision
    → revision < 2 ^ 53
    → any is_if_match (revision_headers (some revision) provided headers) ≡ true
unfolding revision_headers
revision_headers-takes revision provided headers h k =
    rw (lt→ltb revision (2 ^ 53) k) rw (not_below revision h) (any-last headers _)

headers_of-takes :
    (revision : ℕ) (provided : Option ℕ) (kind : HeaderKind)
    → 0 < revision
    → revision < 2 ^ 53
    → any is_if_match (headers_of (some revision) provided kind) ≡ takes_revision kind
unfolding headers_of
headers_of-takes revision provided plain h k = refl
headers_of-takes revision provided json h k = refl
headers_of-takes revision provided plain_revision h k =
    revision_headers-takes revision provided [] h k
headers_of-takes revision provided json_revision h k =
    revision_headers-takes revision provided json_headers h k

-- Given a revision that is a positive safe integer, exactly the calls that change something in or
-- below a map that exists send the header `If-Match`: every one of them, and no other call of the
-- client.
pub headers_of-call_of :
    (body : String) (e : Endpoint) (revision : ℕ) (provided : Option ℕ)
    → 0 < revision
    → revision < 2 ^ 53
    → any is_if_match (headers_of (some revision) provided (call_of body e).headers)
      ≡ (is_mutation (call_of body e).method && is_in_map (call_of body e).path)
headers_of-call_of body e revision provided h k =
    headers_of-takes revision provided (call_of body e).headers h k ∙ call_of-IsConditional body e
