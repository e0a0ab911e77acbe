-- ===== src/Api/Endpoints.antt =====
-- The calls of the client: the object `api` of web/static/js/api.js, by what they are about. The
-- first argument is the text of the body, for the calls that send one; `replaceTopology` sends the
-- document of its topology and gives that topology's revision.
use wiredraft.Prelude.{String, List, [], ◌∷◌}
use wiredraft.Api.{
  Part, fixed, escaped, shown, HeaderKind, plain, json, plain_revision, json_revision, Content,
  nothing, text, form, Call,
}

abbrev call_to : String → List Part → HeaderKind → Content → Call
call_to method path headers content = record {
  path = path;
  query = [];
  method = method;
  headers = headers;
  content = content;
}

-- `/api/v1/topologies/${encodeURIComponent(id)}/…`
abbrev pub in_map : String → List Part → List Part
in_map id rest = fixed "api" ∷ fixed "v1" ∷ fixed "topologies" ∷ escaped id ∷ rest

abbrev get : List Part → Call
get path = call_to "GET" path plain nothing

pub data AccountCall : Type 0 where
  diagnostics : AccountCall
  auth_status : AccountCall
  logout : AccountCall
  list_users : AccountCall
  create_user : AccountCall
  update_user : String → AccountCall
  list_organizations : AccountCall
  create_organization : AccountCall
  update_organization : String → AccountCall
  delete_organization : String → AccountCall

unfoldable pub account_call : String → AccountCall → Call
account_call body diagnostics = get (fixed "api" ∷ fixed "v1" ∷ fixed "diagnostics" ∷ [])
account_call body auth_status = get (fixed "api" ∷ fixed "v1" ∷ fixed "auth" ∷ fixed "status" ∷ [])
account_call body logout =
    call_to "POST" (fixed "api" ∷ fixed "v1" ∷ fixed "auth" ∷ fixed "logout" ∷ []) plain nothing
account_call body list_users = get (fixed "api" ∷ fixed "v1" ∷ fixed "admin" ∷ fixed "users" ∷ [])
account_call body create_user =
    call_to "POST" (fixed "api" ∷ fixed "v1" ∷ fixed "admin" ∷ fixed "users" ∷ []) json (text body)
account_call body (update_user id) =
    call_to "PUT" (fixed "api" ∷ fixed "v1" ∷ fixed "admin" ∷ fixed "users" ∷ escaped id ∷ []) json
      (text body)
account_call body list_organizations =
    get (fixed "api" ∷ fixed "v1" ∷ fixed "admin" ∷ fixed "organizations" ∷ [])
account_call body create_organization =
    call_to "POST" (fixed "api" ∷ fixed "v1" ∷ fixed "admin" ∷ fixed "organizations" ∷ []) json
      (text body)
account_call body (update_organization id) =
    call_to "PUT"
      (fixed "api" ∷ fixed "v1" ∷ fixed "admin" ∷ fixed "organizations" ∷ escaped id ∷ []) json
      (text body)
account_call body (delete_organization id) =
    call_to "DELETE"
      (fixed "api" ∷ fixed "v1" ∷ fixed "admin" ∷ fixed "organizations" ∷ escaped id ∷ []) plain
      nothing

pub data MapCall : Type 0 where
  duplicate_topology : String → MapCall
  list_topologies : MapCall
  get_topology : String → MapCall
  create_topology : MapCall
  replace_topology : String → MapCall
  delete_topology : String → MapCall
  upload_photos : String → String → String → List String → MapCall
  update_photo : String → String → MapCall
  delete_photo : String → String → MapCall
  analysis : String → MapCall
  trace : String → String → String → String → MapCall
  get_shared_topology : String → String → MapCall

unfoldable pub map_call : String → MapCall → Call
map_call body (duplicate_topology id) =
    call_to "POST" (in_map id (fixed "duplicate" ∷ [])) json_revision (text body)
map_call body list_topologies = get (fixed "api" ∷ fixed "v1" ∷ fixed "topologies" ∷ [])
map_call body (get_topology id) = get (in_map id [])
map_call body create_topology =
    call_to "POST" (fixed "api" ∷ fixed "v1" ∷ fixed "topologies" ∷ []) json (text body)
map_call body (replace_topology id) = call_to "PUT" (in_map id []) json_revision (text body)
map_call body (delete_topology id) = call_to "DELETE" (in_map id []) plain_revision nothing
map_call body (upload_photos id target_kind target_id files) =
    call_to "POST" (in_map id (fixed "photos" ∷ [])) plain_revision
      (form target_kind target_id files)
map_call body (update_photo id photo_id) =
    call_to "PUT" (in_map id (fixed "photos" ∷ escaped photo_id ∷ [])) json_revision (text body)
map_call body (delete_photo id photo_id) =
    call_to "DELETE" (in_map id (fixed "photos" ∷ escaped photo_id ∷ [])) plain_revision nothing
map_call body (analysis id) = get (in_map id (fixed "analysis" ∷ []))
map_call body (trace id source target vlan) = record (get (in_map id (fixed "trace" ∷ []))) {
  query = ("source", source) ∷ ("target", target) ∷ ("vlan", vlan) ∷ [];
}
map_call body (get_shared_topology id token) =
    get (fixed "api" ∷ fixed "v1" ∷ fixed "shared" ∷ escaped id ∷ escaped token ∷ [])

pub data EquipmentCall : Type 0 where
  create_rack : String → EquipmentCall
  update_rack : String → String → EquipmentCall
  delete_rack : String → String → EquipmentCall
  create_device : String → EquipmentCall
  update_device : String → String → EquipmentCall
  delete_device : String → String → EquipmentCall
  update_port : String → String → EquipmentCall

unfoldable pub equipment_call : String → EquipmentCall → Call
equipment_call body (create_rack id) =
    call_to "POST" (in_map id (fixed "racks" ∷ [])) json_revision (text body)
equipment_call body (update_rack id rack_id) =
    call_to "PUT" (in_map id (fixed "racks" ∷ escaped rack_id ∷ [])) json_revision (text body)
equipment_call body (delete_rack id rack_id) =
    call_to "DELETE" (in_map id (fixed "racks" ∷ escaped rack_id ∷ [])) plain_revision nothing
equipment_call body (create_device id) =
    call_to "POST" (in_map id (fixed "devices" ∷ [])) json_revision (text body)
equipment_call body (update_device id device_id) =
    call_to "PUT" (in_map id (fixed "devices" ∷ escaped device_id ∷ [])) json_revision (text body)
equipment_call body (delete_device id device_id) =
    call_to "DELETE" (in_map id (fixed "devices" ∷ escaped device_id ∷ [])) plain_revision nothing
equipment_call body (update_port id port_id) =
    call_to "PUT" (in_map id (fixed "ports" ∷ escaped port_id ∷ [])) json_revision (text body)

pub data LinkCall : Type 0 where
  create_link : String → LinkCall
  create_links : String → LinkCall
  configure_link : String → String → LinkCall
  update_link_media : String → String → LinkCall
  set_link_direction : String → String → LinkCall
  repatch_link : String → String → LinkCall
  delete_link : String → String → LinkCall
  create_link_group : String → LinkCall
  update_link_group : String → String → LinkCall
  delete_link_group : String → String → LinkCall

unfoldable pub link_call : String → LinkCall → Call
link_call body (create_link id) =
    call_to "POST" (in_map id (fixed "links" ∷ [])) json_revision (text body)
link_call body (create_links id) =
    call_to "POST" (in_map id (fixed "links" ∷ fixed "bulk" ∷ [])) json_revision (text body)
link_call body (configure_link id link_id) =
    call_to "PUT" (in_map id (fixed "links" ∷ escaped link_id ∷ fixed "configuration" ∷ []))
      json_revision (text body)
link_call body (update_link_media id link_id) =
    call_to "PUT" (in_map id (fixed "links" ∷ escaped link_id ∷ fixed "media" ∷ [])) json_revision
      (text body)
link_call body (set_link_direction id link_id) =
    call_to "PUT" (in_map id (fixed "links" ∷ escaped link_id ∷ fixed "direction" ∷ []))
      json_revision (text body)
link_call body (repatch_link id link_id) =
    call_to "PUT" (in_map id (fixed "links" ∷ escaped link_id ∷ fixed "endpoint" ∷ []))
      json_revision (text body)
link_call body (delete_link id link_id) =
    call_to "DELETE" (in_map id (fixed "links" ∷ escaped link_id ∷ [])) plain_revision nothing
link_call body (create_link_group id) =
    call_to "POST" (in_map id (fixed "link-groups" ∷ [])) json_revision (text body)
link_call body (update_link_group id group_id) =
    call_to "PUT" (in_map id (fixed "link-groups" ∷ escaped group_id ∷ [])) json_revision
      (text body)
link_call body (delete_link_group id group_id) =
    call_to "DELETE" (in_map id (fixed "link-groups" ∷ escaped group_id ∷ [])) plain_revision
      nothing

pub data GroupCall : Type 0 where
  create_switch_system : String → GroupCall
  update_switch_system : String → String → GroupCall
  delete_switch_system : String → String → GroupCall
  create_firewall_cluster : String → GroupCall
  update_firewall_cluster : String → String → GroupCall
  delete_firewall_cluster : String → String → GroupCall
  create_vlan : String → GroupCall
  update_vlan : String → String → GroupCall
  delete_vlan : String → String → GroupCall

unfoldable pub group_call : String → GroupCall → Call
group_call body (create_switch_system id) =
    call_to "POST" (in_map id (fixed "switch-systems" ∷ [])) json_revision (text body)
group_call body (update_switch_system id system_id) =
    call_to "PUT" (in_map id (fixed "switch-systems" ∷ escaped system_id ∷ [])) json_revision
      (text body)
group_call body (delete_switch_system id system_id) =
    call_to "DELETE" (in_map id (fixed "switch-systems" ∷ escaped system_id ∷ [])) plain_revision
      nothing
group_call body (create_firewall_cluster id) =
    call_to "POST" (in_map id (fixed "firewall-clusters" ∷ [])) json_revision (text body)
group_call body (update_firewall_cluster id cluster_id) =
    call_to "PUT" (in_map id (fixed "firewall-clusters" ∷ escaped cluster_id ∷ [])) json_revision
      (text body)
group_call body (delete_firewall_cluster id cluster_id) =
    call_to "DELETE" (in_map id (fixed "firewall-clusters" ∷ escaped cluster_id ∷ []))
      plain_revision nothing
group_call body (create_vlan id) =
    call_to "POST" (in_map id (fixed "vlans" ∷ [])) json_revision (text body)
group_call body (update_vlan id vlan_id) =
    call_to "PUT" (in_map id (fixed "vlans" ∷ shown vlan_id ∷ [])) json_revision (text body)
group_call body (delete_vlan id vlan_id) =
    call_to "DELETE" (in_map id (fixed "vlans" ∷ shown vlan_id ∷ [])) plain_revision nothing

pub data ReviewCall : Type 0 where
  list_comments : String → ReviewCall
  create_comment : String → ReviewCall
  reply_to_comment : String → String → ReviewCall
  update_comment : String → String → ReviewCall
  delete_comment : String → String → ReviewCall
  list_documentation_links : String → ReviewCall
  create_documentation_link : String → ReviewCall
  delete_documentation_link : String → String → ReviewCall
  list_shares : String → ReviewCall
  create_share : String → ReviewCall
  delete_share : String → String → ReviewCall

unfoldable pub review_call : String → ReviewCall → Call
review_call body (list_comments id) = get (in_map id (fixed "comments" ∷ []))
review_call body (create_comment id) =
    call_to "POST" (in_map id (fixed "comments" ∷ [])) json_revision (text body)
review_call body (reply_to_comment id thread_id) =
    call_to "POST" (in_map id (fixed "comments" ∷ escaped thread_id ∷ fixed "replies" ∷ []))
      json_revision (text body)
review_call body (update_comment id thread_id) =
    call_to "PUT" (in_map id (fixed "comments" ∷ escaped thread_id ∷ [])) json_revision (text body)
review_call body (delete_comment id thread_id) =
    call_to "DELETE" (in_map id (fixed "comments" ∷ escaped thread_id ∷ [])) plain_revision nothing
review_call body (list_documentation_links id) = get (in_map id (fixed "documentation-links" ∷ []))
review_call body (create_documentation_link id) =
    call_to "POST" (in_map id (fixed "documentation-links" ∷ [])) json_revision (text body)
review_call body (delete_documentation_link id link_id) =
    call_to "DELETE" (in_map id (fixed "documentation-links" ∷ escaped link_id ∷ [])) plain_revision
      nothing
review_call body (list_shares id) = get (in_map id (fixed "shares" ∷ []))
review_call body (create_share id) =
    call_to "POST" (in_map id (fixed "shares" ∷ [])) json_revision (text body)
review_call body (delete_share id share_id) =
    call_to "DELETE" (in_map id (fixed "shares" ∷ escaped share_id ∷ [])) plain_revision nothing

pub data Endpoint : Type 0 where
  account : AccountCall → Endpoint
  map : MapCall → Endpoint
  equipment : EquipmentCall → Endpoint
  link : LinkCall → Endpoint
  group : GroupCall → Endpoint
  review : ReviewCall → Endpoint

unfoldable pub call_of : String → Endpoint → Call
unfolding account_call map_call equipment_call link_call group_call review_call
call_of body (account c) = account_call body c
call_of body (map c) = map_call body c
call_of body (equipment c) = equipment_call body c
call_of body (link c) = link_call body c
call_of body (group c) = group_call body c
call_of body (review c) = review_call body c
