-- ===== src/Topology.antt =====
-- The topology document that the browser edits (web/static/js/state.js and the modules below it
-- read it; internal/model/model.go declares its JSON). An absent optional field is the value that
-- the source's `||` puts in its place: an empty text, 0, or an empty list. Coordinates are
-- integers. A field `other` holds the canonical JSON of the fields that no modelled code reads.
use wiredraft.Prelude.{ℕ, String, Bool, List}
use wiredraft.Prelude.Int.{ℤ}

pub record Port : Type 0 where
  pub id : String
  pub device_id : String
  pub port_index : ℕ
  pub label : String
  pub type : String
  pub mode : String
  pub native_vlan : ℕ
  pub allowed_vlans : List ℕ
  pub group : String
  pub other : String

pub record Device : Type 0 where
  pub id : String
  pub name : String
  pub category : String
  pub model : String
  pub position_x : ℤ
  pub position_y : ℤ
  pub rack_id : String
  pub rack_unit : ℕ
  pub rack_face : String
  pub rack_display : String
  pub rack_reversed : Bool
  pub room_id : String
  -- `faceplate.unitsU`
  pub units_u : ℕ
  pub ports : List Port
  pub other : String

pub record Rack : Type 0 where
  pub id : String
  pub name : String
  pub position_x : ℤ
  pub position_y : ℤ
  pub height_u : ℕ
  pub room_id : String
  pub other : String

pub record Room : Type 0 where
  pub id : String
  pub name : String
  pub building : String
  pub floor : String
  pub position_x : ℤ
  pub position_y : ℤ
  pub width : ℕ
  pub height : ℕ
  pub padding : ℕ
  pub equipment_gap : ℕ
  pub other : String

pub record Link : Type 0 where
  pub id : String
  pub source_device_id : String
  pub source_port_id : String
  pub source_side : String
  pub target_device_id : String
  pub target_port_id : String
  pub target_side : String
  pub cable_type : String
  pub vlan_ids : List ℕ
  pub primary_vlan : ℕ
  pub rear_channel_id : String
  pub rear_channel_name : String
  pub rear_channel_type : String
  pub notes : String

pub record LinkGroup : Type 0 where
  pub id : String
  pub name : String
  pub mode : String
  pub link_ids : List String
  pub primary_link_id : String
  pub notes : String

pub record SwitchSystem : Type 0 where
  pub id : String
  pub name : String
  pub mode : String
  pub device_ids : List String
  pub notes : String

pub record FirewallCluster : Type 0 where
  pub id : String
  pub name : String
  pub mode : String
  pub device_ids : List String
  pub active_device_id : String
  pub notes : String

pub record Vlan : Type 0 where
  pub id : ℕ
  pub name : String
  pub color_hex : String
  pub description : String

pub record Annotation : Type 0 where
  pub id : String
  pub other : String

pub record Topology : Type 0 where
  pub id : String
  pub name : String
  pub revision : ℕ
  pub updated_at : String
  pub racks : List Rack
  pub rooms : List Room
  pub devices : List Device
  pub links : List Link
  pub link_groups : List LinkGroup
  pub switch_systems : List SwitchSystem
  pub firewall_clusters : List FirewallCluster
  pub vlans : List Vlan
  pub annotations : List Annotation
  pub other : String
