-- ===== src/Tests/Samples.antt =====
-- A map with one rack, two mounted switches, a loose one, and a cable between the first two.
use wiredraft.Prelude.{ℕ, String, false, [], ◌∷◌}
use wiredraft.Prelude.Int.{ℤ, pos}
use wiredraft.Topology.{Topology, Device, Rack, Link, Port}

abbrev pub port : String → String → Port
port id type = record {
  id = id;
  device_id = "";
  port_index = 1;
  label = "1";
  type = type;
  mode = "Access";
  native_vlan = 1;
  allowed_vlans = [];
  group = "";
  other = "";
}

-- A device of the given height on a unit of rack `r1`, or on no rack.
abbrev pub device : String → ℕ → String → ℕ → String → Device
device id units rack_id rack_unit rack_face = record {
  id = id;
  name = id;
  category = "Switch";
  model = "";
  position_x = pos 0;
  position_y = pos 0;
  rack_id = rack_id;
  rack_unit = rack_unit;
  rack_face = rack_face;
  rack_display = "";
  rack_reversed = false;
  room_id = "";
  units_u = units;
  ports = port id "RJ45_1G" ∷ [];
  other = "";
}

abbrev pub rack : String → ℤ → Rack
rack id x = record {
  id = id;
  name = id;
  position_x = x;
  position_y = pos 40;
  height_u = 10;
  room_id = "";
  other = "";
}

abbrev pub link : String → String → String → Link
link id source target = record {
  id = id;
  source_device_id = source;
  source_port_id = source;
  source_side = "";
  target_device_id = target;
  target_port_id = target;
  target_side = "";
  cable_type = "CAT6A";
  vlan_ids = 1 ∷ [];
  primary_vlan = 1;
  rear_channel_id = "";
  rear_channel_name = "";
  rear_channel_type = "";
  notes = "";
}

abbrev pub low : Device
low = device "low" 2 "r1" 1 "front"

abbrev pub high : Device
high = device "high" 1 "r1" 5 ""

abbrev pub loose : Device
loose = device "loose" 2 "" 0 ""

abbrev pub sample : Topology
sample = record {
  id = "map";
  name = "MAP";
  revision = 7;
  updated_at = "";
  racks = rack "r1" (pos 0) ∷ [];
  rooms = [];
  devices = low ∷ high ∷ loose ∷ [];
  links = link "l1" "low" "high" ∷ [];
  link_groups = [];
  switch_systems = [];
  firewall_clusters = [];
  vlans = [];
  annotations = [];
  other = "";
}
