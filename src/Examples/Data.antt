-- ===== src/Examples/Data.antt =====
-- A fabric, its switches and the services around the adapter, for the examples.
use fabric_adapter.Base.{
  ℕ, true, none, some, List, [], ◌∷◌, Text, Dict, codes, ok, Outcome, ret, fail, panic,
}
use fabric_adapter.Fabric.{
  Attribute, Port, role_spine, role_leaf, Route, speed_100g, Switch, SwitchModel, RootDevice,
}
use fabric_adapter.Chassis.{empty_chassis_config}
use fabric_adapter.World.{Services, World, FabricScope, Config}
use fabric_adapter.Device.{empty_net_config}

-- every call is answered with 200, and every switch gets the SID 101
abbrev pub willing : Services
willing = record {
  Sids = ℕ;
  sid_get = λ id s. ret 101 s;
  marshal_text = λ c. ok [];
  new_request = λ method url. ok tt;
  http_do = λ before req. ok (record { status_code = 200; status = codes "200 OK" });
  Object = Text;
  cert_paths = λ ca key cert. ok tt;
  dial = λ endpoint. ok tt;
  topo_get = λ before name. ok name;
  get_aspect = λ o. ok (record {
    control_endpoint = some (codes "onos", 8181);
    username = codes "onos";
    password = codes "rocks";
  });
  from_grpc = λ e. e;
  error_text = λ e. [];
  gnmi_set = λ before endpoint target secure req. ok tt;
}

abbrev pub attributes : Dict Text Attribute
attributes =
    (codes "driver", record { value = some (codes "stratum") })
    ∷ (codes "pipeconf", record { value = some (codes "fabric") })
    ∷ []

abbrev pub leaf_port : Port
leaf_port = record {
  cage_number = some 1;
  channel_number = some 0;
  display_name = some (codes "p1");
  speed = speed_100g;
  vlans = some (record { untagged = some 10; tagged = [] });
}

abbrev pub leaf : Switch
leaf = record {
  switch_id = some (codes "leaf1");
  display_name = some (codes "Leaf 1");
  model_id = some (codes "m");
  management = some (record { address = some (codes "10.0.0.1"); port_number = some 9559 });
  attribute = attributes;
  role = role_leaf;
  port = leaf_port ∷ [];
  vlan = (10, record { subnet = codes "10.1.0.254/24" ∷ [] }) ∷ [];
  switch_pair = some (record {
    paired_switch = some (codes "leaf2");
    pairing_port = record { cage_number = some 3; channel_number = some 1 } ∷ [];
  });
}

-- without a management address
abbrev pub spine : Switch
spine = record {
  switch_id = some (codes "spine1");
  display_name = some (codes "Spine 1");
  model_id = some (codes "m");
  management = none;
  attribute = attributes;
  role = role_spine;
  port = [];
  vlan = [];
  switch_pair = none;
}

abbrev pub model : SwitchModel
model = record { attribute = []; port = (1, record { cage_number = some 1 }) ∷ [] }

abbrev pub routes : List Route
routes =
    record {
      route_id = some (codes "r1");
      prefix = some (codes "10.2.0.0/16");
      address = some (codes "10.1.0.1");
    }
    ∷ record { route_id = some (codes "r2"); prefix = some (codes "10.3.0.0/16"); address = none }
    ∷ []

abbrev pub fabric : RootDevice
fabric = record {
  switch = (codes "leaf1", leaf) ∷ (codes "spine1", spine) ∷ [];
  switch_model = (codes "m", model) ∷ [];
  route = routes;
}

abbrev pub scope : FabricScope
scope = record {
  fabric_id = codes "f";
  fabric = fabric;
  onos_endpoint = some (codes "http://onos:8181/");
  onos_username = some (codes "onos");
  onos_password = some (codes "rocks");
  stratum_endpoint = some (codes "http://onos:8181/");
}

abbrev pub config : Config
config = record {
  post_enable = true;
  post_timeout = 10;
  partial_update_enable = true;
  topo_endpoint = codes "topo:5150";
  ca_path = [];
  key_path = [];
  cert_path = [];
}

abbrev pub world : World ℕ
world = record {
  net_config = empty_net_config;
  chassis = empty_chassis_config;
  next_ip = 0;
  sids = 0;
  cache = [];
  calls = [];
  kpi_total = [];
}

-- the state after a call
abbrev pub left_by {ℓ κ} : {W : Type ℓ} {A : Type κ} → W → Outcome W A → W
left_by w (ret a v) = v
left_by w (fail e v) = v
left_by w panic = w
