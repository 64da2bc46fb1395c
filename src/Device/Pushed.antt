-- ===== src/Device/Pushed.antt =====
-- What `SynchronizeDevice` (pkg/synchronizer/synchronize-device.go) should send: for each fabric its
-- network configuration, and then the chassis configuration of each switch that has a model.
use fabric_adapter.Base.{
  ℕ, ◌≡◌, Bool, true, false, Option, none, some, List, [], ◌∷◌, ◌++◌, Text, Dict, codes, decimal,
  keys, lookup, text_eq, ok, ret,
}
use fabric_adapter.Fabric.{Attribute, Switch, SwitchModel, RootDevice}
use fabric_adapter.Json.Print.{print}
use fabric_adapter.Netcfg.{OnosNetConfig}
use fabric_adapter.Netcfg.Encode.{net_config_json}
use fabric_adapter.Strconv.{parse_bool}
use fabric_adapter.Sorting.{sort_strings}
use fabric_adapter.Switch.{management_of}
use fabric_adapter.Stratum.Ports.{described_ports}
use fabric_adapter.Stratum.Built.{chassis_with}
use fabric_adapter.Onos.{unchanged, build_netconfig}
use fabric_adapter.Device.{controller_uri, new_scope, start_fabric, lookup_fabric_controller_info}
use fabric_adapter.World.{http_call, gnmi_call, Call, ControllerInfo, Services, World, Config}

-- the model of a switch, if its id is given and known
abbrev model_named : Text → Dict Text SwitchModel → Option SwitchModel
model_named [] models = none
model_named (c ∷ id) models = lookup (c ∷ id) models

abbrev pub model_of : Option Text → RootDevice → Option SwitchModel
model_of none fabric = none
model_of (some id) fabric = model_named id fabric.switch_model

-- whether the attribute `secure-transport` reads as true
abbrev read_flag : Option Bool → Bool
read_flag none = false
read_flag (some b) = b

abbrev flag_of : Option Text → Bool
flag_of none = false
flag_of (some t) = read_flag (parse_bool t)

abbrev pub flag : Option Attribute → Bool
flag none = false
flag (some a) = flag_of a.value

abbrev pub gnmi_set_of : Text → ℕ → Bool → Text → Call
gnmi_set_of address port secure text =
    gnmi_call (address ++ (b':' ∷ decimal port)) [] secure
      (record { elem = []; target = []; bytes_val = text })

-- The gNMI calls for the switches with some ids, in their order: one with the encoded chassis
-- configuration to the management address of each switch that has a model.
pub data StratumCalls (S : Services) (fabric : RootDevice) : List Text → List Call → Type 0 where
  no_more : StratumCalls S fabric [] []
  left_out :
      (id : Text) (ids : List Text) (sw : Switch) (calls : List Call)
      → lookup id fabric.switch ≡ some sw
      → model_of sw.model_id fabric ≡ none
      → StratumCalls S fabric ids calls
      → StratumCalls S fabric (id ∷ ids) calls
  sent :
      (id : Text) (ids : List Text) (sw : Switch) (calls : List Call) (model : SwitchModel)
      (name address : Text) (port : ℕ) (text : Text)
      → lookup id fabric.switch ≡ some sw
      → model_of sw.model_id fabric ≡ some model
      → sw.display_name ≡ some name
      → management_of sw.management ≡ some (address, port)
      → S.marshal_text (chassis_with name (described_ports model sw.port)) ≡ ok text
      → StratumCalls S fabric ids calls
      → StratumCalls S fabric (id ∷ ids) (
          gnmi_set_of address port (flag (lookup (codes "secure-transport") sw.attribute)) text
          ∷ calls)

-- the request to ONOS, unless the configuration is the one that the cache holds
abbrev pub posts : Bool → Text → ControllerInfo → OnosNetConfig → List Call
posts true uri info c = []
posts false uri info c =
    http_call (record {
      method = codes "POST";
      url = uri ++ codes "onos/v1/network/configuration";
      basic_auth = some (info.username, info.password);
      content_type = some (codes "application/json;charset=utf-8");
      body = print 0 (net_config_json c);
    })
    ∷ []

-- A fabric is pushed to the controller that the topology has for it.
pub record IsFabricPushed (S : Services) (config : Config) (id : Text) (fabric : RootDevice)
    (w v : World S.Sids) : Type 0 where
  pub address : Text
  pub port : ℕ
  pub info : ControllerInfo
  pub located : lookup_fabric_controller_info S config id w ≡ ret (address, port, info) w
  pub built : World S.Sids
  pub construction :
      build_netconfig S
        (new_scope id fabric (controller_uri address port) info)
        (start_fabric S id w)
      ≡ ret tt built
  pub stratum : List Call
  pub switches : StratumCalls S fabric (sort_strings (keys fabric.switch)) stratum
  pub sent_calls :
      v.calls
      ≡ w.calls
        ++ (posts (unchanged S config id built) (controller_uri address port) info built.net_config
            ++ stratum)

-- The fabrics of a configuration are pushed, one after the other.
pub data ArePushed (S : Services) (config : Config)
    : Dict Text RootDevice → World S.Sids → World S.Sids → Type 0 where
  none_left : (w : World S.Sids) → ArePushed S config [] w w
  and_then :
      (id : Text) (fabric : RootDevice) (configs : Dict Text RootDevice) (w u v : World S.Sids)
      → IsFabricPushed S config id fabric w u
      → ArePushed S config configs u v
      → ArePushed S config ((id, fabric) ∷ configs) w v
