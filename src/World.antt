-- ===== src/World.antt =====
-- What the synchronizer works with: the state that its calls change, and the code that it calls but
-- does not implement.
use fabric_adapter.Base.{ℕ, Option, List, Text, Dict, Result, Error, Go, Bool}
use fabric_adapter.Fabric.{RootDevice}
use fabric_adapter.Netcfg.{OnosNetConfig}
use fabric_adapter.Chassis.{ChassisConfig}

-- A request of the REST pusher: method, URL, credentials, content type and body.
pub record HttpRequest : Type 0 where
  pub method : Text
  pub url : Text
  pub basic_auth : Option (Text × Text)
  pub content_type : Option Text
  pub body : Text

pub record HttpResponse : Type 0 where
  pub status_code : ℕ
  pub status : Text

-- A gNMI `SetRequest` with one `Update` in its `Replace` list, as the gNMI pusher sends it.
pub record SetRequest : Type 0 where
  pub elem : List Text
  pub target : Text
  pub bytes_val : Text

-- A call that left the process.
pub data Call : Type 0 where
  http_call : HttpRequest → Call
  -- destination, target, secure
  gnmi_call : Text → Text → Bool → SetRequest → Call

-- `ControllerInfo` of the topology service, as far as it is read.
pub record ControllerInfo : Type 0 where
  pub control_endpoint : Option (Text × ℕ)
  pub username : Text
  pub password : Text

-- The code outside the repository. An answer may depend on all earlier calls, so nothing is assumed
-- of the servers. `sid_get` is the `Get` of a `SIDStore`, on the state `Sids` behind it.
pub record Services : Type 1 where
  pub Sids : Type 0
  pub sid_get : Text → Go Sids ℕ
  pub marshal_text : ChassisConfig → Result Text
  pub new_request : Text → Text → Result (Unit {0})
  pub http_do : List Call → HttpRequest → Result HttpResponse
  pub Object : Type 0
  pub cert_paths : Text → Text → Text → Result (Unit {0})
  pub dial : Text → Result (Unit {0})
  pub topo_get : List Call → Text → Result Object
  pub get_aspect : Object → Result ControllerInfo
  pub from_grpc : Error → Error
  pub error_text : Error → Text
  pub gnmi_set : List Call → Text → Text → Bool → SetRequest → Result (Unit {0})

-- `nextIP` is the global counter of util.go, `cache` that of the synchronizer; `net_config` and
-- `chassis` are `NetConfig` and `StratumChassisConfig` of the scope. `kpi_total` has an entry for each
-- increment of the counter `KpiSynchronizationTotal`.
pub record World (Sids : Type 0) : Type 0 where
  pub net_config : OnosNetConfig
  pub chassis : ChassisConfig
  pub next_ip : ℕ
  pub sids : Sids
  pub cache : Dict Text OnosNetConfig
  pub calls : List Call
  pub kpi_total : List Text

-- `FabricScope`, less what is state. `Switch`, `SwitchModel` and `SecureTransport` are set before
-- each use and are arguments instead. `FabricId` and `Fabric` are set by every caller.
pub record FabricScope : Type 0 where
  pub fabric_id : Text
  pub fabric : RootDevice
  pub onos_endpoint : Option Text
  pub onos_username : Option Text
  pub onos_password : Option Text
  pub stratum_endpoint : Option Text

-- What the options of `NewSynchronizer` set.
pub record Config : Type 0 where
  pub post_enable : Bool
  pub post_timeout : ℕ
  pub partial_update_enable : Bool
  pub topo_endpoint : Text
  pub ca_path : Text
  pub key_path : Text
  pub cert_path : Text
