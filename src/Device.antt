-- ===== src/Device.antt =====
-- `SynchronizeFabricToStratum` and `SynchronizeDevice` of pkg/synchronizer/synchronize-device.go, and
-- the topology lookups of pkg/synchronizer/lookup.go: a whole configuration, fabric by fabric.
pub mod MapOrder
pub mod Kept
pub mod Counted
pub mod NoManagement
pub mod Failures
pub mod Pushed
pub mod Willing
pub mod Rounds
pub mod Succeeds
pub mod Recovery
pub mod Recovers
use fabric_adapter.Base.{
  ℕ, ◌+◌, Bool, Option, none, some, List, [], ◌∷◌, ◌++◌, Text, Dict, codes, decimal, keys, lookup,
  text_eq, Error, Result, ok, err, Outcome, ret, fail, panic, continue, logged, Go, pure, raise,
  deref, lift, gets, modify, ◌>>=◌, ◌>>◌, wrapped,
}
use fabric_adapter.Fabric.{Management, Switch, SwitchModel, RootDevice}
use fabric_adapter.Netcfg.{OnosNetConfig}
use fabric_adapter.Chassis.{ChassisConfig, empty_chassis_config}
use fabric_adapter.Lookup.{lookup_switch_model}
use fabric_adapter.Sorting.{sort_strings}
use fabric_adapter.Stratum.{handle_stratum_switch, use_secure_transport, on_chassis}
use fabric_adapter.Pusher.{gnmi_push_update, new_gnmi_pusher}
use fabric_adapter.Onos.{Pushes, or_failures, synchronize_fabric_to_onos}
use fabric_adapter.Util.{get_stratum_endpoint}
use fabric_adapter.World.{ControllerInfo, Services, World, FabricScope, Config}

-- `getStratumEndpoint(*sw.Management.Address, *sw.Management.PortNumber)`
unfoldable pub stratum_uri {ℓ} : {W : Type ℓ} → Switch → Go W Text
unfolding get_stratum_endpoint
stratum_uri sw = do
  management ← deref sw.management
  address ← deref management.address
  port_number ← deref management.port_number
  pure (get_stratum_endpoint address port_number)

-- `if err != nil { log.Warn(err); continue }` and else the rest of the round
abbrev pub or_skip {ℓ κ μ} :
    {W : Type ℓ} {A : Type κ} {B : Type μ} → Outcome W A → (A → Go W B) → Go W B → Outcome W B
or_skip (ret a w) body next = body a w
or_skip (fail e w) body next = next w
or_skip panic body next = panic

module _ (S : Services) where
  open S use {Sids, marshal_text, gnmi_set}

  -- the push at the end of a round
  unfoldable pub push_chassis : Switch → Bool → Text → Go (World Sids) (Unit {0})
  unfolding stratum_uri
  push_chassis sw secure proto = do
    switch_id ← deref sw.switch_id
    uri ← stratum_uri sw
    gnmi_push_update S (new_gnmi_pusher uri [] proto [] secure)

  -- A round after the model was found; the rounds that follow are run by `next`. An error in
  -- `handleStratumSwitch` is logged, and what was built is pushed all the same; an error in the
  -- encoding or in the push ends the loop.
  unfoldable pub stratum_round :
      FabricScope → Switch → SwitchModel → Go (World Sids) Pushes → Go (World Sids) Pushes
  unfolding push_chassis
  stratum_round scope sw model next = do
    secure ← use_secure_transport sw
    (λ w. logged (handle_stratum_switch scope sw model w))
    encoded ← gets (λ w. marshal_text w.chassis)
    λ w. or_failures 1 (λ e. e) (continue (lift encoded w) (push_chassis sw secure)) next

  unfoldable pub stratum_loop : FabricScope → List Text → Go (World Sids) Pushes
  unfolding stratum_round
  stratum_loop scope [] w = ret (0, none) w
  stratum_loop scope (id ∷ ids) w =
      continue
        ((do on_chassis (λ c. empty_chassis_config); deref (lookup id scope.fabric.switch)) w)
        (λ sw w'.
          or_skip (lookup_switch_model scope.fabric sw.model_id w')
            (λ model. stratum_round scope sw model (stratum_loop scope ids))
            (stratum_loop scope ids))

  -- `SynchronizeFabricToStratum`
  unfoldable pub synchronize_fabric_to_stratum : FabricScope → Go (World Sids) Pushes
  synchronize_fabric_to_stratum scope = stratum_loop scope (sort_strings (keys scope.fabric.switch))

abbrev pub empty_net_config : OnosNetConfig
empty_net_config = record { devices = []; ports = []; hosts = []; apps = [] }

-- `fmt.Sprintf("http://%s:%d/", …)`
abbrev pub controller_uri : Text → ℕ → Text
controller_uri address port = codes "http://" ++ (address ++ (b':' ∷ (decimal port ++ b'/' ∷ [])))

abbrev pub new_scope : Text → RootDevice → Text → ControllerInfo → FabricScope
new_scope fabric_id fabric uri info = record {
  fabric_id = fabric_id;
  fabric = fabric;
  onos_endpoint = some uri;
  onos_username = some info.username;
  onos_password = some info.password;
  stratum_endpoint = some uri;
}

-- an error ends the loop over the fabrics
abbrev pub or_error {ℓ} : {W : Type ℓ} → Outcome W ℕ → (ℕ → Go W Pushes) → Outcome W Pushes
or_error (ret n w) next = next n w
or_error (fail e w) next = ret (0, some e) w
or_error panic next = panic

-- `getTopoClient`: the certificates, then the connection; both errors are logged and returned.
unfoldable pub get_topo_client : (S : Services) → Config → Result (Unit {0})
get_topo_client S config = elim (S.cert_paths config.ca_path config.key_path config.cert_path) [
  | err e ↦ err e
  | ok u ↦ S.dial config.topo_endpoint
]

module _ (S : Services) where
  open S use {Sids, topo_get, get_aspect, from_grpc}

  -- `lookupFabricControllerInfo`; its last log line reads through the control endpoint
  unfoldable pub lookup_fabric_controller_info :
      Config → Text → Go (World Sids) (Text × ℕ × ControllerInfo)
  unfolding get_topo_client
  lookup_fabric_controller_info config fabric_name = do
    wrapped from_grpc (lift (get_topo_client S config))
    before ← gets (λ w. w.calls)
    object ← wrapped from_grpc (lift (topo_get before fabric_name))
    info ← wrapped from_grpc (lift (get_aspect object))
    (address, port) ← deref info.control_endpoint
    pure (address, port, info)

  -- the state at the start of a fabric: the counter is up, the scope is new
  abbrev pub start_fabric : Text → World Sids → World Sids
  start_fabric fabric_id w = record w {
    kpi_total = w.kpi_total ++ fabric_id ∷ [];
    net_config = empty_net_config;
    chassis = empty_chassis_config;
  }

  -- one fabric: the number of its pushes that failed
  unfoldable pub synchronize_fabric : Config → Text → RootDevice → Go (World Sids) ℕ
  unfolding lookup_fabric_controller_info
  synchronize_fabric config fabric_id fabric = do
    (address, port, info) ← lookup_fabric_controller_info config fabric_id
    modify (start_fabric fabric_id)
    let scope = new_scope fabric_id fabric (controller_uri address port) info
    onos ← synchronize_fabric_to_onos S config scope
    stratum ← synchronize_fabric_to_stratum S scope
    pure (onos.0 + stratum.0)

  -- `SynchronizeDevice`, over the fabrics in the map's order of iteration. An error of the topology
  -- lookup returns at once, with 0 failures.
  unfoldable pub synchronize_device : Config → ℕ → Dict Text RootDevice → Go (World Sids) Pushes
  synchronize_device config total [] w = ret (total, none) w
  synchronize_device config total ((fabric_id, fabric) ∷ configs) w =
      or_error (synchronize_fabric config fabric_id fabric w)
        (λ failures. synchronize_device config (total + failures) configs)
