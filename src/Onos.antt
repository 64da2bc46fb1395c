-- ===== src/Onos.antt =====
-- `handleRoute` and `SynchronizeFabricToOnos` of pkg/synchronizer/synchronize-device.go: a fabric
-- into a network configuration, and its push to ONOS.
pub mod MapOrder
pub mod Resend
pub mod Routes
pub mod Safe
pub mod Invariants
pub mod OwnSids
pub mod Documents
use fabric_adapter.Base.{
  ℕ, Bool, true, false, ◌&&◌, Option, none, some, List, [], ◌∷◌, ◌++◌, Text, Dict, codes, keys,
  lookup, insert, text_eq, if◌then◌else◌, Error, json_failed, push_failed, no_endpoint, Result, ok,
  err, Outcome, ret, fail, panic, Go, pure, raise, deref, lift, gets, modify, ◌>>=◌, ◌>>◌,
  for_logged,
}
use fabric_adapter.Fabric.{Route, Switch, RootDevice}
use fabric_adapter.Netcfg.{OnosApp, OnosRoute, OnosNetConfig, onos_route_app_name}
use fabric_adapter.Netcfg.Encode.{marshal_indent}
use fabric_adapter.Lookup.{lookup_switch_model, validate_route}
use fabric_adapter.Switch.{handle_switch}
use fabric_adapter.Sorting.{sort_strings}
use fabric_adapter.Cache.{cache_check, cache_update, cache_model_net_config}
use fabric_adapter.Pusher.{rest_push_update, new_rest_pusher}
use fabric_adapter.World.{Services, World, FabricScope, Config}

-- `&onosApp{Routes: []onosRoute{}}`
abbrev pub new_route_app : OnosApp
new_route_app = record {
  routes = [];
  up4 = none;
  dhcp_default = none;
  telemetry_report = none;
  telemetry_queue_report_latency_thresholds = [];
}

-- the route app of a configuration, a new one if there is none
abbrev pub route_app : Option OnosApp → OnosApp
route_app none = new_route_app
route_app (some app) = app

-- one more route, in the app's list
unfoldable pub add_route : OnosRoute → OnosNetConfig → OnosNetConfig
add_route route c =
    let app = route_app (lookup onos_route_app_name c.apps) in
    record c {
      apps = insert onos_route_app_name (record app { routes = app.routes ++ route ∷ [] }) c.apps;
    }

module _ {Sids : Type 0} where
  -- `handleRoute`
  unfoldable pub handle_route : Route → Go (World Sids) (Unit {0})
  handle_route route = do
    validate_route route
    prefix ← deref route.prefix
    address ← deref route.address
    modify (λ w. record w {
      net_config = add_route (record { prefix = prefix; next_hop = address }) w.net_config;
    })

-- Go's `(int, error)`
abbrev pub Pushes : Type 0
Pushes = ℕ × Option Error

-- The error of a call as the second result, beside a count.
abbrev pub or_failures {ℓ} :
    {W : Type ℓ} → ℕ → (Error → Error) → Outcome W (Unit {0}) → Go W Pushes → Outcome W Pushes
or_failures n f (ret u w) k = k w
or_failures n f (fail e w) k = ret (n, some (f e)) w
or_failures n f panic k = panic

abbrev pub onos_url : Text → Text
onos_url endpoint = endpoint ++ codes "onos/v1/network/configuration"

module _ (S : Services) where
  open S use {Sids}

  -- one round of the loop over the switches
  unfoldable pub onos_switch : FabricScope → Text → Go (World Sids) (Unit {0})
  onos_switch scope id = do
    sw ← deref (lookup id scope.fabric.switch)
    model ← lookup_switch_model scope.fabric sw.model_id
    handle_switch S scope sw model

  -- The first half of `SynchronizeFabricToOnos`: switches in the order of their ids, then routes.
  unfoldable pub build_netconfig : FabricScope → Go (World Sids) (Unit {0})
  unfolding onos_switch
  build_netconfig scope = do
    for_logged (sort_strings (keys scope.fabric.switch)) (onos_switch scope)
    for_logged scope.fabric.route handle_route

  -- `s.partialUpdateEnable && s.CacheCheck(…)`
  unfoldable pub unchanged : Config → Text → World Sids → Bool
  unchanged config fabric_id w =
      config.partial_update_enable
      && cache_check cache_model_net_config fabric_id w.net_config w.cache

  abbrev pub update_cache : Text → World Sids → World Sids
  update_cache fabric_id w = record w {
    cache = cache_update cache_model_net_config fabric_id w.net_config w.cache;
  }

  -- the push itself, once there is something to send and somewhere to send it
  unfoldable pub push_to : FabricScope → Text → Text → Go (World Sids) Pushes
  push_to scope endpoint body = do
    username ← deref scope.onos_username
    password ← deref scope.onos_password
    λ w.
        or_failures 1 (push_failed scope.fabric_id)
          (rest_push_update S (new_rest_pusher (onos_url endpoint) username password body) w)
          (modify (update_cache scope.fabric_id) >> pure (0, none))

  unfoldable pub send_netconfig : FabricScope → Result Text → Go (World Sids) Pushes
  unfolding push_to
  send_netconfig scope (err e) = pure (0, some (json_failed scope.fabric_id e))
  send_netconfig scope (ok body) = elim scope.onos_endpoint [
    | none ↦ pure (0, some (no_endpoint scope.fabric_id))
    | some endpoint ↦ push_to scope endpoint body
  ]

  -- The second half: nothing is sent if the cache holds this configuration.
  unfoldable pub push_netconfig : Config → FabricScope → Go (World Sids) Pushes
  unfolding unchanged send_netconfig
  push_netconfig config scope w =
      if unchanged config scope.fabric_id w
      then ret (0, none) w
      else send_netconfig scope (marshal_indent w.net_config) w

  -- `SynchronizeFabricToOnos`
  unfoldable pub synchronize_fabric_to_onos : Config → FabricScope → Go (World Sids) Pushes
  synchronize_fabric_to_onos config scope = do build_netconfig scope; push_netconfig config scope
