-- ===== src/Examples/Adapters.antt =====
-- The whole synchronizer (pkg/synchronizer/synchronizer.go and synchronize-device.go) and the start of
-- the process (cmd/fabric-adapter/fabric-adapter.go), at concrete inputs.
use fabric_adapter.Base.{
  ℕ, ◌≡◌, refl, true, none, some, [], ◌∷◌, Text, Dict, codes, lookup, text_eq, text_eqb, external,
  length, Outcome, fail, panic, Result, ok, err, ret, List,
}
use fabric_adapter.Fabric.{RootDevice}
use fabric_adapter.Fabric.Formed.{IsFormedSwitch, IsFormedModel, IsFormed}
use fabric_adapter.Netcfg.Entries.{lookup-All}
use fabric_adapter.Queue.{apply, forced, deleted, copy_configs, ConfigUpdate}
use fabric_adapter.Synchronizer.Newest.{
  Request, callbacks, newest, cache_left, waiting_queue, adapter_with, callbacks_are_serviced,
}
use fabric_adapter.Device.{synchronize_device}
use fabric_adapter.Device.Willing.{AreWilling}
use fabric_adapter.Device.Pushed.{ArePushed}
use fabric_adapter.Device.Succeeds.{synchronize_device-ArePushed}
use fabric_adapter.Synchronizer.{ended, success}
use fabric_adapter.Synchronizer.Adapter.{Adapter, service}
use fabric_adapter.Command.{default_flags, create, Outside, Event, main}
use fabric_adapter.Command.Startup.{altered, post_flags-no_effect}
use fabric_adapter.Version.{default_build}
use fabric_adapter.Examples.Data.{willing, leaf, model, routes, config, world}
use fabric_adapter.World.{World}

-- a leaf alone
abbrev leaf_fabric : RootDevice
leaf_fabric = record {
  switch = (codes "leaf1", leaf) ∷ [];
  switch_model = (codes "m", model) ∷ [];
  route = routes;
}

leaf-IsFormedSwitch : IsFormedSwitch leaf
unfolding lookup text_eqb
leaf-IsFormedSwitch = record {
  id = codes "leaf1";
  identified = refl;
  name = codes "Leaf 1";
  named = refl;
  management = record { address = some (codes "10.0.0.1"); port_number = some 9559 };
  managed = refl;
  address = codes "10.0.0.1";
  addressed = refl;
  port_number = 9559;
  numbered = refl;
  ports = (record { cage = (1, refl); channel = (0, refl); named = (codes "p1", refl) }, tt);
  pairing = ((1, refl), tt);
  transport = tt;
}

model-IsFormedModel : IsFormedModel model
unfolding lookup
model-IsFormedModel = tt

pub leaf_fabric-IsFormed : IsFormed leaf_fabric
leaf_fabric-IsFormed = record {
  switches =
      λ id sw e. lookup-All IsFormedSwitch id leaf_fabric.switch sw (leaf-IsFormedSwitch, tt) e;
  models =
      λ id m e. lookup-All IsFormedModel id leaf_fabric.switch_model m (model-IsFormedModel, tt) e;
  routes = ((codes "r1", refl), ((codes "r2", refl), tt));
}

abbrev pub forest : Dict Text RootDevice
forest = (codes "f", leaf_fabric) ∷ []

pub willing-AreWilling : AreWilling willing
willing-AreWilling = record {
  sids = λ id. record { ends = λ s. tt };
  encoded = λ c. ([], refl);
  requested = λ method url. refl;
  posted = λ before req. (record { status_code = 200; status = codes "200 OK" }, refl, refl);
  set = λ before endpoint target secure req. refl;
  certified = λ ca key cert. refl;
  dialled = λ endpoint. refl;
  located = λ before name. (
    name,
    record {
      control_endpoint = some (codes "onos", 8181);
      username = codes "onos";
      password = codes "rocks";
    },
    refl,
    refl,
    ((codes "onos", 8181), refl),
  );
}

synchronize_device-ArePushed_example :
    (v : World ℕ) × (synchronize_device willing config 0 forest world ≡ ret (0, none) v)
    × ArePushed willing config forest world v
synchronize_device-ArePushed_example =
    synchronize_device-ArePushed willing willing-AreWilling config forest world
      (leaf_fabric-IsFormed, tt)

abbrev copier : RootDevice → Result RootDevice
copier c = ok c

abbrev nothing : Adapter willing → Adapter willing
nothing a = a

-- an update that is overtaken by a forced one, and a delete
abbrev requests : List Request
requests =
    record { config = []; callback_type = apply; target = codes "f" }
    ∷ record { config = forest; callback_type = forced; target = codes "f" }
    ∷ record { config = []; callback_type = deleted; target = codes "f" }
    ∷ []

abbrev update : ConfigUpdate
update = record { config = forest; callback_type = forced; target = codes "f" }

forced_is_newest : newest copier requests none ≡ some update
unfolding newest copy_configs
forced_is_newest = refl

callbacks_are_serviced_example :
    (v : World ℕ) × (callbacks willing copier requests (adapter_with willing copier none [] world)
      ≡ some (adapter_with willing copier (some update) (cache_left requests []) world))
    × (synchronize_device willing config 0 forest (record world { cache = cache_left requests [] })
        ≡ ret (0, none) v)
    × (service willing config nothing 1
          (adapter_with willing copier (some update) (cache_left requests []) world)
        ≡ some (ended success (record { queue = waiting_queue none; world = v })))
callbacks_are_serviced_example =
    callbacks_are_serviced willing copier willing-AreWilling config nothing requests [] world update
      0 forced_is_newest (leaf_fabric-IsFormed, tt)

-- a process whose port is taken, and one without credentials
abbrev outside : Outside
outside = record {
  build = default_build;
  supported_models = codes "sdn-fabric-0.1.x" ∷ [];
  server_credentials = ok tt;
  new_target = ok tt;
  tcp_listen = λ address. err (external (codes "address already in use"));
  grpc_serve = ok tt;
}

abbrev events : Outcome (List Event) (Unit {0}) → List Event
events (ret u es) = es
events (fail e es) = es
events panic = []

abbrev counted_events : Outside → ℕ
counted_events o = length (events (main o default_flags []))

-- the log line alone, or all up to the listener
main_samples :
    (counted_events (record outside { server_credentials = err (external []) }) ≡ 1)
    × (counted_events outside ≡ 8)
unfolding main
main_samples = (refl, refl)

post_flags-no_effect_example :
    synchronize_device willing (altered default_flags true 3) 0 forest
    ≡ synchronize_device willing (create default_flags).0 0 forest
post_flags-no_effect_example = post_flags-no_effect willing default_flags true 3 0 forest
