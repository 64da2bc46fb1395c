-- ===== src/Onos/Invariants.antt =====
-- What `SynchronizeFabricToOnos` (pkg/synchronizer/synchronize-device.go) changes, and what it keeps.
use fabric_adapter.Base.{
  ◌≡◌, refl, Option, none, some, [], ◌∷◌, Text, Dict, text_eq, text_eqb, insert, lookup,
  insert-HasDistinctKeys, keys, After, Keeps, keeps, Keeps-deref, Keeps-modify, Keeps-bind,
  Keeps-for_logged, for_logged, All, Bool-cases, inl, inr,
}
use fabric_adapter.Fabric.{Route, RootDevice, Switch, SwitchModel}
use fabric_adapter.Netcfg.{OnosApp, OnosRoute, OnosNetConfig, onos_route_app_name}
use fabric_adapter.Netcfg.Reflexive.{AppIsMap, IsNetConfig}
use fabric_adapter.Lookup.{is_blank, lookup_switch_model, validate_route}
use fabric_adapter.Sorting.{sort_strings}
use fabric_adapter.Switch.Writes.{IsClosed, Keeps-found, Keeps-handle_switch}
use fabric_adapter.Switch.{handle_switch}
use fabric_adapter.Onos.{route_app, add_route, handle_route, onos_switch, build_netconfig}
use fabric_adapter.World.{Services, World, FabricScope}

module _ {Sids : Type 0} (P : World Sids → Type 0) where
  Keeps-validate_route : (route : Route) → Keeps P (validate_route route)
  unfolding validate_route
  Keeps-validate_route route = elim (Bool-cases (is_blank route.prefix)) [
    | inl e ↦ rw e (Keeps-bind P _ _ (Keeps-deref P route.route_id) (λ id. keeps (λ w h. h)))
    | inr e ↦ elim (Bool-cases (is_blank route.address)) [
      | inl f ↦ rw (e, f) (Keeps-bind P _ _ (Keeps-deref P route.route_id) (λ id. keeps (λ w h. h)))
      | inr f ↦ rw (e, f) (keeps (λ w h. h))
    ]
  ]

  Keeps-handle_route :
      (route : Route)
      → ((r : OnosRoute) (w : World Sids)
          → P w
          → P (record w { net_config = add_route r w.net_config }))
      → Keeps P (handle_route route)
  unfolding handle_route
  Keeps-handle_route route k = Keeps-bind P _ _ (Keeps-validate_route route) (λ _.
      Keeps-bind P _ _ (Keeps-deref P route.prefix) (λ prefix.
        Keeps-bind P _ _ (Keeps-deref P route.address)
          (λ address. Keeps-modify P _ (k (record { prefix = prefix; next_hop = address })))))

  pub Keeps-lookup_switch_model :
      (fabric : RootDevice) (id : Option Text) → Keeps P (lookup_switch_model fabric id)
  unfolding lookup_switch_model
  Keeps-lookup_switch_model fabric none = keeps (λ w h. h)
  Keeps-lookup_switch_model fabric (some id) = elim (Bool-cases (text_eqb id [])) [
    | inl e ↦ rw e (keeps (λ w h. h))
    | inr e ↦ rw e (Keeps-found P _ (lookup id fabric.switch_model))
  ]

module _ (S : Services) (P : World S.Sids → Type 0) (scope : FabricScope)
    (handled : (sw : Switch) (model : SwitchModel) → Keeps P (handle_switch S scope sw model)) where
  -- The loop over the switches keeps what `handleSwitch` keeps.
  pub Keeps-switches :
      Keeps P (for_logged (sort_strings (keys scope.fabric.switch)) (onos_switch S scope))
  unfolding onos_switch
  Keeps-switches = Keeps-for_logged P (sort_strings (keys scope.fabric.switch)) _ (λ id.
      Keeps-bind P _ _ (Keeps-deref P (lookup id scope.fabric.switch)) (λ sw.
        Keeps-bind P _ _ (Keeps-lookup_switch_model P scope.fabric sw.model_id) (handled sw)))

  -- The construction of a configuration keeps what its parts keep.
  pub Keeps-build_netconfig :
      ((r : OnosRoute) (w : World S.Sids)
        → P w
        → P (record w { net_config = add_route r w.net_config }))
      → Keeps P (build_netconfig S scope)
  unfolding build_netconfig
  Keeps-build_netconfig route_added = Keeps-bind P _ _ Keeps-switches (λ _.
      Keeps-for_logged P scope.fabric.route _ (λ route. Keeps-handle_route P route route_added))

app_inserted :
    (k : Text) (a : OnosApp) (m : Dict Text OnosApp)
    → AppIsMap a
    → All (λ (p : Text × OnosApp). AppIsMap p.1) m
    → All (λ (p : Text × OnosApp). AppIsMap p.1) (insert k a m)
unfolding insert
app_inserted k a [] g h = (g, tt)
app_inserted k a ((j, b) ∷ m) g h = elim (Bool-cases (text_eqb j k)) [
  | inl e ↦ rw e (g, h.1)
  | inr e ↦ rw e (h.0, app_inserted k a m g h.1)
]

route_app-AppIsMap :
    (k : Text) (m : Dict Text OnosApp)
    → All (λ (p : Text × OnosApp). AppIsMap p.1) m
    → AppIsMap (route_app (lookup k m))
unfolding lookup
route_app-AppIsMap k [] h = tt
route_app-AppIsMap k ((j, b) ∷ m) h = elim (Bool-cases (text_eqb j k)) [
  | inl e ↦ rw e h.0
  | inr e ↦ rw e (route_app-AppIsMap k m h.1)
]

add_route-IsNetConfig :
    (r : OnosRoute) (c : OnosNetConfig) → IsNetConfig c → IsNetConfig (add_route r c)
unfolding add_route
add_route-IsNetConfig r c h = record {
  devices_distinct = h.devices_distinct;
  ports_distinct = h.ports_distinct;
  hosts_distinct = h.hosts_distinct;
  apps_distinct = insert-HasDistinctKeys onos_route_app_name _ c.apps h.apps_distinct;
  apps_are_maps =
      app_inserted onos_route_app_name _ c.apps
        (route_app-AppIsMap onos_route_app_name c.apps h.apps_are_maps) h.apps_are_maps;
}

module _ (S : Services) where
  abbrev pub HoldsMaps : World S.Sids → Type 0
  HoldsMaps w = IsNetConfig w.net_config

  HoldsMaps-IsClosed : IsClosed HoldsMaps
  HoldsMaps-IsClosed = record {
    port_written = λ key p w h. record {
      devices_distinct = h.devices_distinct;
      ports_distinct = insert-HasDistinctKeys key p w.net_config.ports h.ports_distinct;
      hosts_distinct = h.hosts_distinct;
      apps_distinct = h.apps_distinct;
      apps_are_maps = h.apps_are_maps;
    };
    device_written = λ key d w h. record {
      devices_distinct = insert-HasDistinctKeys key d w.net_config.devices h.devices_distinct;
      ports_distinct = h.ports_distinct;
      hosts_distinct = h.hosts_distinct;
      apps_distinct = h.apps_distinct;
      apps_are_maps = h.apps_are_maps;
    };
    sids_written = λ s w h. h;
    next_ip_written = λ n w h. h;
  }

  -- the association lists of the maps have each key once
  pub build_netconfig-IsNetConfig :
      (scope : FabricScope) → Keeps HoldsMaps (build_netconfig S scope)
  build_netconfig-IsNetConfig scope =
      Keeps-build_netconfig S HoldsMaps scope
        (Keeps-handle_switch S HoldsMaps HoldsMaps-IsClosed scope)
        (λ r w. add_route-IsNetConfig r w.net_config)

  abbrev pub SendsNothing : World S.Sids → World S.Sids → Type 0
  SendsNothing v w =
      (w.calls ≡ v.calls)
      × (w.cache ≡ v.cache)
      × (w.chassis ≡ v.chassis)
      × (w.kpi_total ≡ v.kpi_total)

  -- While a network configuration is built, however that ends short of a panic, no call is made,
  -- and the cache, the chassis configuration and the counter of synchronizations stay as they
  -- are.
  pub build_netconfig-SendsNothing :
      (scope : FabricScope) (w : World S.Sids) → After (SendsNothing w) (build_netconfig S scope w)
  build_netconfig-SendsNothing scope w =
      (Keeps-build_netconfig S (SendsNothing w) scope
          (Keeps-handle_switch S (SendsNothing w)
            (record {
              port_written = λ key p v h. h;
              device_written = λ key d v h. h;
              sids_written = λ s v h. h;
              next_ip_written = λ n v h. h;
            })
            scope)
          (λ r v h. h)).after
        w (refl, refl, refl, refl)
