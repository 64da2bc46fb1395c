-- ===== src/Device/Succeeds.antt =====
-- `SynchronizeDevice` (pkg/synchronizer/synchronize-device.go) on configurations with no nil pointer
-- where it reads through one, with services that answer: everything is pushed.
use mathlib.Core.List.{append_assoc, append-nil}
use fabric_adapter.Base.{
  ℕ, ◌+◌, ◌≡◌, refl, sym, ap, ◌∙◌, After, none, [], ◌∷◌, Text, Dict, ◌++◌, text_eq, ret, arith, All,
  Bool-cases, inl, inr,
}
use fabric_adapter.Fabric.{RootDevice}
use fabric_adapter.Fabric.Formed.{IsFormed}
use fabric_adapter.Netcfg.Encode.{marshal_indent, net_config_json}
use fabric_adapter.Pusher.{new_rest_pusher}
use fabric_adapter.Onos.{
  update_cache, onos_url, unchanged, push_netconfig, synchronize_fabric_to_onos,
}
use fabric_adapter.Onos.Invariants.{SendsNothing, build_netconfig-SendsNothing}
use fabric_adapter.Json.Print.{print}
use fabric_adapter.Onos.Safe.{build_netconfig-ret}
use fabric_adapter.Device.{
  start_fabric, new_scope, controller_uri, synchronize_fabric, synchronize_device,
}
use fabric_adapter.World.{ControllerInfo, Services, World, FabricScope, Config}
use mathlib.Core.Path.{subst}
use fabric_adapter.Device.Pushed.{posts, IsFabricPushed, ArePushed, none_left, and_then}
use fabric_adapter.Device.Willing.{
  willing-AreReachable, info-Succeeds, AreWilling, Sends, rest_push-Sends,
}
use fabric_adapter.Device.Rounds.{stratum-Sends}

module _ (S : Services) (h : AreWilling S) where
  module _ (config : Config) (id : Text) (fabric : RootDevice) (uri : Text) (info : ControllerInfo)
      (f : IsFormed fabric) where
    abbrev scope : FabricScope
    scope = new_scope id fabric uri info

    push_netconfig-Sends :
        (w : World S.Sids)
        → Sends w
            (push_netconfig S config scope w)
            (0, none)
            (posts (unchanged S config id w) uri info w.net_config)
    unfolding push_netconfig marshal_indent
    push_netconfig-Sends w = elim (Bool-cases (unchanged S config id w)) [
      | inl e ↦ (w, ground (arith, e), rw e (sym (append-nil w.calls)))
      | inr e ↦
          let (v, pushed, made) =
            rest_push-Sends S h
              (new_rest_pusher (onos_url uri) info.username info.password
                (print 0 (net_config_json w.net_config)))
              w in
          (update_cache S id v, ground (arith, e, pushed), rw e made)
    ]

  module _ (config : Config) where
    fabric-IsFabricPushed :
        (id : Text) (fabric : RootDevice) (w : World S.Sids)
        → IsFormed fabric
        → (v : World S.Sids) × (synchronize_fabric S config id fabric w ≡ ret 0 v)
          × IsFabricPushed S config id fabric w v
    unfolding synchronize_fabric synchronize_fabric_to_onos
    fabric-IsFabricPushed id fabric w f =
        let (address, port, info, found) = info-Succeeds S (willing-AreReachable S h) config id w in
        let uri = controller_uri address port in
        let scope' = new_scope id fabric uri info in
        let start = start_fabric S id w in
        let (b, construction) = build_netconfig-ret S h.sids scope' f start in
        let (v, pushed, made) = push_netconfig-Sends config id fabric uri info f b in
        let (calls, each, sends) = stratum-Sends S h scope' f v in
        let (u, stratum, more) = sends in
        let same : b.calls ≡ w.calls =
          (subst (After (SendsNothing S start)) construction
            (build_netconfig-SendsNothing S scope' start)).0 in
        (
          u,
          ground (arith, found, construction, pushed, stratum),
          record {
            address = address;
            port = port;
            info = info;
            located = found;
            built = b;
            construction = construction;
            stratum = calls;
            switches = each;
            sent_calls =
                more
                ∙ ap (λ cs. cs ++ calls) made
                ∙ ap (λ cs. (cs ++ posts (unchanged S config id b) uri info b.net_config) ++ calls)
                    same
                ∙ append_assoc w.calls _ calls;
          },
        )

    from_count :
        (total : ℕ) (configs : Dict Text RootDevice) (w : World S.Sids)
        → All (λ (p : Text × RootDevice). IsFormed p.1) configs
        → (v : World S.Sids) × (synchronize_device S config total configs w ≡ ret (total, none) v)
          × ArePushed S config configs w v
    unfolding synchronize_device
    from_count total [] w f = (w, refl, none_left w)
    from_count total ((id, fabric) ∷ configs) w f =
        let (u, first, pushed) = fabric-IsFabricPushed id fabric w f.0 in
        let (v, rest, others) = from_count (total + 0) configs u f.1 in
        (v, ground (arith, first, rest), and_then id fabric configs w u v pushed others)

    -- If the services answer each call with success and the fabrics have no nil pointer where one
    -- is read without a test, SynchronizeDevice returns with no failure and no error and has
    -- made, for each fabric in turn, these calls and no others: the POST of the network
    -- configuration that was built, to the controller that the topology has, unless the cache
    -- holds that configuration; and then, in the order of the switch ids, one gNMI Set for each
    -- switch that has a model, to its management address, of the encoded chassis configuration
    -- with the ports that its model knows and whose speed can be read.
    pub synchronize_device-ArePushed :
        (configs : Dict Text RootDevice) (w : World S.Sids)
        → All (λ (p : Text × RootDevice). IsFormed p.1) configs
        → (v : World S.Sids) × (synchronize_device S config 0 configs w ≡ ret (0, none) v)
          × ArePushed S config configs w v
    synchronize_device-ArePushed = from_count 0
