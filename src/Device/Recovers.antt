-- ===== src/Device/Recovers.antt =====
-- `SynchronizeDevice` (pkg/synchronizer/synchronize-device.go) with services that refuse pushes at first:
-- a call with failed pushes brings the services closer to their recovery.
use fabric_adapter.Base.{
  ℕ, ◌+◌, ◌<◌, ◌≤◌, ◌≡◌, refl, ap, true, none, some, ◌⊎◌, inl, inr, List, [], ◌∷◌, ◌++◌, Text, Dict,
  codes, decimal, keys, lookup, length, text_eq, text_eqb, text_eqb_iff, Option-cases, Bool-cases,
  ret, After, Go, All, arith, push_failed,
}
use mathlib.Core.Path.{subst}
use fabric_adapter.Fabric.{Switch, SwitchModel, RootDevice}
use fabric_adapter.Fabric.Formed.{IsPresent, IsFormed, IsFormedSwitch, IsFormedModel}
use fabric_adapter.Chassis.{empty_chassis_config}
use fabric_adapter.Json.Print.{print}
use fabric_adapter.Netcfg.Encode.{marshal_indent, net_config_json}
use fabric_adapter.Lookup.{lookup_switch_model}
use fabric_adapter.Sorting.{sort_strings}
use fabric_adapter.Sorting.Keys.{listed}
use fabric_adapter.Util.{get_stratum_endpoint}
use fabric_adapter.Stratum.Safe.{handle_stratum_switch-ret}
use fabric_adapter.Stratum.Built.{handle_stratum_switch_lem}
use fabric_adapter.Pusher.{new_gnmi_pusher, new_rest_pusher}
use fabric_adapter.Onos.{
  Pushes, update_cache, onos_url, unchanged, push_netconfig, synchronize_fabric_to_onos,
}
use fabric_adapter.Onos.Invariants.{SendsNothing, build_netconfig-SendsNothing}
use fabric_adapter.Onos.Safe.{build_netconfig-ret, key_present}
use fabric_adapter.Device.{
  or_skip, push_chassis, stratum_round, stratum_loop, synchronize_fabric_to_stratum, start_fabric,
  new_scope, controller_uri, synchronize_fabric, synchronize_device,
}
use fabric_adapter.Device.Willing.{info-Succeeds}
use fabric_adapter.Device.Rounds.{secure-flag}
use fabric_adapter.Device.Pushed.{flag}
use fabric_adapter.World.{ControllerInfo, Services, World, FabricScope, Config}
use fabric_adapter.Device.Recovery.{
  AreRecovering, made, pushed, refused, rest-PushEnd, gnmi-PushEnd, Gains, Advances, Gains-sum,
}

module _ (n : ℕ) (S : Services) (h : AreRecovering n S) where
  module _ (config : Config) (id : Text) (fabric : RootDevice) (uri : Text) (info : ControllerInfo)
      (f : IsFormed fabric) where
    abbrev scope : FabricScope
    scope = new_scope id fabric uri info

    push_netconfig-Advances :
        (w : World S.Sids) → Advances n S h w (push_netconfig S config scope w)
    unfolding push_netconfig marshal_indent
    push_netconfig-Advances w = elim (Bool-cases (unchanged S config id w)) [
      | inl e ↦ (0, none, w, ground (arith, e), (omega arith, inl refl))
      | inr e ↦
          elim (rest-PushEnd n S h
            (new_rest_pusher (onos_url uri) info.username info.password
              (print 0 (net_config_json w.net_config)))
            w) [
              | pushed v q more ↦ (
                0,
                none,
                update_cache S id v,
                ground (arith, e, q),
                (omega (arith, more), inl refl),
              )
              | refused x v q more late ↦ (
                1,
                some (push_failed id x),
                v,
                ground (arith, e, q),
                (omega (arith, more), inr (omega (arith, more), late)),
              )
            ]
    ]

    onos-Advances :
        (w : World S.Sids) → Advances n S h w (synchronize_fabric_to_onos S config scope w)
    unfolding synchronize_fabric_to_onos
    onos-Advances w =
        let (b, built) = build_netconfig-ret S h.reachable.sids scope f w in
        let same : b.calls ≡ w.calls =
          (subst (After (SendsNothing S w)) built (build_netconfig-SendsNothing S scope w)).0 in
        let (k, x, v, ended, gains) = push_netconfig-Advances b in
        (
          k,
          x,
          v,
          ground (arith, built, ended),
          subst
              (λ cs.
                (length cs ≤ made n S h v)
                × ((k ≡ 0) ⊎ ((length cs < made n S h v) × (length cs < n))))
              same gains,
        )

    round-Advances :
        (sw : Switch) (model : SwitchModel) (next : Go (World S.Sids) Pushes) (w : World S.Sids)
        → IsFormedSwitch sw
        → IsFormedModel model
        → ((v : World S.Sids) → Advances n S h v (next v))
        → Advances n S h w (stratum_round S scope sw model next w)
    unfolding stratum_round push_chassis get_stratum_endpoint
    round-Advances sw model next w g k more =
        let (u, done) = handle_stratum_switch-ret scope sw model w k g in
        let (name, named, chassis) = handle_stratum_switch_lem scope sw model w u done in
        let secure = flag (lookup (codes "secure-transport") sw.attribute) in
        let (text, encoded) = h.reachable.encoded u.chassis in
        let same : made n S h u ≡ made n S h w = ap (made n S h) chassis in
        elim (gnmi-PushEnd n S h
          (new_gnmi_pusher (g.address ++ (b':' ∷ decimal g.port_number)) [] text [] secure) u) [
            | refused x v q grown late ↦ (
              1,
              some x,
              v,
              ground (
                arith,
                secure-flag sw w g,
                done,
                encoded,
                g.identified,
                g.managed,
                g.addressed,
                g.numbered,
                q,
              ),
              (
                omega (arith, same, grown),
                inr (omega (arith, same, grown), omega (arith, same, late)),
              ),
            )
            | pushed v q grown ↦
                let (j, x, t, ended, gains) = more v in
                (
                  j,
                  x,
                  t,
                  ground (
                    arith,
                    secure-flag sw w g,
                    done,
                    encoded,
                    g.identified,
                    g.managed,
                    g.addressed,
                    g.numbered,
                    q,
                    ended,
                  ),
                  ground (arith, same, grown, gains),
                )
          ]

    model-Advances :
        (sw : Switch) (next : Go (World S.Sids) Pushes) (w : World S.Sids)
        → IsFormedSwitch sw
        → ((v : World S.Sids) → Advances n S h v (next v))
        → Advances n S h w (
            or_skip
              (lookup_switch_model fabric sw.model_id w)
              (λ model. stratum_round S scope sw model next)
              next)
    unfolding lookup_switch_model
    model-Advances sw next w g more =
        let (j, x, t, ended, gains) = more w in
        elim (Option-cases sw.model_id) [
          | inl e ↦ (j, x, t, ground (arith, e, ended), gains)
          | inr (m, e) ↦ elim (Bool-cases (text_eqb m [])) [
            | inl blank ↦ (j, x, t, ground (arith, e, blank, ended), gains)
            | inr named ↦ elim (Option-cases (lookup m fabric.switch_model)) [
              | inl gone ↦ (j, x, t, ground (arith, e, named, gone, ended), gains)
              | inr (model, there) ↦
                  let (j', x', t', ended', gains') =
                    round-Advances sw model next w g (f.models m model there) more in
                  (j', x', t', ground (arith, e, named, there, ended'), gains')
            ]
          ]
        ]

    loop-Advances :
        (ids : List Text) (w : World S.Sids)
        → ((k : Text) → listed k ids ≡ true → IsPresent (lookup k fabric.switch))
        → Advances n S h w (stratum_loop S scope ids w)
    unfolding stratum_loop listed
    loop-Advances [] w present = (0, none, w, refl, (omega arith, inl refl))
    loop-Advances (k ∷ ids) w present =
        let (sw, e) = present k (ground (arith, text_eqb_iff k k)) in
        let (j, x, t, ended, gains) =
          model-Advances sw (stratum_loop S scope ids) (record w { chassis = empty_chassis_config })
            (f.switches k sw e) (λ u. loop-Advances ids u (λ i g. present i (ground (arith, g)))) in
        (j, x, t, ground (arith, e, ended), gains)

    stratum-Advances :
        (w : World S.Sids) → Advances n S h w (synchronize_fabric_to_stratum S scope w)
    unfolding synchronize_fabric_to_stratum
    stratum-Advances w = loop-Advances (sort_strings (keys fabric.switch)) w (key_present fabric)

  module _ (config : Config) where
    fabric_advances :
        (id : Text) (fabric : RootDevice) (w : World S.Sids)
        → IsFormed fabric
        → (k : ℕ) × (v : World S.Sids) × (synchronize_fabric S config id fabric w ≡ ret k v)
          × Gains n S h w v k
    unfolding synchronize_fabric
    fabric_advances id fabric w f =
        let (address, port, info, found) = info-Succeeds S h.reachable config id w in
        let uri = controller_uri address port in
        let start = start_fabric S id w in
        let (j, x, u, onos, first) = onos-Advances config id fabric uri info f start in
        let (k, y, v, stratum, second) = stratum-Advances config id fabric uri info f u in
        (j + k, v, ground (arith, found, onos, stratum), Gains-sum n S h w u v j k first second)

    from_count :
        (total : ℕ) (configs : Dict Text RootDevice) (w : World S.Sids)
        → All (λ (p : Text × RootDevice). IsFormed p.1) configs
        → (k : ℕ) × (v : World S.Sids) × (synchronize_device S config total configs w
            ≡ ret (total + k, none) v)
          × Gains n S h w v k
    unfolding synchronize_device
    from_count total [] w f = (0, w, ground arith, (omega arith, inl refl))
    from_count total ((id, fabric) ∷ configs) w f =
        let (j, u, first, gains) = fabric_advances id fabric w f.0 in
        let (k, v, rest, others) = from_count (total + j) configs u f.1 in
        (j + k, v, ground (arith, first, rest), Gains-sum n S h w u v j k gains others)

    -- every call that counts failed pushes makes some, before the recovery
    pub synchronize_device-Gains :
        (configs : Dict Text RootDevice) (w : World S.Sids)
        → All (λ (p : Text × RootDevice). IsFormed p.1) configs
        → (k : ℕ) × (v : World S.Sids) × (synchronize_device S config 0 configs w ≡ ret (k, none) v)
          × Gains n S h w v k
    synchronize_device-Gains configs w f =
        let (k, v, ended, gains) = from_count 0 configs w f in (k, v, ground (arith, ended), gains)
