-- ===== src/Device/Counted.antt =====
-- The counter `KpiSynchronizationTotal` of `SynchronizeDevice`
-- (pkg/synchronizer/synchronize-device.go): one increment for each fabric.
use mathlib.Core.Path.{subst}
use mathlib.Core.List.{append_assoc, append-nil}
use fabric_adapter.Base.{
  ℕ, ◌+◌, ◌≡◌, refl, ◌∙◌, ap, none, List, [], ◌∷◌, ◌++◌, Text, Dict, keys, text_eq, Outcome, ret,
  fail, panic, Go, pure, gets, ◌>>=◌, bind-elim, After, Keeps, keeps, Keeps-bind, Keeps-deref,
  Keeps-lift, Keeps-wrapped, arith,
}
use fabric_adapter.Fabric.{RootDevice}
use fabric_adapter.Sorting.{sort_strings}
use fabric_adapter.Onos.{Pushes, synchronize_fabric_to_onos}
use fabric_adapter.Device.{
  synchronize_fabric_to_stratum, lookup_fabric_controller_info, get_topo_client, start_fabric,
  new_scope, controller_uri, synchronize_fabric, synchronize_device, or_error,
}
use fabric_adapter.World.{Services, World, FabricScope, Config}
use fabric_adapter.Device.Kept.{HasCount, Keeps-onos, Keeps-stratum_loop}

module _ (S : Services) (config : Config) where
  Keeps-info :
      (count : List Text) (name : Text)
      → Keeps (HasCount S count) (lookup_fabric_controller_info S config name)
  unfolding lookup_fabric_controller_info
  Keeps-info count name =
      Keeps-bind (HasCount S count) _ _
        (Keeps-wrapped (HasCount S count) S.from_grpc _
          (Keeps-lift (HasCount S count) (get_topo_client S config)))
        (λ _. Keeps-bind (HasCount S count) (gets (λ w. w.calls)) _ (keeps (λ w h. h)) (λ before.
          Keeps-bind (HasCount S count) _ _
            (Keeps-wrapped (HasCount S count) S.from_grpc _
              (Keeps-lift (HasCount S count) (S.topo_get before name)))
            (λ object.
              Keeps-bind (HasCount S count) _ _
                (Keeps-wrapped (HasCount S count) S.from_grpc _
                  (Keeps-lift (HasCount S count) (S.get_aspect object)))
                (λ info.
                  Keeps-bind (HasCount S count) _ _
                    (Keeps-deref (HasCount S count) info.control_endpoint)
                    (λ endpoint. keeps (λ w h. h))))))

  -- the rest of a fabric, once it is counted
  rest_of_fabric :
      (scope : FabricScope) (count : List Text)
      → Keeps (HasCount S count) (
          synchronize_fabric_to_onos S config scope >>= λ onos.
          synchronize_fabric_to_stratum S scope >>= λ stratum. pure (onos.0 + stratum.0))
  unfolding synchronize_fabric_to_stratum
  rest_of_fabric scope count =
      Keeps-bind (HasCount S count) _ _ (Keeps-onos S count config scope) (λ onos.
        Keeps-bind (HasCount S count) _ _
          (Keeps-stratum_loop S count scope (sort_strings (keys scope.fabric.switch)))
          (λ stratum. keeps (λ w h. h)))

  fabric_counted :
      (fabric_id : Text) (fabric : RootDevice) (w : World S.Sids) {n : ℕ} {w' : World S.Sids}
      → synchronize_fabric S config fabric_id fabric w ≡ ret n w'
      → w'.kpi_total ≡ w.kpi_total ++ fabric_id ∷ []
  unfolding synchronize_fabric
  fabric_counted fabric_id fabric w {w' = w'} e =
      bind-elim (lookup_fabric_controller_info S config fabric_id) _ e
        (λ (address, port, info) u p q.
          let before : u.kpi_total ≡ w.kpi_total =
            subst (After (HasCount S w.kpi_total)) p
              ((Keeps-info w.kpi_total fabric_id).after w refl) in
          let during : w'.kpi_total ≡ u.kpi_total ++ fabric_id ∷ [] =
            subst (After (HasCount S (u.kpi_total ++ fabric_id ∷ []))) q (
              (rest_of_fabric (new_scope fabric_id fabric (controller_uri address port) info)
                  (u.kpi_total ++ fabric_id ∷ [])).after
                (start_fabric S fabric_id u) refl) in
          during ∙ ap (λ l. l ++ fabric_id ∷ []) before)

  or_error-none :
      (o : Outcome (World S.Sids) ℕ) (next : ℕ → Go (World S.Sids) Pushes) {n : ℕ}
      {w' : World S.Sids}
      → or_error o next ≡ ret (n, none) w'
      → (m : ℕ) × (u : World S.Sids) × (o ≡ ret m u) × (next m u ≡ ret (n, none) w')
  or_error-none (ret m u) next e = (m, u, refl, e)
  or_error-none (fail x u) next e = absurd (ground (arith, e))
  or_error-none panic next e = absurd (ground (arith, e))

  -- If SynchronizeDevice returns without an error, the counter KpiSynchronizationTotal has gone
  -- up once for each fabric, in the order of the configuration.
  pub synchronize_device-counted :
      (total : ℕ) (configs : Dict Text RootDevice) (w w' : World S.Sids) (n : ℕ)
      → synchronize_device S config total configs w ≡ ret (n, none) w'
      → w'.kpi_total ≡ w.kpi_total ++ keys configs
  unfolding synchronize_device
  synchronize_device-counted total [] w w' n e = ground (arith, e, append-nil w.kpi_total)
  synchronize_device-counted total ((fabric_id, fabric) ∷ configs) w w' n e =
      let (m, u, first, later) =
        or_error-none (synchronize_fabric S config fabric_id fabric w) _ e in
      synchronize_device-counted (total + m) configs u w' n later
      ∙ ap (λ l. l ++ keys configs) (fabric_counted fabric_id fabric w first)
      ∙ append_assoc w.kpi_total (fabric_id ∷ []) (keys configs)
