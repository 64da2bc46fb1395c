-- ===== src/Device/MapOrder.antt =====
-- `SynchronizeFabricToStratum` (pkg/synchronizer/synchronize-device.go) sorts the switches too.
use mathlib.Core.List.{Perm}
use fabric_adapter.Base.{
  ◌≡◌, refl, ap, ◌∙◌, Option, List, [], ◌∷◌, Text, Dict, text_eq, lookup, keys, HasDistinctKeys,
  keys-perm, lookup-perm, Go, continue, deref, ◌>>◌,
}
use fabric_adapter.Fabric.{Switch}
use fabric_adapter.Chassis.{empty_chassis_config}
use fabric_adapter.Lookup.{lookup_switch_model}
use fabric_adapter.Sorting.{sort_strings, sort_strings-perm}
use fabric_adapter.Stratum.{handle_stratum_switch, on_chassis}
use fabric_adapter.Onos.{Pushes}
use fabric_adapter.Onos.MapOrder.{with_switches, Switch-set}
use fabric_adapter.Device.{or_skip, stratum_round, stratum_loop, synchronize_fabric_to_stratum}
use fabric_adapter.World.{Services, World, FabricScope}

module _ (S : Services) (scope : FabricScope) (m n : Dict Text Switch) (same : Perm m n)
    (distinct : HasDistinctKeys m) where
  -- one round of the loop, as a function of what it reads of the map and of the rounds that follow
  abbrev round_of : Option Switch × Go (World S.Sids) Pushes → Go (World S.Sids) Pushes
  round_of p w = continue ((do on_chassis (λ c. empty_chassis_config); deref p.0) w) (λ sw w'.
      or_skip (lookup_switch_model scope.fabric sw.model_id w')
        (λ model. stratum_round S scope sw model p.1) p.1)

  stratum_loop-order :
      (ids : List Text)
      → stratum_loop S (with_switches m scope) ids ≡ stratum_loop S (with_switches n scope) ids
  unfolding stratum_loop stratum_round lookup_switch_model handle_stratum_switch
  stratum_loop-order [] = refl
  stratum_loop-order (id ∷ ids) =
      ap (λ (o : Option Switch). round_of (o, stratum_loop S (with_switches m scope) ids))
        (lookup-perm Switch-set same distinct id)
      ∙ ap (λ rest. round_of (lookup id n, rest)) (stratum_loop-order ids)

  -- Two orders of iteration over the map of a fabric's switches, which has each key once, give
  -- one SynchronizeFabricToStratum: the same state, the same pushes in the same order, the same
  -- result.
  pub synchronize_fabric_to_stratum-order :
      synchronize_fabric_to_stratum S (with_switches m scope)
      ≡ synchronize_fabric_to_stratum S (with_switches n scope)
  unfolding synchronize_fabric_to_stratum
  synchronize_fabric_to_stratum-order =
      ap (stratum_loop S (with_switches m scope)) (sort_strings-perm (keys-perm same))
      ∙ stratum_loop-order (sort_strings (keys n))
