-- ===== src/Onos/MapOrder.antt =====
-- `SynchronizeFabricToOnos` (pkg/synchronizer/synchronize-device.go) sorts the switches, since Go
-- iterates over a map in a random order.
use mathlib.Core.List.{Perm}
use mathlib.Core.Path.{fun_ext}
use native.Mathlib.Decide.{ℕ_discrete}
use fabric_adapter.Base.{
  ◌≡◌, ap, Option, List, Text, Dict, text_eq, keys, HasDistinctKeys, keys-perm, lookup-perm, Go,
  for_logged, deref, ◌>>=◌, ◌>>◌,
}
use fabric_adapter.Fabric.{Switch}
use fabric_adapter.Lookup.{lookup_switch_model}
use fabric_adapter.Sorting.{sort_strings, sort_strings-perm}
use fabric_adapter.Switch.{build_device, handle_switch}
use fabric_adapter.Onos.{onos_switch, build_netconfig, push_netconfig, synchronize_fabric_to_onos}
use fabric_adapter.World.{Services, World, FabricScope, Config}

pub Switch-set : IsSet Switch
Switch-set = hlevel ℕ_discrete

-- the scope, with the switches in another order of iteration
abbrev pub with_switches : Dict Text Switch → FabricScope → FabricScope
with_switches m scope = record scope { fabric = record scope.fabric { switch = m } }

for_logged-ext {ℓ κ} :
    {W : Type ℓ} {A : Type κ} (xs : List A) (f g : A → Go W (Unit {0}))
    → ((x : A) → f x ≡ g x)
    → for_logged xs f ≡ for_logged xs g
for_logged-ext xs f g h = ap (for_logged xs) (fun_ext h)

module _ (S : Services) (scope : FabricScope) (m n : Dict Text Switch) (same : Perm m n)
    (distinct : HasDistinctKeys m) where
  onos_switch-order :
      (id : Text)
      → onos_switch S (with_switches m scope) id ≡ onos_switch S (with_switches n scope) id
  unfolding onos_switch lookup_switch_model handle_switch build_device
  onos_switch-order id =
      ap
        (λ (o : Option Switch). do
          sw ← deref o
          model ← lookup_switch_model scope.fabric sw.model_id
          handle_switch S scope sw model)
        (lookup-perm Switch-set same distinct id)

  build_netconfig-order :
      build_netconfig S (with_switches m scope) ≡ build_netconfig S (with_switches n scope)
  unfolding build_netconfig
  build_netconfig-order = cc (
    sort_strings-perm (keys-perm same),
    for_logged-ext (sort_strings (keys n)) _ _ onos_switch-order,
  )

  -- Two orders of iteration over the map of a fabric's switches, which has each key once, give
  -- one SynchronizeFabricToOnos: the same state, the same calls, the same result.
  pub synchronize_fabric_to_onos-order :
      (config : Config)
      → synchronize_fabric_to_onos S config (with_switches m scope)
        ≡ synchronize_fabric_to_onos S config (with_switches n scope)
  unfolding synchronize_fabric_to_onos push_netconfig
  synchronize_fabric_to_onos-order config =
      ap (λ (b : Go (World S.Sids) (Unit {0})). b >> push_netconfig S config scope)
        build_netconfig-order
