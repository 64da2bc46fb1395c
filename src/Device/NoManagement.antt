-- ===== src/Device/NoManagement.antt =====
-- A switch without a management address in `SynchronizeFabricToStratum`
-- (pkg/synchronizer/synchronize-device.go).
use fabric_adapter.Base.{
  ◌≡◌, false, none, some, Text, codes, lookup, text_eq, no_management, ok, ret, fail, panic, Go,
  arith,
}
use fabric_adapter.Fabric.{Switch, SwitchModel}
use fabric_adapter.Onos.{Pushes}
use fabric_adapter.Switch.{management_of}
use fabric_adapter.Stratum.{handle_stratum_switch, use_secure_transport}
use fabric_adapter.Device.{stratum_uri, push_chassis, stratum_round}
use fabric_adapter.World.{Services, World, FabricScope}

module _ (S : Services) (scope : FabricScope) (sw : Switch) (model : SwitchModel) where
  refused :
      (id : Text) (w : World S.Sids)
      → sw.switch_id ≡ some id
      → sw.management ≡ none
      → handle_stratum_switch scope sw model w ≡ fail (no_management scope.fabric_id id) w
  unfolding handle_stratum_switch management_of
  refused id w named unmanaged = ground (arith, named, unmanaged)

  plain :
      (w : World S.Sids)
      → lookup (codes "secure-transport") sw.attribute ≡ none
      → use_secure_transport sw w ≡ ret false w
  unfolding use_secure_transport
  plain w e = ground (arith, e)

  uri_panics :
      (id proto : Text) (w : World S.Sids)
      → sw.switch_id ≡ some id
      → sw.management ≡ none
      → push_chassis S sw false proto w ≡ panic
  unfolding push_chassis stratum_uri
  uri_panics id proto w named unmanaged = ground (arith, named, unmanaged)

  -- A round of SynchronizeFabricToStratum for a switch that has a model, an id and no management,
  -- without the secure-transport attribute, panics when the chassis configuration can be encoded.
  pub stratum_round-panics :
      (next : Go (World S.Sids) Pushes) (id proto : Text) (w : World S.Sids)
      → sw.switch_id ≡ some id
      → sw.management ≡ none
      → lookup (codes "secure-transport") sw.attribute ≡ none
      → S.marshal_text w.chassis ≡ ok proto
      → stratum_round S scope sw model next w ≡ panic
  unfolding stratum_round
  stratum_round-panics next id proto w named unmanaged insecure encoded = ground (
    arith,
    plain w insecure,
    refused id w named unmanaged,
    encoded,
    uri_panics id proto w named unmanaged,
  )
