-- ===== src/Lookup.antt =====
-- pkg/synchronizer/lookup.go, the lookups in a configuration, and pkg/synchronizer/validate.go.
use fabric_adapter.Base.{
  ℕ, Bool, true, Option, none, some, [], Text, lookup, text_eq, nat_eq, ◌==◌, if◌then◌else◌, Error,
  model_id_blank, model_not_found, no_model_port, vlan_id_blank, vlan_not_found, route_no_prefix,
  route_no_address, Go, pure, raise, deref, ◌>>=◌,
}
use fabric_adapter.Fabric.{Route, Switch, SwitchVlan, SwitchModel, SwitchModelPort, RootDevice}

-- `v, okay := m[k]; if !okay { return err }`
abbrev pub found {ℓ κ} : {W : Type ℓ} {A : Type κ} → Error → Option A → Go W A
found e none = raise e
found e (some a) = pure a

-- `p == nil || *p == ""`
unfoldable pub is_blank : Option Text → Bool
is_blank none = true
is_blank (some s) = s == []

module _ {ℓ} {W : Type ℓ} where
  -- `lookupSwitchModel`
  unfoldable pub lookup_switch_model : RootDevice → Option Text → Go W SwitchModel
  lookup_switch_model fabric none = raise model_id_blank
  lookup_switch_model fabric (some id) =
      if id == []
      then raise model_id_blank
      else found (model_not_found id) (lookup id fabric.switch_model)

  -- `lookupSwitchModelPort`; the message prints the pointer, not the cage
  unfoldable pub lookup_switch_model_port : SwitchModel → Option ℕ → Go W SwitchModelPort
  lookup_switch_model_port model cage = do
    number ← deref cage
    found no_model_port (lookup number model.port)

  -- `lookupSwitchVlan`
  unfoldable pub lookup_switch_vlan : Switch → Option ℕ → Go W SwitchVlan
  lookup_switch_vlan sw none = raise vlan_id_blank
  lookup_switch_vlan sw (some id) = found (vlan_not_found id) (lookup id sw.vlan)

  -- `validateRoute`; the messages read the route's id
  unfoldable pub validate_route : Route → Go W (Unit {0})
  unfolding is_blank
  validate_route route =
      if is_blank route.prefix
      then (do id ← deref route.route_id; raise (route_no_prefix id))
      else if is_blank route.address
      then (do id ← deref route.route_id; raise (route_no_address id))
      else pure tt
