-- ===== src/Stratum/Safe.antt =====
-- `handleStratumSwitch` and `useSecureTransport` (pkg/synchronizer/synchronize-device.go) on a switch
-- with no nil pointer where they read through one: they do not panic.
use mathlib.Core.Path.{subst}
use fabric_adapter.Base.{
  ◌≡◌, Option, none, some, List, [], ◌∷◌, codes, lookup, text_eq, ret, Bool, false, All, IsSafe,
  pure-IsSafe, bind-IsSafe, lift-IsSafe, deref_then-IsSafe, modify-IsSafe, for_logged-IsSafe,
  for_logged-ret, Option-cases, inl, inr, arith,
}
use fabric_adapter.Fabric.{
  Attribute, Port, Speed, unset, speed_100g, speed_10g, speed_1g, speed_2_5g, speed_25g, speed_400g,
  speed_40g, speed_5g, speed_autoneg, Switch, SwitchModel,
}
use fabric_adapter.Fabric.Formed.{HasValue, IsFormedPort, IsFormedSwitch, IsFormedModel}
use fabric_adapter.Strconv.{parse_uint, parse_bool}
use fabric_adapter.Switch.Safe.{required-IsSafe, model_port-IsSafe}
use fabric_adapter.Stratum.{
  starting_bps, port_speed, handle_stratum_switch_port, handle_stratum_switch, use_secure_transport,
  with_chassis,
}
use fabric_adapter.Switch.{management_of}
use fabric_adapter.World.{World, FabricScope}

module _ {ℓ} {W : Type ℓ} where
  starting_bps-IsSafe : (o : Option Attribute) → HasValue o → IsSafe {W = W} (starting_bps o)
  unfolding starting_bps
  starting_bps-IsSafe none h = pure-IsSafe _
  starting_bps-IsSafe (some a) (v, e) = deref_then-IsSafe a.value v _ e (lift-IsSafe (parse_uint v))

  port_speed-IsSafe :
      (model : SwitchModel) (s : Speed) → IsFormedModel model → IsSafe {W = W} (port_speed model s)
  unfolding port_speed
  port_speed-IsSafe model unset h = pure-IsSafe _
  port_speed-IsSafe model speed_100g h = pure-IsSafe _
  port_speed-IsSafe model speed_10g h = pure-IsSafe _
  port_speed-IsSafe model speed_1g h = pure-IsSafe _
  port_speed-IsSafe model speed_2_5g h = pure-IsSafe _
  port_speed-IsSafe model speed_25g h = pure-IsSafe _
  port_speed-IsSafe model speed_400g h = pure-IsSafe _
  port_speed-IsSafe model speed_40g h = pure-IsSafe _
  port_speed-IsSafe model speed_5g h = pure-IsSafe _
  port_speed-IsSafe model speed_autoneg h =
      bind-IsSafe _ _
        (starting_bps-IsSafe (lookup (codes "autoneg-starting-bandwidth") model.attribute) h)
        (λ bps. pure-IsSafe _)

module _ (Sids : Type 0) (model : SwitchModel) (f : IsFormedModel model) where
  stratum_port-IsSafe :
      (p : Port) → IsFormedPort p → IsSafe {W = World Sids} (handle_stratum_switch_port model p)
  unfolding handle_stratum_switch_port
  stratum_port-IsSafe p g = bind-IsSafe _ _ (model_port-IsSafe model p.cage_number g.cage) (λ m.
      bind-IsSafe _ _ (port_speed-IsSafe model p.speed f) (λ speed.
        deref_then-IsSafe p.cage_number g.cage.0 _ g.cage.1
          (deref_then-IsSafe p.channel_number g.channel.0 _ g.channel.1 (modify-IsSafe _))))

  stratum_ports-IsSafe :
      (ps : List Port)
      → All IsFormedPort ps
      → All (λ p. IsSafe {W = World Sids} (handle_stratum_switch_port model p)) ps
  stratum_ports-IsSafe [] h = tt
  stratum_ports-IsSafe (p ∷ ps) h = (stratum_port-IsSafe p h.0, stratum_ports-IsSafe ps h.1)

  pub handle_stratum_switch-IsSafe :
      (scope : FabricScope) (sw : Switch)
      → IsFormedSwitch sw
      → IsSafe {W = World Sids} (handle_stratum_switch scope sw model)
  unfolding handle_stratum_switch
  handle_stratum_switch-IsSafe scope sw g = deref_then-IsSafe sw.switch_id g.id _ g.identified (
      bind-IsSafe _ _ (required-IsSafe _ _) (λ endpoint.
        deref_then-IsSafe sw.display_name g.name _ g.named (
          bind-IsSafe _ _ (modify-IsSafe _)
            (λ u. for_logged-IsSafe sw.port _ (stratum_ports-IsSafe sw.port g.ports)))))

-- The transport of such a switch is read without an error, and with no effect.
pub use_secure_transport-ret {ℓ} :
    {W : Type ℓ} (sw : Switch) (w : W)
    → IsFormedSwitch sw
    → (b : Bool) × (use_secure_transport sw w ≡ ret b w)
unfolding use_secure_transport
use_secure_transport-ret sw w g =
    elim (Option-cases (lookup (codes "secure-transport") sw.attribute)) [
      | inl e ↦ (false, ground (arith, e))
      | inr (a, e) ↦
          let (v, set) = subst HasValue e g.transport in
          elim (Option-cases (parse_bool v)) [
            | inl p ↦ (false, rw (e, use_secure_transport) (rw set (ground (arith, p))))
            | inr (b, p) ↦ (b, rw (e, use_secure_transport) (rw set (ground (arith, p))))
          ]
    ]

-- If the switch and its model are formed, the chassis configuration is built without an error.
pub handle_stratum_switch-ret :
    {Sids : Type 0} (scope : FabricScope) (sw : Switch) (model : SwitchModel) (w : World Sids)
    → IsFormedModel model
    → IsFormedSwitch sw
    → (u : World Sids) × (handle_stratum_switch scope sw model w ≡ ret tt u)
unfolding handle_stratum_switch management_of
handle_stratum_switch-ret {Sids} scope sw model w k g =
    let (u, e) =
      for_logged-ret sw.port (handle_stratum_switch_port model)
        (record w { chassis = with_chassis g.name w.chassis })
        (stratum_ports-IsSafe Sids model k sw.port g.ports) in
    (u, ground (arith, e, g.identified, g.managed, g.addressed, g.numbered, g.named))
