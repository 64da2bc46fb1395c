-- ===== src/Stratum.antt =====
-- `handleStratumSwitchPort`, `handleStratumSwitch` and `useSecureTransport` of
-- pkg/synchronizer/synchronize-device.go: one switch into a Stratum chassis configuration.
pub mod Numbers
pub mod Ports
pub mod Built
pub mod Safe
use fabric_adapter.Base.{
  ℕ, ◌+◌, ◌-◌, ◌*◌, ◌^◌, ◌%◌, Bool, true, false, Option, none, some, List, [], ◌∷◌, ◌++◌, Text,
  codes, decimal, lookup, text_eq, nat_eqb, if◌then◌else◌, no_management, Result, ok, err, Go, pure,
  raise, deref, lift, modify, ◌>>=◌, ◌>>◌, for_logged,
}
use fabric_adapter.Fabric.{
  Attribute, Port, Speed, unset, speed_100g, speed_10g, speed_1g, speed_2_5g, speed_25g, speed_400g,
  speed_40g, speed_5g, speed_autoneg, Switch, SwitchModel,
}
use fabric_adapter.Chassis.{
  TriState, tri_state_true, tri_state_false, admin_state_enabled, plt_generic_barefoot_tofino,
  SingletonPort, Node, Chassis, ChassisConfig,
}
use fabric_adapter.Lookup.{lookup_switch_model_port}
use fabric_adapter.Strconv.{parse_uint, parse_bool}
use fabric_adapter.Switch.{management_of, required}
use fabric_adapter.Util.{u32}
use fabric_adapter.World.{World, FabricScope}

-- `const gig = 10e8`
abbrev pub gig : ℕ
gig = 1_000_000_000

-- the bandwidth that autonegotiation starts with
unfoldable pub starting_bps {ℓ} : {W : Type ℓ} → Option Attribute → Go W ℕ
unfolding parse_uint
starting_bps none = pure (10 * gig)
starting_bps (some attribute) = do value ← deref attribute.value; lift (parse_uint value)

-- the `switch p.Speed`: whether the port negotiates, and its speed
unfoldable pub port_speed {ℓ} : {W : Type ℓ} → SwitchModel → Speed → Go W (TriState × ℕ)
unfolding starting_bps
port_speed model unset = pure (tri_state_false, 0)
port_speed model speed_100g = pure (tri_state_false, 100 * gig)
port_speed model speed_10g = pure (tri_state_false, 10 * gig)
port_speed model speed_1g = pure (tri_state_false, gig)
port_speed model speed_2_5g = pure (tri_state_false, 2_500_000_000)
port_speed model speed_25g = pure (tri_state_false, 25 * gig)
port_speed model speed_400g = pure (tri_state_false, 400 * gig)
port_speed model speed_40g = pure (tri_state_false, 40 * gig)
port_speed model speed_5g = pure (tri_state_false, 5 * gig)
port_speed model speed_autoneg = do
  bps ← starting_bps (lookup (codes "autoneg-starting-bandwidth") model.attribute)
  pure (tri_state_true, bps)

-- the id and the name of a port in the chassis
unfoldable pub stratum_port_id : ℕ → ℕ → ℕ
stratum_port_id port channel =
    if nat_eqb channel 0 then u32 port else u32 (u32 (port * 100) + (channel - 1))

unfoldable pub stratum_port_name : ℕ → ℕ → Text
stratum_port_name port channel =
    if nat_eqb channel 0
    then codes "Port " ++ (decimal port ++ codes "/0")
    else codes "Port " ++ (decimal port ++ (b'/' ∷ decimal (channel - 1)))

abbrev pub singleton_port : ℕ → ℕ → TriState → ℕ → SingletonPort
singleton_port port channel autoneg bps = record {
  id = stratum_port_id port channel;
  name = stratum_port_name port channel;
  slot = 1;
  port = port;
  channel = channel;
  speed_bps = bps;
  node = 1;
  config_params = record { admin_state = admin_state_enabled; autoneg = autoneg };
}

abbrev pub add_singleton_port : SingletonPort → ChassisConfig → ChassisConfig
add_singleton_port port c = record c { singleton_ports = c.singleton_ports ++ port ∷ [] }

-- the head of a chassis configuration, before its ports
abbrev pub with_chassis : Text → ChassisConfig → ChassisConfig
with_chassis name c = record c {
  description = name;
  nodes = record { id = 1; slot = 1; index = 1 } ∷ [];
  chassis = some (record { platform = plt_generic_barefoot_tofino; name = name });
}

module _ {Sids : Type 0} where
  abbrev pub on_chassis : (ChassisConfig → ChassisConfig) → Go (World Sids) (Unit {0})
  on_chassis f = modify (λ w. record w { chassis = f w.chassis })

  -- `handleStratumSwitchPort`
  unfoldable pub handle_stratum_switch_port : SwitchModel → Port → Go (World Sids) (Unit {0})
  handle_stratum_switch_port model p = do
    model_port ← lookup_switch_model_port model p.cage_number
    (autoneg, bps) ← port_speed model p.speed
    port ← deref p.cage_number
    channel ← deref p.channel_number
    on_chassis (add_singleton_port (singleton_port port channel autoneg bps))

  -- `handleStratumSwitch`
  unfoldable pub handle_stratum_switch :
      FabricScope → Switch → SwitchModel → Go (World Sids) (Unit {0})
  unfolding management_of
  handle_stratum_switch scope sw model = do
    switch_id ← deref sw.switch_id
    endpoint ← required (no_management scope.fabric_id switch_id) (management_of sw.management)
    name ← deref sw.display_name
    on_chassis (with_chassis name)
    for_logged sw.port (handle_stratum_switch_port model)

-- `useSecureTransport`: the attribute `secure-transport`, if it reads as a Boolean
unfoldable pub use_secure_transport {ℓ} : {W : Type ℓ} → Switch → Go W Bool
unfolding parse_bool
use_secure_transport sw = elim (lookup (codes "secure-transport") sw.attribute) [
  | none ↦ pure false
  | some attribute ↦ do
    value ← deref attribute.value
    elim (parse_bool value) [ none ↦ pure false | some b ↦ pure b ]
]
