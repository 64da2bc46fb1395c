-- ===== src/Switch.antt =====
-- `handleSwitchPort` and `handleSwitch` of pkg/synchronizer/synchronize-device.go: one switch of the
-- fabric into the network configuration.
pub mod Writes
pub mod Complete
pub mod Ports
pub mod Written
pub mod Devices
pub mod Loopback
pub mod Stored
pub mod Safe
use fabric_adapter.Base.{
  ℕ, Bool, true, false, not, Option, none, some, List, [], ◌∷◌, ◌++◌, Text, Dict, codes, lookup,
  insert, text_eq, if◌then◌else◌, Error, no_management, no_driver, no_pipeconf, no_sid, no_mac,
  no_router_mac, Go, pure, raise, deref, modify, ◌>>=◌, ◌>>◌, for_logged, zoom, wrapped,
}
use fabric_adapter.Fabric.{
  Attribute, Management, PairingPort, Port, PortVlans, Role, role_spine, Switch, SwitchModel,
  SwitchPair,
}
use fabric_adapter.Netcfg.{OnosDevice, OnosInterface, OnosPort}
use fabric_adapter.Lookup.{is_blank, lookup_switch_model_port, lookup_switch_vlan}
use fabric_adapter.Util.{
  cage_channel_to_port, switch_cage_channel_to_device_id, management_address_to_ip, address_to_mac,
  get_stratum_endpoint_for_netcfg,
}
use fabric_adapter.World.{Services, World, FabricScope}

module _ {ℓ} {W : Type ℓ} where
  -- the untagged VLAN of a port
  unfoldable pub add_untagged : Switch → Option ℕ → OnosInterface → Go W OnosInterface
  unfolding lookup_switch_vlan
  add_untagged sw none iface = pure iface
  add_untagged sw (some id) iface = do
    vlan ← lookup_switch_vlan sw (some id)
    pure (record iface { vlan_untagged = id; ips = iface.ips ++ vlan.subnet })

  -- the loop over the tagged VLANs
  unfoldable pub add_tagged : Switch → List ℕ → OnosInterface → Go W OnosInterface
  unfolding lookup_switch_vlan
  add_tagged sw [] iface = pure iface
  add_tagged sw (id ∷ ids) iface = do
    vlan ← lookup_switch_vlan sw (some id)
    add_tagged sw ids (record iface {
      vlan_tagged = iface.vlan_tagged ++ id ∷ [];
      ips = iface.ips ++ vlan.subnet;
    })

  unfoldable pub add_vlans : Switch → Option PortVlans → OnosInterface → Go W OnosInterface
  unfolding add_untagged add_tagged
  add_vlans sw none iface = pure iface
  add_vlans sw (some vlans) iface = do
    iface' ← add_untagged sw vlans.untagged iface
    add_tagged sw vlans.tagged iface'

abbrev pub new_interface : Text → OnosInterface
new_interface name = record { name = name; ips = []; vlan_tagged = []; vlan_untagged = 0 }

module _ {Sids : Type 0} where
  abbrev pub put_port : Text → OnosPort → World Sids → World Sids
  put_port key port w = record w {
    net_config = record w.net_config { ports = insert key port w.net_config.ports };
  }

  abbrev pub put_device : Text → OnosDevice → World Sids → World Sids
  put_device key device w = record w {
    net_config = record w.net_config { devices = insert key device w.net_config.devices };
  }

  -- `handleSwitchPort`
  unfoldable pub handle_switch_port : Switch → SwitchModel → Port → Go (World Sids) (Unit {0})
  handle_switch_port sw model p = do
    model_port ← lookup_switch_model_port model p.cage_number
    port_id ← switch_cage_channel_to_device_id sw.switch_id p.cage_number p.channel_number
    name ← deref p.display_name
    iface ← add_vlans sw p.vlans (new_interface name)
    modify (put_port port_id (record { interfaces = iface ∷ [] }))

-- `m == nil || m.Address == nil || m.PortNumber == nil`
unfoldable pub management_of : Option Management → Option (Text × ℕ)
management_of none = none
management_of (some m) = elim m.address [
  | none ↦ none
  | some address ↦ elim m.port_number [ none ↦ none | some port ↦ some (address, port) ]
]

-- `a == nil || a.Value == nil || *a.Value == ""`
unfoldable pub attribute_value : Text → Dict Text Attribute → Option Text
unfolding is_blank
attribute_value key attributes = elim (lookup key attributes) [
  | none ↦ none
  | some a ↦ if is_blank a.value then none else a.value
]

abbrev pub required {ℓ κ} : {W : Type ℓ} {A : Type κ} → Error → Option A → Go W A
required e none = raise e
required e (some a) = pure a

abbrev pub is_edge : Role → Bool
is_edge role_spine = false
is_edge _ = true

-- the pairing at the end of `handleSwitch`, the last writes through the device's pointer; it needs a
-- paired switch and exactly one pairing port
paired {ℓ} : {W : Type ℓ} → Text → Option Text → List PairingPort → OnosDevice → Go W OnosDevice
paired switch_id (some other) (port ∷ []) device = do
  local_port ← cage_channel_to_port port.cage_number port.channel_number
  pure (record device {
    segment_routing = record device.segment_routing {
      pair_device_id = switch_id;
      pair_local_port = local_port;
    };
  })
paired switch_id _ _ device = pure device

unfoldable pub with_pairing {ℓ} :
    {W : Type ℓ} → Text → Option SwitchPair → OnosDevice → Go W OnosDevice
unfolding paired
with_pairing switch_id none device = pure device
with_pairing switch_id (some pair) device =
    paired switch_id pair.paired_switch pair.pairing_port device

-- The device that `handleSwitch` builds.
abbrev pub new_device : Text → Text → Text → ℕ → Bool → Text → Text → Text → OnosDevice
new_device name driver pipe_conf sid edge management_address loopback mac = record {
  segment_routing = record {
    ipv4_node_sid = sid;
    ipv4_loopback = loopback;
    router_mac = mac;
    is_edge_router = edge;
    pair_device_id = [];
    pair_local_port = 0;
    adjacency_sids = [];
  };
  basic = record {
    name = name;
    management_address = management_address;
    driver = driver;
    pipe_conf = pipe_conf;
    loc_type = [];
    grid_x = 0;
    grid_y = 0;
  };
}

abbrev pub device_key : Text → Text
device_key switch_id = codes "device:" ++ switch_id

module _ (S : Services) where
  open S use {Sids, sid_get}

  -- a call on the SIDs, and one on `nextIP`
  abbrev pub on_sids {ℓ} : {A : Type ℓ} → Go Sids A → Go (World Sids) A
  on_sids = zoom (λ w. w.sids) (λ s w. record w { sids = s })

  abbrev pub on_next_ip {ℓ} : {A : Type ℓ} → Go ℕ A → Go (World Sids) A
  on_next_ip = zoom (λ w. w.next_ip) (λ n w. record w { next_ip = n })

  -- The device of a switch, up to the write into the netconfig. The first `addressToMac` is made on
  -- the management address, and its result is overwritten: it counts as a check, and for an address
  -- that is no IP it moves `nextIP` on.
  unfoldable pub build_device : FabricScope → Switch → Text → Go (World Sids) OnosDevice
  unfolding management_of attribute_value
  build_device scope sw switch_id = do
    (address, port_number) ←
        required (no_management scope.fabric_id switch_id) (management_of sw.management)
    name ← deref sw.display_name
    driver ← required no_driver (attribute_value (codes "driver") sw.attribute)
    sid ← wrapped (no_sid scope.fabric_id switch_id) (on_sids (sid_get switch_id))
    first_mac ← wrapped (no_mac scope.fabric_id switch_id) (on_next_ip (address_to_mac address))
    pipe_conf ← required no_pipeconf (attribute_value (codes "pipeconf") sw.attribute)
    loopback ← on_next_ip (management_address_to_ip address)
    mac ← wrapped (no_router_mac scope.fabric_id switch_id) (on_next_ip (address_to_mac loopback))
    pure (
        new_device name driver pipe_conf sid (is_edge sw.role)
          (get_stratum_endpoint_for_netcfg address port_number) loopback mac)

  -- `handleSwitch`; the log line at its head reads the switch id
  unfoldable pub handle_switch : FabricScope → Switch → SwitchModel → Go (World Sids) (Unit {0})
  handle_switch scope sw model = do
    switch_id ← deref sw.switch_id
    device ← build_device scope sw switch_id
    modify (put_device (device_key switch_id) device)
    for_logged sw.port (handle_switch_port sw model)
    device' ← with_pairing switch_id sw.switch_pair device
    modify (put_device (device_key switch_id) device')
