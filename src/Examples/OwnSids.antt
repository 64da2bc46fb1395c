-- ===== src/Examples/OwnSids.antt =====
-- Two leaves over the SID store in memory (pkg/synchronizer/synchronize-device.go and
-- pkg/store/store.go), at concrete inputs.
use fabric_adapter.Base.{
  ◌<◌, ◌^◌, ◌≡◌, ◌≢◌, refl, true, Option, none, some, [], ◌∷◌, Text, codes, lookup, insert, text_eq,
  text_eqb, ret, for_logged, decimal, arith,
}
use fabric_adapter.Fabric.{Switch}
use fabric_adapter.Netcfg.{OnosDevice}
use fabric_adapter.Net.{parse_ip, ip_form, parse_ipv4, octet, octets}
use fabric_adapter.Lookup.{
  is_blank, lookup_switch_model, lookup_switch_model_port, lookup_switch_vlan, validate_route,
}
use fabric_adapter.Sorting.{sort_strings, text_leb}
use fabric_adapter.Switch.{
  management_of, attribute_value, add_vlans, add_untagged, add_tagged, with_pairing,
  handle_switch_port, build_device, handle_switch, device_key, new_device,
}
use fabric_adapter.Util.{
  address_to_mac, management_address_to_ip, ip_to_mac, get_stratum_endpoint_for_netcfg,
  switch_cage_channel_to_device_id, cage_channel_to_port,
}
use fabric_adapter.Sid.{get, allocate, uint32_to_bytes, bytes_to_uint32}
use fabric_adapter.Sid.Reliable.{Memory, in_memory, memory_reliable}
use fabric_adapter.Sid.Unique.{IsAssigned, HasSid}
use fabric_adapter.Onos.{add_route, handle_route, onos_switch, build_netconfig}
use fabric_adapter.Onos.OwnSids.{build_netconfig_sids}
use fabric_adapter.Device.{empty_net_config}
use fabric_adapter.Synchronizer.Start.{with_store}
use fabric_adapter.Examples.Data.{willing, leaf, model, routes, scope, world, left_by}
use fabric_adapter.World.{Services, World, FabricScope}

abbrev leaf2 : Switch
leaf2 = record leaf { switch_id = some (codes "leaf2") }

abbrev leaves : FabricScope
leaves = record scope {
  fabric = record {
    switch = (codes "leaf2", leaf2) ∷ (codes "leaf1", leaf) ∷ [];
    switch_model = (codes "m", model) ∷ [];
    route = routes;
  };
}

abbrev over_memory : Services
over_memory = with_store willing in_memory

-- a new store
abbrev before : World Memory
before = record {
  net_config = empty_net_config;
  chassis = world.chassis;
  next_ip = 0;
  sids = record { value = 100; entries = [] };
  cache = [];
  calls = [];
  kpi_total = [];
}

before-IsAssigned : IsAssigned in_memory memory_reliable before.sids
unfolding lookup
before-IsAssigned = record {
  counted = λ id b e. absurd (ground (arith, e));
  unique = λ i j b e f. absurd (ground (arith, e));
}

abbrev built : World Memory
built = left_by before (build_netconfig over_memory leaves before)

abbrev device_or : OnosDevice → Option OnosDevice → OnosDevice
device_or d none = d
device_or d (some e) = e

abbrev device_of : Text → OnosDevice
device_of id =
    device_or (new_device [] [] [] 0 true [] [] [])
      (lookup (device_key id) built.net_config.devices)

built_lem :
    (build_netconfig over_memory leaves before ≡ ret tt built)
    × (built.sids.value < 2 ^ 32)
    × (lookup (device_key (codes "leaf1")) built.net_config.devices
        ≡ some (device_of (codes "leaf1")))
    × (lookup (device_key (codes "leaf2")) built.net_config.devices
        ≡ some (device_of (codes "leaf2")))
unfolding build_netconfig onos_switch handle_switch build_device management_of attribute_value
    lookup_switch_model lookup_switch_model_port lookup_switch_vlan handle_switch_port
    switch_cage_channel_to_device_id cage_channel_to_port add_vlans add_untagged add_tagged
    with_pairing validate_route is_blank handle_route add_route for_logged lookup insert text_eqb
    sort_strings text_leb decimal address_to_mac management_address_to_ip ip_to_mac
    get_stratum_endpoint_for_netcfg parse_ip ip_form parse_ipv4 octet octets get allocate
    uint32_to_bytes bytes_to_uint32
built_lem = (refl, omega arith, refl, refl)

build_netconfig_sids_example :
    ((device_of (codes "leaf1")).segment_routing.ipv4_node_sid
      ≢ (device_of (codes "leaf2")).segment_routing.ipv4_node_sid)
    × HasSid in_memory memory_reliable
        (codes "leaf1")
        (device_of (codes "leaf1")).segment_routing.ipv4_node_sid
        built.sids
    × HasSid in_memory memory_reliable
        (codes "leaf2")
        (device_of (codes "leaf2")).segment_routing.ipv4_node_sid
        built.sids
build_netconfig_sids_example =
    build_netconfig_sids willing in_memory memory_reliable leaves before built refl
      before-IsAssigned (omega arith) built_lem.0 built_lem.1 (codes "leaf1") (codes "leaf2")
      (device_of (codes "leaf1")) (device_of (codes "leaf2")) built_lem.2 built_lem.3
      (λ e. ground (arith, e))
