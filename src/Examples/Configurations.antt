-- ===== src/Examples/Configurations.antt =====
-- The construction and the push of configurations (pkg/synchronizer/synchronize-device.go), on the
-- fabric of the data module.
use mathlib.Core.List.{Perm, Permᴰ}
use fabric_adapter.Base.{
  ℕ, ◌*◌, ok, ◌≡◌, refl, none, some, [], ◌∷◌, ◌++◌, Text, Dict, codes, keys, lookup, insert,
  text_eq, text_eqb, HasDistinctKeys, no_pipeconf, ret, fail, for_logged, decimal, After,
}
use fabric_adapter.Fabric.{Switch, RootDevice}
use fabric_adapter.Device.Counted.{synchronize_device-counted}
use fabric_adapter.Device.Failures.{Counts, synchronize_device-Counts}
use fabric_adapter.Netcfg.Reflexive.{IsNetConfig}
use fabric_adapter.Net.{parse_ip}
use fabric_adapter.World.{World, Services}
use fabric_adapter.Lookup.{
  is_blank, lookup_switch_model, lookup_switch_model_port, lookup_switch_vlan, validate_route,
}
use fabric_adapter.Sorting.{sort_strings, text_leb}
use fabric_adapter.Switch.{
  management_of, attribute_value, add_vlans, add_untagged, add_tagged, with_pairing,
  handle_switch_port, build_device, handle_switch,
}
use fabric_adapter.Util.{
  address_to_mac, management_address_to_ip, ip_to_mac, get_stratum_endpoint_for_netcfg,
  switch_cage_channel_to_device_id, cage_channel_to_port,
}
use fabric_adapter.Device.{
  stratum_loop, synchronize_fabric, synchronize_fabric_to_stratum, synchronize_device,
}
use fabric_adapter.Netcfg.Encode.{marshal_indent}
use fabric_adapter.Onos.{
  add_route, handle_route, onos_switch, unchanged, push_to, send_netconfig, build_netconfig,
  push_netconfig, synchronize_fabric_to_onos,
}
use fabric_adapter.Onos.MapOrder.{with_switches, synchronize_fabric_to_onos-order}
use fabric_adapter.Device.MapOrder.{synchronize_fabric_to_stratum-order}
use mathlib.Core.Path.{subst}
use fabric_adapter.Net.{ip_form, parse_ipv4, octet, octets, parse_ipv6}
use fabric_adapter.Stratum.{
  use_secure_transport, handle_stratum_switch, handle_stratum_switch_port, port_speed,
}
use fabric_adapter.Pusher.{gnmi_push_update, rest_push_update, send, record_call}
use fabric_adapter.Cache.{cache_check, cache_update}
use fabric_adapter.Onos.Resend.{push_netconfig-again}
use fabric_adapter.Onos.Routes.{routes_of, complete_routes, build_netconfig-routes}
use fabric_adapter.Onos.Invariants.{
  HoldsMaps, SendsNothing, build_netconfig-IsNetConfig, build_netconfig-SendsNothing,
}
use fabric_adapter.Switch.Written.{IsWritten, handle_switch-IsWritten}
use fabric_adapter.Switch.Stored.{handle_switch-fail}
use fabric_adapter.Examples.Data.{
  willing, leaf, spine, model, fabric, scope, config, world, left_by,
}

abbrev one_order : Dict Text Switch
one_order = (codes "leaf1", leaf) ∷ (codes "spine1", spine) ∷ []

abbrev other_order : Dict Text Switch
other_order = (codes "spine1", spine) ∷ (codes "leaf1", leaf) ∷ []

same_switches : Perm one_order other_order
same_switches = ∣ Permᴰ.swap refl refl ∣₁

distinct_switches : HasDistinctKeys one_order
unfolding lookup text_eqb
distinct_switches = (refl, (refl, tt))

synchronize_fabric_to_onos-order_example :
    synchronize_fabric_to_onos willing config (with_switches one_order scope)
    ≡ synchronize_fabric_to_onos willing config (with_switches other_order scope)
synchronize_fabric_to_onos-order_example =
    synchronize_fabric_to_onos-order willing scope one_order other_order same_switches
      distinct_switches config

synchronize_fabric_to_stratum-order_example :
    synchronize_fabric_to_stratum willing (with_switches one_order scope)
    ≡ synchronize_fabric_to_stratum willing (with_switches other_order scope)
synchronize_fabric_to_stratum-order_example =
    synchronize_fabric_to_stratum-order willing scope one_order other_order same_switches
      distinct_switches

-- the configuration that is built
abbrev built : World ℕ
built = left_by world (build_netconfig willing scope world)

built_ok : build_netconfig willing scope world ≡ ret tt built
unfolding build_netconfig onos_switch handle_switch build_device management_of attribute_value
    lookup_switch_model lookup_switch_model_port lookup_switch_vlan handle_switch_port
    switch_cage_channel_to_device_id cage_channel_to_port add_vlans add_untagged add_tagged
    with_pairing validate_route is_blank handle_route add_route for_logged lookup insert text_eqb
    sort_strings text_leb decimal address_to_mac management_address_to_ip ip_to_mac
    get_stratum_endpoint_for_netcfg parse_ip ip_form parse_ipv4 octet octets
built_ok = refl

build_netconfig-routes_example :
    routes_of built.net_config ≡ routes_of world.net_config ++ complete_routes fabric.route
build_netconfig-routes_example = build_netconfig-routes willing scope world built built_ok

build_netconfig-SendsNothing_example :
    After (SendsNothing willing world) (build_netconfig willing scope world)
build_netconfig-SendsNothing_example = build_netconfig-SendsNothing willing scope world

-- the state after `handleSwitch` on the leaf
abbrev leaf_written : World ℕ
leaf_written = left_by world (handle_switch willing scope leaf model world)

leaf_ok : handle_switch willing scope leaf model world ≡ ret tt leaf_written
unfolding onos_switch handle_switch build_device management_of attribute_value lookup_switch_model
    lookup_switch_model_port lookup_switch_vlan handle_switch_port switch_cage_channel_to_device_id
    cage_channel_to_port add_vlans add_untagged add_tagged with_pairing validate_route is_blank
    handle_route add_route for_logged lookup insert text_eqb sort_strings text_leb decimal
    address_to_mac management_address_to_ip ip_to_mac get_stratum_endpoint_for_netcfg parse_ip
    ip_form parse_ipv4 octet octets
leaf_ok = refl

handle_switch-IsWritten_example : IsWritten willing leaf world leaf_written
handle_switch-IsWritten_example =
    handle_switch-IsWritten willing scope leaf model world leaf_written leaf_ok

-- a switch with a host name for its address, and without a pipeconf: `nextIP` has moved on when it is
-- refused
abbrev unpiped : Switch
unpiped = record leaf {
  attribute = (codes "driver", record { value = some (codes "stratum") }) ∷ [];
  management = some (record { address = some (codes "leaf1"); port_number = some 9559 });
}

abbrev after_refusal : World ℕ
after_refusal = record built { next_ip = 1 }

unpiped_refused : handle_switch willing scope unpiped model built ≡ fail no_pipeconf after_refusal
unfolding onos_switch handle_switch build_device management_of attribute_value lookup_switch_model
    lookup_switch_model_port lookup_switch_vlan handle_switch_port switch_cage_channel_to_device_id
    cage_channel_to_port add_vlans add_untagged add_tagged with_pairing validate_route is_blank
    handle_route add_route for_logged lookup insert text_eqb sort_strings text_leb decimal
    address_to_mac management_address_to_ip ip_to_mac get_stratum_endpoint_for_netcfg parse_ip
    ip_form parse_ipv4 octet octets parse_ipv6 build_netconfig
unpiped_refused = refl

handle_switch-fail_example : after_refusal.net_config ≡ built.net_config
handle_switch-fail_example =
    handle_switch-fail willing scope unpiped model built after_refusal no_pipeconf unpiped_refused

built_IsNetConfig : IsNetConfig built.net_config
built_IsNetConfig = subst (After (HoldsMaps willing)) built_ok (
    (build_netconfig-IsNetConfig willing scope).after world (record {
      devices_distinct = tt;
      ports_distinct = tt;
      hosts_distinct = tt;
      apps_distinct = tt;
      apps_are_maps = tt;
    }))

-- the state after the push
abbrev pushed : World ℕ
pushed = left_by built (push_netconfig willing config scope built)

pushed_ok : push_netconfig willing config scope built ≡ ret (0, none) pushed
unfolding push_netconfig unchanged send_netconfig push_to rest_push_update send record_call
    cache_check cache_update onos_switch handle_switch build_device management_of attribute_value
    lookup_switch_model lookup_switch_model_port lookup_switch_vlan handle_switch_port
    switch_cage_channel_to_device_id cage_channel_to_port add_vlans add_untagged add_tagged
    with_pairing validate_route is_blank handle_route add_route for_logged lookup insert text_eqb
    sort_strings text_leb decimal address_to_mac management_address_to_ip ip_to_mac
    get_stratum_endpoint_for_netcfg parse_ip ip_form parse_ipv4 octet octets build_netconfig
    marshal_indent
pushed_ok = refl

push_netconfig-again_example : push_netconfig willing config scope pushed ≡ ret (0, none) pushed
push_netconfig-again_example =
    push_netconfig-again willing config scope built pushed refl built_IsNetConfig pushed_ok

-- ONOS answers with 500, and the fabric has the leaf only
abbrev unwilling : Services
unwilling = record willing {
  http_do =
      λ before req. ok (record { status_code = 500; status = codes "500 Internal Server Error" });
}

abbrev small_fabric : RootDevice
small_fabric = record fabric { switch = (codes "leaf1", leaf) ∷ [] }

abbrev after_failure : World ℕ
after_failure =
    left_by world (synchronize_device unwilling config 0 ((codes "f", small_fabric) ∷ []) world)

one_failure :
    synchronize_device unwilling config 0 ((codes "f", small_fabric) ∷ []) world
    ≡ ret (1, none) after_failure
unfolding synchronize_device synchronize_fabric push_netconfig unchanged send_netconfig push_to
    rest_push_update send record_call cache_check cache_update onos_switch handle_switch
    build_device management_of attribute_value lookup_switch_model lookup_switch_model_port
    lookup_switch_vlan handle_switch_port switch_cage_channel_to_device_id cage_channel_to_port
    add_vlans add_untagged add_tagged with_pairing validate_route is_blank handle_route add_route
    for_logged lookup insert text_eqb sort_strings text_leb decimal address_to_mac
    management_address_to_ip ip_to_mac get_stratum_endpoint_for_netcfg parse_ip ip_form parse_ipv4
    octet octets build_netconfig synchronize_fabric_to_onos synchronize_fabric_to_stratum
    stratum_loop use_secure_transport handle_stratum_switch handle_stratum_switch_port port_speed
    gnmi_push_update marshal_indent
one_failure = refl

synchronize_device-Counts_example : Counts (2 * 1) (1, none)
synchronize_device-Counts_example =
    synchronize_device-Counts unwilling config ((codes "f", small_fabric) ∷ []) world after_failure
      1 none one_failure

synchronize_device-counted_example :
    after_failure.kpi_total
    ≡ world.kpi_total ++ keys {V = RootDevice} ((codes "f", small_fabric) ∷ [])
synchronize_device-counted_example =
    synchronize_device-counted unwilling config 0 ((codes "f", small_fabric) ∷ []) world
      after_failure 1 one_failure
