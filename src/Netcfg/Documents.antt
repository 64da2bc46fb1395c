-- ===== src/Netcfg/Documents.antt =====
-- What ONOS is sent against what the cache compares (pkg/synchronizer/schema.go and cache.go).
use fabric_adapter.Base.{
  ◌≡◌, ◌↔◌, refl, ap, true, some, Option, Text, codes, lookup, text_eq, text_eqb, arith,
}
use fabric_adapter.Netcfg.{OnosNetConfig}
use fabric_adapter.Netcfg.Equal.{deciding, dict_eqb, app_eqb, deep_equal}
use fabric_adapter.Netcfg.Equal
use fabric_adapter.Netcfg.Reflexive.{AppIsMap, IsNetConfig}
use fabric_adapter.Netcfg.Encode.{
  Fields, net_config_fields, net_config_json, device_json, port_json, host_json, app_json,
}
use fabric_adapter.Netcfg.Decode
use fabric_adapter.Netcfg.Entries.{dict_eqb_iff}
use fabric_adapter.Netcfg.Agree.{discrete_dict_iff, filled_same, same_filled, app_agrees}
use fabric_adapter.Json.{Json, struct, filled, string_map}
use fabric_adapter.Json.Laws.{same_field, tags_differ}

module _ (c d : OnosNetConfig) (mc : IsNetConfig c) (md : IsNetConfig d) where
  devices_iff :
      (dict_eqb (deciding Equal.OnosDevice-discrete) c.devices d.devices ≡ true)
      ↔ (filled (string_map device_json) c.devices ≡ filled (string_map device_json) d.devices)
  devices_iff =
      discrete_dict_iff device_json Decode.device_from Equal.OnosDevice-discrete Decode.device_back
        c.devices d.devices mc.devices_distinct md.devices_distinct

  ports_iff :
      (dict_eqb (deciding Equal.OnosPort-discrete) c.ports d.ports ≡ true)
      ↔ (filled (string_map port_json) c.ports ≡ filled (string_map port_json) d.ports)
  ports_iff =
      discrete_dict_iff port_json Decode.port_from Equal.OnosPort-discrete Decode.port_back c.ports
        d.ports mc.ports_distinct md.ports_distinct

  hosts_iff :
      (dict_eqb (deciding Equal.OnosHost-discrete) c.hosts d.hosts ≡ true)
      ↔ (filled (string_map host_json) c.hosts ≡ filled (string_map host_json) d.hosts)
  hosts_iff =
      discrete_dict_iff host_json Decode.host_from Equal.OnosHost-discrete Decode.host_back c.hosts
        d.hosts mc.hosts_distinct md.hosts_distinct

  apps_iff :
      (dict_eqb app_eqb c.apps d.apps ≡ true)
      ↔ (filled (string_map app_json) c.apps ≡ filled (string_map app_json) d.apps)
  apps_iff =
      let iff =
        dict_eqb_iff app_json app_eqb AppIsMap app_agrees c.apps d.apps mc.apps_distinct
          md.apps_distinct mc.apps_are_maps md.apps_are_maps in
      (
        λ h. filled_same app_json c.apps d.apps (iff.0 h),
        λ e. iff.1 (same_filled app_json c.apps d.apps e),
      )

  same_document : deep_equal c d ≡ true → net_config_json c ≡ net_config_json d
  unfolding deep_equal
  same_document h =
      ap (λ (fields : Fields). struct fields)
        (cc (
          devices_iff.0 (ground (arith, h)),
          ports_iff.0 (ground (arith, h)),
          hosts_iff.0 (ground (arith, h)),
          apps_iff.0 (ground (arith, h)),
        ))

  module _ (e : net_config_json c ≡ net_config_json d) where
    under :
        (name : Text) (o p : Option Json)
        → lookup name (net_config_fields c) ≡ some o
        → lookup name (net_config_fields d) ≡ some p
        → o ≡ p
    unfolding tags_differ lookup text_eqb
    under name o p h h' =
        same_field (net_config_fields c) (net_config_fields d) name o p refl refl h h' e

    equal_of_document : deep_equal c d ≡ true
    unfolding deep_equal lookup text_eqb
    equal_of_document = ground (
      arith,
      devices_iff.1 (under (codes "devices") _ _ refl refl),
      ports_iff.1 (under (codes "ports") _ _ refl refl),
      hosts_iff.1 (under (codes "hosts") _ _ refl refl),
      apps_iff.1 (under (codes "apps") _ _ refl refl),
    )

-- Two network configurations whose maps have each key once are equal to reflect.DeepEqual, as the
-- cache compares them, exactly when their JSON documents are the same.
pub deep_equal_iff :
    (c d : OnosNetConfig)
    → IsNetConfig c
    → IsNetConfig d
    → (deep_equal c d ≡ true) ↔ (net_config_json c ≡ net_config_json d)
deep_equal_iff c d mc md = (same_document c d mc md, equal_of_document c d mc md)
