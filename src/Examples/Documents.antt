-- ===== src/Examples/Documents.antt =====
-- The documents that ONOS is sent (pkg/synchronizer/schema.go), at concrete inputs.
use fabric_adapter.Base.{
  ◌≡◌, ◌↔◌, refl, true, none, some, ℕ, text_eq, [], ◌∷◌, codes, text_eqb, lookup, ok, ◌++◌, Text,
  ◌<◌, arith,
}
use fabric_adapter.Netcfg.{OnosNetConfig}
use fabric_adapter.Netcfg.Encode.{net_config_json, marshal_indent}
use fabric_adapter.Netcfg.Reflexive.{IsNetConfig}
use fabric_adapter.Json.{present, items_of, string_map}
use fabric_adapter.Sorting.{sort_strings, text_leb}
use fabric_adapter.Cache.{cache_key, cache_model_net_config}
use fabric_adapter.Onos.{unchanged}
use fabric_adapter.Onos.Documents.{unchanged-marshal_indent_iff}
use fabric_adapter.Netcfg.Sent.{IsAscii, unmarshal, unmarshal-marshal_indent}
use fabric_adapter.Netcfg.Equal.{deep_equal}
use fabric_adapter.Json.Read.Scan.{is_ascii}
use fabric_adapter.Json.Read.Values.{weight, has_ascii}
use fabric_adapter.Examples.Data.{willing, scope, config, world}
use fabric_adapter.World.{World}

-- a configuration with one port and one app
abbrev small : OnosNetConfig
small = record {
  devices = [];
  ports =
      (
        codes "device:leaf1/1",
        record {
          interfaces =
              record {
                ips = codes "10.1.0.254/24" ∷ [];
                vlan_tagged = [];
                vlan_untagged = 10;
                name = codes "p<1>";
              }
              ∷ [];
        },
      )
      ∷ [];
  hosts = [];
  apps =
      (
        codes "org.onosproject.route-service",
        record {
          routes = record { prefix = codes "10.2.0.0/16"; next_hop = codes "10.1.0.1" } ∷ [];
          up4 = none;
          dhcp_default = none;
          telemetry_report = none;
          telemetry_queue_report_latency_thresholds =
              (codes "0", record { trigger_ns = 500; reset_ns = 250 }) ∷ [];
        },
      )
      ∷ [];
}

small_text :
    marshal_indent small
    ≡ ok (
        codes
          "{\n  \"ports\": {\n    \"device:leaf1/1\": {\n      \"interfaces\": [\n        {\n          \"ips\": [\n            \"10.1.0.254/24\"\n          ],\n"
        ++ (codes
              "          \"vlan-untagged\": 10,\n          \"name\": \"p\\u003c1\\u003e\"\n        }\n      ]\n    }\n  },\n"
            ++ (codes
                  "  \"apps\": {\n    \"org.onosproject.route-service\": {\n      \"routes\": [\n        {\n          \"prefix\": \"10.2.0.0/16\",\n          \"nextHop\": \"10.1.0.1\"\n        }\n      ],\n"
                ++ codes
                    "      \"queueReportLatencyThresholds\": {\n        \"0\": {\n          \"triggerNs\": 500,\n          \"restNs\": 250\n        }\n      }\n    }\n  }\n}")))
unfolding marshal_indent lookup text_eqb present items_of string_map sort_strings text_leb
small_text = refl

small-IsNetConfig : IsNetConfig small
unfolding lookup
small-IsNetConfig = record {
  devices_distinct = tt;
  ports_distinct = (refl, tt);
  hosts_distinct = tt;
  apps_distinct = (refl, tt);
  apps_are_maps = ((refl, tt), tt);
}

-- it is built, where one without the port is cached
abbrev portless : OnosNetConfig
portless = record small { ports = [] }

portless-IsNetConfig : IsNetConfig portless
unfolding lookup
portless-IsNetConfig = record {
  devices_distinct = tt;
  ports_distinct = tt;
  hosts_distinct = tt;
  apps_distinct = (refl, tt);
  apps_are_maps = ((refl, tt), tt);
}

abbrev built_again : World ℕ
built_again = record world {
  net_config = small;
  cache = (cache_key cache_model_net_config (codes "f"), portless) ∷ [];
}

cached : lookup (cache_key cache_model_net_config (codes "f")) built_again.cache ≡ some portless
unfolding lookup text_eqb
cached = refl

small-IsAscii : IsAscii small
unfolding has_ascii is_ascii present items_of string_map sort_strings text_leb lookup text_eqb
small-IsAscii = refl

portless-IsAscii : IsAscii portless
unfolding has_ascii is_ascii present items_of string_map sort_strings text_leb lookup text_eqb
portless-IsAscii = refl

unchanged-marshal_indent_iff_example :
    (unchanged willing config (codes "f") built_again ≡ true)
    ↔ (marshal_indent portless ≡ marshal_indent small)
unchanged-marshal_indent_iff_example =
    unchanged-marshal_indent_iff willing config scope built_again portless refl cached
      portless-IsNetConfig small-IsNetConfig portless-IsAscii small-IsAscii

small-weight : weight (net_config_json small) < 100
unfolding weight present items_of string_map sort_strings text_leb lookup text_eqb
small-weight = omega arith

unmarshal-marshal_indent_example :
    (s : Text) × (d : OnosNetConfig) × (marshal_indent small ≡ ok s)
    × (unmarshal 100 s ≡ some d)
    × (deep_equal small d ≡ true)
unmarshal-marshal_indent_example =
    unmarshal-marshal_indent small 100 small-weight small-IsAscii small-IsNetConfig
