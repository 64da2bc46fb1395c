-- ===== src/Examples/Pushes.antt =====
-- The pushers, the cache, the chassis ports and the counts (pkg/synchronizer), at concrete inputs.
use fabric_adapter.Base.{
  ℕ, ◌≡◌, ◌↔◌, ◌≤◌, ◌<◌, refl, false, none, some, [], codes, text_eqb, lookup, arith, no_endpoint,
  ok, ret, panic, Text, some, ◌++◌, for_logged, if◌then◌else◌,
}
use fabric_adapter.Netcfg.Equal.{deep_equal}
use fabric_adapter.Cache.{cache_check, cache_update, cache_model_net_config}
use fabric_adapter.Cache.Contents.{cache_check-cache_update}
use fabric_adapter.World.{HttpRequest, HttpResponse, World, FabricScope, http_call, gnmi_call}
use fabric_adapter.Pusher.{GnmiPusher, update_request, set_request, send, gnmi_push_update}
use fabric_adapter.Pusher.Answers.{recorded, send-ret_iff, gnmi_push_update-ret_iff}
use fabric_adapter.Netcfg.Encode.{marshal_indent}
use fabric_adapter.Onos.{unchanged, send_netconfig, push_netconfig}
use fabric_adapter.Onos.Resend.{push_netconfig-error}
use fabric_adapter.Stratum.{
  stratum_port_id, handle_stratum_switch, handle_stratum_switch_port, port_speed,
}
use fabric_adapter.Stratum.Numbers.{stratum_port_id-injective, port_number-agrees_iff}
use fabric_adapter.Stratum.Ports.{described_ports}
use fabric_adapter.Stratum.Built.{chassis_with, handle_stratum_switch_lem}
use fabric_adapter.Switch.{management_of}
use fabric_adapter.Lookup.{lookup_switch_model_port}
use fabric_adapter.Util.{cage_channel_to_port}
use fabric_adapter.Device.{empty_net_config, stratum_round}
use fabric_adapter.Device.NoManagement.{stratum_round-panics}
use fabric_adapter.Examples.Data.{willing, leaf, spine, model, scope, config, world, left_by}

abbrev request : HttpRequest
request = update_request (record {
  endpoint = codes "http://onos:8181/";
  username = codes "onos";
  password = codes "rocks";
  body = codes "{}";
})

send-ret_iff_example :
    (send willing request world ≡ ret tt (recorded willing (http_call request) world)) ↔ (
      (willing.new_request request.method request.url ≡ ok tt)
      × (recorded willing (http_call request) world ≡ recorded willing (http_call request) world)
      × ((resp : HttpResponse) × (willing.http_do world.calls request ≡ ok resp)
          × (200 ≤ resp.status_code)
          × (resp.status_code < 300)))
send-ret_iff_example =
    send-ret_iff willing request world (recorded willing (http_call request) world)

cache_check-cache_update_example :
    cache_check cache_model_net_config
      (codes "f")
      empty_net_config
      (cache_update cache_model_net_config (codes "g") empty_net_config [])
    ≡ (if text_eqb (codes "g") (codes "f")
        then deep_equal empty_net_config empty_net_config
        else cache_check cache_model_net_config (codes "f") empty_net_config [])
cache_check-cache_update_example =
    cache_check-cache_update cache_model_net_config (codes "g") (codes "f") empty_net_config
      empty_net_config []

abbrev homeless : FabricScope
homeless = record scope { onos_endpoint = none }

nowhere_to_send :
    push_netconfig willing config homeless world ≡ ret (0, some (no_endpoint (codes "f"))) world
unfolding push_netconfig unchanged send_netconfig cache_check lookup marshal_indent
nowhere_to_send = refl

push_netconfig-error_example : world.cache ≡ world.cache
push_netconfig-error_example =
    push_netconfig-error willing config homeless world world 0 (no_endpoint (codes "f"))
      nowhere_to_send

-- the chassis configuration of the leaf
abbrev chassis_built : World ℕ
chassis_built = left_by world (handle_stratum_switch scope leaf model world)

chassis_ok : handle_stratum_switch scope leaf model world ≡ ret tt chassis_built
unfolding handle_stratum_switch handle_stratum_switch_port port_speed management_of for_logged
    lookup_switch_model_port lookup
chassis_ok = refl

handle_stratum_switch_lem_example :
    (name : Text) × (leaf.display_name ≡ some name)
    × (chassis_built
        ≡ record world { chassis = chassis_with name ([] ++ described_ports model leaf.port) })
handle_stratum_switch_lem_example =
    handle_stratum_switch_lem scope leaf model world chassis_built chassis_ok

same_id : stratum_port_id 3 2 ≡ stratum_port_id 3 2
same_id = refl

stratum_port_id-injective_example : (◌≡◌ {A = ℕ} 3 3) × (◌≡◌ {A = ℕ} 2 2)
stratum_port_id-injective_example =
    stratum_port_id-injective 3 2 3 2 (omega arith) (omega arith) (omega arith) (omega arith)
      (omega arith) (omega arith) same_id

number_here : cage_channel_to_port {W = ℕ} (some 3) (some 2) 0 ≡ ret 203 0
unfolding cage_channel_to_port
number_here = refl

port_number-agrees_iff_example : (stratum_port_id 3 2 ≡ 203) ↔ (◌≡◌ {A = ℕ} 2 0)
port_number-agrees_iff_example =
    port_number-agrees_iff 3 2 203 0 (omega arith) (omega arith) number_here

stratum_round-panics_example :
    stratum_round willing scope spine model (λ w. ret (0, none) w) world ≡ panic
unfolding lookup text_eqb
stratum_round-panics_example =
    stratum_round-panics willing scope spine model (λ w. ret (0, none) w) (codes "spine1") [] world
      refl refl refl refl

abbrev gnmi_pusher : GnmiPusher
gnmi_pusher = record {
  endpoint = codes "10.0.0.1:9559";
  path = [];
  payload = codes "x";
  target = [];
  secure = false;
}

abbrev after_gnmi : World ℕ
after_gnmi =
    recorded willing (gnmi_call (codes "10.0.0.1:9559") [] false (set_request gnmi_pusher)) world

gnmi_push_update-ret_iff_example :
    (gnmi_push_update willing gnmi_pusher world ≡ ret tt after_gnmi) ↔ (
      (willing.gnmi_set world.calls (codes "10.0.0.1:9559") [] false (set_request gnmi_pusher)
        ≡ ok tt)
      × (after_gnmi ≡ after_gnmi))
gnmi_push_update-ret_iff_example = gnmi_push_update-ret_iff willing gnmi_pusher world after_gnmi
