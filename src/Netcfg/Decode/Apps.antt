-- ===== src/Netcfg/Decode/Apps.antt =====
-- The documents of the apps of pkg/synchronizer/schema.go read back.
use fabric_adapter.Base.{◌≡◌, refl, true, some, codes, lookup, text_eq, text_eqb}
use fabric_adapter.Netcfg.{
  OnosRoute, OnosUp4Config, OnosDhcpConfig, OnosTelemetryReport, OnosTelemetryQueue,
}
use fabric_adapter.Netcfg.Encode.{
  route_fields, route_json, up4_fields, up4_json, dhcp_fields, dhcp_json, telemetry_report_fields,
  telemetry_report_json, telemetry_queue_fields, telemetry_queue_json,
}
use fabric_adapter.Json.{Json, string, get}
use fabric_adapter.Json.Laws.{
  as_number, as_text, as_members, as_items, list_of, number_field, text_field, slice_field,
  tags_differ,
}
use fabric_adapter.Netcfg.Decode.{text_in}

pub route_from : Json → OnosRoute
route_from v =
    let ms = as_members (some v) in
    record {
      prefix = as_text (get (codes "prefix") ms);
      next_hop = as_text (get (codes "nextHop") ms);
    }

pub route_back : (r : OnosRoute) → route_from (route_json r) ≡ r
unfolding route_from lookup text_eqb tags_differ
route_back r =
    let d : tags_differ (route_fields r) ≡ true = refl in
    cc (
      text_field _ d (codes "prefix") r.prefix refl,
      text_field _ d (codes "nextHop") r.next_hop refl,
    )

pub up4_from : Json → OnosUp4Config
up4_from v =
    let ms = as_members (some v) in
    record { devices = list_of text_in (as_items (get (codes "devices") ms)) }

pub up4_back : (u : OnosUp4Config) → up4_from (up4_json u) ≡ u
unfolding up4_from lookup text_eqb tags_differ
up4_back u =
    let d : tags_differ (up4_fields u) ≡ true = refl in
    cc (slice_field _ d (codes "devices") string text_in u.devices (λ t. refl) refl)

pub dhcp_from : Json → OnosDhcpConfig
dhcp_from v =
    let ms = as_members (some v) in
    record {
      connect_point = as_text (get (codes "dhcpServerConnectPoint") ms);
      server_ips = list_of text_in (as_items (get (codes "serverIps") ms));
    }

pub dhcp_back : (c : OnosDhcpConfig) → dhcp_from (dhcp_json c) ≡ c
unfolding dhcp_from lookup text_eqb tags_differ
dhcp_back c =
    let d : tags_differ (dhcp_fields c) ≡ true = refl in
    cc (
      text_field _ d (codes "dhcpServerConnectPoint") c.connect_point refl,
      slice_field _ d (codes "serverIps") string text_in c.server_ips (λ t. refl) refl,
    )

pub telemetry_report_from : Json → OnosTelemetryReport
telemetry_report_from v =
    let ms = as_members (some v) in
    record {
      collector_ip = as_text (get (codes "collectorIp") ms);
      collector_port = as_number (get (codes "collectorPort") ms);
      min_flow_hop_latency_change_ns = as_number (get (codes "minFlowHopLatencyChangeNs") ms);
      watch_subnets = list_of text_in (as_items (get (codes "watchSubnets") ms));
    }

pub telemetry_report_back :
    (t : OnosTelemetryReport) → telemetry_report_from (telemetry_report_json t) ≡ t
unfolding telemetry_report_from lookup text_eqb tags_differ
telemetry_report_back t =
    let d : tags_differ (telemetry_report_fields t) ≡ true = refl in
    cc (
      text_field _ d (codes "collectorIp") t.collector_ip refl,
      number_field _ d (codes "collectorPort") t.collector_port refl,
      number_field _ d (codes "minFlowHopLatencyChangeNs") t.min_flow_hop_latency_change_ns refl,
      slice_field _ d (codes "watchSubnets") string text_in t.watch_subnets (λ t. refl) refl,
    )

pub telemetry_queue_from : Json → OnosTelemetryQueue
telemetry_queue_from v =
    let ms = as_members (some v) in
    record {
      trigger_ns = as_number (get (codes "triggerNs") ms);
      reset_ns = as_number (get (codes "restNs") ms);
    }

pub telemetry_queue_back :
    (t : OnosTelemetryQueue) → telemetry_queue_from (telemetry_queue_json t) ≡ t
unfolding telemetry_queue_from lookup text_eqb tags_differ
telemetry_queue_back t =
    let d : tags_differ (telemetry_queue_fields t) ≡ true = refl in
    cc (
      number_field _ d (codes "triggerNs") t.trigger_ns refl,
      number_field _ d (codes "restNs") t.reset_ns refl,
    )
