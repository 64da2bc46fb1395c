-- ===== src/Netcfg/Decode.antt =====
-- The documents of pkg/synchronizer/schema.go read back, member by member: every struct is recovered
-- from its document.
pub mod Apps
pub mod Configs
use fabric_adapter.Base.{
  ℕ, ◌≡◌, refl, ap, ◌∙◌, true, none, some, Option, Text, codes, lookup, text_eq, text_eqb,
}
use fabric_adapter.Netcfg.{
  SegmentRouting, DeviceBasic, OnosDevice, OnosInterface, OnosPort, OnosHost, OnosRoute,
  OnosUp4Config, OnosDhcpConfig, OnosTelemetryReport, OnosTelemetryQueue,
}
use fabric_adapter.Netcfg.Encode.{
  segment_routing_fields, segment_routing_json, device_basic_fields, device_basic_json,
  device_fields, device_json, interface_fields, interface_json, port_fields, port_json, host_fields,
  host_json, route_fields, route_json, up4_fields, up4_json, dhcp_fields, dhcp_json,
  telemetry_report_fields, telemetry_report_json, telemetry_queue_fields, telemetry_queue_json,
  host_basic_fields,
}
use fabric_adapter.Json.{struct, Json, string, number, object, no_members, get, pointed}
use fabric_adapter.Json.Laws.{
  as_number, as_text, as_boolean, as_members, as_items, list_of, nonzero_field, nonempty_field,
  number_field, text_field, boolean_field, option_field, slice_field, filled_field, tags_differ,
}

abbrev number_in : Json → ℕ
number_in v = as_number (some v)

abbrev pub text_in : Json → Text
text_in v = as_text (some v)

abbrev pub as_json : Option Json → Json
as_json none = object no_members
as_json (some v) = v

abbrev pub pointer_from {ℓ} : {A : Type ℓ} → (Json → A) → Option Json → Option A
pointer_from g none = none
pointer_from g (some v) = some (g v)

pub pointer_back {ℓ} :
    {A : Type ℓ} (f : A → Json) (g : Json → A) (o : Option A)
    → ((a : A) → g (f a) ≡ a)
    → pointer_from g (pointed f o) ≡ o
pointer_back f g none h = refl
pointer_back f g (some a) h = ap some (h a)

segment_routing_from : Json → SegmentRouting
segment_routing_from v =
    let ms = as_members (some v) in
    record {
      ipv4_node_sid = as_number (get (codes "ipv4NodeSid") ms);
      ipv4_loopback = as_text (get (codes "ipv4Loopback") ms);
      router_mac = as_text (get (codes "routerMac") ms);
      is_edge_router = as_boolean (get (codes "isEdgeRouter") ms);
      pair_device_id = as_text (get (codes "pairDeviceId") ms);
      pair_local_port = as_number (get (codes "pairLocalPort") ms);
      adjacency_sids = list_of number_in (as_items (get (codes "adjacencySids") ms));
    }

segment_routing_back : (s : SegmentRouting) → segment_routing_from (segment_routing_json s) ≡ s
unfolding segment_routing_from lookup text_eqb tags_differ
segment_routing_back s =
    let d : tags_differ (segment_routing_fields s) ≡ true = refl in
    cc (
      nonzero_field _ d (codes "ipv4NodeSid") s.ipv4_node_sid refl,
      nonempty_field _ d (codes "ipv4Loopback") s.ipv4_loopback refl,
      nonempty_field _ d (codes "routerMac") s.router_mac refl,
      boolean_field _ d (codes "isEdgeRouter") s.is_edge_router refl,
      nonempty_field _ d (codes "pairDeviceId") s.pair_device_id refl,
      nonzero_field _ d (codes "pairLocalPort") s.pair_local_port refl,
      slice_field _ d (codes "adjacencySids") number number_in s.adjacency_sids (λ n. refl) refl,
    )

device_basic_from : Json → DeviceBasic
device_basic_from v =
    let ms = as_members (some v) in
    record {
      name = as_text (get (codes "name") ms);
      management_address = as_text (get (codes "managementAddress") ms);
      driver = as_text (get (codes "driver") ms);
      pipe_conf = as_text (get (codes "pipeconf") ms);
      loc_type = as_text (get (codes "locType") ms);
      grid_x = as_number (get (codes "gridX") ms);
      grid_y = as_number (get (codes "gridY") ms);
    }

device_basic_back : (b : DeviceBasic) → device_basic_from (device_basic_json b) ≡ b
unfolding device_basic_from lookup text_eqb tags_differ
device_basic_back b =
    let d : tags_differ (device_basic_fields b) ≡ true = refl in
    cc (
      text_field _ d (codes "name") b.name refl,
      nonempty_field _ d (codes "managementAddress") b.management_address refl,
      text_field _ d (codes "driver") b.driver refl,
      text_field _ d (codes "pipeconf") b.pipe_conf refl,
      nonempty_field _ d (codes "locType") b.loc_type refl,
      nonzero_field _ d (codes "gridX") b.grid_x refl,
      nonzero_field _ d (codes "gridY") b.grid_y refl,
    )

pub device_from : Json → OnosDevice
device_from v =
    let ms = as_members (some v) in
    record {
      segment_routing = segment_routing_from (as_json (get (codes "segmentrouting") ms));
      basic = device_basic_from (as_json (get (codes "basic") ms));
    }

pub device_back : (d : OnosDevice) → device_from (device_json d) ≡ d
unfolding device_from lookup text_eqb tags_differ
device_back d =
    let d' : tags_differ (device_fields d) ≡ true = refl in
    cc (
      ap (λ o. segment_routing_from (as_json o))
          (option_field (device_fields d) d' (codes "segmentrouting")
            (some (segment_routing_json d.segment_routing)) refl),
      segment_routing_back d.segment_routing,
      ap (λ o. device_basic_from (as_json o))
          (option_field (device_fields d) d' (codes "basic") (some (device_basic_json d.basic))
            refl),
      device_basic_back d.basic,
    )

interface_from : Json → OnosInterface
interface_from v =
    let ms = as_members (some v) in
    record {
      ips = list_of text_in (as_items (get (codes "ips") ms));
      vlan_tagged = list_of number_in (as_items (get (codes "vlan-tagged") ms));
      vlan_untagged = as_number (get (codes "vlan-untagged") ms);
      name = as_text (get (codes "name") ms);
    }

interface_back : (i : OnosInterface) → interface_from (interface_json i) ≡ i
unfolding interface_from lookup text_eqb tags_differ
interface_back i =
    let d : tags_differ (interface_fields i) ≡ true = refl in
    cc (
      filled_field _ d (codes "ips") string text_in i.ips (λ t. refl) refl,
      filled_field _ d (codes "vlan-tagged") number number_in i.vlan_tagged (λ n. refl) refl,
      nonzero_field _ d (codes "vlan-untagged") i.vlan_untagged refl,
      text_field _ d (codes "name") i.name refl,
    )

pub port_from : Json → OnosPort
port_from v =
    let ms = as_members (some v) in
    record { interfaces = list_of interface_from (as_items (get (codes "interfaces") ms)) }

pub port_back : (p : OnosPort) → port_from (port_json p) ≡ p
unfolding port_from lookup text_eqb tags_differ
port_back p =
    let d : tags_differ (port_fields p) ≡ true = refl in
    cc (
      slice_field _ d (codes "interfaces") interface_json interface_from p.interfaces interface_back
        refl)

host_basic_from : Json → OnosHost
host_basic_from v =
    let ms = as_members (some v) in
    record {
      name = as_text (get (codes "name") ms);
      ips = list_of text_in (as_items (get (codes "ips") ms));
      locations = list_of text_in (as_items (get (codes "locations") ms));
    }

host_basic_back : (h : OnosHost) → host_basic_from (struct (host_basic_fields h)) ≡ h
unfolding host_basic_from lookup text_eqb tags_differ
host_basic_back h =
    let d : tags_differ (host_basic_fields h) ≡ true = refl in
    cc (
      text_field _ d (codes "name") h.name refl,
      slice_field _ d (codes "ips") string text_in h.ips (λ t. refl) refl,
      slice_field _ d (codes "locations") string text_in h.locations (λ t. refl) refl,
    )

pub host_from : Json → OnosHost
host_from v = host_basic_from (as_json (get (codes "basic") (as_members (some v))))

pub host_back : (h : OnosHost) → host_from (host_json h) ≡ h
unfolding host_from lookup text_eqb tags_differ
host_back h =
    ap (λ o. host_basic_from (as_json o)) (option_field (host_fields h) refl (codes "basic") _ refl)
    ∙ host_basic_back h
