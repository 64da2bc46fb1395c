-- ===== src/Netcfg/Encode.antt =====
-- The struct tags of pkg/synchronizer/schema.go: a network configuration as a JSON document. An empty
-- list stands for an empty slice that is not nil; a nil one that is not omitted would be `null`.
use fabric_adapter.Base.{Option, some, List, [], ◌∷◌, Text, codes, Result, ok}
use fabric_adapter.Netcfg.{
  SegmentRouting, DeviceBasic, OnosDevice, OnosInterface, OnosPort, OnosHost, OnosRoute,
  OnosUp4Config, OnosDhcpConfig, OnosTelemetryReport, OnosTelemetryQueue, OnosApp, OnosNetConfig,
  OnosComponentConfig, OnosConfig,
}
use fabric_adapter.Json.{
  Json, string, number, boolean, nonzero, nonempty, filled, pointed, struct, slice, string_map,
}
use fabric_adapter.Json.Print.{print}

abbrev pub Fields : Type 0
Fields = List (Text × Option Json)

abbrev pub segment_routing_fields : SegmentRouting → Fields
segment_routing_fields s =
    (codes "ipv4NodeSid", nonzero s.ipv4_node_sid)
    ∷ (codes "ipv4Loopback", nonempty s.ipv4_loopback)
    ∷ (codes "routerMac", nonempty s.router_mac)
    ∷ (codes "isEdgeRouter", some (boolean s.is_edge_router))
    ∷ (codes "pairDeviceId", nonempty s.pair_device_id)
    ∷ (codes "pairLocalPort", nonzero s.pair_local_port)
    ∷ (codes "adjacencySids", some (slice number s.adjacency_sids))
    ∷ []

abbrev pub segment_routing_json : SegmentRouting → Json
segment_routing_json s = struct (segment_routing_fields s)

abbrev pub device_basic_fields : DeviceBasic → Fields
device_basic_fields b =
    (codes "name", some (string b.name))
    ∷ (codes "managementAddress", nonempty b.management_address)
    ∷ (codes "driver", some (string b.driver))
    ∷ (codes "pipeconf", some (string b.pipe_conf))
    ∷ (codes "locType", nonempty b.loc_type)
    ∷ (codes "gridX", nonzero b.grid_x)
    ∷ (codes "gridY", nonzero b.grid_y)
    ∷ []

abbrev pub device_basic_json : DeviceBasic → Json
device_basic_json b = struct (device_basic_fields b)

abbrev pub device_fields : OnosDevice → Fields
device_fields d =
    (codes "segmentrouting", some (segment_routing_json d.segment_routing))
    ∷ (codes "basic", some (device_basic_json d.basic))
    ∷ []

abbrev pub device_json : OnosDevice → Json
device_json d = struct (device_fields d)

abbrev pub interface_fields : OnosInterface → Fields
interface_fields i =
    (codes "ips", filled (slice string) i.ips)
    ∷ (codes "vlan-tagged", filled (slice number) i.vlan_tagged)
    ∷ (codes "vlan-untagged", nonzero i.vlan_untagged)
    ∷ (codes "name", some (string i.name))
    ∷ []

abbrev pub interface_json : OnosInterface → Json
interface_json i = struct (interface_fields i)

abbrev pub port_fields : OnosPort → Fields
port_fields p = (codes "interfaces", some (slice interface_json p.interfaces)) ∷ []

abbrev pub port_json : OnosPort → Json
port_json p = struct (port_fields p)

abbrev pub host_basic_fields : OnosHost → Fields
host_basic_fields h =
    (codes "name", some (string h.name))
    ∷ (codes "ips", some (slice string h.ips))
    ∷ (codes "locations", some (slice string h.locations))
    ∷ []

abbrev pub host_fields : OnosHost → Fields
host_fields h = (codes "basic", some (struct (host_basic_fields h))) ∷ []

abbrev pub host_json : OnosHost → Json
host_json h = struct (host_fields h)

abbrev pub route_fields : OnosRoute → Fields
route_fields r =
    (codes "prefix", some (string r.prefix)) ∷ (codes "nextHop", some (string r.next_hop)) ∷ []

abbrev pub route_json : OnosRoute → Json
route_json r = struct (route_fields r)

abbrev pub up4_fields : OnosUp4Config → Fields
up4_fields u = (codes "devices", some (slice string u.devices)) ∷ []

abbrev pub up4_json : OnosUp4Config → Json
up4_json u = struct (up4_fields u)

abbrev pub dhcp_fields : OnosDhcpConfig → Fields
dhcp_fields d =
    (codes "dhcpServerConnectPoint", some (string d.connect_point))
    ∷ (codes "serverIps", some (slice string d.server_ips))
    ∷ []

abbrev pub dhcp_json : OnosDhcpConfig → Json
dhcp_json d = struct (dhcp_fields d)

abbrev pub telemetry_report_fields : OnosTelemetryReport → Fields
telemetry_report_fields t =
    (codes "collectorIp", some (string t.collector_ip))
    ∷ (codes "collectorPort", some (number t.collector_port))
    ∷ (codes "minFlowHopLatencyChangeNs", some (number t.min_flow_hop_latency_change_ns))
    ∷ (codes "watchSubnets", some (slice string t.watch_subnets))
    ∷ []

abbrev pub telemetry_report_json : OnosTelemetryReport → Json
telemetry_report_json t = struct (telemetry_report_fields t)

-- the tag of `ResetNs` is spelled `restNs`
abbrev pub telemetry_queue_fields : OnosTelemetryQueue → Fields
telemetry_queue_fields t =
    (codes "triggerNs", some (number t.trigger_ns))
    ∷ (codes "restNs", some (number t.reset_ns))
    ∷ []

abbrev pub telemetry_queue_json : OnosTelemetryQueue → Json
telemetry_queue_json t = struct (telemetry_queue_fields t)

abbrev pub app_fields : OnosApp → Fields
app_fields a =
    (codes "routes", filled (slice route_json) a.routes)
    ∷ (codes "up4", pointed up4_json a.up4)
    ∷ (codes "default", pointed dhcp_json a.dhcp_default)
    ∷ (codes "report", pointed telemetry_report_json a.telemetry_report)
    ∷ (
      codes "queueReportLatencyThresholds",
      filled (string_map telemetry_queue_json) a.telemetry_queue_report_latency_thresholds,
    )
    ∷ []

abbrev pub app_json : OnosApp → Json
app_json a = struct (app_fields a)

abbrev pub net_config_fields : OnosNetConfig → Fields
net_config_fields c =
    (codes "devices", filled (string_map device_json) c.devices)
    ∷ (codes "ports", filled (string_map port_json) c.ports)
    ∷ (codes "hosts", filled (string_map host_json) c.hosts)
    ∷ (codes "apps", filled (string_map app_json) c.apps)
    ∷ []

abbrev pub net_config_json : OnosNetConfig → Json
net_config_json c = struct (net_config_fields c)

abbrev pub component_config_fields : OnosComponentConfig → Fields
component_config_fields c =
    (codes "monitorHosts", some (boolean c.monitor_hosts))
    ∷ (codes "probeRate", some (string c.probe_rate))
    ∷ (codes "realPortId", some (boolean c.real_port_id))
    ∷ []

abbrev pub component_config_json : OnosComponentConfig → Json
component_config_json c = struct (component_config_fields c)

abbrev pub onos_config_fields : OnosConfig → Fields
onos_config_fields c =
    (codes "componentConfig", some (string_map component_config_json c.component_config))
    ∷ (codes "netcfg", some (net_config_json c.net_config))
    ∷ []

abbrev pub onos_config_json : OnosConfig → Json
onos_config_json c = struct (onos_config_fields c)

-- `json.MarshalIndent(scope.NetConfig, "", "  ")`; these types give no error
unfoldable pub marshal_indent : OnosNetConfig → Result Text
unfolding print
marshal_indent c = ok (print 0 (net_config_json c))
