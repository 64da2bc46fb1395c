-- ===== src/Netcfg.antt =====
-- pkg/synchronizer/schema.go: the network configuration of ONOS, as the adapter builds it.
pub mod Equal
pub mod Reflexive
pub mod Documents
pub mod Sent
pub mod Entries
pub mod Agree
pub mod Encode
pub mod Decode
use fabric_adapter.Base.{ℕ, Option, Bool, List, Text, Dict, codes}

-- `onosRouteAppName`
abbrev pub onos_route_app_name : Text
onos_route_app_name = codes "org.onosproject.route-service"

pub record SegmentRouting : Type 0 where
  pub ipv4_node_sid : ℕ  -- uint32
  pub ipv4_loopback : Text
  pub router_mac : Text
  pub is_edge_router : Bool
  pub pair_device_id : Text
  pub pair_local_port : ℕ  -- uint16
  pub adjacency_sids : List ℕ

pub record DeviceBasic : Type 0 where
  pub name : Text
  pub management_address : Text
  pub driver : Text
  pub pipe_conf : Text
  pub loc_type : Text
  pub grid_x : ℕ
  pub grid_y : ℕ

pub record OnosDevice : Type 0 where
  pub segment_routing : SegmentRouting
  pub basic : DeviceBasic

pub record OnosInterface : Type 0 where
  pub ips : List Text
  pub vlan_tagged : List ℕ
  pub vlan_untagged : ℕ
  pub name : Text

pub record OnosPort : Type 0 where
  pub interfaces : List OnosInterface

pub record OnosHost : Type 0 where
  pub name : Text
  pub ips : List Text
  pub locations : List Text

pub record OnosRoute : Type 0 where
  pub prefix : Text
  pub next_hop : Text

pub record OnosUp4Config : Type 0 where
  pub devices : List Text

pub record OnosDhcpConfig : Type 0 where
  pub connect_point : Text
  pub server_ips : List Text

pub record OnosTelemetryReport : Type 0 where
  pub collector_ip : Text
  pub collector_port : ℕ
  pub min_flow_hop_latency_change_ns : ℕ
  pub watch_subnets : List Text

pub record OnosTelemetryQueue : Type 0 where
  pub trigger_ns : ℕ
  pub reset_ns : ℕ

pub record OnosApp : Type 0 where
  pub routes : List OnosRoute
  pub up4 : Option OnosUp4Config
  pub dhcp_default : Option OnosDhcpConfig
  pub telemetry_report : Option OnosTelemetryReport
  pub telemetry_queue_report_latency_thresholds : Dict Text OnosTelemetryQueue

pub record OnosNetConfig : Type 0 where
  pub devices : Dict Text OnosDevice
  pub ports : Dict Text OnosPort
  pub hosts : Dict Text OnosHost
  pub apps : Dict Text OnosApp

-- `OnosComponentConfig` and `OnosConfig`, which the program does not use
pub record OnosComponentConfig : Type 0 where
  pub monitor_hosts : Bool
  pub probe_rate : Text
  pub real_port_id : Bool

pub record OnosConfig : Type 0 where
  pub component_config : Dict Text OnosComponentConfig
  pub net_config : OnosNetConfig
