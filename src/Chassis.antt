-- ===== src/Chassis.antt =====
-- The Stratum chassis configuration, pkg/stratum_hal/common.pb.go: of the generated message types,
-- the fields that the adapter sets. The others keep their zero value and are left out.
pub mod Messages
use fabric_adapter.Base.{ℕ, Option, none, List, [], Text}

pub data TriState : Type 0 where
  tri_state_unknown tri_state_true tri_state_false : TriState

pub data AdminState : Type 0 where
  admin_state_unknown admin_state_enabled admin_state_disabled admin_state_diag : AdminState

-- The platforms that are not named here have no constructor.
pub data Platform : Type 0 where
  plt_unknown plt_generic_barefoot_tofino : Platform

pub record PortConfigParams : Type 0 where
  pub admin_state : AdminState
  pub autoneg : TriState

pub record SingletonPort : Type 0 where
  pub id : ℕ  -- uint32
  pub name : Text
  pub slot : ℕ  -- int32
  pub port : ℕ  -- int32
  pub channel : ℕ  -- int32
  pub speed_bps : ℕ  -- uint64
  pub node : ℕ  -- uint64
  pub config_params : PortConfigParams

pub record Node : Type 0 where
  pub id : ℕ
  pub slot : ℕ
  pub index : ℕ

pub record Chassis : Type 0 where
  pub platform : Platform
  pub name : Text

pub record ChassisConfig : Type 0 where
  pub description : Text
  pub chassis : Option Chassis
  pub nodes : List Node
  pub singleton_ports : List SingletonPort

-- `stratum_hal.ChassisConfig{}`
abbrev pub empty_chassis_config : ChassisConfig
empty_chassis_config = record { description = []; chassis = none; nodes = []; singleton_ports = [] }
