-- ===== src/Fabric.antt =====
-- The configuration of a fabric, by the names of pkg/synchronizer/typedef.go. The types stand in
-- the generated config-models package; a record here has the fields that the adapter reads. A
-- pointer is an `Option`, a map whose keys are not read is the list of its values, in the order of
-- one iteration.
pub mod Formed
use fabric_adapter.Base.{ℕ, Option, List, Text, Dict}

-- `OnfSdnFabricTypes_Speed`; `unset` is its zero value
pub data Speed : Type 0 where
  unset speed_100g speed_10g speed_1g speed_2_5g speed_25g speed_400g speed_40g speed_5g : Speed
  speed_autoneg : Speed

-- `OnfSwitch_Switch_Role`
pub data Role : Type 0 where
  role_unset role_undefined role_leaf role_spine : Role

pub record PortVlans : Type 0 where
  pub untagged : Option ℕ
  pub tagged : List ℕ

pub record Port : Type 0 where
  pub cage_number : Option ℕ  -- uint8
  pub channel_number : Option ℕ  -- uint8
  pub display_name : Option Text
  pub speed : Speed
  pub vlans : Option PortVlans

pub record Route : Type 0 where
  pub route_id : Option Text
  pub prefix : Option Text
  pub address : Option Text

pub record SwitchVlan : Type 0 where
  pub subnet : List Text

pub record Attribute : Type 0 where
  pub value : Option Text

pub record Management : Type 0 where
  pub address : Option Text
  pub port_number : Option ℕ  -- uint16

pub record PairingPort : Type 0 where
  pub cage_number : Option ℕ
  pub channel_number : Option ℕ

pub record SwitchPair : Type 0 where
  pub paired_switch : Option Text
  pub pairing_port : List PairingPort

pub record Switch : Type 0 where
  pub switch_id : Option Text
  pub display_name : Option Text
  pub model_id : Option Text
  pub management : Option Management
  pub attribute : Dict Text Attribute
  pub role : Role
  pub port : List Port
  pub vlan : Dict ℕ SwitchVlan
  pub switch_pair : Option SwitchPair

pub record SwitchModelPort : Type 0 where
  pub cage_number : Option ℕ

pub record SwitchModel : Type 0 where
  pub attribute : Dict Text Attribute
  pub port : Dict ℕ SwitchModelPort

pub record RootDevice : Type 0 where
  pub switch : Dict Text Switch
  pub switch_model : Dict Text SwitchModel
  pub route : List Route
