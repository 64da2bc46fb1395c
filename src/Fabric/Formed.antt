-- ===== src/Fabric/Formed.antt =====
-- Configurations (pkg/synchronizer/typedef.go) with no nil pointer where
-- pkg/synchronizer/synchronize-device.go reads through one without a test.
use fabric_adapter.Base.{◌≡◌, Option, none, some, ℕ, Text, All, codes, lookup, text_eq}
use fabric_adapter.Fabric.{
  Attribute, Management, PairingPort, Port, Route, Switch, SwitchModel, SwitchPair, RootDevice,
}

abbrev pub IsPresent {ℓ} : {A : Type ℓ} → Option A → Type ℓ
IsPresent {A} o = (a : A) × (o ≡ some a)

-- an attribute that is missing or has a value
abbrev pub HasValue : Option Attribute → Type 0
HasValue none = Unit {0}
HasValue (some a) = IsPresent a.value

pub record IsFormedPort (p : Port) : Type 0 where
  pub cage : IsPresent p.cage_number
  pub channel : IsPresent p.channel_number
  pub named : IsPresent p.display_name

abbrev pub IsFormedPair : Option SwitchPair → Type 0
IsFormedPair none = Unit {0}
IsFormedPair (some pair) = All (λ (p : PairingPort). IsPresent p.channel_number) pair.pairing_port

pub record IsFormedSwitch (sw : Switch) : Type 0 where
  pub id : Text
  pub identified : sw.switch_id ≡ some id
  pub name : Text
  pub named : sw.display_name ≡ some name
  pub management : Management
  pub managed : sw.management ≡ some management
  pub address : Text
  pub addressed : management.address ≡ some address
  pub port_number : ℕ
  pub numbered : management.port_number ≡ some port_number
  pub ports : All IsFormedPort sw.port
  pub pairing : IsFormedPair sw.switch_pair
  pub transport : HasValue (lookup (codes "secure-transport") sw.attribute)

abbrev pub IsFormedModel : SwitchModel → Type 0
IsFormedModel m = HasValue (lookup (codes "autoneg-starting-bandwidth") m.attribute)

pub record IsFormed (fabric : RootDevice) : Type 0 where
  pub switches : (id : Text) (sw : Switch) → lookup id fabric.switch ≡ some sw → IsFormedSwitch sw
  pub models :
      (id : Text) (m : SwitchModel) → lookup id fabric.switch_model ≡ some m → IsFormedModel m
  pub routes : All (λ (r : Route). IsPresent r.route_id) fabric.route
