-- ===== src/Switch/Complete.antt =====
-- A switch whose configuration is complete (`handleSwitch` of
-- pkg/synchronizer/synchronize-device.go).
use fabric_adapter.Base.{ℕ, ◌≡◌, some, List, Text, codes, ret}
use fabric_adapter.Fabric.{Switch}
use fabric_adapter.Net.{parse_ip}
use fabric_adapter.Switch.{management_of, attribute_value}
use fabric_adapter.World.{Services, World, FabricScope}

module _ (S : Services) (scope : FabricScope) (sw : Switch) where
  -- What `handleSwitch` needs of a switch, when the management address is an IP.
  pub record IsComplete (id : Text) (w : World S.Sids) : Type 0 where
    pub address : Text
    pub port_number : ℕ
    pub managed : management_of sw.management ≡ some (address, port_number)
    pub ip : List ℕ
    pub is_ip : parse_ip address ≡ some ip
    pub name : Text
    pub named : sw.display_name ≡ some name
    pub driver : Text
    pub driven : attribute_value (codes "driver") sw.attribute ≡ some driver
    pub pipe_conf : Text
    pub piped : attribute_value (codes "pipeconf") sw.attribute ≡ some pipe_conf
    pub sid : ℕ
    pub sids : S.Sids
    pub assigned : S.sid_get id w.sids ≡ ret sid sids
