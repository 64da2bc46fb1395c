-- ===== src/Examples/Switches.antt =====
-- A switch and a port of it (pkg/synchronizer/synchronize-device.go), on the data of the data module.
use fabric_adapter.Base.{ℕ, ◌≡◌, refl, lookup, ret, decimal}
use fabric_adapter.Util.{switch_cage_channel_to_device_id, cage_channel_to_port}
use fabric_adapter.Lookup.{lookup_switch_model_port, lookup_switch_vlan}
use fabric_adapter.Switch.{add_vlans, add_untagged, add_tagged, handle_switch_port}
use fabric_adapter.Switch.Ports.{IsPortWritten, handle_switch_port-IsPortWritten}
use fabric_adapter.World.{World}
use fabric_adapter.Examples.Data.{leaf, leaf_port, model, world, left_by}

abbrev port_written : World ℕ
port_written = left_by world (handle_switch_port leaf model leaf_port world)

port_ok : handle_switch_port leaf model leaf_port world ≡ ret tt port_written
unfolding handle_switch_port lookup_switch_model_port lookup_switch_vlan
    switch_cage_channel_to_device_id cage_channel_to_port add_vlans add_untagged add_tagged lookup
    decimal
port_ok = refl

handle_switch_port-IsPortWritten_example : IsPortWritten leaf leaf_port world port_written
handle_switch_port-IsPortWritten_example =
    handle_switch_port-IsPortWritten leaf model leaf_port world port_written port_ok
