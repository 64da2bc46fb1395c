-- ===== src/Examples/Addresses.antt =====
-- Addresses and port names of pkg/synchronizer/util.go, at concrete inputs.
use fabric_adapter.Base.{
  ℕ, ◌+◌, ◌≡◌, refl, none, codes, arith, ret, fail, ltb, if◌then◌else◌, not_an_ip,
}
use fabric_adapter.Net.{parse_ip, ip_form}
use fabric_adapter.Net.Dotted.{dotted}
use fabric_adapter.Util.{u32, address_to_mac, mac_text}
use fabric_adapter.Util.Addresses.{address_to_mac-dotted, address_to_mac-made_up_ip}
use fabric_adapter.Util.Ports.{device_port-injective}

address_to_mac-dotted_example : address_to_mac (dotted 10 0 0 1) 7 ≡ ret (mac_text 10 0 0 1) 7
address_to_mac-dotted_example =
    address_to_mac-dotted 10 0 0 1 7 (omega arith) (omega arith) (omega arith) (omega arith)

no_ip : parse_ip (codes "leaf1") ≡ none
unfolding parse_ip ip_form
no_ip = refl

address_to_mac-made_up_ip_example : address_to_mac (codes "leaf1") 256 ≡ (
    if ltb 255 256
    then fail (not_an_ip (codes "leaf1")) (u32 (256 + 1))
    else ret (mac_text 192 168 55 256) (u32 (256 + 1)))
address_to_mac-made_up_ip_example = address_to_mac-made_up_ip (codes "leaf1") 256 no_ip

device_port-injective_example : (codes "leaf/1" ≡ codes "leaf/1") × (◌≡◌ {A = ℕ} 203 203)
device_port-injective_example =
    device_port-injective (codes "leaf/1") (codes "leaf/1") 203 203 (omega arith) (omega arith) refl
