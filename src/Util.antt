-- ===== src/Util.antt =====
-- pkg/synchronizer/util.go. The state of a call is the global counter `nextIP`, a uint32.
pub mod Addresses
pub mod Ports
use fabric_adapter.Base.{
  ℕ, suc, ◌+◌, ◌-◌, ◌*◌, ◌%◌, ◌^◌, ◌≡◌, refl, Bool, true, false, Option, none, some, List, [], ◌∷◌,
  ◌++◌, Text, codes, decimal, hex_byte, length, nat_eqb, ◌==◌, text_eq, if◌then◌else◌, Error,
  not_an_ip, unknown_protocol, Result, ok, err, Go, ret, fail, panic, pure, raise, deref, modify,
  ◌>>=◌, ◌>>◌,
}
use fabric_adapter.Net.{parse_ip}

abbrev pub u16 : ℕ → ℕ
u16 n = n % 2 ^ 16

abbrev pub u32 : ℕ → ℕ
u32 n = n % 2 ^ 32

-- `BoolToUint32`
unfoldable pub bool_to_uint32 : Bool → ℕ
bool_to_uint32 b = if b then 1 else 0

-- `DerefStrPtr`, `DerefUint32Ptr`, `DerefUint16Ptr`, `DerefUint8Ptr`, `DerefInt8Ptr`
unfoldable pub deref_or {ℓ} : {A : Type ℓ} → Option A → A → A
deref_or none def = def
deref_or (some a) def = a

-- `aStr`, `aBool`, `aInt8`, `aUint8`, `aUint16`, `aUint32` and `aUint64`: a pointer to a value
unfoldable pub pointer_to {ℓ} : {A : Type ℓ} → A → Option A
pointer_to a = some a

-- `ProtoStringToProtoNumber`
unfoldable pub proto_string_to_proto_number : Text → Result ℕ
proto_string_to_proto_number s =
    if s == codes "TCP" then ok 6 else if s == codes "UDP" then ok 17 else err (unknown_protocol s)

-- `cageChannelToPort`; without a channel the read panics
unfoldable pub cage_channel_to_port {ℓ} : {W : Type ℓ} → Option ℕ → Option ℕ → Go W ℕ
cage_channel_to_port none channel = do ch ← deref channel; pure (u16 ch)
cage_channel_to_port (some cage) channel = do ch ← deref channel; pure (u16 (u16 (ch * 100) + cage))

-- `fmt.Sprintf("device:%s/%d", id, port)`
abbrev pub device_port : Text → ℕ → Text
device_port id port = codes "device:" ++ (id ++ (b'/' ∷ decimal port))

-- `switchCageChannelToDeviceId`, over `sw.SwitchId`
unfoldable pub switch_cage_channel_to_device_id {ℓ} :
    {W : Type ℓ} → Option Text → Option ℕ → Option ℕ → Go W Text
unfolding cage_channel_to_port
switch_cage_channel_to_device_id switch_id cage channel = do
  port ← cage_channel_to_port cage channel
  id ← deref switch_id
  pure (device_port id port)

-- `managementAddressToIP`: an address that is no IP gets the next number of 192.168.55.
unfoldable pub made_up_ip : ℕ → Text
made_up_ip n = codes "192.168.55." ++ decimal n

unfoldable pub management_address_to_ip : Text → Go ℕ Text
unfolding made_up_ip
management_address_to_ip address next_ip = elim (parse_ip address) [
  | some ip ↦ ret address next_ip
  | none ↦ ret (made_up_ip next_ip) (u32 (next_ip + 1))
]

-- `00:00:%02X:%02X:%02X:%02X` of the four bytes at the front; an index past the end panics.
abbrev pub mac_text : ℕ → ℕ → ℕ → ℕ → Text
mac_text a b c d =
    codes "00:00:"
    ++ (hex_byte a ++ b':' ∷ (hex_byte b ++ b':' ∷ (hex_byte c ++ b':' ∷ hex_byte d)))

abbrev four : List ℕ → Option Text
four (a ∷ b ∷ c ∷ d ∷ rest) = some (mac_text a b c d)
four _ = none

abbrev drop_12 : List ℕ → List ℕ
drop_12 (a ∷ b ∷ c ∷ d ∷ e ∷ f ∷ g ∷ h ∷ i ∷ j ∷ k ∷ l ∷ rest) = rest
drop_12 _ = []

-- the test on `len(ip)` in `addressToMac`
unfoldable pub ip_to_mac : List ℕ → Option Text
ip_to_mac ip = if nat_eqb (length ip) 16 then four (drop_12 ip) else four ip

-- `addressToMac`
unfoldable pub address_to_mac : Text → Go ℕ Text
unfolding management_address_to_ip ip_to_mac
address_to_mac address = do
  text ← management_address_to_ip address
  elim (parse_ip text) [ none ↦ raise (not_an_ip address) | some ip ↦ deref (ip_to_mac ip) ]

-- `getStratumEndpoint`
unfoldable pub get_stratum_endpoint : Text → ℕ → Text
get_stratum_endpoint addr port = addr ++ (b':' ∷ decimal port)

-- `getStratumEndpointForNetcfg`
unfoldable pub get_stratum_endpoint_for_netcfg : Text → ℕ → Text
get_stratum_endpoint_for_netcfg addr port =
    codes "grpc://" ++ (addr ++ (b':' ∷ (decimal port ++ codes "?device_id=1")))
