-- ===== src/Util/Addresses.antt =====
-- `addressToMac` and `managementAddressToIP` of pkg/synchronizer/util.go, address by address.
use fabric_adapter.Base.{
  ℕ, ◌+◌, ◌/◌, ◌%◌, ◌≤◌, ◌<◌, ◌≡◌, ◌≢◌, refl, none, some, List, [], ◌∷◌, ◌++◌, Text, length, ltb,
  if◌then◌else◌, decimal, hex_byte, hex_digit, arith, All, Option-cases, inl, inr, ◌∙◌, not_an_ip,
  ret, fail, panic,
}
use fabric_adapter.Net.{parse_ip, v4_prefix}
use fabric_adapter.Net.Dotted.{dotted, parse_ip-dotted}
use fabric_adapter.Net.Shape.{length-parse_ip}
use fabric_adapter.Util.{u32, four, drop_12, ip_to_mac, mac_text, made_up_ip, address_to_mac}

-- The made-up address is a dotted one.
pub made_up_ip-dotted : (n : ℕ) → made_up_ip n ≡ dotted 192 168 55 n
unfolding made_up_ip decimal
made_up_ip-dotted n = refl

pub parse_ip-made_up_ip :
    (n : ℕ)
    → parse_ip (made_up_ip n)
      ≡ (if ltb 255 n then none else some (v4_prefix ++ 192 ∷ 168 ∷ 55 ∷ n ∷ []))
parse_ip-made_up_ip n =
    rw (made_up_ip-dotted n)
      (parse_ip-dotted 192 168 55 n (omega arith) (omega arith) (omega arith))

dotted_ok :
    (a b c d : ℕ)
    → a ≤ 255
    → b ≤ 255
    → c ≤ 255
    → d ≤ 255
    → parse_ip (dotted a b c d) ≡ some (v4_prefix ++ a ∷ b ∷ c ∷ d ∷ [])
dotted_ok a b c d ha hb hc hd = parse_ip-dotted a b c d ha hb hc ∙ ground arith

-- A dotted address is kept as it is, and gives the MAC address of its four bytes.
pub address_to_mac-dotted :
    (a b c d n : ℕ)
    → a ≤ 255
    → b ≤ 255
    → c ≤ 255
    → d ≤ 255
    → address_to_mac (dotted a b c d) n ≡ ret (mac_text a b c d) n
unfolding address_to_mac
address_to_mac-dotted a b c d n ha hb hc hd = ground (arith, dotted_ok a b c d ha hb hc hd)

-- For an address that is no IP, addressToMac takes the next number of 192.168.55: it gives the
-- MAC of that address, and fails once the number is over 255; nextIP moves on in both cases.
pub address_to_mac-made_up_ip :
    (address : Text) (n : ℕ)
    → parse_ip address ≡ none
    → address_to_mac address n ≡ (
        if ltb 255 n
        then fail (not_an_ip address) (u32 (n + 1))
        else ret (mac_text 192 168 55 n) (u32 (n + 1)))
unfolding address_to_mac
address_to_mac-made_up_ip address n h = ground (arith, h, parse_ip-made_up_ip n)

length-drop_12 : (ip : List ℕ) → length ip ≡ 16 → length (drop_12 ip) ≡ 4
length-drop_12 (a ∷ b ∷ c ∷ d ∷ e ∷ f ∷ g ∷ h ∷ i ∷ j ∷ k ∷ l ∷ rest) q = omega arith
length-drop_12 _ q = absurd (omega arith)

four_ok : (p : List ℕ) → length p ≡ 4 → (mac : Text) × (four p ≡ some mac)
four_ok (a ∷ b ∷ c ∷ d ∷ rest) q = (mac_text a b c d, refl)
four_ok _ q = absurd (omega arith)

ip_to_mac_ok : (ip : List ℕ) → length ip ≡ 16 → (mac : Text) × (ip_to_mac ip ≡ some mac)
unfolding ip_to_mac
ip_to_mac_ok ip q = let (mac, e) = four_ok (drop_12 ip) (length-drop_12 ip q) in (mac, ground arith)

-- An address that parses is kept, and has a MAC address.
pub address_to_mac-parsed :
    (address : Text) (n : ℕ) {ip : List ℕ}
    → parse_ip address ≡ some ip
    → (mac : Text) × (ip_to_mac ip ≡ some mac) × (address_to_mac address n ≡ ret mac n)
unfolding address_to_mac
address_to_mac-parsed address n {ip} h =
    let (mac, e) = ip_to_mac_ok ip (length-parse_ip address h) in (mac, e, ground (arith, h, e))

-- addressToMac never panics: its index into the address is in range.
pub address_to_mac-ne-panic : (address : Text) (n : ℕ) → address_to_mac address n ≢ panic
address_to_mac-ne-panic address n = elim (Option-cases (parse_ip address)) [
  | inl e ↦ rw (address_to_mac-made_up_ip address n e) (ground arith)
  | inr (ip, e) ↦ rw (address_to_mac-parsed address n e).2 (λ q. cc)
]

-- Different IPv4 addresses have different MAC addresses.
hex_digit-injective : (a b : ℕ) → a < 16 → b < 16 → hex_digit a ≡ hex_digit b → a ≡ b
hex_digit-injective a b ha hb e = ground arith

hex_byte-injective : (a b : ℕ) → a ≤ 255 → b ≤ 255 → hex_byte a ≡ hex_byte b → a ≡ b
hex_byte-injective a b ha hb e = omega (
  arith,
  hex_digit-injective (a / 16) (b / 16) (omega arith) (omega arith) (ground arith),
  hex_digit-injective (a % 16) (b % 16) (omega arith) (omega arith) (ground arith),
)

-- Two MAC addresses made of four bytes each are equal only if the bytes are.
mac_text-injective :
    (a b c d a' b' c' d' : ℕ)
    → All (λ n. n ≤ 255) (a ∷ b ∷ c ∷ d ∷ a' ∷ b' ∷ c' ∷ d' ∷ [])
    → mac_text a b c d ≡ mac_text a' b' c' d'
    → (a ≡ a') × (b ≡ b') × (c ≡ c') × (d ≡ d')
mac_text-injective a b c d a' b' c' d' h e = (
  hex_byte-injective a a' (omega arith) (omega arith) (ground arith),
  hex_byte-injective b b' (omega arith) (omega arith) (ground arith),
  hex_byte-injective c c' (omega arith) (omega arith) (ground arith),
  hex_byte-injective d d' (omega arith) (omega arith) (ground arith),
)
