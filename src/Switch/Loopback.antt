-- ===== src/Switch/Loopback.antt =====
-- The loopback address and the router MAC of a switch, as `handleSwitch`
-- (pkg/synchronizer/synchronize-device.go) gets them from pkg/synchronizer/util.go in three calls.
use fabric_adapter.Base.{
  ℕ, ◌+◌, ◌<◌, ◌≤◌, ◌≡◌, none, some, List, Text, ret, fail, arith, inl, inr, Option-cases,
  Bool-cases, ltb, not_an_ip,
}
use fabric_adapter.Net.{parse_ip}
use fabric_adapter.Util.{
  u32, made_up_ip, management_address_to_ip, mac_text, ip_to_mac, address_to_mac,
}
use fabric_adapter.Util.Addresses.{
  made_up_ip-dotted, parse_ip-made_up_ip, address_to_mac-dotted, address_to_mac-made_up_ip,
  address_to_mac-parsed,
}

-- Where the loopback and the MAC of a management address come from, when `nextIP` goes from `n` to `n'`.
pub data IsAddressed (address : Text) (n : ℕ) (loopback mac : Text) (n' : ℕ) : Type 0 where
  given :
      (ip : List ℕ)
      → parse_ip address ≡ some ip
      → ip_to_mac ip ≡ some mac
      → loopback ≡ address
      → n' ≡ n
      → IsAddressed address n loopback mac n'
  made_up :
      parse_ip address ≡ none
      → n < 255
      → loopback ≡ made_up_ip (n + 1)
      → mac ≡ mac_text 192 168 55 (n + 1)
      → n' ≡ n + 2
      → IsAddressed address n loopback mac n'

pub management_address_to_ip-parsed :
    (address : Text) (n : ℕ) {ip : List ℕ}
    → parse_ip address ≡ some ip
    → management_address_to_ip address n ≡ ret address n
unfolding management_address_to_ip
management_address_to_ip-parsed address n e = ground (arith, e)

management_address_to_ip-made_up :
    (address : Text) (n : ℕ)
    → parse_ip address ≡ none
    → management_address_to_ip address n ≡ ret (made_up_ip n) (u32 (n + 1))
unfolding management_address_to_ip
management_address_to_ip-made_up address n e = ground (arith, e)

made_up_mac : (n k : ℕ) → n ≤ 255 → address_to_mac (made_up_ip n) k ≡ ret (mac_text 192 168 55 n) k
made_up_mac n k h =
    rw (made_up_ip-dotted n)
      (address_to_mac-dotted 192 168 55 n k (omega arith) (omega arith) (omega arith) h)

-- past 255 the made-up address is no address either
no_made_up_mac :
    (n k : ℕ)
    → 255 < n
    → 255 < k
    → address_to_mac (made_up_ip n) k ≡ fail (not_an_ip (made_up_ip n)) (u32 (k + 1))
no_made_up_mac n k h g =
    ground
      (arith, address_to_mac-made_up_ip (made_up_ip n) k (ground (arith, parse_ip-made_up_ip n)))

made_up_calls :
    (address loopback mac : Text) (n n₂ n₃ : ℕ)
    → parse_ip address ≡ none
    → n < 256
    → management_address_to_ip address (n + 1) ≡ ret loopback n₂
    → address_to_mac loopback n₂ ≡ ret mac n₃
    → IsAddressed address n loopback mac n₃
made_up_calls address loopback mac n n₂ n₃ p h f g =
    let (same_text, same_next) : (loopback ≡ made_up_ip (n + 1)) × (n₂ ≡ n + 2) =
      ground (arith, f, management_address_to_ip-made_up address (n + 1) p) in
    let g' : address_to_mac (made_up_ip (n + 1)) (n + 2) ≡ ret mac n₃ =
      cc (g, same_text, same_next) in
    elim (Bool-cases (ltb n 255)) [
      | inl low ↦
          let made = made_up_mac (n + 1) (n + 2) (ground (arith, low)) in
          made_up p (ground (arith, low)) same_text (ground (arith, g', made))
            (ground (arith, g', made))
      | inr high ↦ absurd (
          ground (
            arith,
            g',
            no_made_up_mac (n + 1) (n + 2) (ground (arith, high)) (ground (arith, high)),
          ))
    ]

-- The three calls of `handleSwitch`, if none of them fails.
pub three_calls :
    (address loopback mac₁ mac : Text) (n n₁ n₂ n₃ : ℕ)
    → address_to_mac address n ≡ ret mac₁ n₁
    → management_address_to_ip address n₁ ≡ ret loopback n₂
    → address_to_mac loopback n₂ ≡ ret mac n₃
    → IsAddressed address n loopback mac n₃
three_calls address loopback mac₁ mac n n₁ n₂ n₃ e f g = elim (Option-cases (parse_ip address)) [
  | inr (ip, p) ↦
      let (mac', same, first) = address_to_mac-parsed address n p in
      given ip p (ground (arith, e, f, g, first, same, management_address_to_ip-parsed address n p))
        (ground (arith, e, f, g, first, same, management_address_to_ip-parsed address n p))
        (ground (arith, e, f, g, first, same, management_address_to_ip-parsed address n p))
  | inl p ↦
      let (low, next) : (n < 256) × (n₁ ≡ n + 1) =
        ground (arith, e, address_to_mac-made_up_ip address n p) in
      made_up_calls address loopback mac n n₂ n₃ p low (cc (f, next)) g
]
