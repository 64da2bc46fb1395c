-- ===== src/Switch/Ports.antt =====
-- The port that `handleSwitchPort` (pkg/synchronizer/synchronize-device.go) writes into the network
-- configuration.
use mathlib.Core.List.{append_assoc, append-nil}
use fabric_adapter.Base.{
  ℕ, ◌+◌, ◌*◌, ◌≡◌, refl, ◌∙◌, ap, Option, none, some, List, [], ◌∷◌, ◌++◌, Text, text_eq, text_eqb,
  nat_eq, lookup, lookup-insert, Error, vlan_not_found, no_model_port, ret, deref, bind-elim,
  deref-ret, arith, if◌then◌else◌,
}
use fabric_adapter.Fabric.{Port, PortVlans, Switch, SwitchModel, SwitchVlan, SwitchModelPort}
use fabric_adapter.Netcfg.{OnosInterface}
use fabric_adapter.Lookup.{found, lookup_switch_model_port, lookup_switch_vlan}
use fabric_adapter.Util.{u16, cage_channel_to_port, switch_cage_channel_to_device_id, device_port}
use fabric_adapter.Switch.{
  add_untagged, add_tagged, add_vlans, new_interface, put_port, handle_switch_port,
}
use fabric_adapter.World.{World}

-- the subnets of a VLAN, none if there is no such VLAN
abbrev subnet_of : Option SwitchVlan → List Text
subnet_of none = []
subnet_of (some v) = v.subnet

abbrev subnets : Switch → List ℕ → List Text
subnets sw [] = []
subnets sw (id ∷ ids) = subnet_of (lookup id sw.vlan) ++ subnets sw ids

abbrev one_or_none : Option ℕ → List ℕ
one_or_none none = []
one_or_none (some id) = id ∷ []

abbrev or_zero : Option ℕ → ℕ
or_zero none = 0
or_zero (some id) = id

-- The interface of a port with the VLANs `untagged` and `tagged`.
abbrev interface_of : Switch → Text → Option ℕ → List ℕ → OnosInterface
interface_of sw name untagged tagged = record {
  ips = subnets sw (one_or_none untagged) ++ subnets sw tagged;
  vlan_tagged = tagged;
  vlan_untagged = or_zero untagged;
  name = name;
}

abbrev pub expected_interface : Switch → Text → Option PortVlans → OnosInterface
expected_interface sw name none = interface_of sw name none []
expected_interface sw name (some vlans) = interface_of sw name vlans.untagged vlans.tagged

abbrev with_tagged : Switch → List ℕ → OnosInterface → OnosInterface
with_tagged sw ids iface = record iface {
  vlan_tagged = iface.vlan_tagged ++ ids;
  ips = iface.ips ++ subnets sw ids;
}

with_tagged-nil : (sw : Switch) (iface : OnosInterface) → with_tagged sw [] iface ≡ iface
with_tagged-nil sw iface = cc (append-nil iface.vlan_tagged, append-nil iface.ips)

with_tagged-step :
    (sw : Switch) (id : ℕ) (ids : List ℕ) (iface : OnosInterface) (vlan : SwitchVlan)
    → subnet_of (lookup id sw.vlan) ≡ vlan.subnet
    → with_tagged sw ids (record iface {
      vlan_tagged = iface.vlan_tagged ++ id ∷ [];
      ips = iface.ips ++ vlan.subnet;
    })
      ≡ with_tagged sw (id ∷ ids) iface
with_tagged-step sw id ids iface vlan e = cc (
  append_assoc iface.vlan_tagged (id ∷ []) ids,
  append_assoc iface.ips vlan.subnet (subnets sw ids),
  e,
)

module _ {ℓ} {W : Type ℓ} where
  found-ret :
      (x : Error) (o : Option SwitchVlan) (w : W) {vlan : SwitchVlan} {v : W}
      → found x o w ≡ ret vlan v
      → (subnet_of o ≡ vlan.subnet) × (v ≡ w)
  found-ret x none w e = absurd (ground (arith, e))
  found-ret x (some s) w e = (ground (arith, e), ground (arith, e))

  vlan-ret :
      (sw : Switch) (id : ℕ) (w : W) {vlan : SwitchVlan} {v : W}
      → lookup_switch_vlan sw (some id) w ≡ ret vlan v
      → (subnet_of (lookup id sw.vlan) ≡ vlan.subnet) × (v ≡ w)
  unfolding lookup_switch_vlan
  vlan-ret sw id w e = found-ret (vlan_not_found id) (lookup id sw.vlan) w e

  add_tagged-ret :
      (sw : Switch) (ids : List ℕ) (iface : OnosInterface) (w : W) {i : OnosInterface} {v : W}
      → add_tagged sw ids iface w ≡ ret i v
      → (i ≡ with_tagged sw ids iface) × (v ≡ w)
  unfolding add_tagged
  add_tagged-ret sw [] iface w e = (ground (arith, with_tagged-nil sw iface, e), ground (arith, e))
  add_tagged-ret sw (id ∷ ids) iface w e =
      bind-elim (lookup_switch_vlan sw (some id)) _ e (λ vlan u p q.
        let (subnet, same) = vlan-ret sw id w p in
        let (made, kept) = add_tagged-ret sw ids _ u q in
        (made ∙ with_tagged-step sw id ids iface vlan subnet, kept ∙ same))

  add_untagged-ret :
      (sw : Switch) (id : Option ℕ) (name : Text) (w : W) {i : OnosInterface} {v : W}
      → add_untagged sw id (new_interface name) w ≡ ret i v
      → (i ≡ record (new_interface name) {
        vlan_untagged = or_zero id;
        ips = subnets sw (one_or_none id);
      })
        × (v ≡ w)
  unfolding add_untagged
  add_untagged-ret sw none name w e = (ground (arith, e), ground (arith, e))
  add_untagged-ret sw (some id) name w e =
      bind-elim (lookup_switch_vlan sw (some id)) _ e (λ vlan u p q.
        let (subnet, same) = vlan-ret sw id w p in
        (ground (arith, q, subnet, append-nil vlan.subnet), ground (arith, q, same)))

  add_vlans-ret :
      (sw : Switch) (vlans : Option PortVlans) (name : Text) (w : W) {i : OnosInterface} {v : W}
      → add_vlans sw vlans (new_interface name) w ≡ ret i v
      → (i ≡ expected_interface sw name vlans) × (v ≡ w)
  unfolding add_vlans
  add_vlans-ret sw none name w e = (ground (arith, e), ground (arith, e))
  add_vlans-ret sw (some vlans) name w e =
      bind-elim (add_untagged sw vlans.untagged (new_interface name)) _ e (λ iface u p q.
        let (first, same) = add_untagged-ret sw vlans.untagged name w p in
        let (made, kept) = add_tagged-ret sw vlans.tagged iface u q in
        (made ∙ ap (with_tagged sw vlans.tagged) first, kept ∙ same))

-- The port `p` is in the configuration under the key of its switch and number, with the interface that
-- its VLANs make; the ports at other keys are those of `w`.
pub record IsPortWritten {Sids : Type 0} (sw : Switch) (p : Port) (w w' : World Sids) : Type 0 where
  pub id : Text
  pub switch_named : sw.switch_id ≡ some id
  pub cage : ℕ
  pub in_cage : p.cage_number ≡ some cage
  pub channel : ℕ
  pub on_channel : p.channel_number ≡ some channel
  pub name : Text
  pub named : p.display_name ≡ some name
  pub ports :
      (k : Text)
      → lookup k w'.net_config.ports ≡ (
          if text_eqb (device_port id (u16 (u16 (channel * 100) + cage))) k
          then some (record { interfaces = expected_interface sw name p.vlans ∷ [] })
          else lookup k w.net_config.ports)
  pub devices : w'.net_config.devices ≡ w.net_config.devices

port_at :
    {Sids : Type 0} (k key : Text) (iface : OnosInterface) (u w w' : World Sids)
    → u ≡ w
    → put_port key (record { interfaces = iface ∷ [] }) u ≡ w'
    → lookup k w'.net_config.ports ≡ (
        if text_eqb key k
        then some (record { interfaces = iface ∷ [] })
        else lookup k w.net_config.ports)
port_at k key iface u w w' same e =
    ground
      (arith, same, e, lookup-insert key k (record { interfaces = iface ∷ [] }) u.net_config.ports)

found_port-ret {ℓ} :
    {W : Type ℓ} (o : Option SwitchModelPort) (w : W) {mp : SwitchModelPort} {u : W}
    → found no_model_port o w ≡ ret mp u
    → (o ≡ some mp) × (u ≡ w)
found_port-ret none w e = absurd (ground (arith, e))
found_port-ret (some m) w e = (ground (arith, e), ground (arith, e))

module _ {ℓ} {W : Type ℓ} where
  key-ret :
      (id : Option Text) (cage : ℕ) (channel : Option ℕ) (w : W) {key : Text} {u : W}
      → switch_cage_channel_to_device_id id (some cage) channel w ≡ ret key u
      → (u ≡ w)
        × ((i : Text) × (n : ℕ) × (id ≡ some i)
            × (channel ≡ some n)
            × (key ≡ device_port i (u16 (u16 (n * 100) + cage))))
  unfolding switch_cage_channel_to_device_id cage_channel_to_port
  key-ret none cage none w e = absurd (ground (arith, e))
  key-ret none cage (some n) w e = absurd (ground (arith, e))
  key-ret (some i) cage none w e = absurd (ground (arith, e))
  key-ret (some i) cage (some n) w e = (ground (arith, e), (i, n, refl, refl, ground (arith, e)))

  model_port-ret :
      (model : SwitchModel) (cage : Option ℕ) (w : W) {mp : SwitchModelPort} {u : W}
      → lookup_switch_model_port model cage w ≡ ret mp u
      → (n : ℕ) × (cage ≡ some n) × (lookup n model.port ≡ some mp) × (u ≡ w)
  unfolding lookup_switch_model_port
  model_port-ret model none w e = absurd (ground (arith, e))
  model_port-ret model (some n) w e =
      let (known, same) = found_port-ret (lookup n model.port) w e in (n, refl, known, same)

module _ {Sids : Type 0} (sw : Switch) (model : SwitchModel) (p : Port) where
  -- If handleSwitchPort returns without an error, the network configuration has under the
  -- switch's id and the port's number one interface with the port's name, its VLAN ids and the
  -- subnets of those VLANs, the untagged one first; other ports and all devices are those it had.
  pub handle_switch_port-IsPortWritten :
      (w w' : World Sids) → handle_switch_port sw model p w ≡ ret tt w' → IsPortWritten sw p w w'
  unfolding handle_switch_port
  handle_switch_port-IsPortWritten w w' e =
      bind-elim (lookup_switch_model_port model p.cage_number) _ e (λ mp u₁ p₁ e₁.
        let (cage, in_cage, known, v₁) = model_port-ret model p.cage_number w p₁ in
        bind-elim (switch_cage_channel_to_device_id sw.switch_id p.cage_number p.channel_number) _
          e₁
          (λ key u₂ p₂ e₂.
            let here : switch_cage_channel_to_device_id sw.switch_id (some cage) p.channel_number u₁
                ≡ ret key u₂ =
              cc (p₂, in_cage) in
            let (v₂, (id, channel, named, on_channel, keyed)) =
              key-ret sw.switch_id cage p.channel_number u₁ here in
            bind-elim (deref p.display_name) _ e₂ (λ name u₃ p₃ e₃.
              let (labelled, v₃) = deref-ret p.display_name p₃ in
              bind-elim (add_vlans sw p.vlans (new_interface name)) _ e₃ (λ iface u₄ p₄ e₄.
                let (made, v₄) = add_vlans-ret sw p.vlans name u₃ p₄ in
                record {
                  id = id;
                  switch_named = named;
                  cage = cage;
                  in_cage = in_cage;
                  channel = channel;
                  on_channel = on_channel;
                  name = name;
                  named = labelled;
                  ports = λ k.
                      port_at k key iface u₄ w w' (cc (v₁, v₂, v₃, v₄)) (ground (arith, e₄))
                      ∙ cc (keyed, made);
                  devices = ground (arith, v₁, v₂, v₃, v₄, e₄);
                }))))
