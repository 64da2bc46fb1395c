-- ===== src/Switch/Safe.antt =====
-- `handleSwitch` (pkg/synchronizer/synchronize-device.go) on a switch with no nil pointer where it reads
-- through one: it does not panic.
use fabric_adapter.Base.{
  ℕ, ◌≡◌, refl, Option, none, some, List, [], ◌∷◌, Text, lookup, text_eq, nat_eq, Error, All,
  IsSafe, Ends, pure-IsSafe, raise-IsSafe, bind-IsSafe, deref_then-IsSafe, modify-IsSafe,
  wrapped-IsSafe, zoom-IsSafe, for_logged-IsSafe, Option-cases, inl, inr, Outcome, ret, fail, panic,
}
use fabric_adapter.Fabric.{PairingPort, Port, PortVlans, Switch, SwitchModel, SwitchPair}
use fabric_adapter.Fabric.Formed.{IsPresent, IsFormedPort, IsFormedPair, IsFormedSwitch}
use fabric_adapter.Netcfg.{OnosDevice, OnosInterface}
use fabric_adapter.Lookup.{found, lookup_switch_model_port, lookup_switch_vlan}
use fabric_adapter.Net.{parse_ip}
use fabric_adapter.Util.{
  address_to_mac, management_address_to_ip, cage_channel_to_port, switch_cage_channel_to_device_id,
}
use fabric_adapter.Util.Addresses.{address_to_mac-ne-panic}
use fabric_adapter.Switch.{
  add_untagged, add_tagged, add_vlans, handle_switch_port, required, paired, with_pairing,
  build_device, handle_switch, new_interface, put_device, device_key,
}
use fabric_adapter.World.{Services, World, FabricScope}

module _ {ℓ} {W : Type ℓ} where
  pub required-IsSafe {κ} : {A : Type κ} (e : Error) (o : Option A) → IsSafe {W = W} (required e o)
  required-IsSafe e none = raise-IsSafe e
  required-IsSafe e (some a) = pure-IsSafe a

  pub found-IsSafe {κ} : {A : Type κ} (e : Error) (o : Option A) → IsSafe {W = W} (found e o)
  found-IsSafe e none = raise-IsSafe e
  found-IsSafe e (some a) = pure-IsSafe a

  pub model_port-IsSafe :
      (model : SwitchModel) (cage : Option ℕ)
      → IsPresent cage
      → IsSafe {W = W} (lookup_switch_model_port model cage)
  unfolding lookup_switch_model_port
  model_port-IsSafe model cage (c, e) =
      deref_then-IsSafe cage c _ e (found-IsSafe _ (lookup c model.port))

  vlan-IsSafe : (sw : Switch) (id : ℕ) → IsSafe {W = W} (lookup_switch_vlan sw (some id))
  unfolding lookup_switch_vlan
  vlan-IsSafe sw id = found-IsSafe _ (lookup id sw.vlan)

  add_untagged-IsSafe :
      (sw : Switch) (o : Option ℕ) (i : OnosInterface) → IsSafe {W = W} (add_untagged sw o i)
  unfolding add_untagged
  add_untagged-IsSafe sw none i = pure-IsSafe i
  add_untagged-IsSafe sw (some id) i = bind-IsSafe _ _ (vlan-IsSafe sw id) (λ v. pure-IsSafe _)

  add_tagged-IsSafe :
      (sw : Switch) (ids : List ℕ) (i : OnosInterface) → IsSafe {W = W} (add_tagged sw ids i)
  unfolding add_tagged
  add_tagged-IsSafe sw [] i = pure-IsSafe i
  add_tagged-IsSafe sw (id ∷ ids) i =
      bind-IsSafe _ _ (vlan-IsSafe sw id) (λ v. add_tagged-IsSafe sw ids _)

  add_vlans-IsSafe :
      (sw : Switch) (o : Option PortVlans) (i : OnosInterface) → IsSafe {W = W} (add_vlans sw o i)
  unfolding add_vlans
  add_vlans-IsSafe sw none i = pure-IsSafe i
  add_vlans-IsSafe sw (some vs) i =
      bind-IsSafe _ _ (add_untagged-IsSafe sw vs.untagged i)
        (λ i'. add_tagged-IsSafe sw vs.tagged i')

  cage_channel_to_port-IsSafe :
      (cage channel : Option ℕ)
      → IsPresent channel
      → IsSafe {W = W} (cage_channel_to_port cage channel)
  unfolding cage_channel_to_port
  cage_channel_to_port-IsSafe none channel (c, e) = deref_then-IsSafe channel c _ e (pure-IsSafe _)
  cage_channel_to_port-IsSafe (some k) channel (c, e) =
      deref_then-IsSafe channel c _ e (pure-IsSafe _)

  paired-IsSafe :
      (id : Text) (other : Option Text) (ports : List PairingPort) (d : OnosDevice)
      → All (λ (p : PairingPort). IsPresent p.channel_number) ports
      → IsSafe {W = W} (paired id other ports d)
  unfolding paired
  paired-IsSafe id (some other) (p ∷ []) d h =
      bind-IsSafe _ _ (cage_channel_to_port-IsSafe p.cage_number p.channel_number h.0)
        (λ n. pure-IsSafe _)
  paired-IsSafe id (some other) [] d h = pure-IsSafe d
  paired-IsSafe id (some other) (p ∷ q ∷ ps) d h = pure-IsSafe d
  paired-IsSafe id none [] d h = pure-IsSafe d
  paired-IsSafe id none (p ∷ []) d h = pure-IsSafe d
  paired-IsSafe id none (p ∷ q ∷ ps) d h = pure-IsSafe d

  with_pairing-IsSafe :
      (id : Text) (pair : Option SwitchPair) (d : OnosDevice)
      → IsFormedPair pair
      → IsSafe {W = W} (with_pairing id pair d)
  unfolding with_pairing
  with_pairing-IsSafe id none d h = pure-IsSafe d
  with_pairing-IsSafe id (some pair) d h = paired-IsSafe id pair.paired_switch pair.pairing_port d h

address_to_mac-IsSafe : (address : Text) → IsSafe (address_to_mac address)
address_to_mac-IsSafe address = record {
  ends = λ n. of_outcome _ (address_to_mac-ne-panic address n);
}
  where
    of_outcome : (o : Outcome ℕ Text) → ¬ (o ≡ panic) → Ends o
    of_outcome (ret a w) h = tt
    of_outcome (fail e w) h = tt
    of_outcome panic h = h refl

management_address_to_ip-IsSafe : (address : Text) → IsSafe (management_address_to_ip address)
unfolding management_address_to_ip
management_address_to_ip-IsSafe address = record {
  ends = λ n. elim (Option-cases (parse_ip address)) [
    | inl e ↦ rw (e, management_address_to_ip) tt
    | inr (ip, e) ↦ rw (e, management_address_to_ip) tt
  ];
}

module _ (Sids : Type 0) where
  port-IsSafe :
      (sw : Switch) (model : SwitchModel) (p : Port)
      → IsPresent sw.switch_id
      → IsFormedPort p
      → IsSafe {W = World Sids} (handle_switch_port sw model p)
  unfolding handle_switch_port switch_cage_channel_to_device_id
  port-IsSafe sw model p (id, e) f =
      bind-IsSafe _ _ (model_port-IsSafe model p.cage_number f.cage) (λ m.
        bind-IsSafe _ _
          (bind-IsSafe _ _ (cage_channel_to_port-IsSafe p.cage_number p.channel_number f.channel)
            (λ n. deref_then-IsSafe sw.switch_id id _ e (pure-IsSafe _)))
          (λ key. deref_then-IsSafe p.display_name f.named.0 _ f.named.1 (
            bind-IsSafe _ _ (add_vlans-IsSafe sw p.vlans (new_interface f.named.0))
              (λ i. modify-IsSafe _))))

  ports-IsSafe :
      (sw : Switch) (model : SwitchModel) (ps : List Port)
      → IsPresent sw.switch_id
      → All IsFormedPort ps
      → All (λ p. IsSafe {W = World Sids} (handle_switch_port sw model p)) ps
  ports-IsSafe sw model [] e h = tt
  ports-IsSafe sw model (p ∷ ps) e h =
      (port-IsSafe sw model p e h.0, ports-IsSafe sw model ps e h.1)

module _ (S : Services) (sids : (id : Text) → IsSafe (S.sid_get id)) (scope : FabricScope)
    (sw : Switch) (f : IsFormedSwitch sw) where
  build_device-IsSafe : (id : Text) → IsSafe (build_device S scope sw id)
  unfolding build_device
  build_device-IsSafe id = bind-IsSafe _ _ (required-IsSafe _ _) (λ m.
      deref_then-IsSafe sw.display_name f.name _ f.named (
        bind-IsSafe _ _ (required-IsSafe _ _) (λ driver.
          bind-IsSafe _ _ (wrapped-IsSafe _ _ (zoom-IsSafe _ _ _ (sids id))) (λ sid.
            bind-IsSafe _ _ (wrapped-IsSafe _ _ (zoom-IsSafe _ _ _ (address_to_mac-IsSafe m.0)))
              (λ first. bind-IsSafe _ _ (required-IsSafe _ _) (λ pipe.
                bind-IsSafe _ _ (zoom-IsSafe _ _ _ (management_address_to_ip-IsSafe m.0)) (λ loop.
                  bind-IsSafe _ _
                    (wrapped-IsSafe _ _ (zoom-IsSafe _ _ _ (address_to_mac-IsSafe loop)))
                    (λ mac. pure-IsSafe _))))))))

  pub handle_switch-IsSafe : (model : SwitchModel) → IsSafe (handle_switch S scope sw model)
  unfolding handle_switch
  handle_switch-IsSafe model = deref_then-IsSafe sw.switch_id f.id _ f.identified (
      bind-IsSafe _ _ (build_device-IsSafe f.id) (λ device. bind-IsSafe _ _ (modify-IsSafe _) (λ u.
        bind-IsSafe _ _
          (for_logged-IsSafe sw.port _
            (ports-IsSafe S.Sids sw model sw.port (f.id, f.identified) f.ports))
          (λ v.
            bind-IsSafe _ _ (with_pairing-IsSafe f.id sw.switch_pair device f.pairing)
              (λ device'. modify-IsSafe (put_device (device_key f.id) device'))))))
