-- ===== src/Switch/Writes.antt =====
-- What `handleSwitch` (pkg/synchronizer/synchronize-device.go) does to the state besides its result.
use fabric_adapter.Base.{
  ℕ, Option, none, some, List, [], ◌∷◌, Text, text_eq, nat_eq, lookup, codes, Error, no_management,
  no_sid, no_mac, no_router_mac, no_driver, no_pipeconf, Go, Keeps, Keeps-deref, Keeps-wrapped,
  Keeps-zoom, Keeps-bind, Keeps-modify, keeps, Keeps-for_logged,
}
use fabric_adapter.Fabric.{PairingPort, Port, PortVlans, Switch, SwitchModel, SwitchPair}
use fabric_adapter.Netcfg.{OnosDevice, OnosInterface, OnosPort}
use fabric_adapter.Lookup.{found, lookup_switch_model_port, lookup_switch_vlan}
use fabric_adapter.Util.{
  address_to_mac, management_address_to_ip, cage_channel_to_port, switch_cage_channel_to_device_id,
}
use fabric_adapter.Switch.{
  add_untagged, add_tagged, add_vlans, new_interface, put_port, put_device, device_key,
  handle_switch_port, management_of, required, paired, attribute_value, with_pairing, build_device,
  handle_switch, on_sids, on_next_ip,
}
use fabric_adapter.World.{Services, World, FabricScope}

module _ {ℓ μ} {W : Type ℓ} (P : W → Type μ) where
  pub Keeps-found {κ} : {A : Type κ} (e : Error) (o : Option A) → Keeps P (found e o)
  Keeps-found e none = keeps (λ w h. h)
  Keeps-found e (some a) = keeps (λ w h. h)

  pub Keeps-required {κ} : {A : Type κ} (e : Error) (o : Option A) → Keeps P (required e o)
  Keeps-required e none = keeps (λ w h. h)
  Keeps-required e (some a) = keeps (λ w h. h)

  pub Keeps-lookup_switch_model_port :
      (model : SwitchModel) (cage : Option ℕ) → Keeps P (lookup_switch_model_port model cage)
  unfolding lookup_switch_model_port
  Keeps-lookup_switch_model_port model none = keeps (λ w h. tt)
  Keeps-lookup_switch_model_port model (some n) = Keeps-found _ (lookup n model.port)

  Keeps-lookup_switch_vlan : (sw : Switch) (id : Option ℕ) → Keeps P (lookup_switch_vlan sw id)
  unfolding lookup_switch_vlan
  Keeps-lookup_switch_vlan sw none = keeps (λ w h. h)
  Keeps-lookup_switch_vlan sw (some id) = Keeps-found _ (lookup id sw.vlan)

  Keeps-add_tagged :
      (sw : Switch) (ids : List ℕ) (iface : OnosInterface) → Keeps P (add_tagged sw ids iface)
  unfolding add_tagged
  Keeps-add_tagged sw [] iface = keeps (λ w h. h)
  Keeps-add_tagged sw (id ∷ ids) iface =
      Keeps-bind P _ _ (Keeps-lookup_switch_vlan sw (some id)) (λ vlan. Keeps-add_tagged sw ids _)

  Keeps-add_untagged :
      (sw : Switch) (id : Option ℕ) (iface : OnosInterface) → Keeps P (add_untagged sw id iface)
  unfolding add_untagged
  Keeps-add_untagged sw none iface = keeps (λ w h. h)
  Keeps-add_untagged sw (some id) iface =
      Keeps-bind P _ _ (Keeps-lookup_switch_vlan sw (some id)) (λ vlan. keeps (λ w h. h))

  Keeps-add_vlans :
      (sw : Switch) (vlans : Option PortVlans) (iface : OnosInterface)
      → Keeps P (add_vlans sw vlans iface)
  unfolding add_vlans
  Keeps-add_vlans sw none iface = keeps (λ w h. h)
  Keeps-add_vlans sw (some vlans) iface =
      Keeps-bind P _ _ (Keeps-add_untagged sw vlans.untagged iface)
        (Keeps-add_tagged sw vlans.tagged)

  Keeps-cage_channel_to_port :
      (cage channel : Option ℕ) → Keeps P (cage_channel_to_port cage channel)
  unfolding cage_channel_to_port
  Keeps-cage_channel_to_port none none = keeps (λ w h. tt)
  Keeps-cage_channel_to_port none (some n) = keeps (λ w h. h)
  Keeps-cage_channel_to_port (some c) none = keeps (λ w h. tt)
  Keeps-cage_channel_to_port (some c) (some n) = keeps (λ w h. h)

  Keeps-switch_cage_channel_to_device_id :
      (id : Option Text) (cage channel : Option ℕ)
      → Keeps P (switch_cage_channel_to_device_id id cage channel)
  unfolding switch_cage_channel_to_device_id
  Keeps-switch_cage_channel_to_device_id id cage channel =
      Keeps-bind P _ _ (Keeps-cage_channel_to_port cage channel)
        (λ port. Keeps-bind P _ _ (Keeps-deref P id) (λ name. keeps (λ w h. h)))

  Keeps-paired :
      (id : Text) (other : Option Text) (ports : List PairingPort) (d : OnosDevice)
      → Keeps P (paired id other ports d)
  unfolding paired
  Keeps-paired id none ports d = keeps (λ w h. h)
  Keeps-paired id (some o) [] d = keeps (λ w h. h)
  Keeps-paired id (some o) (p ∷ []) d =
      Keeps-bind P _ _ (Keeps-cage_channel_to_port p.cage_number p.channel_number)
        (λ port. keeps (λ w h. h))
  Keeps-paired id (some o) (p ∷ q ∷ ports) d = keeps (λ w h. h)

  pub Keeps-with_pairing :
      (id : Text) (pair : Option SwitchPair) (d : OnosDevice) → Keeps P (with_pairing id pair d)
  unfolding with_pairing
  Keeps-with_pairing id none d = keeps (λ w h. h)
  Keeps-with_pairing id (some pair) d = Keeps-paired id pair.paired_switch pair.pairing_port d

-- The writes of `handleSwitch` keep the predicate.
pub record IsClosed {Sids : Type 0} (P : World Sids → Type 0) : Type 0 where
  pub port_written : (key : Text) (p : OnosPort) (w : World Sids) → P w → P (put_port key p w)
  pub device_written : (key : Text) (d : OnosDevice) (w : World Sids) → P w → P (put_device key d w)
  pub sids_written : (s : Sids) (w : World Sids) → P w → P (record w { sids = s })
  pub next_ip_written : (n : ℕ) (w : World Sids) → P w → P (record w { next_ip = n })

pub Keeps-handle_switch_port :
    {Sids : Type 0} {P : World Sids → Type 0}
    → ((key : Text) (p : OnosPort) (w : World Sids) → P w → P (put_port key p w))
    → (sw : Switch) (model : SwitchModel) (p : Port) → Keeps P (handle_switch_port sw model p)
unfolding handle_switch_port
Keeps-handle_switch_port {P = P} port_kept sw model p =
    Keeps-bind P _ _ (Keeps-lookup_switch_model_port P model p.cage_number) (λ _.
      Keeps-bind P _ _
        (Keeps-switch_cage_channel_to_device_id P sw.switch_id p.cage_number p.channel_number)
        (λ id. Keeps-bind P _ _ (Keeps-deref P p.display_name) (λ name.
          Keeps-bind P _ _ (Keeps-add_vlans P sw p.vlans (new_interface name))
            (λ iface. keeps (port_kept id _)))))

module _ (S : Services) (P : World S.Sids → Type 0)
    (sids_kept : (id : Text) → Keeps P (on_sids S (S.sid_get id)))
    (next_ip_kept : (n : ℕ) (w : World S.Sids) → P w → P (record w { next_ip = n })) where
  Keeps-on_next_ip {κ} : {A : Type κ} (m : Go ℕ A) → Keeps P (on_next_ip S m)
  Keeps-on_next_ip m = Keeps-zoom P _ _ m next_ip_kept

  pub Keeps-build_device :
      (scope : FabricScope) (sw : Switch) (id : Text) → Keeps P (build_device S scope sw id)
  unfolding build_device
  Keeps-build_device scope sw id =
      Keeps-bind P _ _
        (Keeps-required P (no_management scope.fabric_id id) (management_of sw.management))
        (λ (address, port). Keeps-bind P _ _ (Keeps-deref P sw.display_name) (λ name.
          Keeps-bind P _ _
            (Keeps-required P no_driver (attribute_value (codes "driver") sw.attribute))
            (λ driver.
              Keeps-bind P _ _ (Keeps-wrapped P (no_sid scope.fabric_id id) _ (sids_kept id))
                (λ sid.
                  Keeps-bind P _ _
                    (Keeps-wrapped P (no_mac scope.fabric_id id) _
                      (Keeps-on_next_ip (address_to_mac address)))
                    (λ first_mac.
                      Keeps-bind P _ _
                        (Keeps-required P no_pipeconf
                          (attribute_value (codes "pipeconf") sw.attribute))
                        (λ pipe_conf.
                          Keeps-bind P _ _ (Keeps-on_next_ip (management_address_to_ip address))
                            (λ loopback.
                              Keeps-bind P _ _
                                (Keeps-wrapped P (no_router_mac scope.fabric_id id) _
                                  (Keeps-on_next_ip (address_to_mac loopback)))
                                (λ mac. keeps (λ w h. h)))))))))

module _ (S : Services) (P : World S.Sids → Type 0) (c : IsClosed P) where
  -- `handleSwitch` writes ports, devices, SIDs and `nextIP`, and nothing else.
  pub Keeps-handle_switch :
      (scope : FabricScope) (sw : Switch) (model : SwitchModel)
      → Keeps P (handle_switch S scope sw model)
  unfolding handle_switch
  Keeps-handle_switch scope sw model = Keeps-bind P _ _ (Keeps-deref P sw.switch_id) (λ id.
      Keeps-bind P _ _
        (Keeps-build_device S P (λ id'. Keeps-zoom P _ _ (S.sid_get id') c.sids_written)
          c.next_ip_written scope sw id)
        (λ d.
          Keeps-bind P _ _
            (Keeps-modify P (put_device (device_key id) d) (c.device_written (device_key id) d))
            (λ _.
              Keeps-bind P _ _
                (Keeps-for_logged P sw.port _ (Keeps-handle_switch_port c.port_written sw model))
                (λ _. Keeps-bind P _ _ (Keeps-with_pairing P id sw.switch_pair d) (λ d'.
                  Keeps-modify P (put_device (device_key id) d')
                    (c.device_written (device_key id) d'))))))
