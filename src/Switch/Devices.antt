-- ===== src/Switch/Devices.antt =====
-- The device that `handleSwitch` (pkg/synchronizer/synchronize-device.go) writes into the network
-- configuration.
use fabric_adapter.Base.{
  ℕ, ◌≡◌, refl, Option, none, some, Text, codes, text_eq, Error, no_management, no_sid, no_mac,
  no_router_mac, no_driver, no_pipeconf, ret, Go, deref, bind-elim, deref-ret, pure, wrapped,
  wrapped-ret, zoom-ret, arith,
}
use mathlib.Core.Path.{subst₂}
use fabric_adapter.Fabric.{Switch}
use fabric_adapter.Netcfg.{OnosDevice}
use fabric_adapter.Util.{address_to_mac, management_address_to_ip, get_stratum_endpoint_for_netcfg}
use fabric_adapter.Switch.{
  management_of, attribute_value, required, is_edge, new_device, on_sids, on_next_ip, build_device,
}
use fabric_adapter.Switch.Loopback.{IsAddressed, three_calls}
use fabric_adapter.World.{Services, World, FabricScope}

pub required-ret {ℓ κ} :
    {W : Type ℓ} {A : Type κ} (x : Error) (o : Option A) {w v : W} {a : A}
    → required x o w ≡ ret a v
    → (o ≡ some a) × (v ≡ w)
required-ret x none e = absurd (ground arith)
required-ret x (some b) e = ground arith

module _ (S : Services) where
  sids-ret :
      (m : Go S.Sids ℕ) (f : Error → Error) (u v : World S.Sids) (n : ℕ)
      → wrapped f (on_sids S m) u ≡ ret n v
      → (s : S.Sids) × (m u.sids ≡ ret n s) × (v ≡ record u { sids = s })
  sids-ret m f u v n e =
      zoom-ret (λ (w : World S.Sids). w.sids) (λ s w. record w { sids = s }) m
        (wrapped-ret f (on_sids S m) e)

  next_ip-ret :
      (m : Go ℕ Text) (u v : World S.Sids) (t : Text)
      → on_next_ip S m u ≡ ret t v
      → (n : ℕ) × (m u.next_ip ≡ ret t n) × (v ≡ record u { next_ip = n })
  next_ip-ret m u v t e =
      zoom-ret (λ (w : World S.Sids). w.next_ip) (λ n w. record w { next_ip = n }) m e

-- What a device says of its switch, when it is built in `w` and leaves `w'`.
pub record IsDeviceFor (S : Services) (sw : Switch) (id : Text) (d : OnosDevice)
    (w w' : World S.Sids) : Type 0 where
  pub address : Text
  pub port_number : ℕ
  pub managed : management_of sw.management ≡ some (address, port_number)
  pub named : sw.display_name ≡ some d.basic.name
  pub driver : attribute_value (codes "driver") sw.attribute ≡ some d.basic.driver
  pub pipe_conf : attribute_value (codes "pipeconf") sw.attribute ≡ some d.basic.pipe_conf
  pub endpoint : d.basic.management_address ≡ get_stratum_endpoint_for_netcfg address port_number
  pub edge : d.segment_routing.is_edge_router ≡ is_edge sw.role
  pub sid : S.sid_get id w.sids ≡ ret d.segment_routing.ipv4_node_sid w'.sids
  pub addressed :
      IsAddressed address w.next_ip d.segment_routing.ipv4_loopback d.segment_routing.router_mac
        w'.next_ip

module _ (S : Services) (scope : FabricScope) (sw : Switch) where
  -- the device, from the results of the calls
  built_from :
      (id : Text) (d : OnosDevice) (w w' : World S.Sids) (address : Text) (port : ℕ)
      (name driver : Text) (sid : ℕ) (first_mac pipe_conf loopback mac : Text)
      → (management_of sw.management ≡ some (address, port))
        × (sw.display_name ≡ some name)
        × (attribute_value (codes "driver") sw.attribute ≡ some driver)
        × (attribute_value (codes "pipeconf") sw.attribute ≡ some pipe_conf)
      → (s : S.Sids) (n₁ n₂ n₃ : ℕ) → S.sid_get id w.sids ≡ ret sid s
      → address_to_mac address w.next_ip ≡ ret first_mac n₁
      → management_address_to_ip address n₁ ≡ ret loopback n₂
      → address_to_mac loopback n₂ ≡ ret mac n₃
      → new_device name driver pipe_conf sid
          (is_edge sw.role)
          (get_stratum_endpoint_for_netcfg address port)
          loopback
          mac
        ≡ d
      → record w { sids = s; next_ip = n₃ } ≡ w'
      → IsDeviceFor S sw id d w w'
  built_from id d w w' address port name driver sid first_mac pipe_conf loopback mac
        (managed, named, driven, piped) s n₁ n₂ n₃ q₁ q₂ q₃ q₄ same_device same_world =
      subst₂ (λ x v. IsDeviceFor S sw id x w v) same_device same_world
        (record {
          address = address;
          port_number = port;
          managed = managed;
          named = named;
          driver = driven;
          pipe_conf = piped;
          endpoint = refl;
          edge = refl;
          sid = q₁;
          addressed = three_calls address loopback first_mac mac w.next_ip n₁ n₂ n₃ q₂ q₃ q₄;
        })

  -- the last step: what the ends of the eight calls say together
  built :
      (id : Text) (d : OnosDevice) (w w' : World S.Sids) (address : Text) (port : ℕ)
      (name driver : Text) (sid : ℕ) (first_mac pipe_conf loopback mac : Text)
      (u₁ u₂ u₃ u₄ u₅ u₆ u₇ u₈ : World S.Sids)
      → required (no_management scope.fabric_id id) (management_of sw.management) w
        ≡ ret (address, port) u₁
      → deref sw.display_name u₁ ≡ ret name u₂
      → required no_driver (attribute_value (codes "driver") sw.attribute) u₂ ≡ ret driver u₃
      → wrapped (no_sid scope.fabric_id id) (on_sids S (S.sid_get id)) u₃ ≡ ret sid u₄
      → wrapped (no_mac scope.fabric_id id) (on_next_ip S (address_to_mac address)) u₄
        ≡ ret first_mac u₅
      → required no_pipeconf (attribute_value (codes "pipeconf") sw.attribute) u₅ ≡ ret pipe_conf u₆
      → on_next_ip S (management_address_to_ip address) u₆ ≡ ret loopback u₇
      → wrapped (no_router_mac scope.fabric_id id) (on_next_ip S (address_to_mac loopback)) u₇
        ≡ ret mac u₈
      → pure
          (new_device name driver pipe_conf sid
            (is_edge sw.role)
            (get_stratum_endpoint_for_netcfg address port)
            loopback
            mac)
          u₈
        ≡ ret d w'
      → IsDeviceFor S sw id d w w'
  built id d w w' address port name driver sid first_mac pipe_conf loopback mac u₁ u₂ u₃ u₄ u₅ u₆ u₇
        u₈ p₁ p₂ p₃ p₄ p₅ p₆ p₇ p₈ e =
      let (managed, v₁) = required-ret _ (management_of sw.management) p₁ in
      let (named, v₂) = deref-ret sw.display_name p₂ in
      let (driven, v₃) = required-ret _ (attribute_value (codes "driver") sw.attribute) p₃ in
      let (s, q₄, v₄) = sids-ret S (S.sid_get id) (no_sid scope.fabric_id id) u₃ u₄ sid p₄ in
      let (n₁, q₅, v₅) =
        next_ip-ret S (address_to_mac address) u₄ u₅ first_mac
          (wrapped-ret (no_mac scope.fabric_id id) (on_next_ip S (address_to_mac address)) p₅) in
      let (piped, v₆) = required-ret _ (attribute_value (codes "pipeconf") sw.attribute) p₆ in
      let (n₂, q₇, v₇) = next_ip-ret S (management_address_to_ip address) u₆ u₇ loopback p₇ in
      let (n₃, q₈, v₈) = next_ip-ret S (address_to_mac loopback) u₇ u₈ mac (
        wrapped-ret (no_router_mac scope.fabric_id id) (on_next_ip S (address_to_mac loopback))
          p₈) in
      built_from id d w w' address port name driver sid first_mac pipe_conf loopback mac
        (managed, named, driven, piped) s n₁ n₂ n₃ (cc (q₄, v₁, v₂, v₃)) (cc (q₅, v₁, v₂, v₃, v₄))
        (cc (q₇, v₅, v₆)) (cc (q₈, v₇)) (ground (arith, e)) (cc (e, v₁, v₂, v₃, v₄, v₅, v₆, v₇, v₈))

  -- A device that is built has the name, driver, pipeconf, endpoint, role and SID of its switch.
  pub build_device-IsDeviceFor :
      (id : Text) (d : OnosDevice) (w w' : World S.Sids)
      → build_device S scope sw id w ≡ ret d w'
      → IsDeviceFor S sw id d w w'
  unfolding build_device
  build_device-IsDeviceFor id d w w' e =
      bind-elim (required (no_management scope.fabric_id id) (management_of sw.management)) _ e
        (λ (address, port) u₁ p₁ e₁. bind-elim (deref sw.display_name) _ e₁ (λ name u₂ p₂ e₂.
          bind-elim (required no_driver (attribute_value (codes "driver") sw.attribute)) _ e₂
            (λ driver u₃ p₃ e₃.
              bind-elim (wrapped (no_sid scope.fabric_id id) (on_sids S (S.sid_get id))) _ e₃
                (λ sid u₄ p₄ e₄.
                  bind-elim
                    (wrapped (no_mac scope.fabric_id id) (on_next_ip S (address_to_mac address))) _
                    e₄
                    (λ first_mac u₅ p₅ e₅.
                      bind-elim
                        (required no_pipeconf (attribute_value (codes "pipeconf") sw.attribute)) _
                        e₅
                        (λ pipe_conf u₆ p₆ e₆.
                          bind-elim (on_next_ip S (management_address_to_ip address)) _ e₆
                            (λ loopback u₇ p₇ e₇.
                              bind-elim
                                (wrapped (no_router_mac scope.fabric_id id)
                                  (on_next_ip S (address_to_mac loopback)))
                                _ e₇
                                (λ mac u₈ p₈ e₈.
                                  built id d w w' address port name driver sid first_mac pipe_conf
                                    loopback mac u₁ u₂ u₃ u₄ u₅ u₆ u₇ u₈ p₁ p₂ p₃ p₄ p₅ p₆ p₇ p₈
                                    e₈))))))))
