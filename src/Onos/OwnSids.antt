-- ===== src/Onos/OwnSids.antt =====
-- `SynchronizeFabricToOnos` (pkg/synchronizer/synchronize-device.go) over the SID store of
-- pkg/store/store.go: the SIDs of the devices in the network configuration.
use fabric_adapter.Base.{
  ◌+◌, ◌^◌, ◌≤◌, ◌<◌, ◌≡◌, ◌≢◌, refl, Option, none, some, [], Text, text_eqb, text_eqb_iff, text_eq,
  lookup, lookup-insert, Outcome, ret, fail, panic, arith, Bool-cases, sym, ap, After, Keeps, keeps,
  Keeps-bind, Keeps-bind_ret, Keeps-deref, Keeps-modify, Keeps-for_logged, modify, for_logged,
  ◌>>=◌, ◌>>◌, inl, inr,
}
use mathlib.Core.Path.{subst}
use fabric_adapter.Fabric.{Switch, SwitchModel, SwitchPair}
use fabric_adapter.Netcfg.{OnosDevice}
use fabric_adapter.Sid.{Atomix, get}
use fabric_adapter.Sid.Reliable.{IsReliable}
use fabric_adapter.Sid.Unique.{
  IsAssigned, HasSid, assigned, value-assigned, keeps-assigned, assigned-IsAssigned,
}
use fabric_adapter.Sid.Calls.{unnamed, short, read, new, get_cases, get-HasSid}
use fabric_adapter.Switch.{
  put_device, device_key, handle_switch_port, with_pairing, handle_switch, on_sids,
}
use fabric_adapter.Switch.Writes.{Keeps-handle_switch_port, Keeps-build_device, Keeps-with_pairing}
use fabric_adapter.Switch.Written.{IsPaired, alone, with_port, with_pairing-ret}
use fabric_adapter.Switch.Devices.{build_device-IsDeviceFor}
use fabric_adapter.Onos.{build_netconfig, add_route}
use fabric_adapter.Onos.Invariants.{Keeps-build_netconfig}
use fabric_adapter.Synchronizer.Start.{with_store}
use fabric_adapter.World.{Services, World, FabricScope}

device_key-injective : (i j : Text) → device_key i ≡ device_key j → i ≡ j
device_key-injective i j e = ground (arith, e)

module _ (S : Services) (X : Atomix) (R : IsReliable X) where
  abbrev T : Services
  T = with_store S X

  -- The store is well formed, and each device has the SID that is stored for its switch.
  pub record OwnSids (w : World X.State) : Type 0 where
    pub store : IsAssigned X R w.sids
    pub many : 100 ≤ R.value w.sids
    pub owned :
        (id : Text) (d : OnosDevice)
        → lookup (device_key id) w.net_config.devices ≡ some d
        → HasSid X R id d.segment_routing.ipv4_node_sid w.sids

  -- while the counter fits in 32 bits
  abbrev SidsOwned : World X.State → Type 0
  SidsOwned w = R.value w.sids < 2 ^ 32 → OwnSids w

  assigned-OwnSids :
      (id : Text) (w : World X.State)
      → R.entry id w.sids ≡ none
      → R.value w.sids + 1 < 2 ^ 32
      → OwnSids w
      → OwnSids (record w { sids = assigned X R id w.sids })
  assigned-OwnSids id w e few o = record {
    store = assigned-IsAssigned X R id w.sids few o.many o.store;
    many = omega (arith, o.many, value-assigned X R id w.sids);
    owned = λ j d f. keeps-assigned X R id w.sids e j _ (o.owned j d f);
  }

  Keeps-sid_get : (id : Text) → Keeps SidsOwned (on_sids T (get X id))
  Keeps-sid_get id = keeps (λ w h. elim (get_cases X R id w.sids) [
    | unnamed x e ↦ rw e h
    | short e ↦ rw e tt
    | read b n f g e ↦ rw e h
    | new f e ↦ rw e (λ few.
        assigned-OwnSids id w f (omega (arith, few, value-assigned X R id w.sids))
          (h (omega (arith, few, value-assigned X R id w.sids))))
  ])

  put_device-OwnSids :
      (id : Text) (d : OnosDevice) (w : World X.State)
      → HasSid X R id d.segment_routing.ipv4_node_sid w.sids
      → OwnSids w
      → OwnSids (put_device (device_key id) d w)
  put_device-OwnSids id d w h o = record {
    store = o.store;
    many = o.many;
    owned = λ j e f. elim (Bool-cases (text_eqb (device_key id) (device_key j))) [
      | inl y ↦
          let same : id ≡ j =
            device_key-injective id j ((text_eqb_iff (device_key id) (device_key j)).0 y) in
          let found : d ≡ e =
            ground
              (arith, y, f, lookup-insert (device_key id) (device_key j) d w.net_config.devices) in
          cc (h, same, found)
      | inr n ↦ o.owned j e (
          ground (arith, n, f, lookup-insert (device_key id) (device_key j) d w.net_config.devices))
    ];
  }

  same_devices :
      (w v : World X.State)
      → v.sids ≡ w.sids
      → v.net_config.devices ≡ w.net_config.devices
      → OwnSids w
      → OwnSids v
  same_devices w v e f o = record {
    store = subst (IsAssigned X R) (sym e) o.store;
    many = subst (λ (x : X.State). 100 ≤ R.value x) (sym e) o.many;
    owned = λ id d g. cc (e, o.owned id d (cc (f, g)));
  }

  -- the pairing leaves the SID of a device
  paired_sid :
      (id : Text) (pair : Option SwitchPair) (d d' : OnosDevice)
      → IsPaired id pair d d'
      → d'.segment_routing.ipv4_node_sid ≡ d.segment_routing.ipv4_node_sid
  paired_sid id pair d d' p = elim p [
    | alone n e ↦ cc (e)
    | with_port port channel one there e ↦
        ap (λ (x : OnosDevice). x.segment_routing.ipv4_node_sid) e
  ]

  module _ (scope : FabricScope) (sw : Switch) (model : SwitchModel) (id : Text) (d : OnosDevice)
      (u : World X.State) where
    -- the SIDs are owned, and are those of the state after the device was built
    abbrev OnBuilt : World X.State → Type 0
    OnBuilt w = SidsOwned w × (w.sids ≡ u.sids)

    module _
        (h : R.value u.sids < 2 ^ 32 → HasSid X R id d.segment_routing.ipv4_node_sid u.sids) where
      device_put :
          (d' : OnosDevice) (w : World X.State)
          → d'.segment_routing.ipv4_node_sid ≡ d.segment_routing.ipv4_node_sid
          → OnBuilt w
          → OnBuilt (put_device (device_key id) d' w)
      device_put d' w same o = (
        λ few.
            let stored = h (subst (λ (x : X.State). R.value x < 2 ^ 32) o.1 few) in
            put_device-OwnSids id d' w (cc (stored, same, o.1)) (o.0 few),
        o.1,
      )

      Keeps-rest : Keeps OnBuilt (
          modify (put_device (device_key id) d)
          >> (for_logged sw.port (handle_switch_port sw model)
              >> (with_pairing id sw.switch_pair d
                  >>= (λ d'. modify (put_device (device_key id) d')))))
      Keeps-rest = Keeps-bind OnBuilt _ _ (Keeps-modify OnBuilt _ (λ w. device_put d w refl)) (λ _.
          Keeps-bind OnBuilt _ _
            (Keeps-for_logged OnBuilt sw.port _ (
              Keeps-handle_switch_port
                (λ key p w o. (λ few. same_devices w _ refl refl (o.0 few), o.1)) sw model))
            (λ _.
              Keeps-bind_ret OnBuilt _ (λ x. modify (put_device (device_key id) x))
                (Keeps-with_pairing OnBuilt id sw.switch_pair d)
                (λ d' v w e o.
                  device_put d' w
                    (paired_sid id sw.switch_pair d d' (with_pairing-ret id sw.switch_pair d v e).0)
                    o)))

  After-left :
      (P Q : World X.State → Type 0) (o : Outcome (World X.State) (Unit {0}))
      → After (λ w. P w × Q w) o
      → After P o
  After-left P Q (ret a w) h = h.0
  After-left P Q (fail x w) h = h.0
  After-left P Q panic h = tt

  Keeps-handled :
      (scope : FabricScope) (sw : Switch) (model : SwitchModel)
      → Keeps SidsOwned (handle_switch T scope sw model)
  unfolding handle_switch
  Keeps-handled scope sw model =
      Keeps-bind SidsOwned _ _ (Keeps-deref SidsOwned sw.switch_id) (λ id.
        Keeps-bind_ret SidsOwned _ _
          (Keeps-build_device T SidsOwned Keeps-sid_get
            (λ n w o few. same_devices w _ refl refl (o few)) scope sw id)
          (λ d v u e o.
            let made = build_device-IsDeviceFor T scope sw id d v u e in
            After-left _ _ _ (
              (Keeps-rest scope sw model id d u
                  (λ few. get-HasSid X R id v.sids u.sids _ made.sid few (o few).store)).after
                u (o, refl))))

  -- the construction of a configuration, over a counter that fits in 32 bits
  Keeps-own_sids : (scope : FabricScope) → Keeps SidsOwned (build_netconfig T scope)
  Keeps-own_sids scope =
      Keeps-build_netconfig T SidsOwned scope (Keeps-handled scope)
        (λ r w o few. same_devices w _ refl (unfold add_route in refl) (o few))

  -- In the network configuration that is built for a fabric, from no devices and over a reliable
  -- Atomix with a well-formed store and a counter from 100, the devices of two switches have two
  -- node SIDs, each the one that is stored for its switch, if the construction ends without a
  -- panic and the counter still fits in 32 bits.
  pub build_netconfig_sids :
      (scope : FabricScope) (w v : World X.State)
      → w.net_config.devices ≡ []
      → IsAssigned X R w.sids
      → 100 ≤ R.value w.sids
      → build_netconfig T scope w ≡ ret tt v
      → R.value v.sids < 2 ^ 32
      → (i j : Text) (d e : OnosDevice) → lookup (device_key i) v.net_config.devices ≡ some d
      → lookup (device_key j) v.net_config.devices ≡ some e
      → i ≢ j
      → (d.segment_routing.ipv4_node_sid ≢ e.segment_routing.ipv4_node_sid)
        × HasSid X R i d.segment_routing.ipv4_node_sid v.sids
        × HasSid X R j e.segment_routing.ipv4_node_sid v.sids
  build_netconfig_sids scope w v none_yet a many run few i j d e f g other =
      let before : SidsOwned w = λ _. record {
        store = a;
        many = many;
        owned = λ k x p. absurd (unfold lookup in ground (arith, p, none_yet));
      } in
      let after = subst (After SidsOwned) run ((Keeps-own_sids scope).after w before) few in
      (
        λ same. other (after.store.unique i j _ (after.owned i d f) (cc (after.owned j e g, same))),
        after.owned i d f,
        after.owned j e g,
      )
