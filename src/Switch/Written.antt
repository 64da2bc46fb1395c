-- ===== src/Switch/Written.antt =====
-- What `handleSwitch` (pkg/synchronizer/synchronize-device.go) has written when it returns without an
-- error.
use fabric_adapter.Base.{
  ℕ, ◌+◌, ◌*◌, ◌%◌, ◌^◌, ◌≡◌, refl, Option, none, some, List, [], ◌∷◌, Text, text_eq, text_eqb,
  lookup, insert, lookup-insert, ret, deref, for_logged, bind-elim, deref-ret, After,
  Keeps-for_logged, arith, if◌then◌else◌,
}
use mathlib.Core.Path.{subst}
use fabric_adapter.Fabric.{PairingPort, Switch, SwitchModel, SwitchPair}
use fabric_adapter.Netcfg.{OnosDevice}
use fabric_adapter.Util.{cage_channel_to_port}
use fabric_adapter.Switch.{
  put_device, device_key, handle_switch_port, paired, with_pairing, build_device, handle_switch,
}
use fabric_adapter.Switch.Writes.{Keeps-handle_switch_port}
use fabric_adapter.Switch.Stored.{build_device-same}
use fabric_adapter.Switch.Devices.{IsDeviceFor, build_device-IsDeviceFor}
use fabric_adapter.World.{Services, World, FabricScope}

-- The one pairing port of a switch that is paired.
abbrev pub only_port : Option Text → List PairingPort → Option PairingPort
only_port (some other) (p ∷ []) = some p
only_port _ _ = none

abbrev pub pairing_port_of : Option SwitchPair → Option PairingPort
pairing_port_of none = none
pairing_port_of (some pair) = only_port pair.paired_switch pair.pairing_port

-- the 16-bit number of a port
abbrev pub local_number : Option ℕ → ℕ → ℕ
local_number none channel = channel % 2 ^ 16
local_number (some cage) channel = (channel * 100 + cage) % 2 ^ 16

-- A device before and after the pairing of its switch: as it was, if there is no such port, and else
-- with the port's number; the pair's device id is the switch's own.
pub data IsPaired (id : Text) (pair : Option SwitchPair) (d d' : OnosDevice) : Type 0 where
  alone : pairing_port_of pair ≡ none → d' ≡ d → IsPaired id pair d d'
  with_port :
      (p : PairingPort) (channel : ℕ)
      → pairing_port_of pair ≡ some p
      → p.channel_number ≡ some channel
      → d' ≡ record d {
        segment_routing = record d.segment_routing {
          pair_device_id = id;
          pair_local_port = local_number p.cage_number channel;
        };
      }
      → IsPaired id pair d d'

module _ {ℓ} {W : Type ℓ} where
  cage_channel_to_port-ret :
      (cage channel : Option ℕ) (w : W) {n : ℕ} {v : W}
      → cage_channel_to_port cage channel w ≡ ret n v
      → (c : ℕ) × (channel ≡ some c) × (n ≡ local_number cage c) × (v ≡ w)
  unfolding cage_channel_to_port
  cage_channel_to_port-ret none none w e = absurd (ground (arith, e))
  cage_channel_to_port-ret none (some n) w e = (n, refl, ground (arith, e), ground (arith, e))
  cage_channel_to_port-ret (some c) none w e = absurd (ground (arith, e))
  cage_channel_to_port-ret (some c) (some n) w e = (n, refl, ground (arith, e), ground (arith, e))

  paired-ret :
      (id : Text) (other : Option Text) (ports : List PairingPort) (d : OnosDevice) (w : W)
      {d' : OnosDevice} {v : W}
      → paired id other ports d w ≡ ret d' v
      → IsPaired id (some (record { paired_switch = other; pairing_port = ports })) d d' × (v ≡ w)
  unfolding paired
  paired-ret id none ports d w e = (alone refl (ground (arith, e)), ground (arith, e))
  paired-ret id (some o) [] d w e = (alone refl (ground (arith, e)), ground (arith, e))
  paired-ret id (some o) (p ∷ []) d w e =
      bind-elim (cage_channel_to_port p.cage_number p.channel_number) _ e (λ port u q r.
        let (c, there, number, same) =
          cage_channel_to_port-ret p.cage_number p.channel_number w q in
        (with_port p c refl there (ground (arith, r, number)), ground (arith, r, same)))
  paired-ret id (some o) (p ∷ q ∷ ports) d w e = (alone refl (ground (arith, e)), ground (arith, e))

  pub with_pairing-ret :
      (id : Text) (pair : Option SwitchPair) (d : OnosDevice) (w : W) {d' : OnosDevice} {v : W}
      → with_pairing id pair d w ≡ ret d' v
      → IsPaired id pair d d' × (v ≡ w)
  unfolding with_pairing
  with_pairing-ret id none d w e = (alone refl (ground (arith, e)), ground (arith, e))
  with_pairing-ret id (some pair) d w e = paired-ret id pair.paired_switch pair.pairing_port d w e

-- The switch's device `d'` is in the configuration under the switch's id; the devices at other keys
-- are those of `w`.
pub record IsWritten (S : Services) (sw : Switch) (w w' : World S.Sids) : Type 0 where
  pub id : Text
  pub named : sw.switch_id ≡ some id
  pub built : OnosDevice
  pub after_build : World S.Sids
  pub matches : IsDeviceFor S sw id built w after_build
  pub stored : OnosDevice
  pub pairing : IsPaired id sw.switch_pair built stored
  pub devices :
      (key : Text)
      → lookup key w'.net_config.devices
        ≡ (if text_eqb (device_key id) key then some stored else lookup key w.net_config.devices)

module _ (S : Services) (scope : FabricScope) (sw : Switch) (model : SwitchModel) where
  abbrev SameDevices : World S.Sids → World S.Sids → Type 0
  SameDevices w v = v.net_config.devices ≡ w.net_config.devices

  ports_same :
      (w : World S.Sids)
      → After (SameDevices w) (for_logged sw.port (handle_switch_port sw model) w)
  ports_same w =
      (Keeps-for_logged (SameDevices w) sw.port _
          (Keeps-handle_switch_port (λ key p v h. h) sw model)).after
        w refl

  ports_same_at :
      (id : Text) (d : OnosDevice) (u v : World S.Sids)
      → for_logged sw.port (handle_switch_port sw model) (put_device (device_key id) d u) ≡ ret tt v
      → v.net_config.devices ≡ insert (device_key id) d u.net_config.devices
  ports_same_at id d u v e =
      subst (After (SameDevices (put_device (device_key id) d u))) e
        (ports_same (put_device (device_key id) d u))

  built_same :
      (id : Text) (d : OnosDevice) (w u : World S.Sids)
      → build_device S scope sw id w ≡ ret d u
      → u.net_config ≡ w.net_config
  built_same id d w u e =
      subst (After (λ (v : World S.Sids). v.net_config ≡ w.net_config)) e
        (build_device-same S scope sw model id w)

  devices_written :
      (id : Text) (d d' : OnosDevice) (w u v w' : World S.Sids)
      → u.net_config ≡ w.net_config
      → v.net_config.devices ≡ insert (device_key id) d u.net_config.devices
      → put_device (device_key id) d' v ≡ w'
      → (key : Text)
      → lookup key w'.net_config.devices
        ≡ (if text_eqb (device_key id) key then some d' else lookup key w.net_config.devices)
  devices_written id d d' w u v w' built ports e key = ground (
    arith,
    built,
    ports,
    e,
    lookup-insert (device_key id) key d' v.net_config.devices,
    lookup-insert (device_key id) key d u.net_config.devices,
  )

  written :
      (id : Text) (d d' : OnosDevice) (w u w' : World S.Sids)
      → sw.switch_id ≡ some id
      → IsDeviceFor S sw id d w u
      → IsPaired id sw.switch_pair d d'
      → ((key : Text)
          → lookup key w'.net_config.devices
            ≡ (if text_eqb (device_key id) key then some d' else lookup key w.net_config.devices))
      → IsWritten S sw w w'
  written id d d' w u w' named matches pairing devices = record {
    id = id;
    named = named;
    built = d;
    after_build = u;
    matches = matches;
    stored = d';
    pairing = pairing;
    devices = devices;
  }

  -- If handleSwitch returns without an error, the network configuration has under the switch's id
  -- the device of that switch (name, driver, pipeconf, endpoint, role, SID, loopback and router
  -- MAC, then, if it is paired by exactly one port, its own id as that of the pair and the 16-bit
  -- number of that port), and its other devices are those it had.
  pub handle_switch-IsWritten :
      (w w' : World S.Sids) → handle_switch S scope sw model w ≡ ret tt w' → IsWritten S sw w w'
  unfolding handle_switch
  handle_switch-IsWritten w w' e = bind-elim (deref sw.switch_id) _ e (λ id u₀ p q.
      bind-elim (build_device S scope sw id) _ q (λ d u r s.
        bind-elim (for_logged sw.port (handle_switch_port sw model)) _ s (λ _ v p' q'.
          bind-elim (with_pairing id sw.switch_pair d) _ q' (λ d' v' r' s'.
            let (named, first) = deref-ret sw.switch_id p in
            let (pairing, last) = with_pairing-ret id sw.switch_pair d v r' in
            written id d d' w u w' named
              (build_device-IsDeviceFor S scope sw id d w u (cc (r, first))) pairing
              (devices_written id d d' w u v w' (built_same id d w u (cc (r, first)))
                (ports_same_at id d u v p') (ground (arith, s', last)))))))
