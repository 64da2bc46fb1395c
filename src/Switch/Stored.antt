-- ===== src/Switch/Stored.antt =====
-- How `handleSwitch` (pkg/synchronizer/synchronize-device.go) ends, and what is then in the network
-- configuration.
use fabric_adapter.Base.{
  ℕ, ◌≡◌, refl, ◌∙◌, ap, Option, none, some, List, [], ◌∷◌, Text, text_eq, Error, fail, Go, deref,
  Keeps-zoom, modify, ◌>>=◌, ◌>>◌, for_logged, bind-fail, deref-ret, deref-fail, for_logged-fail,
  After, arith, inl, inr,
}
use mathlib.Core.Path.{subst}
use fabric_adapter.Fabric.{PairingPort, Switch, SwitchModel, SwitchPair}
use fabric_adapter.Netcfg.{OnosDevice}
use fabric_adapter.Util.{cage_channel_to_port}
use fabric_adapter.Switch.{
  put_device, device_key, handle_switch_port, paired, with_pairing, build_device, handle_switch,
}
use fabric_adapter.Switch.Writes.{Keeps-build_device}
use fabric_adapter.World.{Services, World, FabricScope}

module _ {ℓ} {W : Type ℓ} where
  cage_channel_to_port-fail :
      (cage channel : Option ℕ) (w : W) {x : Error} {v : W}
      → ¬ (cage_channel_to_port cage channel w ≡ fail x v)
  unfolding cage_channel_to_port
  cage_channel_to_port-fail none none w e = ground arith
  cage_channel_to_port-fail none (some n) w e = ground arith
  cage_channel_to_port-fail (some c) none w e = ground arith
  cage_channel_to_port-fail (some c) (some n) w e = ground arith

  paired-fail :
      (id : Text) (other : Option Text) (ports : List PairingPort) (d : OnosDevice) (w : W)
      {x : Error} {v : W}
      → ¬ (paired id other ports d w ≡ fail x v)
  unfolding paired
  paired-fail id none ports d w e = ground arith
  paired-fail id (some o) [] d w e = ground arith
  paired-fail id (some o) (p ∷ []) d w e =
      elim (bind-fail (cage_channel_to_port p.cage_number p.channel_number) _ e) [
        | inl q ↦ cage_channel_to_port-fail p.cage_number p.channel_number w q
        | inr (port, u, q, r) ↦ ground (arith, r)
      ]
  paired-fail id (some o) (p ∷ q ∷ ports) d w e = ground arith

  with_pairing-fail :
      (id : Text) (pair : Option SwitchPair) (d : OnosDevice) (w : W) {x : Error} {v : W}
      → ¬ (with_pairing id pair d w ≡ fail x v)
  unfolding with_pairing
  with_pairing-fail id none d w e = ground arith
  with_pairing-fail id (some pair) d w e = paired-fail id pair.paired_switch pair.pairing_port d w e

module _ (S : Services) (scope : FabricScope) (sw : Switch) (model : SwitchModel) where
  abbrev ports_and_pairing : Text → OnosDevice → Go (World S.Sids) (Unit {0})
  ports_and_pairing id d = do
    for_logged sw.port (handle_switch_port sw model)
    d' ← with_pairing id sw.switch_pair d
    modify (put_device (device_key id) d')

  ports_and_pairing-fail :
      (id : Text) (d : OnosDevice) (w w' : World S.Sids) (x : Error)
      → ¬ (ports_and_pairing id d w ≡ fail x w')
  ports_and_pairing-fail id d w w' x e =
      elim (bind-fail (for_logged sw.port (handle_switch_port sw model)) _ e) [
        | inl p ↦ for_logged-fail sw.port (handle_switch_port sw model) w p
        | inr (t, u, p, q) ↦ elim (bind-fail (with_pairing id sw.switch_pair d) _ q) [
          | inl r ↦ with_pairing-fail id sw.switch_pair d u r
          | inr (d', u', r, s) ↦ ground (arith, s)
        ]
      ]

  abbrev pub SameConfig : World S.Sids → World S.Sids → Type 0
  SameConfig w v = v.net_config ≡ w.net_config

  pub build_device-same :
      (id : Text) (w : World S.Sids) → After (SameConfig w) (build_device S scope sw id w)
  build_device-same id w =
      (Keeps-build_device S (SameConfig w)
          (λ id'. Keeps-zoom (SameConfig w) _ _ (S.sid_get id') (λ s v h. h)) (λ n v h. h) scope sw
          id).after
        w refl

  refused_same :
      (id : Text) (w w' : World S.Sids) (x : Error)
      → build_device S scope sw id w ≡ fail x w'
      → w'.net_config ≡ w.net_config
  refused_same id w w' x e = subst (After (SameConfig w)) e (build_device-same id w)

  -- If handleSwitch returns an error, the network configuration is as it was before the call.
  pub handle_switch-fail :
      (w w' : World S.Sids) (x : Error)
      → handle_switch S scope sw model w ≡ fail x w'
      → w'.net_config ≡ w.net_config
  unfolding handle_switch
  handle_switch-fail w w' x e = elim (bind-fail (deref sw.switch_id) _ e) [
    | inl p ↦ absurd (deref-fail sw.switch_id w p)
    | inr (id, u, p, q) ↦ elim (bind-fail (build_device S scope sw id) _ q) [
      | inl r ↦
          refused_same id u w' x r
          ∙ ap (λ (v : World S.Sids). v.net_config) (deref-ret sw.switch_id p).1
      | inr (d, u', r, s) ↦
          absurd (ports_and_pairing-fail id d (put_device (device_key id) d u') w' x s)
    ]
  ]
