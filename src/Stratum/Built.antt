-- ===== src/Stratum/Built.antt =====
-- The chassis configuration that `handleStratumSwitch` (pkg/synchronizer/synchronize-device.go) leaves.
use mathlib.Core.Path.{ap₂}
use mathlib.Core.List.{append_assoc, append-nil}
use fabric_adapter.Base.{
  ℕ, zero, suc, ◌+◌, ◌*◌, ◌-◌, ◌%◌, ◌^◌, ◌≡◌, refl, false, sym, ap, ◌∙◌, some, List, [], ◌∷◌, ◌++◌,
  Text, codes, decimal, lookup, nat_eq, text_eq, nat_eqb, if◌then◌else◌, no_management, ret, fail,
  panic, Outcome, logged, for_logged, deref, deref-ret, bind-elim, arith, Option-cases, inl, inr,
}
use fabric_adapter.Fabric.{Port, Switch, SwitchModel}
use fabric_adapter.Chassis.{TriState, SingletonPort, ChassisConfig, plt_generic_barefoot_tofino}
use fabric_adapter.Lookup.{lookup_switch_model_port}
use fabric_adapter.Switch.{management_of, required}
use fabric_adapter.Switch.Devices.{required-ret}
use fabric_adapter.Stratum.{
  stratum_port_id, stratum_port_name, singleton_port, handle_stratum_switch_port,
  handle_stratum_switch, with_chassis,
}
use fabric_adapter.World.{World, FabricScope}
use fabric_adapter.Stratum.Ports.{
  speed_of, numbered_port, kind_of, described, described_ports, known, unknown, nil, speed_cases,
}

same_id :
    (cage channel : ℕ)
    → stratum_port_id cage channel
      ≡ (if nat_eqb channel 0 then cage % 2 ^ 32 else (cage * 100 + (channel - 1)) % 2 ^ 32)
unfolding stratum_port_id
same_id cage channel = ground arith

same_name :
    (cage channel : ℕ)
    → stratum_port_name cage channel
      ≡ codes "Port " ++ (decimal cage ++ (b'/' ∷ decimal (channel - 1)))
unfolding stratum_port_name decimal
same_name cage zero = refl
same_name cage (suc channel) =
    let other : nat_eqb (suc channel) 0 ≡ false = ground arith in rw other refl

as_numbered :
    (cage channel : ℕ) (t : TriState) (bps : ℕ)
    → singleton_port cage channel t bps ≡ numbered_port cage channel t bps
as_numbered cage channel t bps =
    ap₂ (λ i text. record (numbered_port cage channel t bps) { id = i; name = text })
      (same_id cage channel) (same_name cage channel)

-- the chassis configuration of a switch, after the ports that were there
abbrev pub chassis_with : Text → List SingletonPort → ChassisConfig
chassis_with name ports = record {
  description = name;
  chassis = some (record { platform = plt_generic_barefoot_tofino; name = name });
  nodes = record { id = 1; slot = 1; index = 1 } ∷ [];
  singleton_ports = ports;
}

module _ {Sids : Type 0} where
  -- the same but for ports that are added to the chassis
  abbrev pub with_ports : List SingletonPort → World Sids → World Sids
  with_ports ports w = record w {
    chassis = record w.chassis { singleton_ports = w.chassis.singleton_ports ++ ports };
  }

  abbrev Added : List SingletonPort → World Sids → Outcome (World Sids) (Unit {0}) → Type 0
  Added ports w (ret t v) = v ≡ with_ports ports w
  Added ports w (fail x v) = v ≡ with_ports ports w
  Added ports w panic = Unit {0}

  nothing_added : (w : World Sids) → w ≡ with_ports [] w
  nothing_added w =
      ap (λ ports. record w { chassis = record w.chassis { singleton_ports = ports } })
        (sym (append-nil w.chassis.singleton_ports))

  port-Added :
      (model : SwitchModel) (p : Port) (w : World Sids)
      → Added
          (described
            (kind_of p.cage_number model)
            (speed_of model p.speed)
            p.cage_number
            p.channel_number)
          w
          (handle_stratum_switch_port model p w)
  unfolding handle_stratum_switch_port lookup_switch_model_port
  port-Added model p w = elim (Option-cases p.cage_number) [
    | inl e ↦ rw e tt
    | inr (c, e) ↦ elim (Option-cases (lookup c model.port)) [
      | inl f ↦ rw e (rw f (nothing_added w))
      | inr (kind, f) ↦ elim (speed_cases w model p.speed) [
        | nil h ↦ rw e (rw f (rw h tt))
        | unknown x s h ↦ rw e (rw f (rw h (rw s (nothing_added w))))
        | known t bps s h ↦ elim (Option-cases p.channel_number) [
          | inl g ↦ rw e (rw f (rw h (rw g tt)))
          | inr (n, g) ↦ rw e (
              rw f (
                rw h (rw s (rw g (ap (λ port. with_ports (port ∷ []) w) (as_numbered c n t bps))))))
        ]
      ]
    ]
  ]

  logged-Added :
      (ports : List SingletonPort) (w : World Sids) (o : Outcome (World Sids) (Unit {0}))
      {v : World Sids}
      → Added ports w o
      → logged o ≡ ret tt v
      → v ≡ with_ports ports w
  logged-Added ports w (ret t u) j e = cc (j, e)
  logged-Added ports w (fail x u) j e = cc (j, e)
  logged-Added ports w panic j e = absurd (ground arith)

  added_again :
      (ps qs : List SingletonPort) (w : World Sids)
      → with_ports qs (with_ports ps w) ≡ with_ports (ps ++ qs) w
  added_again ps qs w =
      ap (λ ports. record w { chassis = record w.chassis { singleton_ports = ports } })
        (append_assoc w.chassis.singleton_ports ps qs)

  loop-ports :
      (model : SwitchModel) (ps : List Port) (w w' : World Sids)
      → for_logged ps (handle_stratum_switch_port model) w ≡ ret tt w'
      → w' ≡ with_ports (described_ports model ps) w
  unfolding for_logged described_ports
  loop-ports model [] w w' e = sym (ground (arith, e)) ∙ nothing_added w
  loop-ports model (p ∷ ps) w w' e =
      let here =
        described (kind_of p.cage_number model) (speed_of model p.speed) p.cage_number
          p.channel_number in
      bind-elim (λ v. logged (handle_stratum_switch_port model p v))
        (λ _. for_logged ps (handle_stratum_switch_port model)) e
        (λ _ u q r.
          loop-ports model ps u w' r
          ∙ ap (with_ports (described_ports model ps))
              (logged-Added here w (handle_stratum_switch_port model p w) (port-Added model p w) q)
          ∙ added_again here (described_ports model ps) w)

  -- If handleStratumSwitch returns without an error, only the chassis configuration has changed:
  -- it has the name of the switch, one node, and after the ports that it had one for each port of
  -- the switch that the model knows and whose speed can be read, in their order, with the id,
  -- name, cage, channel and speed in bits per second of that port.
  pub handle_stratum_switch_lem :
      (scope : FabricScope) (sw : Switch) (model : SwitchModel) (w w' : World Sids)
      → handle_stratum_switch scope sw model w ≡ ret tt w'
      → (name : Text) × (sw.display_name ≡ some name)
        × (w' ≡ record w {
          chassis = chassis_with name (w.chassis.singleton_ports ++ described_ports model sw.port);
        })
  unfolding handle_stratum_switch
  handle_stratum_switch_lem scope sw model w w' e =
      bind-elim (deref sw.switch_id) _ e (λ id u₁ p₁ e₁.
        bind-elim (required (no_management scope.fabric_id id) (management_of sw.management)) _ e₁
          (λ endpoint u₂ p₂ e₂. bind-elim (deref sw.display_name) _ e₂ (λ name u₃ p₃ e₃.
            let (identified, v₁) = deref-ret sw.switch_id p₁ in
            let (managed, v₂) = required-ret _ (management_of sw.management) p₂ in
            let (named, v₃) = deref-ret sw.display_name p₃ in
            (
              name,
              named,
              loop-ports model sw.port (record u₃ { chassis = with_chassis name u₃.chassis }) w' e₃
                  ∙ ap
                      (λ u.
                        with_ports (described_ports model sw.port)
                          (record u { chassis = with_chassis name u.chassis }))
                      (v₃ ∙ v₂ ∙ v₁),
            ))))
