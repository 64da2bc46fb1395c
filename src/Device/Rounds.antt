-- ===== src/Device/Rounds.antt =====
-- `SynchronizeFabricToStratum` (pkg/synchronizer/synchronize-device.go) with services that answer: the
-- calls that it makes.
use mathlib.Core.List.{append_assoc, append-nil}
use fabric_adapter.Base.{
  ◌≡◌, refl, sym, ap, ◌∙◌, decimal, some, true, none, List, [], ◌∷◌, Text, codes, ◌++◌, keys,
  lookup, text_eq, text_eqb, text_eqb_iff, Outcome, ret, arith, Option-cases, inl, inr,
}
use fabric_adapter.Fabric.{Switch, SwitchModel}
use fabric_adapter.Fabric.Formed.{HasValue, IsPresent, IsFormed, IsFormedSwitch, IsFormedModel}
use fabric_adapter.Chassis.{empty_chassis_config}
use fabric_adapter.Util.{get_stratum_endpoint}
use fabric_adapter.Lookup.{lookup_switch_model}
use fabric_adapter.Sorting.{sort_strings}
use fabric_adapter.Sorting.Keys.{listed}
use fabric_adapter.Stratum.{use_secure_transport}
use fabric_adapter.Switch.{management_of}
use fabric_adapter.Strconv.{parse_bool}
use mathlib.Core.Path.{subst}
use fabric_adapter.Stratum.Safe.{handle_stratum_switch-ret}
use fabric_adapter.Stratum.Built.{handle_stratum_switch_lem}
use fabric_adapter.Pusher.{new_gnmi_pusher}
use fabric_adapter.Onos.{Pushes}
use fabric_adapter.Onos.Safe.{key_present}
use fabric_adapter.Device.{
  or_skip, push_chassis, stratum_round, stratum_loop, synchronize_fabric_to_stratum,
}
use fabric_adapter.World.{Call, Services, World, FabricScope}
use fabric_adapter.Device.Pushed.{
  model_of, flag, gnmi_set_of, StratumCalls, no_more, left_out, sent,
}
use fabric_adapter.Device.Willing.{AreWilling, Sends, gnmi_push-Sends}

-- the transport of a formed switch
pub secure-flag {ℓ} :
    {W : Type ℓ} (sw : Switch) (w : W)
    → IsFormedSwitch sw
    → use_secure_transport sw w ≡ ret (flag (lookup (codes "secure-transport") sw.attribute)) w
unfolding use_secure_transport
secure-flag sw w g = elim (Option-cases (lookup (codes "secure-transport") sw.attribute)) [
  | inl e ↦ rw (e, use_secure_transport) refl
  | inr (a, e) ↦
      let (v, set) = subst HasValue e g.transport in
      elim (Option-cases (parse_bool v)) [
        | inl p ↦ rw (e, use_secure_transport) (rw set (ground (arith, p)))
        | inr (b, p) ↦ rw (e, use_secure_transport) (rw set (ground (arith, p)))
      ]
]

module _ (S : Services) (h : AreWilling S) (scope : FabricScope) (f : IsFormed scope.fabric) where
  -- The calls for some switches, with no failure.
  abbrev pub LoopSends : List Text → World S.Sids → Outcome (World S.Sids) Pushes → Type 0
  LoopSends ids w o =
      (calls : List Call) × StratumCalls S scope.fabric ids calls × Sends w o (0, none) calls

  round-Sends :
      (id : Text) (ids : List Text) (sw : Switch) (model : SwitchModel) (w : World S.Sids)
      → lookup id scope.fabric.switch ≡ some sw
      → model_of sw.model_id scope.fabric ≡ some model
      → IsFormedSwitch sw
      → IsFormedModel model
      → ((v : World S.Sids) → LoopSends ids v (stratum_loop S scope ids v))
      → LoopSends (id ∷ ids) w (
          stratum_round S scope sw model
            (stratum_loop S scope ids)
            (record w { chassis = empty_chassis_config }))
  unfolding stratum_round push_chassis management_of get_stratum_endpoint text_eqb
  round-Sends id ids sw model w there known g k more =
      let start : World S.Sids = record w { chassis = empty_chassis_config } in
      let (u, done) = handle_stratum_switch-ret scope sw model start k g in
      let (name, named, chassis) = handle_stratum_switch_lem scope sw model start u done in
      let secure = flag (lookup (codes "secure-transport") sw.attribute) in
      let (text, encoded) = h.encoded u.chassis in
      let (v, pushed, first) =
        gnmi_push-Sends S h
          (new_gnmi_pusher (g.address ++ (b':' ∷ decimal g.port_number)) [] text [] secure) u in
      let (calls, each, made) = more v in
      let (t, ended, rest) = made in
      (
        gnmi_set_of g.address g.port_number secure text ∷ calls,
        sent id ids sw calls model name g.address g.port_number text there known named
            (ground (arith, g.managed, g.addressed, g.numbered))
            (sym (ap (λ (x : World S.Sids). S.marshal_text x.chassis) chassis) ∙ encoded) each,
        (
          t,
          ground (
            arith,
            secure-flag sw start g,
            done,
            encoded,
            g.identified,
            g.managed,
            g.addressed,
            g.numbered,
            pushed,
            ended,
          ),
          rest
              ∙ ap (λ cs. cs ++ calls) first
              ∙ ap
                  (λ (x : World S.Sids).
                    (x.calls ++ gnmi_set_of g.address g.port_number secure text ∷ []) ++ calls)
                  chassis
              ∙ append_assoc w.calls (gnmi_set_of g.address g.port_number secure text ∷ []) calls,
        ),
      )

  model-Sends :
      (id : Text) (ids : List Text) (sw : Switch) (w : World S.Sids)
      → lookup id scope.fabric.switch ≡ some sw
      → IsFormedSwitch sw
      → ((v : World S.Sids) → LoopSends ids v (stratum_loop S scope ids v))
      → LoopSends (id ∷ ids) w (
          or_skip
            (lookup_switch_model scope.fabric sw.model_id
              (record w { chassis = empty_chassis_config }))
            (λ model. stratum_round S scope sw model (stratum_loop S scope ids))
            (stratum_loop S scope ids))
  unfolding lookup_switch_model text_eqb
  model-Sends id ids sw w there g more =
      let start : World S.Sids = record w { chassis = empty_chassis_config } in
      let (calls, each, sends) = more start in
      let (v, ended, made) = sends in
      elim (Option-cases sw.model_id) [
        | inl e ↦ (
          calls,
          left_out id ids sw calls there (rw e refl) each,
          (v, ground (arith, e, ended), made),
        )
        | inr ([], e) ↦ (
          calls,
          left_out id ids sw calls there (rw e refl) each,
          (v, ground (arith, e, ended), made),
        )
        | inr (c ∷ m, e) ↦ elim (Option-cases (lookup (c ∷ m) scope.fabric.switch_model)) [
          | inl gone ↦ (
            calls,
            left_out id ids sw calls there (rw e gone) each,
            (v, ground (arith, e, gone, ended), made),
          )
          | inr (model, known) ↦
              let (calls', each', sends') =
                round-Sends id ids sw model w there (rw e known) g (f.models (c ∷ m) model known)
                  more in
              let (v', ended', made') = sends' in
              (calls', each', (v', ground (arith, e, known, ended'), made'))
        ]
      ]

  loop-Sends :
      (ids : List Text) (w : World S.Sids)
      → ((k : Text) → listed k ids ≡ true → IsPresent (lookup k scope.fabric.switch))
      → LoopSends ids w (stratum_loop S scope ids w)
  unfolding stratum_loop listed
  loop-Sends [] w present = ([], no_more, (w, refl, sym (append-nil w.calls)))
  loop-Sends (k ∷ ids) w present =
      let (sw, e) = present k (ground (arith, text_eqb_iff k k)) in
      let (calls, each, sends) =
        model-Sends k ids sw w e (f.switches k sw e)
          (λ u. loop-Sends ids u (λ j g. present j (ground (arith, g)))) in
      let (v, ended, made) = sends in (calls, each, (v, ground (arith, e, ended), made))

  pub stratum-Sends :
      (w : World S.Sids)
      → LoopSends
          (sort_strings (keys scope.fabric.switch))
          w
          (synchronize_fabric_to_stratum S scope w)
  unfolding synchronize_fabric_to_stratum
  stratum-Sends w =
      loop-Sends (sort_strings (keys scope.fabric.switch)) w (key_present scope.fabric)
