-- ===== src/Device/Kept.antt =====
-- The calls of a fabric (pkg/synchronizer/synchronize-device.go) and the counter of synchronizations,
-- which they keep.
use mathlib.Core.Path.{subst}
use fabric_adapter.Base.{
  ℕ, ◌≡◌, sym, Bool, false, none, Option-cases, Bool-cases, ◌⊎◌, inl, inr, List, [], ◌∷◌, ◌++◌,
  Text, codes, lookup, text_eq, Error, push_failed, no_management, Result, ok, err, Outcome, ret,
  fail, panic, Go, pure, deref, lift, gets, modify, ◌>>◌, continue, logged, After, After-continue,
  After-logged, Keeps, keeps, Keeps-bind, Keeps-deref, Keeps-lift, Keeps-modify, Keeps-for_logged,
  arith,
}
use fabric_adapter.Fabric.{Switch, SwitchModel, Port}
use fabric_adapter.Chassis.{empty_chassis_config}
use fabric_adapter.Lookup.{lookup_switch_model}
use fabric_adapter.Switch.{management_of}
use fabric_adapter.Switch.Writes.{Keeps-required, Keeps-lookup_switch_model_port}
use fabric_adapter.Stratum.{
  with_chassis, on_chassis, handle_stratum_switch_port, handle_stratum_switch, use_secure_transport,
}
use fabric_adapter.Stratum.Ports.{Keeps-port_speed}
use fabric_adapter.Strconv.{parse_bool}
use fabric_adapter.Pusher.{
  GnmiPusher, new_rest_pusher, update_request, rest_push_update, gnmi_push_update, set_answer,
  set_request, record_call, new_gnmi_pusher,
}
use fabric_adapter.Pusher.Answers.{Keeps-send}
use fabric_adapter.Netcfg.Encode.{marshal_indent}
use fabric_adapter.Onos.{
  Pushes, or_failures, onos_url, update_cache, unchanged, push_to, send_netconfig, push_netconfig,
  synchronize_fabric_to_onos,
}
use fabric_adapter.Switch.Writes.{Keeps-handle_switch}
use fabric_adapter.Onos.Invariants.{Keeps-build_netconfig, Keeps-lookup_switch_model}
use fabric_adapter.Device.{stratum_uri, or_skip, push_chassis, stratum_round, stratum_loop}
use fabric_adapter.World.{Services, World, FabricScope, Config, gnmi_call}

module _ {W : Type 0} (P : W → Type 0) where
  After-or_failures :
      (n : ℕ) (f : Error → Error) (o : Outcome W (Unit {0})) (k : Go W Pushes)
      → After P o
      → Keeps P k
      → After P (or_failures n f o k)
  After-or_failures n f (ret u w) k h g = g.after w h
  After-or_failures n f (fail e w) k h g = h
  After-or_failures n f panic k h g = tt

  After-or_skip {κ} :
      {A : Type κ} (o : Outcome W A) (body : A → Go W Pushes) (next : Go W Pushes)
      → After P o
      → ((a : A) → Keeps P (body a))
      → Keeps P next
      → After P (or_skip o body next)
  After-or_skip (ret a w) body next h g k = (g a).after w h
  After-or_skip (fail e w) body next h g k = k.after w h
  After-or_skip panic body next h g k = tt

  transport_cases :
      (sw : Switch) (w : W)
      → (use_secure_transport sw w ≡ panic) ⊎ ((b : Bool) × (use_secure_transport sw w ≡ ret b w))
  unfolding use_secure_transport
  transport_cases sw w = elim (Option-cases (lookup (codes "secure-transport") sw.attribute)) [
    | inl e ↦ inr (false, ground (arith, e))
    | inr (attribute, e) ↦ elim (Option-cases attribute.value) [
      | inl f ↦ inl (ground (arith, e, f))
      | inr (value, f) ↦ elim (Option-cases (parse_bool value)) [
        | inl g ↦ inr (false, ground (arith, e, f, g))
        | inr (b, g) ↦ inr (b, ground (arith, e, f, g))
      ]
    ]
  ]

  Keeps-use_secure_transport : (sw : Switch) → Keeps P (use_secure_transport sw)
  Keeps-use_secure_transport sw = keeps (λ w h. elim (transport_cases sw w) [
    | inl e ↦ subst (After P) (sym e) tt
    | inr (b, e) ↦ subst (After P) (sym e) h
  ])

  Keeps-stratum_uri : (sw : Switch) → Keeps P (stratum_uri sw)
  unfolding stratum_uri
  Keeps-stratum_uri sw = Keeps-bind P _ _ (Keeps-deref P sw.management) (λ m.
      Keeps-bind P _ _ (Keeps-deref P m.address)
        (λ address. Keeps-bind P _ _ (Keeps-deref P m.port_number) (λ port. keeps (λ w h. h))))

module _ (S : Services) (count : List Text) where
  abbrev pub HasCount : World S.Sids → Type 0
  HasCount w = w.kpi_total ≡ count

  Keeps-push_to :
      (scope : FabricScope) (endpoint body : Text) → Keeps HasCount (push_to S scope endpoint body)
  unfolding push_to rest_push_update
  Keeps-push_to scope endpoint body =
      Keeps-bind HasCount _ _ (Keeps-deref HasCount scope.onos_username) (λ name.
        Keeps-bind HasCount _ _ (Keeps-deref HasCount scope.onos_password) (λ word. keeps (λ w h.
          After-or_failures HasCount 1 (push_failed scope.fabric_id)
            (rest_push_update S (new_rest_pusher (onos_url endpoint) name word body) w)
            (modify (update_cache S scope.fabric_id) >> pure (0, none))
            ((Keeps-send S HasCount
                (update_request (new_rest_pusher (onos_url endpoint) name word body))
                (λ c v g. g)).after
              w h)
            (keeps (λ v g. g)))))

  Keeps-send_netconfig :
      (scope : FabricScope) (r : Result Text) → Keeps HasCount (send_netconfig S scope r)
  unfolding send_netconfig
  Keeps-send_netconfig scope (err e) = keeps (λ w h. h)
  Keeps-send_netconfig scope (ok body) = elim (Option-cases scope.onos_endpoint) [
    | inl e ↦ rw e (keeps (λ w h. h))
    | inr (endpoint, e) ↦ rw e (Keeps-push_to scope endpoint body)
  ]

  push_netconfig-HasCount :
      (config : Config) (scope : FabricScope) (w : World S.Sids)
      → HasCount w
      → After HasCount (push_netconfig S config scope w)
  unfolding push_netconfig
  push_netconfig-HasCount config scope w h =
      elim (Bool-cases (unchanged S config scope.fabric_id w)) [
        | inl e ↦ rw e h
        | inr e ↦ rw e ((Keeps-send_netconfig scope (marshal_indent w.net_config)).after w h)
      ]

  pub Keeps-onos :
      (config : Config) (scope : FabricScope)
      → Keeps HasCount (synchronize_fabric_to_onos S config scope)
  unfolding synchronize_fabric_to_onos
  Keeps-onos config scope =
      Keeps-bind HasCount _ _
        (Keeps-build_netconfig S HasCount scope
          (Keeps-handle_switch S HasCount
            (record {
              port_written = λ key p v h. h;
              device_written = λ key d v h. h;
              sids_written = λ s v h. h;
              next_ip_written = λ n v h. h;
            })
            scope)
          (λ r v h. h))
        (λ _. keeps (push_netconfig-HasCount config scope))

  Keeps-stratum_port :
      (model : SwitchModel) (p : Port)
      → Keeps HasCount (handle_stratum_switch_port {Sids = S.Sids} model p)
  unfolding handle_stratum_switch_port
  Keeps-stratum_port model p =
      Keeps-bind HasCount _ _ (Keeps-lookup_switch_model_port HasCount model p.cage_number) (λ _.
        Keeps-bind HasCount _ _ (Keeps-port_speed HasCount model p.speed) (λ (t, bps).
          Keeps-bind HasCount _ _ (Keeps-deref HasCount p.cage_number) (λ port.
            Keeps-bind HasCount _ _ (Keeps-deref HasCount p.channel_number)
              (λ channel. Keeps-modify HasCount _ (λ w h. h)))))

  Keeps-stratum_switch :
      (scope : FabricScope) (sw : Switch) (model : SwitchModel)
      → Keeps HasCount (handle_stratum_switch {Sids = S.Sids} scope sw model)
  unfolding handle_stratum_switch
  Keeps-stratum_switch scope sw model =
      Keeps-bind HasCount _ _ (Keeps-deref HasCount sw.switch_id) (λ id.
        Keeps-bind HasCount _ _
          (Keeps-required HasCount (no_management scope.fabric_id id) (management_of sw.management))
          (λ _. Keeps-bind HasCount _ _ (Keeps-deref HasCount sw.display_name) (λ name.
            Keeps-bind HasCount _ _
              (Keeps-modify HasCount (λ w. record w { chassis = with_chassis name w.chassis })
                (λ w h. h))
              (λ _. Keeps-for_logged HasCount sw.port _ (Keeps-stratum_port model)))))

  Keeps-gnmi_push : (p : GnmiPusher) → Keeps HasCount (gnmi_push_update S p)
  unfolding gnmi_push_update record_call
  Keeps-gnmi_push p = Keeps-bind HasCount (gets (λ w. w.calls)) _ (keeps (λ w h. h)) (λ before.
      Keeps-bind HasCount _ _
        (Keeps-modify HasCount
          (λ w. record w {
            calls = w.calls ++ gnmi_call p.endpoint p.target p.secure (set_request p) ∷ [];
          })
          (λ w h. h))
        (λ _. Keeps-lift HasCount (
          set_answer S.error_text p.endpoint
            (S.gnmi_set before p.endpoint p.target p.secure (set_request p)))))

  Keeps-push_chassis :
      (sw : Switch) (secure : Bool) (proto : Text) → Keeps HasCount (push_chassis S sw secure proto)
  unfolding push_chassis
  Keeps-push_chassis sw secure proto =
      Keeps-bind HasCount _ _ (Keeps-deref HasCount sw.switch_id) (λ id.
        Keeps-bind HasCount _ _ (Keeps-stratum_uri HasCount sw)
          (λ uri. Keeps-gnmi_push (new_gnmi_pusher uri [] proto [] secure)))

  Keeps-stratum_round :
      (scope : FabricScope) (sw : Switch) (model : SwitchModel) (next : Go (World S.Sids) Pushes)
      → Keeps HasCount next
      → Keeps HasCount (stratum_round S scope sw model next)
  unfolding stratum_round
  Keeps-stratum_round scope sw model next k =
      Keeps-bind HasCount _ _ (Keeps-use_secure_transport HasCount sw) (λ secure.
        Keeps-bind HasCount (λ w. logged (handle_stratum_switch scope sw model w)) _
          (keeps (λ w h. After-logged HasCount _ ((Keeps-stratum_switch scope sw model).after w h)))
          (λ _.
            Keeps-bind HasCount (gets (λ w. S.marshal_text w.chassis)) _ (keeps (λ w h. h))
              (λ encoded. keeps (λ w h.
                After-or_failures HasCount 1 (λ e. e)
                  (continue (lift encoded w) (push_chassis S sw secure)) next
                  (After-continue HasCount (lift encoded w) (push_chassis S sw secure)
                    ((Keeps-lift HasCount encoded).after w h) (Keeps-push_chassis sw secure))
                  k))))

  pub Keeps-stratum_loop :
      (scope : FabricScope) (ids : List Text) → Keeps HasCount (stratum_loop S scope ids)
  unfolding stratum_loop
  Keeps-stratum_loop scope [] = keeps (λ w h. h)
  Keeps-stratum_loop scope (id ∷ ids) =
      Keeps-bind HasCount
        (on_chassis (λ c. empty_chassis_config) >> deref (lookup id scope.fabric.switch)) _
        (Keeps-bind HasCount (on_chassis (λ c. empty_chassis_config)) _ (keeps (λ w h. h))
          (λ _. Keeps-deref HasCount (lookup id scope.fabric.switch)))
        (λ sw. keeps (λ w h.
          After-or_skip HasCount (lookup_switch_model scope.fabric sw.model_id w)
            (λ model. stratum_round S scope sw model (stratum_loop S scope ids))
            (stratum_loop S scope ids)
            ((Keeps-lookup_switch_model HasCount scope.fabric sw.model_id).after w h)
            (λ model.
              Keeps-stratum_round scope sw model (stratum_loop S scope ids)
                (Keeps-stratum_loop scope ids))
            (Keeps-stratum_loop scope ids)))
