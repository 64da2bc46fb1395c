-- ===== src/Device/Failures.antt =====
-- The count of failed pushes that `SynchronizeDevice` (pkg/synchronizer/synchronize-device.go) returns,
-- and the error beside it.
use fabric_adapter.Base.{
  ℕ, suc, ◌+◌, ◌*◌, ◌≤◌, ◌≡◌, refl, Option, none, some, List, [], ◌∷◌, Text, Dict, keys, lookup,
  text_eq, length, Error, push_failed, Result, ok, err, Outcome, ret, fail, panic, Go, continue,
  deref, lift, modify, pure, ◌>>=◌, ◌>>◌, arith, Option-cases, logged, inl, inr, Bool-cases,
}
use mathlib.Core.Path.{subst}
use fabric_adapter.Fabric.{Switch, SwitchModel, RootDevice}
use fabric_adapter.Stratum.{on_chassis, use_secure_transport, handle_stratum_switch}
use fabric_adapter.Sorting.{sort_strings}
use fabric_adapter.Chassis.{empty_chassis_config}
use fabric_adapter.Lookup.{lookup_switch_model}
use fabric_adapter.Pusher.{new_rest_pusher, rest_push_update}
use fabric_adapter.Netcfg.Encode.{marshal_indent}
use fabric_adapter.Onos.{
  Pushes, or_failures, onos_url, update_cache, unchanged, push_to, send_netconfig, push_netconfig,
  build_netconfig, synchronize_fabric_to_onos,
}
use fabric_adapter.Device.{
  or_skip, or_error, push_chassis, stratum_round, stratum_loop, synchronize_fabric_to_stratum,
  lookup_fabric_controller_info, start_fabric, new_scope, controller_uri, synchronize_fabric,
  synchronize_device,
}
use fabric_adapter.World.{Services, World, FabricScope, Config}

-- what a call returns, if it returns
abbrev pub Returns {ℓ κ μ} : {W : Type ℓ} {A : Type κ} → (A → Type μ) → Outcome W A → Type μ
Returns Q (ret a w) = Q a
Returns Q (fail e w) = Unit {μ}
Returns Q panic = Unit {μ}

module _ {ℓ κ λ' μ} {W : Type ℓ} {A : Type κ} {B : Type λ'} (Q : B → Type μ) where
  Returns-continue :
      (o : Outcome W A) (f : A → Go W B)
      → ((a : A) (w : W) → Returns Q (f a w))
      → Returns Q (continue o f)
  Returns-continue (ret a w) f k = k a w
  Returns-continue (fail e w) f k = tt
  Returns-continue panic f k = tt

abbrev pub AtMostOne : Pushes → Type 0
AtMostOne p = p.0 ≤ 1

none_failed : 0 ≤ 1
none_failed = omega arith

module _ {ℓ} {W : Type ℓ} where
  or_failures-AtMostOne :
      (f : Error → Error) (o : Outcome W (Unit {0})) (k : Go W Pushes)
      → ((w : W) → Returns AtMostOne (k w))
      → Returns AtMostOne (or_failures 1 f o k)
  or_failures-AtMostOne f (ret u w) k h = h w
  or_failures-AtMostOne f (fail e w) k h = omega arith
  or_failures-AtMostOne f panic k h = tt

  or_skip-AtMostOne {κ} :
      {A : Type κ} (o : Outcome W A) (body : A → Go W Pushes) (next : Go W Pushes)
      → ((a : A) (w : W) → Returns AtMostOne (body a w))
      → ((w : W) → Returns AtMostOne (next w))
      → Returns AtMostOne (or_skip o body next)
  or_skip-AtMostOne (ret a w) body next h k = h a w
  or_skip-AtMostOne (fail e w) body next h k = k w
  or_skip-AtMostOne panic body next h k = tt

module _ (S : Services) (scope : FabricScope) where
  push_to-AtMostOne :
      (endpoint body : Text) (w : World S.Sids)
      → Returns AtMostOne (push_to S scope endpoint body w)
  unfolding push_to
  push_to-AtMostOne endpoint body w =
      Returns-continue AtMostOne (deref scope.onos_username w) _ (λ name v.
        Returns-continue AtMostOne (deref scope.onos_password v) _ (λ word u.
          or_failures-AtMostOne (push_failed scope.fabric_id)
            (rest_push_update S (new_rest_pusher (onos_url endpoint) name word body) u)
            (modify (update_cache S scope.fabric_id) >> pure (0, none)) (λ t. none_failed)))

  send_netconfig-AtMostOne :
      (r : Result Text) (w : World S.Sids) → Returns AtMostOne (send_netconfig S scope r w)
  unfolding send_netconfig
  send_netconfig-AtMostOne (err e) w = omega arith
  send_netconfig-AtMostOne (ok body) w = elim (Option-cases scope.onos_endpoint) [
    | inl e ↦ rw e (omega arith)
    | inr (endpoint, e) ↦ rw e (push_to-AtMostOne endpoint body w)
  ]

  push_netconfig-AtMostOne :
      (config : Config) (w : World S.Sids) → Returns AtMostOne (push_netconfig S config scope w)
  unfolding push_netconfig
  push_netconfig-AtMostOne config w = elim (Bool-cases (unchanged S config scope.fabric_id w)) [
    | inl e ↦ rw e (omega arith)
    | inr e ↦ rw e (send_netconfig-AtMostOne (marshal_indent w.net_config) w)
  ]

  onos-AtMostOne :
      (config : Config) (w : World S.Sids)
      → Returns AtMostOne (synchronize_fabric_to_onos S config scope w)
  unfolding synchronize_fabric_to_onos
  onos-AtMostOne config w =
      Returns-continue AtMostOne (build_netconfig S scope w) _
        (λ _ v. push_netconfig-AtMostOne config v)

  stratum_round-AtMostOne :
      (sw : Switch) (model : SwitchModel) (next : Go (World S.Sids) Pushes) (w : World S.Sids)
      → ((v : World S.Sids) → Returns AtMostOne (next v))
      → Returns AtMostOne (stratum_round S scope sw model next w)
  unfolding stratum_round
  stratum_round-AtMostOne sw model next w h =
      Returns-continue AtMostOne (use_secure_transport sw w) _ (λ secure v.
        Returns-continue AtMostOne (logged (handle_stratum_switch scope sw model v)) _ (λ _ u.
          or_failures-AtMostOne (λ e. e)
            (continue (lift (S.marshal_text u.chassis) u) (push_chassis S sw secure)) next h))

  stratum_loop-AtMostOne :
      (ids : List Text) (w : World S.Sids) → Returns AtMostOne (stratum_loop S scope ids w)
  unfolding stratum_loop
  stratum_loop-AtMostOne [] w = omega arith
  stratum_loop-AtMostOne (id ∷ ids) w =
      Returns-continue AtMostOne
        (continue (on_chassis (λ c. empty_chassis_config) w)
          (λ _. deref (lookup id scope.fabric.switch)))
        _
        (λ sw v.
          or_skip-AtMostOne (lookup_switch_model scope.fabric sw.model_id v)
            (λ model. stratum_round S scope sw model (stratum_loop S scope ids))
            (stratum_loop S scope ids)
            (λ model u.
              stratum_round-AtMostOne sw model (stratum_loop S scope ids) u
                (stratum_loop-AtMostOne ids))
            (stratum_loop-AtMostOne ids))

second_count {ℓ} :
    {W : Type ℓ} (a : Pushes) (o : Outcome W Pushes)
    → AtMostOne a
    → Returns AtMostOne o
    → Returns (λ n. n ≤ 2) (continue o (λ b. pure (a.0 + b.0)))
second_count a (ret b w) h g = omega arith
second_count a (fail e w) h g = tt
second_count a panic h g = tt

two_counts {ℓ} :
    {W : Type ℓ} (o : Outcome W Pushes) (k : Go W Pushes)
    → Returns AtMostOne o
    → ((w : W) → Returns AtMostOne (k w))
    → Returns (λ n. n ≤ 2) (continue o (λ a. k >>= λ b. pure (a.0 + b.0)))
two_counts (ret a w) k h g = second_count a (k w) h (g w)
two_counts (fail e w) k h g = tt
two_counts panic k h g = tt

-- The result of `SynchronizeDevice`: a count within the bound without an error, the count 0 with one.
abbrev pub Counts : ℕ → Pushes → Type 0
Counts bound (n, none) = n ≤ bound
Counts bound (n, some e) = n ≡ 0

module _ (S : Services) (config : Config) where
  synchronize_fabric-two :
      (fabric_id : Text) (fabric : RootDevice) (w : World S.Sids)
      → Returns (λ n. n ≤ 2) (synchronize_fabric S config fabric_id fabric w)
  unfolding synchronize_fabric synchronize_fabric_to_stratum
  synchronize_fabric-two fabric_id fabric w =
      Returns-continue (λ n. n ≤ 2) (lookup_fabric_controller_info S config fabric_id w) _
        (λ (address, port, info) v.
          let scope = new_scope fabric_id fabric (controller_uri address port) info in
          two_counts _ _ (onos-AtMostOne S scope config (start_fabric S fabric_id v))
            (λ u. stratum_loop-AtMostOne S scope (sort_strings (keys fabric.switch)) u))

  weaken :
      (m n : ℕ)
      → m ≤ n
      → (o : Outcome (World S.Sids) Pushes) → Returns (Counts m) o
      → Returns (Counts n) o
  weaken m n h (ret (k, none) w) g = omega arith
  weaken m n h (ret (k, some e) w) g = g
  weaken m n h (fail e w) g = tt
  weaken m n h panic g = tt

  or_error-Counts :
      (o : Outcome (World S.Sids) ℕ) (next : ℕ → Go (World S.Sids) Pushes) (total fabrics : ℕ)
      → Returns (λ n. n ≤ 2) o
      → ((n : ℕ) (w : World S.Sids) → Returns (Counts (total + n + 2 * fabrics)) (next n w))
      → Returns (Counts (total + 2 * suc fabrics)) (or_error o next)
  or_error-Counts (ret n w) next total fabrics h k =
      weaken (total + n + 2 * fabrics) (total + 2 * suc fabrics) (omega arith) (next n w) (k n w)
  or_error-Counts (fail e w) next total fabrics h k = refl
  or_error-Counts panic next total fabrics h k = tt

  loop-Counts :
      (total : ℕ) (configs : Dict Text RootDevice) (w : World S.Sids)
      → Returns (Counts (total + 2 * length configs)) (synchronize_device S config total configs w)
  unfolding synchronize_device
  loop-Counts total [] w = omega arith
  loop-Counts total ((fabric_id, fabric) ∷ configs) w =
      or_error-Counts (synchronize_fabric S config fabric_id fabric w) _ total (length configs)
        (synchronize_fabric-two fabric_id fabric w) (λ n v. loop-Counts (total + n) configs v)

  at_end :
      (bound : ℕ) {n : ℕ} {x : Option Error} {w : World S.Sids} (o : Outcome (World S.Sids) Pushes)
      → o ≡ ret (n, x) w
      → Returns (Counts bound) o
      → Counts bound (n, x)
  at_end bound o e h = subst (Returns (Counts bound)) e h

  -- SynchronizeDevice returns, without an error, at most two failed pushes for each fabric, and
  -- with an error the count 0.
  pub synchronize_device-Counts :
      (configs : Dict Text RootDevice) (w w' : World S.Sids) (n : ℕ) (x : Option Error)
      → synchronize_device S config 0 configs w ≡ ret (n, x) w'
      → Counts (2 * length configs) (n, x)
  synchronize_device-Counts configs w w' n none e =
      omega (arith, at_end (0 + 2 * length configs) _ e (loop-Counts 0 configs w))
  synchronize_device-Counts configs w w' n (some y) e =
      at_end (0 + 2 * length configs) _ e (loop-Counts 0 configs w)
