-- ===== src/Onos/Resend.antt =====
-- The push of a network configuration, the second half of `SynchronizeFabricToOnos`
-- (pkg/synchronizer/synchronize-device.go), against the cache.
use fabric_adapter.Base.{
  ℕ, ◌≡◌, refl, true, none, some, Text, text_eqb_iff, Error, push_failed, Result, ok, err, Outcome,
  ret, fail, panic, arith, Bool-cases, inl, inr, After, Option-cases, zero, suc, sym, modify, pure,
  ◌>>◌,
}
use fabric_adapter.Netcfg.Reflexive.{IsNetConfig, deep_equal_refl}
use fabric_adapter.Cache.{cache_model_net_config}
use fabric_adapter.Cache.Contents.{cache_check-cache_update}
use fabric_adapter.Pusher.{rest_push_update, new_rest_pusher, RestPusher, update_request}
use fabric_adapter.Pusher.Answers.{Keeps-send}
use mathlib.Core.Path.{subst}
use fabric_adapter.Netcfg.Encode.{marshal_indent}
use fabric_adapter.Onos.{
  Pushes, unchanged, update_cache, push_to, send_netconfig, push_netconfig, onos_url, or_failures,
}
use fabric_adapter.World.{Services, World, FabricScope, Config}

module _ (S : Services) (config : Config) (scope : FabricScope) where
  -- What an update of the cache is for: the next push finds the configuration in it.
  cached_unchanged :
      (w : World S.Sids)
      → config.partial_update_enable ≡ true
      → IsNetConfig w.net_config
      → unchanged S config scope.fabric_id (update_cache S scope.fabric_id w) ≡ true
  unfolding unchanged
  cached_unchanged w p h = ground (
    arith,
    cache_check-cache_update cache_model_net_config scope.fabric_id scope.fabric_id w.net_config
        w.net_config w.cache,
    text_eqb_iff scope.fabric_id scope.fabric_id,
    deep_equal_refl w.net_config h,
  )

  -- The REST push leaves the configuration and the cache alone.
  abbrev SameConfig : World S.Sids → World S.Sids → Type 0
  SameConfig w v = (v.net_config ≡ w.net_config) × (v.cache ≡ w.cache)

  rest_push_same :
      (p : RestPusher) (w : World S.Sids) → After (SameConfig w) (rest_push_update S p w)
  unfolding rest_push_update
  rest_push_same p w =
      (Keeps-send S (SameConfig w) (update_request p) (λ c v h. h)).after w (refl, refl)

  -- How a push ends, by the outcome of the REST push.
  abbrev Ends : World S.Sids → Outcome (World S.Sids) Pushes → Type 0
  Ends w (ret (n, some e) v) = v.cache ≡ w.cache
  Ends w (ret (zero, none) v) =
      (v' : World S.Sids) × (v ≡ update_cache S scope.fabric_id v') × (v'.net_config ≡ w.net_config)
  Ends w (ret (suc n, none) v) = ⊥
  Ends w (fail e v) = ⊥
  Ends w panic = Unit {0}

  push_of_outcome :
      (w : World S.Sids) (o : Outcome (World S.Sids) (Unit {0}))
      → After (SameConfig w) o
      → Ends w (
          or_failures 1
            (push_failed scope.fabric_id)
            o
            (modify (update_cache S scope.fabric_id) >> pure (0, none)))
  push_of_outcome w (ret u v) h = (v, refl, h.0)
  push_of_outcome w (fail e v) h = h.1
  push_of_outcome w panic h = tt

  push_to-Ends :
      (endpoint body : Text) (w : World S.Sids) → Ends w (push_to S scope endpoint body w)
  unfolding push_to
  push_to-Ends endpoint body w = elim (Option-cases scope.onos_username) [
    | inl e ↦ rw e tt
    | inr (name, e) ↦ elim (Option-cases scope.onos_password) [
      | inl f ↦ rw (e, f) tt
      | inr (word, f) ↦
          rw (e, f)
            (push_of_outcome w _
              (rest_push_same (new_rest_pusher (onos_url endpoint) name word body) w))
    ]
  ]

  send_netconfig-Ends : (r : Result Text) (w : World S.Sids) → Ends w (send_netconfig S scope r w)
  unfolding send_netconfig
  send_netconfig-Ends (err e) w = refl
  send_netconfig-Ends (ok body) w = elim (Option-cases scope.onos_endpoint) [
    | inl e ↦ rw e refl
    | inr (endpoint, e) ↦ rw e (push_to-Ends endpoint body w)
  ]

  send_success :
      (w w' : World S.Sids)
      → send_netconfig S scope (marshal_indent w.net_config) w ≡ ret (0, none) w'
      → (v : World S.Sids) × (w' ≡ update_cache S scope.fabric_id v) × (v.net_config ≡ w.net_config)
  send_success w w' e = subst (Ends w) e (send_netconfig-Ends (marshal_indent w.net_config) w)

  send_error :
      (w w' : World S.Sids) (n : ℕ) (x : Error)
      → send_netconfig S scope (marshal_indent w.net_config) w ≡ ret (n, some x) w'
      → w'.cache ≡ w.cache
  send_error w w' n x e = subst (Ends w) e (send_netconfig-Ends (marshal_indent w.net_config) w)

  unchanged_skips :
      (w : World S.Sids)
      → unchanged S config scope.fabric_id w ≡ true
      → push_netconfig S config scope w ≡ ret (0, none) w
  unfolding push_netconfig
  unchanged_skips w e = rw e refl

  -- With partial updates on, a configuration with each key once whose push ended with no failure
  -- and no error is not sent again: the next push returns the same and leaves the state as it is.
  pub push_netconfig-again :
      (w w' : World S.Sids)
      → config.partial_update_enable ≡ true
      → IsNetConfig w.net_config
      → push_netconfig S config scope w ≡ ret (0, none) w'
      → push_netconfig S config scope w' ≡ ret (0, none) w'
  unfolding push_netconfig
  push_netconfig-again w w' p h e = elim (Bool-cases (unchanged S config scope.fabric_id w)) [
    | inl same ↦ ground (arith, same, e)
    | inr new ↦
        let (v, there, kept) = send_success w w' (ground (arith, new, e)) in
        subst (λ u. push_netconfig S config scope u ≡ ret (0, none) u) (sym there)
          (unchanged_skips (update_cache S scope.fabric_id v)
            (cached_unchanged v p (subst IsNetConfig (sym kept) h)))
  ]

  -- A push that ends with an error leaves the cache as it was, so that the configuration counts
  -- as not sent.
  pub push_netconfig-error :
      (w w' : World S.Sids) (n : ℕ) (x : Error)
      → push_netconfig S config scope w ≡ ret (n, some x) w'
      → w'.cache ≡ w.cache
  unfolding push_netconfig
  push_netconfig-error w w' n x e = elim (Bool-cases (unchanged S config scope.fabric_id w)) [
    | inl same ↦ absurd (ground (arith, same, e))
    | inr new ↦ send_error w w' n x (ground (arith, new, e))
  ]
