-- ===== src/Onos/Safe.antt =====
-- `SynchronizeFabricToOnos` (pkg/synchronizer/synchronize-device.go) on a fabric with no nil pointer
-- where it reads through one, with services that answer: it returns no failure and no error.
use fabric_adapter.Base.{
  ◌≡◌, true, Option, none, some, List, [], ◌∷◌, Text, keys, lookup, text_eq, text_eqb, text_eqb_iff,
  ret, arith, All, IsSafe, Ends, raise-IsSafe, bind-IsSafe, deref_then-IsSafe, if-IsSafe,
  for_logged-ret, inl, inr, Option-cases,
}
use fabric_adapter.Fabric.{Route, RootDevice}
use fabric_adapter.Fabric.Formed.{IsPresent, IsFormed}
use fabric_adapter.Json.Maps.{listed-keys}
use fabric_adapter.Sorting.{sort_strings}
use fabric_adapter.Sorting.Keys.{listed, listed-sort_strings}
use fabric_adapter.Lookup.{lookup_switch_model, validate_route}
use fabric_adapter.Switch.Safe.{found-IsSafe, handle_switch-IsSafe}
use fabric_adapter.Onos.{handle_route, onos_switch, build_netconfig}
use fabric_adapter.World.{Services, World, FabricScope}

module _ {ℓ} {W : Type ℓ} where
  switch_model-IsSafe :
      (fabric : RootDevice) (id : Option Text) → IsSafe {W = W} (lookup_switch_model fabric id)
  unfolding lookup_switch_model
  switch_model-IsSafe fabric none = raise-IsSafe _
  switch_model-IsSafe fabric (some id) =
      if-IsSafe _ _ _ (raise-IsSafe _) (found-IsSafe _ (lookup id fabric.switch_model))

module _ (Sids : Type 0) where
  route-Ends :
      (id prefix address : Option Text) (w : World Sids)
      → IsPresent id
      → Ends (handle_route (record { route_id = id; prefix = prefix; address = address }) w)
  unfolding handle_route validate_route text_eqb
  route-Ends none p a w (i, e) = absurd (ground (arith, e))
  route-Ends (some id) none a w h = tt
  route-Ends (some id) (some []) a w h = tt
  route-Ends (some id) (some (c ∷ p)) none w h = tt
  route-Ends (some id) (some (c ∷ p)) (some []) w h = tt
  route-Ends (some id) (some (c ∷ p)) (some (d ∷ a)) w h = tt

  routes-IsSafe :
      (rs : List Route)
      → All (λ (r : Route). IsPresent r.route_id) rs
      → All (λ r. IsSafe {W = World Sids} (handle_route r)) rs
  routes-IsSafe [] h = tt
  routes-IsSafe (r ∷ rs) h =
      (record { ends = λ w. route-Ends r.route_id r.prefix r.address w h.0 }, routes-IsSafe rs h.1)

-- A sorted key of the switches is that of a switch.
pub key_present :
    (fabric : RootDevice) (id : Text)
    → listed id (sort_strings (keys fabric.switch)) ≡ true
    → IsPresent (lookup id fabric.switch)
key_present fabric id h = elim (Option-cases (lookup id fabric.switch)) [
  | inl e ↦ absurd (
      ground
        (arith, e, h, listed-sort_strings id (keys fabric.switch), listed-keys id fabric.switch))
  | inr present ↦ present
]

module _ (S : Services) (sids : (id : Text) → IsSafe (S.sid_get id)) (scope : FabricScope)
    (f : IsFormed scope.fabric) where
  switch-IsSafe :
      (id : Text) → IsPresent (lookup id scope.fabric.switch) → IsSafe (onos_switch S scope id)
  unfolding onos_switch
  switch-IsSafe id (sw, e) = deref_then-IsSafe (lookup id scope.fabric.switch) sw _ e (
      bind-IsSafe _ _ (switch_model-IsSafe scope.fabric sw.model_id)
        (λ model. handle_switch-IsSafe S sids scope sw (f.switches id sw e) model))

  switches-IsSafe :
      (ids : List Text)
      → ((id : Text) → listed id ids ≡ true → IsPresent (lookup id scope.fabric.switch))
      → All (λ id. IsSafe (onos_switch S scope id)) ids
  unfolding listed
  switches-IsSafe [] h = tt
  switches-IsSafe (id ∷ ids) h = (
    switch-IsSafe id (h id (ground (arith, text_eqb_iff id id))),
    switches-IsSafe ids (λ j g. h j (ground (arith, g))),
  )

  -- The network configuration of such a fabric is built.
  pub build_netconfig-ret :
      (w : World S.Sids) → (v : World S.Sids) × (build_netconfig S scope w ≡ ret tt v)
  unfolding build_netconfig
  build_netconfig-ret w =
      let (u, first) =
        for_logged-ret (sort_strings (keys scope.fabric.switch)) (onos_switch S scope) w
          (switches-IsSafe _ (key_present scope.fabric)) in
      let (v, second) =
        for_logged-ret scope.fabric.route handle_route u
          (routes-IsSafe S.Sids scope.fabric.route f.routes) in
      (v, ground (arith, first, second))
