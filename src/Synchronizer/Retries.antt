-- ===== src/Synchronizer/Retries.antt =====
-- The loop of `SynchronizeAndRetry` (pkg/synchronizer/synchronizer.go) against a relation that says
-- what its rounds are.
use fabric_adapter.Base.{
  ℕ, zero, suc, ◌<◌, ◌≡◌, refl, true, false, none, some, ◌⊎◌, inl, inr, Error, Outcome, ret, fail,
  panic, arith, Bool-cases, ◌∙◌, sym, ◌↔◌,
}
use mathlib.Core.Path.{subst₂}
use fabric_adapter.Onos.{Pushes}
use fabric_adapter.Synchronizer.{
  Ending, obsoleted, success, fatal, ended, crashed, Environment, synchronize_and_retry,
}

module _ {W : Type 0} (env : Environment W) where
  open env use {pending, synchronize_device, sleep}

  -- A round that is tried again: nothing newer waits, and the call counts failed pushes with no error.
  pub data Round (w v : W) : Type 0 where
    again :
        (n : ℕ) (w' : W)
        → pending w ≡ false
        → synchronize_device w ≡ ret (suc n, none) w'
        → v ≡ sleep w'
        → Round w v

  pub data Rounds : ℕ → W → W → Type 0 where
    start : (w : W) → Rounds zero w w
    more : (k : ℕ) (w v u : W) → Round w v → Rounds k v u → Rounds (suc k) w u

  -- What ends the loop in a state: a newer update, a call that pushed everything, or an error.
  pub data Stops (w : W) : Ending → W → Type 0 where
    newer : pending w ≡ true → Stops w obsoleted w
    pushed :
        (w' : W) → pending w ≡ false → synchronize_device w ≡ ret (0, none) w' → Stops w success w'
    error :
        (n : ℕ) (e : Error) (w' : W)
        → pending w ≡ false
        → (synchronize_device w ≡ ret (n, some e) w') ⊎ (synchronize_device w ≡ fail e w')
        → Stops w (fatal e) w'

  pub stop_at :
      {w v : W} {x : Ending} (f : ℕ) → Stops w x v → synchronize_and_retry env (suc f) w ≡ ended x v
  unfolding synchronize_and_retry
  stop_at f (newer p) = ground arith
  stop_at f (pushed w' p e) = ground arith
  stop_at f (error n x w' p (inl e)) = ground arith
  stop_at f (error n x w' p (inr e)) = ground arith

  pub synchronize_and_retry-Round :
      {w v : W} (f : ℕ)
      → Round w v
      → synchronize_and_retry env (suc f) w ≡ synchronize_and_retry env f v
  unfolding synchronize_and_retry
  synchronize_and_retry-Round f (again n w' p e q) = ground arith

  -- Enough rounds: after `k` rounds that are tried again, one more ends the loop.
  rounds_end :
      (f : ℕ) {k : ℕ} {w v u : W} {x : Ending}
      → Rounds k w v
      → Stops v x u
      → k < f
      → synchronize_and_retry env f w ≡ ended x u
  rounds_end zero r s h = absurd (omega arith)
  rounds_end (suc f) (start w) s h = stop_at f s
  rounds_end (suc f) (more k w v u r rs) s h =
      synchronize_and_retry-Round f r ∙ rounds_end f rs s (omega arith)

  abbrev Ran : ℕ → W → Ending → W → Type 0
  Ran f w x u = (k : ℕ) × (v : W) × (k < f) × Rounds k w v × Stops v x u

  -- What one round does, by its test and its call.
  data Turn (w : W) (f : ℕ) : Type 0 where
    stops : (x : Ending) (v : W) → Stops w x v → Turn w f
    goes_on : (v : W) → Round w v → Turn w f
    crashes :
        synchronize_device w ≡ panic → synchronize_and_retry env (suc f) w ≡ crashed → Turn w f

  outcome-Turn :
      (w : W) (f : ℕ) (o : Outcome W Pushes)
      → pending w ≡ false
      → synchronize_device w ≡ o
      → Turn w f
  unfolding synchronize_and_retry
  outcome-Turn w f panic p e = crashes e (ground arith)
  outcome-Turn w f (fail x v) p e = stops (fatal x) v (error 0 x v p (inr e))
  outcome-Turn w f (ret (n, some x) v) p e = stops (fatal x) v (error n x v p (inl e))
  outcome-Turn w f (ret (zero, none) v) p e = stops success v (pushed v p e)
  outcome-Turn w f (ret (suc n, none) v) p e = goes_on (sleep v) (again n v p e refl)

  turn : (w : W) (f : ℕ) → Turn w f
  turn w f = elim (Bool-cases (pending w)) [
    | inl p ↦ stops obsoleted w (newer p)
    | inr p ↦ outcome-Turn w f (synchronize_device w) p refl
  ]

  ended-injective : {x y : Ending} {v u : W} → ended x v ≡ ended y u → (x ≡ y) × (v ≡ u)
  ended-injective e = ground arith

  rounds_of_end :
      (f : ℕ) (w : W) {x : Ending} {u : W} → synchronize_and_retry env f w ≡ ended x u → Ran f w x u
  rounds_of_end zero w e = unfold synchronize_and_retry in cc
  rounds_of_end (suc f) w {x} {u} e = elim (turn w f) [
    | stops y v s ↦
        let (same, there) = ended-injective (sym (stop_at f s) ∙ e) in
        (0, w, omega arith, start w, subst₂ (Stops w) same there s)
    | crashes p c ↦ absurd (cc (c, e))
    | goes_on v r ↦
        let (k, t, h, rs, s) = rounds_of_end f v (sym (synchronize_and_retry-Round f r) ∙ e) in
        (suc k, t, omega arith, more k w v t r rs, s)
  ]

  -- SynchronizeAndRetry ends with an outcome within a number of rounds exactly when, after fewer
  -- rounds that count failed pushes with no error and nothing newer waiting, a state is reached
  -- that ends it so: a newer update, an error, or a call with no failures.
  pub retry_iff :
      (f : ℕ) (w u : W) (x : Ending)
      → (synchronize_and_retry env f w ≡ ended x u)
        ↔ ((k : ℕ) × (v : W) × (k < f) × Rounds k w v × Stops v x u)
  retry_iff f w u x = (rounds_of_end f w, λ r. rounds_end f r.3 r.4 r.2)
