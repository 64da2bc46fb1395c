-- ===== src/Base/Inversion.antt =====
-- From the end of a Go call back to the ends of its parts.
use mathlib.Core.Path.{◌≡◌, refl}
use mathlib.Core.Logic.{◌⊎◌, inl, inr}
use mathlib.Core.Option.{Option, none, some}
use mathlib.Core.List.{List, [], ◌∷◌}
use native.Mathlib.Omega.{arith}
use fabric_adapter.Base.Effects.{
  Error, Outcome, ret, fail, panic, Go, deref, continue, ◌>>=◌, logged, for_logged, embed, zoom,
  wrapped, wrap_err,
}

module _ {ℓ κ μ} {W : Type ℓ} {A : Type κ} {B : Type μ} where
  continue-ret :
      (o : Outcome W A) (f : A → Go W B) {b : B} {v : W}
      → continue o f ≡ ret b v
      → (a : A) × (u : W) × (o ≡ ret a u) × (f a u ≡ ret b v)
  continue-ret (ret a u) f e = (a, u, refl, e)
  continue-ret (fail x u) f e = absurd (ground arith)
  continue-ret panic f e = absurd (ground arith)

  continue-fail :
      (o : Outcome W A) (f : A → Go W B) {x : Error} {v : W}
      → continue o f ≡ fail x v
      → (o ≡ fail x v) ⊎ ((a : A) × (u : W) × (o ≡ ret a u) × (f a u ≡ fail x v))
  continue-fail (ret a u) f e = inr (a, u, refl, e)
  continue-fail (fail x u) f e = inl (ground arith)
  continue-fail panic f e = absurd (ground arith)

  -- A sequence returns if its first part does, and its second from there.
  bind-ret :
      (m : Go W A) (f : A → Go W B) {w v : W} {b : B}
      → (m >>= f) w ≡ ret b v
      → (a : A) × (u : W) × (m w ≡ ret a u) × (f a u ≡ ret b v)
  bind-ret m f {w} e = continue-ret (m w) f e

  -- A sequence fails if its first part does, or its second from where the first returned.
  pub bind-fail :
      (m : Go W A) (f : A → Go W B) {w v : W} {x : Error}
      → (m >>= f) w ≡ fail x v
      → (m w ≡ fail x v) ⊎ ((a : A) × (u : W) × (m w ≡ ret a u) × (f a u ≡ fail x v))
  bind-fail m f {w} e = continue-fail (m w) f e

module _ {ℓ κ} {W : Type ℓ} {A : Type κ} where
  pub deref-ret : (p : Option A) {w v : W} {a : A} → deref p w ≡ ret a v → (p ≡ some a) × (v ≡ w)
  deref-ret none e = absurd (ground arith)
  deref-ret (some b) e = ground arith

  pub deref-fail : (p : Option A) (w : W) {v : W} {x : Error} → ¬ (deref p w ≡ fail x v)
  deref-fail none w e = ground arith
  deref-fail (some b) w e = ground arith

  wrap_err-ret :
      (f : Error → Error) (o : Outcome W A) {a : A} {v : W} → wrap_err f o ≡ ret a v → o ≡ ret a v
  wrap_err-ret f (ret b u) e = e
  wrap_err-ret f (fail x u) e = absurd (ground arith)
  wrap_err-ret f panic e = absurd (ground arith)

  pub wrapped-ret :
      (f : Error → Error) (m : Go W A) {a : A} {w v : W} → wrapped f m w ≡ ret a v → m w ≡ ret a v
  wrapped-ret f m {w = w} e = wrap_err-ret f (m w) e

  embed-ret {μ} :
      {V : Type μ} (put : V → W) (o : Outcome V A) {a : A} {v : W}
      → embed put o ≡ ret a v
      → (u : V) × (o ≡ ret a u) × (v ≡ put u)
  embed-ret put (ret b u) e = (u, ground arith, ground arith)
  embed-ret put (fail x u) e = absurd (ground arith)
  embed-ret put panic e = absurd (ground arith)

  pub zoom-ret {μ} :
      {V : Type μ} (get : W → V) (put : V → W → W) (m : Go V A) {a : A} {w v : W}
      → zoom get put m w ≡ ret a v
      → (u : V) × (m (get w) ≡ ret a u) × (v ≡ put u w)
  zoom-ret get put m {w = w} e = embed-ret (λ u. put u w) (m (get w)) e

  logged-fail : (o : Outcome W A) {x : Error} {v : W} → ¬ (logged o ≡ fail x v)
  logged-fail (ret a u) e = ground arith
  logged-fail (fail y u) e = ground arith
  logged-fail panic e = ground arith

module _ {ℓ κ} {W : Type ℓ} {A : Type κ} where
  -- A loop that logs its errors returns none.
  pub for_logged-fail :
      (xs : List A) (body : A → Go W (Unit {0})) (w : W) {x : Error} {v : W}
      → ¬ (for_logged xs body w ≡ fail x v)
  unfolding for_logged
  for_logged-fail [] body w e = ground arith
  for_logged-fail (y ∷ ys) body w e =
      elim (continue-fail (logged (body y w)) (λ _. for_logged ys body) e) [
        | inl q ↦ logged-fail (body y w) q
        | inr (a, u, p, q) ↦ for_logged-fail ys body u q
      ]

-- The same as `bind-ret`, for a chain of such steps.
pub bind-elim {ℓ κ μ ν} :
    {W : Type ℓ} {A : Type κ} {B : Type μ} {C : Type ν} (m : Go W A) (f : A → Go W B) {w v : W}
    {b : B}
    → (m >>= f) w ≡ ret b v
    → ((a : A) (u : W) → m w ≡ ret a u → f a u ≡ ret b v → C)
    → C
bind-elim m f e k = let (a, u, p, q) = bind-ret m f e in k a u p q
