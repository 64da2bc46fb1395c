-- ===== src/Base/Invariants.antt =====
-- Predicates on the state that a Go call keeps, whichever way it ends.
use mathlib.Core.Option.{Option, none, some}
use mathlib.Core.Path.{◌≡◌, refl}
use mathlib.Core.List.{List, [], ◌∷◌}
use fabric_adapter.Base.Effects.{
  Error, Result, ok, err, Outcome, ret, fail, panic, Go, deref, lift, modify, continue, ◌>>=◌,
  logged, for_logged, embed, zoom, wrapped, wrap_err,
}

-- A panic ends the process, and leaves no state.
abbrev pub After {ℓ κ μ} : {W : Type ℓ} {A : Type κ} → (W → Type μ) → Outcome W A → Type μ
After P (ret a w) = P w
After P (fail e w) = P w
After P panic = Unit {μ}

pub record Keeps {ℓ κ μ} {W : Type ℓ} {A : Type κ} (P : W → Type μ) (m : Go W A)
    : Type (ℓ ⊔ μ) where
  pub after : (w : W) → P w → After P (m w)

abbrev pub keeps {ℓ κ μ} :
    {W : Type ℓ} {A : Type κ} {P : W → Type μ} {m : Go W A}
    → ((w : W) → P w → After P (m w))
    → Keeps P m
keeps f = record { after = f }

module _ {ℓ κ μ} {W : Type ℓ} {A : Type κ} (P : W → Type μ) where
  pub Keeps-deref : (p : Option A) → Keeps P (deref p)
  Keeps-deref none = keeps (λ w h. tt)
  Keeps-deref (some a) = keeps (λ w h. h)

  pub Keeps-lift : (r : Result A) → Keeps P (lift r)
  Keeps-lift (ok a) = keeps (λ w h. h)
  Keeps-lift (err e) = keeps (λ w h. h)

  After-wrap_err : (f : Error → Error) (o : Outcome W A) → After P o → After P (wrap_err f o)
  After-wrap_err f (ret a w) h = h
  After-wrap_err f (fail e w) h = h
  After-wrap_err f panic h = tt

  pub Keeps-wrapped : (f : Error → Error) (m : Go W A) → Keeps P m → Keeps P (wrapped f m)
  Keeps-wrapped f m k = keeps (λ w h. After-wrap_err f (m w) (k.after w h))

  pub After-logged : (o : Outcome W A) → After P o → After P (logged o)
  After-logged (ret a w) h = h
  After-logged (fail e w) h = h
  After-logged panic h = tt

  After-embed {ν} :
      {V : Type ν} (put : V → W) (o : Outcome V A) → ((v : V) → P (put v)) → After P (embed put o)
  After-embed put (ret a v) h = h v
  After-embed put (fail e v) h = h v
  After-embed put panic h = tt

  -- a call on a part of the state of which the predicate does not speak
  pub Keeps-zoom {ν} :
      {V : Type ν} (get : W → V) (put : V → W → W) (m : Go V A)
      → ((v : V) (w : W) → P w → P (put v w))
      → Keeps P (zoom get put m)
  Keeps-zoom get put m k = keeps (λ w h. After-embed (λ v. put v w) (m (get w)) (λ v. k v w h))

module _ {ℓ κ λ' μ} {W : Type ℓ} {A : Type κ} {B : Type λ'} (P : W → Type μ) where
  pub After-continue :
      (o : Outcome W A) (f : A → Go W B)
      → After P o
      → ((a : A) → Keeps P (f a))
      → After P (continue o f)
  After-continue (ret a w) f h k = (k a).after w h
  After-continue (fail e w) f h k = h
  After-continue panic f h k = tt

  pub Keeps-bind :
      (m : Go W A) (f : A → Go W B) → Keeps P m → ((a : A) → Keeps P (f a)) → Keeps P (m >>= f)
  Keeps-bind m f k l = keeps (λ w h. After-continue (m w) f (k.after w h) l)

module _ {ℓ κ μ} {W : Type ℓ} {A : Type κ} (P : W → Type μ) where
  pub Keeps-for_logged :
      (xs : List A) (body : A → Go W (Unit {0}))
      → ((x : A) → Keeps P (body x))
      → Keeps P (for_logged xs body)
  unfolding for_logged
  Keeps-for_logged [] body k = keeps (λ w h. h)
  Keeps-for_logged (x ∷ xs) body k = keeps (λ w h.
      After-continue P (logged (body x w)) (λ _. for_logged xs body)
        (After-logged P (body x w) ((k x).after w h)) (λ _. Keeps-for_logged xs body k))

pub Keeps-modify {ℓ μ} :
    {W : Type ℓ} (P : W → Type μ) (f : W → W) → ((w : W) → P w → P (f w)) → Keeps P (modify f)
Keeps-modify P f k = keeps k

After-continue_ret {ℓ κ μ ν} :
    {W : Type ℓ} {A : Type κ} {B : Type μ} (P : W → Type ν) (o : Outcome W A) (f : A → Go W B)
    → After P o
    → ((a : A) (u : W) → o ≡ ret a u → P u → After P (f a u))
    → After P (continue o f)
After-continue_ret P (ret a u) f h l = l a u refl h
After-continue_ret P (fail x u) f h l = h
After-continue_ret P panic f h l = tt

-- A sequence whose second part keeps the predicate only after what the first part returns.
pub Keeps-bind_ret {ℓ κ μ ν} :
    {W : Type ℓ} {A : Type κ} {B : Type μ} (P : W → Type ν) (m : Go W A) (f : A → Go W B)
    → Keeps P m
    → ((a : A) (v u : W) → m v ≡ ret a u → P u → After P (f a u))
    → Keeps P (m >>= f)
Keeps-bind_ret P m f k l =
    keeps (λ w h. After-continue_ret P (m w) f (k.after w h) (λ a u. l a w u))
