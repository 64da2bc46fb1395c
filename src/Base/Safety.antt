-- ===== src/Base/Safety.antt =====
-- Go calls that do not panic, whichever way they end.
use mathlib.Core.Option.{Option, none, some}
use mathlib.Core.Path.{◌≡◌, refl, subst}
use mathlib.Core.List.{List, [], ◌∷◌}
use native.Mathlib.Omega.{arith}
use mathlib.Core.Bool.{Bool, true, false}
use fabric_adapter.Base.Tests.{if◌then◌else◌}
use fabric_adapter.Base.Inversion.{for_logged-fail}
use fabric_adapter.Base.Lists.{All}
use fabric_adapter.Base.Effects.{
  Error, Result, ok, err, Outcome, ret, fail, panic, Go, deref, lift, modify, continue, ◌>>=◌,
  logged, for_logged, embed, zoom, wrapped, wrap_err, pure, raise,
}

abbrev pub Ends {ℓ κ} : {W : Type ℓ} {A : Type κ} → Outcome W A → Type 0
Ends (ret a w) = Unit {0}
Ends (fail e w) = Unit {0}
Ends panic = ⊥

pub record IsSafe {ℓ κ} {W : Type ℓ} {A : Type κ} (m : Go W A) : Type ℓ where
  pub ends : (w : W) → Ends (m w)

module _ {ℓ κ} {W : Type ℓ} {A : Type κ} where
  pub pure-IsSafe : (a : A) → IsSafe {W = W} (pure a)
  pure-IsSafe a = record { ends = λ w. tt }

  pub raise-IsSafe : (e : Error) → IsSafe {W = W} {A = A} (raise e)
  raise-IsSafe e = record { ends = λ w. tt }

  pub lift-IsSafe : (r : Result A) → IsSafe {W = W} (lift r)
  lift-IsSafe (ok a) = record { ends = λ w. tt }
  lift-IsSafe (err e) = record { ends = λ w. tt }

  -- a pointer that is not nil
  deref-IsSafe : (p : Option A) (a : A) → p ≡ some a → IsSafe {W = W} (deref p)
  deref-IsSafe none a e = absurd (ground (arith, e))
  deref-IsSafe (some b) a e = record { ends = λ w. tt }

  Ends-wrap_err : (f : Error → Error) (o : Outcome W A) → Ends o → Ends (wrap_err f o)
  Ends-wrap_err f (ret a w) h = tt
  Ends-wrap_err f (fail e w) h = tt
  Ends-wrap_err f panic h = h

  pub wrapped-IsSafe : (f : Error → Error) (m : Go W A) → IsSafe m → IsSafe (wrapped f m)
  wrapped-IsSafe f m k = record { ends = λ w. Ends-wrap_err f (m w) (k.ends w) }

  Ends-logged : (o : Outcome W A) → Ends o → Ends (logged o)
  Ends-logged (ret a w) h = tt
  Ends-logged (fail e w) h = tt
  Ends-logged panic h = h

  Ends-embed {μ} : {V : Type μ} (put : V → W) (o : Outcome V A) → Ends o → Ends (embed put o)
  Ends-embed put (ret a v) h = tt
  Ends-embed put (fail e v) h = tt
  Ends-embed put panic h = h

  pub zoom-IsSafe {μ} :
      {V : Type μ} (get : W → V) (put : V → W → W) (m : Go V A) → IsSafe m → IsSafe (zoom get put m)
  zoom-IsSafe get put m k = record {
    ends = λ w. Ends-embed (λ v. put v w) (m (get w)) (k.ends (get w));
  }

pub modify-IsSafe {ℓ} : {W : Type ℓ} (f : W → W) → IsSafe (modify f)
modify-IsSafe f = record { ends = λ w. tt }

module _ {ℓ κ μ} {W : Type ℓ} {A : Type κ} {B : Type μ} where
  Ends-continue :
      (o : Outcome W A) (f : A → Go W B) → Ends o → ((a : A) → IsSafe (f a)) → Ends (continue o f)
  Ends-continue (ret a w) f h k = (k a).ends w
  Ends-continue (fail e w) f h k = tt
  Ends-continue panic f h k = h

  pub bind-IsSafe :
      (m : Go W A) (f : A → Go W B) → IsSafe m → ((a : A) → IsSafe (f a)) → IsSafe (m >>= f)
  bind-IsSafe m f k l = record { ends = λ w. Ends-continue (m w) f (k.ends w) l }

  -- a pointer that is not nil, and what is done with its value
  pub deref_then-IsSafe :
      (p : Option A) (a : A) (f : A → Go W B) → p ≡ some a → IsSafe (f a) → IsSafe (deref p >>= f)
  deref_then-IsSafe none a f e k = absurd (ground (arith, e))
  deref_then-IsSafe (some b) a f e k =
      let same : a ≡ b = ground (arith, e) in
      record { ends = (subst (λ x. IsSafe (f x)) same k).ends }

module _ {ℓ κ} {W : Type ℓ} {A : Type κ} where
  Ends-for_logged :
      (xs : List A) (body : A → Go W (Unit {0})) (w : W)
      → All (λ x. IsSafe (body x)) xs
      → Ends (for_logged xs body w)
  unfolding for_logged
  Ends-for_logged [] body w h = tt
  Ends-for_logged (x ∷ xs) body w h =
      Ends-continue (logged (body x w)) (λ _. for_logged xs body)
        (Ends-logged (body x w) (h.0.ends w))
        (λ _. record { ends = λ v. Ends-for_logged xs body v h.1 })

  pub for_logged-IsSafe :
      (xs : List A) (body : A → Go W (Unit {0}))
      → All (λ x. IsSafe (body x)) xs
      → IsSafe (for_logged xs body)
  for_logged-IsSafe xs body h = record { ends = λ w. Ends-for_logged xs body w h }

module _ {ℓ κ} {W : Type ℓ} {A : Type κ} where
  pub if-IsSafe : (b : Bool) (m k : Go W A) → IsSafe m → IsSafe k → IsSafe (if b then m else k)
  if-IsSafe true m k h g = h
  if-IsSafe false m k h g = g

ret_of_Ends {ℓ} :
    {W : Type ℓ} (o : Outcome W (Unit {0}))
    → Ends o
    → ((x : Error) (v : W) → ¬ (o ≡ fail x v))
    → (v : W) × (o ≡ ret tt v)
ret_of_Ends (ret u v) h f = (v, refl)
ret_of_Ends (fail x v) h f = absurd (f x v refl)
ret_of_Ends panic h f = absurd h

-- A loop that logs its errors returns, if no round of it panics.
pub for_logged-ret {ℓ κ} :
    {W : Type ℓ} {A : Type κ} (xs : List A) (body : A → Go W (Unit {0})) (w : W)
    → All (λ x. IsSafe (body x)) xs
    → (v : W) × (for_logged xs body w ≡ ret tt v)
for_logged-ret xs body w h =
    ret_of_Ends (for_logged xs body w) (Ends-for_logged xs body w h)
      (λ x v. for_logged-fail xs body w)
