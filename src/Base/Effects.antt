-- ===== src/Base/Effects.antt =====
-- What a Go call does: it returns a value, returns an error, or panics. What was written before an
-- error stays written; a panic ends the process. Log lines are left out, but not the pointers that
-- they read.
use mathlib.Core.Option.{Option, none, some}
use mathlib.Core.List.{List, [], ◌∷◌}
use fabric_adapter.Base.Strings.{Text}
use Prim.Native.Nat.{ℕ}
use mathlib.Core.Path.{◌≡◌, refl}
use mathlib.Core.Logic.{◌⊎◌, inl, inr}

-- The errors of the program, one constructor for each message, and `external` for those of the code
-- that it calls.
pub data Error : Type 0 where
  no_management : Text → Text → Error
  no_driver no_pipeconf : Error
  no_sid no_mac no_router_mac : Text → Text → Error → Error
  not_an_ip : Text → Error
  model_id_blank vlan_id_blank : Error
  model_not_found : Text → Error
  no_model_port : Error
  vlan_not_found : ℕ → Error
  route_no_prefix route_no_address : Text → Error
  no_endpoint : Text → Error
  json_failed push_failed : Text → Error → Error
  -- `PushError`: operation, endpoint, status code, status
  push_error : Text → Text → ℕ → Text → Error
  invalid_id : Error
  unknown_protocol : Text → Error
  bad_number : Error
  external : Text → Error

pub data Result {ℓ} (A : Type ℓ) : Type ℓ where
  ok : A → Result A
  err : Error → Result A

-- A call on the state `W`.
pub data Outcome {ℓ κ} (W : Type ℓ) (A : Type κ) : Type (ℓ ⊔ κ) where
  ret : A → W → Outcome W A
  fail : Error → W → Outcome W A
  panic : Outcome W A

abbrev pub Go {ℓ κ} : Type ℓ → Type κ → Type (ℓ ⊔ κ)
Go W A = W → Outcome W A

module _ {ℓ κ} {W : Type ℓ} {A : Type κ} where
  abbrev pub pure : A → Go W A
  pure a w = ret a w

  abbrev pub raise : Error → Go W A
  raise e w = fail e w

  -- `*p`
  abbrev pub deref : Option A → Go W A
  deref none w = panic
  deref (some a) w = ret a w

  abbrev pub lift : Result A → Go W A
  lift (ok a) w = ret a w
  lift (err e) w = fail e w

  abbrev pub gets : (W → A) → Go W A
  gets f w = ret (f w) w

abbrev pub modify {ℓ} : {W : Type ℓ} → (W → W) → Go W (Unit {0})
modify f w = ret tt (f w)

abbrev pub continue {ℓ κ μ} :
    {W : Type ℓ} {A : Type κ} {B : Type μ} → Outcome W A → (A → Go W B) → Outcome W B
continue (ret a w) f = f a w
continue (fail e w) f = fail e w
continue panic f = panic

infixl 5 ◌>>=◌ ◌>>◌
abbrev pub ◌>>=◌ {ℓ κ μ} : {W : Type ℓ} {A : Type κ} {B : Type μ} → Go W A → (A → Go W B) → Go W B
◌>>=◌ m f w = continue (m w) f

abbrev pub ◌>>◌ {ℓ κ μ} : {W : Type ℓ} {A : Type κ} {B : Type μ} → Go W A → Go W B → Go W B
m >> k = m >>= λ _. k

-- `if err != nil { log.Warn(err) }`: the error is logged and dropped.
abbrev pub logged {ℓ κ} : {W : Type ℓ} {A : Type κ} → Outcome W A → Outcome W (Unit {0})
logged (ret a w) = ret tt w
logged (fail e w) = ret tt w
logged panic = panic

-- A range loop that logs the error of a round and goes on.
unfoldable pub for_logged {ℓ κ} :
    {W : Type ℓ} {A : Type κ} → List A → (A → Go W (Unit {0})) → Go W (Unit {0})
for_logged [] body w = ret tt w
for_logged (x ∷ xs) body w = continue (logged (body x w)) (λ _. for_logged xs body)

-- A call on a part of the state.
abbrev pub embed {ℓ κ μ} :
    {W : Type ℓ} {V : Type κ} {A : Type μ} → (V → W) → Outcome V A → Outcome W A
embed put (ret a v) = ret a (put v)
embed put (fail e v) = fail e (put v)
embed put panic = panic

abbrev pub zoom {ℓ κ μ} :
    {W : Type ℓ} {V : Type κ} {A : Type μ} → (W → V) → (V → W → W) → Go V A → Go W A
zoom get put m w = embed (λ v. put v w) (m (get w))

-- `return fmt.Errorf("…: %s", err)`
abbrev pub wrap_err {ℓ κ} : {W : Type ℓ} {A : Type κ} → (Error → Error) → Outcome W A → Outcome W A
wrap_err f (ret a w) = ret a w
wrap_err f (fail e w) = fail (f e) w
wrap_err f panic = panic

abbrev pub wrapped {ℓ κ} : {W : Type ℓ} {A : Type κ} → (Error → Error) → Go W A → Go W A
wrapped f m w = wrap_err f (m w)

pub Result-cases {ℓ} :
    {A : Type ℓ} (r : Result A) → ((e : Error) × (r ≡ err e)) ⊎ ((a : A) × (r ≡ ok a))
Result-cases (ok a) = inr (a, refl)
Result-cases (err e) = inl (e, refl)
