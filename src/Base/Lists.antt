-- ===== src/Base/Lists.antt =====
-- Lists measured by native numbers, and a predicate on every element.
use Prim.Native.Nat.{ℕ, zero, suc, ◌+◌}
use mathlib.Core.Path.{◌≡◌, refl, ap}
use mathlib.Core.List.{List, [], ◌∷◌, ◌++◌}
use native.Mathlib.Omega.{arith}

module _ {ℓ} {A : Type ℓ} where
  abbrev pub length : List A → ℕ
  length [] = 0
  length (x ∷ xs) = suc (length xs)

  abbrev pub replicate : ℕ → A → List A
  replicate zero a = []
  replicate (suc n) a = a ∷ replicate n a

  pub length-append : (xs ys : List A) → length (xs ++ ys) ≡ length xs + length ys
  length-append [] ys = omega arith
  length-append (x ∷ xs) ys = omega (arith, length-append xs ys)

  pub length-replicate : (n : ℕ) (a : A) → length (replicate n a) ≡ n
  length-replicate zero a = refl
  length-replicate (suc n) a = ap suc (length-replicate n a)

  abbrev pub All {κ} : (A → Type κ) → List A → Type κ
  All P [] = Unit {κ}
  All P (x ∷ xs) = P x × All P xs

  pub All-append {κ} :
      (P : A → Type κ) (front later : List A) → All P front → All P later → All P (front ++ later)
  All-append P [] later none_first all_later = all_later
  All-append P (first ∷ rest) later all_first all_later =
      (all_first.0, All-append P rest later all_first.1 all_later)

  pub All-map {κ μ} :
      (P : A → Type κ) (Q : A → Type μ) (xs : List A) → All P xs → ((x : A) → P x → Q x) → All Q xs
  All-map P Q [] h f = tt
  All-map P Q (x ∷ xs) h f = (f x h.0, All-map P Q xs h.1 f)

  -- A relation between any two of the elements.
  pub All-pairs {κ μ} :
      (P : A → Type κ) (R : A → A → Type μ) (xs ys : List A)
      → All P xs
      → All P ys
      → ((x y : A) → P x → P y → R x y)
      → All (λ x. All (R x) ys) xs
  All-pairs P R [] ys hx hy f = tt
  All-pairs P R (x ∷ xs) ys hx hy f =
      (All-map P (R x) ys hy (λ y q. f x y hx.0 q), All-pairs P R xs ys hx.1 hy f)
