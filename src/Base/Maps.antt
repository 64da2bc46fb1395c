-- ===== src/Base/Maps.antt =====
-- Go maps as association lists in their order of iteration. A missing key reads as `none`.
use mathlib.Core.Path.{◌≡◌, refl}
use mathlib.Core.Option.{Option, none, some}
use mathlib.Core.List.{List, [], ◌∷◌}
use native.Mathlib.Omega.{arith}
use fabric_adapter.Base.Tests.{Eq, ◌==◌, if◌then◌else◌}

abbrev pub Dict {ℓ κ} : Type ℓ → Type κ → Type (ℓ ⊔ κ)
Dict K V = List (K × V)

module _ {ℓ κ} {K : Type ℓ} {V : Type κ} where
  -- `for k := range m`
  abbrev pub keys : Dict K V → List K
  keys [] = []
  keys ((k, v) ∷ m) = k ∷ keys m

  abbrev pub values : Dict K V → List V
  values [] = []
  values ((k, v) ∷ m) = v ∷ values m

module _ {ℓ κ} {K : Type ℓ} {V : Type κ} ⦃e : Eq K⦄ where
  -- `v, ok := m[k]`
  unfoldable pub lookup : K → Dict K V → Option V
  lookup key [] = none
  lookup key ((probe, value) ∷ rest) = if probe == key then some value else lookup key rest

  -- `m[k] = v`
  unfoldable pub insert : K → V → Dict K V → Dict K V
  insert key value [] = (key, value) ∷ []
  insert key value ((probe, old) ∷ rest) =
      if probe == key then (key, value) ∷ rest else (probe, old) ∷ insert key value rest

  -- `delete(m, k)`
  unfoldable pub delete : K → Dict K V → Dict K V
  delete key [] = []
  delete key ((probe, old) ∷ rest) =
      let others = delete key rest in if probe == key then others else (probe, old) ∷ others

  pub lookup-insert :
      (key probe : K) (value : V) (rest : Dict K V)
      → lookup probe (insert key value rest)
        ≡ (if key == probe then some value else lookup probe rest)
  unfolding lookup insert
  lookup-insert key probe value [] = refl
  lookup-insert key probe value ((first, old) ∷ rest) = ground (
    arith,
    e.eqb_iff key probe,
    e.eqb_iff first key,
    e.eqb_iff first probe,
    lookup-insert key probe value rest,
  )

  pub lookup-delete :
      (key probe : K) (rest : Dict K V)
      → lookup probe (delete key rest) ≡ (if key == probe then none else lookup probe rest)
  unfolding lookup delete
  lookup-delete key probe [] = ground arith
  lookup-delete key probe ((first, old) ∷ rest) = ground (
    arith,
    e.eqb_iff key probe,
    e.eqb_iff first key,
    e.eqb_iff first probe,
    lookup-delete key probe rest,
  )

  -- No key twice, as in a Go map.
  abbrev pub HasDistinctKeys : Dict K V → Type κ
  HasDistinctKeys [] = Unit {κ}
  HasDistinctKeys ((key, value) ∷ rest) = (lookup key rest ≡ none) × HasDistinctKeys rest

  pub insert-HasDistinctKeys :
      (key : K) (value : V) (rest : Dict K V)
      → HasDistinctKeys rest
      → HasDistinctKeys (insert key value rest)
  unfolding lookup insert
  insert-HasDistinctKeys key value [] h = (refl, tt)
  insert-HasDistinctKeys key value ((probe, old) ∷ rest) h = ground (
    arith,
    e.eqb_iff probe key,
    e.eqb_iff key probe,
    lookup-insert key probe value rest,
    insert-HasDistinctKeys key value rest,
  )
