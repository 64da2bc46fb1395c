-- ===== src/Base/Permuted.antt =====
-- A Go map in two orders of iteration: the same reads, and the same keys in some order.
use mathlib.Core.Path.{◌≡◌, refl, sym, ap, ◌∙◌}
use mathlib.Core.Option.{is_set}
use mathlib.Core.List.{◌∷◌, Perm, Permᴰ}
use mathlib.Core.Logic.{∥∥₁_map, ∥∥₁_elim}
use native.Mathlib.Omega.{arith}
use fabric_adapter.Base.Tests.{Eq}
use fabric_adapter.Base.Maps.{Dict, keys, lookup, HasDistinctKeys}

keys-permᴰ {ℓ κ} : {K : Type ℓ} {V : Type κ} {m n : Dict K V} → Permᴰ m n → Permᴰ (keys m) (keys n)
keys-permᴰ Permᴰ.nil = Permᴰ.nil
keys-permᴰ (Permᴰ.cons e p) = Permᴰ.cons (ap (λ x. x.0) e) (keys-permᴰ p)
keys-permᴰ (Permᴰ.swap {l = l} e f) = Permᴰ.swap (ap (λ x. x.0) e) (ap (λ x. x.0) f)
keys-permᴰ (Permᴰ.trans p q) = Permᴰ.trans (keys-permᴰ p) (keys-permᴰ q)

pub keys-perm {ℓ κ} : {K : Type ℓ} {V : Type κ} {m n : Dict K V} → Perm m n → Perm (keys m) (keys n)
keys-perm {m = m} {n = n} p = ∥∥₁_map {B = Permᴰ (keys m) (keys n)} p keys-permᴰ

module _ {ℓ κ} {K : Type ℓ} {V : Type κ} ⦃e : Eq K⦄ where
  abbrev SameReads : Dict K V → Dict K V → Type (ℓ ⊔ κ)
  SameReads m n = (k : K) → lookup k m ≡ lookup k n

  cons_read :
      (m n : Dict K V) {a b : K × V}
      → a ≡ b
      → (k : K) → lookup k m ≡ lookup k n
      → lookup k (a ∷ m) ≡ lookup k (b ∷ n)
  unfolding lookup
  cons_read m n s k r = cc (s, r)

  lookup-permᴰ :
      {m n : Dict K V} → Permᴰ m n → HasDistinctKeys m → HasDistinctKeys n × SameReads m n
  unfolding lookup
  lookup-permᴰ Permᴰ.nil h = (tt, λ k. refl)
  lookup-permᴰ (Permᴰ.cons {a} {b} {l₁} {l₂} s p) h =
      let (g, r) = lookup-permᴰ p h.1 in
      (
        (ap (λ (x : K × V). lookup x.0 l₂) (sym s) ∙ sym (r a.0) ∙ h.0, g),
        λ k. cons_read l₁ l₂ s k (r k),
      )
  lookup-permᴰ (Permᴰ.swap {a} {b} {a'} {b'} {l = l} s t) h = (
    ground (arith, s, t, e.eqb_iff b.0 a.0, e.eqb_iff b'.0 a'.0, h.0, h.1),
    λ k. ground (
      arith,
      s,
      t,
      e.eqb_iff b.0 a.0,
      e.eqb_iff a.0 k,
      e.eqb_iff b.0 k,
      e.eqb_iff a'.0 k,
      e.eqb_iff b'.0 k,
      h.0,
    ),
  )
  lookup-permᴰ (Permᴰ.trans p q) h =
      let (g, r) = lookup-permᴰ p h in let (f, t) = lookup-permᴰ q g in (f, λ k. r k ∙ t k)

  -- No two orders of a map read differently, where the values form a set.
  pub lookup-perm :
      {m n : Dict K V} → IsSet V → Perm m n → HasDistinctKeys m → (k : K) → lookup k m ≡ lookup k n
  lookup-perm {m} {n} set p h k = ∥∥₁_elim p (is_set set _ _) (λ d. (lookup-permᴰ d h).1 k)
