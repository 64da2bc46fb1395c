-- ===== src/Netcfg/Entries.antt =====
-- The maps of pkg/synchronizer/schema.go under `reflect.DeepEqual` (pkg/synchronizer/cache.go) and in
-- a JSON document.
use mathlib.Core.Bool.{decide}
use mathlib.Core.Path.{subst}
use fabric_adapter.Base.{
  ◌≡◌, ◌↔◌, refl, Bool, true, some, Option-cases, inl, inr, [], ◌∷◌, Text, Dict, keys, lookup,
  text_eq, text_eqb_iff, HasDistinctKeys, Bool-cases, text_eqb, All, arith,
}
use fabric_adapter.Netcfg.Equal.{covers, dict_eqb, same_at}
use fabric_adapter.Netcfg.Reflexive.{IsEntryOf, entries}
use fabric_adapter.Sorting.Keys.{listed}
use fabric_adapter.Json.{Json}
use fabric_adapter.Json.Maps.{
  mapped, listed-keys, sorted_entries, get-sorted_entries, length-sorted_entries,
  sorted_entries-ext,
}

pub decide_iff {ℓ} : {V : Type ℓ} {v w : V} (d : Dec (v ≡ w)) → (decide d ≡ true) ↔ (v ≡ w)
unfolding decide
decide_iff (yes p) = (λ h. p, λ e. refl)
decide_iff (no n) = (λ h. cc, λ e. absurd (n e))

-- The equality and the documents of the values of a map agree.
abbrev pub Agrees : {V : Type 0} → (V → Json) → (V → V → Bool) → (V → Type 0) → Type 0
Agrees {V} f eqv P = (v w : V) → P v → P w → (eqv v w ≡ true) ↔ (f v ≡ f w)

some_inj {ℓ} : {A : Type ℓ} {a b : A} → some a ≡ some b → a ≡ b
some_inj e = cc (e)

pub lookup-All :
    {V : Type 0} (P : V → Type 0) (k : Text) (m : Dict Text V) (v : V)
    → All (λ (p : Text × V). P p.1) m
    → lookup k m ≡ some v
    → P v
unfolding lookup
lookup-All P k [] v h e = absurd (ground (arith, e))
lookup-All P k ((j, w) ∷ m) v h e = elim (Bool-cases (text_eqb j k)) [
  | inl same ↦ subst P (some_inj (ground (arith, e, same))) h.0
  | inr other ↦ lookup-All P k m v h.1 (ground (arith, e, other))
]

module _ {V : Type 0} (f : V → Json) (eqv : V → V → Bool) (P : V → Type 0)
    (agrees : Agrees f eqv P) where
  covered :
      (k : Text) (l m : Dict Text V) (v : V)
      → covers eqv l m ≡ true
      → lookup k l ≡ some v
      → same_at eqv v (lookup k m) ≡ true
  unfolding covers lookup
  covered k [] m v h e = absurd (ground (arith, e))
  covered k ((j, u) ∷ l) m v h e = ground (arith, h, e, text_eqb_iff j k, covered k l m v)

  module _ (m n : Dict Text V) (dm : HasDistinctKeys m) (dn : HasDistinctKeys n)
      (pm : All (λ (p : Text × V). P p.1) m) (pn : All (λ (p : Text × V). P p.1) n) where
    read_alike :
        (k : Text)
        → covers eqv m n ≡ true
        → listed k (keys m) ≡ true
        → mapped f (lookup k m) ≡ mapped f (lookup k n)
    unfolding same_at
    read_alike k h g = elim (Option-cases (lookup k m)) [
      | inl e ↦ absurd (ground (arith, e, g, listed-keys k m))
      | inr (v, e) ↦ elim (Option-cases (lookup k n)) [
        | inl e' ↦ absurd (ground (arith, e', covered k m n v h e))
        | inr (w, e') ↦
            let same =
              (agrees v w (lookup-All P k m v pm e) (lookup-All P k n w pn e')).0
                (ground (arith, e', covered k m n v h e)) in
            cc (e, e', same)
      ]
    ]

    held :
        (l : Dict Text V)
        → All (IsEntryOf m) l
        → sorted_entries f m ≡ sorted_entries f n
        → covers eqv l n ≡ true
    unfolding covers same_at
    held [] h e = refl
    held ((k, v) ∷ l) h e = elim (Option-cases (lookup k n)) [
      | inl x ↦ absurd (cc (h.0, x, get-sorted_entries f k m, get-sorted_entries f k n, e))
      | inr (w, x) ↦
          let same : f v ≡ f w =
            cc (h.0, x, get-sorted_entries f k m, get-sorted_entries f k n, e) in
          let good = (agrees v w (lookup-All P k m v pm h.0) (lookup-All P k n w pn x)).1 same in
          ground (arith, x, good, held l h.1 e)
    ]

    pub dict_eqb_iff : (dict_eqb eqv m n ≡ true) ↔ (sorted_entries f m ≡ sorted_entries f n)
    unfolding dict_eqb
    dict_eqb_iff = (
      λ h.
          sorted_entries-ext f m n dm dn (ground (arith, h))
            (λ k g. read_alike k (ground (arith, h)) g),
      λ e. ground (arith, length-sorted_entries f m n e, held m (entries m dm) e),
    )
