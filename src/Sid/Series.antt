-- ===== src/Sid/Series.antt =====
-- Any series of calls of `Get` (pkg/store/store.go), such as the synchronizer makes for the switches
-- of its fabrics, again and again.
use fabric_adapter.Base.{
  ℕ, ◌+◌, ◌^◌, ◌≤◌, ◌<◌, ◌≡◌, ◌↔◌, refl, false, Option, some, List, [], ◌∷◌, Text, text_eqb, length,
  keys, All, All-pairs, ret, Go, pure, ◌>>=◌, arith, ◌∙◌, sym, ap,
}
use fabric_adapter.Sid.{Atomix, uint32_to_bytes, get}
use fabric_adapter.Sid.Reliable.{IsReliable}
use fabric_adapter.Sid.Unique.{IsAssigned, HasSid, get_lem, uint32_to_bytes-injective}

some_inj : (a b : List ℕ) → ◌≡◌ {A = Option (List ℕ)} (some a) (some b) → a ≡ b
some_inj a b e = ground arith

module _ (X : Atomix) where
  -- the calls, one after the other, each with its answer
  unfoldable pub get_each : List Text → Go X.State (List (Text × ℕ))
  get_each [] = pure []
  get_each (id ∷ ids) = do n ← get X id; answers ← get_each ids; pure ((id, n) ∷ answers)

module _ (X : Atomix) (R : IsReliable X) where
  -- a switch with its SID, which is above the reserved ones
  abbrev pub IsSidIn : X.State → Text × ℕ → Type 0
  IsSidIn s p = HasSid X R p.0 p.1 s × (100 < p.1) × (p.1 < 2 ^ 32)

  -- The answers are the SIDs that the switches have in the state that the series leaves.
  pub record Answered (ids : List Text) (s : X.State) (answers : List (Text × ℕ)) (s' : X.State)
      : Type 0 where
    pub run : get_each X ids s ≡ ret answers s'
    pub names : keys answers ≡ ids
    pub have : All (IsSidIn s') answers
    pub keeps : (j : Text) (b : List ℕ) → R.entry j s ≡ some b → R.entry j s' ≡ some b
    pub many : 100 ≤ R.value s'
    pub few : R.value s' < 2 ^ 32
    pub still : IsAssigned X R s'

  answered :
      (ids : List Text) (s : X.State)
      → All (λ id. text_eqb id [] ≡ false) ids
      → 100 ≤ R.value s
      → R.value s + length ids < 2 ^ 32
      → IsAssigned X R s
      → (answers : List (Text × ℕ)) × (s' : X.State) × Answered ids s answers s'
  unfolding get_each
  answered [] s h many few a = (
    [],
    s,
    record {
      run = refl;
      names = refl;
      have = tt;
      keeps = λ j b e. e;
      many = many;
      few = omega arith;
      still = a;
    },
  )
  answered (id ∷ ids) s (h, hs) many few a =
      let (n, t, g) = get_lem X R id s h many (omega arith) a in
      let (answers, s', r) =
        answered ids t hs (omega (arith, g.grows)) (omega (arith, g.slowly)) g.still in
      (
        (id, n) ∷ answers,
        s',
        record {
          run = rw g.answer (rw r.run);
          names = ap (◌∷◌ id) r.names;
          have = ((r.keeps id (uint32_to_bytes n) g.has, g.above, g.fits), r.have);
          keeps = λ j b e. r.keeps j b (g.keeps j b e);
          many = r.many;
          few = r.few;
          still = r.still;
        },
      )

  -- Two answers agree exactly when their switches do.
  abbrev pub AreUnique : List (Text × ℕ) → Type 0
  AreUnique answers = All (λ p. All (λ q. (p.0 ≡ q.0) ↔ (p.1 ≡ q.1)) answers) answers

  same_sid :
      (s : X.State)
      → IsAssigned X R s
      → (p q : Text × ℕ) → IsSidIn s p
      → IsSidIn s q
      → (p.0 ≡ q.0) ↔ (p.1 ≡ q.1)
  same_sid s a (i, m) (j, n) (hi, bi, fi) (hj, bj, fj) = (
    λ e.
        uint32_to_bytes-injective m n fi fj
          (some_inj _ _ (sym hi ∙ ap (λ (k : Text). R.entry k s) e ∙ hj)),
    λ e. a.unique i j (uint32_to_bytes n) (hi ∙ ap (λ (k : ℕ). some (uint32_to_bytes k)) e) hj,
  )

  -- On a reliable Atomix with a well-formed store, a counter from 100 and room in a uint32, any
  -- series of Get calls for switches with a name succeeds, each answer is the stored SID and
  -- above 100, and two answers are equal exactly when their switches are.
  pub get_each_unique :
      (ids : List Text) (s : X.State)
      → All (λ id. text_eqb id [] ≡ false) ids
      → 100 ≤ R.value s
      → R.value s + length ids < 2 ^ 32
      → IsAssigned X R s
      → (answers : List (Text × ℕ)) × (s' : X.State) × (get_each X ids s ≡ ret answers s')
        × (keys answers ≡ ids)
        × All (IsSidIn s') answers
        × AreUnique answers
        × IsAssigned X R s'
  get_each_unique ids s h many few a =
      let (answers, s', r) = answered ids s h many few a in
      (
        answers,
        s',
        r.run,
        r.names,
        r.have,
        All-pairs (IsSidIn s') (λ p q. (p.0 ≡ q.0) ↔ (p.1 ≡ q.1)) answers answers r.have r.have
            (same_sid s' r.still),
        r.still,
      )
