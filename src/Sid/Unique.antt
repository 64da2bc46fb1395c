-- ===== src/Sid/Unique.antt =====
-- `Get` of pkg/store/store.go over a reliable Atomix: a SID belongs to one switch, and stays with it.
use fabric_adapter.Base.{
  ℕ, ◌+◌, ◌^◌, ◌≤◌, ◌<◌, ◌≡◌, ◌≢◌, refl, false, none, some, ◌⊎◌, inl, inr, List, [], Text, text_eqb,
  text_eqb_iff, text_eq, if◌then◌else◌, ret, arith, Bool-cases, Option-cases, ◌∙◌, sym, ap,
}
use mathlib.Core.Path.{subst}
use fabric_adapter.Util.{u32}
use fabric_adapter.Sid.{Atomix, uint32_to_bytes, bytes_to_uint32, allocate, get}
use fabric_adapter.Sid.Reliable.{IsReliable}

-- The bytes of a uint32 read back as that number.
pub bytes_to_uint32-uint32_to_bytes :
    (n : ℕ) → n < 2 ^ 32 → bytes_to_uint32 (uint32_to_bytes n) ≡ some n
unfolding bytes_to_uint32 uint32_to_bytes
bytes_to_uint32-uint32_to_bytes n h = ap some (omega arith)

pub uint32_to_bytes-injective :
    (m n : ℕ) → m < 2 ^ 32 → n < 2 ^ 32 → uint32_to_bytes m ≡ uint32_to_bytes n → m ≡ n
uint32_to_bytes-injective m n hm hn e = ground (
  arith,
  bytes_to_uint32-uint32_to_bytes m hm,
  bytes_to_uint32-uint32_to_bytes n hn,
  ap bytes_to_uint32 e,
)

module _ (X : Atomix) (R : IsReliable X) where
  -- Every stored value is the bytes of a SID that was counted, and no two switches have one value.
  pub record IsAssigned (s : X.State) : Type 0 where
    pub counted :
        (id : Text) (b : List ℕ)
        → R.entry id s ≡ some b
        → (n : ℕ) × (b ≡ uint32_to_bytes n) × (100 < n) × (n ≤ R.value s)
    pub unique : (i j : Text) (b : List ℕ) → R.entry i s ≡ some b → R.entry j s ≡ some b → i ≡ j

  -- the SID that a switch has in a state
  abbrev pub HasSid : Text → ℕ → X.State → Type 0
  HasSid id n s = R.entry id s ≡ some (uint32_to_bytes n)

  -- a switch that has a SID gets it, and nothing changes
  get-known :
      (id : Text) (s : X.State) (n : ℕ)
      → text_eqb id [] ≡ false
      → n < 2 ^ 32
      → HasSid id n s
      → get X id s ≡ ret n s
  unfolding get
  get-known id s n h f e =
      rw h (rw (R.found id s (uint32_to_bytes n) e) (rw (bytes_to_uint32-uint32_to_bytes n f)))

  abbrev pub assigned : Text → X.State → X.State
  assigned id s = R.stored id (uint32_to_bytes (u32 (R.value s + 1))) (R.next s)

  -- a switch that has none gets the next one, which is stored for it
  pub get-new :
      (id : Text) (s : X.State)
      → text_eqb id [] ≡ false
      → R.entry id s ≡ none
      → get X id s ≡ ret (u32 (R.value s + 1)) (assigned id s)
  unfolding get
  get-new id s h e = rw h (
      rw (R.absent id s e)
        (rw R.not_found (unfold allocate in rw (R.incremented s) (rw (R.put id _ (R.next s))))))

  entry-assigned :
      (id j : Text) (s : X.State)
      → R.entry j (assigned id s)
        ≡ (if text_eqb id j then some (uint32_to_bytes (u32 (R.value s + 1))) else R.entry j s)
  entry-assigned id j s = R.entry-stored id j _ (R.next s) ∙ rw (R.entry-next j s)

  pub value-assigned : (id : Text) (s : X.State) → R.value (assigned id s) ≡ R.value s + 1
  value-assigned id s = R.value-stored id _ (R.next s) ∙ R.value-next s

  module _ (id : Text) (s : X.State) (few : R.value s + 1 < 2 ^ 32) (many : 100 ≤ R.value s)
      (a : IsAssigned s) where
    -- no switch has the new value yet
    fresh : (j : Text) → R.entry j s ≢ some (uint32_to_bytes (u32 (R.value s + 1)))
    fresh j e =
        let (n, same, low, high) = a.counted j _ e in
        omega (
          arith,
          uint32_to_bytes-injective (u32 (R.value s + 1)) n (omega arith) (omega arith) same,
        )

    -- an entry of the new state is the new one or an old one
    entry_cases :
        (j : Text) (b : List ℕ)
        → R.entry j (assigned id s) ≡ some b
        → ((id ≡ j) × (b ≡ uint32_to_bytes (u32 (R.value s + 1)))) ⊎ (R.entry j s ≡ some b)
    entry_cases j b e = elim (Bool-cases (text_eqb id j)) [
      | inl y ↦ inl ((text_eqb_iff id j).0 y, ground (arith, y, e, entry-assigned id j s))
      | inr y ↦ inr (ground (arith, y, e, entry-assigned id j s))
    ]

    assigned-counted :
        (j : Text) (b : List ℕ)
        → R.entry j (assigned id s) ≡ some b
        → (n : ℕ) × (b ≡ uint32_to_bytes n) × (100 < n) × (n ≤ R.value (assigned id s))
    assigned-counted j b e = elim (entry_cases j b e) [
      | inl (same, new) ↦
          (u32 (R.value s + 1), new, omega arith, omega (arith, value-assigned id s))
      | inr old ↦
          let (n, same, low, high) = a.counted j b old in
          (n, same, low, omega (arith, value-assigned id s))
    ]

    assigned_unique :
        (i j : Text) (b : List ℕ)
        → R.entry i (assigned id s) ≡ some b
        → R.entry j (assigned id s) ≡ some b
        → i ≡ j
    assigned_unique i j b e f = elim (entry_cases i b e) [
      | inl (same, new) ↦ elim (entry_cases j b f) [
        | inl (same', new') ↦ sym same ∙ same'
        | inr old' ↦ absurd (fresh j (old' ∙ ap some new))
      ]
      | inr old ↦ elim (entry_cases j b f) [
        | inl (same', new') ↦ absurd (fresh i (old ∙ ap some new'))
        | inr old' ↦ a.unique i j b old old'
      ]
    ]

    pub assigned-IsAssigned : IsAssigned (assigned id s)
    assigned-IsAssigned = record { counted = assigned-counted; unique = assigned_unique }

  pub has-assigned : (id : Text) (s : X.State) → HasSid id (u32 (R.value s + 1)) (assigned id s)
  has-assigned id s = entry-assigned id id s ∙ rw ((text_eqb_iff id id).1 refl)

  pub keeps-assigned :
      (id : Text) (s : X.State)
      → R.entry id s ≡ none
      → (j : Text) (b : List ℕ) → R.entry j s ≡ some b
      → R.entry j (assigned id s) ≡ some b
  keeps-assigned id s e j b f = elim (Bool-cases (text_eqb id j)) [
    | inl y ↦
        let gone : R.entry j s ≡ none =
          subst (λ k. R.entry k s ≡ none) ((text_eqb_iff id j).0 y) e in
        absurd (cc (gone, f))
    | inr y ↦ entry-assigned id j s ∙ rw y f
  ]

  -- What a call of `Get` leaves: the answer is the switch's SID, all SIDs that were there stay, at
  -- most one more is counted, and SIDs are unique as before.
  pub record Got (id : Text) (s : X.State) (n : ℕ) (s' : X.State) : Type 0 where
    pub answer : get X id s ≡ ret n s'
    pub has : HasSid id n s'
    pub above : 100 < n
    pub fits : n < 2 ^ 32
    pub keeps : (j : Text) (b : List ℕ) → R.entry j s ≡ some b → R.entry j s' ≡ some b
    pub grows : R.value s ≤ R.value s'
    pub slowly : R.value s' ≤ R.value s + 1
    pub still : IsAssigned s'

  -- On a reliable Atomix with a well-formed store, a counter from 100 and room in a uint32, Get
  -- of a switch with a name returns its SID, above 100, which is stored from then on; no other
  -- entry is lost, and the store stays well formed.
  pub get_lem :
      (id : Text) (s : X.State)
      → text_eqb id [] ≡ false
      → 100 ≤ R.value s
      → R.value s + 1 < 2 ^ 32
      → IsAssigned s
      → (n : ℕ) × (s' : X.State) × Got id s n s'
  get_lem id s h many few a = elim (Option-cases (R.entry id s)) [
    | inr (b, e) ↦
        let (n, same, low, high) = a.counted id b e in
        let e' : HasSid id n s = e ∙ ap some same in
        (
          n,
          s,
          record {
            answer = get-known id s n h (omega arith) e';
            has = e';
            above = low;
            fits = omega arith;
            keeps = λ j b f. f;
            grows = omega arith;
            slowly = omega arith;
            still = a;
          },
        )
    | inl e ↦ (
      u32 (R.value s + 1),
      assigned id s,
      record {
        answer = get-new id s h e;
        has = has-assigned id s;
        above = omega arith;
        fits = omega arith;
        keeps = keeps-assigned id s e;
        grows = omega (arith, value-assigned id s);
        slowly = omega (arith, value-assigned id s);
        still = assigned-IsAssigned id s few many a;
      },
    )
  ]
