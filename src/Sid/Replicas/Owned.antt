-- ===== src/Sid/Replicas/Owned.antt =====
-- The numbers that the counter of pkg/store/store.go has given, and the switches that they were counted
-- for.
use fabric_adapter.Base.{
  ℕ, ◌+◌, ◌^◌, ◌≤◌, ◌<◌, ◌≡◌, ap, Option, some, List, [], ◌∷◌, ◌++◌, Text, lookup, insert,
  lookup-insert, text_eq, text_eqb, text_eqb_iff, if◌then◌else◌, nat_eqb, nat_eqb_iff, All, arith,
  Bool-cases, inl, inr,
}
use mathlib.Core.Path.{subst}
use fabric_adapter.Util.{u32}
use fabric_adapter.Sid.{uint32_to_bytes, bytes_to_uint32}
use fabric_adapter.Sid.Unique.{bytes_to_uint32-uint32_to_bytes}
use fabric_adapter.Sid.Replicas.{
  Caller, looking, counting, storing, System, Step, call, find, miss, count, store,
}

-- The switch that a number was counted for.
abbrev pub Owner : Type 0
Owner = ℕ → Option Text

abbrev pub IsOwned : Owner → ℕ → Text × ℕ → Type 0
IsOwned owner top (id, n) = (owner n ≡ some id) × (100 < n) × (n ≤ top)

abbrev pub CallerIsOwned : Owner → ℕ → Caller → Type 0
CallerIsOwned owner top (storing id n) = IsOwned owner top (id, n)
CallerIsOwned owner top _ = Unit {0}

-- Each number that is stored, about to be stored or returned was counted for that switch.
pub record IsConsistent (s : System) : Type 0 where
  pub owner : Owner
  pub counted : (n : ℕ) (id : Text) → owner n ≡ some id → n ≤ s.memory.value
  pub stored :
      (id : Text) (b : List ℕ)
      → lookup id s.memory.entries ≡ some b
      → (n : ℕ) × (b ≡ uint32_to_bytes n) × IsOwned owner s.memory.value (id, n)
  pub pending : All (CallerIsOwned owner s.memory.value) s.callers
  pub given : All (IsOwned owner s.memory.value) s.answers
  pub enough : 100 ≤ s.memory.value

module _ {A : Type 0} (P : A → Type 0) where
  pub All-at : (ps qs : List A) (x : A) → All P (ps ++ x ∷ qs) → P x
  All-at [] qs x h = h.0
  All-at (p ∷ ps) qs x h = All-at ps qs x h.1

  pub All-without : (ps qs : List A) (x : A) → All P (ps ++ x ∷ qs) → All P (ps ++ qs)
  All-without [] qs x h = h.1
  All-without (p ∷ ps) qs x h = (h.0, All-without ps qs x h.1)

  pub All-replace : (ps qs : List A) (x y : A) → P y → All P (ps ++ x ∷ qs) → All P (ps ++ y ∷ qs)
  All-replace [] qs x y g h = (g, h.1)
  All-replace (p ∷ ps) qs x y g h = (h.0, All-replace ps qs x y g h.1)

pub fits : (n : ℕ) {top : ℕ} → n ≤ top → top < 2 ^ 32 → u32 n ≡ n
fits n h few = omega arith

pub Step-le : {s t : System} → Step s t → s.memory.value ≤ t.memory.value
Step-le (call id h) = omega arith
Step-le (find ps qs id value n c h e) = omega arith
Step-le (miss ps qs id c h) = omega arith
Step-le (count ps qs id c) = omega arith
Step-le (store ps qs id n c) = omega arith

module _ {s : System} (i : IsConsistent s) where
  open i use {owner, counted, stored, pending, given, enough}

  abbrev pub top : ℕ
  top = s.memory.value

  -- the SID of an entry is that of a number
  pub found_owned :
      (id : Text) (value : List ℕ) (n : ℕ)
      → top < 2 ^ 32
      → lookup id s.memory.entries ≡ some value
      → bytes_to_uint32 value ≡ some n
      → IsOwned owner top (id, n)
  found_owned id value n few h e =
      let (m, same, owned) = stored id value h in
      let back : bytes_to_uint32 (uint32_to_bytes m) ≡ some m =
        bytes_to_uint32-uint32_to_bytes m (omega (arith, owned.2)) in
      let equal : m ≡ n = ground (arith, back, e, ap bytes_to_uint32 same) in
      subst (λ k. IsOwned owner top (id, k)) equal owned

  -- the owners once the next number is counted
  abbrev pub extended : Text → Owner
  extended id n = if nat_eqb n (top + 1) then some id else owner n

  pub extended_owned :
      (id : Text) (p : Text × ℕ) → IsOwned owner top p → IsOwned (extended id) (top + 1) p
  extended_owned id (j, n) h =
      (ground (arith, h.0, h.2, nat_eqb_iff n (top + 1)), omega (arith, h.1), omega (arith, h.2))

  pub extended_caller :
      (id : Text) (c : Caller) → CallerIsOwned owner top c → CallerIsOwned (extended id) (top + 1) c
  extended_caller id (looking j) h = tt
  extended_caller id (counting j) h = tt
  extended_caller id (storing j n) h = extended_owned id (j, n) h

  pub new_owned : (id : Text) → IsOwned (extended id) (top + 1) (id, top + 1)
  new_owned id =
      (ground (arith, nat_eqb_iff (top + 1) (top + 1)), omega (arith, enough), omega arith)

  pub extended_counted : (id : Text) (n : ℕ) (j : Text) → extended id n ≡ some j → n ≤ top + 1
  extended_counted id n j e = elim (Bool-cases (nat_eqb n (top + 1))) [
    | inl y ↦ omega (arith, (nat_eqb_iff n (top + 1)).0 y)
    | inr y ↦ omega (arith, counted n j (ground (arith, e, y)))
  ]

  -- the entries after a write
  pub put_owned :
      (id : Text) (n : ℕ)
      → IsOwned owner top (id, n)
      → top < 2 ^ 32
      → (j : Text) (b : List ℕ)
      → lookup j (insert id (uint32_to_bytes (u32 n)) s.memory.entries) ≡ some b
      → (m : ℕ) × (b ≡ uint32_to_bytes m) × IsOwned owner top (j, m)
  put_owned id n h few j b e = elim (Bool-cases (text_eqb id j)) [
    | inl y ↦ (
      n,
      ground (
        arith,
        e,
        y,
        lookup-insert id j (uint32_to_bytes (u32 n)) s.memory.entries,
        ap uint32_to_bytes (fits n h.2 few),
      ),
      subst (λ k. IsOwned owner top (k, n)) ((text_eqb_iff id j).0 y) h,
    )
    | inr y ↦
        stored j b
          (ground (arith, e, y, lookup-insert id j (uint32_to_bytes (u32 n)) s.memory.entries))
  ]
