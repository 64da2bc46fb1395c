-- ===== src/Sid/Calls.antt =====
-- `Get` of pkg/store/store.go over a reliable Atomix, whatever the state of the store.
use fabric_adapter.Base.{
  ℕ, ◌+◌, ◌^◌, ◌<◌, ◌≡◌, inl, inr, refl, none, some, List, [], Text, text_eqb, text_eq, invalid_id,
  Error, Outcome, ret, fail, panic, arith, Bool-cases, Option-cases, ◌∙◌, ap, sym,
}
use fabric_adapter.Util.{u32}
use fabric_adapter.Sid.{Atomix, uint32_to_bytes, bytes_to_uint32, get}
use fabric_adapter.Sid.Reliable.{IsReliable}
use fabric_adapter.Sid.Unique.{
  IsAssigned, HasSid, assigned, get-new, has-assigned, bytes_to_uint32-uint32_to_bytes,
}

module _ (X : Atomix) (R : IsReliable X) where
  -- How a call ends: without a name, with an entry that is read back or is too short, or with a SID
  -- that is new.
  pub data Called (id : Text) (s : X.State) (o : Outcome X.State ℕ) : Type 0 where
    unnamed : (x : Error) → o ≡ fail x s → Called id s o
    short : o ≡ panic → Called id s o
    read :
        (b : List ℕ) (n : ℕ)
        → R.entry id s ≡ some b
        → bytes_to_uint32 b ≡ some n
        → o ≡ ret n s
        → Called id s o
    new : R.entry id s ≡ none → o ≡ ret (u32 (R.value s + 1)) (assigned X R id s) → Called id s o

  pub get_cases : (id : Text) (s : X.State) → Called id s (get X id s)
  unfolding get
  get_cases id s = elim (Bool-cases (text_eqb id [])) [
    | inl e ↦ unnamed invalid_id (rw e refl)
    | inr e ↦ elim (Option-cases (R.entry id s)) [
      | inl f ↦ new f (get-new X R id s e f)
      | inr (b, f) ↦ elim (Option-cases (bytes_to_uint32 b)) [
        | inl g ↦ short (rw e (rw (R.found id s b f) (rw g refl)))
        | inr (n, g) ↦ read b n f g (rw e (rw (R.found id s b f) (rw g refl)))
      ]
    ]
  ]

  -- In a well-formed store, the answer is the SID that is stored.
  pub get-HasSid :
      (id : Text) (s s' : X.State) (n : ℕ)
      → get X id s ≡ ret n s'
      → R.value s' < 2 ^ 32
      → IsAssigned X R s'
      → HasSid X R id n s'
  get-HasSid id s s' n e few a = elim (get_cases id s) [
    | unnamed x f ↦ absurd (cc (e, f))
    | short f ↦ absurd (cc (e, f))
    | read b m f g h ↦
        let same : s ≡ s' = cc (e, h) in
        let (k, stored, low, high) = a.counted id b (ap (R.entry id) (sym same) ∙ f) in
        let back = bytes_to_uint32-uint32_to_bytes k (omega (arith, low, high, few)) in
        cc (e, f, g, h, stored, back)
    | new f h ↦
        let same : s' ≡ assigned X R id s = cc (e, h) in
        let number : u32 (R.value s + 1) ≡ n = cc (e, h) in
        ap (R.entry id) same ∙ has-assigned X R id s ∙ ap (λ k. some (uint32_to_bytes k)) number
  ]
