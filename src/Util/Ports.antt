-- ===== src/Util/Ports.antt =====
-- `cageChannelToPort` and `switchCageChannelToDeviceId` of pkg/synchronizer/util.go: which ports get
-- one number, and one name.
use fabric_adapter.Base.{
  ℕ, zero, suc, ◌+◌, ◌*◌, ◌/◌, ◌%◌, ◌<◌, ◌≡◌, ◌≢◌, refl, some, [], ◌∷◌, ◌++◌, Text, codes, ltb,
  decimal, decimal_loop, arith, All, All-append, ◌^◌, Bool-cases, inl, inr, ap, ret,
}
use mathlib.Core.Path.{subst}
use fabric_adapter.Net.Dotted.{decimal-injective}
use fabric_adapter.Util.{cage_channel_to_port, device_port}

-- On uint8 values nothing wraps.
cage_channel_to_port-exact {ℓ} :
    {W : Type ℓ} (cage channel : ℕ) (w : W)
    → cage < 256
    → channel < 256
    → cage_channel_to_port (some cage) (some channel) w ≡ ret (channel * 100 + cage) w
unfolding cage_channel_to_port
cage_channel_to_port-exact cage channel w hc hn = ap (λ (n : ℕ). ret n w) (omega arith)

-- Below cage 100 the number determines the port.
port_number-injective :
    (cage channel cage' channel' : ℕ)
    → cage < 100
    → cage' < 100
    → channel * 100 + cage ≡ channel' * 100 + cage'
    → (cage ≡ cage') × (channel ≡ channel')
port_number-injective cage channel cage' channel' h h' e = omega arith

abbrev NoSlash : Text → Type 0
NoSlash = All (λ c. c ≢ b'/')

decimal_loop-NoSlash : (f n : ℕ) → NoSlash (decimal_loop f n)
unfolding decimal_loop
decimal_loop-NoSlash zero n = tt
decimal_loop-NoSlash (suc f) n = elim (Bool-cases (ltb n 10)) [
  | inl e ↦ rw e (omega arith)
  | inr e ↦ rw e (
      All-append (λ c. c ≢ b'/') (decimal_loop f (n / 10)) ((48 + n % 10) ∷ [])
        (decimal_loop-NoSlash f (n / 10)) (omega arith))
]

decimal-NoSlash : (n : ℕ) → NoSlash (decimal n)
unfolding decimal
decimal-NoSlash n = decimal_loop-NoSlash (suc n) n

slash_inside : (xs ys : Text) → ¬ NoSlash (xs ++ b'/' ∷ ys)
slash_inside [] ys h = h.0 refl
slash_inside (x ∷ xs) ys h = slash_inside xs ys h.1

-- The last slash splits a text.
split_last :
    (xs ys ds es : Text)
    → NoSlash ds
    → NoSlash es
    → xs ++ b'/' ∷ ds ≡ ys ++ b'/' ∷ es
    → (xs ≡ ys) × (ds ≡ es)
split_last [] [] ds es hd he e = ground arith
split_last [] (y ∷ ys) ds es hd he e =
    absurd
      (slash_inside ys es (subst NoSlash (let t : ds ≡ ys ++ b'/' ∷ es = ground arith in t) hd))
split_last (x ∷ xs) [] ds es hd he e =
    absurd
      (slash_inside xs ds (subst NoSlash (let t : es ≡ xs ++ b'/' ∷ ds = ground arith in t) he))
split_last (x ∷ xs) (y ∷ ys) ds es hd he e =
    ground (arith, split_last xs ys ds es hd he (ground arith))

strip_prefix : (p xs ys : Text) → p ++ xs ≡ p ++ ys → xs ≡ ys
strip_prefix [] xs ys e = e
strip_prefix (x ∷ p) xs ys e = strip_prefix p xs ys (ground arith)

-- Two keys of ports in the network configuration, with 16-bit port numbers, are equal only if the
-- switch ids and the numbers are, whatever characters the ids have.
pub device_port-injective :
    (id id' : Text) (p p' : ℕ)
    → p < 2 ^ 16
    → p' < 2 ^ 16
    → device_port id p ≡ device_port id' p'
    → (id ≡ id') × (p ≡ p')
device_port-injective id id' p p' h h' e =
    let (same_id, same_digits) =
      split_last id id' (decimal p) (decimal p') (decimal-NoSlash p) (decimal-NoSlash p')
        (strip_prefix (codes "device:") _ _ e) in
    (same_id, decimal-injective p p' h h' same_digits)
