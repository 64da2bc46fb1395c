-- ===== src/Strconv.antt =====
-- `strconv.ParseUint(s, 10, 64)` and `strconv.ParseBool` of Go's standard library, as the adapter
-- calls them on attributes. Both errors of `ParseUint` are `bad_number`.
use fabric_adapter.Base.{
  ℕ, ◌+◌, ◌-◌, ◌*◌, ◌^◌, ◌≡◌, refl, Bool, true, false, ◌||◌, Option, none, some, [], ◌∷◌, Text,
  codes, ltb, ◌==◌, text_eq, text_eqb, if◌then◌else◌, Result, ok, err, bad_number, ◌<◌, arith,
}
use fabric_adapter.Net.{is_digit}

unfoldable pub parse_uint_loop : ℕ → Text → Result ℕ
unfolding is_digit
parse_uint_loop n [] = ok n
parse_uint_loop n (c ∷ s) =
    let n' = n * 10 + (c - b'0') in
    let rest = parse_uint_loop n' s in
    if is_digit c then (if ltb n' (2 ^ 64) then rest else err bad_number) else err bad_number

unfoldable pub parse_uint : Text → Result ℕ
unfolding parse_uint_loop
parse_uint s = if s == [] then err bad_number else parse_uint_loop 0 s

unfoldable pub parse_bool : Text → Option Bool
parse_bool s =
    if s == codes "1"
      || s == codes "t"
      || s == codes "T"
      || s == codes "true"
      || s == codes "TRUE"
      || s == codes "True"
    then some true
    else if s == codes "0"
        || s == codes "f"
        || s == codes "F"
        || s == codes "false"
        || s == codes "FALSE"
        || s == codes "False"
    then some false
    else none

parse_uint_loop-lt :
    (n : ℕ) (s : Text) (m : ℕ) → n < 2 ^ 64 → parse_uint_loop n s ≡ ok m → m < 2 ^ 64
unfolding parse_uint_loop
parse_uint_loop-lt n [] m h e = ground arith
parse_uint_loop-lt n (c ∷ s) m h e = ground (arith, parse_uint_loop-lt (n * 10 + (c - b'0')) s m)

-- An accepted number is a uint64.
pub parse_uint-lt : (s : Text) {m : ℕ} → parse_uint s ≡ ok m → m < 2 ^ 64
unfolding parse_uint
parse_uint-lt s {m} e = ground (arith, parse_uint_loop-lt 0 s m)

parse_uint_samples :
    (parse_uint (codes "25000000000") ≡ ok 25000000000)
    × (parse_uint (codes "18446744073709551616") ≡ err bad_number)
    × (parse_uint (codes "10G") ≡ err bad_number)
    × (parse_uint [] ≡ err bad_number)
unfolding parse_uint text_eqb
parse_uint_samples = (refl, refl, refl, refl)
