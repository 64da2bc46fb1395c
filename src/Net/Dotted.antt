-- ===== src/Net/Dotted.antt =====
-- Dotted decimal addresses under `ParseIP`.
use mathlib.Core.List.{append_assoc, append-nil}
use fabric_adapter.Base.{
  ℕ, zero, suc, ◌+◌, ◌*◌, ◌/◌, ◌%◌, ◌≤◌, ◌<◌, ◌≡◌, refl, true, false, none, some, Option, List, [],
  ◌∷◌, ◌++◌, Text, length, length-append, leb, ltb, nat_eqb, if◌then◌else◌, decimal_loop, decimal,
  ◌∙◌, sym, ap, ◌^◌, ◌-◌, arith, Bool-cases, inl, inr,
}
use fabric_adapter.Net.{
  is_digit, dtoi_loop, octet, octets, first, v4_prefix, parse_ipv4, parse_ipv6, ip_form, parse_ip,
}

decimal_loop_pos : (f n : ℕ) → n < f → 1 ≤ length (decimal_loop f n)
unfolding decimal_loop
decimal_loop_pos zero n h = absurd (omega arith)
decimal_loop_pos (suc f) n h =
    ground (arith, length-append (decimal_loop f (n / 10)) ((48 + n % 10) ∷ []))

is_digit_add : (d : ℕ) → d < 10 → is_digit (48 + d) ≡ true
unfolding is_digit
is_digit_add d h = ground arith

digit_value : (d : ℕ) → 48 + d - 48 ≡ d
digit_value d = omega arith

-- One more digit.
dtoi_loop_digit :
    (n i d : ℕ) (rest : Text)
    → d < 10
    → dtoi_loop n i ((48 + d) ∷ rest)
      ≡ (if leb 0xff_ffff (n * 10 + d) then none else dtoi_loop (n * 10 + d) (suc i) rest)
unfolding dtoi_loop
dtoi_loop_digit n i d rest h = rw (digit_value d, is_digit_add d h)

first_digit : (n : ℕ) → 0 * 10 + n ≡ n
first_digit n = omega arith

last_digit : (n : ℕ) → n / 10 * 10 + n % 10 ≡ n
last_digit n = omega arith

length-snoc : (xs : Text) (x : ℕ) → length (xs ++ x ∷ []) ≡ suc (length xs)
length-snoc xs x = rw length-append (omega arith)

-- The digits of a number read back as that number, unless it is too large for `dtoi`.
dtoi_loop-decimal_loop :
    (f n : ℕ) (rest : Text)
    → n < f
    → dtoi_loop 0 0 (decimal_loop f n ++ rest)
      ≡ (if leb 0xff_ffff n then none else dtoi_loop n (length (decimal_loop f n)) rest)
unfolding decimal_loop
dtoi_loop-decimal_loop zero n rest h = absurd (omega arith)
dtoi_loop-decimal_loop (suc f) n rest h = elim (Bool-cases (ltb n 10)) [
  | inl small ↦ rw small (dtoi_loop_digit 0 0 n rest (ground arith) ∙ rw (first_digit n))
  | inr large ↦ rw large (
      rw append_assoc (
        dtoi_loop-decimal_loop f (n / 10) ((48 + n % 10) ∷ rest) (ground arith)
        ∙ more (decimal_loop f (n / 10))))
]
  where
    more :
        (front : Text)
        → (if leb 0xff_ffff (n / 10)
            then none
            else dtoi_loop (n / 10) (length front) ((48 + n % 10) ∷ rest))
          ≡ (if leb 0xff_ffff n
              then none
              else dtoi_loop n (length (front ++ (48 + n % 10) ∷ [])) rest)
    more front = rw length-snoc (
        rw (dtoi_loop_digit (n / 10) (length front) (n % 10) rest (omega arith))
          (rw (last_digit n) (ground arith)))

-- The first digit of a positive number is not 0.
first-decimal_loop :
    (f n : ℕ) (rest : Text)
    → n < f
    → 0 < n
    → nat_eqb (first (decimal_loop f n ++ rest)) b'0' ≡ false
unfolding decimal_loop
first-decimal_loop zero n rest h p = absurd (omega arith)
first-decimal_loop (suc f) n rest h p = elim (Bool-cases (ltb n 10)) [
  | inl small ↦ rw small (ground arith)
  | inr large ↦ rw large (
      rw append_assoc
        (first-decimal_loop f (n / 10) ((48 + n % 10) ∷ rest) (ground arith) (ground arith)))
]

-- What stands behind the digits stops them.
abbrev pub EndsDigits : Text → Type 0
EndsDigits s = is_digit (first s) ≡ false

dtoi_loop_end :
    (n i : ℕ) (rest : Text) → 0 < i → EndsDigits rest → dtoi_loop n i rest ≡ some (n, i, rest)
unfolding dtoi_loop
dtoi_loop_end n i [] p e = ground arith
dtoi_loop_end n i (c ∷ s) p e = ground arith

length-decimal_loop : (f n : ℕ) → n < f → n < 10 → length (decimal_loop f n) ≡ 1
unfolding decimal_loop
length-decimal_loop zero n h k = absurd (omega arith)
length-decimal_loop (suc f) n h k = ground arith

octet_digits :
    (ds rest : Text) (n : ℕ)
    → dtoi_loop 0 0 (ds ++ rest) ≡ (if leb 0xff_ffff n then none else dtoi_loop n (length ds) rest)
    → dtoi_loop n (length ds) rest ≡ some (n, length ds, rest)
    → (0 < n → nat_eqb (first (ds ++ rest)) b'0' ≡ false)
    → (n < 10 → length ds ≡ 1)
    → octet (ds ++ rest) ≡ (if ltb 0xff n then none else some (n, rest))
unfolding octet
octet_digits ds rest n read end lead short = elim (Bool-cases (leb 0xff_ffff n)) [
  | inl large ↦ rw read (rw large (ground arith))
  | inr fits ↦ rw read (rw (fits, end) (ground (arith, lead, short)))
]

-- A field is read exactly when the number fits a byte.
octet-decimal :
    (n : ℕ) (rest : Text)
    → EndsDigits rest
    → octet (decimal n ++ rest) ≡ (if ltb 0xff n then none else some (n, rest))
unfolding decimal
octet-decimal n rest e =
    octet_digits (decimal_loop (suc n) n) rest n
      (dtoi_loop-decimal_loop (suc n) n rest (omega arith))
      (dtoi_loop_end n _ rest (omega (arith, decimal_loop_pos (suc n) n)) e)
      (first-decimal_loop (suc n) n rest (omega arith))
      (length-decimal_loop (suc n) n (omega arith))

-- `a.b.c.d`
abbrev pub dotted : ℕ → ℕ → ℕ → ℕ → Text
dotted a b c d = decimal a ++ (b'.' ∷ (decimal b ++ (b'.' ∷ (decimal c ++ (b'.' ∷ decimal d)))))

octets_dot :
    (k n : ℕ) (p : List ℕ) (rest : Text)
    → EndsDigits rest
    → octets (suc k) p (b'.' ∷ decimal n ++ rest)
      ≡ (if ltb 0xff n then none else octets k (p ++ n ∷ []) rest)
unfolding octets
octets_dot k n p rest e = rw (octet-decimal n rest e) (ground arith)

-- The scan for a dot or a colon passes over digits.
ip_form-decimal :
    (v4 v6 : Text → Option (List ℕ)) (f n : ℕ) (s whole : Text)
    → n < f
    → ip_form v4 v6 (decimal_loop f n ++ s) whole ≡ ip_form v4 v6 s whole
unfolding ip_form decimal_loop
ip_form-decimal v4 v6 zero n s whole h = absurd (omega arith)
ip_form-decimal v4 v6 (suc f) n s whole h = elim (Bool-cases (ltb n 10)) [
  | inl small ↦ rw small (ground arith)
  | inr large ↦ rw large (
      rw append_assoc
        (ip_form-decimal v4 v6 f (n / 10) ((48 + n % 10) ∷ s) whole (ground arith) ∙ ground arith))
]

EndsDigits-dot : (s : Text) → EndsDigits (b'.' ∷ s)
unfolding is_digit
EndsDigits-dot s = refl

EndsDigits-nil : EndsDigits []
unfolding is_digit
EndsDigits-nil = refl

parse_ipv4-octet :
    (s rest : Text) (n : ℕ) → octet s ≡ some (n, rest) → parse_ipv4 s ≡ octets 3 (n ∷ []) rest
unfolding parse_ipv4
parse_ipv4-octet s rest n h = ground arith

octets_last :
    (n : ℕ) (p : List ℕ)
    → octets 1 p (b'.' ∷ decimal n) ≡ (if ltb 0xff n then none else some (v4_prefix ++ p ++ n ∷ []))
unfolding octets
octets_last n p = rw (octet_whole n) (ground arith)
  where
    octet_whole : (n : ℕ) → octet (decimal n) ≡ (if ltb 0xff n then none else some (n, []))
    octet_whole n = rw append-nil at (octet-decimal n [] EndsDigits-nil)

byte_not_above : (n : ℕ) → n ≤ 255 → ltb 0xff n ≡ false
byte_not_above n h = ground arith

octet_then_dot : (n : ℕ) (t : Text) → n ≤ 255 → octet (decimal n ++ b'.' ∷ t) ≡ some (n, b'.' ∷ t)
octet_then_dot n t h = octet-decimal n (b'.' ∷ t) (EndsDigits-dot t) ∙ rw (byte_not_above n h)

octets_then_dot :
    (k n : ℕ) (p : List ℕ) (t : Text)
    → n ≤ 255
    → octets (suc k) p (b'.' ∷ (decimal n ++ b'.' ∷ t)) ≡ octets k (p ++ n ∷ []) (b'.' ∷ t)
octets_then_dot k n p t h = octets_dot k n p (b'.' ∷ t) (EndsDigits-dot t) ∙ rw (byte_not_above n h)

form_of_dotted :
    (a : ℕ) (t whole : Text)
    → ip_form parse_ipv4 parse_ipv6 (decimal a ++ b'.' ∷ t) whole ≡ parse_ipv4 whole
unfolding decimal
form_of_dotted a t whole =
    ip_form-decimal parse_ipv4 parse_ipv6 (suc a) a (b'.' ∷ t) whole (omega arith)
    ∙ unfold ip_form in refl

module _ (a b c d : ℕ) (ha : a ≤ 255) (hb : b ≤ 255) (hc : c ≤ 255) where
  parse_ipv4-dotted :
      parse_ipv4 (dotted a b c d)
      ≡ (if ltb 0xff d then none else some (v4_prefix ++ a ∷ b ∷ c ∷ d ∷ []))
  parse_ipv4-dotted =
      parse_ipv4-octet (dotted a b c d) _ a (octet_then_dot a _ ha)
      ∙ octets_then_dot 2 b (a ∷ []) _ hb
      ∙ octets_then_dot 1 c (a ∷ b ∷ []) _ hc
      ∙ octets_last d (a ∷ b ∷ c ∷ [])

  -- `ParseIP` reads a dotted address with bytes in its first three fields exactly when the last is
  -- a byte too, and then gives the address in its 16-byte form.
  pub parse_ip-dotted :
      parse_ip (dotted a b c d)
      ≡ (if ltb 0xff d then none else some (v4_prefix ++ a ∷ b ∷ c ∷ d ∷ []))
  unfolding parse_ip
  parse_ip-dotted = form_of_dotted a _ (dotted a b c d) ∙ parse_ipv4-dotted

read_back : Option (ℕ × ℕ × Text) → ℕ
read_back none = 0
read_back (some (n, i, rest)) = n

read-decimal : (n : ℕ) → n < 2 ^ 16 → read_back (dtoi_loop 0 0 (decimal n)) ≡ n
unfolding decimal read_back
read-decimal n h =
    let whole = rw append-nil at (dtoi_loop-decimal_loop (suc n) n [] (omega arith)) in
    rw whole (
      ground (
        arith,
        dtoi_loop_end n (length (decimal_loop (suc n) n)) [],
        decimal_loop_pos (suc n) n,
        EndsDigits-nil,
      ))

-- A uint16 is known from its digits.
pub decimal-injective : (m n : ℕ) → m < 2 ^ 16 → n < 2 ^ 16 → decimal m ≡ decimal n → m ≡ n
decimal-injective m n hm hn e =
    sym (read-decimal m hm) ∙ ap (λ (s : Text). read_back (dtoi_loop 0 0 s)) e ∙ read-decimal n hn
