-- ===== src/Json/Read/Scan.antt =====
-- The strings and numbers of `json.MarshalIndent`, and its spaces, as a reader passes them.
use mathlib.Core.List.{append_assoc}
use fabric_adapter.Base.{
  ℕ, zero, suc, ◌+◌, ◌*◌, ◌/◌, ◌%◌, ◌<◌, ◌≡◌, refl, ap, ◌∙◌, Bool, true, false, ◌&&◌, some, [], ◌∷◌,
  ◌++◌, Text, decimal, decimal_loop, ltb, replicate, arith, Bool-cases, inl, inr,
}
use fabric_adapter.Json.Print.{escape_ascii, escape_loop, line}
use fabric_adapter.Json.Read.{plain, read_string, prefixed, skip_space, is_decimal, read_digits}

-- a character that is escaped, read back
read_string-escape_ascii :
    (c : ℕ) (rest : Text)
    → c < 128
    → read_string plain (escape_ascii c ++ rest) ≡ prefixed c (read_string plain rest)
unfolding read_string escape_ascii
read_string-escape_ascii c rest h = ground (arith, h)

unfoldable pub is_ascii : Text → Bool
is_ascii [] = true
is_ascii (c ∷ s) = ltb c 128 && is_ascii s

escape_loop-ascii :
    (c : ℕ) (s : Text) → c < 128 → escape_loop 0 0 (c ∷ s) ≡ escape_ascii c ++ escape_loop 0 0 s
unfolding escape_loop
escape_loop-ascii c s h = ground (arith, h)

pub read_string-escape_loop :
    (s rest : Text)
    → is_ascii s ≡ true
    → read_string plain (escape_loop 0 0 s ++ b'"' ∷ rest) ≡ some (s, rest)
unfolding is_ascii
read_string-escape_loop [] rest h = unfold read_string escape_loop in refl
read_string-escape_loop (c ∷ s) rest h =
    let low : c < 128 = ground (arith, h) in
    ap (λ (t : Text). read_string plain (t ++ b'"' ∷ rest)) (escape_loop-ascii c s low)
    ∙ ap (read_string plain) (append_assoc (escape_ascii c) (escape_loop 0 0 s) (b'"' ∷ rest))
    ∙ read_string-escape_ascii c (escape_loop 0 0 s ++ b'"' ∷ rest) low
    ∙ ap (prefixed c) (read_string-escape_loop s rest (ground (arith, h)))

pub skip_space-line : (d : ℕ) (rest : Text) → skip_space (line d ++ rest) ≡ skip_space rest
unfolding skip_space
skip_space-line d rest = spaces (d * 2)
  where
    spaces : (n : ℕ) → skip_space (replicate n b' ' ++ rest) ≡ skip_space rest
    spaces zero = refl
    spaces (suc n) = spaces n

pub last_digit :
    (n : ℕ) (rest : Text) → read_digits (n / 10) ((48 + n % 10) ∷ rest) ≡ read_digits n rest
unfolding read_digits
last_digit n rest = ground arith

-- digits after those of a number
read_digits-decimal_loop :
    (f n : ℕ) (rest : Text) → n < f → read_digits 0 (decimal_loop f n ++ rest) ≡ read_digits n rest
unfolding read_digits decimal_loop
read_digits-decimal_loop zero n rest h = absurd (omega arith)
read_digits-decimal_loop (suc f) n rest h = elim (Bool-cases (ltb n 10)) [
  | inl e ↦ ground (arith, e)
  | inr e ↦ rw e (
      ap (read_digits 0) (append_assoc (decimal_loop f (n / 10)) ((48 + n % 10) ∷ []) rest)
      ∙ read_digits-decimal_loop f (n / 10) ((48 + n % 10) ∷ rest) (ground (arith, e, h))
      ∙ last_digit n rest)
]

-- a text that does not go on with a digit
abbrev pub EndsNumber : Text → Type 0
EndsNumber [] = Unit {0}
EndsNumber (c ∷ s) = is_decimal c ≡ false

stop_digits : (k : ℕ) (r : Text) → EndsNumber r → read_digits k r ≡ (k, r)
unfolding read_digits
stop_digits k [] h = refl
stop_digits k (c ∷ r) h = rw (h, read_digits) refl

pub read_digits-decimal :
    (n : ℕ) (rest : Text) → EndsNumber rest → read_digits 0 (decimal n ++ rest) ≡ (n, rest)
unfolding decimal
read_digits-decimal n rest h =
    read_digits-decimal_loop (suc n) n rest (omega arith) ∙ stop_digits n rest h

-- a number starts with a digit
digit_first :
    (f n : ℕ) → n < f → (c : ℕ) × (s : Text) × (decimal_loop f n ≡ c ∷ s) × (is_decimal c ≡ true)
unfolding decimal_loop
digit_first zero n h = absurd (omega arith)
digit_first (suc f) n h = elim (Bool-cases (ltb n 10)) [
  | inl e ↦ (48 + n, [], rw e refl, ground (arith, e))
  | inr e ↦
      let (c, s, start, low) = digit_first f (n / 10) (ground (arith, e, h)) in
      (c, s ++ (48 + n % 10) ∷ [], rw e (rw start refl), low)
]

pub decimal_first : (n : ℕ) → (c : ℕ) × (s : Text) × (decimal n ≡ c ∷ s) × (is_decimal c ≡ true)
unfolding decimal
decimal_first n = digit_first (suc n) n (omega arith)
