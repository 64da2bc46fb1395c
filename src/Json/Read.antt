-- ===== src/Json/Read.antt =====
-- A reader of JSON texts (RFC 8259, with numbers that are digits and escapes below U+0080), as the
-- receiver of a document has one.
pub mod Scan
pub mod Values
pub mod Parts
pub mod RoundTrip
use fabric_adapter.Base.{
  ℕ, zero, suc, ◌+◌, ◌-◌, ◌*◌, Bool, true, false, ◌||◌, ◌&&◌, Option, none, some, [], ◌∷◌, Text,
  codes, ltb, leb, nat_eqb, if◌then◌else◌,
}
use fabric_adapter.Json.{
  Json, Members, Items, object, array, string, number, boolean, no_members, member, no_items, item,
}

-- Inside a string: at a character, behind a backslash, or at a hexadecimal digit, with those left
-- after it and the value of those before it.
pub data Mode : Type 0 where
  plain escaped : Mode
  hex : ℕ → ℕ → Mode

abbrev digit_value : ℕ → ℕ
digit_value c = if ltb c 58 then c - 48 else c - 87

abbrev revealed : ℕ → ℕ
revealed c =
    if nat_eqb c b'n' then 10 else if nat_eqb c b'r' then 13 else if nat_eqb c b't' then 9 else c

abbrev prefixed : ℕ → Option (Text × Text) → Option (Text × Text)
prefixed c none = none
prefixed c (some (s, rest)) = some (c ∷ s, rest)

-- the characters up to the closing quote, and what follows it
unfoldable pub read_string : Mode → Text → Option (Text × Text)
read_string m [] = none
read_string plain (c ∷ s) = elim (nat_eqb c b'"') [
  | true ↦ some ([], s)
  | false ↦ elim (nat_eqb c b'\\') [
    | true ↦ read_string escaped s
    | false ↦ prefixed c (read_string plain s)
  ]
]
read_string escaped (c ∷ s) = elim (nat_eqb c b'u') [
  | true ↦ read_string (hex 3 0) s
  | false ↦ prefixed (revealed c) (read_string plain s)
]
read_string (hex zero n) (c ∷ s) = prefixed (n * 16 + digit_value c) (read_string plain s)
read_string (hex (suc k) n) (c ∷ s) = read_string (hex k (n * 16 + digit_value c)) s

unfoldable pub skip_space : Text → Text
skip_space [] = []
skip_space (c ∷ s) = elim (nat_eqb c b' ' || nat_eqb c b'\n') [
  | true ↦ skip_space s
  | false ↦ c ∷ s
]

abbrev is_decimal : ℕ → Bool
is_decimal c = leb 48 c && leb c 57

unfoldable pub read_digits : ℕ → Text → ℕ × Text
read_digits n [] = (n, [])
read_digits n (c ∷ s) = elim (is_decimal c) [
  | true ↦ read_digits (n * 10 + (c - 48)) s
  | false ↦ (n, c ∷ s)
]

abbrev as_number : ℕ × Text → Option (Json × Text)
as_number (n, rest) = some (number n, rest)

-- what is read, and then more from behind it
abbrev and_then {ℓ κ} :
    {A : Type ℓ} {B : Type κ}
    → Option (A × Text)
    → (A → Text → Option (B × Text))
    → Option (B × Text)
and_then none f = none
and_then (some (a, rest)) f = f a rest

-- a text behind a character that is expected
abbrev behind {ℓ} : {A : Type ℓ} → ℕ → Text → (Text → Option (A × Text)) → Option (A × Text)
behind c [] f = none
behind c (d ∷ s) f = elim (nat_eqb d c) [ true ↦ f s | false ↦ none ]

pub data Head : Type 0 where
  brace bracket quote digit letter_t letter_f other : Head

abbrev head_of : ℕ → Head
head_of c =
    if nat_eqb c b'{'
    then brace
    else if nat_eqb c b'['
    then bracket
    else if nat_eqb c b'"'
    then quote
    else if is_decimal c
    then digit
    else if nat_eqb c b't'
    then letter_t
    else if nat_eqb c b'f'
    then letter_f
    else other

abbrev drop : ℕ → Text → Text
drop zero s = s
drop (suc n) [] = []
drop (suc n) (c ∷ s) = drop n s

-- A value, at its first character; the number bounds the depth of the calls.
unfoldable mutual
  unfolding read_string skip_space read_digits

  pub read_value : ℕ → Text → Option (Json × Text)
  read_value zero s = none
  read_value (suc f) [] = none
  read_value (suc f) (c ∷ s) = elim (head_of c) [
    | brace ↦ and_then (read_object f (skip_space s)) (λ ms rest. some (object ms, rest))
    | bracket ↦ and_then (read_array f (skip_space s)) (λ is rest. some (array is, rest))
    | quote ↦ and_then (read_string plain s) (λ t rest. some (string t, rest))
    | digit ↦ as_number (read_digits 0 (c ∷ s))
    | letter_t ↦ some (boolean true, drop 3 s)
    | letter_f ↦ some (boolean false, drop 4 s)
    | other ↦ none
  ]

  -- behind an opening brace
  pub read_object : ℕ → Text → Option (Members × Text)
  read_object zero s = none
  read_object (suc f) [] = none
  read_object (suc f) (c ∷ s) = elim (nat_eqb c b'}') [
    | true ↦ some (no_members, s)
    | false ↦ read_member f (c ∷ s)
  ]

  -- at the opening quote of a name
  pub read_member : ℕ → Text → Option (Members × Text)
  read_member zero s = none
  read_member (suc f) s = behind b'"' s (λ t. and_then (read_string plain t) (λ key rest.
      behind b':' rest (λ u. and_then (read_value f (skip_space u)) (λ value rest'.
        and_then (read_more f (skip_space rest'))
          (λ ms rest''. some (member key value ms, rest''))))))

  -- behind a member
  pub read_more : ℕ → Text → Option (Members × Text)
  read_more zero s = none
  read_more (suc f) [] = none
  read_more (suc f) (c ∷ s) = elim (nat_eqb c b',') [
    | true ↦ read_member f (skip_space s)
    | false ↦ elim (nat_eqb c b'}') [ true ↦ some (no_members, s) | false ↦ none ]
  ]

  -- behind an opening bracket
  pub read_array : ℕ → Text → Option (Items × Text)
  read_array zero s = none
  read_array (suc f) [] = none
  read_array (suc f) (c ∷ s) = elim (nat_eqb c b']') [
    | true ↦ some (no_items, s)
    | false ↦ read_item f (c ∷ s)
  ]

  pub read_item : ℕ → Text → Option (Items × Text)
  read_item zero s = none
  read_item (suc f) s = and_then (read_value f s) (λ value rest.
      and_then (read_more_items f (skip_space rest)) (λ is rest'. some (item value is, rest')))

  -- behind an item
  pub read_more_items : ℕ → Text → Option (Items × Text)
  read_more_items zero s = none
  read_more_items (suc f) [] = none
  read_more_items (suc f) (c ∷ s) = elim (nat_eqb c b',') [
    | true ↦ read_item f (skip_space s)
    | false ↦ elim (nat_eqb c b']') [ true ↦ some (no_items, s) | false ↦ none ]
  ]
