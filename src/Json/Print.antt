-- ===== src/Json/Print.antt =====
-- `json.MarshalIndent(v, "", "  ")`: a document as text, with a line for each member and each item.
-- Strings are escaped as by the encoder of Go 1.16 with HTML escaping, which is the default.
use fabric_adapter.Base.{
  ℕ, zero, suc, ◌*◌, ◌/◌, ◌%◌, ◌+◌, ◌≡◌, refl, Bool, true, false, ◌&&◌, ◌||◌, [], ◌∷◌, ◌++◌, Text,
  codes, decimal, ltb, leb, nat_eqb, if◌then◌else◌, replicate, text_eq,
}
use fabric_adapter.Json.{
  Json, Members, Items, object, array, string, number, boolean, no_members, member, no_items, item,
}

-- `hex[b&0xF]`
abbrev low_hex_digit : ℕ → ℕ
low_hex_digit d = if ltb d 10 then 48 + d else 87 + d

-- `\u00XX`
abbrev unicode_escape : ℕ → Text
unicode_escape c = codes "\\u00" ++ low_hex_digit (c / 16) ∷ low_hex_digit (c % 16) ∷ []

-- one byte below 0x80
unfoldable pub escape_ascii : ℕ → Text
escape_ascii c =
    if nat_eqb c b'"' || nat_eqb c b'\\'
    then b'\\' ∷ c ∷ []
    else if nat_eqb c b'\n'
    then codes "\\n"
    else if nat_eqb c b'\r'
    then codes "\\r"
    else if nat_eqb c b'\t'
    then codes "\\t"
    else if ltb c 32 || nat_eqb c b'<' || nat_eqb c b'>' || nat_eqb c b'&'
    then unicode_escape c
    else c ∷ []

abbrev within : ℕ → ℕ → ℕ → Bool
within low high c = leb low c && leb c high

abbrev continues : ℕ → Bool
continues = within 0x80 0xBF

-- the bounds of the second byte of a UTF-8 sequence by its first
abbrev second_of_three : ℕ → ℕ → Bool
second_of_three a b =
    (nat_eqb a 0xE0 && within 0xA0 0xBF b)
    || (nat_eqb a 0xED && within 0x80 0x9F b)
    || ((within 0xE1 0xEC a || within 0xEE 0xEF a) && continues b)

abbrev second_of_four : ℕ → ℕ → Bool
second_of_four a b =
    (nat_eqb a 0xF0 && within 0x90 0xBF b)
    || (within 0xF1 0xF3 a && continues b)
    || (nat_eqb a 0xF4 && within 0x80 0x8F b)

abbrev four_bytes : Text → Bool
four_bytes (a ∷ b ∷ c ∷ d ∷ s) = second_of_four a b && continues c && continues d
four_bytes _ = false

abbrev three_bytes : Text → Bool
three_bytes (a ∷ b ∷ c ∷ s) = second_of_three a b && continues c
three_bytes _ = false

abbrev two_bytes : Text → Bool
two_bytes (a ∷ b ∷ s) = within 0xC2 0xDF a && continues b
two_bytes _ = false

-- `utf8.DecodeRuneInString` at a byte from 0x80: the bytes of the sequence after the first, or none
-- if it is not valid
unfoldable pub more_bytes : Text → ℕ
more_bytes s = if four_bytes s then 3 else if three_bytes s then 2 else if two_bytes s then 1 else 0

-- U+2028 and U+2029, which JavaScript takes for ends of lines
abbrev line_separator : Text → Bool
line_separator (a ∷ b ∷ c ∷ s) = nat_eqb a 0xE2 && nat_eqb b 0x80 && within 0xA8 0xA9 c
line_separator _ = false

abbrev separator_escape : Text → Text
separator_escape (a ∷ b ∷ c ∷ s) = codes "\\u202" ++ low_hex_digit (c % 16) ∷ []
separator_escape _ = []

-- `encodeState.string`; of a sequence that was recognised, `kept` or `dropped` bytes are left
unfoldable pub escape_loop : ℕ → ℕ → Text → Text
unfolding escape_ascii more_bytes
escape_loop kept dropped [] = []
escape_loop (suc kept) dropped (c ∷ s) = c ∷ escape_loop kept dropped s
escape_loop zero (suc dropped) (c ∷ s) = escape_loop zero dropped s
escape_loop zero zero (c ∷ s) = elim (ltb c 0x80) [
  | true ↦ escape_ascii c ++ escape_loop zero zero s
  | false ↦ elim (line_separator (c ∷ s)) [
    | true ↦ separator_escape (c ∷ s) ++ escape_loop zero 2 s
    | false ↦ elim (more_bytes (c ∷ s)) [
      | zero ↦ codes "\\ufffd" ++ escape_loop zero zero s
      | suc n ↦ c ∷ escape_loop (suc n) zero s
    ]
  ]
]

abbrev pub quoted : Text → Text
quoted s = b'"' ∷ (escape_loop 0 0 s ++ b'"' ∷ [])

-- a new line at a depth
abbrev pub line : ℕ → Text
line depth = b'\n' ∷ replicate (depth * 2) b' '

abbrev pub boolean_text : Bool → Text
boolean_text true = codes "true"
boolean_text false = codes "false"

-- `Indent`: an empty array or object stays on its line
unfoldable mutual
  unfolding escape_loop decimal

  pub print : ℕ → Json → Text
  print depth (object no_members) = codes "{}"
  print depth (object (member key value ms)) =
      b'{' ∷ line (suc depth)
      ++ (quoted key ++ (codes ": " ++ (print (suc depth) value ++ print_members depth ms)))
  print depth (array no_items) = codes "[]"
  print depth (array (item value is)) =
      b'[' ∷ line (suc depth) ++ (print (suc depth) value ++ print_items depth is)
  print depth (string s) = quoted s
  print depth (number n) = decimal n
  print depth (boolean b) = boolean_text b

  pub print_members : ℕ → Members → Text
  print_members depth no_members = line depth ++ b'}' ∷ []
  print_members depth (member key value ms) =
      b',' ∷ line (suc depth)
      ++ (quoted key ++ (codes ": " ++ (print (suc depth) value ++ print_members depth ms)))

  pub print_items : ℕ → Items → Text
  print_items depth no_items = line depth ++ b']' ∷ []
  print_items depth (item value is) =
      b',' ∷ line (suc depth) ++ (print (suc depth) value ++ print_items depth is)

sample :
    print 0 (
      object (
        member (codes "a<b") (number 10) (
          member
            (codes "c")
            (array (item (boolean true) no_items))
            (member (codes "d\"") (object no_members) no_members))))
    ≡ codes "{\n  \"a\\u003cb\": 10,\n  \"c\": [\n    true\n  ],\n  \"d\\\"\": {}\n}"
unfolding print decimal
sample = refl

-- a separator, a letter of two bytes, and a byte that is no UTF-8
escape_samples :
    (quoted (0xE2 ∷ 0x80 ∷ 0xA8 ∷ b'x' ∷ []) ≡ codes "\"\\u2028x\"")
    × (quoted (0xC3 ∷ 0xA9 ∷ b'x' ∷ []) ≡ b'"' ∷ 0xC3 ∷ 0xA9 ∷ codes "x\"")
    × (quoted (0xC3 ∷ b'x' ∷ []) ≡ codes "\"\\ufffdx\"")
unfolding escape_loop
escape_samples = (refl, refl, refl)
