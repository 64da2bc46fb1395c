-- ===== src/Net.antt =====
-- `net.ParseIP` of Go's standard library, which pkg/synchronizer/util.go calls on management
-- addresses: dotted decimal, and the colon form with an ellipsis and a trailing dotted part. A
-- parsed address is its 16 bytes. Leading zeros are refused, as Go does since 1.17.
pub mod Dotted
pub mod Shape
use fabric_adapter.Base.{
  ℕ, zero, suc, ◌+◌, ◌-◌, ◌*◌, ◌/◌, ◌%◌, Bool, ◌&&◌, ◌||◌, Option, none, some, List, [], ◌∷◌, ◌++◌,
  codes, ◌≡◌, refl, not, Text, length, replicate, ltb, leb, nat_eqb, if◌then◌else◌,
}

unfoldable pub is_digit : ℕ → Bool
is_digit c = leb b'0' c && leb c b'9'

-- `dtoi`: the number at the front, how many digits it has, and what follows; `none` without a
-- digit, and at 0xFFFFFF, where the source gives up.
unfoldable pub dtoi_loop : ℕ → ℕ → Text → Option (ℕ × ℕ × Text)
unfolding is_digit
dtoi_loop n i [] = if nat_eqb i 0 then none else some (n, i, [])
dtoi_loop n i (c ∷ s) =
    let n' = n * 10 + (c - b'0') in
    let rest = dtoi_loop n' (suc i) s in
    if is_digit c
    then (if leb 0xff_ffff n' then none else rest)
    else if nat_eqb i 0
    then none
    else some (n, i, c ∷ s)

unfoldable pub dtoi : Text → Option (ℕ × ℕ × Text)
unfolding dtoi_loop
dtoi = dtoi_loop 0 0

abbrev first : Text → ℕ
first [] = 0
first (c ∷ s) = c

-- One of the four fields: a number up to 255 with no leading zero.
field_of : ℕ → Option (ℕ × ℕ × Text) → Option (ℕ × Text)
field_of c none = none
field_of c (some (n, i, rest)) =
    if ltb 0xff n || (ltb 1 i && nat_eqb c b'0') then none else some (n, rest)

unfoldable pub octet : Text → Option (ℕ × Text)
unfolding field_of dtoi
octet s = field_of (first s) (dtoi s)

abbrev pub v4_prefix : List ℕ
v4_prefix = replicate 10 0 ++ 0xff ∷ 0xff ∷ []

-- The rounds of `parseIPv4` after the first: a dot, then a field.
unfoldable pub octets : ℕ → List ℕ → Text → Option (List ℕ)
octets zero p [] = some (v4_prefix ++ p)
octets zero p (c ∷ s) = none
octets (suc k) p [] = none
octets (suc k) p (c ∷ s) =
    if nat_eqb c b'.'
    then elim (octet s) [ none ↦ none | some (n, rest) ↦ octets k (p ++ n ∷ []) rest ]
    else none

unfoldable pub parse_ipv4 : Text → Option (List ℕ)
parse_ipv4 s = elim (octet s) [ none ↦ none | some (n, rest) ↦ octets 3 (n ∷ []) rest ]

-- The value of a hexadecimal digit.
hex_value : ℕ → Option ℕ
unfolding is_digit
hex_value c =
    if is_digit c
    then some (c - b'0')
    else if leb b'a' c && leb c b'f'
    then some (c - b'a' + 10)
    else if leb b'A' c && leb c b'F'
    then some (c - b'A' + 10)
    else none

-- `xtoi`, as `dtoi`.
xtoi_loop : ℕ → ℕ → Text → Option (ℕ × Text)
unfolding hex_value
xtoi_loop n i [] = if nat_eqb i 0 then none else some (n, [])
xtoi_loop n i (c ∷ s) = elim (hex_value c) [
  | some d ↦ if leb 0xff_ffff (n * 16 + d) then none else xtoi_loop (n * 16 + d) (suc i) s
  | none ↦ if nat_eqb i 0 then none else some (n, c ∷ s)
]

-- The groups read so far: the bytes before the ellipsis, and those after it once it was seen.
pub record Groups : Type 0 where
  pub front : List ℕ
  pub back : Option (List ℕ)

unfoldable pub bytes_read : Groups → ℕ
bytes_read g = length g.front + elim g.back [ none ↦ 0 | some b ↦ length b ]

unfoldable pub push : List ℕ → Groups → Groups
push bytes g = elim g.back [
  | none ↦ record g { front = g.front ++ bytes }
  | some b ↦ record g { back = some (b ++ bytes) }
]

-- The end of `parseIPv6`: the ellipsis expands to the zeros that are missing, at least one.
unfoldable pub finish : Groups → Option (List ℕ)
unfolding bytes_read
finish g = elim g.back [
  | none ↦ if nat_eqb (length g.front) 16 then some g.front else none
  | some b ↦
      if ltb (length g.front + length b) 16
      then some (g.front ++ replicate (16 - (length g.front + length b)) 0 ++ b)
      else none
]

-- A trailing dotted part stands for the last four bytes.
misplaced : Groups → Bool
unfolding bytes_read
misplaced g = elim g.back [
  | none ↦ not (nat_eqb (length g.front) 12)
  | some b ↦ ltb 12 (length g.front + length b)
]

last_four : List ℕ → List ℕ
last_four (a ∷ b ∷ c ∷ d ∷ []) = a ∷ b ∷ c ∷ d ∷ []
last_four (a ∷ p) = last_four p
last_four [] = []

unfoldable pub embedded : Groups → Text → Option (List ℕ)
unfolding misplaced last_four push finish
embedded g s =
    if misplaced g
    then none
    else elim (parse_ipv4 s) [ none ↦ none | some p ↦ finish (push (last_four p) g) ]

-- After a colon: more must follow, and a second colon is the ellipsis, of which there is one.
after_colon : Groups → (Groups → Text → Option (List ℕ)) → Text → Option (List ℕ)
unfolding finish
after_colon g more [] = none
after_colon g more (c ∷ s) =
    if nat_eqb c b':'
    then elim g.back [
      | some b ↦ none
      | none ↦ elim s [
        | [] ↦ finish (record g { back = some [] })
        | d ∷ s' ↦ more (record g { back = some [] }) (d ∷ s')
      ]
    ]
    else more g (c ∷ s)

-- The rounds of the loop of `parseIPv6`; each reads two bytes, so there are at most eight.
unfoldable pub groups : ℕ → Groups → Text → Option (List ℕ)
unfolding xtoi_loop embedded after_colon push finish
groups zero g [] = finish g
groups zero g (c ∷ s) = none
groups (suc k) g s = elim (xtoi_loop 0 0 s) [
  | none ↦ none
  | some (n, rest) ↦ if ltb 0xffff n then none else elim rest [
    | [] ↦ finish (push (n / 256 ∷ n % 256 ∷ []) g)
    | c ∷ rest' ↦
        if nat_eqb c b'.'
        then embedded g s
        else if nat_eqb c b':'
        then after_colon (push (n / 256 ∷ n % 256 ∷ []) g) (groups k) rest'
        else none
  ]
]

-- A leading ellipsis; alone, it is the zero address.
unfoldable pub parse_ipv6 : Text → Option (List ℕ)
unfolding groups
parse_ipv6 (c ∷ d ∷ s) =
    if nat_eqb c b':' && nat_eqb d b':'
    then elim s [
      | [] ↦ some (replicate 16 0)
      | e ∷ s' ↦ groups 8 (record { front = []; back = some [] }) (e ∷ s')
    ]
    else groups 8 (record { front = []; back = none }) (c ∷ d ∷ s)
parse_ipv6 s = groups 8 (record { front = []; back = none }) s

-- `ParseIP`: the first dot or colon decides the form.
unfoldable pub ip_form :
    (Text → Option (List ℕ)) → (Text → Option (List ℕ)) → Text → Text → Option (List ℕ)
ip_form v4 v6 [] whole = none
ip_form v4 v6 (c ∷ s) whole =
    let rest = ip_form v4 v6 s whole in
    if nat_eqb c b'.' then v4 whole else if nat_eqb c b':' then v6 whole else rest

unfoldable pub parse_ip : Text → Option (List ℕ)
parse_ip s = ip_form parse_ipv4 parse_ipv6 s s

parse_samples :
    (parse_ip (codes "192.168.55.7") ≡ some (v4_prefix ++ 192 ∷ 168 ∷ 55 ∷ 7 ∷ []))
    × (parse_ip (codes "192.168.55.256") ≡ none)
    × (parse_ip (codes "switch-1.local") ≡ none)
    × (parse_ip (codes "10.0.0.01") ≡ none)
    × (parse_ip (codes "fe80::1:ABcd")
        ≡ some (0xfe ∷ 0x80 ∷ replicate 10 0 ++ 0 ∷ 1 ∷ 0xab ∷ 0xcd ∷ []))
    × (parse_ip (codes "::") ≡ some (replicate 16 0))
    × (parse_ip (codes "1:2:3:4:5:6:7:8:9") ≡ none)
    × (parse_ip (codes "::ffff:1.2.3.4") ≡ some (v4_prefix ++ 1 ∷ 2 ∷ 3 ∷ 4 ∷ []))
    × (parse_ip (codes "1:2:3:4:5:6:7::")
        ≡ some (0 ∷ 1 ∷ 0 ∷ 2 ∷ 0 ∷ 3 ∷ 0 ∷ 4 ∷ 0 ∷ 5 ∷ 0 ∷ 6 ∷ 0 ∷ 7 ∷ 0 ∷ 0 ∷ []))
unfolding parse_ip ip_form parse_ipv4 octets octet parse_ipv6
parse_samples = (refl, refl, refl, refl, refl, refl, refl, refl, refl)
