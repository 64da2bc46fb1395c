-- ===== src/Json/Read/Values.antt =====
-- The values of `json.MarshalIndent` that hold no other value, read back.
use mathlib.Core.List.{append_assoc}
use fabric_adapter.Base.{
  ℕ, zero, suc, ◌+◌, ◌<◌, ◌≤◌, ◌≡◌, refl, sym, ap, ◌∙◌, Bool, true, false, ◌&&◌, some, [], ◌∷◌,
  ◌++◌, Text, arith,
}
use fabric_adapter.Json.{
  Json, Members, Items, object, array, string, number, boolean, no_members, member, no_items, item,
}
use fabric_adapter.Json.Print.{escape_loop, line, print, print_members, print_items}
use fabric_adapter.Json.Read.{
  skip_space, is_decimal, read_digits, read_value, as_number, read_more, read_more_items,
}
use fabric_adapter.Json.Read.Scan.{
  skip_space-line, read_string-escape_loop, is_ascii, EndsNumber, read_digits-decimal,
  decimal_first,
}

-- Enough calls to read a document, and whether its strings are ASCII.
unfoldable mutual
  pub weight : Json → ℕ
  weight (object ms) = 3 + weight_members ms
  weight (array is) = 3 + weight_items is
  weight (string s) = 0
  weight (number n) = 0
  weight (boolean b) = 0

  pub weight_members : Members → ℕ
  weight_members no_members = 0
  weight_members (member key value ms) = 2 + (weight value + weight_members ms)

  pub weight_items : Items → ℕ
  weight_items no_items = 0
  weight_items (item value is) = 2 + (weight value + weight_items is)

unfoldable mutual
  unfolding is_ascii

  pub has_ascii : Json → Bool
  has_ascii (object ms) = members_have_ascii ms
  has_ascii (array is) = items_have_ascii is
  has_ascii (string s) = is_ascii s
  has_ascii (number n) = true
  has_ascii (boolean b) = true

  pub members_have_ascii : Members → Bool
  members_have_ascii no_members = true
  members_have_ascii (member key value ms) =
      is_ascii key && (has_ascii value && members_have_ascii ms)

  pub items_have_ascii : Items → Bool
  items_have_ascii no_items = true
  items_have_ascii (item value is) = has_ascii value && items_have_ascii is

-- With enough calls, a value is read off the front of what follows it.
abbrev pub ReadsValue : Json → Type 0
ReadsValue v =
    (d : ℕ) (rest : Text) (f : ℕ)
    → weight v < f
    → EndsNumber rest
    → has_ascii v ≡ true
    → read_value f (print d v ++ rest) ≡ some (v, rest)

abbrev pub ReadsMembers : Members → Type 0
ReadsMembers ms =
    (d : ℕ) (rest : Text) (f : ℕ)
    → weight_members ms < f
    → members_have_ascii ms ≡ true
    → read_more f (skip_space (print_members d ms ++ rest)) ≡ some (ms, rest)

abbrev pub ReadsItems : Items → Type 0
ReadsItems is =
    (d : ℕ) (rest : Text) (f : ℕ)
    → weight_items is < f
    → items_have_ascii is ≡ true
    → read_more_items f (skip_space (print_items d is ++ rest)) ≡ some (is, rest)

-- more calls than some number are one and others
with_calls {ℓ} : (n : ℕ) (P : ℕ → Type ℓ) → ((f : ℕ) → n ≤ f → P (suc f)) → (f : ℕ) → n < f → P f
with_calls n P k zero h = absurd (omega arith)
with_calls n P k (suc f) h = k f (omega arith)

digit_value_read :
    (c : ℕ) (s : Text) (f : ℕ)
    → is_decimal c ≡ true
    → read_value (suc f) (c ∷ s) ≡ as_number (read_digits 0 (c ∷ s))
unfolding read_value
digit_value_read c s f h = ground (arith, h)

pub reads_number : (n : ℕ) → ReadsValue (number n)
unfolding print
reads_number n d rest = with_calls _ _ λ f h ends ascii.
    let (c, s, start, low) = decimal_first n in
    ap (λ (t : Text). read_value (suc f) (t ++ rest)) start
    ∙ digit_value_read c (s ++ rest) f low
    ∙ ap (λ (t : Text). as_number (read_digits 0 (t ++ rest))) (sym start)
    ∙ ap as_number (read_digits-decimal n rest ends)

pub reads_string : (s : Text) → ReadsValue (string s)
unfolding read_value print has_ascii
reads_string s d rest = with_calls _ _ λ f h ends ascii.
    rw (append_assoc (escape_loop 0 0 s) (b'"' ∷ []) rest)
      (rw (read_string-escape_loop s rest ascii) refl)

pub reads_boolean : (b : Bool) → ReadsValue (boolean b)
unfolding read_value print
reads_boolean true d rest = with_calls _ _ λ f h ends ascii. refl
reads_boolean false d rest = with_calls _ _ λ f h ends ascii. refl

pub reads_no_members : ReadsMembers no_members
unfolding read_more print_members skip_space
reads_no_members d rest = with_calls _ _ λ f h ascii.
    rw (append_assoc (line d) (b'}' ∷ []) rest) (rw (skip_space-line d (b'}' ∷ rest)) refl)

pub reads_no_items : ReadsItems no_items
unfolding read_more_items print_items skip_space
reads_no_items d rest = with_calls _ _ λ f h ascii.
    rw (append_assoc (line d) (b']' ∷ []) rest) (rw (skip_space-line d (b']' ∷ rest)) refl)

-- no value starts with a space
pub skip_space-print :
    (v : Json) (d : ℕ) (rest : Text) → skip_space (print d v ++ rest) ≡ print d v ++ rest
unfolding skip_space print
skip_space-print (object no_members) d rest = refl
skip_space-print (object (member key value ms)) d rest = refl
skip_space-print (array no_items) d rest = refl
skip_space-print (array (item value is)) d rest = refl
skip_space-print (string s) d rest = refl
skip_space-print (boolean true) d rest = refl
skip_space-print (boolean false) d rest = refl
skip_space-print (number n) d rest =
    let (c, s, start, low) = decimal_first n in rw start (ground (arith, low))

pub print_members-EndsNumber :
    (d : ℕ) (ms : Members) (rest : Text) → EndsNumber (print_members d ms ++ rest)
unfolding print_members
print_members-EndsNumber d no_members rest = refl
print_members-EndsNumber d (member key value ms) rest = refl

pub print_items-EndsNumber :
    (d : ℕ) (is : Items) (rest : Text) → EndsNumber (print_items d is ++ rest)
unfolding print_items
print_items-EndsNumber d no_items rest = refl
print_items-EndsNumber d (item value is) rest = refl
