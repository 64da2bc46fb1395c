-- ===== src/Json/Laws.antt =====
-- Reading a document back by the names of its members: structs, slices and maps are recovered.
use fabric_adapter.Base.{
  ℕ, zero, suc, ◌≡◌, refl, sym, ap, ◌∙◌, true, false, ◌&&◌, none, some, Option, List, [], ◌∷◌, Text,
  lookup, text_eq, text_eqb_iff, HasDistinctKeys, arith, Bool,
}
use fabric_adapter.Json.{
  Json, Members, Items, object, array, string, number, boolean, no_members, no_items, item, nonzero,
  nonempty, filled, present, items_of, slice, get,
}

-- What a reader makes of a member that may be missing.
abbrev pub as_number : Option Json → ℕ
as_number (some (number n)) = n
as_number _ = 0

abbrev pub as_text : Option Json → Text
as_text (some (string s)) = s
as_text _ = []

abbrev pub as_boolean : Option Json → Bool
as_boolean (some (boolean b)) = b
as_boolean _ = false

abbrev pub as_members : Option Json → Members
as_members (some (object ms)) = ms
as_members _ = no_members

abbrev pub as_items : Option Json → Items
as_items (some (array is)) = is
as_items _ = no_items

unfoldable pub list_of {ℓ} : {A : Type ℓ} → (Json → A) → Items → List A
list_of g no_items = []
list_of g (item value is) = g value ∷ list_of g is

pub list_of-items_of {ℓ} :
    {A : Type ℓ} (f : A → Json) (g : Json → A) (xs : List A)
    → ((x : A) → g (f x) ≡ x)
    → list_of g (items_of f xs) ≡ xs
unfolding list_of items_of
list_of-items_of f g [] h = refl
list_of-items_of f g (x ∷ xs) h = cc (h x, list_of-items_of f g xs h)

as_number-nonzero : (n : ℕ) → as_number (nonzero n) ≡ n
as_number-nonzero zero = refl
as_number-nonzero (suc n) = refl

as_text-nonempty : (s : Text) → as_text (nonempty s) ≡ s
as_text-nonempty [] = refl
as_text-nonempty (c ∷ s) = refl

pub as_items-filled {ℓ} :
    {A : Type ℓ} (f : A → Json) (xs : List A) → as_items (filled (slice f) xs) ≡ items_of f xs
unfolding items_of
as_items-filled f [] = refl
as_items-filled f (x ∷ xs) = refl

abbrev pub joined : Option (Option Json) → Option Json
joined none = none
joined (some o) = o

missing :
    (name : Text) (fields : List (Text × Option Json))
    → lookup name fields ≡ none
    → get name (present fields) ≡ none
unfolding get present lookup
missing name [] h = refl
missing name ((tag, none) ∷ fields) h = ground (arith, missing name fields)
missing name ((tag, some value) ∷ fields) h = ground (arith, missing name fields)

-- A struct whose tags differ has under each tag the value of that field.
get-present :
    (name : Text) (fields : List (Text × Option Json))
    → HasDistinctKeys fields
    → get name (present fields) ≡ joined (lookup name fields)
unfolding get present lookup
get-present name [] h = refl
get-present name ((tag, none) ∷ fields) h =
    ground (arith, text_eqb_iff tag name, get-present name fields h.1, missing name fields, h.0)
get-present name ((tag, some value) ∷ fields) h = ground (arith, get-present name fields h.1)

-- The tags of a struct differ, as a test.
abbrev unused {ℓ} : {V : Type ℓ} → Option V → Bool
unused none = true
unused (some v) = false

unfoldable pub tags_differ : List (Text × Option Json) → Bool
tags_differ [] = true
tags_differ ((tag, o) ∷ fields) = unused (lookup tag fields) && tags_differ fields

tags_differ-HasDistinctKeys :
    (fields : List (Text × Option Json)) → tags_differ fields ≡ true → HasDistinctKeys fields
unfolding tags_differ
tags_differ-HasDistinctKeys [] h = tt
tags_differ-HasDistinctKeys ((tag, o) ∷ fields) h =
    (ground (arith, h), tags_differ-HasDistinctKeys fields (ground (arith, h)))

-- A field read back under its tag, by its type.
module _ (fields : List (Text × Option Json)) (differ : tags_differ fields ≡ true)
    (name : Text) where
  abbrev HasField : Option Json → Type 0
  HasField o = lookup name fields ≡ some o

  field_value : (o : Option Json) → HasField o → get name (present fields) ≡ o
  field_value o h =
      get-present name fields (tags_differ-HasDistinctKeys fields differ) ∙ ap joined h

  pub nonzero_field : (n : ℕ) → HasField (nonzero n) → as_number (get name (present fields)) ≡ n
  nonzero_field n h = ap as_number (field_value _ h) ∙ as_number-nonzero n

  pub number_field :
      (n : ℕ) → HasField (some (number n)) → as_number (get name (present fields)) ≡ n
  number_field n h = ap as_number (field_value _ h)

  pub nonempty_field : (s : Text) → HasField (nonempty s) → as_text (get name (present fields)) ≡ s
  nonempty_field s h = ap as_text (field_value _ h) ∙ as_text-nonempty s

  pub text_field : (s : Text) → HasField (some (string s)) → as_text (get name (present fields)) ≡ s
  text_field s h = ap as_text (field_value _ h)

  pub boolean_field :
      (b : Bool) → HasField (some (boolean b)) → as_boolean (get name (present fields)) ≡ b
  boolean_field b h = ap as_boolean (field_value _ h)

  pub members_field :
      (ms : Members) → HasField (some (object ms)) → as_members (get name (present fields)) ≡ ms
  members_field ms h = ap as_members (field_value _ h)

  pub option_field : (o : Option Json) → HasField o → get name (present fields) ≡ o
  option_field = field_value

  pub slice_field {ℓ} :
      {A : Type ℓ} (f : A → Json) (g : Json → A) (xs : List A)
      → ((x : A) → g (f x) ≡ x)
      → HasField (some (slice f xs))
      → list_of g (as_items (get name (present fields))) ≡ xs
  slice_field f g xs back h =
      ap (λ o. list_of g (as_items o)) (field_value _ h) ∙ list_of-items_of f g xs back

  pub filled_field {ℓ} :
      {A : Type ℓ} (f : A → Json) (g : Json → A) (xs : List A)
      → ((x : A) → g (f x) ≡ x)
      → HasField (filled (slice f) xs)
      → list_of g (as_items (get name (present fields))) ≡ xs
  filled_field f g xs back h =
      ap (λ o. list_of g (as_items o)) (field_value _ h)
      ∙ ap (list_of g) (as_items-filled f xs)
      ∙ list_of-items_of f g xs back

-- Structs with one document have the same value under each tag.
pub same_field :
    (fields others : List (Text × Option Json)) (name : Text) (o p : Option Json)
    → tags_differ fields ≡ true
    → tags_differ others ≡ true
    → lookup name fields ≡ some o
    → lookup name others ≡ some p
    → object (present fields) ≡ object (present others)
    → o ≡ p
same_field fields others name o p d d' h h' e =
    sym (option_field fields d name o h)
    ∙ ap (λ v. get name (as_members (some v))) e
    ∙ option_field others d' name p h'
