-- ===== src/Json/Read/Parts.antt =====
-- The members and items of `json.MarshalIndent`, each on a line of its own, read back.
use mathlib.Core.List.{append_assoc}
use fabric_adapter.Base.{
  ℕ, zero, suc, ◌+◌, ◌<◌, ◌≡◌, refl, sym, ap, ◌∙◌, true, false, some, ◌∷◌, ◌++◌, Text, codes, arith,
}
use fabric_adapter.Json.{
  Json, Members, Items, object, array, string, number, boolean, no_members, member, no_items, item,
}
use fabric_adapter.Json.Print.{escape_loop, quoted, line, print, print_members, print_items}
use fabric_adapter.Json.Read.{
  skip_space, read_value, read_object, read_member, read_array, read_item,
}
use fabric_adapter.Json.Read.Scan.{
  skip_space-line, read_string-escape_loop, EndsNumber, decimal_first,
}
use fabric_adapter.Json.Read.Values.{
  weight, weight_members, weight_items, has_ascii, members_have_ascii, items_have_ascii, ReadsValue,
  ReadsMembers, ReadsItems, skip_space-print, print_members-EndsNumber, print_items-EndsNumber,
}

-- A member on a line of its own, and those after it.
abbrev pub member_text : ℕ → Text → Json → Members → Text
member_text d key value ms =
    line (suc d) ++ (quoted key ++ (codes ": " ++ (print (suc d) value ++ print_members d ms)))

abbrev pub regrouped : ℕ → Text → Json → Members → Text → Text
regrouped d key value ms rest =
    b'"'
    ∷ (escape_loop 0 0 key
        ++ b'"' ∷ b':' ∷ b' ' ∷ (print (suc d) value ++ (print_members d ms ++ rest)))

member_text-regrouped :
    (d : ℕ) (key : Text) (value : Json) (ms : Members) (rest : Text)
    → member_text d key value ms ++ rest ≡ line (suc d) ++ regrouped d key value ms rest
member_text-regrouped d key value ms rest = simp (append_assoc)

after_blank :
    (value : Json) (d : ℕ) (rest : Text) (f : ℕ)
    → ReadsValue value
    → weight value < f
    → EndsNumber rest
    → has_ascii value ≡ true
    → read_value f (skip_space (b' ' ∷ (print d value ++ rest))) ≡ some (value, rest)
unfolding skip_space
after_blank value d rest f v h ends ascii =
    ap (read_value f) (skip_space-print value d rest) ∙ v d rest f h ends ascii

after_line :
    (value : Json) (d : ℕ) (rest : Text) (f : ℕ)
    → ReadsValue value
    → weight value < f
    → EndsNumber rest
    → has_ascii value ≡ true
    → read_value f (skip_space (line d ++ (print d value ++ rest))) ≡ some (value, rest)
after_line value d rest f v h ends ascii =
    ap (read_value f) (skip_space-line d (print d value ++ rest) ∙ skip_space-print value d rest)
    ∙ v d rest f h ends ascii

module _ (d : ℕ) (key : Text) (value : Json) (ms : Members) (rest : Text) where
  pub reads_member :
      (f : ℕ)
      → ReadsValue value
      → ReadsMembers ms
      → weight value < f
      → weight_members ms < f
      → members_have_ascii (member key value ms) ≡ true
      → read_member (suc f) (skip_space (member_text d key value ms ++ rest))
        ≡ some (member key value ms, rest)
  unfolding read_member members_have_ascii
  reads_member f v more hv hm ascii =
      let after : Text = print_members d ms ++ rest in
      ap (λ t. read_member (suc f) (skip_space t)) (member_text-regrouped d key value ms rest)
      ∙ ap (read_member (suc f)) (skip_space-line (suc d) (regrouped d key value ms rest))
      ∙ rw
          (read_string-escape_loop key (b':' ∷ b' ' ∷ (print (suc d) value ++ after))
            (ground (arith, ascii)))
          (rw
            (after_blank value (suc d) after f v hv (print_members-EndsNumber d ms rest)
              (ground (arith, ascii)))
            (rw (more d rest f hm (ground (arith, ascii))) refl))

module _ (d : ℕ) (value : Json) (is : Items) (rest : Text) where
  abbrev pub item_text : Text
  item_text = line (suc d) ++ (print (suc d) value ++ print_items d is)

  pub reads_item :
      (f : ℕ)
      → ReadsValue value
      → ReadsItems is
      → weight value < f
      → weight_items is < f
      → items_have_ascii (item value is) ≡ true
      → read_item (suc f) (skip_space (item_text ++ rest)) ≡ some (item value is, rest)
  unfolding read_item items_have_ascii
  reads_item f v more hv hi ascii =
      let after : Text = print_items d is ++ rest in
      let shape : item_text ++ rest ≡ line (suc d) ++ (print (suc d) value ++ after) =
        simp (append_assoc) in
      ap (λ t. read_item (suc f) (skip_space t)) shape
      ∙ rw
          (after_line value (suc d) after f v hv (print_items-EndsNumber d is rest)
            (ground (arith, ascii)))
          (rw (more d rest f hi (ground (arith, ascii))) refl)

pub with_three {ℓ} :
    (n : ℕ) (P : ℕ → Type ℓ) → ((g : ℕ) → n < g → P (suc (suc (suc g)))) → (f : ℕ) → 3 + n < f → P f
with_three n P k (suc (suc (suc g))) h = k g (omega arith)
with_three n P k zero h = absurd (omega arith)
with_three n P k (suc zero) h = absurd (omega arith)
with_three n P k (suc (suc zero)) h = absurd (omega arith)

pub with_two {ℓ} :
    (n : ℕ) (P : ℕ → Type ℓ) → ((g : ℕ) → n < g → P (suc (suc g))) → (f : ℕ) → 2 + n < f → P f
with_two n P k (suc (suc g)) h = k g (omega arith)
with_two n P k zero h = absurd (omega arith)
with_two n P k (suc zero) h = absurd (omega arith)

-- an object that has a member, and an array that has an item
pub read_object-member :
    (d : ℕ) (key : Text) (value : Json) (ms : Members) (rest : Text) (f : ℕ)
    → read_object (suc f) (skip_space (member_text d key value ms ++ rest))
      ≡ read_member f (skip_space (member_text d key value ms ++ rest))
unfolding read_object skip_space
read_object-member d key value ms rest f =
    let shape : skip_space (member_text d key value ms ++ rest) ≡ regrouped d key value ms rest =
      ap skip_space (member_text-regrouped d key value ms rest)
      ∙ skip_space-line (suc d) (regrouped d key value ms rest) in
    ap (read_object (suc f)) shape ∙ ap (read_member f) (sym shape)

read_array-print :
    (v : Json) (d : ℕ) (rest : Text) (f : ℕ)
    → read_array (suc f) (print d v ++ rest) ≡ read_item f (print d v ++ rest)
unfolding read_array print
read_array-print (object no_members) d rest f = refl
read_array-print (object (member key value ms)) d rest f = refl
read_array-print (array no_items) d rest f = refl
read_array-print (array (item value is)) d rest f = refl
read_array-print (string s) d rest f = refl
read_array-print (boolean true) d rest f = refl
read_array-print (boolean false) d rest f = refl
read_array-print (number n) d rest f =
    let (c, s, start, low) = decimal_first n in rw start (ground (arith, low))

pub read_array-item :
    (d : ℕ) (value : Json) (is : Items) (rest : Text) (f : ℕ)
    → read_array (suc f) (skip_space (item_text d value is rest ++ rest))
      ≡ read_item f (skip_space (item_text d value is rest ++ rest))
read_array-item d value is rest f =
    let shape : skip_space (item_text d value is rest ++ rest)
        ≡ print (suc d) value ++ (print_items d is ++ rest) =
      ap skip_space (simp (append_assoc))
      ∙ skip_space-line (suc d) (print (suc d) value ++ (print_items d is ++ rest))
      ∙ skip_space-print value (suc d) (print_items d is ++ rest) in
    ap (read_array (suc f)) shape
    ∙ read_array-print value (suc d) (print_items d is ++ rest) f
    ∙ ap (read_item f) (sym shape)
