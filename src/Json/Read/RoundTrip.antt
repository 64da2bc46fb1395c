-- ===== src/Json/Read/RoundTrip.antt =====
-- What `json.MarshalIndent` prints is read back, where the strings are ASCII.
use mathlib.Core.List.{append-nil}
use fabric_adapter.Base.{ℕ, suc, ◌+◌, ◌<◌, ◌≡◌, refl, sym, ap, ◌∙◌, true, some, [], arith}
use fabric_adapter.Json.{
  Json, Members, Items, object, array, string, number, boolean, no_members, member, no_items, item,
}
use fabric_adapter.Json.Print.{print}
use fabric_adapter.Json.Read.{read_value}
use fabric_adapter.Json.Read.Values.{
  weight, has_ascii, ReadsValue, ReadsMembers, ReadsItems, reads_number, reads_string,
  reads_boolean, reads_no_members, reads_no_items,
}
use fabric_adapter.Json.Read.Parts.{
  reads_member, reads_item, with_three, with_two, read_object-member, read_array-item,
}

-- Members, behind one and as a whole object; items, behind one and as a whole array.
abbrev ReadsObject : Members → Type 0
ReadsObject ms = ReadsMembers ms × ReadsValue (object ms)

abbrev ReadsArray : Items → Type 0
ReadsArray is = ReadsItems is × ReadsValue (array is)

-- Every document is read off the front.
json-ReadsValue : (v : Json) → ReadsValue v
unfolding weight has_ascii read_value print
json-ReadsValue v = elim v as ReadsValue ReadsObject ReadsArray [
  | object (ms → ih) ↦ ih.1
  | array (is → ih) ↦ ih.1
  | string s ↦ reads_string s
  | number n ↦ reads_number n
  | boolean b ↦ reads_boolean b
  | no_members ↦ (reads_no_members, λ d rest. with_three 0 _ λ g h ends ascii. refl)
  | member key (w → ih) (ms → ihs) ↦ (
    λ d rest.
        with_two _ _
          λ g h ascii. reads_member d key w ms rest g ih ihs.0 (omega arith) (omega arith) ascii,
    λ d rest. with_three _ _ λ g h ends ascii.
        rw (read_object-member d key w ms rest (suc g))
          (rw (reads_member d key w ms rest g ih ihs.0 (omega arith) (omega arith) ascii) refl),
  )
  | no_items ↦ (reads_no_items, λ d rest. with_three 0 _ λ g h ends ascii. refl)
  | item (w → ih) (is → ihs) ↦ (
    λ d rest.
        with_two _ _
          λ g h ascii. reads_item d w is rest g ih ihs.0 (omega arith) (omega arith) ascii,
    λ d rest. with_three _ _ λ g h ends ascii.
        rw (read_array-item d w is rest (suc g))
          (rw (reads_item d w is rest g ih ihs.0 (omega arith) (omega arith) ascii) refl),
  )
]

-- The indented text of a document is read back as the document, with enough calls.
pub read_value-print :
    (v : Json) (f : ℕ) → weight v < f → has_ascii v ≡ true → read_value f (print 0 v) ≡ some (v, [])
read_value-print v f h ascii =
    ap (read_value f) (sym (append-nil (print 0 v))) ∙ json-ReadsValue v 0 [] f h tt ascii

-- Two documents with one text are one.
pub print-injective :
    (v w : Json) → has_ascii v ≡ true → has_ascii w ≡ true → print 0 v ≡ print 0 w → v ≡ w
print-injective v w hv hw e =
    let f = suc (weight v + weight w) in
    let first = read_value-print v f (omega arith) hv in
    let second = read_value-print w f (omega arith) hw in
    ground (arith, first, second, ap (read_value f) e)
