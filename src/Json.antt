-- ===== src/Json.antt =====
-- `encoding/json` of Go's standard library, as pkg/synchronizer/schema.go is encoded with it: JSON
-- documents, and the rules by which structs, slices and maps become documents.
pub mod Print
pub mod Laws
pub mod Read
pub mod Maps
use fabric_adapter.Base.{
  ℕ, zero, suc, Bool, Option, none, some, List, [], ◌∷◌, Text, Dict, keys, lookup, text_eq, ◌==◌,
  if◌then◌else◌,
}
use fabric_adapter.Sorting.{sort_strings}

-- A document; `Items` and `Members` are the lists inside an array and an object.
mutual
  pub data Json : Type 0 where
    object : Members → Json
    array : Items → Json
    string : Text → Json
    number : ℕ → Json
    boolean : Bool → Json

  pub data Members : Type 0 where
    no_members : Members
    member : Text → Json → Members → Members

  pub data Items : Type 0 where
    no_items : Items
    item : Json → Items → Items

-- `omitempty`: no value for 0, for an empty string, and for an empty slice or map
abbrev pub nonzero : ℕ → Option Json
nonzero zero = none
nonzero (suc n) = some (number (suc n))

abbrev pub nonempty : Text → Option Json
nonempty [] = none
nonempty (c ∷ s) = some (string (c ∷ s))

abbrev pub filled {ℓ} : {A : Type ℓ} → (List A → Json) → List A → Option Json
filled f [] = none
filled f (x ∷ xs) = some (f (x ∷ xs))

-- `omitempty` of a pointer
abbrev pub pointed {ℓ} : {A : Type ℓ} → (A → Json) → Option A → Option Json
pointed f none = none
pointed f (some a) = some (f a)

-- The fields of a struct in their order, each with its tag and its value, or none where it is omitted.
unfoldable pub present : List (Text × Option Json) → Members
present [] = no_members
present ((tag, none) ∷ fields) = present fields
present ((tag, some value) ∷ fields) = member tag value (present fields)

abbrev pub struct : List (Text × Option Json) → Json
struct fields = object (present fields)

-- a slice
unfoldable pub items_of {ℓ} : {A : Type ℓ} → (A → Json) → List A → Items
items_of f [] = no_items
items_of f (x ∷ xs) = item (f x) (items_of f xs)

abbrev pub slice {ℓ} : {A : Type ℓ} → (A → Json) → List A → Json
slice f xs = array (items_of f xs)

-- a map, by its keys in the order of their bytes
module _ {ℓ} {V : Type ℓ} (f : V → Json) where
  abbrev pub entry : Text → Option V → Members → Members
  entry key none ms = ms
  entry key (some v) ms = member key (f v) ms

  unfoldable pub entries_at : Dict Text V → List Text → Members
  entries_at m [] = no_members
  entries_at m (key ∷ ks) = entry key (lookup key m) (entries_at m ks)

  unfoldable pub string_map : Dict Text V → Json
  unfolding entries_at
  string_map m = object (entries_at m (sort_strings (keys m)))

-- The value of the first member of a name, as a reader of the document sees it.
unfoldable pub get : Text → Members → Option Json
get name no_members = none
get name (member key value ms) = if key == name then some value else get name ms
