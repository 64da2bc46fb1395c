-- ===== src/Json/Maps.antt =====
-- A Go map in a document: what is read under a key, and when two maps give one object.
use fabric_adapter.Base.{
  ℕ, suc, ◌≡◌, refl, ◌∙◌, ap, sym, true, false, Bool, none, some, Option, Option-cases, inl, inr,
  List, [], ◌∷◌, Text, Dict, keys, lookup, text_eq, text_eqb_iff, if◌then◌else◌, length,
  HasDistinctKeys, arith,
}
use fabric_adapter.Sorting.{sort_strings}
use fabric_adapter.Sorting.Keys.{
  listed, listed-sort_strings, length-sort_strings, IsSimple, sort_strings-within,
}
use fabric_adapter.Json.{Json, Members, no_members, member, entries_at, string_map, filled, get}
use fabric_adapter.Json.Laws.{as_members}

abbrev pub mapped {ℓ} : {V : Type ℓ} → (V → Json) → Option V → Option Json
mapped f none = none
mapped f (some v) = some (f v)

abbrev pub is_there {ℓ} : {V : Type ℓ} → Option V → Bool
is_there none = false
is_there (some v) = true

abbrev pub size : Members → ℕ
size no_members = 0
size (member key value ms) = suc (size ms)

length-keys {ℓ} : {V : Type ℓ} (m : Dict Text V) → length (keys m) ≡ length m
length-keys [] = refl
length-keys ((k, v) ∷ m) = ap suc (length-keys m)

module _ {ℓ} {V : Type ℓ} where
  pub listed-keys : (k : Text) (m : Dict Text V) → listed k (keys m) ≡ is_there (lookup k m)
  unfolding listed lookup
  listed-keys k [] = refl
  listed-keys k ((j, v) ∷ m) = ground (arith, listed-keys k m)

  keys-IsSimple : (m : Dict Text V) → HasDistinctKeys m → IsSimple (keys m)
  keys-IsSimple [] d = tt
  keys-IsSimple ((k, v) ∷ m) d = (ground (arith, listed-keys k m, d.0), keys-IsSimple m d.1)

  module _ (f : V → Json) where
    get-entries_at :
        (k : Text) (m : Dict Text V) (ks : List Text)
        → get k (entries_at f m ks) ≡ (if listed k ks then mapped f (lookup k m) else none)
    unfolding get entries_at listed
    get-entries_at k m [] = refl
    get-entries_at k m (j ∷ ks) = elim (Option-cases (lookup j m)) [
      | inl e ↦ ground (arith, e, text_eqb_iff j k, get-entries_at k m ks)
      | inr (v, e) ↦ ground (arith, e, text_eqb_iff j k, get-entries_at k m ks)
    ]

    -- the object of a map
    abbrev pub sorted_entries : Dict Text V → Members
    sorted_entries m = entries_at f m (sort_strings (keys m))

    -- An object holds under each key what the map does.
    pub get-sorted_entries :
        (k : Text) (m : Dict Text V) → get k (sorted_entries m) ≡ mapped f (lookup k m)
    get-sorted_entries k m = ground (
      arith,
      get-entries_at k m (sort_strings (keys m)),
      listed-sort_strings k (keys m),
      listed-keys k m,
    )

    pub as_members-filled :
        (m : Dict Text V) → as_members (filled (string_map f) m) ≡ sorted_entries m
    unfolding string_map entries_at sort_strings
    as_members-filled [] = refl
    as_members-filled ((k, v) ∷ m) = refl

    size-entries_at :
        (m : Dict Text V) (ks : List Text)
        → ((k : Text) → listed k ks ≡ true → listed k (keys m) ≡ true)
        → size (entries_at f m ks) ≡ length ks
    unfolding entries_at listed
    size-entries_at m [] h = refl
    size-entries_at m (k ∷ ks) h = ground (
      arith,
      size-entries_at m ks (λ j g. h j (ground (arith, g))),
      listed-keys k m,
      h k (ground (arith, text_eqb_iff k k)),
    )

    pub size-sorted_entries : (m : Dict Text V) → size (sorted_entries m) ≡ length m
    size-sorted_entries m =
        size-entries_at m (sort_strings (keys m)) (λ k g. sym (listed-sort_strings k (keys m)) ∙ g)
        ∙ length-sort_strings (keys m)
        ∙ length-keys m

    -- Maps with one object have as many keys.
    pub length-sorted_entries :
        (m n : Dict Text V) → sorted_entries m ≡ sorted_entries n → length m ≡ length n
    length-sorted_entries m n e = sym (size-sorted_entries m) ∙ ap size e ∙ size-sorted_entries n

    entries_at-ext :
        (m n : Dict Text V) (ks : List Text)
        → ((k : Text) → listed k ks ≡ true → mapped f (lookup k m) ≡ mapped f (lookup k n))
        → entries_at f m ks ≡ entries_at f n ks
    unfolding entries_at listed
    entries_at-ext m n [] h = refl
    entries_at-ext m n (k ∷ ks) h = ground (
      arith,
      entries_at-ext m n ks (λ j g. h j (ground (arith, g))),
      h k (ground (arith, text_eqb_iff k k)),
    )

    -- Maps with as many keys, the second with the values of the first, have one object.
    pub sorted_entries-ext :
        (m n : Dict Text V)
        → HasDistinctKeys m
        → HasDistinctKeys n
        → length m ≡ length n
        → ((k : Text) → listed k (keys m) ≡ true → mapped f (lookup k m) ≡ mapped f (lookup k n))
        → sorted_entries m ≡ sorted_entries n
    sorted_entries-ext m n dm dn h same =
        entries_at-ext m n (sort_strings (keys m))
          (λ k g. same k (sym (listed-sort_strings k (keys m)) ∙ g))
        ∙ ap (entries_at f n) (
            sort_strings-within (keys m) (keys n) (keys-IsSimple m dm) (keys-IsSimple n dn)
              (length-keys m ∙ h ∙ sym (length-keys n))
              (λ k g. ground (arith, same k g, g, listed-keys k m, listed-keys k n)))
