-- ===== src/Sorting/Keys.antt =====
-- `sort.Strings` on the keys of maps: which texts are in a sorted list, and when two lists are sorted
-- alike.
use fabric_adapter.Base.{
  suc, ◌≡◌, refl, ◌∙◌, ap, sym, Bool, true, false, ◌||◌, List, [], ◌∷◌, Text, text_eqb, text_eq,
  text_eqb_iff, ◌==◌, if◌then◌else◌, length, arith, Bool-cases, inl, inr,
}
use fabric_adapter.Sorting.{insert_text, insert_text_comm, sort_strings}

unfoldable pub listed : Text → List Text → Bool
listed k [] = false
listed k (l ∷ ls) = l == k || listed k ls

listed-insert_text :
    (k x : Text) (l : List Text) → listed k (insert_text x l) ≡ (x == k || listed k l)
unfolding listed insert_text
listed-insert_text k x [] = refl
listed-insert_text k x (y ∷ l) = ground (arith, listed-insert_text k x l)

pub listed-sort_strings : (k : Text) (l : List Text) → listed k (sort_strings l) ≡ listed k l
unfolding listed sort_strings
listed-sort_strings k [] = refl
listed-sort_strings k (x ∷ l) =
    ground (arith, listed-insert_text k x (sort_strings l), listed-sort_strings k l)

length-insert_text : (x : Text) (l : List Text) → length (insert_text x l) ≡ suc (length l)
unfolding insert_text
length-insert_text x [] = refl
length-insert_text x (y ∷ l) = ground (arith, length-insert_text x l)

pub length-sort_strings : (l : List Text) → length (sort_strings l) ≡ length l
unfolding sort_strings
length-sort_strings [] = refl
length-sort_strings (x ∷ l) = length-insert_text x (sort_strings l) ∙ ap suc (length-sort_strings l)

-- No text twice.
abbrev pub IsSimple : List Text → Type 0
IsSimple [] = Unit {0}
IsSimple (k ∷ ks) = (listed k ks ≡ false) × IsSimple ks

-- a list without the first copy of a text
remove : Text → List Text → List Text
remove k [] = []
remove k (l ∷ ls) = if l == k then ls else l ∷ remove k ls

length-remove :
    (k : Text) (ls : List Text) → listed k ls ≡ true → length ls ≡ suc (length (remove k ls))
unfolding remove listed
length-remove k [] h = cc
length-remove k (l ∷ ls) h = ground (arith, length-remove k ls)

listed-remove :
    (j k : Text) (ls : List Text) → text_eqb k j ≡ false → listed j (remove k ls) ≡ listed j ls
unfolding remove listed
listed-remove j k [] h = refl
listed-remove j k (l ∷ ls) h = ground (arith, listed-remove j k ls h, text_eqb_iff l k)

unlisted-remove :
    (j k : Text) (ls : List Text) → listed j ls ≡ false → listed j (remove k ls) ≡ false
unfolding remove listed
unlisted-remove j k [] h = refl
unlisted-remove j k (l ∷ ls) h = ground (arith, unlisted-remove j k ls)

remove-IsSimple : (k : Text) (ls : List Text) → IsSimple ls → IsSimple (remove k ls)
unfolding remove listed
remove-IsSimple k [] h = tt
remove-IsSimple k (l ∷ ls) h =
    ground (arith, h.0, h.1, remove-IsSimple k ls h.1, unlisted-remove l k ls h.0)

sort_strings-remove :
    (k : Text) (ls : List Text)
    → listed k ls ≡ true
    → sort_strings ls ≡ insert_text k (sort_strings (remove k ls))
unfolding remove listed sort_strings
sort_strings-remove k [] h = cc
sort_strings-remove k (l ∷ ls) h = elim (Bool-cases (text_eqb l k)) [
  | inl e ↦ rw e (ap (λ t. insert_text t (sort_strings ls)) ((text_eqb_iff l k).0 e))
  | inr e ↦ rw e (
      ap (insert_text l) (sort_strings-remove k ls (ground (arith, h, e)))
      ∙ insert_text_comm l k (sort_strings (remove k ls)))
]

-- Two lists of the same length with no text twice, the one within the other, are sorted alike.
pub sort_strings-within :
    (ks ls : List Text)
    → IsSimple ks
    → IsSimple ls
    → length ks ≡ length ls
    → ((k : Text) → listed k ks ≡ true → listed k ls ≡ true)
    → sort_strings ks ≡ sort_strings ls
unfolding sort_strings listed
sort_strings-within [] [] d e h within = refl
sort_strings-within [] (l ∷ ls) d e h within = absurd (omega (arith, h))
sort_strings-within (k ∷ ks) ls d e h within =
    let found : listed k ls ≡ true = within k (ground (arith, text_eqb_iff k k)) in
    ap (insert_text k) (
      sort_strings-within ks (remove k ls) d.1 (remove-IsSimple k ls e)
        (omega (arith, h, length-remove k ls found))
        (λ j g.
          ground
            (arith, listed-remove j k ls, text_eqb_iff k j, d.0, g, within j (ground (arith, g)))))
    ∙ sym (sort_strings-remove k ls found)
