-- ===== src/Sorting.antt =====
-- `sort.Strings` of Go's standard library, with which the synchronizer orders the switches: strings
-- compare byte by byte, and a prefix comes first.
pub mod Keys
use mathlib.Core.List.{Perm, Permᴰ}
use mathlib.Core.Logic.{∥∥₁_elim}
use native.Mathlib.Decide.{ℕ_discrete}
use fabric_adapter.Base.{
  Bool, true, false, ◌&&◌, ◌||◌, ◌≡◌, refl, ◌∙◌, List, [], ◌∷◌, Text, ltb, nat_eqb, if◌then◌else◌,
  arith,
}

unfoldable pub text_leb : Text → Text → Bool
text_leb [] t = true
text_leb (x ∷ s) [] = false
text_leb (x ∷ s) (y ∷ t) = ltb x y || (nat_eqb x y && text_leb s t)

unfoldable pub insert_text : Text → List Text → List Text
insert_text x [] = x ∷ []
insert_text x (y ∷ l) = if text_leb x y then x ∷ y ∷ l else y ∷ insert_text x l

unfoldable pub sort_strings : List Text → List Text
unfolding insert_text
sort_strings [] = []
sort_strings (x ∷ l) = insert_text x (sort_strings l)

text_leb_total : (s t : Text) → text_leb s t ≡ false → text_leb t s ≡ true
unfolding text_leb
text_leb_total [] t h = cc
text_leb_total (x ∷ s) [] h = refl
text_leb_total (x ∷ s) (y ∷ t) h = ground (arith, text_leb_total s t)

text_leb_antisymm : (s t : Text) → text_leb s t ≡ true → text_leb t s ≡ true → s ≡ t
unfolding text_leb
text_leb_antisymm [] [] h k = refl
text_leb_antisymm [] (y ∷ t) h k = cc
text_leb_antisymm (x ∷ s) [] h k = cc
text_leb_antisymm (x ∷ s) (y ∷ t) h k = ground (arith, text_leb_antisymm s t)

text_leb_trans : (s t u : Text) → text_leb s t ≡ true → text_leb t u ≡ true → text_leb s u ≡ true
unfolding text_leb
text_leb_trans [] t u h k = refl
text_leb_trans (x ∷ s) [] u h k = cc
text_leb_trans (x ∷ s) (y ∷ t) [] h k = cc
text_leb_trans (x ∷ s) (y ∷ t) (z ∷ u) h k = ground (arith, text_leb_trans s t u)

pub insert_text_comm :
    (x y : Text) (l : List Text) → insert_text x (insert_text y l) ≡ insert_text y (insert_text x l)
unfolding insert_text
insert_text_comm x y [] =
    ground (arith, text_leb_total x y, text_leb_total y x, text_leb_antisymm x y)
insert_text_comm x y (z ∷ l) = ground (
  arith,
  insert_text_comm x y l,
  text_leb_total x y,
  text_leb_total y x,
  text_leb_antisymm x y,
  text_leb_trans x y z,
  text_leb_trans y x z,
)

-- Text lists form a set, so that permutations can be taken apart.
texts_set : IsSet (List Text)
texts_set = hlevel ℕ_discrete

sort_strings-permᴰ : {l m : List Text} → Permᴰ l m → sort_strings l ≡ sort_strings m
unfolding sort_strings
sort_strings-permᴰ Permᴰ.nil = refl
sort_strings-permᴰ (Permᴰ.cons e p) = cc (e, sort_strings-permᴰ p)
sort_strings-permᴰ (Permᴰ.swap {a} {b} {l = l} e f) =
    cc (e, f, insert_text_comm a b (sort_strings l))
sort_strings-permᴰ (Permᴰ.trans p q) = sort_strings-permᴰ p ∙ sort_strings-permᴰ q

-- The sorted keys do not depend on the order in which they came.
pub sort_strings-perm : {l m : List Text} → Perm l m → sort_strings l ≡ sort_strings m
sort_strings-perm {l} {m} p = ∥∥₁_elim p (texts_set _ _) sort_strings-permᴰ
