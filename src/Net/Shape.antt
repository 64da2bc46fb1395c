-- ===== src/Net/Shape.antt =====
-- A parsed address has 16 bytes, whatever its form.
use fabric_adapter.Base.{
  ℕ, zero, suc, ◌/◌, ◌%◌, ◌+◌, ◌-◌, ◌<◌, ◌≡◌, refl, Bool, true, false, ◌&&◌, none, some, Option,
  List, [], ◌∷◌, ◌++◌, Text, length, length-append, replicate, length-replicate, ltb, nat_eqb,
  if◌then◌else◌, arith, Bool-cases, inl, inr,
}
use mathlib.Core.Path.{subst}
use fabric_adapter.Net.{
  Groups, octet, octets, finish, v4_prefix, parse_ipv4, push, last_four, misplaced, embedded,
  after_colon, xtoi_loop, groups, parse_ipv6, ip_form, parse_ip,
}

abbrev Is16 : Option (List ℕ) → Type 0
Is16 none = Unit
Is16 (some ip) = length ip ≡ 16

Is16-bind {ℓ} :
    {A : Type ℓ} (o : Option A) (f : A → Option (List ℕ))
    → ((a : A) → Is16 (f a))
    → Is16 (elim o [ none ↦ none | some a ↦ f a ])
Is16-bind none f h = tt
Is16-bind (some a) f h = h a

Is16-if : (b : Bool) (x y : Option (List ℕ)) → Is16 x → Is16 y → Is16 (if b then x else y)
Is16-if true x y hx hy = hx
Is16-if false x y hx hy = hy

octets-Is16 : (k : ℕ) (p : List ℕ) (s : Text) → length p + k ≡ 4 → Is16 (octets k p s)
unfolding octets
octets-Is16 zero p [] h = omega (arith, length-append v4_prefix p)
octets-Is16 zero p (c ∷ s) h = tt
octets-Is16 (suc k) p [] h = tt
octets-Is16 (suc k) p (c ∷ s) h =
    Is16-if (nat_eqb c b'.') _ none
      (Is16-bind (octet s) (λ r. octets k (p ++ r.0 ∷ []) r.1)
        (λ r. octets-Is16 k (p ++ r.0 ∷ []) r.1 (omega (arith, length-append p (r.0 ∷ [])))))
      tt

parse_ipv4-Is16 : (s : Text) → Is16 (parse_ipv4 s)
unfolding parse_ipv4
parse_ipv4-Is16 s =
    Is16-bind (octet s) (λ r. octets 3 (r.0 ∷ []) r.1)
      (λ r. octets-Is16 3 (r.0 ∷ []) r.1 (omega arith))

-- The ellipsis fills up what is missing.
filled :
    (front b : List ℕ)
    → length front + length b < 16
    → length (front ++ replicate (16 - (length front + length b)) 0 ++ b) ≡ 16
filled front b h =
    let zeros : List ℕ = replicate (16 - (length front + length b)) 0 in
    omega (
      arith,
      length-append (front ++ zeros) b,
      length-append front zeros,
      length-replicate {A = ℕ} (16 - (length front + length b)) 0,
    )

finish_parts :
    (front : List ℕ) (back : Option (List ℕ))
    → Is16 (finish (record { front = front; back = back }))
unfolding finish
finish_parts front none = elim (Bool-cases (nat_eqb (length front) 16)) [
  | inl e ↦ rw e (ground arith)
  | inr e ↦ rw e tt
]
finish_parts front (some b) = elim (Bool-cases (ltb (length front + length b) 16)) [
  | inl e ↦ rw e (filled front b (ground arith))
  | inr e ↦ rw e tt
]

finish-Is16 : (g : Groups) → Is16 (finish g)
finish-Is16 g = finish_parts g.front g.back

embedded-Is16 : (g : Groups) (s : Text) → Is16 (embedded g s)
unfolding embedded
embedded-Is16 g s = Is16-if (misplaced g) none _ tt (
    Is16-bind (parse_ipv4 s) (λ p. finish (push (last_four p) g))
      (λ p. finish-Is16 (push (last_four p) g)))

after_colon-Is16 :
    (g : Groups) (more : Groups → Text → Option (List ℕ)) (s : Text)
    → ((g : Groups) (s : Text) → Is16 (more g s))
    → Is16 (after_colon g more s)
unfolding after_colon
after_colon-Is16 g more [] h = tt
after_colon-Is16 g more (c ∷ s) h = Is16-if (nat_eqb c b':') _ _ (ellipsis g.back s) (h g (c ∷ s))
  where
    ellipsis :
        (back : Option (List ℕ)) (s : Text)
        → Is16 (elim back [
          | some b ↦ none
          | none ↦ elim s [
            | [] ↦ finish (record g { back = some [] })
            | d ∷ s' ↦ more (record g { back = some [] }) (d ∷ s')
          ]
        ])
    ellipsis (some b) s = tt
    ellipsis none [] = finish-Is16 (record g { back = some [] })
    ellipsis none (d ∷ s') = h (record g { back = some [] }) (d ∷ s')

groups-Is16 : (k : ℕ) (g : Groups) (s : Text) → Is16 (groups k g s)
unfolding groups
groups-Is16 zero g [] = finish-Is16 g
groups-Is16 zero g (c ∷ s) = tt
groups-Is16 (suc k) g s =
    Is16-bind (xtoi_loop 0 0 s) _
      (λ r. Is16-if (ltb 0xffff r.0) none _ tt (round (groups-Is16 k) r.0 r.1))
  where
    round :
        ((g : Groups) (s : Text) → Is16 (groups k g s))
        → (n : ℕ) (rest : Text)
        → Is16 (elim rest [
          | [] ↦ finish (push (n / 256 ∷ n % 256 ∷ []) g)
          | c ∷ rest' ↦
              if nat_eqb c b'.'
              then embedded g s
              else if nat_eqb c b':'
              then after_colon (push (n / 256 ∷ n % 256 ∷ []) g) (groups k) rest'
              else none
        ])
    round ih n [] = finish-Is16 (push (n / 256 ∷ n % 256 ∷ []) g)
    round ih n (c ∷ rest') = Is16-if (nat_eqb c b'.') _ _ (embedded-Is16 g s) (
        Is16-if (nat_eqb c b':') _ none
          (after_colon-Is16 (push (n / 256 ∷ n % 256 ∷ []) g) (groups k) rest' ih) tt)

parse_ipv6-Is16 : (s : Text) → Is16 (parse_ipv6 s)
unfolding parse_ipv6
parse_ipv6-Is16 [] = groups-Is16 8 (record { front = []; back = none }) []
parse_ipv6-Is16 (c ∷ []) = groups-Is16 8 (record { front = []; back = none }) (c ∷ [])
parse_ipv6-Is16 (c ∷ d ∷ []) =
    Is16-if (nat_eqb c b':' && nat_eqb d b':') _ _ refl
      (groups-Is16 8 (record { front = []; back = none }) (c ∷ d ∷ []))
parse_ipv6-Is16 (c ∷ d ∷ e ∷ s) =
    Is16-if (nat_eqb c b':' && nat_eqb d b':') _ _
      (groups-Is16 8 (record { front = []; back = some [] }) (e ∷ s))
      (groups-Is16 8 (record { front = []; back = none }) (c ∷ d ∷ e ∷ s))

ip_form-Is16 : (s whole : Text) → Is16 (ip_form parse_ipv4 parse_ipv6 s whole)
unfolding ip_form
ip_form-Is16 [] whole = tt
ip_form-Is16 (c ∷ s) whole =
    Is16-if (nat_eqb c b'.') _ _ (parse_ipv4-Is16 whole)
      (Is16-if (nat_eqb c b':') _ _ (parse_ipv6-Is16 whole) (ip_form-Is16 s whole))

-- Whatever `ParseIP` accepts, it returns 16 bytes.
pub length-parse_ip : (s : Text) {ip : List ℕ} → parse_ip s ≡ some ip → length ip ≡ 16
unfolding parse_ip
length-parse_ip s h = subst Is16 h (ip_form-Is16 s s)
