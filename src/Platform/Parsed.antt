-- ===== src/Platform/Parsed.antt =====
-- What the configuration's text may name, the simulation can place.
use quetz.Base.{
  ℕ, ◌+◌, ◌≡◌, true, false, ◌&&◌, ◌||◌, none, some, List, [], ◌∷◌, ◌==◌, ltb, length, Outcome, ok,
  err, invalid_argument, Ensures, Ensures-bind, Ensures-guard, Ensures-if, Ensures-ok, inl, inr,
  arith, Bool-cases,
}
use quetz.Native.{Region, Shared, place, first_offset, configure_native_regions}
use quetz.Native.Valid.{Disjoint, Placed}
use quetz.Native.Layout.{GuestValid, configure_native_regions_iff}
use quetz.Platform.{
  overlaps, parse_pair, is_some, add_region, number, break_at, split, parse_item, parse_items,
  parse_native_regions,
}

disjoint : (a m b n : ℕ) → (ltb a (b + n) && ltb b (a + m)) ≡ false → Disjoint a m b n
disjoint a m b n h = elim (Bool-cases (ltb a (b + n))) [
  | inl c ↦ inl (ground (arith, h, c))
  | inr c ↦ inr (ground (arith, c))
]

add_region-GuestValid :
    (l : List Region) (base size : ℕ) → GuestValid l → Ensures GuestValid (add_region l base size)
unfolding add_region overlaps
add_region-GuestValid [] base size g = ground arith
add_region-GuestValid (a ∷ []) base size g = ground (arith, g, disjoint base size a.base a.size)
add_region-GuestValid (a ∷ b ∷ []) base size g = ground arith
add_region-GuestValid (a ∷ b ∷ c ∷ rest) base size g = absurd g

pair-GuestValid :
    (l : List Region) (r : List ℕ × List ℕ) → GuestValid l → Ensures GuestValid (parse_pair l r)
unfolding parse_pair
pair-GuestValid l (x, y) g =
    Ensures-guard GuestValid ((length x == 0) || (length y == 0) || is_some (break_at b':' y))
      invalid_argument _
      (Ensures-bind (λ (n : ℕ). Unit {0}) GuestValid (number x) _ (any (number x))
        (λ base u.
          Ensures-bind (λ (n : ℕ). Unit {0}) GuestValid (number y) _ (any (number y))
            (λ size w. add_region-GuestValid l base size g)))
  where
    any : (m : Outcome ℕ) → Ensures (λ n. Unit {0}) m
    any (ok n) = tt
    any (err e) = tt

item-GuestValid :
    (l : List Region) (item : List ℕ) → GuestValid l → Ensures GuestValid (parse_item l item)
unfolding parse_item
item-GuestValid l item g =
    elim (break_at b':' item)
      as (λ o.
        Ensures GuestValid (elim o [ none ↦ err invalid_argument | some r ↦ parse_pair l r ])) [
          | none ↦ tt
          | some r ↦ pair-GuestValid l r g
        ]

items-GuestValid :
    (l : List Region) (items : List (List ℕ))
    → GuestValid l
    → Ensures GuestValid (parse_items l items)
unfolding parse_items
items-GuestValid l [] g = g
items-GuestValid l (item ∷ items) g =
    Ensures-bind GuestValid GuestValid (parse_item l item) (λ l'. parse_items l' items)
      (item-GuestValid l item g) (λ l' g'. items-GuestValid l' items g')

parsed-GuestValid : (value : List ℕ) → Ensures GuestValid (parse_native_regions value)
unfolding parse_native_regions
parsed-GuestValid value =
    Ensures-if GuestValid (length value == 0) (ok []) (parse_items [] (split b';' value)) tt
      (items-GuestValid [] (split b';' value) tt)

-- Where parseNativeRegions accepts a text, quetz_configure_native_regions succeeds with its
-- regions, and places them from the first offset on: in any segment that lies in the address
-- space, with its storage within 4 GB of its start.
pub parsed_configures :
    (value : List ℕ) (s : Shared) {l : List Region}
    → parse_native_regions value ≡ ok l
    → Placed s
    → configure_native_regions l s ≡ (true, record s { regions = place (first_offset s) 0 l })
parsed_configures value s {l} e p =
    (configure_native_regions_iff l s p).0
      (Ensures-ok GuestValid (parse_native_regions value) (parsed-GuestValid value) e)
