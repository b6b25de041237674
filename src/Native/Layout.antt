-- ===== src/Native/Layout.antt =====
-- The layout of the simulation: where it puts the regions, and when it refuses them.
use quetz.Base.{
  ℕ, zero, suc, ◌+◌, ◌*◌, ◌%◌, ◌^◌, ◌≡◌, ◌≤◌, ◌<◌, inr, true, some, List, [], ◌∷◌, length, add32,
  u32_mod, refl, ap, subst, arith,
}
use quetz.Native.{
  Region, Shared, max_native_regions, native_region_bytes, storage_bytes, native_regions_valid, nth,
  native_ram, place, first_offset, configure_native_regions,
}
use quetz.Native.Valid.{
  native_regions_valid_iff, Fits, Disjoint, Placed, Valid, Valid-of, Valid-check,
}

-- What the simulation asks of the regions that it is given: pages of the guest's memory, apart.
pub record Guest (a : Region) : Type 0 where
  pub not_empty : 0 < a.size
  pub one_stride : a.size ≤ native_region_bytes
  pub base_page : a.base % 4096 ≡ 0
  pub size_page : a.size % 4096 ≡ 0
  pub guest : a.base + a.size ≤ 2 ^ 32

abbrev pub GuestValid : List Region → Type 0
GuestValid [] = Unit {0}
GuestValid (a ∷ []) = Guest a
GuestValid (a ∷ b ∷ []) = Guest a × Guest b × Disjoint b.base b.size a.base a.size
GuestValid (a ∷ b ∷ c ∷ rest) = ⊥

-- The first stride lies in the storage, wherever the segment is mapped.
first_lem :
    (s : Shared)
    → Placed s
    → (s.storage ≤ first_offset s)
      × (first_offset s < s.storage + native_region_bytes)
      × ((s.address + first_offset s) % native_region_bytes ≡ 0)
unfolding first_offset
first_lem s p = ground (arith, p)

Placed-Fits :
    (s : Shared) (a : Region) (i : ℕ)
    → Placed s
    → Guest a
    → i < max_native_regions
    → Fits s (record a {
      offset = add32 (first_offset s % u32_mod) (i * native_region_bytes);
      reserved = 0;
    })
Placed-Fits s a i p g h = ground (arith, p, g, first_lem s p)

place-Valid :
    (s : Shared) (l : List Region) → Placed s → GuestValid l → Valid s (place (first_offset s) 0 l)
unfolding place
place-Valid s [] p g = tt
place-Valid s (a ∷ []) p g = Placed-Fits s a 0 p g (omega arith)
place-Valid s (a ∷ b ∷ []) p g = (
  Placed-Fits s a 0 p g.0 (omega arith),
  Placed-Fits s b 1 p g.1 (omega arith),
  (g.2, inr (ground (arith, first_lem s p, p, g.0))),
)
place-Valid s (a ∷ b ∷ c ∷ rest) p g = absurd g

Guest-of :
    (s : Shared) (a : Region) (i : ℕ)
    → Fits s (record a {
      offset = add32 (first_offset s % u32_mod) (i * native_region_bytes);
      reserved = 0;
    })
    → Guest a
Guest-of s a i f = ground (arith, f)

Valid-place : (s : Shared) (l : List Region) → Valid s (place (first_offset s) 0 l) → GuestValid l
unfolding place
Valid-place s [] g = tt
Valid-place s (a ∷ []) g = Guest-of s a 0 g
Valid-place s (a ∷ b ∷ []) g = (Guest-of s a 0 g.0, Guest-of s b 1 g.1, g.2.0)
Valid-place s (a ∷ b ∷ c ∷ rest) g = absurd g

length-place : (first i : ℕ) (l : List Region) → length (place first i l) ≡ length l
unfolding place
length-place first i [] = refl
length-place first i (a ∷ l) = ap suc (length-place first (suc i) l)

GuestValid-length : (l : List Region) → GuestValid l → length l ≤ max_native_regions
GuestValid-length [] g = omega arith
GuestValid-length (a ∷ []) g = omega arith
GuestValid-length (a ∷ b ∷ []) g = omega arith
GuestValid-length (a ∷ b ∷ c ∷ rest) g = absurd g

-- In a segment that lies in the address space, with its storage within 4 GB of its start, wherever
-- it is mapped: quetz_configure_native_regions places at most two regions that are disjoint, of
-- whole pages of the guest's memory and of at most a stride each, and succeeds; and if it
-- succeeds, the regions are such.
pub configure_native_regions_iff :
    (l : List Region) (s : Shared)
    → Placed s
    → (GuestValid l
        → configure_native_regions l s ≡ (true, record s { regions = place (first_offset s) 0 l }))
      × ((configure_native_regions l s).0 ≡ true → GuestValid l)
unfolding configure_native_regions native_regions_valid
configure_native_regions_iff l s p =
    let placed = place (first_offset s) 0 l in
    (
      (λ g. ground (
        arith,
        Valid-check (record s { regions = placed }) placed p (place-Valid s l p g),
        GuestValid-length l g,
      )),
      (λ e.
          Valid-place s l (Valid-of (record s { regions = placed }) placed p (ground (arith, e)))),
    )

-- The memory of a region, byte by byte, is memory of the storage.
nth-Valid :
    (s : Shared) (l : List Region) (i : ℕ) {a : Region} → Valid s l → nth i l ≡ some a → Fits s a
unfolding nth
nth-Valid s [] i v e = absurd (cc)
nth-Valid s (a ∷ []) zero v e = subst (Fits s) (cc) v
nth-Valid s (a ∷ []) (suc i) v e = absurd (cc)
nth-Valid s (a ∷ b ∷ []) zero v e = subst (Fits s) (cc) v.0
nth-Valid s (a ∷ b ∷ []) (suc zero) v e = subst (Fits s) (cc) v.1
nth-Valid s (a ∷ b ∷ []) (suc (suc i)) v e = absurd (cc)
nth-Valid s (a ∷ b ∷ c ∷ rest) i v e = absurd v

-- In such a segment, the memory that quetz_native_ram returns for a region is that region's,
-- starts at a page, and lies in the storage with all its bytes.
pub native_ram_bounds :
    (s : Shared) (i m : ℕ) {a : Region}
    → Placed s
    → native_ram s i ≡ some m
    → nth i s.regions ≡ some a
    → (m ≡ s.address + a.offset)
      × (s.address + s.storage ≤ m)
      × (m + a.size ≤ s.address + s.storage + storage_bytes)
      × (m % 4096 ≡ 0)
unfolding native_ram
native_ram_bounds s i m {a} p e n =
    let v : native_regions_valid s ≡ true = ground (arith, e, n) in
    let f = nth-Valid s s.regions i {a = a} ((native_regions_valid_iff s p).0 v) n in
    ground (arith, e, n, v, f, p)
