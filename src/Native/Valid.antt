-- ===== src/Native/Valid.antt =====
-- What a valid set of native regions is, and that the check tells it.
use quetz.Base.{
  ℕ, ◌+◌, ◌%◌, ◌^◌, ◌≡◌, ◌≤◌, ◌<◌, ◌⊎◌, inl, inr, ◌↔◌, true, false, ◌&&◌, List, [], ◌∷◌, ltb, leb,
  length, refl, arith, Bool-cases,
}
use quetz.Native.{
  Region, Shared, max_native_regions, native_region_bytes, storage_bytes, region_fits, overlap,
  overlaps_none, all_fit, native_regions_valid,
}

-- A region of whole pages of the guest's 32-bit memory, and of the storage.
pub record FitsAt (address storage : ℕ) (a : Region) : Type 0 where
  pub not_empty : 0 < a.size
  pub one_stride : a.size ≤ native_region_bytes
  pub base_page : a.base % 4096 ≡ 0
  pub size_page : a.size % 4096 ≡ 0
  pub guest : a.base + a.size ≤ 2 ^ 32
  pub begins : storage ≤ a.offset
  pub ends : a.offset + a.size ≤ storage + storage_bytes
  pub unreserved : a.reserved ≡ 0
  pub mapped_page : (address + a.offset) % 4096 ≡ 0

abbrev pub Fits : Shared → Region → Type 0
Fits s = FitsAt s.address s.storage

-- Two ranges have no byte in common.
abbrev pub Disjoint : ℕ → ℕ → ℕ → ℕ → Type 0
Disjoint a m b n = (a + m ≤ b) ⊎ (b + n ≤ a)

abbrev pub Apart : Region → Region → Type 0
Apart a b = Disjoint a.base a.size b.base b.size × Disjoint a.offset a.size b.offset b.size

-- A segment that lies in the address space, with its storage within 4 GB of its start.
pub record PlacedAt (address storage : ℕ) : Type 0 where
  pub near : storage + storage_bytes < 2 ^ 32
  pub mapped : address + storage + storage_bytes < 2 ^ 64

abbrev pub Placed : Shared → Type 0
Placed s = PlacedAt s.address s.storage

abbrev pub ValidAt : ℕ → ℕ → List Region → Type 0
ValidAt m n [] = Unit {0}
ValidAt m n (a ∷ []) = FitsAt m n a
ValidAt m n (a ∷ b ∷ []) = FitsAt m n a × FitsAt m n b × Apart b a
ValidAt m n (a ∷ b ∷ c ∷ rest) = ⊥

abbrev pub Valid : Shared → List Region → Type 0
Valid s = ValidAt s.address s.storage

Fits-iff :
    (s : Shared) (a : Region)
    → Placed s
    → (region_fits s a ≡ true → Fits s a) × (Fits s a → region_fits s a ≡ true)
unfolding region_fits
Fits-iff s a p = (λ h. ground (arith, h, p), λ f. ground (arith, f, p))

Disjoint-of : (a m b n : ℕ) → (ltb a (b + n) && ltb b (a + m)) ≡ false → Disjoint a m b n
Disjoint-of a m b n h = elim (Bool-cases (ltb a (b + n))) [
  | inl c ↦ inl (ground (arith, h, c))
  | inr c ↦ inr (ground (arith, c))
]

overlap_iff :
    (s : Shared) (a b : Region)
    → Placed s
    → Fits s a
    → Fits s b
    → (overlap a b ≡ false → Apart a b) × (Apart a b → overlap a b ≡ false)
unfolding overlap
overlap_iff s a b p fa fb = (
  (λ h. (
    Disjoint-of a.base a.size b.base b.size (ground (arith, h)),
    Disjoint-of a.offset a.size b.offset b.size (ground (arith, h, p, fa, fb)),
  )),
  λ h. ground (arith, h, p, fa, fb),
)

-- The check of the regions, against what it means.
pub Valid-of :
    (s : Shared) (l : List Region)
    → Placed s
    → (leb (length l) max_native_regions && all_fit s [] l) ≡ true
    → Valid s l
unfolding all_fit overlaps_none
Valid-of s [] p h = tt
Valid-of s (a ∷ []) p h = (Fits-iff s a p).0 (ground (arith, h))
Valid-of s (a ∷ b ∷ []) p h =
    let fa = (Fits-iff s a p).0 (ground (arith, h)) in
    let fb = (Fits-iff s b p).0 (ground (arith, h)) in
    (fa, fb, (overlap_iff s b a p fb fa).0 (ground (arith, h)))
Valid-of s (a ∷ b ∷ c ∷ rest) p h = absurd (ground (arith, h))

pub Valid-check :
    (s : Shared) (l : List Region)
    → Placed s
    → Valid s l
    → (leb (length l) max_native_regions && all_fit s [] l) ≡ true
unfolding all_fit overlaps_none
Valid-check s [] p h = refl
Valid-check s (a ∷ []) p h = ground (arith, (Fits-iff s a p).1 h)
Valid-check s (a ∷ b ∷ []) p h =
    ground
      (arith, (Fits-iff s a p).1 h.0, (Fits-iff s b p).1 h.1, (overlap_iff s b a p h.1 h.0).1 h.2)
Valid-check s (a ∷ b ∷ c ∷ rest) p h = absurd h

-- In a segment that lies in the address space, with its storage within 4 GB of its start,
-- quetz_native_regions_valid holds exactly of at most two regions, each not empty, of at most a
-- stride, in whole pages of the guest's 32-bit memory, in the storage at a page of the process,
-- and with its reserved field 0, that have no byte in common, neither of the guest's memory nor of
-- the storage.
pub native_regions_valid_iff :
    (s : Shared) → Placed s → (native_regions_valid s ≡ true) ↔ Valid s s.regions
unfolding native_regions_valid
native_regions_valid_iff s p = (Valid-of s s.regions p, Valid-check s s.regions p)
