-- ===== src/Native.antt =====
-- include/quetz/quetz_ipc_types.h, the native memory regions: the memory that the simulation and QEMU
-- share, their check and their layout, and the looking up of a region from qemu-overlay/
-- quetz_ipc_client.c.
pub mod Valid
pub mod Layout
pub mod Examples
use quetz.Base.{
  ℕ, zero, suc, ◌+◌, ◌-◌, ◌*◌, ◌/◌, ◌%◌, ◌^◌, Bool, true, false, not, ◌&&◌, ◌||◌, Option, none,
  some, List, [], ◌∷◌, ◌==◌, ltb, leb, if◌then◌else◌, length, add32, sub32, add64, sub64, u32_mod,
}

-- QUETZ_MAX_NATIVE_REGIONS, QUETZ_NATIVE_REGION_BYTES
abbrev pub max_native_regions : ℕ
max_native_regions = 2

abbrev pub native_region_bytes : ℕ
native_region_bytes = 65536

-- QuetzNativeRamRegion
pub record Region : Type 0 where
  pub base : ℕ
  pub size : ℕ
  pub offset : ℕ
  pub reserved : ℕ

-- Where the segment is mapped, the offset of its field native_ram_storage, and the regions: the first
-- native_region_count of the array.
pub record Shared : Type 0 where
  pub address : ℕ
  pub storage : ℕ
  pub regions : List Region

-- sizeof(native_ram_storage)
abbrev pub storage_bytes : ℕ
storage_bytes = 3 * native_region_bytes - 1

-- quetz_native_regions_valid, the checks of one region on its own
unfoldable pub region_fits : Shared → Region → Bool
region_fits s a =
    not (a.size == 0)
    && (leb a.size native_region_bytes
        && ((a.base % 4096 == 0)
            && ((a.size % 4096 == 0)
                && (leb (a.base + a.size) u32_mod
                    && (leb s.storage a.offset
                        && (leb a.offset (s.storage + storage_bytes - a.size)
                            && ((a.reserved == 0) && (add64 s.address a.offset % 4096 == 0))))))))

-- quetz_native_regions_valid: two regions overlap, in the guest's memory or in the segment.
unfoldable pub overlap : Region → Region → Bool
overlap a b =
    (ltb a.base (b.base + b.size) && ltb b.base (a.base + a.size))
    || (ltb a.offset (add32 b.offset b.size) && ltb b.offset (add32 a.offset a.size))

-- quetz_native_regions_valid, the inner loop: the regions before `a`, which overlap it or not
unfoldable pub overlaps_none : Region → List Region → Bool
overlaps_none a [] = true
overlaps_none a (b ∷ bs) = not (overlap a b) && overlaps_none a bs

-- quetz_native_regions_valid, the outer loop, past the regions `before`
unfoldable pub all_fit : Shared → List Region → List Region → Bool
all_fit s before [] = true
all_fit s before (a ∷ rest) =
    region_fits s a && (overlaps_none a before && all_fit s (a ∷ before) rest)

-- quetz_native_regions_valid
unfoldable pub native_regions_valid : Shared → Bool
native_regions_valid s = leb (length s.regions) max_native_regions && all_fit s [] s.regions

unfoldable pub nth : ℕ → List Region → Option Region
nth i [] = none
nth zero (a ∷ rest) = some a
nth (suc i) (a ∷ rest) = nth i rest

-- quetz_native_ram: the address of a region's memory; `none` is NULL.
unfoldable pub native_ram : Shared → ℕ → Option ℕ
native_ram s i = elim (nth i s.regions) [
  | none ↦ none
  | some a ↦ if native_regions_valid s then some (add64 s.address a.offset) else none
]

-- quetz_configure_native_regions, the loop: offsets from `first` on, one stride each
unfoldable pub place : ℕ → ℕ → List Region → List Region
place first i [] = []
place first i (a ∷ rest) =
    record a { offset = add32 (first % u32_mod) (i * native_region_bytes); reserved = 0 }
    ∷ place first (suc i) rest

-- `first - shared`: the first multiple of the stride in the storage, from the segment's address.
unfoldable pub first_offset : Shared → ℕ
first_offset s =
    sub64
      (add64 (add64 s.address s.storage) (native_region_bytes - 1)
        / native_region_bytes
        * native_region_bytes)
      s.address

-- quetz_configure_native_regions, with the segment that it leaves.
unfoldable pub configure_native_regions : List Region → Shared → Bool × Shared
configure_native_regions regions s =
    if ltb max_native_regions (length regions)
    then (false, s)
    else if native_regions_valid t
    then (true, t)
    else (false, record t { regions = [] })
  where
    t : Shared
    t = record s { regions = place (first_offset s) 0 regions }

-- quetz_ipc_native_ram, the loop
unfoldable pub native_ram_from : Shared → ℕ → ℕ → ℕ → List Region → Option ℕ
native_ram_from s base size i [] = none
native_ram_from s base size i (a ∷ rest) =
    let later = native_ram_from s base size (suc i) rest in
    if (a.base == base) && (a.size == size) then native_ram s i else later

-- quetz_ipc_native_ram
unfoldable pub native_ram_at : Shared → ℕ → ℕ → Option ℕ
native_ram_at s base size = native_ram_from s base size 0 s.regions

-- quetz_ipc_native_region_count and quetz_ipc_native_region
unfoldable pub native_region : Shared → ℕ → Option (ℕ × ℕ)
native_region s i = elim (nth i s.regions) [ none ↦ none | some a ↦ some (a.base, a.size) ]
