-- ===== src/Native/Examples.antt =====
-- Two regions of the guest, 64 KB and 4 KB, in a segment at an address that is not aligned to a
-- stride.
use quetz.Base.{ℕ, ◌+◌, ◌%◌, ◌≡◌, ◌≤◌, ◌↔◌, true, some, List, [], ◌∷◌, refl, arith}
use quetz.Native.{
  Region, Shared, native_regions_valid, native_ram, nth, place, first_offset,
  configure_native_regions, storage_bytes, region_fits, all_fit, overlaps_none, overlap,
}
use quetz.Native.Valid.{Placed, Valid, native_regions_valid_iff}
use quetz.Native.Layout.{GuestValid, configure_native_regions_iff, native_ram_bounds}

abbrev pub ram : Region
ram = record { base = 1073741824; size = 65536; offset = 0; reserved = 0 }

abbrev pub flash : Region
flash = record { base = 0; size = 4096; offset = 0; reserved = 0 }

abbrev given : List Region
given = ram ∷ flash ∷ []

abbrev pub segment : Shared
segment = record { address = 139637976727552; storage = 144000; regions = [] }

pub segment-Placed : Placed segment
segment-Placed = record { near = omega arith; mapped = omega arith }

configure_native_regions_iff_example :
    (GuestValid given
      → configure_native_regions given segment
        ≡ (true, record segment { regions = place (first_offset segment) 0 given }))
    × ((configure_native_regions given segment).0 ≡ true → GuestValid given)
configure_native_regions_iff_example = configure_native_regions_iff given segment segment-Placed

abbrev configured : Shared
configured = record segment {
  regions = record ram { offset = 196608 } ∷ record flash { offset = 262144 } ∷ [];
}

configured_is : (configure_native_regions given segment).1 ≡ configured
unfolding configure_native_regions native_regions_valid region_fits all_fit overlaps_none overlap
    place first_offset
configured_is = refl

native_regions_valid_iff_example :
    (native_regions_valid configured ≡ true) ↔ Valid configured configured.regions
native_regions_valid_iff_example = native_regions_valid_iff configured segment-Placed

abbrev second : Region
second = record flash { offset = 262144 }

found : nth 1 configured.regions ≡ some second
unfolding nth
found = refl

abbrev address : ℕ
address = 139637976989696

pointer : native_ram configured 1 ≡ some address
unfolding native_ram nth native_regions_valid region_fits all_fit overlaps_none overlap
pointer = refl

native_ram_bounds_example :
    (address ≡ configured.address + second.offset)
    × (configured.address + configured.storage ≤ address)
    × (address + second.size ≤ configured.address + configured.storage + storage_bytes)
    × (address % 4096 ≡ 0)
native_ram_bounds_example =
    native_ram_bounds configured 1 address {a = second} segment-Placed pointer found
