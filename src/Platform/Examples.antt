-- ===== src/Platform/Examples.antt =====
-- Two regions, as text: 0x40000000:65536;0:0x1000
use quetz.Base.{ℕ, ◌≡◌, true, List, [], ◌∷◌, ok, err, invalid_argument, refl}
use quetz.Native.{configure_native_regions, place, first_offset}
use quetz.Native.Examples.{ram, flash, segment, segment-Placed}
use quetz.Platform.{
  parse_native_regions, parse_items, parse_item, parse_pair, number, stoull, prefix, digits, digit,
  allowed, split, break_at, is_some, add_region, overlaps,
}
use quetz.Platform.Parsed.{parsed_configures}

abbrev text : List ℕ
text =
    b'0' ∷ b'x' ∷ b'4' ∷ b'0' ∷ b'0' ∷ b'0' ∷ b'0' ∷ b'0' ∷ b'0' ∷ b'0' ∷ b':' ∷ b'6' ∷ b'5' ∷ b'5'
    ∷ b'3' ∷ b'6' ∷ b';' ∷ b'0' ∷ b':' ∷ b'0' ∷ b'x' ∷ b'1' ∷ b'0' ∷ b'0' ∷ b'0' ∷ []

parsed : parse_native_regions text ≡ ok (ram ∷ flash ∷ [])
unfolding parse_native_regions parse_items parse_item parse_pair number stoull prefix digits digit
    allowed split break_at is_some add_region overlaps
parsed = refl

empty_item : parse_native_regions (b';' ∷ []) ≡ err invalid_argument
unfolding parse_native_regions parse_items parse_item split break_at
empty_item = refl

parsed_configures_example :
    configure_native_regions (ram ∷ flash ∷ []) segment
    ≡ (true, record segment { regions = place (first_offset segment) 0 (ram ∷ flash ∷ []) })
parsed_configures_example = parsed_configures text segment parsed segment-Placed
