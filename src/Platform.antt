-- ===== src/Platform.antt =====
-- src/quetz_platform_contract.h: the native regions that the configuration names, as text. Launch has
-- the checks of a command line of QEMU.
mod Launch
mod Options
mod Scan
mod Accepted
mod Parsed
mod Examples
mod LaunchExamples
use quetz.Base.{
  ℕ, zero, suc, ◌+◌, ◌-◌, ◌*◌, ◌%◌, ◌^◌, Bool, true, false, not, ◌&&◌, ◌||◌, Option, none, some,
  List, [], ◌∷◌, ◌++◌, ◌==◌, ltb, leb, if◌then◌else◌, length, u64_mod, u32_mod, Outcome, ok, err,
  invalid_argument, logic_error, ◌>>=◌,
}
use quetz.Native.{Region, native_region_bytes, max_native_regions}

-- A text before and after the first `c` in it; `none` where there is none.
unfoldable pub break_at : ℕ → List ℕ → Option (List ℕ × List ℕ)
break_at c [] = none
break_at c (x ∷ xs) =
    let later = break_at c xs in
    if x == c then some ([], xs) else elim later [ none ↦ none | some r ↦ some (x ∷ r.0, r.1) ]

unfoldable pub is_some : Option (List ℕ × List ℕ) → Bool
is_some none = false
is_some (some r) = true

-- The parts of a text between the separators `c`, one at least.
unfoldable pub split : ℕ → List ℕ → List (List ℕ)
split c [] = [] ∷ []
split c (x ∷ xs) =
    let later = split c xs in
    if x == c
    then [] ∷ later
    else elim later [ [] ↦ (x ∷ []) ∷ [] | item ∷ items ↦ (x ∷ item) ∷ items ]

-- The value of a digit, 16 or more where it is none.
unfoldable pub digit : ℕ → ℕ
digit c =
    if leb b'0' c && leb c b'9'
    then c - b'0'
    else if leb b'a' c && leb c b'f'
    then c - b'a' + 10
    else if leb b'A' c && leb c b'F'
    then c - b'A' + 10
    else 16

-- The characters that a number may have.
unfoldable pub allowed : List ℕ → Bool
allowed [] = true
allowed (c ∷ cs) = (ltb (digit c) 16 || (c == b'x') || (c == b'X')) && allowed cs

-- std::stoull in a given base, from the value so far: the value and what is left of the text.
unfoldable pub digits : ℕ → ℕ → List ℕ → ℕ × List ℕ
digits base value [] = (value, [])
digits base value (c ∷ cs) =
    let later = digits base (value * base + digit c) cs in
    if ltb (digit c) base then later else (value, c ∷ cs)

-- The base that std::stoull finds in a text, and the text past its prefix.
unfoldable pub prefix : List ℕ → ℕ × List ℕ
prefix [] = (10, [])
prefix (a ∷ []) = (10, a ∷ [])
prefix (a ∷ b ∷ []) = (if a == b'0' then 8 else 10, a ∷ b ∷ [])
prefix (a ∷ b ∷ c ∷ cs) =
    if not (a == b'0')
    then (10, a ∷ b ∷ c ∷ cs)
    else if ((b == b'x') || (b == b'X')) && ltb (digit c) 16
    then (16, c ∷ cs)
    else (8, a ∷ b ∷ c ∷ cs)

-- std::stoull of all of a text that is allowed, in base 0. It throws std::out_of_range, which is a
-- std::logic_error.
unfoldable pub stoull : List ℕ → Outcome ℕ
stoull text =
    if length left == length p.1
    then err invalid_argument
    else if leb u64_mod value
    then err logic_error
    else if length left == 0
    then ok value
    else err invalid_argument
  where
    p : ℕ × List ℕ
    p = prefix text

    value : ℕ
    value = (digits p.0 0 p.1).0

    left : List ℕ
    left = (digits p.0 0 p.1).1

-- parseNativeRegions, number
unfoldable pub number : List ℕ → Outcome ℕ
number text = if (length text == 0) || not (allowed text) then err invalid_argument else stoull text

-- parseNativeRegions, the overlap with a region that is there
unfoldable pub overlaps : ℕ → ℕ → List Region → Bool
overlaps base size [] = false
overlaps base size (r ∷ rs) =
    (ltb base (r.base + r.size) && ltb r.base (base + size)) || overlaps base size rs

-- parseNativeRegions, the checks of a region
unfoldable pub add_region : List Region → ℕ → ℕ → Outcome (List Region)
add_region regions base size =
    if (size == 0)
      || ltb native_region_bytes size
      || not (size % 4096 == 0)
      || not (base % 4096 == 0)
      || leb u32_mod base
      || ltb (u32_mod - base) size
    then err invalid_argument
    else if overlaps base size regions
    then err invalid_argument
    else if length regions == max_native_regions
    then err invalid_argument
    else ok (regions ++ (record { base = base; size = size; offset = 0; reserved = 0 } ∷ []))

-- parseNativeRegions, an item around its first colon
unfoldable pub parse_pair : List Region → List ℕ × List ℕ → Outcome (List Region)
parse_pair regions (before, after) =
    if (length before == 0) || (length after == 0) || is_some (break_at b':' after)
    then err invalid_argument
    else number before >>= (λ base. number after >>= (λ size. add_region regions base size))

-- parseNativeRegions, one item
unfoldable pub parse_item : List Region → List ℕ → Outcome (List Region)
parse_item regions item = elim (break_at b':' item) [
  | none ↦ err invalid_argument
  | some r ↦ parse_pair regions r
]

-- parseNativeRegions, the loop. An item that is empty, also after the last separator, is refused.
unfoldable pub parse_items : List Region → List (List ℕ) → Outcome (List Region)
parse_items regions [] = ok regions
parse_items regions (item ∷ items) =
    parse_item regions item >>= (λ regions'. parse_items regions' items)

-- parseNativeRegions
unfoldable pub parse_native_regions : List ℕ → Outcome (List Region)
parse_native_regions value = if length value == 0 then ok [] else parse_items [] (split b';' value)
