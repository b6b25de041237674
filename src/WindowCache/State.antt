-- ===== src/WindowCache/State.antt =====
-- The fields of WindowDataCache, its search for a line, and the mode of an address.
use quetz.Base.{
  ℕ, zero, suc, ◌+◌, ◌-◌, ◌*◌, ◌/◌, ◌%◌, ◌^◌, Bool, not, ◌&&◌, ◌||◌, Option, none, some, List, [],
  ◌∷◌, ltb, leb, ◌==◌, if◌then◌else◌, bit_and, bit_xor, get_or,
}

abbrev pub line_bytes : ℕ
line_bytes = 16

abbrev pub sets : ℕ
sets = 512

abbrev pub ways : ℕ
ways = 4

pub record Region : Type 0 where
  pub base : ℕ
  pub size : ℕ

pub record Line : Type 0 where
  pub bytes : List ℕ
  pub address : ℕ
  pub valid : Bool
  pub dirty : Bool

pub data Pending : Type 0 where
  idle fill bypass_read bypass_write write_through pushed evict : Pending

-- Action, by its kind.
pub data Action : Type 0 where
  done : List ℕ → Action
  read : ℕ → ℕ → Action
  write : ℕ → List ℕ → Action

-- `lines` gives the line of each slot below `sets * ways`.
pub record Cache : Type 0 where
  pub regions : List Region
  pub cacr : ℕ
  pub acr : List ℕ
  pub lines : ℕ → Line
  pub replacement : ℕ
  pub pending_slot : ℕ
  pub dirty_discards : ℕ
  pub active : Bool
  pub pushing : Bool
  pub invalidate_push : Bool
  pub writing : Bool
  pub pending : Pending
  pub address : ℕ
  pub pending_address : ℕ
  pub count : ℕ
  pub offset : ℕ
  pub pending_size : ℕ
  pub bytes : List ℕ

-- Whether a bit of a word is set.
abbrev pub bit : ℕ → ℕ → Bool
bit n x = not (x / 2 ^ n % 2 == 0)

-- regionFor
unfoldable pub region_for : List Region → ℕ → Option Region
region_for [] address = none
region_for (r ∷ rs) address =
    let later = region_for rs address in
    if leb r.base address && ltb (address - r.base) r.size then some r else later

-- setIndex
abbrev pub set_index : ℕ → ℕ
set_index address = address / line_bytes % sets

abbrev pub line_address : ℕ → ℕ
line_address address = address - address % line_bytes

abbrev pub holds : Line → ℕ → Bool
holds line address = line.valid && (line.address == address)

-- find, over the ways of the set that begin at `slot`; `none` is NoSlot.
unfoldable pub find_from : (ℕ → Line) → ℕ → ℕ → ℕ → Option ℕ
find_from lines slot zero address = none
find_from lines slot (suc left) address =
    let later = find_from lines (suc slot) left address in
    if holds (lines slot) address then some slot else later

abbrev pub find : (ℕ → Line) → ℕ → Option ℕ
find lines address = find_from lines (set_index address * ways) ways address

-- The lowest invalid way of a set, from `slot` on.
unfoldable pub invalid_from : (ℕ → Line) → ℕ → ℕ → Option ℕ
invalid_from lines slot zero = none
invalid_from lines slot (suc left) =
    let later = invalid_from lines (suc slot) left in
    if (lines slot).valid then later else some slot

-- victim
unfoldable pub victim : Cache → ℕ → ℕ
victim c set =
    let first = (if bit 27 c.cacr then 2 else 0) in
    elim (invalid_from c.lines (set * ways + first) (ways - first)) [
      | some slot ↦ slot
      | none ↦ set * ways + (if first == 0 then c.replacement else 2 + c.replacement / 2)
    ]

-- The mode that an access control register gives an address, where it matches.
unfoldable pub acr_mode : ℕ → ℕ → Option ℕ
acr_mode acr address =
    if not (bit 15 acr) || (acr / 2 ^ 13 % 4 == 0)
    then none
    else if bit 10 acr
    then (if (address / 2 ^ 24 == acr / 2 ^ 24)
          && (bit_and (bit_xor (address / 2 ^ 20) (acr / 2 ^ 20)) (15 - acr / 2 ^ 16 % 16) == 0)
        then some (acr / 2 ^ 5 % 4)
        else none)
    else if bit_and (bit_xor (address / 2 ^ 24) (acr / 2 ^ 24)) (255 - acr / 2 ^ 16 % 256) == 0
    then some (acr / 2 ^ 5 % 4)
    else none

-- mode: 0 is write-through, 1 is copyback, and the others bypass the cache.
unfoldable pub mode : Cache → ℕ → ℕ
mode c address = if not (bit 31 c.cacr) then 2 else elim (acr_mode (get_or c.acr 0 0) address) [
  | some m ↦ m
  | none ↦ elim (acr_mode (get_or c.acr 1 0) address) [ some m ↦ m | none ↦ c.cacr / 2 ^ 25 % 4 ]
]
