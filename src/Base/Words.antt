-- ===== src/Base/Words.antt =====
-- Unsigned machine words as native numbers, and their little-endian bytes.
use Prim.Native.Nat.{ℕ, zero, suc, ◌+◌, ◌-◌, ◌*◌, ◌/◌, ◌%◌, ◌^◌, ◌≤◌}
use mathlib.Core.Path.{◌≡◌}
use mathlib.Core.List.{List, [], ◌∷◌}
use native.Mathlib.Omega.{arith}

abbrev pub u32_mod : ℕ
u32_mod = 2 ^ 32

abbrev pub u64_mod : ℕ
u64_mod = 2 ^ 64

-- Addition and subtraction of uint64_t, with their wrap-around.
abbrev pub add64 : ℕ → ℕ → ℕ
add64 a b = (a + b) % u64_mod

abbrev pub sub64 : ℕ → ℕ → ℕ
sub64 a b = (a + u64_mod - b) % u64_mod

abbrev pub add32 : ℕ → ℕ → ℕ
add32 a b = (a + b) % u32_mod

abbrev pub sub32 : ℕ → ℕ → ℕ
sub32 a b = (a + u32_mod - b) % u32_mod

-- `mmioHandlers::u64ToData`: the `size` low bytes of `val`, low byte first.
unfoldable pub u64_to_data : ℕ → ℕ → List ℕ
u64_to_data val zero = []
u64_to_data val (suc size) = val % 256 ∷ u64_to_data (val / 256) size

-- `mmioHandlers::dataToU64`: the loop runs from the last byte down, `retval = (retval << 8) | b`.
unfoldable pub data_to_u64 : List ℕ → ℕ
data_to_u64 [] = 0
data_to_u64 (b ∷ bs) = data_to_u64 bs * 256 % u64_mod + b

-- The bytes of a register value, for an access of at most eight, read back as the value's low
-- bytes.
pub data_to_u64-u64_to_data :
    (val size : ℕ) → size ≤ 8 → data_to_u64 (u64_to_data val size) ≡ val % 256 ^ size
unfolding u64_to_data data_to_u64
data_to_u64-u64_to_data val zero h = omega arith
data_to_u64-u64_to_data val (suc zero) h =
    omega (arith, data_to_u64-u64_to_data (val / 256) zero (omega arith))
data_to_u64-u64_to_data val (suc (suc zero)) h =
    omega (arith, data_to_u64-u64_to_data (val / 256) (suc zero) (omega arith))
data_to_u64-u64_to_data val (suc (suc (suc zero))) h =
    omega (arith, data_to_u64-u64_to_data (val / 256) (suc (suc zero)) (omega arith))
data_to_u64-u64_to_data val (suc (suc (suc (suc zero)))) h =
    omega (arith, data_to_u64-u64_to_data (val / 256) (suc (suc (suc zero))) (omega arith))
data_to_u64-u64_to_data val (suc (suc (suc (suc (suc zero))))) h =
    omega (arith, data_to_u64-u64_to_data (val / 256) (suc (suc (suc (suc zero)))) (omega arith))
data_to_u64-u64_to_data val (suc (suc (suc (suc (suc (suc zero)))))) h =
    omega
      (arith, data_to_u64-u64_to_data (val / 256) (suc (suc (suc (suc (suc zero))))) (omega arith))
data_to_u64-u64_to_data val (suc (suc (suc (suc (suc (suc (suc zero))))))) h = omega (
  arith,
  data_to_u64-u64_to_data (val / 256) (suc (suc (suc (suc (suc (suc zero)))))) (omega arith),
)
data_to_u64-u64_to_data val (suc (suc (suc (suc (suc (suc (suc (suc zero)))))))) h = omega (
  arith,
  data_to_u64-u64_to_data (val / 256) (suc (suc (suc (suc (suc (suc (suc zero))))))) (omega arith),
)
data_to_u64-u64_to_data val (suc (suc (suc (suc (suc (suc (suc (suc (suc n))))))))) h =
    absurd (omega arith)
