-- ===== src/Cpu/Packing.antt =====
-- What a guest writes in either byte order reads back.
use quetz.Base.{
  ℕ, zero, suc, ◌%◌, ◌^◌, ◌≡◌, ◌≤◌, Bool, true, false, if◌then◌else◌, data_to_u64, arith,
}
use quetz.Cpu.Bytes.{pack_from, pack, big_endian_from, big_endian}

big : (size v : ℕ) → size ≤ 8 → big_endian (pack true size v) ≡ v % 256 ^ size
unfolding pack_from big_endian_from
big zero v h = omega arith
big (suc zero) v h = omega arith
big (suc (suc zero)) v h = omega arith
big (suc (suc (suc zero))) v h = omega arith
big (suc (suc (suc (suc zero)))) v h = omega arith
big (suc (suc (suc (suc (suc zero))))) v h = omega arith
big (suc (suc (suc (suc (suc (suc zero)))))) v h = omega arith
big (suc (suc (suc (suc (suc (suc (suc zero))))))) v h = omega arith
big (suc (suc (suc (suc (suc (suc (suc (suc zero)))))))) v h = omega arith
big (suc (suc (suc (suc (suc (suc (suc (suc (suc n))))))))) v h = absurd (omega arith)

little : (size v : ℕ) → size ≤ 8 → data_to_u64 (pack false size v) ≡ v % 256 ^ size
unfolding pack_from data_to_u64
little zero v h = omega arith
little (suc zero) v h = omega arith
little (suc (suc zero)) v h = omega arith
little (suc (suc (suc zero))) v h = omega arith
little (suc (suc (suc (suc zero)))) v h = omega arith
little (suc (suc (suc (suc (suc zero))))) v h = omega arith
little (suc (suc (suc (suc (suc (suc zero)))))) v h = omega arith
little (suc (suc (suc (suc (suc (suc (suc zero))))))) v h = omega arith
little (suc (suc (suc (suc (suc (suc (suc (suc zero)))))))) v h = omega arith
little (suc (suc (suc (suc (suc (suc (suc (suc (suc n))))))))) v h = absurd (omega arith)

-- The bytes that pollMmioSyncMailbox makes of a value, in either byte order and of 8 bytes at
-- most, read back in that order as the value modulo 256 to the power of their number.
pub pack-reads_back :
    (be : Bool) (size v : ℕ)
    → size ≤ 8
    → (if be then big_endian (pack be size v) else data_to_u64 (pack be size v)) ≡ v % 256 ^ size
pack-reads_back true size v h = big size v h
pack-reads_back false size v h = little size v h
