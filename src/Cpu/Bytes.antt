-- ===== src/Cpu/Bytes.antt =====
-- The byte orders of src/quetzcpu_mmio_sync.cc: the value of the mailbox as the bytes of a command,
-- and the bytes of a response as a value.
use quetz.Base.{
  ℕ, zero, suc, ◌+◌, ◌-◌, ◌*◌, ◌/◌, ◌%◌, ◌^◌, Bool, List, [], ◌∷◌, if◌then◌else◌, u64_mod, min,
}
use quetz.Ipc.{cmd_data_bytes}

-- pollMmioSyncMailbox, the packing loop from the byte `i` on. The bridge sends 8 bytes at most, past
-- which the source shifts by more than the width of the value; here that gives 0.
unfoldable pub pack_from : Bool → ℕ → ℕ → ℕ → ℕ → List ℕ
pack_from be size value i zero = []
pack_from be size value i (suc n) =
    value / 256 ^ (if be then size - 1 - i else i) % 256 ∷ pack_from be size value (suc i) n

-- pollMmioSyncMailbox, the bytes of a write
abbrev pub pack : Bool → ℕ → ℕ → List ℕ
pack be size value = pack_from be size value 0 (min size cmd_data_bytes)

-- `for (uint8_t b : data) value = (value << 8) | b`
unfoldable pub big_endian_from : ℕ → List ℕ → ℕ
big_endian_from value [] = value
big_endian_from value (b ∷ bs) = big_endian_from (value * 256 % u64_mod + b) bs

abbrev pub big_endian : List ℕ → ℕ
big_endian = big_endian_from 0
