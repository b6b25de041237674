-- ===== src/Base/Examples.antt =====
-- Bytes of a register value, read back.
use quetz.Base.{◌%◌, ◌^◌, ◌≡◌, arith, data_to_u64, u64_to_data}
use quetz.Base.Words.{data_to_u64-u64_to_data}

data_to_u64-u64_to_data_example : data_to_u64 (u64_to_data 305419896 2) ≡ 305419896 % 256 ^ 2
data_to_u64-u64_to_data_example = data_to_u64-u64_to_data 305419896 2 (omega arith)
