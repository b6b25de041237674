-- ===== src/Memory/Examples.antt =====
-- The arithmetic of ranges at concrete addresses.
use quetz.Base.{ℕ, ◌+◌, ◌*◌, ◌/◌, ◌%◌, ◌^◌, ◌≤◌, ◌<◌, ◌≡◌, ◌⊎◌, ◌↔◌, refl, true, some, arith}
use quetz.Memory.{
  memory_span_valid, memory_chunk_size, BalarFlushRange, compute_balar_flush_range, check_last_line,
  count_lines,
}
use quetz.Memory.Spans.{
  memory_span_valid_iff, memory_chunk_size_bounds, compute_balar_flush_range_covers,
}

abbrev tail : ℕ
tail = 16

abbrev line : ℕ
line = 64

abbrev buffer : ℕ
buffer = 130

memory_span_valid_iff_example :
    (memory_span_valid 18446744073709551600 16 ≡ true)
    ↔ ((tail ≡ 0) ⊎ (18446744073709551600 + 16 ≤ 2 ^ 64))
memory_span_valid_iff_example =
    memory_span_valid_iff 18446744073709551600 16 (omega arith) (omega arith)

memory_chunk_size_bounds_example :
    (0 < memory_chunk_size 60 100 64 64)
    × (memory_chunk_size 60 100 64 64 ≤ 100)
    × (memory_chunk_size 60 100 64 64 ≤ 64)
    × ((line ≡ 0) ⊎ (60 % 64 + memory_chunk_size 60 100 64 64 ≤ 64))
memory_chunk_size_bounds_example = memory_chunk_size_bounds 60 100 64 64 (omega arith) (omega arith)

abbrev range : BalarFlushRange
range = record { first_line = 4096; end_addr = 4230; line_count = 3 }

range-computed : compute_balar_flush_range 4100 130 64 ≡ some range
unfolding compute_balar_flush_range check_last_line count_lines
range-computed = refl

compute_balar_flush_range_covers_example :
    (range.first_line ≡ 4100 / 64 * 64)
    × (range.end_addr ≡ 4100 + 130)
    × (((buffer ≡ 0) × (range.line_count ≡ 0))
        ⊎ ((range.end_addr ≤ range.first_line + range.line_count * 64)
            × (range.first_line + range.line_count * 64 < range.end_addr + 64)
            × (range.first_line + range.line_count * 64 < 2 ^ 64)))
compute_balar_flush_range_covers_example =
    compute_balar_flush_range_covers 4100 130 64 {r = range} (omega arith) (omega arith)
      (omega arith) range-computed
