-- ===== src/Memory.antt =====
-- src/quetz_memory_span.h and src/quetz_balar_flush_range.h: the arithmetic of address ranges and of
-- their division into requests.
pub mod Spans
mod Examples
use quetz.Base.{
  ℕ, ◌+◌, ◌-◌, ◌*◌, ◌/◌, ◌%◌, ◌^◌, min, Bool, true, false, not, ◌||◌, Option, none, some, leb, ltb,
  ◌==◌, if◌then◌else◌, add64, sub64, u64_mod, u32_mod,
}

abbrev pub u64_max : ℕ
u64_max = 2 ^ 64 - 1

-- memorySpanValid
unfoldable pub memory_span_valid : ℕ → ℕ → Bool
memory_span_valid address bytes = bytes == 0 || leb (sub64 bytes 1) (sub64 u64_max address)

-- memoryChunkSize
unfoldable pub memory_chunk_size : ℕ → ℕ → ℕ → ℕ → ℕ
memory_chunk_size address remaining line_size request_limit =
    let bytes = min remaining request_limit in
    if line_size == 0 then bytes else min bytes (line_size - address % line_size)

-- memorySlots
unfoldable pub memory_slots : ℕ → ℕ → ℕ → ℕ
memory_slots address bytes line_size =
    if bytes == 0
    then 0
    else add64 1 (sub64 (add64 (address % line_size) bytes) 1 / line_size) % u32_mod

-- BalarFlushRange
pub record BalarFlushRange : Type 0 where
  pub first_line : ℕ
  pub end_addr : ℕ
  pub line_count : ℕ

-- The tail of computeBalarFlushRange: the checks on the range once its lines are counted.
unfoldable pub check_last_line : BalarFlushRange → ℕ → Option BalarFlushRange
check_last_line range line_size =
    if range.line_count == 0
    then some range
    else if ltb (sub64 u64_max range.first_line / line_size) steps
    then none
    else if leb line_size (sub64 u64_max last_line)
    then some range
    else none
  where
    steps : ℕ
    steps = sub64 range.line_count 1

    last_line : ℕ
    last_line = add64 range.first_line (steps * line_size % u64_mod)

-- `span / line_size + (span % line_size != 0)`
unfoldable pub count_lines : ℕ → ℕ → ℕ
count_lines span line_size = add64 (span / line_size) (if span % line_size == 0 then 0 else 1)

-- computeBalarFlushRange; `none` is the result false.
unfoldable pub compute_balar_flush_range : ℕ → ℕ → ℕ → Option BalarFlushRange
compute_balar_flush_range scratch flush_bytes line_size =
    if line_size == 0 || ltb (sub64 u64_max scratch) flush_bytes
    then none
    else if flush_bytes == 0
    then some (record { first_line = first; end_addr = end; line_count = 0 })
    else check_last_line
        (record {
          first_line = first;
          end_addr = end;
          line_count = count_lines (sub64 end first) line_size;
        })
        line_size
  where
    first : ℕ
    first = scratch / line_size * line_size % u64_mod

    end : ℕ
    end = add64 scratch flush_bytes
