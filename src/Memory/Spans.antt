-- ===== src/Memory/Spans.antt =====
-- Address spans, the chunks that they are cut into, and the lines that a flush covers.
use quetz.Base.{
  ℕ, zero, suc, ◌+◌, ◌-◌, ◌*◌, ◌/◌, ◌%◌, ◌≤◌, ◌<◌, ◌^◌, ◌≡◌, ◌↔◌, ◌⊎◌, true, some, arith,
}
use quetz.Memory.{
  memory_span_valid, memory_chunk_size, BalarFlushRange, compute_balar_flush_range, check_last_line,
  count_lines,
}

-- A span of 64-bit address and size is valid exactly when it is empty or its bytes stay below
-- 2^64.
pub memory_span_valid_iff :
    (address bytes : ℕ)
    → address < 2 ^ 64
    → bytes < 2 ^ 64
    → (memory_span_valid address bytes ≡ true) ↔ ((bytes ≡ 0) ⊎ (address + bytes ≤ 2 ^ 64))
unfolding memory_span_valid
memory_span_valid_iff address bytes ha hb = ground arith

-- Where bytes remain and the limit of a request is not zero, a chunk is not empty, and within the
-- remaining bytes, the limit of a request and the line of its first byte.
pub memory_chunk_size_bounds :
    (address remaining line_size limit : ℕ)
    → 0 < remaining
    → 0 < limit
    → let n = memory_chunk_size address remaining line_size limit in
      (0 < n)
      × (n ≤ remaining)
      × (n ≤ limit)
      × ((line_size ≡ 0) ⊎ (address % line_size + n ≤ line_size))
unfolding memory_chunk_size
memory_chunk_size_bounds address remaining line_size limit hr hl = grind arith

le-mul : (q line : ℕ) → 0 < line → q ≤ q * line
le-mul q line h = grind arith

add_mul : (q line : ℕ) → (q + 1) * line ≡ q * line + line
add_mul q line = omega arith

-- The lines of a span cover it, and the last of them is needed.
count_lines_bounds :
    (span line : ℕ)
    → 0 < line
    → 0 < span
    → span < 2 ^ 64
    → let n = count_lines span line in
      (span ≤ n * line) × (n * line < span + line) × (0 < n) × (n < 2 ^ 64)
unfolding count_lines
count_lines_bounds span line hl hs h =
    let d : span / line * line + span % line ≡ span = grind arith in
    let m = le-mul (span / line) line hl in ground (arith, d, m, add_mul (span / line) line)

pub div-mul-bounds : (a line : ℕ) → 0 < line → (a / line * line ≤ a) × (a < a / line * line + line)
div-mul-bounds a line h = grind arith

-- The end of the last line is representable where the checks on it pass.
last_line_fits :
    (first steps line : ℕ)
    → first < 2 ^ 64
    → 0 < line
    → steps ≤ (2 ^ 64 - 1 - first) / line
    → first + steps * line < 2 ^ 64
last_line_fits first steps line hf hl h = grind arith

check_last_line_lem :
    (range : BalarFlushRange) (line : ℕ) {r : BalarFlushRange}
    → range.first_line < 2 ^ 64
    → range.line_count < 2 ^ 64
    → 0 < line
    → 0 < range.line_count
    → check_last_line range line ≡ some r
    → (r ≡ range) × (range.first_line + range.line_count * line < 2 ^ 64)
unfolding check_last_line
check_last_line_lem range line hf hc hl hp e = ground (
  arith,
  last_line_fits range.first_line (range.line_count - 1) line,
  add_mul (range.line_count - 1) line,
)

-- For values below 2^64: where the range of a flush is computed, its lines begin at or before the
-- buffer, reach its end, stay below 2^64, and the last of them is needed; where there is nothing
-- to flush, there are none.
pub compute_balar_flush_range_covers :
    (scratch bytes line : ℕ) {r : BalarFlushRange}
    → scratch < 2 ^ 64
    → bytes < 2 ^ 64
    → line < 2 ^ 64
    → compute_balar_flush_range scratch bytes line ≡ some r
    → (r.first_line ≡ scratch / line * line)
      × (r.end_addr ≡ scratch + bytes)
      × (((bytes ≡ 0) × (r.line_count ≡ 0))
          ⊎ ((r.end_addr ≤ r.first_line + r.line_count * line)
              × (r.first_line + r.line_count * line < r.end_addr + line)
              × (r.first_line + r.line_count * line < 2 ^ 64)))
unfolding compute_balar_flush_range
compute_balar_flush_range_covers scratch bytes zero {r} hs hb hl e = ground arith
compute_balar_flush_range_covers scratch bytes (suc k) {r} hs hb hl e =
    let line : ℕ = suc k in
    let first : ℕ = scratch / line * line in
    let span : ℕ = scratch + bytes - first in
    ground (
      arith,
      div-mul-bounds scratch line (omega arith),
      count_lines_bounds span line (omega arith),
      check_last_line_lem
          (record {
            first_line = first;
            end_addr = scratch + bytes;
            line_count = count_lines span line;
          })
          line {r = r},
    )
