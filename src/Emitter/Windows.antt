-- ===== src/Emitter/Windows.antt =====
-- The windows of cached accesses: which requests they send, and what they leave for the next one.
use quetz.Base.{
  ℕ, ◌+◌, ◌-◌, ◌≤◌, ◌<◌, ◌^◌, min, ◌≡◌, refl, ◌∙◌, true, false, ◌&&◌, ◌||◌, List, ltb, ◌==◌,
  if◌then◌else◌, length, add64, sub32, arith, inr, ok,
}
use quetz.CoreStats.{CoreStats, add_data, read_req_sizes, write_req_sizes, cached_truncated_writes}
use quetz.Ipc.{cmd_data_bytes}
use quetz.Memory.{memory_span_valid}
use quetz.Memory.Spans.{memory_span_valid_iff}
use quetz.Emitter.{
  Emitter, reading, writing, cached, issue_loop, issue_size, issue_read_window, issue_write_window,
}
use quetz.Emitter.Chunks.{Issued, issue_loop-Issued}

span_valid :
    (vaddr size : ℕ)
    → 0 < size
    → size < 2 ^ 64
    → vaddr + size ≤ 2 ^ 64
    → memory_span_valid vaddr size ≡ true
span_valid vaddr size h l s = (memory_span_valid_iff vaddr size (omega arith) l).1 (inr s)

-- A window of a cached read of 1 to 2^32 - 1 bytes that ends within 2^64, from an offset in it and
-- with a budget that is not zero, succeeds where the link is connected and a cache line has 1 to
-- 2^63 bytes. It sends as many requests as its budget and the slots of the rest of the access
-- allow; they tile the access from the old offset to the new one, each of them within one cache
-- line; and where the budget is not used up, the whole access has been issued.
pub issue_read_window-Issued :
    (e : Emitter) (now vaddr size offset budget : ℕ)
    → e.mem_link ≡ true
    → 0 < e.cache_line_size
    → e.cache_line_size ≤ 2 ^ 63
    → 0 < size
    → size < 2 ^ 32
    → vaddr + size ≤ 2 ^ 64
    → offset ≤ size
    → 0 < budget
    → (r : Emitter × ℕ × ℕ) × (issue_read_window e now vaddr size cached offset budget ≡ ok r)
      × Issued e.cache_line_size (vaddr + offset) vaddr e offset (size - offset) 0 budget r
unfolding issue_read_window
issue_read_window-Issued e now vaddr size offset budget ml hl sl hs ss sa ho hb =
    let e' : Emitter =
      if offset == 0 then record e { stats = add_data read_req_sizes size e.stats } else e in
    let t1 : (size == 0 || budget == 0) ≡ false = ground arith in
    let rest : sub32 size offset ≡ size - offset = omega arith in
    let same : (e'.sent ≡ e.sent) × (e'.cache_line_size ≡ e.cache_line_size) = ground arith in
    let r : Emitter × ℕ × ℕ =
      issue_loop (size - offset) reading e' now (add64 vaddr offset) offset (size - offset) 0
        budget in
    let v : Issued e.cache_line_size (vaddr + offset) vaddr e' offset (size - offset) 0 budget r =
      issue_loop-Issued (size - offset) reading e' now vaddr offset (size - offset) 0 budget
        e.cache_line_size (vaddr + offset) same.1 hl sl tt (omega arith) (omega arith) (omega arith)
        (omega arith) refl in
    (
      r,
      rw (t1, span_valid vaddr size hs (omega arith) sa, ml, rest),
      record {
        count = v.count;
        tiles = v.tiles;
        within = v.within;
        complete = v.complete;
        kept = v.kept ∙ same.0;
        line_kept = v.line_kept;
      },
    )

-- A window of a cached write of at least one byte, from an offset in the first 64 bytes of it,
-- which are those that the command carries and which end within 2^64, succeeds with a budget that
-- is not zero where the link is connected and a cache line has 1 to 2^63 bytes. The requests that
-- it sends are as many as its budget and the slots of the rest of those bytes allow, they tile
-- those bytes from the old offset on, each within one cache line, and the offset goes to the
-- access's end once all of those bytes are sent.
pub issue_write_window-Issued :
    (e : Emitter) (now vaddr size : ℕ) (raw : List ℕ) (offset budget : ℕ)
    → e.mem_link ≡ true
    → 0 < e.cache_line_size
    → e.cache_line_size ≤ 2 ^ 63
    → length raw ≡ 64
    → 0 < size
    → vaddr + min size 64 ≤ 2 ^ 64
    → offset ≤ min size 64
    → 0 < budget
    → (r : Emitter × ℕ × ℕ) × (issue_write_window e now vaddr size raw cached offset budget
        ≡ ok (r.0, (if r.1 == min size 64 then size else r.1), r.2))
      × Issued e.cache_line_size (vaddr + offset) vaddr e offset (min size 64 - offset) 0 budget r
unfolding issue_write_window
issue_write_window-Issued e now vaddr size raw offset budget ml hl sl f hs sa ho hb =
    let counted : CoreStats =
      if offset == 0 then add_data write_req_sizes size e.stats else e.stats in
    let e' : Emitter = record e {
      stats =
          if ltb cmd_data_bytes size && (offset == 0)
          then add_data cached_truncated_writes 1 counted
          else counted;
    } in
    let n : ℕ = min size 64 in
    let t1 : (size == 0 || budget == 0) ≡ false = ground arith in
    let sized : issue_size size ≡ n = ground arith in
    let rest : sub32 n offset ≡ n - offset = omega arith in
    let r : Emitter × ℕ × ℕ =
      issue_loop (n - offset) (writing raw) e' now (add64 vaddr offset) offset (n - offset) 0
        budget in
    let v : Issued e.cache_line_size (vaddr + offset) vaddr e' offset (n - offset) 0 budget r =
      issue_loop-Issued (n - offset) (writing raw) e' now vaddr offset (n - offset) 0 budget
        e.cache_line_size (vaddr + offset) refl hl sl f (omega arith) (omega arith) (omega arith)
        (omega arith) refl in
    (
      r,
      rw (t1, span_valid vaddr n (omega arith) (omega arith) sa, ml, sized, rest),
      record {
        count = v.count;
        tiles = v.tiles;
        within = v.within;
        complete = v.complete;
        kept = v.kept;
        line_kept = v.line_kept;
      },
    )
