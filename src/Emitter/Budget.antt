-- ===== src/Emitter/Budget.antt =====
-- The budget of a window: the requests that it sends and what they add to the pending count.
use quetz.Base.{
  ℕ, zero, suc, ◌+◌, ◌-◌, ◌≤◌, ◌<◌, ◌^◌, ◌≡◌, refl, ◌&&◌, List, length, ltb, add64, add32, arith,
  inl, inr, Bool-cases, Meets,
}
use quetz.Base.{sub32, if◌then◌else◌, ◌==◌}
use quetz.CoreStats.{CoreStats, add_data, read_req_sizes, write_req_sizes, cached_truncated_writes}
use quetz.Ipc.{cmd_data_bytes}
use quetz.Memory.{memory_chunk_size}
use quetz.Emitter.{
  Emitter, Access, IssuePath, cached, mmio, send, send_part, issue_loop, issue_size, reading,
  writing, issue_read_window, issue_write_window,
}

-- At most `budget` requests are sent, each of them one more in flight.
abbrev pub WithinBudget : Emitter → ℕ → Emitter × ℕ × ℕ → Type 0
WithinBudget e budget r =
    (r.2 ≤ budget)
    × (r.0.pending_count ≡ e.pending_count + r.2)
    × (length r.0.sent ≡ length e.sent + r.2)

pending_count-send_part :
    (acc : Access) (e : Emitter) (now addr offset chunk : ℕ)
    → e.pending_count + 1 < 2 ^ 32
    → (send_part acc e now addr offset chunk).pending_count ≡ e.pending_count + 1
unfolding send_part
pending_count-send_part acc e now addr offset chunk h = omega arith

sent-send_part :
    (acc : Access) (e : Emitter) (now addr offset chunk : ℕ)
    → length (send_part acc e now addr offset chunk).sent ≡ length e.sent + 1
unfolding send_part
sent-send_part acc e now addr offset chunk = omega arith

issue_loop_budget :
    (fuel : ℕ) (acc : Access) (e : Emitter) (now addr offset remaining parts budget : ℕ)
    → parts ≤ budget
    → e.pending_count + (budget - parts) < 2 ^ 32
    → let r = issue_loop fuel acc e now addr offset remaining parts budget in
      (r.2 ≤ budget)
      × (r.0.pending_count + parts ≡ e.pending_count + r.2)
      × (length r.0.sent + parts ≡ length e.sent + r.2)
unfolding issue_loop
issue_loop_budget zero acc e now addr offset remaining parts budget h p = (h, refl, refl)
issue_loop_budget (suc k) acc e now addr offset remaining parts budget h p =
    elim (Bool-cases (ltb 0 remaining && ltb parts budget)) [
      | inr stop ↦ rw stop (h, refl, refl)
      | inl going ↦
          let c : ℕ = memory_chunk_size addr remaining e.cache_line_size remaining in
          let g : parts < budget = ground arith in
          let s = pending_count-send_part acc e now addr offset c (omega arith) in
          let l = sent-send_part acc e now addr offset c in
          let ih =
            issue_loop_budget k acc (send_part acc e now addr offset c) now (add64 addr c)
              (add32 offset c) (remaining - c) (parts + 1) budget (omega arith)
              (omega (arith, s)) in
          rw going (ih.0, omega (arith, ih.1, s), omega (arith, ih.2, l))
    ]

-- A read window either ends in fatal() or puts on the link no more requests than its budget, as
-- many as it returns, and counts each of them once as pending, where the count and the budget stay
-- below 2^32.
pub issue_read_window-WithinBudget :
    (e : Emitter) (now vaddr size : ℕ) (path : IssuePath) (offset budget : ℕ)
    → e.pending_count + budget < 2 ^ 32
    → Meets (WithinBudget e budget) (issue_read_window e now vaddr size path offset budget)
unfolding issue_read_window send
issue_read_window-WithinBudget e now vaddr size cached offset budget h =
    let e' : Emitter =
      if offset == 0 then record e { stats = add_data read_req_sizes size e.stats } else e in
    let n : ℕ = sub32 size offset in
    let same : e'.pending_count ≡ e.pending_count = ground arith in
    let l =
      issue_loop_budget n reading e' now (add64 vaddr offset) offset n 0 budget (omega arith)
        (omega (arith, same)) in
    ground (arith, l, same)
issue_read_window-WithinBudget e now vaddr size mmio offset budget h = ground arith

pub issue_write_window-WithinBudget :
    (e : Emitter) (now vaddr size : ℕ) (raw : List ℕ) (path : IssuePath) (offset budget : ℕ)
    → e.pending_count + budget < 2 ^ 32
    → Meets (WithinBudget e budget) (issue_write_window e now vaddr size raw path offset budget)
unfolding issue_write_window send
issue_write_window-WithinBudget e now vaddr size raw cached offset budget h =
    let counted : CoreStats =
      if offset == 0 then add_data write_req_sizes size e.stats else e.stats in
    let e' : Emitter = record e {
      stats =
          if ltb cmd_data_bytes size && (offset == 0)
          then add_data cached_truncated_writes 1 counted
          else counted;
    } in
    let n : ℕ = sub32 (issue_size size) offset in
    let l =
      issue_loop_budget n (writing raw) e' now (add64 vaddr offset) offset n 0 budget (omega arith)
        (omega arith) in
    ground (arith, l)
issue_write_window-WithinBudget e now vaddr size raw mmio offset budget h = ground arith
