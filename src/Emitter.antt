-- ===== src/Emitter.antt =====
-- src/quetz_mem_issue.cc and .h: MemRequestEmitter, which cuts a guest access into requests of at
-- most a cache line and tracks the requests in flight. Request ids come from SST's StandardMem,
-- which never gives one twice: the model counts them up. The requests sent are logged, newest first.
pub mod Chunks
pub mod Budget
pub mod Windows
pub mod Flight
mod Examples
use quetz.Base.{
  ℕ, zero, suc, ◌+◌, ◌-◌, min, Bool, true, false, not, ◌&&◌, ◌||◌, Option, none, some, List, [],
  ◌∷◌, ◌++◌, ltb, leb, ◌==◌, if◌then◌else◌, length, take, drop, replicate, add64, add32, sub32,
  u32_mod, Outcome, ok, err, fatal, ◌>>=◌,
}
use quetz.Memory.{memory_span_valid, memory_chunk_size, memory_slots}
use quetz.Ipc.{cmd_data_bytes}
use quetz.CoreStats.{
  Stat, CoreStats, add_data, read_reqs, write_reqs, mmio_read_reqs, mmio_write_reqs,
  mmio_truncated_writes, cached_truncated_writes, read_req_sizes, write_req_sizes, split_reads,
  split_writes,
}

pub data IssuePath : Type 0 where
  cached mmio : IssuePath

abbrev is_mmio_path : IssuePath → Bool
is_mmio_path cached = false
is_mmio_path mmio = true

-- StandardMem::Read and StandardMem::Write, as far as they are filled in here.
pub data Request : Type 0 where
  read : ℕ → ℕ → Request
  write : ℕ → List ℕ → Request

-- QuetzPendingReq, with its key.
pub record PendingReq : Type 0 where
  pub id : ℕ
  pub issue_cycle : ℕ
  pub is_mmio : Bool

pub record Emitter : Type 0 where
  pub mem_link : Bool
  pub mmio_link : Bool
  pub cache_line_size : ℕ
  pub pending_txns : List PendingReq
  pub pending_count : ℕ
  pub next_id : ℕ
  pub sent : List Request
  pub stats : CoreStats

-- linkFor, as whether the link is connected.
abbrev link_for : Emitter → IssuePath → Bool
link_for e cached = e.mem_link
link_for e mmio = e.mmio_link

-- slotsNeeded
unfoldable slots_needed : Emitter → ℕ → ℕ → IssuePath → ℕ
slots_needed e vaddr size mmio = 1
slots_needed e vaddr size cached = memory_slots vaddr size e.cache_line_size

-- What each request is sent by: an entry of pending_txns_, the count, and link->send.
pub send : Emitter → ℕ → Bool → Request → Emitter
send e now is_mmio req = record e {
  pending_txns = record { id = e.next_id; issue_cycle = now; is_mmio = is_mmio } ∷ e.pending_txns;
  pending_count = add32 e.pending_count 1;
  next_id = e.next_id + 1;
  sent = req ∷ e.sent;
}

-- The two kinds of access, with what they differ in: the request for a part, and the statistics.
pub data Access : Type 0 where
  reading : Access
  writing : List ℕ → Access

-- The bytes of a part: those that the command carries from `offset` on, and zeros past them.
pub part_bytes : List ℕ → ℕ → ℕ → List ℕ
part_bytes raw offset chunk =
    let copied = (if ltb offset cmd_data_bytes then min chunk (cmd_data_bytes - offset) else 0) in
    take copied (drop offset raw) ++ replicate (chunk - copied) 0

abbrev pub part : Access → ℕ → ℕ → ℕ → Request
part reading addr offset chunk = read addr chunk
part (writing raw) addr offset chunk = write addr (part_bytes raw offset chunk)

abbrev req_stat : Access → Stat
req_stat reading = read_reqs
req_stat (writing raw) = write_reqs

abbrev split_stat : Access → Stat
split_stat reading = split_reads
split_stat (writing raw) = split_writes

-- One round of the loops of issueReadWindow and issueWriteWindow.
pub send_part : Access → Emitter → ℕ → ℕ → ℕ → ℕ → Emitter
unfolding send
send_part acc e now addr offset chunk =
    let split = (if offset == 0 then e.stats else add_data (split_stat acc) 1 e.stats) in
    send (record e { stats = add_data (req_stat acc) 1 split }) now false
      (part acc addr offset chunk)

-- `while (remaining > 0 && parts < budget)`: the emitter, the offset and the parts at its end. A
-- round issues at least one byte, so as much fuel as there are bytes is enough.
pub issue_loop : ℕ → Access → Emitter → ℕ → ℕ → ℕ → ℕ → ℕ → ℕ → Emitter × ℕ × ℕ
issue_loop zero acc e now addr offset remaining parts budget = (e, offset, parts)
issue_loop (suc fuel) acc e now addr offset remaining parts budget =
    let chunk = memory_chunk_size addr remaining e.cache_line_size remaining in
    let rest =
      issue_loop fuel acc (send_part acc e now addr offset chunk) now (add64 addr chunk)
        (add32 offset chunk) (remaining - chunk) (parts + 1) budget in
    if ltb 0 remaining && ltb parts budget then rest else (e, offset, parts)

-- issueReadWindow: the emitter, the new offset, and the number of requests.
pub issue_read_window : Emitter → ℕ → ℕ → ℕ → IssuePath → ℕ → ℕ → Outcome (Emitter × ℕ × ℕ)
issue_read_window e now vaddr size path offset budget =
    if size == 0 || budget == 0
    then ok (e, offset, 0)
    else if not (memory_span_valid vaddr size)
    then err fatal
    else if not (link_for e path)
    then err fatal
    else if is_mmio_path path
    then ok (
      send (record e { stats = add_data mmio_read_reqs 1 e.stats }) now true (read vaddr size),
      size,
      1,
    )
    else ok (issue_loop remaining reading sized now (add64 vaddr offset) offset remaining 0 budget)
  where
    remaining : ℕ
    remaining = sub32 size offset

    sized : Emitter
    sized = if offset == 0 then record e { stats = add_data read_req_sizes size e.stats } else e

-- The size that a write issues: what the command can carry.
abbrev pub issue_size : ℕ → ℕ
issue_size size = if ltb cmd_data_bytes size then cmd_data_bytes else size

-- issueWriteWindow. Once every captured byte is sent, the offset moves to the access's end.
pub issue_write_window :
    Emitter → ℕ → ℕ → ℕ → List ℕ → IssuePath → ℕ → ℕ → Outcome (Emitter × ℕ × ℕ)
issue_write_window e now vaddr size raw path offset budget =
    if size == 0 || budget == 0
    then ok (e, offset, 0)
    else if not (memory_span_valid vaddr (min size cmd_data_bytes))
    then err fatal
    else if not (link_for e path)
    then err fatal
    else if is_mmio_path path
    then ok (
      send (record e { stats = add_data mmio_write_reqs 1 cut }) now true
          (write vaddr (take (issue_size size) raw)),
      size,
      1,
    )
    else (let (e', offset', parts) =
          issue_loop remaining (writing raw) (record e { stats = sized }) now (add64 vaddr offset)
            offset remaining 0 budget in
        ok (e', (if offset' == n then size else offset'), parts))
  where
    n : ℕ
    n = issue_size size

    remaining : ℕ
    remaining = sub32 n offset

    cut : CoreStats
    cut = if ltb cmd_data_bytes size then add_data mmio_truncated_writes 1 e.stats else e.stats

    counted : CoreStats
    counted = if offset == 0 then add_data write_req_sizes size e.stats else e.stats

    sized : CoreStats
    sized =
        if ltb cmd_data_bytes size && (offset == 0)
        then add_data cached_truncated_writes 1 counted
        else counted

-- The entry of pending_txns_ with an id, and the others.
pub find_pending : ℕ → List PendingReq → Option PendingReq
find_pending id [] = none
find_pending id (p ∷ ps) = if p.id == id then some p else find_pending id ps

pub erase_pending : ℕ → List PendingReq → List PendingReq
erase_pending id [] = []
erase_pending id (p ∷ ps) = if p.id == id then ps else p ∷ erase_pending id ps

-- What handleResponse reports of a response that it owns.
pub record Completion : Type 0 where
  pub latency : ℕ
  pub was_read : Bool
  pub was_mmio : Bool

-- handleResponse at the cycle `now`, for a response with an id that is or is not a read's; `none` is
-- the result false, for an id that is not tracked.
pub handle_response : Emitter → ℕ → ℕ → Bool → Emitter × Option Completion
unfolding find_pending erase_pending
handle_response e now id is_read = elim (find_pending id e.pending_txns) [
  | none ↦ (e, none)
  | some p ↦ (
    record e {
      pending_txns = erase_pending id e.pending_txns;
      pending_count = sub32 e.pending_count 1;
    },
    some (record {
      latency = if leb p.issue_cycle now then now - p.issue_cycle else 0;
      was_read = is_read;
      was_mmio = p.is_mmio;
    }),
  )
]
