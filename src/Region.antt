-- ===== src/Region.antt =====
-- src/quetz_region_handlers.cc, quetz_region_table.cc and quetz_mem_access.cc: the handlers of the
-- guest's address ranges, the table that finds them, and what an access becomes. A handler is an
-- object that the table points to: the table is a list of handlers, and a pointer an index into it.
pub mod Table
pub mod Log
mod Examples
use quetz.Base.{
  ℕ, zero, suc, ◌+◌, ◌-◌, min, Bool, true, false, not, ◌&&◌, Option, none, some, List, [], ◌∷◌,
  ◌++◌, ◌%◌, ltb, leb, ◌==◌, if◌then◌else◌, length, get_or, set, take, drop, sub64, u32_mod,
  data_to_u64,
}
use quetz.Ipc.{Command, ShmemCmd}
use quetz.CoreStats.{
  CoreStats, add_data, filtered_reads, filtered_writes, gpu_doorbell_writes, gpu_status_polls,
  gpu_other_reads, gpu_other_writes,
}

-- MemRegionHandler::Action
pub data Action : Type 0 where
  forward forward_mmio consume end_sim : Action

-- UartRegionHandler's fields.
pub record Uart : Type 0 where
  pub tx_offset : ℕ
  pub tx_buf : List ℕ

-- GpuTraceRegionHandler's fields; `recent` is recent_doorbell_lo_, oldest first.
pub record GpuTrace : Type 0 where
  pub doorbell_offset : ℕ
  pub status_offset : ℕ
  pub max_payload_log : ℕ
  pub doorbell_count : ℕ
  pub poll_count : ℕ
  pub recent : List ℕ

-- TestFinisherRegionHandler's fields.
pub record TestFinisher : Type 0 where
  pub pass_value : ℕ
  pub wrote : Bool
  pub last_value : ℕ

-- The subclasses of BoundedRegionHandler.
pub data Kind : Type 0 where
  forwards : Kind
  filters : Kind
  uart : Uart → Kind
  gpu_trace : GpuTrace → Kind
  mmio_forwards : Kind
  test_finisher : TestFinisher → Kind

-- BoundedRegionHandler
pub record Handler : Type 0 where
  pub start : ℕ
  pub end_addr : ℕ
  pub kind : Kind

-- decodeDoorbellLo: up to eight bytes of the payload, low byte first.
abbrev pub decode_doorbell_lo : Command → ℕ
decode_doorbell_lo cmd = data_to_u64 (take (min cmd.size 8) cmd.payload)

-- recordDoorbellPayload
pub record_doorbell_payload : GpuTrace → ℕ → GpuTrace
record_doorbell_payload g payload =
    if ltb g.max_payload_log (length pushed)
    then record g { recent = drop 1 pushed }
    else record g { recent = pushed }
  where
    pushed : List ℕ
    pushed = g.recent ++ (payload ∷ [])

-- onRead of each handler, at an offset into its range.
pub kind_read : Kind → ℕ → CoreStats → Kind × CoreStats × Action
kind_read forwards offset stats = (forwards, stats, forward)
kind_read filters offset stats = (filters, add_data filtered_reads 1 stats, consume)
kind_read (uart u) offset stats = (uart u, add_data filtered_reads 1 stats, consume)
kind_read (gpu_trace g) offset stats =
    if offset == g.status_offset
    then (
      gpu_trace (record g { poll_count = g.poll_count + 1 }),
      add_data gpu_status_polls 1 stats,
      consume,
    )
    else (gpu_trace g, add_data gpu_other_reads 1 stats, consume)
kind_read mmio_forwards offset stats = (mmio_forwards, stats, forward_mmio)
kind_read (test_finisher t) offset stats =
    (test_finisher t, add_data filtered_reads 1 stats, consume)

-- onWrite of each handler.
unfoldable pub kind_write : Kind → ℕ → Command → CoreStats → Kind × CoreStats × Action
kind_write forwards offset cmd stats = (forwards, stats, forward)
kind_write filters offset cmd stats = (filters, add_data filtered_writes 1 stats, consume)
kind_write (uart u) offset cmd stats = (
  (if leb 1 cmd.size && (offset == u.tx_offset)
      then uart (record u { tx_buf = u.tx_buf ++ (get_or cmd.payload 0 0 ∷ []) })
      else uart u),
  add_data filtered_writes 1 stats,
  consume,
)
kind_write (gpu_trace g) offset cmd stats =
    if offset == g.doorbell_offset
    then (
      gpu_trace (
          record_doorbell_payload (record g { doorbell_count = g.doorbell_count + 1 })
            (decode_doorbell_lo cmd)),
      add_data gpu_doorbell_writes 1 stats,
      consume,
    )
    else (gpu_trace g, add_data gpu_other_writes 1 stats, consume)
kind_write mmio_forwards offset cmd stats = (mmio_forwards, stats, forward_mmio)
kind_write (test_finisher t) offset cmd stats = (
  test_finisher (record t {
    last_value = data_to_u64 (take (min cmd.size 4) cmd.payload) % u32_mod;
    wrote = true;
  }),
  add_data filtered_writes 1 stats,
  end_sim,
)

abbrev pub owns : Handler → ℕ → Bool
owns h addr = leb h.start addr && leb addr h.end_addr

-- findHandler: the index of the first handler that owns the address. A null pointer is `none`.
unfoldable pub find_handler : List (Option Handler) → ℕ → Option ℕ
find_handler [] addr = none
find_handler (none ∷ hs) addr = elim (find_handler hs addr) [ none ↦ none | some i ↦ some (suc i) ]
find_handler (some h ∷ hs) addr =
    let later = find_handler hs addr in
    if owns h addr then some 0 else elim later [ none ↦ none | some i ↦ some (suc i) ]

-- The policy of one core: the table, and what becomes of an address that no handler owns.
pub record Policy : Type 0 where
  pub handlers : List (Option Handler)
  pub filter_unmatched : Bool

abbrev pub is_read_cmd : ShmemCmd → Bool
is_read_cmd ShmemCmd.read = true
is_read_cmd _ = false

abbrev pub is_write_cmd : ShmemCmd → Bool
is_write_cmd ShmemCmd.write = true
is_write_cmd _ = false

-- handleMemoryAccess on the handler that was found.
unfoldable pub dispatch : Handler → Command → CoreStats → Handler × CoreStats × Action
dispatch h cmd stats =
    let (k, stats', a) =
      (if is_read_cmd cmd.cmd
        then kind_read h.kind (sub64 cmd.addr h.start) stats
        else kind_write h.kind (sub64 cmd.addr h.start) cmd stats) in
    (record h { kind = k }, stats', a)

-- RegionTableMemAccessStrategy::handleMemoryAccess
unfoldable pub handle_memory_access : Policy → Command → CoreStats → Policy × CoreStats × Action
handle_memory_access p cmd stats =
    if not (is_read_cmd cmd.cmd) && not (is_write_cmd cmd.cmd)
    then (p, stats, forward)
    else elim (find_handler p.handlers cmd.addr) [
      | none ↦
          if p.filter_unmatched
          then (
            p,
            (if is_read_cmd cmd.cmd
                then add_data filtered_reads 1 stats
                else add_data filtered_writes 1 stats),
            consume,
          )
          else (p, stats, forward)
      | some i ↦ elim (get_or p.handlers i none) [
        | none ↦ (p, stats, forward)
        | some h ↦
            let (h', stats', a) = dispatch h cmd stats in
            (record p { handlers = set p.handlers i (some h') }, stats', a)
      ]
    ]
