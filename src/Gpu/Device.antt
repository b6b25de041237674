-- ===== src/Gpu/Device.antt =====
-- The clock of QuetzGpuDevice, and the histories of the whole device.
use quetz.Base.{
  ℕ, ◌+◌, true, none, some, List, [], ◌∷◌, if◌then◌else◌, add64, Outcome, ok, err, fatal, ◌>>=◌,
}
use quetz.Device.{Write}
use quetz.Gpu.State.{Gpu, is_busy, update_primary_hold}
use quetz.Gpu.Retire.{retire_if_ready}
use quetz.Gpu.Op.{op_on_read_resp, op_on_write_resp}
use quetz.Gpu.Mmio.{handle_read, handle_write}

-- The count of a busy cycle.
unfoldable pub count_cycle : Gpu → Gpu
count_cycle d =
    if is_busy d
    then record d { stats = record (d.stats) { busy_cycles = d.stats.busy_cycles + 1 } }
    else d

-- tickBusy
unfoldable pub tick_busy : Gpu → Gpu
tick_busy d =
    let now = add64 d.gpu_clk 1 in
    update_primary_hold (retire_if_ready (count_cycle (record d { gpu_clk = now })) now) true

-- What drives the device: MMIO accesses, its clock, and the responses to its DMA.
pub data Event : Type 0 where
  reads : ℕ → ℕ → Event
  writes : Write → Event
  ticks : Event
  read_responds : ℕ → List ℕ → Event
  write_responds : Event

-- A memory response comes only where there is a kernel, since only then there is a mem_iface.
unfoldable pub step : Gpu → Event → Outcome Gpu
step d (reads addr size) = ok (handle_read d addr size).0
step d (writes w) = handle_write d w
step d ticks = ok (tick_busy d)
step d (read_responds id bytes) = elim (d.kernel) [
  | none ↦ err fatal
  | some k ↦ op_on_read_resp d k id bytes
]
step d write_responds = ok (op_on_write_resp d)

unfoldable pub run : Gpu → List Event → Outcome Gpu
run d [] = ok d
run d (e ∷ es) = step d e >>= (λ d'. run d' es)
