-- ===== src/Gpu/State.antt =====
-- The fields of QuetzGpuDevice, and its small helpers. The kernel in its slot and the memory
-- interface are parameters: a QuetzKernel is its two functions, and the interface its line size and
-- the ids of its requests, which SST never gives twice.
use quetz.Base.{
  ℕ, ◌+◌, ◌-◌, Bool, true, false, not, ◌&&◌, ◌||◌, Option, none, some, List, [], ◌∷◌, ltb, leb,
  ◌==◌, if◌then◌else◌, add64,
}
use quetz.Device.{IrqEvent}
use quetz.Memory.{memory_span_valid}

-- KernelArgs
pub record Args : Type 0 where
  pub src_addr : ℕ
  pub dst_addr : ℕ
  pub arg2 : ℕ
  pub arg3 : ℕ

-- QuetzKernel: inputBytes, and compute with its output bytes and its latency.
pub record Kernel : Type 0 where
  pub input_bytes : Args → ℕ
  pub compute : Args → List ℕ → List ℕ × ℕ

-- OpPhase
pub data OpPhase : Type 0 where
  idle reading writing : OpPhase

abbrev pub is_idle : OpPhase → Bool
is_idle idle = true
is_idle _ = false

abbrev pub is_reading : OpPhase → Bool
is_reading reading = true
is_reading _ = false

-- The records of the event writer.
pub data Lifecycle : Type 0 where
  requested completed rejected : ℕ → Lifecycle
  irq_asserted irq_acknowledged irq_deasserted irq_delivered irq_settled : ℕ → Lifecycle
  cpu_checkpoint : ℕ → Bool → Lifecycle

-- What the device sends: interrupt messages, MMIO write responses, DMA requests, and records.
pub data Output : Type 0 where
  irq : IrqEvent → Output
  write_resp : Output
  dma_read : ℕ → ℕ → ℕ → Output
  dma_write : ℕ → List ℕ → Output
  recorded : Lifecycle → Output

pub record Stats : Type 0 where
  pub kernels_launched : ℕ
  pub busy_cycles : ℕ
  pub doorbell_writes : ℕ
  pub status_polls : ℕ
  pub latency_overrides : ℕ
  pub doorbell_while_busy : ℕ
  pub irqs_raised : ℕ
  pub wrong_direction_accesses : ℕ
  pub bad_offset_accesses : ℕ
  pub ops_rejected : ℕ

-- A held response is only ever sent, so the model keeps whether there is one. `op_req_off` maps the
-- ids of the reads in flight to their offsets; `sent` logs the output, newest first.
pub record Gpu : Type 0 where
  pub base_addr : ℕ
  pub kernel_latency : ℕ
  pub gpu_clk : ℕ
  pub busy_until_clk : ℕ
  pub kernel_id : ℕ
  pub submit_id : ℕ
  pub latency_override : ℕ
  pub holding_sim : Bool
  pub doorbell_blocking : Bool
  pub cpu_checkpoints : Bool
  pub irq_witnesses : Bool
  pub deferred_doorbell_resp : Bool
  pub pending_latencies : List ℕ
  pub irq_line : Option ℕ
  pub irq_vcpu : ℕ
  pub irq_pending : Bool
  pub irq_events : ℕ
  pub kernel : Option Kernel
  pub line_size : ℕ
  pub next_id : ℕ
  pub dma_range_start : ℕ
  pub dma_range_end : ℕ
  pub arg_regs : Args
  pub op_args : Args
  pub op_phase : OpPhase
  pub op_in : List ℕ
  pub op_out : List ℕ
  pub op_in_bytes : ℕ
  pub op_dma_outstanding : ℕ
  pub op_next_dma_off : ℕ
  pub op_doorbell_resp : Bool
  pub op_req_off : List (ℕ × ℕ)
  pub events_enabled : Bool
  pub sent : List Output
  pub stats : Stats

abbrev pub emit : Gpu → Output → Gpu
emit d o = record d { sent = o ∷ d.sent }

-- emitIrqEvent and the emitOp functions: a record for the event file, where there is one. A record
-- that cannot be written is fatal(), which ends the run; the model is of the runs without that.
unfoldable pub emit_irq_event : Gpu → Lifecycle → Gpu
emit_irq_event d e = if d.irq_witnesses && d.events_enabled then emit d (recorded e) else d

unfoldable pub emit_op_event : Gpu → Lifecycle → Gpu
emit_op_event d e = if d.events_enabled then emit d (recorded e) else d

-- isBusyAt
abbrev pub is_busy : Gpu → Bool
is_busy d = not (d.busy_until_clk == 0)

-- hasOutstandingWork, of the fields that it reads.
unfoldable pub has_work : ℕ → List ℕ → OpPhase → Bool
has_work busy_until queue phase =
    not (busy_until == 0) || (elim queue [ [] ↦ false | l ∷ ls ↦ true ]) || not (is_idle phase)

abbrev pub has_outstanding_work : Gpu → Bool
has_outstanding_work d = has_work d.busy_until_clk d.pending_latencies d.op_phase

-- updatePrimaryHold
unfoldable pub update_primary_hold : Gpu → Bool → Gpu
update_primary_hold d allow =
    if has_outstanding_work d
    then record d { holding_sim = true }
    else if d.holding_sim && allow
    then record d { holding_sim = false }
    else d

-- raiseIrqOnRetire
unfoldable pub raise_irq_on_retire : Gpu → Gpu
unfolding emit_irq_event
raise_irq_on_retire d = elim (d.irq_line) [
  | none ↦ d
  | some line ↦
      let counted = record d { irq_events = add64 d.irq_events 1 } in
      if d.irq_pending
      then counted
      else (let raised = emit_irq_event (record counted { irq_pending = true }) (irq_asserted 1) in
          emit
            (record raised {
              stats = record (raised.stats) { irqs_raised = raised.stats.irqs_raised + 1 };
            })
            (irq (record { vcpu = d.irq_vcpu; line = line; level = 1 })))
]

-- ackIrq
unfoldable pub ack_irq : Gpu → ℕ → Gpu
unfolding emit_irq_event
ack_irq d consume = elim (d.irq_line) [
  | none ↦ d
  | some line ↦
      if not d.irq_pending
      then d
      else (let acked = emit_irq_event d (irq_acknowledged consume) in
          let left =
            acked.irq_events
            - (if ltb consume acked.irq_events then consume else acked.irq_events) in
          if ltb 0 left
          then record acked { irq_events = left }
          else emit
              (emit_irq_event (record acked { irq_events = left; irq_pending = false })
                (irq_deasserted 0))
              (irq (record { vcpu = d.irq_vcpu; line = line; level = 0 })))
]

-- dmaRangeOk
unfoldable pub dma_range_ok : Gpu → ℕ → ℕ → Bool
unfolding memory_span_valid
dma_range_ok d addr len =
    if not (memory_span_valid addr len)
    then false
    else if d.dma_range_end == 0
    then true
    else if len == 0
    then true
    else leb d.dma_range_start addr
      && leb addr d.dma_range_end
      && leb (len - 1) (d.dma_range_end - addr)
