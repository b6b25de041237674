-- ===== src/Gpu/Mmio.antt =====
-- The register handlers of QuetzGpuDevice.
use quetz.Base.{
  ℕ, ◌+◌, ◌%◌, Bool, true, false, not, ◌&&◌, ◌||◌, none, some, List, [], ◌∷◌, ◌++◌, ltb, ◌==◌,
  if◌then◌else◌, length, add64, sub64, u32_mod, u64_to_data, data_to_u64, Outcome, ok, err, fatal,
  ◌>>=◌,
}
use quetz.Device.{Write}
use quetz.Gpu.State.{
  Gpu, Kernel, is_idle, is_busy, write_resp, requested, irq_delivered, irq_settled, cpu_checkpoint,
  recorded, emit, emit_op_event, emit_irq_event, update_primary_hold, ack_irq,
}
use quetz.Gpu.Op.{op_start_dma}
use quetz.Gpu.Retire.{retire_if_ready, start_kernel, has_kernel}

abbrev pub reg_doorbell : ℕ
reg_doorbell = 0x00

abbrev reg_status : ℕ
reg_status = 0x08

abbrev reg_kernel_id : ℕ
reg_kernel_id = 0x10

abbrev reg_latency_override : ℕ
reg_latency_override = 0x18

abbrev reg_ticket : ℕ
reg_ticket = 0x20

abbrev reg_result : ℕ
reg_result = 0x28

abbrev reg_arg0 : ℕ
reg_arg0 = 0x30

abbrev reg_arg1 : ℕ
reg_arg1 = 0x38

abbrev reg_arg2 : ℕ
reg_arg2 = 0x40

abbrev reg_arg3 : ℕ
reg_arg3 = 0x48

abbrev reg_irq_ack : ℕ
reg_irq_ack = 0x50

abbrev reg_cpu_checkpoint : ℕ
reg_cpu_checkpoint = 0x60

abbrev reg_isr_entry : ℕ
reg_isr_entry = 0x68

abbrev reg_irq_settled : ℕ
reg_irq_settled = 0x70

-- kMaxPendingLaunches
abbrev pub max_pending_launches : ℕ
max_pending_launches = 8

-- The doorbell of a device with a kernel.
unfoldable pub kernel_doorbell : Gpu → Kernel → Bool → Outcome Gpu
kernel_doorbell d k posted =
    let counted = record d {
      stats = record (d.stats) { doorbell_writes = d.stats.doorbell_writes + 1 };
    } in
    if not (is_idle d.op_phase) || is_busy d
    then err fatal
    else (let held = not posted && d.doorbell_blocking in
        let submitted =
          emit_op_event
            (record counted {
              op_doorbell_resp = (if held then true else d.op_doorbell_resp);
              submit_id = add64 d.submit_id 1;
              op_args = d.arg_regs;
            })
            (requested (add64 d.submit_id 1)) in
        let started = op_start_dma submitted k in
        ok (if not posted && not d.doorbell_blocking then emit started write_resp else started))

-- The part of a doorbell's kernel that starts it, queues it behind the one that runs, or drops it.
unfoldable pub start_or_queue : Gpu → ℕ → Gpu
start_or_queue d latency =
    if not (is_busy d) && (length d.pending_latencies == 0)
    then start_kernel (record d { submit_id = add64 d.submit_id 1 }) d.gpu_clk latency
    else (let counted = record d {
      stats = record (d.stats) { doorbell_while_busy = d.stats.doorbell_while_busy + 1 };
    } in
        if ltb (length d.pending_latencies) max_pending_launches
        then update_primary_hold
            (record counted {
              submit_id = add64 d.submit_id 1;
              pending_latencies = d.pending_latencies ++ (latency ∷ []);
            })
            false
        else counted)

-- The doorbell of a device without a kernel, up to its response.
unfoldable pub latency_doorbell : Gpu → Gpu
latency_doorbell d =
    let latency = (if d.latency_override == 0 then d.kernel_latency else d.latency_override) in
    let ready = retire_if_ready (record d { latency_override = 0 }) d.gpu_clk in
    let rung = start_or_queue ready latency in
    record rung { stats = record (rung.stats) { doorbell_writes = rung.stats.doorbell_writes + 1 } }

abbrev set_arg : Gpu → ℕ → ℕ → Gpu
set_arg d offset value =
    if offset == reg_arg0
    then record d { arg_regs = record (d.arg_regs) { src_addr = value } }
    else if offset == reg_arg1
    then record d { arg_regs = record (d.arg_regs) { dst_addr = value } }
    else if offset == reg_arg2
    then record d { arg_regs = record (d.arg_regs) { arg2 = value } }
    else record d { arg_regs = record (d.arg_regs) { arg3 = value } }

abbrev is_arg : ℕ → Bool
is_arg offset = offset == reg_arg0 || offset == reg_arg1 || offset == reg_arg2 || offset == reg_arg3

-- The other registers of the write handler. The checks of a checkpoint and of a witness are on the
-- width of the access, which is that of its bytes.
unfoldable pub write_register : Gpu → ℕ → List ℕ → Outcome Gpu
write_register d offset bytes =
    if (offset == reg_isr_entry || offset == reg_irq_settled) && d.irq_witnesses
    then (if not (length bytes == 4)
        then err fatal
        else ok (
            emit_irq_event d (
              if offset == reg_isr_entry
              then irq_delivered (value % u32_mod)
              else irq_settled (value % u32_mod))))
    else if offset == reg_cpu_checkpoint && d.cpu_checkpoints
    then (if not (length bytes == 4) || not (has_kernel d) || not d.events_enabled
        then err fatal
        else ok (emit d (recorded (cpu_checkpoint (value % u32_mod) (not (is_idle d.op_phase))))))
    else if offset == reg_latency_override
    then ok (record d {
      latency_override = value;
      stats = record stats { latency_overrides = stats.latency_overrides + 1 };
    })
    else if is_arg offset
    then ok (set_arg d offset value)
    else if offset == reg_irq_ack
    then ok (if value == 0 then d else ack_irq d value)
    else if offset == reg_status
        || offset == reg_kernel_id
        || offset == reg_ticket
        || offset == reg_result
    then ok (record d {
      stats = record stats { wrong_direction_accesses = stats.wrong_direction_accesses + 1 };
    })
    else ok
        (record d { stats = record stats { bad_offset_accesses = stats.bad_offset_accesses + 1 } })
  where
    open d use {stats}

    value : ℕ
    value = data_to_u64 bytes

-- The end of the write handler: a blocking doorbell is held while the device is busy, anything else
-- that is not posted is answered.
unfoldable pub respond : Gpu → Bool → Bool → Outcome Gpu
respond d doorbell posted =
    if doorbell && d.doorbell_blocking && is_busy d && not posted
    then (if d.deferred_doorbell_resp
        then err fatal
        else ok (record d { deferred_doorbell_resp = true }))
    else ok (if posted then d else emit d write_resp)

-- mmioHandlers::handle(Write)
unfoldable pub handle_write : Gpu → Write → Outcome Gpu
handle_write d w =
    let offset = sub64 w.addr d.base_addr in
    if offset == reg_doorbell
    then elim (d.kernel) [
      | some k ↦ kernel_doorbell d k w.posted
      | none ↦ respond (latency_doorbell d) true w.posted
    ]
    else write_register d offset w.payload >>= (λ d'. respond d' false w.posted)

-- The value of each register, and the device after the read.
unfoldable pub read_register : Gpu → ℕ → Gpu × ℕ
read_register d offset =
    if offset == reg_status
    then (
      record ready { stats = record (ready.stats) { status_polls = ready.stats.status_polls + 1 } },
      (if is_busy ready || not (is_idle ready.op_phase) then 1 else 0),
    )
    else if offset == reg_kernel_id
    then (ready, ready.kernel_id)
    else if offset == reg_ticket
    then (d, d.submit_id)
    else if offset == reg_result
    then (ready, ready.kernel_id)
    else if offset == reg_irq_ack
    then (d, (if d.irq_pending then 1 else 0))
    else if offset == reg_doorbell || offset == reg_latency_override
    then (
      record d {
        stats = record stats { wrong_direction_accesses = stats.wrong_direction_accesses + 1 };
      },
      0,
    )
    else (
      record d { stats = record stats { bad_offset_accesses = stats.bad_offset_accesses + 1 } },
      0,
    )
  where
    open d use {stats}

    ready : Gpu
    ready = retire_if_ready d d.gpu_clk

-- mmioHandlers::handle(Read): the device, and the response's payload.
unfoldable pub handle_read : Gpu → ℕ → ℕ → Gpu × List ℕ
handle_read d addr size =
    let (d', value) = read_register d (sub64 addr d.base_addr) in (d', u64_to_data value size)
