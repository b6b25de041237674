-- ===== src/Gpu/Irq.antt =====
-- The interrupt of QuetzGpuDevice: its events, its pending flag, and the level of its line.
use quetz.Base.{
  ℕ, zero, suc, Bool, true, false, List, [], ◌∷◌, ◌==◌, ◌≡◌, refl, length, replicate, Bool-cases,
  inl, inr, arith, Ensures, Ensures-bind, sub64,
}
use quetz.Device.{Write}
use quetz.Gpu.State.{
  Gpu, Kernel, Output, irq, Lifecycle, emit_irq_event, emit_op_event, update_primary_hold,
  raise_irq_on_retire, ack_irq, rejected, completed, dma_range_ok, reading,
}
use quetz.Gpu.Op.{
  release_doorbell, op_reject, issue_read, issue_read_loop, op_issue_read_window, issue_write,
  issue_write_loop, op_begin_writeback, op_finish, op_compute_and_start_busy, op_start_dma,
  op_on_read_resp, op_on_write_resp, max_op_dma_outstanding,
}
use quetz.Gpu.Retire.{start_kernel, start_queued, release_deferred, retire_if_ready}
use quetz.Gpu.Mmio.{
  kernel_doorbell, start_or_queue, latency_doorbell, write_register, respond, handle_write,
  read_register, handle_read,
}
use quetz.Gpu.Device.{
  tick_busy, count_cycle, Event, reads, writes, ticks, read_responds, write_responds, step, run,
}

-- The level of the line, as the interrupt messages left it: they are newest first.
unfoldable pub level_of : List Output → ℕ
level_of [] = 0
level_of (irq e ∷ os) = e.level
level_of (_ ∷ os) = level_of os

abbrev high : Bool → ℕ
high true = 1
high false = 0

-- The line is high exactly while the interrupt is pending, and an interrupt that is not pending
-- leaves no event without its acknowledgement.
pub record Inv (d : Gpu) : Type 0 where
  pub follows : level_of d.sent ≡ high d.irq_pending
  pub settled : d.irq_pending ≡ false → d.irq_events ≡ 0

raise-Inv : (d : Gpu) → Inv d → Inv (raise_irq_on_retire d)
unfolding raise_irq_on_retire emit_irq_event level_of
raise-Inv d inv = ground arith

ack-Inv : (d : Gpu) (consume : ℕ) → Inv d → Inv (ack_irq d consume)
unfolding ack_irq emit_irq_event level_of
ack-Inv d consume inv = ground arith

emit_irq-Inv : (d : Gpu) (e : Lifecycle) → Inv d → Inv (emit_irq_event d e)
unfolding emit_irq_event level_of
emit_irq-Inv d e inv = ground arith

emit_op-Inv : (d : Gpu) (e : Lifecycle) → Inv d → Inv (emit_op_event d e)
unfolding emit_op_event level_of
emit_op-Inv d e inv = ground arith

hold-Inv : (d : Gpu) (allow : Bool) → Inv d → Inv (update_primary_hold d allow)
unfolding update_primary_hold
hold-Inv d allow inv = ground arith

release-Inv : (d : Gpu) → Inv d → Inv (release_doorbell d)
unfolding release_doorbell level_of
release-Inv d inv = ground arith

deferred-Inv : (d : Gpu) → Inv d → Inv (release_deferred d)
unfolding release_deferred level_of
deferred-Inv d inv = ground arith

issue_read-Inv : (d : Gpu) → Inv d → Inv (issue_read d)
unfolding issue_read level_of
issue_read-Inv d inv = ground arith

issue_write-Inv : (d : Gpu) → Inv d → Inv (issue_write d)
unfolding issue_write level_of
issue_write-Inv d inv = ground arith

issue_read_loop-Inv : (n : ℕ) (d : Gpu) → Inv d → Inv (issue_read_loop n d)
unfolding issue_read_loop
issue_read_loop-Inv zero d inv = inv
issue_read_loop-Inv (suc n) d inv =
    ground (arith, issue_read_loop-Inv n (issue_read d) (issue_read-Inv d inv))

issue_write_loop-Inv : (n : ℕ) (d : Gpu) → Inv d → Inv (issue_write_loop n d)
unfolding issue_write_loop
issue_write_loop-Inv zero d inv = inv
issue_write_loop-Inv (suc n) d inv =
    ground (arith, issue_write_loop-Inv n (issue_write d) (issue_write-Inv d inv))

-- What the invariant reads of a device.
keep :
    {d d' : Gpu}
    → d'.sent ≡ d.sent
    → d'.irq_pending ≡ d.irq_pending
    → d'.irq_events ≡ d.irq_events
    → Inv d
    → Inv d'
keep s p e inv = ground arith

reject-Inv : (d : Gpu) → Inv d → Inv (op_reject d)
unfolding op_reject
reject-Inv d inv =
    hold-Inv _ true (release-Inv _ (keep refl refl refl (emit_op-Inv d (rejected d.submit_id) inv)))

writeback-Inv : (d : Gpu) → Inv d → Inv (op_begin_writeback d)
unfolding op_begin_writeback
writeback-Inv d inv = elim (Bool-cases (dma_range_ok d d.op_args.dst_addr (length d.op_out))) [
  | inl fits ↦
      rw fits
        (hold-Inv _ false (issue_write_loop-Inv max_op_dma_outstanding _ (keep refl refl refl inv)))
  | inr not_fits ↦ rw not_fits (reject-Inv d inv)
]

finish-Inv : (d : Gpu) → Inv d → Inv (op_finish d)
unfolding op_finish
finish-Inv d inv =
    hold-Inv _ true (
      raise-Inv _ (release-Inv _ (keep refl refl refl (emit_op-Inv d (completed d.submit_id) inv))))

start_dma-Inv : (d : Gpu) (k : Kernel) → Inv d → Inv (op_start_dma d k)
unfolding op_start_dma
start_dma-Inv d k inv = ground (
  arith,
  reject-Inv (record d { op_in_bytes = k.input_bytes d.op_args }) (keep refl refl refl inv),
  hold-Inv
      (op_issue_read_window (record d {
        op_in_bytes = k.input_bytes d.op_args;
        op_in = replicate (k.input_bytes d.op_args) 0;
        op_req_off = [];
        op_dma_outstanding = 0;
        op_next_dma_off = 0;
        op_phase = reading;
      }))
      false (issue_read_loop-Inv max_op_dma_outstanding _ (keep refl refl refl inv)),
)

compute-Inv : (d : Gpu) (k : Kernel) → Inv d → Ensures Inv (op_compute_and_start_busy d k)
unfolding op_compute_and_start_busy
compute-Inv d k inv = grind (arith, writeback-Inv, hold-Inv)

read_resp-Inv :
    (d : Gpu) (k : Kernel) (id : ℕ) (bytes : List ℕ)
    → Inv d
    → Ensures Inv (op_on_read_resp d k id bytes)
unfolding op_on_read_resp
read_resp-Inv d k id bytes inv = grind (arith, compute-Inv, issue_read_loop-Inv)

write_resp-Inv : (d : Gpu) → Inv d → Inv (op_on_write_resp d)
unfolding op_on_write_resp
write_resp-Inv d inv = grind (arith, finish-Inv, issue_write_loop-Inv)

start-Inv : (d : Gpu) (now latency : ℕ) → Inv d → Inv (start_kernel d now latency)
unfolding start_kernel
start-Inv d now latency inv = elim (Bool-cases (latency == 0)) [
  | inl instant ↦ rw instant (hold-Inv _ false (raise-Inv _ (keep refl refl refl inv)))
  | inr timed ↦ rw timed (hold-Inv _ false (keep refl refl refl inv))
]

queued-Inv : (d : Gpu) (now : ℕ) (ls : List ℕ) → Inv d → Inv (start_queued d now ls)
unfolding start_queued
queued-Inv d now [] inv = keep refl refl refl inv
queued-Inv d now (l ∷ ls) inv = ground (
  arith,
  queued-Inv (start_kernel (record d { pending_latencies = ls }) now l) now ls
      (start-Inv (record d { pending_latencies = ls }) now l (keep refl refl refl inv)),
)

retire-Inv : (d : Gpu) (now : ℕ) → Inv d → Inv (retire_if_ready d now)
unfolding retire_if_ready
retire-Inv d now inv = grind (arith, writeback-Inv, queued-Inv, raise-Inv, deferred-Inv)

kernel_doorbell-Inv :
    (d : Gpu) (k : Kernel) (posted : Bool) → Inv d → Ensures Inv (kernel_doorbell d k posted)
unfolding kernel_doorbell level_of
kernel_doorbell-Inv d k posted inv = grind (arith, start_dma-Inv, emit_op-Inv)

latency_doorbell-Inv : (d : Gpu) → Inv d → Inv (latency_doorbell d)
unfolding latency_doorbell start_or_queue
latency_doorbell-Inv d inv = grind (arith, retire-Inv, start-Inv, hold-Inv)

register-Inv :
    (d : Gpu) (offset : ℕ) (bytes : List ℕ) → Inv d → Ensures Inv (write_register d offset bytes)
unfolding write_register level_of
register-Inv d offset bytes inv = grind (arith, emit_irq-Inv, ack-Inv)

respond-Inv : (d : Gpu) (doorbell posted : Bool) → Inv d → Ensures Inv (respond d doorbell posted)
unfolding respond level_of
respond-Inv d doorbell posted inv = ground arith

write-Inv : (d : Gpu) (w : Write) → Inv d → Ensures Inv (handle_write d w)
unfolding handle_write
write-Inv d w inv = grind (
  arith,
  kernel_doorbell-Inv,
  respond-Inv,
  latency_doorbell-Inv,
  register-Inv d (sub64 w.addr d.base_addr) w.payload inv,
)

read-Inv : (d : Gpu) (addr size : ℕ) → Inv d → Inv (handle_read d addr size).0
unfolding handle_read read_register
read-Inv d addr size inv = ground (arith, retire-Inv d d.gpu_clk inv)

tick-Inv : (d : Gpu) → Inv d → Inv (tick_busy d)
unfolding tick_busy count_cycle
tick-Inv d inv = grind (arith, retire-Inv, hold-Inv)

-- Every event in the life of the device keeps the line high exactly while its interrupt is pending,
-- and leaves no event behind an interrupt that is not.
step-Inv : (d : Gpu) (e : Event) → Inv d → Ensures Inv (step d e)
unfolding step
step-Inv d (reads addr size) inv = read-Inv d addr size inv
step-Inv d (writes w) inv = write-Inv d w inv
step-Inv d ticks inv = tick-Inv d inv
step-Inv d (read_responds id bytes) inv = grind (arith, read_resp-Inv)
step-Inv d write_responds inv = write_resp-Inv d inv

-- A run of the device, whatever its events are, that starts from a device whose interrupt line is
-- high exactly while the interrupt is pending, and with no event left when it is not, ends in such
-- a device, unless the run ends in an error.
pub run-irq_follows : (d : Gpu) (es : List Event) → Inv d → Ensures Inv (run d es)
unfolding run
run-irq_follows d [] inv = inv
run-irq_follows d (e ∷ es) inv =
    Ensures-bind Inv Inv (step d e) (λ d'. run d' es) (step-Inv d e inv)
      (λ d' inv'. run-irq_follows d' es inv')
