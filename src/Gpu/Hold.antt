-- ===== src/Gpu/Hold.antt =====
-- The hold of QuetzGpuDevice on the end of the simulation.
use quetz.Base.{
  ℕ, zero, suc, Bool, true, false, List, [], ◌∷◌, ◌==◌, ◌≡◌, length, Bool-cases, ltb, data_to_u64,
  u32_mod, ◌%◌, if◌then◌else◌, ◌&&◌, ◌∙◌, add64, inl, inr, arith, Ensures, Ensures-bind,
}
use quetz.Device.{Write}
use quetz.Gpu.State.{
  Gpu, Kernel, Lifecycle, emit_irq_event, update_primary_hold, raise_irq_on_retire, irq_delivered,
  irq_settled, has_outstanding_work, has_work, ack_irq, dma_range_ok,
}
use quetz.Gpu.Op.{
  op_reject, issue_read, issue_read_loop, issue_write, issue_write_loop, op_begin_writeback,
  op_finish, op_compute_and_start_busy, op_start_dma, op_on_read_resp, op_on_write_resp,
  max_op_dma_outstanding,
}
use quetz.Gpu.Retire.{start_kernel, start_queued, release_deferred, retire_if_ready}
use quetz.Gpu.Mmio.{
  kernel_doorbell, start_or_queue, latency_doorbell, write_register, respond, handle_write,
  read_register, handle_read,
}
use quetz.Gpu.Device.{
  tick_busy, Event, reads, writes, ticks, read_responds, write_responds, step, run,
}

-- While the device has outstanding work, it holds the simulation.
pub record Holds (d : Gpu) : Type 0 where
  pub held : has_outstanding_work d ≡ true → d.holding_sim ≡ true

hold-Holds : (d : Gpu) (allow : Bool) → Holds (update_primary_hold d allow)
unfolding update_primary_hold has_work
hold-Holds d allow = ground arith

hold-holding : (d : Gpu) → d.holding_sim ≡ true → (update_primary_hold d false).holding_sim ≡ true
unfolding update_primary_hold
hold-holding d h = ground arith

raise-holding : (d : Gpu) → (raise_irq_on_retire d).holding_sim ≡ d.holding_sim
unfolding raise_irq_on_retire emit_irq_event
raise-holding d = ground arith

ack-Holds : (d : Gpu) (consume : ℕ) → Holds d → Holds (ack_irq d consume)
unfolding ack_irq emit_irq_event
ack-Holds d consume h = ground arith

emit_irq-Holds : (d : Gpu) (e : Lifecycle) → Holds d → Holds (emit_irq_event d e)
unfolding emit_irq_event
emit_irq-Holds d e h = ground arith

release-holding : (d : Gpu) → (release_deferred d).holding_sim ≡ d.holding_sim
unfolding release_deferred
release-holding d = ground arith

issue_read-Holds : (d : Gpu) → Holds d → Holds (issue_read d)
unfolding issue_read
issue_read-Holds d h = ground arith

issue_write-Holds : (d : Gpu) → Holds d → Holds (issue_write d)
unfolding issue_write
issue_write-Holds d h = ground arith

issue_read_loop-Holds : (n : ℕ) (d : Gpu) → Holds d → Holds (issue_read_loop n d)
unfolding issue_read_loop
issue_read_loop-Holds zero d h = h
issue_read_loop-Holds (suc n) d h =
    elim (Bool-cases
      (ltb d.op_next_dma_off d.op_in_bytes && ltb d.op_dma_outstanding max_op_dma_outstanding)) [
        | inl on ↦ rw on (issue_read_loop-Holds n (issue_read d) (issue_read-Holds d h))
        | inr end ↦ rw end h
      ]

issue_write_loop-Holds : (n : ℕ) (d : Gpu) → Holds d → Holds (issue_write_loop n d)
unfolding issue_write_loop
issue_write_loop-Holds zero d h = h
issue_write_loop-Holds (suc n) d h =
    elim (Bool-cases (
      ltb d.op_next_dma_off (length d.op_out) && ltb d.op_dma_outstanding max_op_dma_outstanding)) [
        | inl on ↦ rw on (issue_write_loop-Holds n (issue_write d) (issue_write-Holds d h))
        | inr end ↦ rw end h
      ]

reject-Holds : (d : Gpu) → Holds (op_reject d)
unfolding op_reject
reject-Holds d = hold-Holds _ true

finish-Holds : (d : Gpu) → Holds (op_finish d)
unfolding op_finish
finish-Holds d = hold-Holds _ true

writeback-Holds : (d : Gpu) → Holds (op_begin_writeback d)
unfolding op_begin_writeback
writeback-Holds d = elim (Bool-cases (dma_range_ok d d.op_args.dst_addr (length d.op_out))) [
  | inl fits ↦ rw fits (hold-Holds _ false)
  | inr not_fits ↦ rw not_fits (reject-Holds d)
]

start-Holds : (d : Gpu) (now latency : ℕ) → Holds (start_kernel d now latency)
unfolding start_kernel
start-Holds d now latency = hold-Holds _ false

start-holding :
    (d : Gpu) (now latency : ℕ)
    → d.holding_sim ≡ true
    → (start_kernel d now latency).holding_sim ≡ true
unfolding start_kernel
start-holding d now latency h = grind (arith, hold-holding, raise-holding)

queued-holding :
    (d : Gpu) (now : ℕ) (ls : List ℕ)
    → d.holding_sim ≡ true
    → (start_queued d now ls).holding_sim ≡ true
unfolding start_queued
queued-holding d now [] h = h
queued-holding d now (l ∷ ls) h = ground (
  arith,
  start-holding (record d { pending_latencies = ls }) now l h,
  queued-holding (start_kernel (record d { pending_latencies = ls }) now l) now ls,
)

busy-holding : (d : Gpu) → (d.busy_until_clk == 0) ≡ false → Holds d → d.holding_sim ≡ true
unfolding has_work
busy-holding d busy h = ground (arith, busy, h)

retire-Holds : (d : Gpu) (now : ℕ) → Holds d → Holds (retire_if_ready d now)
unfolding retire_if_ready
retire-Holds d now h =
    let cleared = record d { kernel_id = add64 d.kernel_id 1; busy_until_clk = 0 } in
    let retired = raise_irq_on_retire (release_deferred cleared) in
    elim (Bool-cases (d.busy_until_clk == 0)) [
      | inl free ↦ ground (arith, free, h)
      | inr busy ↦
          let held : d.holding_sim ≡ true = busy-holding d busy h in
          grind (
            arith,
            busy,
            held,
            writeback-Holds (record d { busy_until_clk = 0 }),
            queued-holding retired now retired.pending_latencies
                (raise-holding (release_deferred cleared) ∙ release-holding cleared ∙ held),
          )
    ]

compute-Holds : (d : Gpu) (k : Kernel) → Ensures Holds (op_compute_and_start_busy d k)
unfolding op_compute_and_start_busy
compute-Holds d k = grind (arith, writeback-Holds, hold-Holds)

start_dma-Holds : (d : Gpu) (k : Kernel) → Holds (op_start_dma d k)
unfolding op_start_dma
start_dma-Holds d k = grind (arith, reject-Holds, hold-Holds)

read_resp-Holds :
    (d : Gpu) (k : Kernel) (id : ℕ) (bytes : List ℕ)
    → Holds d
    → Ensures Holds (op_on_read_resp d k id bytes)
unfolding op_on_read_resp
read_resp-Holds d k id bytes h = grind (arith, compute-Holds, issue_read_loop-Holds)

write_resp-Holds : (d : Gpu) → Holds d → Holds (op_on_write_resp d)
unfolding op_on_write_resp
write_resp-Holds d h = grind (arith, finish-Holds, issue_write_loop-Holds)

kernel_doorbell-Holds :
    (d : Gpu) (k : Kernel) (posted : Bool) → Ensures Holds (kernel_doorbell d k posted)
unfolding kernel_doorbell
kernel_doorbell-Holds d k posted = grind (arith, start_dma-Holds)

queue-Holds : (d : Gpu) (l : ℕ) → Holds d → Holds (start_or_queue d l)
unfolding start_or_queue
queue-Holds d l h = grind (arith, start-Holds, hold-Holds)

latency_doorbell-Holds : (d : Gpu) → Holds d → Holds (latency_doorbell d)
unfolding latency_doorbell
latency_doorbell-Holds d h =
    let cleared = record d { latency_override = 0 } in
    let ready = retire_if_ready cleared d.gpu_clk in
    ground (
      arith,
      queue-Holds ready (if d.latency_override == 0 then d.kernel_latency else d.latency_override)
          (retire-Holds cleared d.gpu_clk (ground (arith, h))),
    )

register-Holds :
    (d : Gpu) (offset : ℕ) (bytes : List ℕ)
    → Holds d
    → Ensures Holds (write_register d offset bytes)
unfolding write_register
register-Holds d offset bytes h =
    let value = data_to_u64 bytes in
    ground (
      arith,
      h.held,
      emit_irq-Holds d (irq_delivered (value % u32_mod)) h,
      emit_irq-Holds d (irq_settled (value % u32_mod)) h,
      ack-Holds d value h,
    )

respond-Holds :
    (d : Gpu) (doorbell posted : Bool) → Holds d → Ensures Holds (respond d doorbell posted)
unfolding respond
respond-Holds d doorbell posted h = grind arith

write-Holds : (d : Gpu) (w : Write) → Holds d → Ensures Holds (handle_write d w)
unfolding handle_write
write-Holds d w h =
    grind (arith, kernel_doorbell-Holds, respond-Holds, latency_doorbell-Holds, register-Holds)

read-Holds : (d : Gpu) (addr size : ℕ) → Holds d → Holds (handle_read d addr size).0
unfolding handle_read read_register
read-Holds d addr size h = grind (arith, retire-Holds)

tick-Holds : (d : Gpu) → Holds (tick_busy d)
unfolding tick_busy
tick-Holds d = hold-Holds _ true

step-Holds : (d : Gpu) (e : Event) → Holds d → Ensures Holds (step d e)
unfolding step
step-Holds d (reads addr size) h = read-Holds d addr size h
step-Holds d (writes w) h = write-Holds d w h
step-Holds d ticks h = tick-Holds d
step-Holds d (read_responds id bytes) h = grind (arith, read_resp-Holds)
step-Holds d write_responds h = write_resp-Holds d h

-- A run of the device, whatever its events are, that starts from a device which holds the
-- simulation while it has outstanding work (a kernel that runs, a queued doorbell, or an operation
-- whose DMA is not over) ends in such a device, unless the run ends in an error.
pub run-Holds : (d : Gpu) (es : List Event) → Holds d → Ensures Holds (run d es)
unfolding run
run-Holds d [] h = h
run-Holds d (e ∷ es) h =
    Ensures-bind Holds Holds (step d e) (λ d'. run d' es) (step-Holds d e h)
      (λ d' h'. run-Holds d' es h')
