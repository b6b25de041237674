-- ===== src/Gpu/Histories.antt =====
-- The histories of a device without a kernel: what its register handlers and its clock keep of the
-- tickets' invariant.
use quetz.Base.{
  ℕ, suc, ◌+◌, ◌≤◌, ◌<◌, ◌≡◌, Bool, true, false, List, [], ◌∷◌, ◌++◌, ◌==◌, if◌then◌else◌, length,
  length-append, Ensures, Ensures-bind, add64, sub64, data_to_u64, Bool-cases, inl, inr, arith, not,
  ◌&&◌,
}
use quetz.Device.{Write}
use quetz.Gpu.State.{Gpu, emit_irq_event, update_primary_hold, is_busy}
use quetz.Gpu.Op.{op_on_write_resp}
use quetz.Gpu.Retire.{retire_if_ready}
use quetz.Gpu.Mmio.{
  start_or_queue, latency_doorbell, write_register, respond, handle_write, read_register,
  handle_read, max_pending_launches, reg_doorbell,
}
use quetz.Gpu.Device.{
  tick_busy, count_cycle, Event, reads, writes, ticks, read_responds, write_responds, step, run,
}
use quetz.Gpu.Tickets.{
  Inv, short, short-append, in_flight, ack-Core, ack-fields, start-Inv, retire-Inv,
}

-- The invariant, and a clock that has not passed `clk`.
pub record Timed (clk : ℕ) (d : Gpu) : Type 0 where
  pub inv : Inv d
  pub clock : d.gpu_clk ≤ clk

hold-Timed :
    (d : Gpu) (clk : ℕ) (allow : Bool) → Timed clk d → Timed clk (update_primary_hold d allow)
unfolding update_primary_hold
hold-Timed d clk allow v = ground (arith, v.inv, v.inv.core)

queued-Timed :
    (d : Gpu) (clk l : ℕ)
    → Timed clk d
    → l < short
    → (not (is_busy d) && (length d.pending_latencies == 0)) ≡ false
    → length d.pending_latencies < max_pending_launches
    → Timed clk (record d {
      submit_id = add64 d.submit_id 1;
      pending_latencies = d.pending_latencies ++ (l ∷ []);
      stats = record (d.stats) { doorbell_while_busy = d.stats.doorbell_while_busy + 1 };
    })
queued-Timed d clk l v k taken room = ground (
  arith,
  taken,
  v.inv,
  v.inv.core,
  length-append d.pending_latencies (l ∷ []),
  short-append d.pending_latencies l v.inv.core.pending k,
)

rung-Timed :
    (d : Gpu) (clk l : ℕ) → Timed clk d → clk < short → l < short → Timed clk (start_or_queue d l)
unfolding start_or_queue
rung-Timed d clk l v h k =
    elim (Bool-cases (not (is_busy d) && (length d.pending_latencies == 0))) [
      | inl free ↦ ground (
        arith,
        free,
        start-Inv (record d { submit_id = add64 d.submit_id 1 }) d.gpu_clk l
            (ground (arith, free, v.inv.core)) (ground (arith, free)) (ground (arith, v.clock, h))
            k,
      )
      | inr taken ↦
          let counted = record d {
            stats = record (d.stats) { doorbell_while_busy = d.stats.doorbell_while_busy + 1 };
          } in
          grind (
            arith,
            taken,
            hold-Timed
                (record counted {
                  submit_id = add64 d.submit_id 1;
                  pending_latencies = d.pending_latencies ++ (l ∷ []);
                })
                clk false,
            queued-Timed d clk l v k,
          )
    ]

doorbell-Timed : (d : Gpu) (clk : ℕ) → Timed clk d → clk < short → Timed clk (latency_doorbell d)
unfolding latency_doorbell
doorbell-Timed d clk v h = ground (
  arith,
  rung-Timed (retire_if_ready (record d { latency_override = 0 }) d.gpu_clk) clk
      (if d.latency_override == 0 then d.kernel_latency else d.latency_override)
      (ground (
        arith,
        retire-Inv (record d { latency_override = 0 }) d.gpu_clk (ground (arith, v.inv, v.inv.core))
            (ground (arith, v.clock, h)),
        v.clock,
      ))
      h (ground (arith, v.inv.core)),
)

register-Timed :
    (d : Gpu) (clk offset : ℕ) (bytes : List ℕ)
    → Timed clk d
    → data_to_u64 bytes < short
    → Ensures (Timed clk) (write_register d offset bytes)
unfolding write_register emit_irq_event
register-Timed d clk offset bytes v h = ground (
  arith,
  ack-fields d (data_to_u64 bytes),
  ack-Core (in_flight d) d (data_to_u64 bytes) v.inv.core,
)

respond-Timed :
    (d : Gpu) (clk : ℕ) (doorbell posted : Bool)
    → Timed clk d
    → Ensures (Timed clk) (respond d doorbell posted)
unfolding respond
respond-Timed d clk doorbell posted v = ground arith

read-Timed :
    (d : Gpu) (clk addr size : ℕ)
    → Timed clk d
    → clk < short
    → Timed clk (handle_read d addr size).0
unfolding handle_read read_register
read-Timed d clk addr size v h =
    ground (arith, retire-Inv d d.gpu_clk v.inv (ground (arith, v.clock, h)))

count-Timed :
    (d : Gpu) (clk : ℕ)
    → Timed clk d
    → suc clk < short
    → Timed (suc clk) (count_cycle (record d { gpu_clk = add64 d.gpu_clk 1 }))
unfolding count_cycle
count-Timed d clk v h = ground (arith, v.inv, v.inv.core)

tick-Timed : (d : Gpu) (clk : ℕ) → Timed clk d → suc clk < short → Timed (suc clk) (tick_busy d)
unfolding tick_busy
tick-Timed d clk v h =
    let now = add64 d.gpu_clk 1 in
    let counted = count_cycle (record d { gpu_clk = now }) in
    let c = count-Timed d clk v h in
    let r = retire-Inv counted now c.inv (ground (arith, v.clock, h)) in
    hold-Timed (retire_if_ready counted now) (suc clk) true (ground (arith, r, c.clock))

-- The values that the device is written are below 2^63.
abbrev Mild : Event → Type 0
Mild (writes w) = data_to_u64 w.payload < short
Mild _ = Unit

pub data AllMild : List Event → Type 0 where
  nil : AllMild []
  cons : {e : Event} {es : List Event} → Mild e → AllMild es → AllMild (e ∷ es)

write-Timed :
    (d : Gpu) (clk : ℕ) (w : Write)
    → Timed clk d
    → clk < short
    → data_to_u64 w.payload < short
    → Ensures (Timed clk) (handle_write d w)
unfolding handle_write
write-Timed d clk w v h m = elim (Bool-cases (sub64 w.addr d.base_addr == reg_doorbell)) [
  | inl bell ↦
      rw (bell, v.inv.core.no_kernel)
        (respond-Timed (latency_doorbell d) clk true w.posted (doorbell-Timed d clk v h))
  | inr other ↦ rw other (
      Ensures-bind (Timed clk) (Timed clk) (write_register d (sub64 w.addr d.base_addr) w.payload)
        (λ d'. respond d' false w.posted)
        (register-Timed d clk (sub64 w.addr d.base_addr) w.payload v m)
        (λ d' v'. respond-Timed d' clk false w.posted v'))
]

later-Timed : (d : Gpu) (clk : ℕ) → Timed clk d → Timed (suc clk) d
later-Timed d clk v = ground (arith, v.inv, v.clock)

step-Timed :
    (d : Gpu) (clk : ℕ) (e : Event)
    → Timed clk d
    → suc clk < short
    → Mild e
    → Ensures (Timed (suc clk)) (step d e)
unfolding step op_on_write_resp
step-Timed d clk (reads addr size) v h m =
    ground (arith, read-Timed d clk addr size v (ground arith))
step-Timed d clk (writes w) v h m =
    grind (arith, later-Timed, write-Timed d clk w v (ground arith) m)
step-Timed d clk ticks v h m = tick-Timed d clk v h
step-Timed d clk (read_responds id bytes) v h m = rw (v.inv.core.no_kernel) tt
step-Timed d clk write_responds v h m = ground (arith, v.inv.core, later-Timed d clk v)

-- A run of a device without a kernel or a transfer, from a device where every accepted doorbell has
-- retired, runs, or waits behind the one that runs, at most eight of them waiting, where a held
-- response waits for a kernel that runs, and where the configured latency, its override and the
-- latencies that wait are below 2^63. If the number of events on top of the clock's reading is
-- below 2^63, and so is each value that is written, the run ends in such a device, unless it ends
-- in an error: no ticket is lost and none is counted twice.
pub run-tickets :
    (d : Gpu) (clk : ℕ) (es : List Event)
    → Timed clk d
    → clk + length es < short
    → AllMild es
    → Ensures (λ d'. Inv d') (run d es)
unfolding run
run-tickets d clk [] v h nil = v.inv
run-tickets d clk (e ∷ es) v h (cons m ms) =
    Ensures-bind (Timed (suc clk)) (λ d'. Inv d') (step d e) (λ d'. run d' es)
      (step-Timed d clk e v (ground arith) m)
      (λ d' v'. run-tickets d' (suc clk) es v' (ground arith) ms)
