-- ===== src/Gpu/Examples.antt =====
-- A device without a kernel, with an interrupt line and a latency of five cycles.
use quetz.Base.{
  ◌≡◌, refl, true, false, none, some, List, [], ◌∷◌, arith, Ensures, add64, data_to_u64,
}
use quetz.Gpu.State.{has_work, Gpu, Args, Stats, idle, is_busy}
use quetz.Gpu.Device.{Event, reads, writes, ticks, run}
use quetz.Gpu.Irq
use quetz.Gpu.Irq.{run-irq_follows}
use quetz.Gpu.Hold.{Holds, run-Holds}
use quetz.Gpu.Tickets
use quetz.Gpu.Tickets.{AllShort}
use quetz.Gpu.Histories.{Timed, AllMild, nil, cons, run-tickets}
use quetz.Gpu.Busy.{cycles, Runs, cycles-retire}

abbrev no_args : Args
no_args = record { src_addr = 0; dst_addr = 0; arg2 = 0; arg3 = 0 }

abbrev no_stats : Stats
no_stats = record {
  kernels_launched = 0;
  busy_cycles = 0;
  doorbell_writes = 0;
  status_polls = 0;
  latency_overrides = 0;
  doorbell_while_busy = 0;
  irqs_raised = 0;
  wrong_direction_accesses = 0;
  bad_offset_accesses = 0;
  ops_rejected = 0;
}

abbrev device : Gpu
device = record {
  base_addr = 4096;
  kernel_latency = 5;
  gpu_clk = 0;
  busy_until_clk = 0;
  kernel_id = 0;
  submit_id = 0;
  latency_override = 0;
  holding_sim = false;
  doorbell_blocking = true;
  cpu_checkpoints = false;
  irq_witnesses = false;
  deferred_doorbell_resp = false;
  pending_latencies = [];
  irq_line = some 9;
  irq_vcpu = 0;
  irq_pending = false;
  irq_events = 0;
  kernel = none;
  line_size = 64;
  next_id = 1;
  dma_range_start = 0;
  dma_range_end = 0;
  arg_regs = no_args;
  op_args = no_args;
  op_phase = idle;
  op_in = [];
  op_out = [];
  op_in_bytes = 0;
  op_dma_outstanding = 0;
  op_next_dma_off = 0;
  op_doorbell_resp = false;
  op_req_off = [];
  events_enabled = false;
  sent = [];
  stats = no_stats;
}

-- A doorbell, a cycle, another doorbell behind the first, and a poll.
abbrev history : List Event
history =
    writes (record { addr = 4096; payload = 1 ∷ 0 ∷ 0 ∷ 0 ∷ []; posted = false })
    ∷ ticks
    ∷ writes (record { addr = 4096; payload = 1 ∷ 0 ∷ 0 ∷ 0 ∷ []; posted = true })
    ∷ reads 4104 4
    ∷ []

device-irq : Irq.Inv device
unfolding Irq.level_of
device-irq = record { follows = refl; settled = λ e. refl }

run-irq_follows_example : Ensures Irq.Inv (run device history)
run-irq_follows_example = run-irq_follows device history device-irq

device-Holds : Holds device
unfolding has_work
device-Holds = ground arith

run-Holds_example : Ensures Holds (run device history)
run-Holds_example = run-Holds device history device-Holds

device-Timed : Timed 0 device
device-Timed =
    let none_queued : AllShort device.pending_latencies = Tickets.nil in ground (arith, none_queued)

history-AllMild : AllMild history
unfolding data_to_u64
history-AllMild = cons (omega arith) (cons tt (cons (omega arith) (cons tt nil)))

run-tickets_example : Ensures (λ d'. Tickets.Inv d') (run device history)
run-tickets_example = run-tickets device 0 history device-Timed (omega arith) history-AllMild

-- A device that runs until its clock reads 3.
abbrev running : Gpu
running = record device {
  submit_id = 1;
  busy_until_clk = 3;
  holding_sim = true;
  deferred_doorbell_resp = true;
}

running-Runs : Runs 3 running
running-Runs = ground arith

cycles-retire_example :
    (is_busy (cycles 2 running) ≡ true)
    × ((cycles 2 running).kernel_id ≡ 0)
    × ((cycles 3 running).kernel_id ≡ add64 0 1)
    × (is_busy (cycles 3 running) ≡ false)
    × ((cycles 3 running).deferred_doorbell_resp ≡ false)
cycles-retire_example = cycles-retire 2 running running-Runs
