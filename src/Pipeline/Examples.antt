-- ===== src/Pipeline/Examples.antt =====
-- A pipeline with a queue of four events, whose tunnel holds a compute run and two accesses.
use quetz.Base.{
  ℕ, ◌≤◌, ◌≡◌, refl, true, false, none, some, [], ◌∷◌, length, arith, Meets, Outcome, ok, err,
}
use quetz.Region.{test_finisher, handle_memory_access, find_handler, dispatch, kind_write}
use quetz.Ipc.{Command, ShmemCmd}
use quetz.Pipeline.{
  Context, Input, Pipeline, Round, done, refill, tick, round, process_head, filter_handle,
  transform_head, process,
}
use quetz.Pipeline.Ends.{Cause, round-Cause}
use quetz.Pipeline.Refill.{outstanding, refill_conserves}
use quetz.Pipeline.Budget.{Spent, tick-Spent}

abbrev context : Context
context = record {
  max_queue_len = 4;
  max_issue_per_cycle = 2;
  max_pending = 16;
  max_insts = 0;
  detailed_tracking = true;
  exec_latency = [];
  compute_latency = [];
}

abbrev command : ShmemCmd → ℕ → Command
command c n = record { cmd = c; size = n; pc = 0; addr = 4096; insn_class = 3; payload = [] }

abbrev input : Input
input = record {
  tunnel = command ShmemCmd.compute_run 3 ∷ command ShmemCmd.read 8 ∷ command ShmemCmd.read 8 ∷ [];
  run_nop = command ShmemCmd.nop 0;
  run_remaining = 0;
  run_stall = 0;
}

refill_conserves_example :
    (outstanding context (refill context [] input) ≡ outstanding context ([], input))
    × (0 ≤ context.max_queue_len → length (refill context [] input).0 ≤ context.max_queue_len)
refill_conserves_example = refill_conserves context [] input

abbrev pipeline : Pipeline
pipeline = record {
  ctx = context;
  input = input;
  policy = none;
  emitter = record {
    mem_link = true;
    mmio_link = false;
    cache_line_size = 64;
    pending_txns = [];
    pending_count = 0;
    next_id = 1;
    sent = [];
    stats = [];
  };
  offset = 0;
  core_q = [];
  pending_op = none;
  inst_count = 0;
  halted = false;
  guest_exit = false;
  refill_hit_cap = false;
}

tick-Spent_example : Meets (λ q. (n : ℕ) × Spent pipeline q n) (tick pipeline 1)
tick-Spent_example = tick-Spent pipeline 1 (omega arith) (omega arith)

-- A write to a test finisher at the head of the queue.
abbrev guarded : Pipeline
guarded = record pipeline {
  policy = some (record {
    handlers =
        none
        ∷ some (record {
          start = 4096;
          end_addr = 4099;
          kind = test_finisher (record { pass_value = 21845; wrote = false; last_value = 0 });
        })
        ∷ [];
    filter_unmatched = false;
  });
  core_q = record { cmd = command ShmemCmd.write 4; remaining_stall = 0 } ∷ [];
}

abbrev round_of : Outcome (Pipeline × ℕ × Round) → Pipeline × ℕ × Round
round_of (ok r) = r
round_of (err e) = (guarded, 0, done)

abbrev finished : Pipeline × ℕ × Round
finished = round_of (round guarded 1 0)

finishes : round guarded 1 0 ≡ ok finished
unfolding round process_head filter_handle transform_head process handle_memory_access find_handler
    dispatch kind_write
finishes = refl

halts : finished.0.halted ≡ true
unfolding round process_head filter_handle transform_head process handle_memory_access find_handler
    dispatch kind_write
halts = refl

round-Cause_example : Cause guarded finished.0
round-Cause_example = round-Cause guarded 1 0 {q = finished} refl finishes halts
