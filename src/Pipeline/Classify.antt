-- ===== src/Pipeline/Classify.antt =====
-- src/quetz_pipeline_transform.cc: DefaultPipelineTransform, which decides what becomes of an event.
use quetz.Base.{ℕ, ◌-◌, Bool, true, false, not, ◌||◌, ltb, ◌==◌, if◌then◌else◌}
use quetz.Ipc.{ShmemCmd}
use quetz.CoreStats.{
  CoreStats, add_data, insn_count, noop_count, stall_cycles, compute_stall_cycles, int_compute,
  fp_compute, vec_compute, branch,
}
use quetz.Region.{Action, forward_mmio, end_sim}
use quetz.Pipeline.Feed.{Event, MemOp, Context, is_nop, is_exit}

-- PipelineTransform::Result
pub data Result : Type 0 where
  stall consumed_noop emit_memop halt_exit : Result

-- The statistic of a NOP's class under detailed tracking.
track_class : Context → ℕ → CoreStats → CoreStats
track_class ctx cls stats =
    if not ctx.detailed_tracking
    then stats
    else if cls == 3
    then add_data int_compute 1 stats
    else if cls == 4
    then add_data fp_compute 1 stats
    else if cls == 5
    then add_data vec_compute 1 stats
    else if cls == 6
    then add_data branch 1 stats
    else stats

abbrev pub ends_sim : Action → Bool
ends_sim end_sim = true
ends_sim _ = false

abbrev goes_mmio : Action → Bool
goes_mmio forward_mmio = true
goes_mmio _ = false

-- DefaultPipelineTransform::process: the event as it is left at the head of the queue, the
-- statistics, the result, and the operation that it emits.
unfoldable pub process : Context → Event → CoreStats → Action → Event × CoreStats × Result × MemOp
unfolding track_class
process ctx ev stats action =
    if is_exit cmd.cmd || ends_sim action
    then (ev, stats, halt_exit, op)
    else if ltb 0 ev.remaining_stall
    then (
      record ev { remaining_stall = ev.remaining_stall - 1 },
      (if is_nop cmd.cmd
          then add_data compute_stall_cycles 1 stats
          else add_data stall_cycles 1 stats),
      stall,
      op,
    )
    else if is_nop cmd.cmd
    then (
      ev,
      track_class ctx cmd.insn_class (add_data insn_count 1 (add_data noop_count 1 stats)),
      consumed_noop,
      op,
    )
    else (ev, stats, emit_memop, op)
  where
    open ev use {cmd}

    op : MemOp
    op = record {
      is_read = elim (cmd.cmd) [ ShmemCmd.read ↦ true | _ ↦ false ];
      is_mmio = goes_mmio action;
      addr = cmd.addr;
      size = cmd.size;
      pc = cmd.pc;
      payload = cmd.payload;
    }
