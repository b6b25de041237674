-- ===== src/Pipeline/Feed.antt =====
-- src/quetz_pipeline_input.cc and src/quetz_pipeline_api.h: the events, and DefaultPipelineInput,
-- which expands the commands of the plugin's tunnel into them.
use quetz.Base.{
  ℕ, zero, suc, Bool, true, false, ◌&&◌, List, [], ◌∷◌, ◌++◌, ltb, ◌==◌, if◌then◌else◌, length,
  get_or,
}
use quetz.Ipc.{Command, ShmemCmd, insn_class_count}

-- PipelineEvent
pub record Event : Type 0 where
  pub cmd : Command
  pub remaining_stall : ℕ

-- MemOp
pub record MemOp : Type 0 where
  pub is_read : Bool
  pub is_mmio : Bool
  pub addr : ℕ
  pub size : ℕ
  pub pc : ℕ
  pub payload : List ℕ

-- The limits and latencies of QuetzCoreContext.
pub record Context : Type 0 where
  pub max_queue_len : ℕ
  pub max_issue_per_cycle : ℕ
  pub max_pending : ℕ
  pub max_insts : ℕ
  pub detailed_tracking : Bool
  pub exec_latency : List ℕ
  pub compute_latency : List ℕ

-- The state of DefaultPipelineInput, with the commands that are still in the tunnel.
pub record Input : Type 0 where
  pub tunnel : List Command
  pub run_nop : Command
  pub run_remaining : ℕ
  pub run_stall : ℕ

abbrev pub is_nop : ShmemCmd → Bool
is_nop ShmemCmd.nop = true
is_nop _ = false

abbrev pub is_exit : ShmemCmd → Bool
is_exit ShmemCmd.exit = true
is_exit _ = false

abbrev pub is_compute_run : ShmemCmd → Bool
is_compute_run ShmemCmd.compute_run = true
is_compute_run _ = false

abbrev pub is_access : ShmemCmd → Bool
is_access ShmemCmd.read = true
is_access ShmemCmd.write = true
is_access _ = false

-- drainRun, over the run's remaining length: the queue, and what is left of the run.
unfoldable pub drain_run : Event → List Event → ℕ → ℕ → List Event × ℕ
drain_run nop q max zero = (q, 0)
drain_run nop q max (suc n) =
    let rest = drain_run nop (q ++ (nop ∷ [])) max n in
    if ltb (length q) max then rest else (q, suc n)

-- The latency of a class that is in range, else none.
abbrev pub latency_of : List ℕ → ℕ → ℕ
latency_of table cls = if ltb cls insn_class_count then get_or table cls 0 else 0

-- The stall of an event.
abbrev pub stall_of : Context → Command → ℕ
stall_of ctx cmd =
    if is_access cmd.cmd
    then latency_of ctx.exec_latency cmd.insn_class
    else if is_nop cmd.cmd
    then latency_of ctx.compute_latency cmd.insn_class
    else 0

-- The NOP that a compute run repeats, and how often.
abbrev pub nop_of : Command → Command
nop_of cmd = record cmd { cmd = ShmemCmd.nop; size = 0 }

abbrev pub run_length : Command → ℕ
run_length cmd = if cmd.size == 0 then 1 else cmd.size

-- The loop of refill over the tunnel: `q` and the run in flight, and the commands left. It stops at a
-- full queue, at an unfinished run and behind EXIT.
unfoldable pub refill_loop : Context → List Event → Input → List Command → List Event × Input
refill_loop ctx q inp [] = (q, record inp { tunnel = [] })
refill_loop ctx q inp (cmd ∷ rest) =
    let run : Event = record {
      cmd = nop_of cmd;
      remaining_stall = latency_of ctx.compute_latency cmd.insn_class;
    } in
    let drained : List Event × ℕ = drain_run run q ctx.max_queue_len (run_length cmd) in
    let after_run =
      refill_loop ctx drained.0
        (record inp {
          run_nop = run.cmd;
          run_stall = run.remaining_stall;
          run_remaining = drained.1;
        })
        rest in
    let pushed : List Event =
      q ++ (record { cmd = cmd; remaining_stall = stall_of ctx cmd } ∷ []) in
    let after_push = refill_loop ctx pushed inp rest in
    if ltb (length q) ctx.max_queue_len && (inp.run_remaining == 0)
    then (if is_compute_run cmd.cmd
        then after_run
        else if is_exit cmd.cmd
        then (pushed, record inp { tunnel = rest })
        else after_push)
    else (q, record inp { tunnel = cmd ∷ rest })

-- refill: the run of the last tick first, then the tunnel.
unfoldable pub refill : Context → List Event → Input → List Event × Input
unfolding drain_run refill_loop
refill ctx q inp =
    let carried : Event = record { cmd = inp.run_nop; remaining_stall = inp.run_stall } in
    let (q', left) = drain_run carried q ctx.max_queue_len inp.run_remaining in
    refill_loop ctx q' (record inp { run_remaining = left }) inp.tunnel
