-- ===== src/Pipeline.antt =====
-- src/quetz_pipeline*.cc and .h: the event pipeline of one core, with its default stages. Commands
-- come from the plugin's tunnel, are expanded into events, filtered by the region table, classified,
-- and issued as memory requests under the issue and pending budgets.
mod Feed
mod Classify
pub mod Refill
pub mod Budget
mod Ends
mod Examples
unfoldable pub use Feed.*
unfoldable pub use Classify.*
use quetz.Base.{
  ℕ, zero, suc, ◌+◌, ◌-◌, ◌*◌, min, Bool, true, false, not, ◌&&◌, ◌||◌, Option, none, some, List,
  [], ◌∷◌, ◌++◌, ltb, leb, ◌==◌, if◌then◌else◌, length, get_or, Outcome, ok, err, fatal,
  out_of_fuel, ◌>>=◌,
}
use quetz.Ipc.{Command, ShmemCmd, insn_class_count}
use quetz.CoreStats.{
  CoreStats, add_data, insn_count, noop_count, stall_cycles, compute_stall_cycles, cycles,
  active_cycles, int_compute, fp_compute, vec_compute, branch,
}
use quetz.Region.{Policy, Action, forward, forward_mmio, consume, end_sim, handle_memory_access}
use quetz.Emitter.{Emitter, cached, mmio, issue_read_window, issue_write_window}

-- QuetzEventPipeline, with its stages' state: the policy of the filter, and the emitter and the
-- cursor of the output stage. `pending_op` is `none` where has_pending_op_ is false.
pub record Pipeline : Type 0 where
  pub ctx : Context
  pub input : Input
  pub policy : Option Policy
  pub emitter : Emitter
  pub offset : ℕ
  pub core_q : List Event
  pub pending_op : Option MemOp
  pub inst_count : ℕ
  pub halted : Bool
  pub guest_exit : Bool
  pub refill_hit_cap : Bool

abbrev pub stat : Pipeline → CoreStats → Pipeline
stat p stats = record p { emitter = record (p.emitter) { stats = stats } }

-- isDrained
unfoldable is_drained : Pipeline → Bool
is_drained p =
    (p.emitter.pending_count == 0) && (p.halted || ((length p.core_q == 0) && not p.refill_hit_cap))

-- checkMaxInsts: halts at the instruction limit, if there is one.
pub check_max_insts : Pipeline → Pipeline
check_max_insts p =
    if ltb 0 p.ctx.max_insts && leb p.ctx.max_insts p.inst_count
    then record p { halted = true }
    else p

abbrev pub pop_event : Pipeline → Pipeline
pop_event p = record p { core_q = elim (p.core_q) [ [] ↦ [] | e ∷ es ↦ es ] }

-- DefaultPipelineOutput::issueAvailable at the cycle `now`: the pipeline with the new emitter and
-- cursor, the number of requests, and whether the access is complete.
pub issue_available : Pipeline → ℕ → MemOp → ℕ → Outcome (Pipeline × ℕ × Bool)
issue_available p now op budget =
    let path = (if op.is_mmio then mmio else cached) in
    let issued =
      (if op.is_read
        then issue_read_window p.emitter now op.addr op.size path p.offset budget
        else issue_write_window p.emitter now op.addr op.size op.payload path p.offset budget) in
    issued >>= (λ r. ok (
      record p { emitter = r.0; offset = (if r.1 == op.size then 0 else r.1) },
      r.2,
      r.1 == op.size,
    ))

-- The budget of issueMemOp.
pub issue_budget : Pipeline → ℕ → ℕ
issue_budget p issued =
    min (if ltb issued p.ctx.max_issue_per_cycle then p.ctx.max_issue_per_cycle - issued else 0) (
      if ltb p.emitter.pending_count p.ctx.max_pending
      then p.ctx.max_pending - p.emitter.pending_count
      else 0)

-- What issueMemOp does once the output has answered.
pub finish_issue : Pipeline → ℕ → ℕ → Bool → Pipeline × ℕ × Bool
unfolding check_max_insts
finish_issue p issued count complete = if not complete then (p, issued + count, false) else (
  check_max_insts (record (pop_event (stat p (add_data insn_count 1 p.emitter.stats))) {
    pending_op = none;
    inst_count = p.inst_count + 1;
  }),
  issued + count,
  true,
)

-- issueMemOp: the pipeline, `issued`, and its result.
pub issue_mem_op : Pipeline → ℕ → MemOp → ℕ → Outcome (Pipeline × ℕ × Bool)
issue_mem_op p now op issued =
    let budget = issue_budget p issued in
    if budget == 0
    then ok (p, issued, false)
    else issue_available p now op budget >>= (λ r.
      if ltb budget r.1
      then err fatal
      else if not r.2 && (r.1 == 0) && (issued == 0) && (p.emitter.pending_count == 0)
      then err fatal
      else ok (finish_issue r.0 issued r.1 r.2))

-- DefaultPipelineFilter::handle: the pipeline, the region's action, and whether the access is
-- consumed.
pub filter_handle : Pipeline → Command → Pipeline × Action × Bool
filter_handle p cmd = elim (p.policy) [
  | none ↦ (p, forward, false)
  | some policy ↦
      let (policy', stats, a) = handle_memory_access policy cmd p.emitter.stats in
      (
        record (stat p stats) { policy = some policy' },
        a,
        elim a [ forward ↦ false | forward_mmio ↦ false | consume ↦ true | end_sim ↦ false ],
      )
]

-- What one round of tick's loop decides: to go on, to go to `done`, or to return.
pub data Round : Type 0 where
  again done returned : Round

-- `if (checkMaxInsts()) return; continue;`
abbrev pub unless_halted : Pipeline → Pipeline × Round
unless_halted p = (p, (if p.halted then returned else again))

-- The event at the head that the filter does not consume.
pub transform_head : Pipeline → Event → List Event → Action → Pipeline × Round
unfolding process check_max_insts
transform_head p ev rest action =
    let (ev', stats, result, op) = process p.ctx ev p.emitter.stats action in
    let p' = stat p stats in
    elim result [
      | halt_exit ↦
          (record p' { guest_exit = is_exit ev.cmd.cmd; halted = true; core_q = rest }, returned)
      | stall ↦ (record p' { core_q = ev' ∷ rest }, done)
      | consumed_noop ↦
          unless_halted
            (check_max_insts (record p' { core_q = rest; inst_count = p.inst_count + 1 }))
      | emit_memop ↦ (record p' { core_q = ev' ∷ rest; pending_op = some op }, again)
    ]

-- The event at the head, with no operation pending.
pub process_head : Pipeline → Event → List Event → Pipeline × Round
process_head p ev rest =
    let (p', action, consumed) =
      (if is_access ev.cmd.cmd then filter_handle p ev.cmd else (p, forward, false)) in
    if consumed
    then unless_halted (
        check_max_insts (record (stat p' (add_data insn_count 1 p'.emitter.stats)) {
          core_q = rest;
          inst_count = p'.inst_count + 1;
        }))
    else transform_head p' ev rest action

-- One round of `while (!coreQ_.empty())`: the pipeline, `issued`, and how the loop goes on.
pub round : Pipeline → ℕ → ℕ → Outcome (Pipeline × ℕ × Round)
round p now issued = elim (p.core_q) [
  | [] ↦ ok (p, issued, done)
  | ev ∷ rest ↦ elim (p.pending_op) [
    | some op ↦
        issue_mem_op p now op issued
        >>= (λ r. ok (r.0, r.1, (if not r.2 || r.0.halted then done else again)))
    | none ↦ let (p', next) = process_head p ev rest in ok (p', issued, next)
  ]
]

-- The label `done`.
pub close_tick : Pipeline → ℕ → Pipeline
close_tick p issued = stat p (
    add_data cycles 1
      (if ltb 0 issued then add_data active_cycles 1 p.emitter.stats else p.emitter.stats))

-- The loop. A round takes an event off the queue or marks it pending, so twice the queue's length
-- and one round is enough.
pub tick_loop : ℕ → Pipeline → ℕ → ℕ → Outcome Pipeline
tick_loop zero p now issued = err out_of_fuel
tick_loop (suc fuel) p now issued = round p now issued >>= (λ r. elim (r.2) [
  | returned ↦ ok r.0
  | done ↦ ok (close_tick r.0 r.1)
  | again ↦ tick_loop fuel r.0 now r.1
])

-- What tick does before the loop.
pub start_tick : Pipeline → Pipeline
start_tick p =
    let (q, inp) = refill p.ctx p.core_q p.input in
    record p {
      core_q = q;
      input = inp;
      refill_hit_cap = ltb 0 p.ctx.max_queue_len && leb p.ctx.max_queue_len (length q);
    }

-- tick
pub tick : Pipeline → ℕ → Outcome Pipeline
tick p now =
    if p.halted
    then ok p
    else (let p' = start_tick p in tick_loop (2 * length p'.core_q + 2) p' now 0)
