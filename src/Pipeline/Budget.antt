-- ===== src/Pipeline/Budget.antt =====
-- A tick's budgets: requests issued and requests in flight.
use quetz.Base.{
  ℕ, zero, suc, ◌+◌, ◌-◌, ◌*◌, ◌≤◌, ◌<◌, ◌^◌, ◌≡◌, refl, sym, ap, subst, Bool, true, false, not,
  ◌||◌, Option, none, some, List, [], ◌∷◌, length, ◌==◌, if◌then◌else◌, arith, inl, inr, Bool-cases,
  Meets, Meets-bind, ok, ◌>>=◌,
}
use quetz.Emitter.{cached, mmio}
use quetz.Emitter.Budget.{
  WithinBudget, issue_read_window-WithinBudget, issue_write_window-WithinBudget,
}
use quetz.Ipc.{Command}
use quetz.Region.{Action, forward}
use quetz.Pipeline.{
  Event, MemOp, Context, Pipeline, Round, again, done, returned, issue_available, issue_budget,
  finish_issue, issue_mem_op, check_max_insts, process_head, transform_head, filter_handle, round,
  tick_loop, start_tick, tick, close_tick, pop_event,
}

-- What a tick that began at `p` has issued when it is at `q`.
pub record Spent (p : Pipeline) (q : Pipeline) (issued : ℕ) : Type 0 where
  pub rate : issued ≤ p.ctx.max_issue_per_cycle
  pub in_flight : q.emitter.pending_count ≡ p.emitter.pending_count + issued
  pub sent : length q.emitter.sent ≡ length p.emitter.sent + issued
  pub bounded : q.emitter.pending_count ≤ p.ctx.max_pending
  pub context : q.ctx ≡ p.ctx

-- The access sends within the budget, and changes nothing else of the pipeline but its cursor.
abbrev Sends : Pipeline → ℕ → Pipeline × ℕ × Bool → Type 0
Sends p budget r =
    (r.1 ≤ budget)
    × (r.0.emitter.pending_count ≡ p.emitter.pending_count + r.1)
    × (length r.0.emitter.sent ≡ length p.emitter.sent + r.1)
    × (r.0.ctx ≡ p.ctx)
    × (r.0.core_q ≡ p.core_q)
    × (r.0.pending_op ≡ p.pending_op)

issue_available-Sends :
    (p : Pipeline) (now : ℕ) (op : MemOp) (budget : ℕ)
    → p.emitter.pending_count + budget < 2 ^ 32
    → Meets (Sends p budget) (issue_available p now op budget)
unfolding issue_available
issue_available-Sends p now op budget h =
    let path = (if op.is_mmio then mmio else cached) in
    elim (Bool-cases op.is_read) [
      | inl reading ↦ rw reading (
          Meets-bind (WithinBudget p.emitter budget) _ _ _
            (issue_read_window-WithinBudget p.emitter now op.addr op.size path p.offset budget h)
            (λ r w. (w.0, w.1, w.2, refl, refl, refl)))
      | inr writing ↦ rw writing (
          Meets-bind (WithinBudget p.emitter budget) _ _ _
            (issue_write_window-WithinBudget p.emitter now op.addr op.size op.payload path p.offset
              budget h)
            (λ r w. (w.0, w.1, w.2, refl, refl, refl)))
    ]

-- What a round takes from: the events in the queue, and the head that is not yet pending.
abbrev work : Pipeline → ℕ
work p = 2 * length p.core_q + (elim (p.pending_op) [ none ↦ 1 | some op ↦ 0 ])

issue_budget_le :
    (p : Pipeline) (issued : ℕ)
    → (issue_budget p issued ≤ p.ctx.max_issue_per_cycle - issued)
      × (issue_budget p issued ≤ p.ctx.max_pending - p.emitter.pending_count)
unfolding issue_budget
issue_budget_le p issued = ground arith

finish_issue_lem :
    (p : Pipeline) (issued count : ℕ) (complete : Bool)
    → let r = finish_issue p issued count complete in
      (r.0.ctx ≡ p.ctx)
      × (r.0.emitter.pending_count ≡ p.emitter.pending_count)
      × (r.0.emitter.sent ≡ p.emitter.sent)
      × (r.1 ≡ issued + count)
      × (r.2 ≡ complete)
      × (complete ≡ true → (r.0.core_q ≡ (pop_event p).core_q) × (r.0.pending_op ≡ none))
unfolding finish_issue
finish_issue_lem p issued count complete = ground arith

-- A round keeps within the budgets, fails only by fatal(), and where the loop goes on there is less
-- work left.
abbrev RoundOk : Pipeline → Pipeline → Pipeline × ℕ × Round → Type 0
RoundOk p0 p r = Spent p0 r.0 r.1 × (r.2 ≡ again → work r.0 < work p)

issue_mem_op_lem :
    (p0 p : Pipeline) (now : ℕ) (op : MemOp) (issued : ℕ) (ev : Event) (rest : List Event)
    → p0.ctx.max_pending < 2 ^ 32
    → Spent p0 p issued
    → p.core_q ≡ ev ∷ rest
    → p.pending_op ≡ some op
    → Meets
        (λ r. Spent p0 r.0 r.1 × (r.2 ≡ true → work r.0 < work p))
        (issue_mem_op p now op issued)
unfolding issue_mem_op
issue_mem_op_lem p0 p now op issued ev rest m v hq hp =
    let budget : ℕ = issue_budget p issued in
    let b = issue_budget_le p issued in
    let c = ap (λ (x : Context). x.max_pending) v.context in
    let d = ap (λ (x : Context). x.max_issue_per_cycle) v.context in
    elim (Bool-cases (budget == 0)) [
      | inl full ↦ rw full (v, λ e. absurd (cc))
      | inr room ↦ rw room (
          Meets-bind (Sends p budget) _ _ _
            (issue_available-Sends p now op budget (omega (arith, b, c, v)))
            (λ r w. ground (arith, w, b, c, d, v, finish_issue_lem r.0 issued r.1 r.2)))
    ]

filter_handle_lem :
    (p : Pipeline) (cmd : Command)
    → let r = filter_handle p cmd in
      (r.0.ctx ≡ p.ctx)
      × (r.0.emitter.pending_count ≡ p.emitter.pending_count)
      × (r.0.emitter.sent ≡ p.emitter.sent)
      × (r.0.pending_op ≡ p.pending_op)
unfolding filter_handle
filter_handle_lem p cmd = ground arith

transform_head_lem :
    (p : Pipeline) (ev : Event) (rest : List Event) (action : Action)
    → let r = transform_head p ev rest action in
      (r.0.ctx ≡ p.ctx)
      × (r.0.emitter.pending_count ≡ p.emitter.pending_count)
      × (r.0.emitter.sent ≡ p.emitter.sent)
      × (r.1 ≡ again → p.pending_op ≡ none → work r.0 < 2 * length rest + 3)
unfolding transform_head
transform_head_lem p ev rest action = ground arith

process_head_lem :
    (p : Pipeline) (ev : Event) (rest : List Event)
    → p.core_q ≡ ev ∷ rest
    → p.pending_op ≡ none
    → let r = process_head p ev rest in
      (r.0.ctx ≡ p.ctx)
      × (r.0.emitter.pending_count ≡ p.emitter.pending_count)
      × (r.0.emitter.sent ≡ p.emitter.sent)
      × (r.1 ≡ again → work r.0 < work p)
unfolding process_head check_max_insts
process_head_lem p ev rest hq hp =
    let f = filter_handle p ev.cmd in
    ground (
      arith,
      filter_handle_lem p ev.cmd,
      transform_head_lem p ev rest forward,
      transform_head_lem f.0 ev rest f.1,
    )

-- The two ways of a round with an event at the head.
pub round_pending :
    (p : Pipeline) (now issued : ℕ) (ev : Event) (rest : List Event) (op : MemOp)
    → p.core_q ≡ ev ∷ rest
    → p.pending_op ≡ some op
    → round p now issued ≡ (
        issue_mem_op p now op issued
        >>= (λ r. ok (r.0, r.1, (if not r.2 || r.0.halted then done else again))))
unfolding round
round_pending p now issued ev rest op hq hp = ground arith

pub round_head :
    (p : Pipeline) (now issued : ℕ) (ev : Event) (rest : List Event)
    → p.core_q ≡ ev ∷ rest
    → p.pending_op ≡ none
    → round p now issued ≡ ok ((process_head p ev rest).0, issued, (process_head p ev rest).1)
unfolding round
round_head p now issued ev rest hq hp = ground arith

pub round_empty :
    (p : Pipeline) (now issued : ℕ) → p.core_q ≡ [] → round p now issued ≡ ok (p, issued, done)
unfolding round
round_empty p now issued hq = ground arith

round-RoundOk :
    (p0 p : Pipeline) (now issued : ℕ)
    → p0.ctx.max_pending < 2 ^ 32
    → Spent p0 p issued
    → Meets (RoundOk p0 p) (round p now issued)
round-RoundOk p0 p now issued m v = by_queue p.core_q refl
  where
    by_op :
        (ev : Event) (rest : List Event)
        → p.core_q ≡ ev ∷ rest
        → (o : Option MemOp) → p.pending_op ≡ o
        → Meets (RoundOk p0 p) (round p now issued)
    by_op ev rest hq none hp =
        subst (Meets (RoundOk p0 p)) (sym (round_head p now issued ev rest hq hp))
          (ground (arith, process_head_lem p ev rest hq hp, v))
    by_op ev rest hq (some op) hp =
        subst (Meets (RoundOk p0 p)) (sym (round_pending p now issued ev rest op hq hp)) (
          Meets-bind (λ r. Spent p0 r.0 r.1 × (r.2 ≡ true → work r.0 < work p)) (RoundOk p0 p) _ _
            (issue_mem_op_lem p0 p now op issued ev rest m v hq hp)
            (λ r w. (w.0, λ e. w.1 (ground arith))))

    by_queue : (q : List Event) → p.core_q ≡ q → Meets (RoundOk p0 p) (round p now issued)
    by_queue [] hq =
        subst (Meets (RoundOk p0 p)) (sym (round_empty p now issued hq)) (v, λ e. absurd (cc))
    by_queue (ev ∷ rest) hq = by_op ev rest hq p.pending_op refl

close_tick-Spent : (p0 q : Pipeline) (n : ℕ) → Spent p0 q n → Spent p0 (close_tick q n) n
unfolding close_tick
close_tick-Spent p0 q n v = ground arith

-- The loop ends within its fuel, and its result has kept within the budgets.
tick_loop_lem :
    (fuel : ℕ) (p0 p : Pipeline) (now issued : ℕ)
    → p0.ctx.max_pending < 2 ^ 32
    → Spent p0 p issued
    → work p < fuel
    → Meets (λ q. (n : ℕ) × Spent p0 q n) (tick_loop fuel p now issued)
unfolding tick_loop
tick_loop_lem zero p0 p now issued m v h = absurd (omega arith)
tick_loop_lem (suc k) p0 p now issued m v h =
    Meets-bind (RoundOk p0 p) (λ q. (n : ℕ) × Spent p0 q n) _ _ (round-RoundOk p0 p now issued m v)
      (λ r w. go r w (tick_loop_lem k p0 r.0 now r.1 m w.0))
  where
    go :
        (r : Pipeline × ℕ × Round)
        → RoundOk p0 p r
        → (work r.0 < k → Meets (λ q. (n : ℕ) × Spent p0 q n) (tick_loop k r.0 now r.1))
        → Meets
            (λ q. (n : ℕ) × Spent p0 q n)
            (elim (r.2) [
              | returned ↦ ok r.0
              | done ↦ ok (close_tick r.0 r.1)
              | again ↦ tick_loop k r.0 now r.1
            ])
    go (q, n, again) w next = next (omega (arith, w.1 refl))
    go (q, n, done) w next = (n, close_tick-Spent p0 q n w.0)
    go (q, n, returned) w next = (n, w.0)

work-lt : (p : Pipeline) → work p < 2 * length p.core_q + 2
work-lt p = ground arith

start_tick-Spent :
    (p : Pipeline) → p.emitter.pending_count ≤ p.ctx.max_pending → Spent p (start_tick p) 0
unfolding start_tick
start_tick-Spent p b = record {
  rate = omega arith;
  in_flight = omega arith;
  sent = omega arith;
  bounded = b;
  context = refl;
}

-- A tick always ends: by fatal(), or with a pipeline whose emitter has put on the link at most
-- max_issue_per_cycle requests more than before, has added exactly as many to the requests in
-- flight, and has at most max_pending of them. The limit is below 2^32 and holds when the tick
-- begins.
pub tick-Spent :
    (p : Pipeline) (now : ℕ)
    → p.ctx.max_pending < 2 ^ 32
    → p.emitter.pending_count ≤ p.ctx.max_pending
    → Meets (λ q. (n : ℕ) × Spent p q n) (tick p now)
unfolding tick
tick-Spent p now m b = go p.halted
  where
    start : Spent p p 0
    start = record {
      rate = omega arith;
      in_flight = omega arith;
      sent = omega arith;
      bounded = b;
      context = refl;
    }

    go :
        (h : Bool)
        → Meets
            (λ q. (n : ℕ) × Spent p q n)
            (if h
              then ok p
              else (let p' = start_tick p in tick_loop (2 * length p'.core_q + 2) p' now 0))
    go true = (0, start)
    go false =
        tick_loop_lem (2 * length (start_tick p).core_q + 2) p (start_tick p) now 0 m
          (start_tick-Spent p b) (work-lt (start_tick p))
