-- ===== src/Pipeline/Refill.antt =====
-- Refilling the queue: compute runs are delivered as the NOPs that they stand for, across ticks.
use quetz.Base.{
  ℕ, zero, suc, ◌≤◌, ◌≡◌, refl, ap, Bool, ◌&&◌, List, [], ◌∷◌, ◌++◌, append_assoc, length,
  replicate, length-append, ltb, ◌==◌, if◌then◌else◌, arith, inl, inr, ◌⊎◌, Bool-cases,
}
use quetz.Ipc.{Command}
use quetz.Pipeline.{
  Event, Context, Input, drain_run, refill_loop, refill, latency_of, stall_of, nop_of, run_length,
  is_compute_run,
}

-- The events that a command stands for.
abbrev event_of : Context → Command → Event
event_of ctx cmd = record { cmd = cmd; remaining_stall = stall_of ctx cmd }

abbrev run_event : Context → Command → Event
run_event ctx cmd = record {
  cmd = nop_of cmd;
  remaining_stall = latency_of ctx.compute_latency cmd.insn_class;
}

-- The stream of events that the tunnel's commands stand for.
pub expand : Context → List Command → List Event
expand ctx [] = []
expand ctx (cmd ∷ rest) =
    if is_compute_run cmd.cmd
    then replicate (run_length cmd) (run_event ctx cmd) ++ expand ctx rest
    else event_of ctx cmd ∷ expand ctx rest

abbrev carried : Input → Event
carried inp = record { cmd = inp.run_nop; remaining_stall = inp.run_stall }

-- All that is still to come: the queue, the rest of the run in flight, and the tunnel.
abbrev pub outstanding : Context → List Event × Input → List Event
outstanding ctx (q, inp) = q ++ (replicate inp.run_remaining (carried inp) ++ expand ctx inp.tunnel)

drain_run_lem :
    (ev : Event) (q : List Event) (max n : ℕ)
    → let r = drain_run ev q max n in
      (r.0 ++ replicate r.1 ev ≡ q ++ replicate n ev)
      × (length q ≤ max → length r.0 ≤ max)
      × ((r.1 ≡ 0) ⊎ (max ≤ length r.0))
unfolding drain_run
drain_run_lem ev q max zero = (refl, (λ h. h), inl refl)
drain_run_lem ev q max (suc n) = ground (
  arith,
  drain_run_lem ev (q ++ (ev ∷ [])) max n,
  append_assoc q (ev ∷ []) (replicate n ev),
  length-append q (ev ∷ []),
)

refill_loop_lem :
    (ctx : Context) (t : List Command) (q : List Event) (inp : Input)
    → let r = refill_loop ctx q inp t in
      (outstanding ctx r ≡ q ++ (replicate inp.run_remaining (carried inp) ++ expand ctx t))
      × (length q ≤ ctx.max_queue_len → length r.0 ≤ ctx.max_queue_len)
unfolding refill_loop expand
refill_loop_lem ctx [] q inp = (refl, (λ h. h))
refill_loop_lem ctx (cmd ∷ t) q inp =
    let going : Bool = ltb (length q) ctx.max_queue_len && (inp.run_remaining == 0) in
    elim (Bool-cases going) [
      | inr stop ↦ rw stop (refl, (λ h. h))
      | inl on ↦
          let idle : inp.run_remaining ≡ 0 = ground arith in
          let none_left = ap (λ k. replicate k (carried inp)) idle in
          let ev : Event = run_event ctx cmd in
          let n : ℕ = run_length cmd in
          let one : List Event = event_of ctx cmd ∷ [] in
          elim (Bool-cases (is_compute_run cmd.cmd)) [
            | inl run ↦
                let d = drain_run_lem ev q ctx.max_queue_len n in
                let (q', left) = drain_run ev q ctx.max_queue_len n in
                let ih = refill_loop_lem ctx t q' (record inp {
                  run_nop = ev.cmd;
                  run_stall = ev.remaining_stall;
                  run_remaining = left;
                }) in
                rw (on, run)
                  (ground (
                    arith,
                    ih,
                    d,
                    none_left,
                    append_assoc q' (replicate left ev) (expand ctx t),
                    append_assoc q (replicate n ev) (expand ctx t),
                  ))
            | inr plain ↦
                let ih = refill_loop_lem ctx t (q ++ one) inp in
                rw (on, plain)
                  (ground
                    (arith, ih, none_left, append_assoc q one (expand ctx t), length-append q one))
          ]
    ]

-- A refill loses, repeats and reorders nothing: the queue, the run in flight and the tunnel stand
-- for the same stream of events before and after it, in which a compute run is so many NOPs with
-- the stall of its class. It does not fill the queue past its limit.
pub refill_conserves :
    (ctx : Context) (q : List Event) (inp : Input)
    → let r = refill ctx q inp in
      (outstanding ctx r ≡ outstanding ctx (q, inp))
      × (length q ≤ ctx.max_queue_len → length r.0 ≤ ctx.max_queue_len)
unfolding refill
refill_conserves ctx q inp =
    let ev : Event = carried inp in
    let d = drain_run_lem ev q ctx.max_queue_len inp.run_remaining in
    let (q', left) = drain_run ev q ctx.max_queue_len inp.run_remaining in
    let l = refill_loop_lem ctx inp.tunnel q' (record inp { run_remaining = left }) in
    (
      ground (
        arith,
        l,
        d,
        append_assoc q' (replicate left ev) (expand ctx inp.tunnel),
        append_assoc q (replicate inp.run_remaining ev) (expand ctx inp.tunnel),
      ),
      λ h. l.1 (d.1 h),
    )
