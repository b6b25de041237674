-- ===== src/Balar/Histories.antt =====
-- The runs of the port, as moves of the queue of posted submissions.
use quetz.Base.{
  ◌<◌, ◌^◌, ℕ, suc, ◌+◌, ◌≡◌, Bool, none, some, List, [], ◌∷◌, length, refl, arith, Ensures,
  Ensures-bind, Ensures-mono, add64, ltb,
}
use quetz.Ipc.{Command}
use quetz.Balar.State.{Config, Host, Port, has_outstanding, vcpu_has_outstanding}
use quetz.Balar.Aperture.{handle_async_aperture}
use quetz.Balar.Response.{handle_response, Event, command, tick, response, step, run}
use quetz.Balar.Queue.{stay, Moves-trans, Fits, Moves-Fits}
use quetz.Balar.Fifo.{view, process-Refines}
use quetz.Balar.Refine.{Steps, Holds, command-Steps}
use quetz.Balar.Answers.{response-Steps}

pub step-Steps :
    (c : Config) (h : Host) (v : ℕ) (e : Event) (s : Port)
    → Holds v s
    → Ensures (Steps c.async_completion_depth v s) (step c h e s)
unfolding step
step-Steps c h v (command u cmd) s i = command-Steps c h v u cmd s i
step-Steps c h v tick s i = process-Refines c.async_completion_depth c h v s i
step-Steps c h v (response id r) s i =
    Ensures-bind (λ (p : Bool × Port). Steps c.async_completion_depth v s p.1)
      (Steps c.async_completion_depth v s) (handle_response h id r s) _
      (response-Steps c.async_completion_depth h v id r s i) (λ p k. k)

-- A run of the port whose async engine belongs to one vCPU, from a port with at most one posted
-- doorbell forwarded (exactly one while it is busy, and no queue while it is not), at most one
-- that is armed or waits for flushes, and only that vCPU's: the run ends in such a port and is a
-- history of moves of the abstract queue, or ends in an error. In that queue a submission within
-- the depth goes to the end, the first in line starts when nothing runs, and what runs completes.
pub run-refines_queue :
    (c : Config) (v : ℕ) (es : List (Host × Event)) (s : Port)
    → Holds v s
    → Ensures (Steps c.async_completion_depth v s) (run c es s)
unfolding run
run-refines_queue c v [] s i = (i, stay refl)
run-refines_queue c v ((h, e) ∷ es) s i =
    Ensures-bind (Steps c.async_completion_depth v s) (Steps c.async_completion_depth v s)
      (step c h e s) (λ s'. run c es s') (step-Steps c h v e s i)
      (λ s' r.
        Ensures-mono (Steps c.async_completion_depth v s') (Steps c.async_completion_depth v s)
          (run c es s') (run-refines_queue c v es s' r.0) (λ s'' q. (q.0, Moves-trans r.1 q.1)))

-- The posted submissions that have not completed.
abbrev pub outstanding : ℕ → Port → ℕ
outstanding v s = let q = view v s.armed_doorbells s in length q.running + length q.waiting

-- A run of the port as in the refinement, with a depth below 2^32 - 1 and where the count in
-- flight is that of the posted submissions not completed, is within the depth, and is the
-- difference of the ticket and the completed register modulo 2^64. It is so after the run too,
-- hasOutstanding says whether a submission is left, and vcpuHasOutstanding compares the two
-- registers, unless the run ends in an error.
pub run-counts :
    (c : Config) (v : ℕ) (es : List (Host × Event)) (s : Port)
    → suc c.async_completion_depth < 2 ^ 32
    → Holds v s
    → Fits c.async_completion_depth (view v s.armed_doorbells s)
    → Ensures
        (λ s'.
          Fits c.async_completion_depth (view v s'.armed_doorbells s')
          × (has_outstanding s' ≡ ltb 0 (outstanding v s'))
          × (vcpu_has_outstanding v s'
              ≡ ltb (s'.completed_id v) (add64 (s'.completed_id v) (outstanding v s'))))
        (run c es s)
unfolding has_outstanding vcpu_has_outstanding
run-counts c v es s d i f =
    Ensures-mono (Steps c.async_completion_depth v s) _ (run c es s) (run-refines_queue c v es s i)
      (λ s' r.
        let g = Moves-Fits c.async_completion_depth _ _ d f r.1 in
        (g, ground (arith, g), ground (arith, g)))

-- The first access of the aperture by `v`, of a port that no vCPU has used, is that of a port whose
-- engine is `v`'s.
pub first_access :
    (c : Config) (h : Host) (v : ℕ) (cmd : Command) (s : Port)
    → s.async_vcpu ≡ none
    → handle_async_aperture c h v cmd s
      ≡ handle_async_aperture c h v cmd (record s { async_vcpu = some v })
unfolding handle_async_aperture
first_access c h v cmd s e = ground (arith, e)
