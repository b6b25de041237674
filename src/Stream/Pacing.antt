-- ===== src/Stream/Pacing.antt =====
-- The refill clock: how many bytes a number of ticks has made available.
use quetz.Base.{
  ℕ, zero, suc, ◌+◌, ◌-◌, ◌*◌, min, ◌≡◌, ◌≢◌, sym, ap, ◌∙◌, List, length, replicate, arith,
}
use quetz.Stream.{Stream, ticks, step, run}
use quetz.Stream.Irq.{Inv, step-Inv}

budget-step :
    (d : Stream)
    → Inv d
    → d.pace_bytes ≢ 0
    → let d' = step d ticks in
      (d'.budget_given ≡ min (length d.stream) (d.budget_given + d.pace_bytes))
      × (d'.pos ≡ d.pos)
      × (d'.stream ≡ d.stream)
      × (d'.pace_bytes ≡ d.pace_bytes)
unfolding step
budget-step d v p = ground arith

-- In a paced device whose invariant holds, n refill ticks raise the budget by n times the pace, up
-- to the stream's length; the bytes available are the budget less the cursor, which the ticks do
-- not move.
pub budget-ticks :
    (n : ℕ) (d : Stream)
    → Inv d
    → d.pace_bytes ≢ 0
    → let d' = run d (replicate n ticks) in
      (d'.budget_given ≡ min (length d.stream) (d.budget_given + n * d.pace_bytes))
      × (d'.pos ≡ d.pos)
      × (d'.avail ≡ d'.budget_given - d.pos)
unfolding run
budget-ticks zero d v p = ground arith
budget-ticks (suc n) d v p =
    let f = budget-step d v p in
    ground (
      arith,
      f,
      ap (λ (t : ℕ). n * t) f.3,
      ap (λ (l : List ℕ). length l) f.2,
      budget-ticks n (step d ticks) (step-Inv d ticks v) (λ e. p (sym f.3 ∙ e)),
    )
