-- ===== src/Gpu/Tickets.antt =====
-- The tickets of the latency model: the doorbells that have retired, the one that runs, and those in
-- the queue.
use quetz.Base.{
  ℕ, ◌+◌, ◌%◌, ◌^◌, ◌≤◌, ◌<◌, ◌≡◌, ◌≢◌, Bool, true, false, none, List, [], ◌∷◌, ◌++◌, ltb, ◌==◌,
  if◌then◌else◌, length, add64, Bool-cases, inl, inr, arith, ◌||◌, subst,
}
use quetz.Gpu.State.{
  Gpu, idle, is_busy, emit_irq_event, update_primary_hold, raise_irq_on_retire, ack_irq,
}
use quetz.Gpu.Retire.{start_kernel, start_queued, release_deferred, retire_if_ready}
use quetz.Gpu.Mmio.{max_pending_launches}

abbrev pub short : ℕ
short = 2 ^ 63

pub data AllShort : List ℕ → Type 0 where
  nil : AllShort []
  cons : {l : ℕ} {ls : List ℕ} → l < short → AllShort ls → AllShort (l ∷ ls)

pub short-append : (ls : List ℕ) (l : ℕ) → AllShort ls → l < short → AllShort (ls ++ (l ∷ []))
short-append [] l h k = cons k nil
short-append (x ∷ ls) l (cons h hs) k = cons h (short-append ls l hs k)

short-split : {l : ℕ} {ls : List ℕ} → AllShort (l ∷ ls) → l < short × AllShort ls
short-split (cons h hs) = (h, hs)

-- The doorbells that were accepted and have not retired.
abbrev pub in_flight : Gpu → ℕ
in_flight d = (if is_busy d then 1 else 0) + length d.pending_latencies

-- What the functions read and write of a device in the latency model, for `n` unretired doorbells.
pub record Core (n : ℕ) (d : Gpu) : Type 0 where
  pub no_kernel : d.kernel ≡ none
  pub no_op : d.op_phase ≡ idle
  pub no_transfer : d.op_dma_outstanding ≡ 0
  pub tickets : d.submit_id ≡ (d.kernel_id + n) % 2 ^ 64
  pub queue : length d.pending_latencies ≤ max_pending_launches
  pub held : d.deferred_doorbell_resp ≡ true → d.busy_until_clk ≢ 0
  pub latency : d.kernel_latency < short
  pub override : d.latency_override < short
  pub pending : AllShort d.pending_latencies

-- Every accepted doorbell has retired, runs, or waits, at most eight wait, and none waits while the
-- device is free; a held response waits for a kernel that runs.
pub record Inv (d : Gpu) : Type 0 where
  pub core : Core (in_flight d) d
  pub served : d.busy_until_clk ≡ 0 → length d.pending_latencies ≡ 0

raise-Core : (n : ℕ) (d : Gpu) → Core n d → Core n (raise_irq_on_retire d)
unfolding raise_irq_on_retire emit_irq_event
raise-Core n d c = ground arith

pub raise-fields :
    (d : Gpu)
    → (raise_irq_on_retire d).busy_until_clk ≡ d.busy_until_clk
      × (raise_irq_on_retire d).pending_latencies ≡ d.pending_latencies
      × (raise_irq_on_retire d).gpu_clk ≡ d.gpu_clk
unfolding raise_irq_on_retire emit_irq_event
raise-fields d = ground arith

pub ack-Core : (n : ℕ) (d : Gpu) (consume : ℕ) → Core n d → Core n (ack_irq d consume)
unfolding ack_irq emit_irq_event
ack-Core n d consume c = ground arith

pub ack-fields :
    (d : Gpu) (consume : ℕ)
    → (ack_irq d consume).busy_until_clk ≡ d.busy_until_clk
      × (ack_irq d consume).pending_latencies ≡ d.pending_latencies
      × (ack_irq d consume).gpu_clk ≡ d.gpu_clk
unfolding ack_irq emit_irq_event
ack-fields d consume = ground arith

pub hold-fields :
    (d : Gpu) (allow : Bool)
    → (update_primary_hold d allow).busy_until_clk ≡ d.busy_until_clk
      × (update_primary_hold d allow).pending_latencies ≡ d.pending_latencies
      × (update_primary_hold d allow).gpu_clk ≡ d.gpu_clk
unfolding update_primary_hold
hold-fields d allow = ground arith

pub release-fields :
    (d : Gpu)
    → (release_deferred d).busy_until_clk ≡ d.busy_until_clk
      × (release_deferred d).pending_latencies ≡ d.pending_latencies
      × (release_deferred d).gpu_clk ≡ d.gpu_clk
      × (release_deferred d).deferred_doorbell_resp ≡ false
unfolding release_deferred
release-fields d = ground arith

-- A kernel that starts on a free device is one more doorbell in flight: it runs, or has retired.
pub start-Inv :
    (d : Gpu) (now l : ℕ)
    → Core (1 + length d.pending_latencies) d
    → d.busy_until_clk ≡ 0
    → now < short
    → l < short
    → Core (in_flight (start_kernel d now l)) (start_kernel d now l)
      × (start_kernel d now l).pending_latencies ≡ d.pending_latencies
      × (start_kernel d now l).gpu_clk ≡ d.gpu_clk
unfolding start_kernel update_primary_hold raise_irq_on_retire emit_irq_event
start-Inv d now l c free h k = ground arith

queued-Inv :
    (d : Gpu) (now : ℕ) (ls : List ℕ)
    → Core (in_flight (record d { pending_latencies = ls })) (record d { pending_latencies = ls })
    → now < short
    → Inv (start_queued d now ls) × (start_queued d now ls).gpu_clk ≡ d.gpu_clk
unfolding start_queued
queued-Inv d now [] c h = ground arith
queued-Inv d now (l ∷ ls) c h = elim (Bool-cases (d.busy_until_clk == 0)) [
  | inl free ↦
      let s =
        start-Inv (record d { pending_latencies = ls }) now l
          (ground (arith, short-split c.pending)) (ground arith) h (short-split c.pending).0 in
      ground (
        arith,
        s,
        queued-Inv (start_kernel (record d { pending_latencies = ls }) now l) now ls
            (ground (arith, s, short-split c.pending)) h,
      )
  | inr busy ↦ ground arith
]

freed-Core :
    (d : Gpu)
    → Core (1 + length d.pending_latencies) d
    → Core
        (length d.pending_latencies)
        (release_deferred (record d { kernel_id = add64 d.kernel_id 1; busy_until_clk = 0 }))
unfolding release_deferred
freed-Core d c = ground arith

-- The device once its kernel has retired, before the queue is served.
abbrev retired : Gpu → Gpu
retired d =
    raise_irq_on_retire
      (release_deferred (record d { kernel_id = add64 d.kernel_id 1; busy_until_clk = 0 }))

retired-Core :
    (d : Gpu)
    → Core (1 + length d.pending_latencies) d
    → Core (in_flight (retired d)) (retired d) × (retired d).gpu_clk ≡ d.gpu_clk
retired-Core d c =
    let freed =
      release_deferred (record d { kernel_id = add64 d.kernel_id 1; busy_until_clk = 0 }) in
    let core = raise-Core (length d.pending_latencies) freed (freed-Core d c) in
    let released =
      release-fields (record d { kernel_id = add64 d.kernel_id 1; busy_until_clk = 0 }) in
    let raised = raise-fields freed in
    (
      subst (λ n. Core n (raise_irq_on_retire freed)) (ground (arith, released, raised)) core,
      ground (arith, released, raised),
    )

pub retire-Inv :
    (d : Gpu) (now : ℕ)
    → Inv d
    → now < short
    → Inv (retire_if_ready d now) × (retire_if_ready d now).gpu_clk ≡ d.gpu_clk
unfolding retire_if_ready
retire-Inv d now inv h = elim (Bool-cases ((d.busy_until_clk == 0) || ltb now d.busy_until_clk)) [
  | inl early ↦ ground (arith, early)
  | inr due ↦
      let r = retired-Core d (ground (arith, inv.core, due)) in
      ground (arith, r, queued-Inv (retired d) now (retired d).pending_latencies r.0 h)
]
