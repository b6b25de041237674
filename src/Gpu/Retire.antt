-- ===== src/Gpu/Retire.antt =====
-- The latency model: starting a kernel, and retiring it at the end of its busy time.
use quetz.Base.{
  ℕ, ◌+◌, Bool, true, false, ◌&&◌, ◌||◌, none, some, List, [], ◌∷◌, ltb, ◌==◌, if◌then◌else◌, add64,
}
use quetz.Gpu.State.{Gpu, is_reading, write_resp, emit, update_primary_hold, raise_irq_on_retire}
use quetz.Gpu.Op.{op_begin_writeback}

-- startKernel
unfoldable pub start_kernel : Gpu → ℕ → ℕ → Gpu
start_kernel d now latency =
    let launched = record d {
      stats = record (d.stats) { kernels_launched = d.stats.kernels_launched + 1 };
    } in
    update_primary_hold
      (if latency == 0
        then raise_irq_on_retire
            (record launched { kernel_id = add64 d.kernel_id 1; busy_until_clk = 0 })
        else record launched { busy_until_clk = add64 now latency })
      false

-- The loop of retireIfReady over the queued doorbells: it stops at the first that takes time.
unfoldable pub start_queued : Gpu → ℕ → List ℕ → Gpu
start_queued d now [] = record d { pending_latencies = [] }
start_queued d now (latency ∷ rest) =
    let next =
      start_queued (start_kernel (record d { pending_latencies = rest }) now latency) now rest in
    if d.busy_until_clk == 0 then next else record d { pending_latencies = latency ∷ rest }

abbrev pub has_kernel : Gpu → Bool
has_kernel d = elim (d.kernel) [ none ↦ false | some k ↦ true ]

-- Releases the response that a blocking doorbell holds in the latency model.
unfoldable pub release_deferred : Gpu → Gpu
release_deferred d =
    if d.deferred_doorbell_resp
    then record (emit d write_resp) { deferred_doorbell_resp = false }
    else d

-- retireIfReady
unfoldable pub retire_if_ready : Gpu → ℕ → Gpu
retire_if_ready d now =
    if (d.busy_until_clk == 0) || ltb now d.busy_until_clk
    then d
    else if has_kernel d && is_reading d.op_phase
    then op_begin_writeback (record d { busy_until_clk = 0 })
    else (let retired =
          raise_irq_on_retire
            (release_deferred (record d { kernel_id = add64 d.kernel_id 1; busy_until_clk = 0 })) in
        start_queued retired now retired.pending_latencies)
