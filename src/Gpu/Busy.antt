-- ===== src/Gpu/Busy.antt =====
-- The busy time of a kernel in the latency model: its end, counted in cycles of the device's clock.
use quetz.Base.{ℕ, zero, suc, ◌+◌, ◌≤◌, ◌<◌, ◌≡◌, Bool, true, false, none, [], add64, arith}
use quetz.Gpu.State.{Gpu, is_busy, emit_irq_event, update_primary_hold, raise_irq_on_retire}
use quetz.Gpu.Retire.{start_queued, release_deferred, retire_if_ready}
use quetz.Gpu.Device.{tick_busy, count_cycle}
use quetz.Gpu.Tickets.{short, raise-fields, release-fields, hold-fields}

-- `n` cycles of the clock.
pub cycles : ℕ → Gpu → Gpu
cycles zero d = d
cycles (suc n) d = cycles n (tick_busy d)

-- A device that runs a kernel until the clock reads `gpu_clk + n`, with nothing behind it.
pub record Runs (n : ℕ) (d : Gpu) : Type 0 where
  pub no_kernel : d.kernel ≡ none
  pub until : d.busy_until_clk ≡ d.gpu_clk + n
  pub some_time : 0 < n
  pub in_time : d.gpu_clk + n < short
  pub nothing_queued : d.pending_latencies ≡ []

-- A cycle before the last one.
early-Runs :
    (n : ℕ) (d : Gpu)
    → Runs (suc (suc n)) d
    → Runs (suc n) (tick_busy d)
      × (tick_busy d).kernel_id ≡ d.kernel_id
      × (tick_busy d).irq_events ≡ d.irq_events
unfolding tick_busy retire_if_ready count_cycle update_primary_hold
early-Runs n d r = ground (arith, r)

raise-ids : (d : Gpu) → (raise_irq_on_retire d).kernel_id ≡ d.kernel_id
unfolding raise_irq_on_retire emit_irq_event
raise-ids d = ground arith

release-ids : (d : Gpu) → (release_deferred d).kernel_id ≡ d.kernel_id
unfolding release_deferred
release-ids d = ground arith

hold-ids : (d : Gpu) (allow : Bool) → (update_primary_hold d allow).kernel_id ≡ d.kernel_id
unfolding update_primary_hold
hold-ids d allow = ground arith

count-fields :
    (d : Gpu)
    → (count_cycle d).kernel ≡ d.kernel
      × (count_cycle d).gpu_clk ≡ d.gpu_clk
      × (count_cycle d).busy_until_clk ≡ d.busy_until_clk
      × (count_cycle d).kernel_id ≡ d.kernel_id
      × (count_cycle d).pending_latencies ≡ d.pending_latencies
unfolding count_cycle
count-fields d = ground arith

hold-deferred :
    (d : Gpu) (allow : Bool)
    → (update_primary_hold d allow).deferred_doorbell_resp ≡ d.deferred_doorbell_resp
unfolding update_primary_hold
hold-deferred d allow = ground arith

raise-deferred :
    (d : Gpu) → (raise_irq_on_retire d).deferred_doorbell_resp ≡ d.deferred_doorbell_resp
unfolding raise_irq_on_retire emit_irq_event
raise-deferred d = ground arith

retire_due :
    (d : Gpu) (now : ℕ)
    → d.kernel ≡ none
    → d.pending_latencies ≡ []
    → 0 < d.busy_until_clk
    → d.busy_until_clk ≤ now
    → (retire_if_ready d now).kernel_id ≡ add64 d.kernel_id 1
      × is_busy (retire_if_ready d now) ≡ false
      × (retire_if_ready d now).deferred_doorbell_resp ≡ false
unfolding retire_if_ready start_queued
retire_due d now k p b h =
    let cleared = record d { kernel_id = add64 d.kernel_id 1; busy_until_clk = 0 } in
    let freed = release_deferred cleared in
    ground (
      arith,
      release-fields cleared,
      release-ids cleared,
      raise-fields freed,
      raise-ids freed,
      raise-deferred freed,
    )

last_cycle :
    (d : Gpu)
    → Runs 1 d
    → (tick_busy d).kernel_id ≡ add64 d.kernel_id 1
      × is_busy (tick_busy d) ≡ false
      × (tick_busy d).deferred_doorbell_resp ≡ false
unfolding tick_busy
last_cycle d r =
    let now = add64 d.gpu_clk 1 in
    let clocked = record d { gpu_clk = now } in
    let counted = count_cycle clocked in
    let f = count-fields clocked in
    let ready = retire_if_ready counted now in
    ground (
      arith,
      f,
      retire_due counted now (ground (arith, f, r)) (ground (arith, f, r)) (ground (arith, f, r))
          (ground (arith, f, r)),
      hold-fields ready true,
      hold-ids ready true,
      hold-deferred ready true,
    )

-- In a device without a kernel in its slot, a launch that runs with nothing queued behind it,
-- until `suc n` cycles from now, a time below 2^63, is still running after `n` cycles, with the
-- count of retired launches unchanged. The next cycle retires it: the count goes up by one, modulo
-- 2^64, the device is free, and it holds no response of a doorbell.
pub cycles-retire :
    (n : ℕ) (d : Gpu)
    → Runs (suc n) d
    → is_busy (cycles n d) ≡ true
      × (cycles n d).kernel_id ≡ d.kernel_id
      × (cycles (suc n) d).kernel_id ≡ add64 d.kernel_id 1
      × is_busy (cycles (suc n) d) ≡ false
      × (cycles (suc n) d).deferred_doorbell_resp ≡ false
unfolding cycles
cycles-retire zero d r = ground (arith, r, last_cycle d r)
cycles-retire (suc n) d r =
    let e = early-Runs n d r in ground (arith, e, cycles-retire n (tick_busy d) e.0)
