-- ===== src/CoreStats.antt =====
-- src/quetz_stats.h: the statistics of one core. A statistic collects the samples that addData gives
-- it; the model keeps the samples of all statistics in one log, newest first.
use quetz.Base.{ℕ, List, ◌∷◌}

-- QuetzCoreStats, a constructor for each field.
pub data Stat : Type 0 where
  read_reqs write_reqs mmio_read_reqs mmio_write_reqs read_lat write_lat mmio_read_lat
        mmio_write_lat mmio_truncated_writes cached_truncated_writes mmio_doorbell_flushes
        mmio_doorbell_flush_cycles async_submits async_completions async_overlap_cycles
        read_req_sizes write_req_sizes split_reads split_writes noop_count insn_count cycles
        active_cycles filtered_reads filtered_writes gpu_doorbell_writes gpu_status_polls
        gpu_other_reads gpu_other_writes stall_cycles compute_stall_cycles int_compute fp_compute
        vec_compute branch :
      Stat

abbrev pub CoreStats : Type 0
CoreStats = List (Stat × ℕ)

-- Statistic::addData
abbrev pub add_data : Stat → ℕ → CoreStats → CoreStats
add_data stat n log = (stat, n) ∷ log
