-- ===== src/Region/Examples.antt =====
-- A table of a UART and a test finisher.
use quetz.Base.{ℕ, ◌≡◌, ◌⊎◌, inr, refl, false, none, some, [], ◌∷◌, ◌++◌, set, arith, if◌then◌else◌}
use quetz.Ipc.{Command, ShmemCmd}
use quetz.Region.{
  Handler, uart, test_finisher, GpuTrace, Policy, consume, forward, dispatch, handle_memory_access,
}
use quetz.Region.Table.{Unowned, FirstOwner, handle_memory_access_owner}
use quetz.Region.Log.{record_all, last_of, record_all-last_of}

abbrev console : Handler
console = record {
  start = 4096;
  end_addr = 4351;
  kind = uart (record { tx_offset = 0; tx_buf = [] });
}

abbrev finisher : Handler
finisher = record {
  start = 8192;
  end_addr = 8195;
  kind = test_finisher (record { pass_value = 21845; wrote = false; last_value = 0 });
}

abbrev policy : Policy
policy = record { handlers = some console ∷ none ∷ some finisher ∷ []; filter_unmatched = false }

abbrev store : Command
store = record {
  cmd = ShmemCmd.write;
  size = 4;
  pc = 0;
  addr = 8192;
  insn_class = 0;
  payload = 85 ∷ 85 ∷ 0 ∷ 0 ∷ [];
}

handle_memory_access_owner_example :
    (Unowned policy.handlers 8192
      × ((handle_memory_access policy store []).0 ≡ policy)
      × ((handle_memory_access policy store []).2
          ≡ (if policy.filter_unmatched then consume else forward)))
    ⊎ ((i : ℕ) × (h : Handler) × FirstOwner policy.handlers 8192 i h
        × ((handle_memory_access policy store []).2 ≡ (dispatch h store []).2)
        × ((handle_memory_access policy store []).1 ≡ (dispatch h store []).1)
        × ((handle_memory_access policy store []).0.handlers
            ≡ set policy.handlers i (some (dispatch h store []).0))
        × ((handle_memory_access policy store []).0.filter_unmatched ≡ policy.filter_unmatched))
handle_memory_access_owner_example = handle_memory_access_owner policy store [] (inr refl)

abbrev trace : GpuTrace
trace = record {
  doorbell_offset = 0;
  status_offset = 8;
  max_payload_log = 2;
  doorbell_count = 0;
  poll_count = 0;
  recent = 1 ∷ [];
}

record_all-last_of_example :
    (record_all trace (2 ∷ 3 ∷ [])).recent ≡ last_of 2 ((1 ∷ []) ++ (2 ∷ 3 ∷ []))
record_all-last_of_example = record_all-last_of (2 ∷ 3 ∷ []) trace (omega arith)

-- Of the payloads 1, 2 and 3, the log of two keeps the last two.
two_kept : last_of 2 (1 ∷ 2 ∷ 3 ∷ []) ≡ 2 ∷ 3 ∷ []
two_kept = refl
