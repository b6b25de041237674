-- ===== src/Balar/Doorbell.antt =====
-- forwardDoorbell, issueDoorbellFlushes and process: the way of a doorbell from its arming to balar.
use quetz.Base.{
  ℕ, zero, suc, ◌+◌, ◌-◌, Bool, true, false, not, ◌&&◌, none, some, List, [], ◌∷◌, ◌++◌, ◌==◌, ltb,
  if◌then◌else◌, add64, sub64, add32, u32_mod, data_to_u64, Outcome, ok, err, fatal, ◌>>=◌,
}
use quetz.Memory.{BalarFlushRange, compute_balar_flush_range, u64_max}
use quetz.Base.Tables.{has_key, update}
use quetz.Balar.State.{
  Config, Host, Doorbell, mmio_write, flush_line, record_sync_request, record_doorbell_flush, Armed,
  Port, ack_if,
}

-- forwardDoorbell
unfoldable pub forward_doorbell : ℕ → Doorbell → Bool → Bool → Port → Port
forward_doorbell vcpu req is_async pre_acked s =
    if is_async && s.async_busy vcpu
    then ack_if (not pre_acked) vcpu
        (record s { submit_queue = update vcpu (s.submit_queue vcpu ++ (req ∷ [])) s.submit_queue })
    else ack_if (is_async && not pre_acked) vcpu (record s {
      async_busy = if is_async then update vcpu true s.async_busy else s.async_busy;
      pending = (req.id, record { vcpu = vcpu; is_read = false; is_async = is_async }) ∷ s.pending;
      log = record_sync_request vcpu false ∷ (mmio_write vcpu req ∷ s.log);
    })

-- One flush of the loop of issueDoorbellFlushes.
unfoldable pub send_flush : ℕ → ℕ → ℕ → Port → Port
send_flush line_size vcpu line s = record s {
  next_id = s.next_id + 1;
  flush_to_vcpu = (s.next_id, vcpu) ∷ s.flush_to_vcpu;
  log = flush_line vcpu s.next_id line line_size ∷ (record_doorbell_flush vcpu ∷ s.log);
}

-- The loop of issueDoorbellFlushes, with as many lines to go; the result has `ctx.remaining`.
unfoldable pub send_flushes : ℕ → ℕ → ℕ → ℕ → ℕ → Port → Outcome (ℕ × Port)
send_flushes line_size vcpu zero line remaining s = ok (remaining, s)
send_flushes line_size vcpu (suc n) line remaining s =
    let rest =
      send_flushes line_size vcpu n (add64 line line_size) (add32 remaining 1)
        (send_flush line_size vcpu line s) in
    if not (n == 0) && ltb (sub64 u64_max line_size) line then err fatal else rest

-- The end of issueDoorbellFlushes: the doorbell waits for its flushes, if there are any.
unfoldable pub await_flushes : Host → ℕ → Armed → ℕ × Port → Port
await_flushes h vcpu armed (remaining, s) =
    if remaining == 0
    then forward_doorbell vcpu armed.req armed.is_async armed.pre_acked s
    else record s {
      doorbell_flushes =
          (
            vcpu,
            record {
              vcpu = vcpu;
              remaining = remaining;
              start_cycle = h.cycles;
              doorbell = armed.req;
              is_async = armed.is_async;
              pre_acked = armed.pre_acked;
            },
          )
          ∷ s.doorbell_flushes;
    }

-- `flush_enabled_ ? packet_flush_bytes_ : 0`
abbrev pub flush_bytes : Config → ℕ
flush_bytes c = if c.flush_enabled then c.packet_flush_bytes else 0

-- issueDoorbellFlushes past its check of the range.
unfoldable pub flush_range : Host → ℕ → Armed → Port → BalarFlushRange → Outcome Port
flush_range h vcpu armed s r =
    if ltb (u32_mod - 1) r.line_count
    then err fatal
    else send_flushes h.cache_line_size vcpu r.line_count r.first_line 0 s
      >>= (λ p. ok (await_flushes h vcpu armed p))

-- issueDoorbellFlushes
unfoldable pub issue_doorbell_flushes : Config → Host → ℕ → Armed → Port → Outcome Port
issue_doorbell_flushes c h vcpu armed s =
    if has_key vcpu s.doorbell_flushes
    then err fatal
    else elim (compute_balar_flush_range (data_to_u64 armed.req.payload) (flush_bytes c)
        h.cache_line_size) [ none ↦ err fatal | some r ↦ flush_range h vcpu armed s r ]

-- The loop of process, over the entries that it has not visited; `s` has those that it kept.
unfoldable pub process_loop : Config → Host → List (ℕ × Armed) → Port → Outcome Port
process_loop c h [] s = ok s
process_loop c h ((vcpu, armed) ∷ t) s =
    (if h.is_drained vcpu
      then issue_doorbell_flushes c h vcpu armed s
      else ok (record s { armed_doorbells = s.armed_doorbells ++ ((vcpu, armed) ∷ []) }))
    >>= (λ s'. process_loop c h t s')

-- process. The calls of the loop do not read the map that it walks.
unfoldable pub process : Config → Host → Port → Outcome Port
process c h s = process_loop c h s.armed_doorbells (record s { armed_doorbells = [] })
