-- ===== src/Balar/Response.antt =====
-- handleResponse: the answers to flushes and to what was forwarded, and the steps of the port.
use quetz.Base.{
  ℕ, ◌-◌, Bool, true, false, none, some, List, [], ◌∷◌, ◌==◌, ltb, if◌then◌else◌, add64, sub64,
  data_to_u64, Outcome, ok, err, fatal, ◌>>=◌,
}
use quetz.Ipc.{Command}
use quetz.Base.Tables.{find, erase, update}
use quetz.Balar.State.{
  Config, Host, Doorbell, post_response, record_doorbell_flush_cycles, record_async_completion,
  Forward, FlushCtx, Port,
}
use quetz.Balar.Doorbell.{forward_doorbell, process}
use quetz.Balar.Aperture.{handle_command}

-- The responses of the memory system that the port tells apart.
pub data Response : Type 0 where
  read_resp : List ℕ → Response
  write_resp flush_resp : Response

-- handleResponse: the last flush of a doorbell is answered.
unfoldable pub end_flush : Host → ℕ → FlushCtx → Port → Port
end_flush h vcpu ctx s = forward_doorbell vcpu ctx.doorbell ctx.is_async ctx.pre_acked (record s {
  doorbell_flushes = erase vcpu s.doorbell_flushes;
  log = record_doorbell_flush_cycles vcpu (sub64 h.cycles ctx.start_cycle) ∷ s.log;
})

-- handleResponse, a flush
unfoldable pub count_flush : Host → ℕ → FlushCtx → Port → Port
count_flush h vcpu ctx s = if ctx.remaining - 1 == 0 then end_flush h vcpu ctx s else record s {
  doorbell_flushes =
      (vcpu, record ctx { remaining = ctx.remaining - 1 }) ∷ erase vcpu s.doorbell_flushes;
}

unfoldable pub take_flush : Host → ℕ → FlushCtx → Response → Port → Outcome Port
take_flush h vcpu ctx flush_resp s = ok (count_flush h vcpu ctx s)
take_flush h vcpu ctx (read_resp bytes) s = err fatal
take_flush h vcpu ctx write_resp s = err fatal

unfoldable pub on_flush : Host → ℕ → Response → Port → Outcome Port
on_flush h vcpu resp s = elim (find vcpu s.doorbell_flushes) [
  | none ↦ err fatal
  | some ctx ↦ take_flush h vcpu ctx resp s
]

-- The head of a vCPU's queue, if any, is forwarded.
unfoldable pub dispatch_next : ℕ → List Doorbell → Port → Port
dispatch_next vcpu [] s = s
dispatch_next vcpu (next ∷ rest) s =
    forward_doorbell vcpu next true true
      (record s { submit_queue = update vcpu rest s.submit_queue })

-- handleResponse, a posted operation retires
unfoldable pub retire : ℕ → ℕ → Port → Port
retire vcpu value s = dispatch_next vcpu (s.submit_queue vcpu) (record s {
  completed_id = update vcpu (add64 (s.completed_id vcpu) 1) s.completed_id;
  last_result = update vcpu value s.last_result;
  async_in_flight = if ltb 0 s.async_in_flight then s.async_in_flight - 1 else s.async_in_flight;
  async_busy = update vcpu false s.async_busy;
  log = record_async_completion vcpu ∷ s.log;
})

-- The value of a response to what was forwarded.
unfoldable pub response_value : Forward → Response → ℕ
response_value p (read_resp bytes) = if p.is_read then data_to_u64 bytes else 0
response_value p write_resp = 0
response_value p flush_resp = 0

unfoldable pub on_forwarded : Forward → Response → Port → Port
on_forwarded p resp s =
    if p.is_async
    then retire p.vcpu (response_value p resp) s
    else record s { log = post_response p.vcpu (response_value p resp) ∷ s.log }

-- handleResponse: whether the response was the port's, and the port.
unfoldable pub handle_response : Host → ℕ → Response → Port → Outcome (Bool × Port)
handle_response h id resp s = elim (find id s.flush_to_vcpu) [
  | some vcpu ↦
      on_flush h vcpu resp (record s { flush_to_vcpu = erase id s.flush_to_vcpu })
      >>= (λ s'. ok (true, s'))
  | none ↦ elim (find id s.pending) [
    | none ↦ ok (false, s)
    | some p ↦ ok (true, on_forwarded p resp (record s { pending = erase id s.pending }))
  ]
]

-- The calls that the CPU makes of the port.
pub data Event : Type 0 where
  command : ℕ → Command → Event
  tick : Event
  response : ℕ → Response → Event

unfoldable pub step : Config → Host → Event → Port → Outcome Port
step c h (command vcpu cmd) s = handle_command c h vcpu cmd s
step c h tick s = process c h s
step c h (response id resp) s = handle_response h id resp s >>= (λ p. ok (p.1))

-- A run of calls, each with what the host is then.
unfoldable pub run : Config → List (Host × Event) → Port → Outcome Port
run c [] s = ok s
run c ((h, e) ∷ es) s = step c h e s >>= (λ s'. run c es s')
