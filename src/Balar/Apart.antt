-- ===== src/Balar/Apart.antt =====
-- The calls of the port that leave the flushes and their contexts alone.
use quetz.Base.{
  ◌-◌, ℕ, ◌≡◌, Bool, false, none, some, List, [], ◌∷◌, arith, if◌then◌else◌, Option-cases, inl, inr,
  Ensures, add64, ltb,
}
use quetz.Base.Tables.{find, erase, update}
use quetz.Balar.State.{Forward, record_async_completion, Config, Host, Doorbell, Port, ack_if}
use quetz.Balar.Doorbell.{forward_doorbell}
use quetz.Ipc.{Command}
use quetz.Balar.Aperture.{
  by_kind, async_read, async_submit, async_access, handle_async_aperture, ring_doorbell,
  forward_read, handle_command,
}
use quetz.Balar.Response.{
  Response, dispatch_next, retire, on_forwarded, handle_response, response_value,
}

-- A command leaves both alone.
pub record Apart (s t : Port) : Type 0 where
  pub table : t.flush_to_vcpu ≡ s.flush_to_vcpu
  pub contexts : t.doorbell_flushes ≡ s.doorbell_flushes

submit-Apart :
    (c : Config) (h : Host) (u : ℕ) (cmd : Command) (s : Port)
    → Ensures (Apart s) (async_submit c h u cmd s)
unfolding async_submit
submit-Apart c h u cmd s = ground arith

access-Apart :
    (c : Config) (h : Host) (u : ℕ) (cmd : Command) (s : Port)
    → Ensures (Apart s) (async_access c h u cmd s)
unfolding async_access by_kind async_read ack_if
access-Apart c h u cmd s = ground (arith, submit-Apart c h u cmd s)

pub command-Apart :
    (c : Config) (h : Host) (u : ℕ) (cmd : Command) (s : Port)
    → Ensures (Apart s) (handle_command c h u cmd s)
unfolding handle_command handle_async_aperture by_kind forward_read ring_doorbell forward_doorbell
    ack_if
command-Apart c h u cmd s =
    ground
      (arith, access-Apart c h u cmd s, access-Apart c h u cmd (record s { async_vcpu = some u }))

dispatch-Apart : (u : ℕ) (q : List Doorbell) (s : Port) → Apart s (dispatch_next u q s)
unfolding dispatch_next forward_doorbell ack_if
dispatch-Apart u [] s = ground arith
dispatch-Apart u (w ∷ ws) s = ground arith

retire-Apart : (u value : ℕ) (s : Port) → Apart s (retire u value s)
unfolding retire
retire-Apart u value s =
    let k = dispatch-Apart u (s.submit_queue u) (record s {
      completed_id = update u (add64 (s.completed_id u) 1) s.completed_id;
      last_result = update u value s.last_result;
      async_in_flight =
          if ltb 0 s.async_in_flight then s.async_in_flight - 1 else s.async_in_flight;
      async_busy = update u false s.async_busy;
      log = record_async_completion u ∷ s.log;
    }) in
    record { table = k.table; contexts = k.contexts }

forwarded-Apart : (p : Forward) (r : Response) (s : Port) → Apart s (on_forwarded p r s)
unfolding on_forwarded
forwarded-Apart p r s = ground (arith, retire-Apart p.vcpu (response_value p r) s)

pub other-Apart :
    (h : Host) (id : ℕ) (r : Response) (s : Port)
    → find id s.flush_to_vcpu ≡ none
    → Ensures (λ (p : Bool × Port). Apart s p.1) (handle_response h id r s)
unfolding handle_response
other-Apart h id r s n = elim (Option-cases (find id s.pending)) [
  | inl e ↦ ground (arith, n, e)
  | inr (p, e) ↦
      ground (arith, n, e, forwarded-Apart p r (record s { pending = erase id s.pending }))
]
