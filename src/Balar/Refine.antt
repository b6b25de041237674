-- ===== src/Balar/Refine.antt =====
-- The calls that the CPU makes of the port, as moves of the queue of posted submissions.
use quetz.Base.{
  ℕ, ◌≡◌, true, not, ◌||◌, some, [], ◌==◌, refl, arith, if◌then◌else◌, Bool-cases, inl, inr,
  Ensures, Ensures-if, Ensures-guard, Ensures-guard_false, Outcome, ok, err, fatal, append-nil, sym,
  subst, add32, sub64, ltb,
}
use quetz.Ipc.{
  ShmemCmd, nop, read, write, exit, mmio_read_req, mmio_write_req, compute_run, cache_op, Command,
}
use quetz.Base.Tables.{has_key}
use quetz.Balar.Tagged.{marked_nil}
use quetz.Balar.State.{Config, Host, FlushCtx, Armed, Port, ack_if, in_async}
use quetz.Balar.Doorbell.{forward_doorbell}
use quetz.Balar.Aperture.{
  by_kind, async_read, async_submit, async_access, handle_async_aperture, ring_doorbell,
  forward_read, handle_command, submitted, async_reg_submit,
}
use quetz.Balar.Queue.{submits, stay, move}
use quetz.Balar.Fifo.{flushing, armed, view, Inv, Refines}

-- The port refines the queue across a step.
abbrev pub Steps : ℕ → ℕ → Port → Port → Type 0
Steps d v s s' = Refines d v s'.armed_doorbells (view v s.armed_doorbells s) s'

abbrev pub Holds : ℕ → Port → Type 0
Holds v s = Inv v s.armed_doorbells s

submit-Steps :
    (c : Config) (h : Host) (v : ℕ) (cmd : Command) (s : Port)
    → Holds v s
    → Ensures (Steps c.async_completion_depth v s) (async_submit c h v cmd s)
unfolding async_submit
submit-Steps c h v cmd s i =
    Ensures-guard (Steps c.async_completion_depth v s) (c.doorbell_addr == 0 || not (h.has_mem v))
      fatal _
      (Ensures-guard_false (Steps c.async_completion_depth v s)
        (ltb c.async_completion_depth (add32 s.async_in_flight 1)) fatal _
        (λ room.
          Ensures-guard_false (Steps c.async_completion_depth v s)
            (has_key v s.armed_doorbells || has_key v s.doorbell_flushes) fatal _
            (λ k.
              let na : armed s.armed_doorbells ≡ [] =
                marked_nil (λ (a : Armed). a.is_async) (λ (u : ℕ) (a : Armed). a.req) v
                  s.armed_doorbells i.by_armed (ground (arith, k)) in
              let nf : flushing s.doorbell_flushes ≡ [] =
                marked_nil (λ (a : FlushCtx). a.is_async) (λ (u : ℕ) (a : FlushCtx). a.doorbell) v
                  s.doorbell_flushes i.by_flushing (ground (arith, k)) in
              (
                ground (arith, i, na, nf),
                move (submits (submitted c cmd s.next_id) (ground (arith, room)) refl)
                    (stay (ground (arith, na, nf, append-nil (s.submit_queue v)))),
              ))))

by_kind-Ensures :
    (P : Port → Type 0) (k : ShmemCmd) (r w : Outcome Port) (s : Port)
    → Ensures P r
    → Ensures P w
    → P s
    → Ensures P (by_kind k r w s)
unfolding by_kind
by_kind-Ensures P mmio_read_req r w s hr hw hs = hr
by_kind-Ensures P mmio_write_req r w s hr hw hs = hw
by_kind-Ensures P nop r w s hr hw hs = hs
by_kind-Ensures P read r w s hr hw hs = hs
by_kind-Ensures P write r w s hr hw hs = hs
by_kind-Ensures P exit r w s hr hw hs = hs
by_kind-Ensures P compute_run r w s hr hw hs = hs
by_kind-Ensures P cache_op r w s hr hw hs = hs

access-Steps :
    (c : Config) (h : Host) (v : ℕ) (cmd : Command) (s : Port)
    → Holds v s
    → Ensures (Steps c.async_completion_depth v s) (async_access c h v cmd s)
unfolding async_access async_read ack_if
access-Steps c h v cmd s i =
    let off = sub64 cmd.addr c.async_doorbell_addr in
    by_kind-Ensures (Steps c.async_completion_depth v s) cmd.cmd (ok (async_read v off s)) _ s
      (ground (arith, i), stay refl)
      (Ensures-if (Steps c.async_completion_depth v s) (off == async_reg_submit)
        (async_submit c h v cmd s) (ok (ack_if true v s)) (submit-Steps c h v cmd s i)
        (ground (arith, i), stay refl))
      (i, stay refl)

owned_aperture :
    (c : Config) (h : Host) (v u : ℕ) (cmd : Command) (s : Port)
    → s.async_vcpu ≡ some v
    → handle_async_aperture c h u cmd s ≡ (if u == v then async_access c h u cmd s else err fatal)
unfolding handle_async_aperture
owned_aperture c h v u cmd s o = ground (arith, o)

aperture-Steps :
    (c : Config) (h : Host) (v u : ℕ) (cmd : Command) (s : Port)
    → Holds v s
    → Ensures (Steps c.async_completion_depth v s) (handle_async_aperture c h u cmd s)
aperture-Steps c h v u cmd s i =
    subst (λ m. Ensures (Steps c.async_completion_depth v s) m)
      (sym (owned_aperture c h v u cmd s i.owner))
      (elim (Bool-cases (u == v)) [
        | inl e ↦
            let q : v ≡ u = ground (arith, e) in
            rw e (
              subst (λ x. Ensures (Steps c.async_completion_depth v s) (async_access c h x cmd s)) q
                (access-Steps c h v cmd s i))
        | inr e ↦ rw e tt
      ])

ring-Steps :
    (c : Config) (h : Host) (v u : ℕ) (cmd : Command) (s : Port)
    → Holds v s
    → Ensures (Steps c.async_completion_depth v s) (ring_doorbell c h u cmd s)
unfolding ring_doorbell forward_doorbell ack_if
ring-Steps c h v u cmd s i =
    Ensures-if (Steps c.async_completion_depth v s)
      (not (h.has_mem u) || (not c.flush_enabled || c.packet_flush_bytes == 0)) _ _
      (ground (arith, i), stay refl)
      (Ensures-guard (Steps c.async_completion_depth v s) (has_key u s.armed_doorbells) fatal _
        (ground (arith, i), stay refl))

pub command-Steps :
    (c : Config) (h : Host) (v u : ℕ) (cmd : Command) (s : Port)
    → Holds v s
    → Ensures (Steps c.async_completion_depth v s) (handle_command c h u cmd s)
unfolding handle_command forward_read
command-Steps c h v u cmd s i =
    Ensures-if (Steps c.async_completion_depth v s) (in_async c cmd.addr)
      (handle_async_aperture c h u cmd s) _ (aperture-Steps c h v u cmd s i)
      (by_kind-Ensures (Steps c.async_completion_depth v s) cmd.cmd (ok (forward_read u cmd s))
        (ring_doorbell c h u cmd s) s (ground (arith, i), stay refl) (ring-Steps c h v u cmd s i)
        (i, stay refl))
