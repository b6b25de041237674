-- ===== src/Balar/Errors.antt =====
-- The guards of a SUBMIT, each with the call of fatal() that it makes.
use quetz.Base.{
  ◌∙◌, ℕ, ◌+◌, ◌≡◌, ◌≢◌, ◌≤◌, true, false, not, ◌||◌, some, ◌∷◌, ◌==◌, arith, if◌then◌else◌,
  Bool-cases, inl, inr, ok, err, fatal, add32, add64, sub64, ltb, ◌⊎◌,
}
use quetz.Ipc.{mmio_write_req, Command}
use quetz.Base.Tables.{has_key, update}
use quetz.Balar.State.{Config, Host, Port, record_async_submit, in_async}
use quetz.Balar.Aperture.{
  async_submit, async_access, by_kind, handle_async_aperture, handle_command, submitted,
  async_reg_submit,
}

-- What a SUBMIT needs.
pub record MaySubmit (c : Config) (h : Host) (vcpu : ℕ) (s : Port) : Type 0 where
  pub owned : s.async_vcpu ≡ some vcpu
  pub doorbell : c.doorbell_addr ≢ 0
  pub cache : h.has_mem vcpu ≡ true
  pub room : add32 s.async_in_flight 1 ≤ c.async_completion_depth
  pub unarmed : has_key vcpu s.armed_doorbells ≡ false
  pub unflushed : has_key vcpu s.doorbell_flushes ≡ false

-- The port once a SUBMIT is taken.
abbrev pub posted : Config → ℕ → Command → Port → Port
posted c vcpu cmd s = record s {
  submit_id = update vcpu (add64 (s.submit_id vcpu) 1) s.submit_id;
  async_in_flight = add32 s.async_in_flight 1;
  next_id = s.next_id + 1;
  armed_doorbells =
      (vcpu, record { req = submitted c cmd s.next_id; is_async = true; pre_acked = false })
      ∷ s.armed_doorbells;
  log = record_async_submit vcpu ∷ s.log;
}

submit_write :
    (c : Config) (h : Host) (vcpu owner : ℕ) (cmd : Command) (s : Port)
    → in_async c cmd.addr ≡ true
    → cmd.cmd ≡ mmio_write_req
    → sub64 cmd.addr c.async_doorbell_addr ≡ async_reg_submit
    → s.async_vcpu ≡ some owner
    → handle_command c h vcpu cmd s
      ≡ (if vcpu == owner then async_submit c h vcpu cmd s else err fatal)
unfolding handle_command handle_async_aperture async_access by_kind
submit_write c h vcpu owner cmd s a w z o = ground (arith, a, w, z, o)

-- Either all guards of a SUBMIT hold and it is taken, or one fails.
submit_cases :
    (c : Config) (h : Host) (vcpu : ℕ) (cmd : Command) (s : Port)
    → s.async_vcpu ≡ some vcpu
    → (MaySubmit c h vcpu s × (async_submit c h vcpu cmd s ≡ ok (posted c vcpu cmd s)))
      ⊎ ((¬ (MaySubmit c h vcpu s)) × (async_submit c h vcpu cmd s ≡ err fatal))
unfolding async_submit
submit_cases c h vcpu cmd s o = elim (Bool-cases (c.doorbell_addr == 0 || not (h.has_mem vcpu))) [
  | inl b ↦ inr ((λ m. ground (arith, m, b)), ground (arith, b))
  | inr b ↦ elim (Bool-cases (ltb c.async_completion_depth (add32 s.async_in_flight 1))) [
    | inl r ↦ inr ((λ m. ground (arith, m, r)), ground (arith, b, r))
    | inr r ↦
        elim (Bool-cases (has_key vcpu s.armed_doorbells || has_key vcpu s.doorbell_flushes)) [
          | inl k ↦ inr ((λ m. ground (arith, m, k)), ground (arith, b, r, k))
          | inr k ↦ inl (ground (arith, o, b, r, k), ground (arith, b, r, k))
        ]
  ]
]

-- A write to SUBMIT in the aperture of a port that a vCPU has claimed either finds the writer to
-- be that vCPU, a doorbell address, a cache link, room within the depth, and no doorbell of the
-- vCPU armed or waiting for flushes, and then it is counted and armed; or one of these fails, and
-- it ends in fatal().
pub submit_guarded :
    (c : Config) (h : Host) (vcpu owner : ℕ) (cmd : Command) (s : Port)
    → in_async c cmd.addr ≡ true
    → cmd.cmd ≡ mmio_write_req
    → sub64 cmd.addr c.async_doorbell_addr ≡ async_reg_submit
    → s.async_vcpu ≡ some owner
    → (MaySubmit c h vcpu s × (handle_command c h vcpu cmd s ≡ ok (posted c vcpu cmd s)))
      ⊎ ((¬ (MaySubmit c h vcpu s)) × (handle_command c h vcpu cmd s ≡ err fatal))
submit_guarded c h vcpu owner cmd s a w z o =
    let e = submit_write c h vcpu owner cmd s a w z o in
    elim (Bool-cases (vcpu == owner)) [
      | inl q ↦
          let f : handle_command c h vcpu cmd s ≡ async_submit c h vcpu cmd s =
            ground (arith, e, q) in
          elim (submit_cases c h vcpu cmd s (ground (arith, o, q))) [
            | inl k ↦ inl (k.0, f ∙ k.1)
            | inr k ↦ inr (k.0, f ∙ k.1)
          ]
      | inr q ↦ inr ((λ m. ground (arith, m.owned, o, q)), ground (arith, e, q))
    ]
