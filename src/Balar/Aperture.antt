-- ===== src/Balar/Aperture.antt =====
-- handleCommand and handleAsyncAperture: the accesses of a vCPU to the port's two apertures.
use quetz.Base.{
  ℕ, ◌+◌, ◌*◌, ◌%◌, ◌^◌, min, bit_or, true, false, not, ◌||◌, none, some, List, [], ◌∷◌, ◌==◌, ltb,
  if◌then◌else◌, add64, sub64, add32, u32_mod, u64_mod, u64_to_data, take, Outcome, ok, err, fatal,
}
use quetz.Ipc.{ShmemCmd, mmio_read_req, mmio_write_req, Command, cmd_data_bytes}
use quetz.Base.Tables.{has_key, update}
use quetz.Balar.State.{
  Config, Host, Doorbell, post_response, mmio_read, record_sync_request, record_async_submit, Port,
  ack_if, in_async,
}
use quetz.Balar.Doorbell.{forward_doorbell}

-- ASYNC_REG_SUBMIT and the registers after it
abbrev pub async_reg_submit : ℕ
async_reg_submit = 0

abbrev pub async_reg_status : ℕ
async_reg_status = 8

abbrev pub async_reg_completed : ℕ
async_reg_completed = 16

abbrev pub async_reg_ticket : ℕ
async_reg_ticket = 32

abbrev pub async_reg_result : ℕ
async_reg_result = 40

-- `scratch |= (uint64_t)cmd.data[i] << (8 * i)`, from the byte `i` on. A shift by 64 or more is
-- undefined in C++; here it gives nothing.
unfoldable pub scratch_from : ℕ → List ℕ → ℕ
scratch_from i [] = 0
scratch_from i (b ∷ bs) = bit_or (b * 2 ^ (8 * i) % u64_mod) (scratch_from (i + 1) bs)

-- The value that a read of the aperture at `off` returns.
unfoldable pub async_value : ℕ → ℕ → Port → ℕ
async_value vcpu off s =
    if off == async_reg_status
    then s.async_in_flight
    else if off == async_reg_completed
    then s.completed_id vcpu
    else if off == async_reg_ticket
    then s.submit_id vcpu
    else if off == async_reg_result
    then s.last_result vcpu
    else 0

-- `cmd.size ? cmd.size : (uint32_t)doorbell_size_`
abbrev doorbell_bytes : Config → Command → ℕ
doorbell_bytes c cmd = if cmd.size == 0 then c.doorbell_size % u32_mod else cmd.size

-- The doorbell that a SUBMIT arms.
unfoldable pub submitted : Config → Command → ℕ → Doorbell
submitted c cmd id = record {
  id = id;
  addr = c.doorbell_addr;
  payload =
      u64_to_data (scratch_from 0 (take (min cmd.size cmd_data_bytes) cmd.payload))
        (doorbell_bytes c cmd);
}

-- handleAsyncAperture, a write to SUBMIT
unfoldable pub async_submit : Config → Host → ℕ → Command → Port → Outcome Port
async_submit c h vcpu cmd s =
    if c.doorbell_addr == 0 || not (h.has_mem vcpu)
    then err fatal
    else if ltb c.async_completion_depth (add32 s.async_in_flight 1)
    then err fatal
    else if has_key vcpu s.armed_doorbells || has_key vcpu s.doorbell_flushes
    then err fatal
    else ok (record s {
      submit_id = update vcpu (add64 (s.submit_id vcpu) 1) s.submit_id;
      async_in_flight = add32 s.async_in_flight 1;
      next_id = s.next_id + 1;
      armed_doorbells =
          (vcpu, record { req = submitted c cmd s.next_id; is_async = true; pre_acked = false })
          ∷ s.armed_doorbells;
      log = record_async_submit vcpu ∷ s.log;
    })

-- handleAsyncAperture, a read
unfoldable pub async_read : ℕ → ℕ → Port → Port
async_read vcpu off s = record s {
  log = record_sync_request vcpu true ∷ (post_response vcpu (async_value vcpu off s) ∷ s.log);
}

-- What a read request and a write request do; other commands do nothing.
unfoldable pub by_kind : ShmemCmd → Outcome Port → Outcome Port → Port → Outcome Port
by_kind mmio_read_req on_read on_write s = on_read
by_kind mmio_write_req on_read on_write s = on_write
by_kind other on_read on_write s = ok s

-- handleAsyncAperture, past the check of its vCPU
unfoldable pub async_access : Config → Host → ℕ → Command → Port → Outcome Port
async_access c h vcpu cmd s = by_kind cmd.cmd (ok (async_read vcpu off s)) on_write s
  where
    off : ℕ
    off = sub64 cmd.addr c.async_doorbell_addr

    on_write : Outcome Port
    on_write =
        if off == async_reg_submit then async_submit c h vcpu cmd s else ok (ack_if true vcpu s)

-- handleAsyncAperture
unfoldable pub handle_async_aperture : Config → Host → ℕ → Command → Port → Outcome Port
handle_async_aperture c h vcpu cmd s = elim (s.async_vcpu) [
  | none ↦ async_access c h vcpu cmd (record s { async_vcpu = some vcpu })
  | some owner ↦ if vcpu == owner then async_access c h vcpu cmd s else err fatal
]

-- handleCommand, a write to the doorbell
unfoldable pub ring_doorbell : Config → Host → ℕ → Command → Port → Outcome Port
ring_doorbell c h vcpu cmd s =
    if not (h.has_mem vcpu) || (not c.flush_enabled || c.packet_flush_bytes == 0)
    then ok (forward_doorbell vcpu req false false (record s { next_id = s.next_id + 1 }))
    else if has_key vcpu s.armed_doorbells
    then err fatal
    else ok (record s {
      next_id = s.next_id + 1;
      armed_doorbells =
          (vcpu, record { req = req; is_async = false; pre_acked = false }) ∷ s.armed_doorbells;
    })
  where
    req : Doorbell
    req = record { id = s.next_id; addr = cmd.addr; payload = take cmd.size cmd.payload }

-- handleCommand, a read of the doorbell's aperture
unfoldable pub forward_read : ℕ → Command → Port → Port
forward_read vcpu cmd s = record s {
  next_id = s.next_id + 1;
  pending = (s.next_id, record { vcpu = vcpu; is_read = true; is_async = false }) ∷ s.pending;
  log = record_sync_request vcpu true ∷ (mmio_read vcpu s.next_id cmd.addr cmd.size ∷ s.log);
}

-- handleCommand
unfoldable pub handle_command : Config → Host → ℕ → Command → Port → Outcome Port
handle_command c h vcpu cmd s =
    if in_async c cmd.addr
    then handle_async_aperture c h vcpu cmd s
    else by_kind cmd.cmd (ok (forward_read vcpu cmd s)) (ring_doorbell c h vcpu cmd s) s
