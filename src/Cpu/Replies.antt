-- ===== src/Cpu/Replies.antt =====
-- A value that a guest writes through plain MMIO, and one that it reads back, in the byte order of
-- the window (src/quetzcpu_mmio_sync.cc).
use quetz.Base.{
  ℕ, zero, suc, ◌%◌, ◌^◌, ◌≡◌, ◌≤◌, Bool, true, false, List, ◌∷◌, if◌then◌else◌, ok, refl, ◌∙◌,
  arith, take, length, take_all, ap, min, data_to_u64,
}
use quetz.Base.Tables.{find, erase}
use quetz.Ipc.{mmio_read_req, mmio_write_req, Command, cmd_data_bytes}
use quetz.Mailbox.Slot.{Request}
use quetz.Balar.State.{mmio_write, record_sync_request}
use quetz.Balar.Response.{read_resp}
use quetz.Cpu.Bytes.{pack_from, pack, big_endian}
use quetz.Cpu.Packing.{pack-reads_back}
use quetz.Cpu.Route.{
  Params, Generic, Cpu, answer, cached, window_big_endian, forward, is_write, is_cache_op,
}
use quetz.Cpu.Poll.{command_of}
use quetz.Cpu.Reply.{Arrival, generic_value, complete_generic}

length-pack_from : (be : Bool) (size v i n : ℕ) → length (pack_from be size v i n) ≡ n
unfolding pack_from
length-pack_from be size v i zero = refl
length-pack_from be size v i (suc n) = ground (arith, length-pack_from be size v (suc i) n)

window_big_endian-same :
    (p : Params) (addr : ℕ) (s t : Cpu)
    → t.bank ≡ s.bank
    → window_big_endian p addr t ≡ window_big_endian p addr s
unfolding window_big_endian cached
window_big_endian-same p addr s t e = cc

command_of-write :
    (p : Params) (w : Request) (s : Cpu) {c : Command}
    → is_write w.cmd ≡ true
    → w.size ≤ 8
    → command_of p w s ≡ ok c
    → (be : Bool) × (window_big_endian p w.addr s ≡ ok be)
      × (c.payload ≡ pack be w.size w.write_val)
      × (c.cmd ≡ mmio_write_req)
      × (c.addr ≡ w.addr)
      × (c.size ≡ w.size)
unfolding command_of is_write is_cache_op
command_of-write p w s {c} h k e = ground (arith, h, k, e)

-- The payload of the command is sent whole.
take-pack : (be : Bool) (size v : ℕ) → size ≤ 8 → take size (pack be size v) ≡ pack be size v
take-pack be size v h =
    take_all size (pack be size v)
      (ground (arith, h, length-pack_from be size v 0 (min size cmd_data_bytes)))

forward_write :
    (p : Params) (v : ℕ) (c : Command) (s : Cpu) {t : Cpu}
    → c.cmd ≡ mmio_write_req
    → forward p v c s ≡ ok (true, t)
    → (t.bank ≡ s.bank)
      × (t.log
          ≡ record_sync_request v false
            ∷ (mmio_write v
                  (record { id = s.next_id; addr = c.addr; payload = take c.size c.payload })
                ∷ s.log))
unfolding forward
forward_write p v c s {t} h e = ground (arith, h, e)

forward_read :
    (p : Params) (v : ℕ) (be : Bool) (c : Command) (t : Cpu) {u : Cpu}
    → c.cmd ≡ mmio_read_req
    → window_big_endian p c.addr t ≡ ok be
    → forward p v c t ≡ ok (true, u)
    → u.generic_pending
      ≡ (t.next_id, record { vcpu = v; is_read = true; win_be = be }) ∷ t.generic_pending
unfolding forward
forward_read p v be c t {u} h w e = ground (arith, h, w, e)

complete_generic-read :
    (a : Arrival) (v : ℕ) (be : Bool) (bytes : List ℕ) (l : List (ℕ × Generic)) (u : Cpu)
    → u.generic_pending ≡ (a.id, record { vcpu = v; is_read = true; win_be = be }) ∷ l
    → a.response ≡ read_resp bytes
    → complete_generic a u ≡ (
      true,
      answer v
          (if be then big_endian bytes else data_to_u64 bytes)
          (record u { generic_pending = l }),
    )
unfolding complete_generic generic_value find erase
complete_generic-read a v be bytes l u e r = ground (arith, e, r)

-- A guest's write of at most 8 bytes that is forwarded as plain MMIO, then a guest's read of the
-- same address, which is forwarded from the state after the write, and answered with the bytes
-- that were sent: the write sends its bytes in one request, and the read is answered, to the core
-- that made it, with the value that was written modulo 256 to the power of the size. The read is
-- then no longer open, and nothing else changes. Both are in the byte order of the window of the
-- address.
pub written_reads_back :
    (p : Params) (v v' : ℕ) (w : Request) (c : Command) (a : Arrival) (s : Cpu) {d : Command}
    {t u : Cpu}
    → is_write w.cmd ≡ true
    → w.size ≤ 8
    → command_of p w s ≡ ok d
    → forward p v d s ≡ ok (true, t)
    → c.cmd ≡ mmio_read_req
    → c.addr ≡ w.addr
    → forward p v' c t ≡ ok (true, u)
    → a.id ≡ t.next_id
    → a.response ≡ read_resp d.payload
    → (t.log
        ≡ record_sync_request v false
          ∷ (mmio_write v (record { id = s.next_id; addr = w.addr; payload = d.payload }) ∷ s.log))
      × (complete_generic a u ≡ (
        true,
        answer v' (w.write_val % 256 ^ w.size) (record u { generic_pending = t.generic_pending }),
      ))
written_reads_back p v v' w c a s {d} {t} {u} k small e f r same g i b =
    let (be, order, payload, kind, addr, size) = command_of-write p w s {c = d} k small e in
    let sent = forward_write p v d s {t = t} kind f in
    let order' : window_big_endian p c.addr t ≡ ok be =
      ap (λ x. window_big_endian p x t) same ∙ window_big_endian-same p w.addr s t sent.0 ∙ order in
    let opened = forward_read p v' be c t {u = u} r order' g in
    let whole : take d.size d.payload ≡ d.payload =
      ground (arith, size, payload, take-pack be w.size w.write_val small) in
    let value : (if be then big_endian d.payload else data_to_u64 d.payload)
        ≡ w.write_val % 256 ^ w.size =
      ground (arith, payload, pack-reads_back be w.size w.write_val small) in
    (
      ground (arith, sent.1, whole, addr),
      complete_generic-read a v' be d.payload t.generic_pending u (ground (arith, opened, i)) b
          ∙ ap (λ x. (true, answer v' x (record u { generic_pending = t.generic_pending }))) value,
    )
