-- ===== src/Balar/Examples.antt =====
-- A port with a posted submission of vCPU 3 whose packet is two lines of 64 bytes.
use quetz.Base.{
  ◌*◌, ◌<◌, ◌^◌, ◌+◌, ◌≡◌, ◌≤◌, true, false, some, List, [], ◌∷◌, ◌++◌, ◌==◌, refl, arith,
  if◌then◌else◌, Ensures, ok, err, fatal, add64, ltb, data_to_u64, ◌⊎◌,
}
use quetz.Memory.{BalarFlushRange, compute_balar_flush_range, check_last_line, count_lines}
use quetz.Ipc.{Command, mmio_write_req}
use quetz.Base.Tables.{find, has_key}
use quetz.Balar.State.{
  Config, Host, FlushCtx, Armed, Port, init, has_outstanding, vcpu_has_outstanding, in_async,
}
use quetz.Balar.Doorbell.{issue_doorbell_flushes, forward_doorbell, flush_bytes}
use quetz.Balar.Aperture.{handle_command, submitted}
use quetz.Balar.Response.{
  flush_resp, write_resp, handle_response, Event, command, tick, response, run,
}
use quetz.Balar.Queue.{Fits}
use quetz.Balar.Fifo.{view}
use quetz.Balar.Refine.{Steps, Holds}
use quetz.Balar.Histories.{run-refines_queue, run-counts, outstanding}
use quetz.Balar.Flush.{Fenced, unanswered}
use quetz.Balar.Fence.{run-Fenced, last_flush_forwards, lifted, lowered}
use quetz.Balar.Errors.{MaySubmit, submit_guarded, posted}
use quetz.Balar.Lines.{doorbell_waits_for_lines, lines_of, lines_from}

abbrev config : Config
config = record {
  doorbell_addr = 4096;
  doorbell_size = 8;
  packet_flush_bytes = 128;
  flush_enabled = true;
  async_offload = true;
  async_doorbell_addr = 8192;
  async_doorbell_size = 64;
  async_completion_depth = 2;
}

abbrev host : Host
host = record { is_drained = λ v. true; has_mem = λ v. true; cache_line_size = 64; cycles = 100 }

-- The port of vCPU 3, unused.
abbrev port : Port
port = record (init 1) { async_vcpu = some 3 }

-- A SUBMIT of the packet at address 256.
abbrev submit : Command
submit = record {
  cmd = mmio_write_req;
  size = 4;
  pc = 0;
  addr = 8192;
  insn_class = 0;
  payload = 0 ∷ 1 ∷ 0 ∷ 0 ∷ [];
}

port-Holds : Holds 3 port
port-Holds = record {
  owner = refl;
  busy = λ e. cc;
  idle = λ e. (refl, refl);
  by_forwarded = tt;
  by_flushing = tt;
  by_armed = tt;
  one = omega arith;
}

port-Fits : Fits 2 (view 3 port.armed_doorbells port)
port-Fits = record {
  counted = refl;
  bounded = omega arith;
  ticket = omega arith;
  one = omega arith;
}

abbrev calls : List (Host × Event)
calls =
    (host, command 3 submit)
    ∷ (host, tick)
    ∷ (host, response 2 flush_resp)
    ∷ (host, response 3 flush_resp)
    ∷ (host, command 3 submit)
    ∷ (host, response 1 write_resp)
    ∷ []

run-refines_queue_example : Ensures (Steps 2 3 port) (run config calls port)
run-refines_queue_example = run-refines_queue config 3 calls port port-Holds

run-counts_example :
    Ensures
      (λ s'.
        Fits 2 (view 3 s'.armed_doorbells s')
        × (has_outstanding s' ≡ ltb 0 (outstanding 3 s'))
        × (vcpu_has_outstanding 3 s'
            ≡ ltb (s'.completed_id 3) (add64 (s'.completed_id 3) (outstanding 3 s'))))
      (run config calls port)
run-counts_example = run-counts config 3 calls port (omega arith) port-Holds port-Fits

port-Fenced : Fenced port
unfolding find
port-Fenced = record { counted = λ u. refl; distinct = tt; waits = λ u ctx e. cc }

run-Fenced_example : Ensures Fenced (run config calls port)
run-Fenced_example = run-Fenced config calls port port-Fenced

-- The port after its SUBMIT and the issue of two flushes, with the ids 2 and 3.
abbrev context : FlushCtx
context = record {
  vcpu = 3;
  remaining = 2;
  start_cycle = 100;
  doorbell = submitted config submit 1;
  is_async = true;
  pre_acked = false;
}

abbrev fenced : Port
fenced = record port {
  flush_to_vcpu = (3, 3) ∷ (2, 3) ∷ [];
  doorbell_flushes = (3, context) ∷ [];
  next_id = 4;
}

fenced-Fenced : Fenced fenced
unfolding find has_key
fenced-Fenced = record {
  counted = λ u. ground arith;
  distinct = (refl, tt);
  waits = λ u ctx e. ground (arith, e);
}

found : find 2 fenced.flush_to_vcpu ≡ some 3
unfolding find
found = refl

last_flush_forwards_example :
    (ctx : FlushCtx) × (find 3 fenced.doorbell_flushes ≡ some ctx)
    × (handle_response host 2 flush_resp fenced
        ≡ ok (
          true,
          if unanswered 3 fenced.flush_to_vcpu == 1
              then forward_doorbell 3 ctx.doorbell ctx.is_async ctx.pre_acked
                  (lifted host 2 3 ctx fenced)
              else lowered 2 3 ctx fenced,
        ))
last_flush_forwards_example = last_flush_forwards host 2 3 fenced fenced-Fenced found

addressed : in_async config submit.addr ≡ true
unfolding in_async
addressed = refl

submit_guarded_example :
    (MaySubmit config host 3 port
      × (handle_command config host 3 submit port ≡ ok (posted config 3 submit port)))
    ⊎ ((¬ (MaySubmit config host 3 port)) × (handle_command config host 3 submit port ≡ err fatal))
submit_guarded_example = submit_guarded config host 3 3 submit port addressed refl refl refl

abbrev ringing : Armed
ringing = record {
  req = record { id = 1; addr = 4096; payload = 16 ∷ 1 ∷ 0 ∷ 0 ∷ [] };
  is_async = false;
  pre_acked = false;
}

abbrev range : BalarFlushRange
range = record { first_line = 256; end_addr = 400; line_count = 3 }

range_computed :
    compute_balar_flush_range (data_to_u64 ringing.req.payload) (flush_bytes config) 64 ≡ some range
unfolding compute_balar_flush_range check_last_line count_lines data_to_u64
range_computed = refl

small : data_to_u64 ringing.req.payload < 2 ^ 64
unfolding data_to_u64
small = omega arith

no_flush_yet : has_key 3 port.doorbell_flushes ≡ false
unfolding has_key
no_flush_yet = refl

doorbell_waits_for_lines_example :
    (t : Port) × (issue_doorbell_flushes config host 3 ringing port ≡ ok t)
    × (lines_of 3 t.log ≡ lines_from 64 3 256 ++ lines_of 3 port.log)
    × (find 3 t.doorbell_flushes
        ≡ some (record {
          vcpu = 3;
          remaining = 3;
          start_cycle = 100;
          doorbell = ringing.req;
          is_async = false;
          pre_acked = false;
        }))
    × (256 ≤ data_to_u64 ringing.req.payload)
    × (data_to_u64 ringing.req.payload + flush_bytes config ≤ 256 + 3 * 64)
doorbell_waits_for_lines_example =
    doorbell_waits_for_lines config host 3 ringing port {r = range} no_flush_yet small (omega arith)
      (omega arith) (omega arith) (omega arith) range_computed (omega arith)
