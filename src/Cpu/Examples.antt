-- ===== src/Cpu/Examples.antt =====
-- A write of two bytes to a window that is big-endian, and a read of them.
use quetz.Base.{◌%◌, ◌^◌, ◌≡◌, true, false, ok, [], ◌∷◌, arith, refl}
use quetz.Ipc.{mmio_read_req, mmio_write_req, Command}
use quetz.Mailbox.Slot.{Request}
use quetz.Native.Examples.{segment}
use quetz.WindowCache.Bank.{empty_bank}
use quetz.Balar.State.{mmio_read, mmio_write, record_sync_request}
use quetz.Balar.Response.{read_resp}
use quetz.Cpu.Bytes.{pack_from}
use quetz.Cpu.Route.{Params, Cpu, answer, window_big_endian, forward, is_write, is_cache_op}
use quetz.Cpu.Poll.{command_of}
use quetz.Cpu.Reply.{Arrival, complete_generic}
use quetz.Cpu.Replies.{written_reads_back}

abbrev params : Params
params = record {
  vcpu_count = 2;
  sst_window_cache = false;
  window_big_endian = true;
  sst_window_base = 4096;
  sst_window_size = 4096;
}

abbrev idle_cpu : Cpu
idle_cpu = record {
  bank = empty_bank;
  ports = [];
  generic_pending = [];
  cache_reset_epochs = λ v. 0;
  shared = segment;
  memory = λ a. 0;
  next_id = 5;
  log = [];
}

abbrev stores : Request
stores = record { cmd = mmio_write_req; addr = 4100; size = 2; write_val = 0x11223 }

abbrev store_command : Command
store_command = record {
  cmd = mmio_write_req;
  size = 2;
  pc = 0;
  addr = 4100;
  insn_class = 0;
  payload = 0x12 ∷ 0x23 ∷ [];
}

abbrev loads : Command
loads = record { cmd = mmio_read_req; size = 2; pc = 0; addr = 4100; insn_class = 0; payload = [] }

packed : command_of params stores idle_cpu ≡ ok store_command
unfolding command_of is_cache_op is_write window_big_endian pack_from
packed = refl

abbrev stored : Cpu
stored = record idle_cpu {
  next_id = 6;
  generic_pending = (5, record { vcpu = 0; is_read = false; win_be = false }) ∷ [];
  log =
      record_sync_request 0 false
      ∷ mmio_write 0 (record { id = 5; addr = 4100; payload = 0x12 ∷ 0x23 ∷ [] })
      ∷ [];
}

store_sent : forward params 0 store_command idle_cpu ≡ ok (true, stored)
unfolding forward
store_sent = refl

abbrev waiting : Cpu
waiting = record stored {
  next_id = 7;
  generic_pending =
      (6, record { vcpu = 1; is_read = true; win_be = true }) ∷ stored.generic_pending;
  log = record_sync_request 1 true ∷ mmio_read 1 6 4100 2 ∷ stored.log;
}

load_sent : forward params 1 loads stored ≡ ok (true, waiting)
unfolding forward window_big_endian
load_sent = refl

abbrev reply : Arrival
reply = record { id = 6; vcpu_hint = 1; failed = false; response = read_resp (0x12 ∷ 0x23 ∷ []) }

write_kind : is_write mmio_write_req ≡ true
unfolding is_write
write_kind = refl

written_reads_back_example :
    (stored.log
      ≡ record_sync_request 0 false
        ∷ (mmio_write 0 (record { id = 5; addr = 4100; payload = store_command.payload })
            ∷ idle_cpu.log))
    × (complete_generic reply waiting ≡ (
      true,
      answer 1
          (stores.write_val % 256 ^ 2)
          (record waiting { generic_pending = stored.generic_pending }),
    ))
written_reads_back_example =
    written_reads_back params 0 1 stores loads reply idle_cpu {d = store_command} {t = stored}
      {u = waiting} write_kind (omega arith) packed store_sent refl refl load_sent refl refl
