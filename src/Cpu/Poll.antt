-- ===== src/Cpu/Poll.antt =====
-- pollMmioSyncMailbox of src/quetzcpu_mmio_sync.cc: the requests of the mailbox, as commands.
use quetz.Base.{
  ℕ, zero, suc, not, ◌&&◌, Option, none, some, List, [], ◌==◌, leb, if◌then◌else◌, u64_to_data,
  Outcome, ok, ◌>>=◌,
}
use quetz.Base.Tables.{update}
use quetz.Ipc.{Command}
use quetz.Mailbox.Slot.{Request}
use quetz.WindowCache.Bank.{reset_core}
use quetz.Cpu.Bytes.{pack}
use quetz.Cpu.Route.{
  Params, Env, Cpu, caught, window_big_endian, is_cache_op, is_write, handle_mmio_sync_command,
}

-- The mailbox at one poll: the reset epochs, and the requests that are pending.
pub record Mailbox : Type 0 where
  pub epochs : ℕ → ℕ
  pub requests : ℕ → Option Request

-- pollMmioSyncMailbox, the reset of a core's cache where its CPU was reset
unfoldable pub poll_reset : Params → Mailbox → ℕ → Cpu → Outcome Cpu
poll_reset p m v s =
    if p.sst_window_cache && not (m.epochs v == s.cache_reset_epochs v)
    then caught (
        reset_core v s.bank >>= (λ b.
          ok (record s {
            bank = b;
            cache_reset_epochs = update v (m.epochs v) s.cache_reset_epochs;
          })))
    else ok s

-- pollMmioSyncMailbox, the command of a request
unfoldable pub command_of : Params → Request → Cpu → Outcome Command
command_of p r s =
    if is_cache_op r.cmd
    then ok (made (u64_to_data r.write_val 4))
    else if is_write r.cmd
    then window_big_endian p r.addr s
      >>= (λ be. ok (made (pack (be && leb r.size 8) r.size r.write_val)))
    else ok (made [])
  where
    made : List ℕ → Command
    made bytes = record {
      cmd = r.cmd;
      size = r.size;
      pc = 0;
      addr = r.addr;
      insn_class = 0;
      payload = bytes;
    }

unfoldable pub poll_request : ℕ → Params → Env → ℕ → Option Request → Cpu → Outcome Cpu
poll_request fuel p env v none s = ok s
poll_request fuel p env v (some r) s =
    command_of p r s >>= (λ cmd. handle_mmio_sync_command fuel p env v cmd s >>= (λ t. ok (t.1)))

-- pollMmioSyncMailbox, from the core `v` on
unfoldable pub poll_from : ℕ → Params → Env → Mailbox → ℕ → ℕ → Cpu → Outcome Cpu
poll_from fuel p env m v zero s = ok s
poll_from fuel p env m v (suc n) s = poll_reset p m v s >>= (λ t.
    poll_request fuel p env v (m.requests v) t >>= (λ u. poll_from fuel p env m (suc v) n u))

-- pollMmioSyncMailbox
unfoldable pub poll_mmio_sync_mailbox : ℕ → Params → Env → Mailbox → Cpu → Outcome Cpu
poll_mmio_sync_mailbox fuel p env m s = poll_from fuel p env m 0 p.vcpu_count s
