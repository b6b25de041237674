-- ===== src/Cpu/Route.antt =====
-- portForAddr, windowBigEndian, pollMmioSyncMailbox, handleMmioSyncCommand, serviceWindowCache and
-- completeMmioSyncResponse of src/quetzcpu_mmio_sync.cc.
use quetz.Base.{
  ℕ, zero, suc, ◌+◌, ◌-◌, Bool, true, false, not, ◌&&◌, ◌||◌, Option, none, some, List, [], ◌∷◌,
  ◌==◌, ltb, leb, if◌then◌else◌, length, take, Outcome, ok, err, fatal, invalid_argument,
  runtime_error, out_of_fuel, ◌>>=◌, u32_mod, data_to_u64, add64,
}
use quetz.Ipc.{ShmemCmd, mmio_read_req, mmio_write_req, cache_op, Command, cmd_data_bytes}
use quetz.Native.{Region, Shared, native_ram}
use quetz.WindowCache.Service.{load, store}
use quetz.WindowCache.State.{Cache, done, read, write, region_for}
use quetz.WindowCache.Transact.{access, movec, push, next, complete}
use quetz.WindowCache.Bank.{Bank, at_vcpu, put_vcpu, use_cache, issued}
use quetz.Balar.State.{
  Config, Host, Effect, post_response, mmio_read, mmio_write, record_sync_request, Port, owns_addr,
}
use quetz.Balar.Aperture.{handle_command}
use quetz.Cpu.Bytes.{big_endian}

-- The parameters that the routing reads.
pub record Params : Type 0 where
  pub vcpu_count : ℕ
  pub sst_window_cache : Bool
  pub window_big_endian : Bool
  pub sst_window_base : ℕ
  pub sst_window_size : ℕ

-- What the CPU is connected to, and what the ports ask of it.
pub record Env : Type 0 where
  pub host : Host
  pub has_mmio : ℕ → Bool

-- GenericPending
pub record Generic : Type 0 where
  pub vcpu : ℕ
  pub is_read : Bool
  pub win_be : Bool

-- QuetzCPU, as far as it routes MMIO, with the shared segment and its bytes by their addresses.
-- Requests have ids of their own; `log` has what left the CPU and the answers to guests, newest first.
pub record Cpu : Type 0 where
  pub bank : Bank
  pub ports : List (Config × Port)
  pub generic_pending : List (ℕ × Generic)
  pub cache_reset_epochs : ℕ → ℕ
  pub shared : Shared
  pub memory : ℕ → ℕ
  pub next_id : ℕ
  pub log : List Effect

-- An exception becomes a call of fatal().
abbrev pub caught {ℓ} : {A : Type ℓ} → Outcome A → Outcome A
caught (ok a) = ok a
caught (err e) = err fatal

unfoldable pub answer : ℕ → ℕ → Cpu → Cpu
answer vcpu value s = record s { log = post_response vcpu value ∷ s.log }

-- `window_caches_.cache(vcpu).contains(addr)`
unfoldable pub cached : Params → ℕ → ℕ → Cpu → Outcome Bool
cached p vcpu addr s =
    if not p.sst_window_cache
    then ok false
    else at_vcpu vcpu s.bank.states
      >>= (λ u. ok (elim (region_for u.cache.regions addr) [ none ↦ false | some r ↦ true ]))

-- windowBigEndian
unfoldable pub window_big_endian : Params → ℕ → Cpu → Outcome Bool
window_big_endian p addr s =
    if not p.window_big_endian
    then ok false
    else if p.sst_window_cache
    then cached p 0 addr s
    else ok (
        not (p.sst_window_size == 0)
        && (leb p.sst_window_base addr && ltb addr (add64 p.sst_window_base p.sst_window_size)))

-- serviceWindowCache, the search for the native region of an address: its place in the array.
unfoldable pub native_index : ℕ → ℕ → List Region → Option (ℕ × Region)
native_index addr i [] = none
native_index addr i (r ∷ rs) =
    let later = native_index addr (suc i) rs in
    if leb r.base addr && ltb (addr - r.base) r.size then some (i, r) else later

-- serviceWindowCache, the address in the process of native memory, if an access is to it.
unfoldable pub native_at : ℕ → ℕ → Shared → Outcome (Option ℕ)
native_at addr size s = elim (native_index addr 0 s.regions) [
  | none ↦ ok none
  | some r ↦
      if ltb (r.1.size - (addr - r.1.base)) size
      then err runtime_error
      else elim (native_ram s (r.0)) [
        | none ↦ err runtime_error
        | some backing ↦ ok (some (backing + (addr - r.1.base)))
      ]
]

-- serviceWindowCache, a request that leaves the CPU
unfoldable pub issue : ℕ → Bool → Effect → Cpu → Outcome Cpu
issue vcpu is_read e s =
    issued vcpu s.next_id is_read s.bank
    >>= (λ b. ok (record s { bank = b; next_id = s.next_id + 1; log = e ∷ s.log }))

-- serviceWindowCache, one request of the cache: the CPU, and whether the loop goes on. A write's
-- size is that of its bytes.
unfoldable pub serve_read : ℕ → ℕ → ℕ → Cpu → Outcome (Bool × Cpu)
serve_read vcpu addr size s = native_at addr size s.shared >>= (λ o. elim o [
  | some at ↦
      use_cache vcpu (λ c. complete c (load s.memory at size)) s.bank
      >>= (λ b. ok (true, record s { bank = b }))
  | none ↦ issue vcpu true (mmio_read vcpu s.next_id addr size) s >>= (λ t. ok (false, t))
])

unfoldable pub serve_write : ℕ → ℕ → List ℕ → Cpu → Outcome (Bool × Cpu)
serve_write vcpu addr bytes s = native_at addr (length bytes) s.shared >>= (λ o. elim o [
  | some at ↦
      use_cache vcpu (λ c. complete c []) s.bank
      >>= (λ b. ok (true, record s { bank = b; memory = store s.memory at bytes }))
  | none ↦
      issue vcpu false (mmio_write vcpu (record { id = s.next_id; addr = addr; payload = bytes })) s
      >>= (λ t. ok (false, t))
])

-- serviceWindowCache, one round
unfoldable pub service_round : ℕ → Cpu → Outcome (Bool × Cpu)
service_round vcpu s = at_vcpu vcpu s.bank.states >>= (λ u. next u.cache >>= (λ r.
    let t = record s {
      bank = record (s.bank) { states = put_vcpu vcpu (record u { cache = r.0 }) s.bank.states };
    } in
    elim (r.1) [
      | done bytes ↦ ok (false, answer vcpu (big_endian bytes) t)
      | read addr size ↦ serve_read vcpu addr size t
      | write addr bytes ↦ serve_write vcpu addr bytes t
    ]))

-- serviceWindowCache, with as many rounds at most
unfoldable pub service_window_cache : ℕ → ℕ → Cpu → Outcome Cpu
service_window_cache zero vcpu s = err out_of_fuel
service_window_cache (suc fuel) vcpu s =
    service_round vcpu s
    >>= (λ r. elim (r.0) [ true ↦ service_window_cache fuel vcpu (r.1) | false ↦ ok (r.1) ])

-- handleMmioSyncCommand, what a command starts in a cache
unfoldable pub start_transaction : Command → Cache → Outcome Cache
start_transaction cmd c = elim (cmd.cmd) [
  | cache_op ↦
      if leb u32_mod cmd.addr
      then err invalid_argument
      else if cmd.size == 0
      then movec c cmd.addr (data_to_u64 (take 4 cmd.payload))
      else if cmd.size == 1
      then push c (data_to_u64 (take 4 cmd.payload)) cmd.addr
      else err invalid_argument
  | mmio_read_req ↦
      if ltb cmd_data_bytes cmd.size
      then err invalid_argument
      else access c cmd.addr cmd.size false []
  | mmio_write_req ↦
      if ltb cmd_data_bytes cmd.size
      then err invalid_argument
      else access c cmd.addr cmd.size true (take cmd.size cmd.payload)
  | _ ↦ err invalid_argument
]

unfoldable pub is_cache_op : ShmemCmd → Bool
is_cache_op cache_op = true
is_cache_op other = false

unfoldable pub is_write : ShmemCmd → Bool
is_write mmio_write_req = true
is_write other = false

-- handleMmioSyncCommand, a command for a cache
unfoldable pub cache_command : ℕ → ℕ → Command → Cpu → Outcome Cpu
cache_command fuel vcpu cmd s = caught (
    use_cache vcpu (start_transaction cmd) s.bank >>= (λ b.
      service_window_cache fuel vcpu (record s {
        bank = b;
        log =
            if is_cache_op cmd.cmd
            then s.log
            else record_sync_request vcpu (not (is_write cmd.cmd)) ∷ s.log;
      })))

-- portForAddr, and the command for the port that owns the address; `none` where no port does.
unfoldable pub offer_command :
    Host
    → ℕ
    → Command
    → ℕ
    → List Effect
    → List (Config × Port)
    → Option (Outcome (List (Config × Port) × ℕ × List Effect))
offer_command h vcpu cmd id log [] = none
offer_command h vcpu cmd id log ((c, p) ∷ ps) =
    let later = offer_command h vcpu cmd id log ps in
    if owns_addr c cmd.addr
    then some (
        handle_command c h vcpu cmd (record p { next_id = id; log = log })
        >>= (λ q. ok ((c, q) ∷ ps, q.next_id, q.log)))
    else elim later [ none ↦ none | some m ↦ some (m >>= (λ r. ok ((c, p) ∷ r.0, r.1, r.2))) ]

-- handleMmioSyncCommand, the plain forwarding of a command
unfoldable pub forward : Params → ℕ → Command → Cpu → Outcome (Bool × Cpu)
forward p vcpu cmd s = elim (cmd.cmd) [
  | mmio_read_req ↦ window_big_endian p cmd.addr s >>= (λ be. ok (
    true,
    record s {
      next_id = s.next_id + 1;
      generic_pending =
          (s.next_id, record { vcpu = vcpu; is_read = true; win_be = be }) ∷ s.generic_pending;
      log = record_sync_request vcpu true ∷ (mmio_read vcpu s.next_id cmd.addr cmd.size ∷ s.log);
    },
  ))
  | mmio_write_req ↦ ok (
    true,
    record s {
      next_id = s.next_id + 1;
      generic_pending =
          (s.next_id, record { vcpu = vcpu; is_read = false; win_be = false }) ∷ s.generic_pending;
      log =
          record_sync_request vcpu false
          ∷ (mmio_write vcpu
                (record { id = s.next_id; addr = cmd.addr; payload = take cmd.size cmd.payload })
              ∷ s.log);
    },
  )
  | _ ↦ ok (false, s)
]

-- handleMmioSyncCommand, past the caches
unfoldable pub route : Params → Env → ℕ → Command → Cpu → Outcome (Bool × Cpu)
route p env vcpu cmd s =
    if not (env.has_mmio vcpu)
    then ok (true, answer vcpu 0 s)
    else elim (offer_command env.host vcpu cmd s.next_id s.log s.ports) [
      | some m ↦ m >>= (λ r. ok (true, record s { ports = r.0; next_id = r.1; log = r.2 }))
      | none ↦ forward p vcpu cmd s
    ]

-- handleMmioSyncCommand
unfoldable pub handle_mmio_sync_command :
    ℕ → Params → Env → ℕ → Command → Cpu → Outcome (Bool × Cpu)
handle_mmio_sync_command fuel p env vcpu cmd s =
    if leb p.vcpu_count vcpu
    then err fatal
    else (if is_cache_op cmd.cmd then ok true else cached p vcpu cmd.addr s) >>= (λ for_cache.
        if not for_cache
        then route p env vcpu cmd s
        else if not p.sst_window_cache || not (env.has_mmio vcpu)
        then err fatal
        else cache_command fuel vcpu cmd s >>= (λ t. ok (true, t)))
