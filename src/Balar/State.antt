-- ===== src/Balar/State.antt =====
-- The port's configuration, its state, what it asks of its host, and what it has the host do.
use quetz.Base.{
  ℕ, Bool, true, false, not, ◌&&◌, ◌||◌, Option, none, List, [], ◌∷◌, ◌==◌, ltb, leb, if◌then◌else◌,
  add64, Outcome, ok, err, fatal,
}

-- The value of the parameter flush_mode.
pub data FlushMode : Type 0 where
  no_flush range_from_value unknown : FlushMode

pub record Config : Type 0 where
  pub doorbell_addr : ℕ
  pub doorbell_size : ℕ
  pub packet_flush_bytes : ℕ
  pub flush_enabled : Bool
  pub async_offload : Bool
  pub async_doorbell_addr : ℕ
  pub async_doorbell_size : ℕ
  pub async_completion_depth : ℕ

-- The constructor's checks of its parameters, which are in `c` but for the mode.
unfoldable pub configure : FlushMode → Config → Outcome Config
configure mode c = elim mode [
  | no_flush ↦ ok (record c { flush_enabled = false; async_completion_depth = depth })
  | range_from_value ↦ ok (record c { flush_enabled = true; async_completion_depth = depth })
  | unknown ↦ err fatal
]
  where
    depth : ℕ
    depth = if c.async_completion_depth == 0 then 1 else c.async_completion_depth

-- AcceleratorHost: what the port asks of the CPU in one call.
pub record Host : Type 0 where
  pub is_drained : ℕ → Bool
  pub has_mem : ℕ → Bool
  pub cache_line_size : ℕ
  pub cycles : ℕ

-- A doorbell's StandardMem::Write.
pub record Doorbell : Type 0 where
  pub id : ℕ
  pub addr : ℕ
  pub payload : List ℕ

-- AcceleratorHost: the calls that change something outside the port.
pub data Effect : Type 0 where
  post_response : ℕ → ℕ → Effect
  mmio_read : ℕ → ℕ → ℕ → ℕ → Effect
  mmio_write : ℕ → Doorbell → Effect
  flush_line : ℕ → ℕ → ℕ → ℕ → Effect
  record_sync_request : ℕ → Bool → Effect
  record_doorbell_flush : ℕ → Effect
  record_doorbell_flush_cycles : ℕ → ℕ → Effect
  record_async_submit record_async_completion : ℕ → Effect

-- ForwardPending
pub record Forward : Type 0 where
  pub vcpu : ℕ
  pub is_read : Bool
  pub is_async : Bool

-- FlushCtx
pub record FlushCtx : Type 0 where
  pub vcpu : ℕ
  pub remaining : ℕ
  pub start_cycle : ℕ
  pub doorbell : Doorbell
  pub is_async : Bool
  pub pre_acked : Bool

-- ArmedDoorbell
pub record Armed : Type 0 where
  pub req : Doorbell
  pub is_async : Bool
  pub pre_acked : Bool

-- BalarAcceleratorPort. Every request has an id of its own, which is SST's work: `next_id` is the
-- next one. `log` has the host's effects, newest first.
pub record Port : Type 0 where
  pub pending : List (ℕ × Forward)
  pub flush_to_vcpu : List (ℕ × ℕ)
  pub doorbell_flushes : List (ℕ × FlushCtx)
  pub armed_doorbells : List (ℕ × Armed)
  pub submit_id : ℕ → ℕ
  pub completed_id : ℕ → ℕ
  pub last_result : ℕ → ℕ
  pub async_busy : ℕ → Bool
  pub submit_queue : ℕ → List Doorbell
  pub async_in_flight : ℕ
  pub async_vcpu : Option ℕ
  pub next_id : ℕ
  pub log : List Effect

abbrev pub init : ℕ → Port
init id = record {
  pending = [];
  flush_to_vcpu = [];
  doorbell_flushes = [];
  armed_doorbells = [];
  submit_id = λ v. 0;
  completed_id = λ v. 0;
  last_result = λ v. 0;
  async_busy = λ v. false;
  submit_queue = λ v. [];
  async_in_flight = 0;
  async_vcpu = none;
  next_id = id;
  log = [];
}

unfoldable pub emit : Effect → Port → Port
emit e s = record s { log = e ∷ s.log }

-- `if (b) host_->postResponse(vcpu, 0)`
unfoldable pub ack_if : Bool → ℕ → Port → Port
ack_if b vcpu s = if b then record s { log = post_response vcpu 0 ∷ s.log } else s

unfoldable pub in_async : Config → ℕ → Bool
in_async c addr =
    c.async_offload
    && (not (c.async_doorbell_addr == 0)
        && (leb c.async_doorbell_addr addr
            && ltb addr (add64 c.async_doorbell_addr c.async_doorbell_size)))

unfoldable pub in_doorbell : Config → ℕ → Bool
in_doorbell c addr =
    not (c.doorbell_addr == 0)
    && (not (c.doorbell_size == 0)
        && (leb c.doorbell_addr addr && ltb addr (add64 c.doorbell_addr c.doorbell_size)))

-- ownsAddr
unfoldable pub owns_addr : Config → ℕ → Bool
unfolding in_doorbell in_async
owns_addr c addr = in_doorbell c addr || in_async c addr

-- hasOutstanding
unfoldable pub has_outstanding : Port → Bool
has_outstanding s = ltb 0 s.async_in_flight

-- vcpuHasOutstanding: a missing key reads as 0 on both sides.
unfoldable pub vcpu_has_outstanding : ℕ → Port → Bool
vcpu_has_outstanding vcpu s = ltb (s.completed_id vcpu) (s.submit_id vcpu)
