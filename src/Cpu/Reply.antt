-- ===== src/Cpu/Reply.antt =====
-- completeMmioSyncResponse, hasAsyncInFlight and asyncOutstandingForVcpu of
-- src/quetzcpu_mmio_sync.cc: the responses of the memory system.
use quetz.Base.{
  ℕ, Bool, true, false, not, ◌||◌, none, some, List, [], ◌∷◌, ◌==◌, if◌then◌else◌, Outcome, ok, err,
  fatal, ◌>>=◌, data_to_u64,
}
use quetz.Base.Tables.{find, erase}
use quetz.WindowCache.Bank.{Request, complete_request}
use quetz.Balar.State.{Config, Host, Effect, Port, has_outstanding, vcpu_has_outstanding}
use quetz.Balar.Response.{Response, read_resp, write_resp, flush_resp, handle_response}
use quetz.Cpu.Bytes.{big_endian}
use quetz.Cpu.Route.{Generic, Cpu, caught, answer, service_window_cache}

-- A response, with its id, the core whose link it came on, and whether it failed.
pub record Arrival : Type 0 where
  pub id : ℕ
  pub vcpu_hint : ℕ
  pub failed : Bool
  pub response : Response

-- Whether a response is of the kind of the request.
unfoldable pub of_kind : Bool → Response → Bool
of_kind is_read (read_resp bytes) = is_read
of_kind is_read write_resp = not is_read
of_kind is_read flush_resp = false

unfoldable pub is_read_resp : Response → Bool
is_read_resp (read_resp bytes) = true
is_read_resp write_resp = false
is_read_resp flush_resp = false

unfoldable pub bytes_of : Response → List ℕ
bytes_of (read_resp bytes) = bytes
bytes_of write_resp = []
bytes_of flush_resp = []

-- completeMmioSyncResponse, a response to a cache
unfoldable pub complete_cached : ℕ → Request → Arrival → Cpu → Outcome Cpu
complete_cached fuel p a s =
    if not (a.vcpu_hint == p.vcpu) || a.failed || not (of_kind p.is_read a.response)
    then err fatal
    else caught (
        complete_request a.id p.vcpu (is_read_resp a.response) (bytes_of a.response) s.bank
        >>= (λ b. service_window_cache fuel p.vcpu (record s { bank = b })))

-- completeMmioSyncResponse, the offers to the ports, in order: whether one took it.
unfoldable pub offer_response :
    Host
    → Arrival
    → ℕ
    → List Effect
    → List (Config × Port)
    → Outcome (Bool × List (Config × Port) × ℕ × List Effect)
offer_response h a id log [] = ok (false, [], id, log)
offer_response h a id log ((c, p) ∷ ps) =
    handle_response h a.id a.response (record p { next_id = id; log = log }) >>= (λ r. elim (r.0) [
      | true ↦ ok (true, (c, r.1) ∷ ps, r.1.next_id, r.1.log)
      | false ↦
          offer_response h a r.1.next_id r.1.log ps >>= (λ q. ok (q.0, (c, r.1) ∷ q.1, q.2, q.3))
    ])

-- completeMmioSyncResponse, the value of a forwarded request
unfoldable pub generic_value : Generic → Response → ℕ
generic_value g (read_resp bytes) =
    if g.is_read then (if g.win_be then big_endian bytes else data_to_u64 bytes) else 0
generic_value g write_resp = 0
generic_value g flush_resp = 0

-- completeMmioSyncResponse, past the caches and the ports
unfoldable pub complete_generic : Arrival → Cpu → Bool × Cpu
complete_generic a s = elim (find a.id s.generic_pending) [
  | none ↦ (false, s)
  | some g ↦ (
    true,
    answer g.vcpu (generic_value g a.response)
        (record s { generic_pending = erase a.id s.generic_pending }),
  )
]

unfoldable pub complete_uncached : Host → Arrival → Cpu → Outcome (Bool × Cpu)
complete_uncached h a s = offer_response h a s.next_id s.log s.ports >>= (λ q.
    let t = record s { ports = q.1; next_id = q.2; log = q.3 } in
    if q.0 then ok (true, t) else ok (complete_generic a t))

-- completeMmioSyncResponse: whether the response was for MMIO, and the CPU.
unfoldable pub complete_mmio_sync_response : ℕ → Host → Arrival → Cpu → Outcome (Bool × Cpu)
complete_mmio_sync_response fuel h a s = elim (find a.id s.bank.pending) [
  | some p ↦ complete_cached fuel p a s >>= (λ t. ok (true, t))
  | none ↦ complete_uncached h a s
]

unfoldable pub some_outstanding : List (Config × Port) → Bool
some_outstanding [] = false
some_outstanding ((c, p) ∷ ps) = has_outstanding p || some_outstanding ps

-- hasAsyncInFlight
unfoldable pub has_async_in_flight : Cpu → Bool
unfolding some_outstanding
has_async_in_flight s = some_outstanding s.ports

unfoldable pub some_outstanding_for : ℕ → List (Config × Port) → Bool
some_outstanding_for v [] = false
some_outstanding_for v ((c, p) ∷ ps) = vcpu_has_outstanding v p || some_outstanding_for v ps

-- asyncOutstandingForVcpu
unfoldable pub async_outstanding_for_vcpu : ℕ → Cpu → Bool
async_outstanding_for_vcpu v s = some_outstanding_for v s.ports
