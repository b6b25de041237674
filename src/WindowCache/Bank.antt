-- ===== src/WindowCache/Bank.antt =====
-- src/quetz_window_cache_bank.h: WindowCacheBank, the caches of one or two CPUs and the requests that
-- they have open in the memory behind them.
use quetz.Base.{
  ℕ, zero, suc, Bool, true, false, not, ◌||◌, none, some, List, [], ◌∷◌, ◌==◌, ltb, if◌then◌else◌,
  length, replicate, Outcome, ok, err, logic_error, invalid_argument, ◌>>=◌,
}
use quetz.Base.Tables.{find, erase, has_key}
use quetz.WindowCache.State.{Cache, idle}
use quetz.WindowCache.Transact.{configure, add_region, reset, complete}

-- WindowCacheBank::Pending
pub record Request : Type 0 where
  pub vcpu : ℕ
  pub is_read : Bool

-- WindowCacheBank::State
pub record Core : Type 0 where
  pub cache : Cache
  pub outstanding : Bool

pub record Bank : Type 0 where
  pub states : List Core
  pub pending : List (ℕ × Request)

-- A WindowDataCache with its default values.
abbrev pub new_cache : Cache
new_cache = record {
  regions = [];
  cacr = 0;
  acr = replicate 4 0;
  lines = λ s. record { bytes = replicate 16 0; address = 0; valid = false; dirty = false };
  replacement = 0;
  pending_slot = 0;
  dirty_discards = 0;
  active = false;
  pushing = false;
  invalidate_push = false;
  writing = false;
  pending = idle;
  address = 0;
  pending_address = 0;
  count = 0;
  offset = 0;
  pending_size = 0;
  bytes = [];
}

-- `states_.at(vcpu)`, which throws std::out_of_range, a std::logic_error.
unfoldable pub at_vcpu : ℕ → List Core → Outcome Core
at_vcpu v [] = err logic_error
at_vcpu zero (u ∷ us) = ok u
at_vcpu (suc v) (u ∷ us) = at_vcpu v us

unfoldable pub put_vcpu : ℕ → Core → List Core → List Core
put_vcpu v x [] = []
put_vcpu zero x (u ∷ us) = x ∷ us
put_vcpu (suc v) x (u ∷ us) = u ∷ put_vcpu v x us

unfoldable pub some_active : List Core → Bool
some_active [] = false
some_active (u ∷ us) = u.cache.active || some_active us

-- active
unfoldable pub active : Bank → Bool
active b = not (length b.pending == 0) || some_active b.states

-- configure
unfoldable pub configure_bank : ℕ → ℕ → ℕ → Bank → Outcome Bank
configure_bank cores base size b =
    if ltb cores 1 || ltb 2 cores || active b
    then err invalid_argument
    else configure new_cache base size >>= (λ c.
      ok (record b { states = replicate cores (record { cache = c; outstanding = false }) }))

-- addRegion, the loop
unfoldable pub add_regions : ℕ → ℕ → List Core → Outcome (List Core)
add_regions base size [] = ok []
add_regions base size (u ∷ us) =
    add_region u.cache base size
    >>= (λ c. add_regions base size us >>= (λ us'. ok (record u { cache = c } ∷ us')))

-- addRegion
unfoldable pub add_region_to : ℕ → ℕ → Bank → Outcome Bank
add_region_to base size b =
    if active b
    then err logic_error
    else add_regions base size b.states >>= (λ us. ok (record b { states = us }))

-- issued
unfoldable pub issued : ℕ → ℕ → Bool → Bank → Outcome Bank
issued vcpu id is_read b = at_vcpu vcpu b.states >>= (λ u.
    if not u.cache.active || u.outstanding || has_key id b.pending
    then err logic_error
    else ok (record {
      states = put_vcpu vcpu (record u { outstanding = true }) b.states;
      pending = (id, record { vcpu = vcpu; is_read = is_read }) ∷ b.pending;
    }))

-- complete, past the finding of the request
unfoldable pub take_response : ℕ → ℕ → Bool → List ℕ → Request → Bank → Outcome Bank
take_response id vcpu is_read bytes p b =
    if not (p.vcpu == vcpu) || not (if p.is_read then is_read else not is_read)
    then err logic_error
    else at_vcpu vcpu b.states >>= (λ u. complete u.cache bytes >>= (λ c. ok (record {
      states = put_vcpu vcpu (record { cache = c; outstanding = false }) b.states;
      pending = erase id b.pending;
    })))

-- complete
unfoldable pub complete_request : ℕ → ℕ → Bool → List ℕ → Bank → Outcome Bank
complete_request id vcpu is_read bytes b = elim (find id b.pending) [
  | none ↦ err logic_error
  | some p ↦ take_response id vcpu is_read bytes p b
]

-- resetCore
unfoldable pub reset_core : ℕ → Bank → Outcome Bank
reset_core vcpu b = at_vcpu vcpu b.states >>= (λ u.
    if u.outstanding || u.cache.active
    then err logic_error
    else reset u.cache
      >>= (λ c. ok (record b { states = put_vcpu vcpu (record u { cache = c }) b.states })))

-- What the CPU does with a cache of the bank between its requests: a transaction that starts, or goes
-- on, where none of its requests is open.
unfoldable pub use_cache : ℕ → (Cache → Outcome Cache) → Bank → Outcome Bank
use_cache vcpu f b = at_vcpu vcpu b.states >>= (λ u.
    f u.cache >>= (λ c. ok (record b { states = put_vcpu vcpu (record u { cache = c }) b.states })))

abbrev pub empty_bank : Bank
empty_bank = record { states = []; pending = [] }

-- The calls that the CPU makes of a bank.
pub data Use : Type 0 where
  transacts : ℕ → (Cache → Outcome Cache) → Use
  issues : ℕ → ℕ → Bool → Use
  answers : ℕ → ℕ → Bool → List ℕ → Use
  resets : ℕ → Use

unfoldable pub use_bank : Use → Bank → Outcome Bank
use_bank (transacts v f) b = use_cache v f b
use_bank (issues v id r) b = issued v id r b
use_bank (answers id v r bytes) b = complete_request id v r bytes b
use_bank (resets v) b = reset_core v b

unfoldable pub use_all : List Use → Bank → Outcome Bank
use_all [] b = ok b
use_all (e ∷ es) b = use_bank e b >>= (λ b'. use_all es b')
