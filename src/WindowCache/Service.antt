-- ===== src/WindowCache/Service.antt =====
-- A memory that answers the cache's requests at once, as native memory does, and the transaction that
-- it serves to its end.
use quetz.Base.{
  ℕ, zero, suc, ◌+◌, ◌-◌, ◌&&◌, Option, none, some, List, [], ◌∷◌, ltb, leb, if◌then◌else◌, get_or,
  length, Outcome, ok, ◌>>=◌,
}
use quetz.WindowCache.State.{Cache, done, read, write}
use quetz.WindowCache.Transact.{next, complete}

-- The bytes of a memory from an address on.
unfoldable pub load : (ℕ → ℕ) → ℕ → ℕ → List ℕ
load m address zero = []
load m address (suc n) = m address ∷ load m (suc address) n

abbrev pub store : (ℕ → ℕ) → ℕ → List ℕ → ℕ → ℕ
store m address bytes = λ a.
    if leb address a && ltb a (address + length bytes) then get_or bytes (a - address) 0 else m a

-- A request of the open transaction, served: the cache, the memory, and the result at the end.
unfoldable pub serve_one : Cache → (ℕ → ℕ) → Outcome (Cache × (ℕ → ℕ) × Option (List ℕ))
serve_one c m = next c >>= (λ r. elim (r.1) [
  | done bytes ↦ ok (r.0, m, some bytes)
  | read address size ↦ complete r.0 (load m address size) >>= (λ c'. ok (c', m, none))
  | write address bytes ↦ complete r.0 [] >>= (λ c'. ok (c', store m address bytes, none))
])
