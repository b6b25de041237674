-- ===== src/WindowCache/BankExamples.antt =====
-- A bank of one core that reads four bytes, and the answer of the memory behind it.
use quetz.Base.{ℕ, ◌≡◌, refl, true, false, some, List, [], ◌∷◌, ok, err, Outcome, ◌>>=◌}
use quetz.Base.Tables.{find, erase, has_key}
use quetz.WindowCache.State.{Cache, region_for, mode, acr_mode}
use quetz.WindowCache.Transact.{
  access, next, next_loop, complete, start, add_region, overlap_some, configure, next_chunk,
}
use quetz.WindowCache.Bank.{
  Bank, at_vcpu, put_vcpu, issued, take_response, complete_request, configure_bank, active,
  some_active, empty_bank, Use, transacts, issues, use_bank, use_all, use_cache,
}
use quetz.WindowCache.Owners.{open_for, outstanding_at}
use quetz.WindowCache.Answered.{answered_once}

-- A read that the cache starts, up to its first request.
abbrev read_word : Cache → Outcome Cache
read_word = λ c. access c 4096 4 false [] >>= (λ d. next d >>= (λ r. ok (r.0)))

abbrev uses : List Use
uses = transacts 0 read_word ∷ issues 0 7 true ∷ []

abbrev word : List ℕ
word = 1 ∷ 2 ∷ 3 ∷ 4 ∷ []

abbrev used : Outcome Bank
used = configure_bank 1 4096 4096 empty_bank >>= (λ x. use_all uses x)

abbrev bank_of : Outcome Bank → Bank
bank_of (ok b) = b
bank_of (err e) = empty_bank

abbrev waiting : Bank
waiting = bank_of used

abbrev taken : Bank
taken = bank_of (complete_request 7 0 true word waiting)

used-ok : used ≡ ok waiting
unfolding find has_key erase access next next_loop next_chunk complete start add_region overlap_some
    configure at_vcpu put_vcpu issued take_response complete_request configure_bank active
    some_active use_bank use_all use_cache region_for mode acr_mode
    quetz.WindowCache.State.find_from
used-ok = refl

taken-ok : complete_request 7 0 true word waiting ≡ ok taken
unfolding find has_key erase access next next_loop next_chunk complete start add_region overlap_some
    configure at_vcpu put_vcpu issued take_response complete_request configure_bank active
    some_active use_bank use_all use_cache region_for mode acr_mode
    quetz.WindowCache.State.find_from
taken-ok = refl

answered_once_example :
    (find 7 waiting.pending ≡ some (record { vcpu = 0; is_read = true }))
    × (open_for 0 waiting.pending ≡ 1)
    × (outstanding_at 0 waiting.states ≡ true)
    × (open_for 0 taken.pending ≡ 0)
    × (outstanding_at 0 taken.states ≡ false)
answered_once_example =
    answered_once 1 4096 4096 uses 7 0 true word {b = waiting} {b' = taken} used-ok taken-ok
