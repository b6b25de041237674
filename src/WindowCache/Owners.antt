-- ===== src/WindowCache/Owners.antt =====
-- The requests of a bank: each core has one at most, and it is answered to the core that made it.
use quetz.Base.{
  ℕ, zero, suc, ◌+◌, ◌≡◌, Bool, true, false, not, ◌||◌, none, some, List, [], ◌∷◌, ◌==◌, ltb,
  if◌then◌else◌, Outcome, ok, err, logic_error, invalid_argument, Ensures, replicate, Ensures-bind,
  Ensures-bind_eq, Ensures-guard_false, refl, sym, subst, arith, Option-cases, inl, inr,
}
use quetz.Base.Tables.{find, erase, has_key}
use quetz.WindowCache.State.{Cache}
use quetz.WindowCache.Transact.{complete, reset, configure}
use quetz.WindowCache.Bank.{
  Request, Core, Bank, at_vcpu, put_vcpu, issued, take_response, complete_request, configure_bank,
  active, empty_bank, new_cache, Use, transacts, issues, answers, resets, use_bank, use_all,
  reset_core, use_cache,
}

-- The requests that are open for a core.
abbrev pub open_for : ℕ → List (ℕ × Request) → ℕ
open_for v [] = 0
open_for v ((id, p) ∷ t) = (if p.vcpu == v then 1 else 0) + open_for v t

abbrev pub outstanding_at : ℕ → List Core → Bool
outstanding_at v [] = false
outstanding_at zero (u ∷ us) = u.outstanding
outstanding_at (suc v) (u ∷ us) = outstanding_at v us

-- A core has a request open, exactly one, where it is marked so.
unfoldable pub Owners : Bank → Type 0
Owners b = (v : ℕ) → open_for v b.pending ≡ (if outstanding_at v b.states then 1 else 0)

pub outstanding-put :
    (v w : ℕ) (x : Core) (l : List Core) {u : Core}
    → at_vcpu v l ≡ ok u
    → outstanding_at w (put_vcpu v x l) ≡ (if w == v then x.outstanding else outstanding_at w l)
unfolding at_vcpu put_vcpu
outstanding-put v w x [] e = absurd (cc)
outstanding-put zero zero x (y ∷ l) e = refl
outstanding-put zero (suc w) x (y ∷ l) e = ground arith
outstanding-put (suc v) zero x (y ∷ l) e = ground arith
outstanding-put (suc v) (suc w) x (y ∷ l) {u} e = ground (arith, outstanding-put v w x l {u = u})

at-outstanding :
    (v : ℕ) (l : List Core) {u : Core} → at_vcpu v l ≡ ok u → u.outstanding ≡ outstanding_at v l
unfolding at_vcpu
at-outstanding v [] e = absurd (cc)
at-outstanding zero (y ∷ l) e = cc
at-outstanding (suc v) (y ∷ l) {u} e = at-outstanding v l {u = u} e

pub own :
    (v w : ℕ) (u : Core) (l : List Core)
    → at_vcpu v l ≡ ok u
    → (w == v) ≡ true
    → outstanding_at w l ≡ u.outstanding
own v w u l e q =
    let wv : v ≡ w = ground (arith, q) in
    sym (subst (λ x. u.outstanding ≡ outstanding_at x l) wv (at-outstanding v l {u = u} e))

pub open_for-erase :
    (v id : ℕ) (t : List (ℕ × Request)) {p : Request}
    → find id t ≡ some p
    → open_for v (erase id t) + (if p.vcpu == v then 1 else 0) ≡ open_for v t
unfolding find erase
open_for-erase v id [] e = absurd (cc)
open_for-erase v id ((j, q) ∷ t) {p} e = ground (arith, open_for-erase v id t {p = p})

-- The core's own count, and that of another, once a core is replaced.
issued-Owners : (v id : ℕ) (r : Bool) (b : Bank) → Owners b → Ensures Owners (issued v id r b)
unfolding issued Owners
issued-Owners v id r b o = Ensures-bind_eq Owners (at_vcpu v b.states) _ (λ u e.
    Ensures-guard_false Owners (not u.cache.active || u.outstanding || has_key id b.pending)
      logic_error _
      (λ k w. ground (
        arith,
        k,
        o w,
        own v w u b.states e,
        outstanding-put v w (record u { outstanding = true }) b.states {u = u} e,
      )))

take_response-Owners :
    (id v : ℕ) (r : Bool) (bytes : List ℕ) (p : Request) (b : Bank)
    → Owners b
    → find id b.pending ≡ some p
    → Ensures Owners (take_response id v r bytes p b)
unfolding take_response Owners
take_response-Owners id v r bytes p b o n =
    Ensures-guard_false Owners (not (p.vcpu == v) || not (if p.is_read then r else not r))
      logic_error _
      (λ k. Ensures-bind_eq Owners (at_vcpu v b.states) _ (λ u e.
        Ensures-bind_eq Owners (complete u.cache bytes) _ (λ c f w. ground (
          arith,
          k,
          o w,
          own v w u b.states e,
          open_for-erase w id b.pending {p = p} n,
          outstanding-put v w (record { cache = c; outstanding = false }) b.states {u = u} e,
        ))))

pub request_found :
    (id v : ℕ) (r : Bool) (bytes : List ℕ) (b : Bank) {p : Request}
    → find id b.pending ≡ some p
    → complete_request id v r bytes b ≡ take_response id v r bytes p b
unfolding complete_request
request_found id v r bytes b n = ground (arith, n)

pub request_missing :
    (id v : ℕ) (r : Bool) (bytes : List ℕ) (b : Bank)
    → find id b.pending ≡ none
    → complete_request id v r bytes b ≡ err logic_error
unfolding complete_request
request_missing id v r bytes b n = ground (arith, n)

complete_request-Owners :
    (id v : ℕ) (r : Bool) (bytes : List ℕ) (b : Bank)
    → Owners b
    → Ensures Owners (complete_request id v r bytes b)
complete_request-Owners id v r bytes b o = elim (Option-cases (find id b.pending)) [
  | inl n ↦ subst (Ensures Owners) (sym (request_missing id v r bytes b n)) tt
  | inr (p, n) ↦
      subst (Ensures Owners) (sym (request_found id v r bytes b n))
        (take_response-Owners id v r bytes p b o n)
]

reset_core-Owners : (v : ℕ) (b : Bank) → Owners b → Ensures Owners (reset_core v b)
unfolding reset_core Owners
reset_core-Owners v b o = Ensures-bind_eq Owners (at_vcpu v b.states) _ (λ u e.
    Ensures-guard_false Owners (u.outstanding || u.cache.active) logic_error _ (λ k.
      Ensures-bind_eq Owners (reset u.cache) _ (λ c f w. ground (
        arith,
        o w,
        own v w u b.states e,
        outstanding-put v w (record u { cache = c }) b.states {u = u} e,
      ))))

use_cache-Owners :
    (v : ℕ) (f : Cache → Outcome Cache) (b : Bank) → Owners b → Ensures Owners (use_cache v f b)
unfolding use_cache Owners
use_cache-Owners v f b o = Ensures-bind_eq Owners (at_vcpu v b.states) _ (λ u e.
    Ensures-bind_eq Owners (f u.cache) _ (λ c k w. ground (
      arith,
      o w,
      own v w u b.states e,
      outstanding-put v w (record u { cache = c }) b.states {u = u} e,
    )))

-- Any use of a bank keeps its requests apart.
pub use-Owners : (e : Use) (b : Bank) → Owners b → Ensures Owners (use_bank e b)
unfolding use_bank
use-Owners (transacts v f) b o = use_cache-Owners v f b o
use-Owners (issues v id r) b o = issued-Owners v id r b o
use-Owners (answers id v r bytes) b o = complete_request-Owners id v r bytes b o
use-Owners (resets v) b o = reset_core-Owners v b o

pub uses-Owners : (es : List Use) (b : Bank) → Owners b → Ensures Owners (use_all es b)
unfolding use_all
uses-Owners [] b o = o
uses-Owners (e ∷ es) b o =
    Ensures-bind Owners Owners (use_bank e b) (λ b'. use_all es b') (use-Owners e b o)
      (λ b' o'. uses-Owners es b' o')

fresh :
    (n v : ℕ) (c : Cache)
    → outstanding_at v (replicate n (record { cache = c; outstanding = false })) ≡ false
fresh zero v c = refl
fresh (suc n) zero c = refl
fresh (suc n) (suc v) c = fresh n v c

pub configure-Owners :
    (cores base size : ℕ) → Ensures Owners (configure_bank cores base size empty_bank)
unfolding configure_bank Owners
configure-Owners cores base size =
    Ensures-guard_false Owners (ltb cores 1 || ltb 2 cores || active empty_bank) invalid_argument _
      (λ k.
        Ensures-bind_eq Owners (configure new_cache base size) _
          (λ c e v. ground (arith, fresh cores v c)))
