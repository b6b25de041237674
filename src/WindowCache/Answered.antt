-- ===== src/WindowCache/Answered.antt =====
-- A response of the memory behind a bank, taken once, by the core whose request it answers.
use quetz.Base.{
  ℕ, ◌≡◌, Bool, true, false, not, ◌||◌, some, List, ◌==◌, if◌then◌else◌, ok, logic_error, ◌>>=◌,
  ◌∙◌, Ensures, Ensures-ok, Ensures-bind, Ensures-bind_eq, Ensures-guard_false, sym, arith,
  Option-cases, inl, inr,
}
use quetz.Base.Tables.{find}
use quetz.WindowCache.Transact.{complete}
use quetz.WindowCache.Bank.{
  Request, Bank, at_vcpu, take_response, complete_request, configure_bank, empty_bank, Use, use_all,
}
use quetz.WindowCache.Owners.{
  open_for, outstanding_at, Owners, own, outstanding-put, open_for-erase, request_found,
  request_missing, configure-Owners, uses-Owners,
}

record Answer (id v : ℕ) (r : Bool) (b c : Bank) : Type 0 where
  pub request : find id b.pending ≡ some (record { vcpu = v; is_read = r })
  pub one : open_for v b.pending ≡ 1
  pub marked : outstanding_at v b.states ≡ true
  pub none_left : open_for v c.pending ≡ 0
  pub unmarked : outstanding_at v c.states ≡ false

self : (v : ℕ) → (v == v) ≡ true
self v = ground arith

same_request :
    (p : Request) (v : ℕ) (r : Bool)
    → (not (p.vcpu == v) || not (if p.is_read then r else not r)) ≡ false
    → p ≡ record { vcpu = v; is_read = r }
same_request p v r k = ground (arith, k)

take_response-Answer :
    (id v : ℕ) (r : Bool) (bytes : List ℕ) (p : Request) (b : Bank)
    → Owners b
    → find id b.pending ≡ some p
    → Ensures (Answer id v r b) (take_response id v r bytes p b)
unfolding take_response Owners
take_response-Answer id v r bytes p b o n =
    Ensures-guard_false (Answer id v r b)
      (not (p.vcpu == v) || not (if p.is_read then r else not r)) logic_error _
      (λ k. Ensures-bind_eq (Answer id v r b) (at_vcpu v b.states) _ (λ u e.
        Ensures-bind_eq (Answer id v r b) (complete u.cache bytes) _ (λ c f. ground (
          arith,
          k,
          n,
          same_request p v r k,
          o v,
          self v,
          own v v u b.states e,
          open_for-erase v id b.pending {p = p} n,
          outstanding-put v v (record { cache = c; outstanding = false }) b.states {u = u} e,
        ))))

-- A bank that is configured from the empty one and then used in any way, where a response to it is
-- taken without an error: the response's request was open, by the core that is answered and of the
-- same kind; it was that core's only open request, and the core was marked as waiting. After it
-- the core has no open request and is not marked.
pub answered_once :
    (cores base size : ℕ) (es : List Use) (id v : ℕ) (r : Bool) (bytes : List ℕ) {b b' : Bank}
    → (configure_bank cores base size empty_bank >>= (λ x. use_all es x)) ≡ ok b
    → complete_request id v r bytes b ≡ ok b'
    → (find id b.pending ≡ some (record { vcpu = v; is_read = r }))
      × (open_for v b.pending ≡ 1)
      × (outstanding_at v b.states ≡ true)
      × (open_for v b'.pending ≡ 0)
      × (outstanding_at v b'.states ≡ false)
answered_once cores base size es id v r bytes {b} {b'} e f =
    let o : Owners b =
      Ensures-ok Owners (configure_bank cores base size empty_bank >>= (λ x. use_all es x))
        (Ensures-bind Owners Owners (configure_bank cores base size empty_bank) (λ x. use_all es x)
          (configure-Owners cores base size) (λ x k. uses-Owners es x k))
        e in
    elim (Option-cases (find id b.pending)) [
      | inl n ↦ absurd (ground (arith, f, request_missing id v r bytes b n))
      | inr (p, n) ↦
          let a =
            Ensures-ok (Answer id v r b) (take_response id v r bytes p b)
              (take_response-Answer id v r bytes p b o n)
              (sym (request_found id v r bytes b n) ∙ f) in
          (a.request, a.one, a.marked, a.none_left, a.unmarked)
    ]
