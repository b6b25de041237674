-- ===== src/Emitter/Flight.antt =====
-- The requests in flight: their count, their distinct ids, and the response to each.
use quetz.Base.{
  ℕ, zero, suc, ◌+◌, ◌-◌, ◌≤◌, ◌<◌, ◌^◌, ◌≡◌, ◌≢◌, refl, sym, inl, inr, Option-cases, Bool, none,
  some, List, [], ◌∷◌, ltb, length, add64, add32, arith, ◌⊎◌,
}
use quetz.Memory.{memory_chunk_size}
use quetz.Memory.Spans.{memory_chunk_size_bounds}
use quetz.Base.{Bool-cases, ◌&&◌}
use quetz.Emitter.{
  Emitter, PendingReq, Access, Request, send, send_part, issue_loop, find_pending, erase_pending,
  handle_response,
}

-- Ids fall along the list, newest first, and stay under the bound.
abbrev Below : ℕ → List PendingReq → Type 0
Below n [] = Unit {0}
Below n (p ∷ ps) = (p.id < n) × Below p.id ps

pub record Inv (e : Emitter) : Type 0 where
  pub ids : Below e.next_id e.pending_txns
  pub counted : e.pending_count ≡ length e.pending_txns

Below-mono : (m n : ℕ) (ps : List PendingReq) → m ≤ n → Below m ps → Below n ps
Below-mono m n [] h b = tt
Below-mono m n (p ∷ ps) h b = (omega arith, b.1)

erase-Below : (id n : ℕ) (ps : List PendingReq) → Below n ps → Below n (erase_pending id ps)
unfolding erase_pending
erase-Below id n [] b = tt
erase-Below id n (p ∷ ps) b = ground (arith, Below-mono p.id n ps, erase-Below id p.id ps b.1)

find_above : (id n : ℕ) (ps : List PendingReq) → Below n ps → n ≤ id → find_pending id ps ≡ none
unfolding find_pending
find_above id n [] b h = refl
find_above id n (p ∷ ps) b h = ground (arith, find_above id p.id ps b.1)

find-erase :
    (id n : ℕ) (ps : List PendingReq) → Below n ps → find_pending id (erase_pending id ps) ≡ none
unfolding find_pending erase_pending
find-erase id n [] b = refl
find-erase id n (p ∷ ps) b = ground (arith, find_above id p.id ps b.1, find-erase id p.id ps b.1)

find-erase_ne :
    (id j : ℕ) (ps : List PendingReq)
    → id ≢ j
    → find_pending j (erase_pending id ps) ≡ find_pending j ps
unfolding find_pending erase_pending
find-erase_ne id j [] h = refl
find-erase_ne id j (p ∷ ps) h = ground (arith, find-erase_ne id j ps h)

length-erase :
    (id : ℕ) (ps : List PendingReq) {p : PendingReq}
    → find_pending id ps ≡ some p
    → length (erase_pending id ps) + 1 ≡ length ps
unfolding find_pending erase_pending
length-erase id [] h = absurd (cc)
length-erase id (q ∷ ps) {p} h = ground (arith, length-erase id ps {p = p})

send-Inv :
    (e : Emitter) (now : ℕ) (m : Bool) (req : Request)
    → Inv e
    → e.pending_count + 1 < 2 ^ 32
    → Inv (send e now m req)
unfolding send
send-Inv e now m req v h = ground arith

-- In an emitter whose requests in flight are counted and have distinct ids, fewer than 2^32 of
-- them, the response to a request in flight is taken once: it is reported with the cycles since
-- the issue, it leaves the other requests in flight, one fewer by count, and a second response
-- with its id is not owned. A response that is not tracked changes nothing.
pub handle_response_once :
    (e : Emitter) (now id : ℕ) (is_read : Bool)
    → Inv e
    → e.pending_count < 2 ^ 32
    → let (e', r) = handle_response e now id is_read in
      Inv e'
      × ((j : ℕ) → j ≢ id → find_pending j e'.pending_txns ≡ find_pending j e.pending_txns)
      × (((find_pending id e.pending_txns ≡ none) × (r ≡ none) × (e' ≡ e))
          ⊎ ((p : PendingReq) × (find_pending id e.pending_txns ≡ some p)
              × (r
                  ≡ some (record {
                    latency = now - p.issue_cycle;
                    was_read = is_read;
                    was_mmio = p.is_mmio;
                  }))
              × (e'.pending_count + 1 ≡ e.pending_count)
              × (find_pending id e'.pending_txns ≡ none)))
unfolding handle_response
handle_response_once e now id is_read v h = elim (Option-cases (find_pending id e.pending_txns)) [
  | inl missing ↦ rw (missing, handle_response) (v, (λ j ne. refl), inl (refl, refl, refl))
  | inr (p, found) ↦
      rw (found, handle_response)
        (
          record {
            ids = erase-Below id e.next_id e.pending_txns v.ids;
            counted = ground (arith, length-erase id e.pending_txns found);
          },
          (λ j ne. find-erase_ne id j e.pending_txns (λ q. ne (sym q))),
          inr (
            p,
            refl,
            ground arith,
            ground (arith, length-erase id e.pending_txns found),
            find-erase id e.next_id e.pending_txns v.ids,
          ),
        )
]

send_part-Inv :
    (acc : Access) (e : Emitter) (now addr offset chunk : ℕ)
    → Inv e
    → e.pending_count + 1 < 2 ^ 32
    → Inv (send_part acc e now addr offset chunk)
      × ((send_part acc e now addr offset chunk).pending_count ≡ e.pending_count + 1)
      × ((send_part acc e now addr offset chunk).cache_line_size ≡ e.cache_line_size)
unfolding send_part
send_part-Inv acc e now addr offset chunk v h = ground arith

-- The issue loop keeps the requests in flight counted and their ids distinct, and adds as many as
-- the parts that it sends, where a cache line is not empty and the requests in flight and the
-- bytes left are fewer than 2^32 together.
pub issue_loop-Inv :
    (fuel : ℕ) (acc : Access) (e : Emitter) (now addr offset remaining parts budget : ℕ)
    → Inv e
    → 0 < e.cache_line_size
    → e.pending_count + remaining < 2 ^ 32
    → let r = issue_loop fuel acc e now addr offset remaining parts budget in
      Inv r.0 × (r.0.pending_count + parts ≡ e.pending_count + r.2)
unfolding issue_loop
issue_loop-Inv zero acc e now addr offset remaining parts budget v hl h = (v, refl)
issue_loop-Inv (suc k) acc e now addr offset remaining parts budget v hl h =
    let c : ℕ = memory_chunk_size addr remaining e.cache_line_size remaining in
    elim (Bool-cases (ltb 0 remaining && ltb parts budget)) [
      | inr stop ↦ rw stop (v, refl)
      | inl going ↦
          let g : 0 < remaining = ground arith in
          let b = memory_chunk_size_bounds addr remaining e.cache_line_size remaining g g in
          let s = send_part-Inv acc e now addr offset c v (omega arith) in
          let ih =
            issue_loop-Inv k acc (send_part acc e now addr offset c) now (add64 addr c)
              (add32 offset c) (remaining - c) (parts + 1) budget s.0 (omega (arith, s))
              (omega (arith, s, b)) in
          rw going (ih.0, omega (arith, ih.1, s.1))
    ]
