-- ===== src/WindowCache/Transparent.antt =====
-- A read or a CPUSHL of src/quetz_window_cache.h, one request and its answer at a time.
use quetz.Base.{
  ℕ, ◌-◌, ◌<◌, ◌≡◌, refl, sym, ap, ◌∙◌, Bool, true, false, ◌&&◌, Option, none, some, List, [], ok,
  Bool-cases, inl, inr, ◌⊎◌, subst, arith, if◌then◌else◌,
}
use quetz.WindowCache.State.{Line, Cache, Action, done, read, write, pushed, ways}
use quetz.WindowCache.Transact.{put, next, finish}
use quetz.WindowCache.Service.{store, serve_one}
use quetz.WindowCache.View.{view, Inv}
use quetz.WindowCache.Push.{drop_clean}
use quetz.WindowCache.Rounds.{Ready, Asked, next_loop-Asks}
use quetz.WindowCache.Kept.{
  Open, Kept, answer-read, answer-write, next_access, next_push, next_drop,
}

-- What was kept since a cache with the same lines.
kept_since :
    (c c' : Cache) (m : ℕ → ℕ) (r : Cache × (ℕ → ℕ) × Option (List ℕ))
    → c'.lines ≡ c.lines
    → Kept c' m r
    → Kept c m r
kept_since c c' m r e k = record {
  inv = k.inv;
  view = λ a. k.view a ∙ ap (λ l. view l m a) e;
  ready = k.ready;
}

answer :
    (c : Cache) (m : ℕ → ℕ) (r : Cache × Action)
    → next c ≡ ok r
    → r.0.lines ≡ c.lines
    → ((bytes : List ℕ) × (r.1 ≡ done bytes)) ⊎ (Open r.0 m × Asked r.0 r.1)
    → Inv c.lines m
    → (q : Cache × (ℕ → ℕ) × Option (List ℕ)) × (serve_one c m ≡ ok q) × Kept c m q
unfolding serve_one
answer c m (c', done bytes) e l asks v = (
  (c', m, some bytes),
  ground (arith, e),
  record {
    inv = subst (λ ls. Inv ls m) (sym l) v;
    view = λ a. ap (λ ls. view ls m a) l;
    ready = λ q. absurd (ground (arith, q));
  },
)
answer c m (c', read a n) e l asks v = elim asks [
  | inl (bytes, q) ↦ absurd (ground (arith, q))
  | inr (o, asked) ↦
      let (c'', q, k) = answer-read c' m a n o asked in
      ((c'', m, none), ground (arith, e, q), kept_since c c' m (c'', m, none) l k)
]
answer c m (c', write a bytes) e l asks v = elim asks [
  | inl (b, q) ↦ absurd (ground (arith, q))
  | inr (o, asked) ↦
      let (c'', q, k) = answer-write c' m a bytes o asked in
      (
        (c'', store m a bytes, none),
        ground (arith, e, q),
        kept_since c c' m (c'', store m a bytes, none) l k,
      )
]

access-Kept :
    (c : Cache) (m : ℕ → ℕ)
    → Ready c m
    → c.pushing ≡ false
    → (q : Cache × (ℕ → ℕ) × Option (List ℕ)) × (serve_one c m ≡ ok q) × Kept c m q
access-Kept c m v p =
    let (r, e, k) = next_loop-Asks (c.count - c.offset) c m v p (omega arith) in
    answer c m r (next_access c v.active v.free p ∙ e) k.lines
      (elim (k.asks) [
        | inl finished ↦ inl finished
        | inr (active, asked) ↦ inr (
          record {
            inv = subst (λ ls. Inv ls m) (sym k.lines) v.inv;
            active = active;
            not_writing = k.writing ∙ v.not_writing;
            counter = subst (λ n. n < ways) (sym k.counter) v.counter;
            slot = λ q. absurd (ground (arith, q, p, k.pushing));
          },
          asked,
        )
      ])
      v.inv

-- The end of a CPUSHL whose line needs no write, with the lines that it leaves.
dropped :
    (c : Cache) (m : ℕ → ℕ) (lines : ℕ → Line)
    → next c ≡ ok (finish (record c { lines = lines; pushing = false }))
    → Inv lines m
    → ((a : ℕ) → view lines m a ≡ view c.lines m a)
    → (q : Cache × (ℕ → ℕ) × Option (List ℕ)) × (serve_one c m ≡ ok q) × Kept c m q
unfolding serve_one
dropped c m lines e i w = (
  (
    (finish (record c { lines = lines; pushing = false })).0,
    m,
    some (if c.writing then [] else c.bytes),
  ),
  ground (arith, e),
  record { inv = i; view = w; ready = λ q. absurd (ground (arith, q)) },
)

push-Kept :
    (c : Cache) (m : ℕ → ℕ)
    → Ready c m
    → c.pushing ≡ true
    → (q : Cache × (ℕ → ℕ) × Option (List ℕ)) × (serve_one c m ≡ ok q) × Kept c m q
push-Kept c m v p =
    let s : ℕ = c.pending_slot in
    let line : Line = c.lines s in
    elim (Bool-cases (line.valid && line.dirty)) [
      | inl dirty ↦
          let open' : Open (record c { pending = pushed }) m = record {
            inv = v.inv;
            active = v.active;
            not_writing = v.not_writing;
            counter = v.counter;
            slot = v.slot;
          } in
          answer c m (record c { pending = pushed }, write line.address line.bytes)
            (next_push c v.active v.free p dirty) refl
            (inr (open', (inr refl, v.slot p, ground (arith, dirty), refl, refl))) v.inv
      | inr clean ↦
          let d = drop_clean c.lines m s v.inv (v.slot p) clean in
          let lines : Bool → ℕ → Line =
            λ b. if b then put c.lines s (record line { valid = false }) else c.lines in
          let e = next_drop c v.active v.free p clean in
          elim (Bool-cases c.invalidate_push) [
            | inl drops ↦
                dropped c m (lines true)
                  (e
                    ∙ ap (λ (b : Bool). ok (finish (record c { lines = lines b; pushing = false })))
                        drops)
                  d.0 d.1
            | inr stays ↦
                dropped c m c.lines
                  (e
                    ∙ ap (λ (b : Bool). ok (finish (record c { lines = lines b; pushing = false })))
                        stays)
                  v.inv (λ a. refl)
          ]
    ]

-- A cache in a read or a CPUSHL with no request open, whose valid lines are aligned, full, in
-- their sets, of different addresses, and equal to the memory where they are not dirty. next and
-- complete succeed with the memory's answer, the lines are again so, and no address reads
-- differently than before: from its line where it is cached, else from the memory.
pub serve_one-Kept :
    (c : Cache) (m : ℕ → ℕ)
    → Ready c m
    → (q : Cache × (ℕ → ℕ) × Option (List ℕ)) × (serve_one c m ≡ ok q) × Kept c m q
serve_one-Kept c m v = elim (Bool-cases c.pushing) [
  | inl p ↦ push-Kept c m v p
  | inr p ↦ access-Kept c m v p
]
