-- ===== src/Mailbox/Exclusive.antt =====
-- Every answer goes to the thread whose request it answers, and each request has one.
use quetz.Base.{
  Bool, not, ◌||◌, ◌&&◌, length, ℕ, ◌≡◌, ◌≢◌, ◌⊎◌, inl, inr, true, false, List, [], ◌∷◌, ◌==◌, refl,
  sym, subst, ap, ◌∙◌, arith, Bool-cases,
}
use quetz.Mailbox.Slot.{
  Simulation, Request, Thread, away, locked, ready_cleared, cleared, addr_written, size_written,
  value_written, written, waiting, ready_seen, loaded, consumed, at_rest, World, start, at_thread,
  lock, wait, go_on, call, poll, post_value, simulate, Turn, calls, goes_on, polls, posts,
  simulates, turn, turns,
}
use quetz.Mailbox.Stages.{
  Calm, Answered, Stage, Due, poll-Stage, simulate-Stage, post-Stage, poll-Calm, simulate-Calm,
}

-- The slot is free and no thread is in a call, or one thread owns it and the others are away.
pub data Owned (w : World) : Type 0 where
  free : w.slot.busy ≡ 0 → ((t : ℕ) → w.threads t ≡ away) → Calm w → Owned w
  held :
      (t : ℕ)
      → w.slot.busy ≡ 1
      → ((u : ℕ) → u ≢ t → w.threads u ≡ away)
      → Stage (w.threads t) w
      → Owned w

holds :
    (t : ℕ) (q : Thread) (w : World)
    → w.slot.busy ≡ 1
    → ((u : ℕ) → u ≢ t → w.threads u ≡ away)
    → w.threads t ≡ q
    → Stage q w
    → Owned w
holds t q w b o e h = held t b o (subst (λ x. Stage x w) (sym e) h)

-- Where the flag is set, the answer is there.
answer :
    (q : Request) (w : World) → Stage (waiting q) w → w.slot.ready ≢ 0 → Answered q w.slot.value w
answer q w (inl h) n = absurd (n h.4)
answer q w (inr (inl h)) n = absurd (n h.3)
answer q w (inr (inr (inl h))) n = absurd (n h.3)
answer q w (inr (inr (inr h))) n = h

-- The owner goes on: it stays the owner, or frees the slot.
own : (t : ℕ) (q : Thread) (w : World) → at_thread t q w.threads t ≡ q
own t q w = ground arith

goes-Owned :
    (t : ℕ) (q : Thread) (w : World)
    → w.slot.busy ≡ 1
    → ((u : ℕ) → u ≢ t → w.threads u ≡ away)
    → w.threads t ≡ q
    → Stage q w
    → Owned (go_on t q w)
unfolding go_on wait
goes-Owned t away w b o e h = absurd h
goes-Owned t (locked q) w b o e h =
    holds t (ready_cleared q) _ b (λ u n. ground (arith, o u n, n)) (own t (ready_cleared q) w)
      (ground (arith, h))
goes-Owned t (ready_cleared q) w b o e h =
    holds t (cleared q) _ b (λ u n. ground (arith, o u n, n)) (own t (cleared q) w)
      (ground (arith, h))
goes-Owned t (cleared q) w b o e h =
    holds t (addr_written q) _ b (λ u n. ground (arith, o u n, n)) (own t (addr_written q) w)
      (h, refl)
goes-Owned t (addr_written q) w b o e h =
    holds t (size_written q) _ b (λ u n. ground (arith, o u n, n)) (own t (size_written q) w)
      (h.0, h.1, refl)
goes-Owned t (size_written q) w b o e h =
    holds t (value_written q) _ b (λ u n. ground (arith, o u n, n)) (own t (value_written q) w)
      (h.0, h.1, h.2, refl)
goes-Owned t (value_written q) w b o e h =
    holds t (written q) _ b (λ u n. ground (arith, o u n, n)) (own t (written q) w)
      (h.0, ground (arith, h.1, h.2, h.3))
goes-Owned t (written q) w b o e h =
    holds t (waiting q) _ b (λ u n. ground (arith, o u n, n)) (own t (waiting q) w)
      (inl (ground (arith, h)))
goes-Owned t (waiting q) w b o e h = elim (Bool-cases (w.slot.ready == 0)) [
  | inl c ↦ rw c (holds t (waiting q) w b o e h)
  | inr c ↦ rw c (
      holds t (ready_seen q) _ b (λ u n. ground (arith, o u n, n)) (own t (ready_seen q) w)
        (answer q w h (ground (arith, c))))
]
goes-Owned t (ready_seen q) w b o e h =
    holds t (loaded q w.slot.value) _ b (λ u n. ground (arith, o u n, n))
      (own t (loaded q w.slot.value) w) (ground (arith, h))
goes-Owned t (loaded q v) w b o e h =
    holds t (consumed q v) _ b (λ u n. ground (arith, o u n, n)) (own t (consumed q v) w)
      (ground (arith, h))
goes-Owned t (consumed q v) w b o e h =
    free refl
      (λ u. elim (Bool-cases (u == t)) [
        | inl c ↦ ground (arith, c)
        | inr c ↦ ground (arith, c, o u (ground (arith, c)))
      ])
      (ground (arith, h))

lock-Owned : (t : ℕ) (q : Request) (w : World) → Owned w → Owned (lock t q w)
unfolding lock
lock-Owned t q w (free b o h) =
    let e : (w.slot.busy == 0) ≡ true = ground (arith, b) in
    rw e (
      holds t (locked q) _ refl (λ u n. ground (arith, o u, n)) (own t (locked q) w)
        (ground (arith, h)))
lock-Owned t q w (held u b o h) =
    let e : (w.slot.busy == 0) ≡ false = ground (arith, b) in rw e (held u b o h)

call-Owned : (t : ℕ) (q : Request) (x : Thread) (w : World) → Owned w → Owned (call t q x w)
unfolding call
call-Owned t q away w o = lock-Owned t q w o
call-Owned t q (locked r) w o = o
call-Owned t q (ready_cleared r) w o = o
call-Owned t q (cleared r) w o = o
call-Owned t q (addr_written r) w o = o
call-Owned t q (size_written r) w o = o
call-Owned t q (value_written r) w o = o
call-Owned t q (written r) w o = o
call-Owned t q (waiting r) w o = o
call-Owned t q (ready_seen r) w o = o
call-Owned t q (loaded r v) w o = o
call-Owned t q (consumed r v) w o = o

away_stays : (t : ℕ) (w : World) → w.threads t ≡ away → go_on t (w.threads t) w ≡ w
unfolding go_on
away_stays t w e = ap (λ x. go_on t x w) e

goes_on-Owned : (t : ℕ) (w : World) → Owned w → Owned (go_on t (w.threads t) w)
goes_on-Owned t w (free b o h) = subst Owned (sym (away_stays t w (o t))) (free b o h)
goes_on-Owned t w (held u b o h) = elim (Bool-cases (t == u)) [
  | inl c ↦
      let e : u ≡ t = ground (arith, c) in
      subst (λ x. Owned (go_on x (w.threads x) w)) e (goes-Owned u (w.threads u) w b o refl h)
  | inr c ↦ subst Owned (sym (away_stays t w (o t (ground (arith, c))))) (held u b o h)
]

-- What a turn of the simulation leaves to the threads.
record Beside (w x : World) : Type 0 where
  pub busy : x.slot.busy ≡ w.slot.busy
  pub threads : x.threads ≡ w.threads

beside-Owned :
    (w x : World)
    → Beside w x
    → (Calm w → Calm x)
    → ((q : Thread) → Stage q w → Stage q x)
    → Owned w
    → Owned x
beside-Owned w x s c g (free b o h) = free (s.busy ∙ b) (λ t. ap (λ f. f t) s.threads ∙ o t) (c h)
beside-Owned w x s c g (held t b o h) =
    held t (s.busy ∙ b) (λ u n. ap (λ f. f u) s.threads ∙ o u n)
      (subst (λ f. Stage (f t) x) (sym s.threads) (g (w.threads t) h))

poll-Beside : (w : World) → Beside w (poll w.simulation w)
unfolding poll
poll-Beside w = ground arith

post-Beside : (v : ℕ) (w : World) → Beside w (post_value v w.simulation w)
unfolding post_value
post-Beside v w = ground arith

simulate-Beside : (w : World) → Beside w (simulate w.simulation w)
unfolding simulate
simulate-Beside w = ground arith

abbrev resting : Simulation → Bool
resting at_rest = true
resting _ = false

-- Whether a turn in which postResponse begins comes while a request is taken and not answered.
unfoldable pub due : Turn → World → Bool
due (posts v) w = not (resting w.simulation) || not (length w.serving == 0)
due _ w = true

unfoldable pub all_due : List Turn → World → Bool
all_due [] w = true
all_due (t ∷ ts) w = due t w && all_due ts (turn t w)

due-Due : (v : ℕ) (w : World) → due (posts v) w ≡ true → Due w
unfolding due
due-Due v w e f g = absurd (ground (arith, e, f, g))

turn-Owned : (t : Turn) (w : World) → due t w ≡ true → Owned w → Owned (turn t w)
unfolding turn
turn-Owned (calls t q) w d o = call-Owned t q (w.threads t) w o
turn-Owned (goes_on t) w d o = goes_on-Owned t w o
turn-Owned polls w d o =
    beside-Owned w (poll w.simulation w) (poll-Beside w) (poll-Calm w) (λ q. poll-Stage q w) o
turn-Owned (posts v) w d o =
    beside-Owned w (post_value v w.simulation w) (post-Beside v w)
      (λ h. absurd (due-Due v w d h.2 h.1)) (λ q. post-Stage v q w (due-Due v w d)) o
turn-Owned simulates w d o =
    beside-Owned w (simulate w.simulation w) (simulate-Beside w) (simulate-Calm w)
      (λ q. simulate-Stage q w) o

-- Whatever the turns are, the slot has one owner at most, and is as its access says.
turns-Owned : (ts : List Turn) (w : World) → all_due ts w ≡ true → Owned w → Owned (turns ts w)
unfolding turns all_due
turns-Owned [] w d o = o
turns-Owned (t ∷ ts) w d o =
    turns-Owned ts (turn t w) (ground (arith, d)) (turn-Owned t w (ground (arith, d)) o)

start-Owned : Owned start
start-Owned = free refl (λ t. refl) (refl, refl, refl, refl, refl)

-- What the threads got is what was answered, in order, less an answer that is on its way.
abbrev pub Delivered : World → Type 0
Delivered w = (w.answers ≡ w.results) ⊎ ((q : Request) × (v : ℕ) × (w.answers ≡ (q, v) ∷ w.results))

Stage-Delivered : (q : Thread) (w : World) → Stage q w → Delivered w
Stage-Delivered away w h = absurd h
Stage-Delivered (locked q) w h = inl h.4
Stage-Delivered (ready_cleared q) w h = inl h.4
Stage-Delivered (cleared q) w h = inl h.4
Stage-Delivered (addr_written q) w h = inl h.0.4
Stage-Delivered (size_written q) w h = inl h.0.4
Stage-Delivered (value_written q) w h = inl h.0.4
Stage-Delivered (written q) w h = inl h.0.4
Stage-Delivered (waiting q) w (inl h) = inl h.5
Stage-Delivered (waiting q) w (inr (inl h)) = inl h.4
Stage-Delivered (waiting q) w (inr (inr (inl h))) = inr (q, w.slot.value, h.4)
Stage-Delivered (waiting q) w (inr (inr (inr h))) = inr (q, w.slot.value, h.5)
Stage-Delivered (ready_seen q) w h = inr (q, w.slot.value, h.5)
Stage-Delivered (loaded q v) w h = inr (q, v, h.5)
Stage-Delivered (consumed q v) w h = inr (q, v, h.4)

-- Threads that call quetz_ipc_mmio_read or quetz_ipc_mmio_write for a vCPU, and a simulation that
-- polls for requests and posts responses, take turns from the cleared slot, one access to the
-- shared memory each. If each call of postResponse begins while a request is taken and not
-- answered, then the results that the calls returned, each with the call's request, are the
-- answers in order, each with the request that the simulation read out of the slot, but for one
-- answer at most, the last, that is not yet returned.
pub turns-Delivered : (ts : List Turn) → all_due ts start ≡ true → Delivered (turns ts start)
turns-Delivered ts d = elim (turns-Owned ts start d start-Owned) [
  | free b o h ↦ inl h.4
  | held t b o h ↦ Stage-Delivered ((turns ts start).threads t) (turns ts start) h
]
