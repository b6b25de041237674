-- ===== src/Mailbox/Stages.antt =====
-- The request and the response slot of one vCPU, by where the thread of QEMU that owns it is, and what
-- the accesses of the simulation make of it: pollMmioSyncMailbox of src/quetzcpu_mmio_sync.cc and
-- postResponse of src/quetz_mmio_sync.h.
use quetz.Base.{ℕ, ◌≡◌, ◌≢◌, ◌⊎◌, inl, inr, [], ◌∷◌, refl, sym, subst, ap, arith}
use quetz.Mailbox.Slot.{
  Request, Thread, away, locked, ready_cleared, cleared, addr_written, size_written, value_written,
  written, waiting, ready_seen, loaded, consumed, Simulation, at_rest, pending_seen, cmd_loaded,
  addr_loaded, size_loaded, request_loaded, value_posted, World, poll, answer_to, others,
  post_value, simulate,
}

-- The simulation has no request and is at rest, and what it answered is what the threads got.
abbrev pub Calm : World → Type 0
Calm w =
    (w.slot.pending ≡ 0)
    × (w.serving ≡ [])
    × (w.simulation ≡ at_rest)
    × (w.slot.ready ≡ 0)
    × (w.answers ≡ w.results)

-- The answer `v` to `q` is there, and the thread has not returned with it.
abbrev pub Answered : Request → ℕ → World → Type 0
Answered q v w =
    (w.slot.pending ≡ 0)
    × (w.serving ≡ [])
    × (w.simulation ≡ at_rest)
    × (w.slot.ready ≡ 1)
    × (w.slot.value ≡ v)
    × (w.answers ≡ (q, v) ∷ w.results)

-- The simulation has loaded of the request what it has.
abbrev pub Loading : Request → Simulation → Type 0
Loading q at_rest = Unit {0}
Loading q pending_seen = Unit {0}
Loading q (cmd_loaded c) = c ≡ q.cmd
Loading q (addr_loaded c a) = (c ≡ q.cmd) × (a ≡ q.addr)
Loading q (size_loaded c a n) = (c ≡ q.cmd) × (a ≡ q.addr) × (n ≡ q.size)
Loading q (request_loaded r) = r ≡ q
Loading q value_posted = ⊥

-- A request is published and not taken; taken and not answered; or its value is stored.
abbrev pub Published : Request → World → Type 0
Published q w =
    (w.slot.pending ≡ 1)
    × (w.slot.fields ≡ q)
    × (w.serving ≡ [])
    × Loading q w.simulation
    × (w.slot.ready ≡ 0)
    × (w.answers ≡ w.results)

abbrev pub Taken : Request → World → Type 0
Taken q w =
    (w.slot.pending ≡ 0)
    × (w.serving ≡ q ∷ [])
    × (w.simulation ≡ at_rest)
    × (w.slot.ready ≡ 0)
    × (w.answers ≡ w.results)

abbrev pub Posted : Request → World → Type 0
Posted q w =
    (w.slot.pending ≡ 0)
    × (w.serving ≡ [])
    × (w.simulation ≡ value_posted)
    × (w.slot.ready ≡ 0)
    × (w.answers ≡ (q, w.slot.value) ∷ w.results)

-- What holds while the thread that owns the slot is past one of its accesses.
abbrev pub Stage : Thread → World → Type 0
Stage away w = ⊥
Stage (locked q) w = Calm w
Stage (ready_cleared q) w = Calm w
Stage (cleared q) w = Calm w
Stage (addr_written q) w = Calm w × (w.slot.fields.addr ≡ q.addr)
Stage (size_written q) w = Calm w × (w.slot.fields.addr ≡ q.addr) × (w.slot.fields.size ≡ q.size)
Stage (value_written q) w =
    Calm w
    × (w.slot.fields.addr ≡ q.addr)
    × (w.slot.fields.size ≡ q.size)
    × (w.slot.fields.write_val ≡ q.write_val)
Stage (written q) w = Calm w × (w.slot.fields ≡ q)
Stage (waiting q) w = Published q w ⊎ (Taken q w ⊎ (Posted q w ⊎ Answered q w.slot.value w))
Stage (ready_seen q) w = Answered q w.slot.value w
Stage (loaded q v) w = Answered q v w
Stage (consumed q v) w =
    (w.slot.pending ≡ 0)
    × (w.serving ≡ [])
    × (w.simulation ≡ at_rest)
    × (w.slot.ready ≡ 0)
    × (w.answers ≡ (q, v) ∷ w.results)

-- Where the thread does not wait, no access of the simulation is open, and no request.
abbrev Quiet : World → Type 0
Quiet w = (w.slot.pending ≡ 0) × (w.serving ≡ []) × (w.simulation ≡ at_rest)

Stage-Quiet : (q : Thread) (w : World) → Stage q w → Quiet w ⊎ ((r : Request) × (q ≡ waiting r))
Stage-Quiet away w h = absurd h
Stage-Quiet (locked q) w h = inl (h.0, h.1, h.2)
Stage-Quiet (ready_cleared q) w h = inl (h.0, h.1, h.2)
Stage-Quiet (cleared q) w h = inl (h.0, h.1, h.2)
Stage-Quiet (addr_written q) w h = inl (h.0.0, h.0.1, h.0.2)
Stage-Quiet (size_written q) w h = inl (h.0.0, h.0.1, h.0.2)
Stage-Quiet (value_written q) w h = inl (h.0.0, h.0.1, h.0.2)
Stage-Quiet (written q) w h = inl (h.0.0, h.0.1, h.0.2)
Stage-Quiet (waiting q) w h = inr (q, refl)
Stage-Quiet (ready_seen q) w h = inl (h.0, h.1, h.2)
Stage-Quiet (loaded q v) w h = inl (h.0, h.1, h.2)
Stage-Quiet (consumed q v) w h = inl (h.0, h.1, h.2)

poll-quiet : (w : World) → w.slot.pending ≡ 0 → w.simulation ≡ at_rest → poll w.simulation w ≡ w
unfolding poll
poll-quiet w p h = ground (arith, p, h)

poll-quiet_posted : (w : World) → w.simulation ≡ value_posted → poll w.simulation w ≡ w
unfolding poll
poll-quiet_posted w h = ap (λ x. poll x w) h

simulate-quiet : (w : World) → w.simulation ≡ at_rest → simulate w.simulation w ≡ w
unfolding simulate
simulate-quiet w h = ap (λ x. simulate x w) h

-- A load of the simulation gets what the request is.
poll-Published :
    (q : Request) (x : Simulation) (w : World)
    → w.simulation ≡ x
    → Published q w
    → Published q (poll x w)
unfolding poll
poll-Published q at_rest w e h = ground (arith, h)
poll-Published q pending_seen w e h = h
poll-Published q (cmd_loaded c) w e h = h
poll-Published q (addr_loaded c a) w e h = h
poll-Published q (size_loaded c a n) w e h = h
poll-Published q (request_loaded r) w e h = h
poll-Published q value_posted w e h = h

-- Each load gets the field of the request that is published, and what is taken is that request.
simulate-Published :
    (q : Request) (x : Simulation) (w : World)
    → Loading q x
    → w.simulation ≡ x
    → Published q w
    → Published q (simulate x w) ⊎ Taken q (simulate x w)
unfolding simulate
simulate-Published q at_rest w l e h = inl h
simulate-Published q pending_seen w l e h =
    inl (h.0, h.1, h.2, ap (λ (r : Request). r.cmd) h.1, h.4, h.5)
simulate-Published q (cmd_loaded c) w l e h =
    inl (h.0, h.1, h.2, (l, ap (λ (r : Request). r.addr) h.1), h.4, h.5)
simulate-Published q (addr_loaded c a) w l e h =
    inl (h.0, h.1, h.2, (l.0, l.1, ap (λ (r : Request). r.size) h.1), h.4, h.5)
simulate-Published q (size_loaded c a n) w l e h =
    inl (h.0, h.1, h.2, ground (arith, l, h.1), h.4, h.5)
simulate-Published q (request_loaded r) w l e h = inr (ground (arith, l, h))
simulate-Published q value_posted w l e h = absurd l

poll-waiting :
    (q : Request) (w : World) → Stage (waiting q) w → Stage (waiting q) (poll w.simulation w)
poll-waiting q w (inl h) = inl (poll-Published q w.simulation w refl h)
poll-waiting q w (inr (inl h)) =
    subst (Stage (waiting q)) (sym (poll-quiet w h.0 h.2)) (inr (inl h))
poll-waiting q w (inr (inr (inl h))) =
    subst (Stage (waiting q)) (sym (poll-quiet_posted w h.2)) (inr (inr (inl h)))
poll-waiting q w (inr (inr (inr h))) =
    subst (Stage (waiting q)) (sym (poll-quiet w h.0 h.2)) (inr (inr (inr h)))

-- The second store of postResponse publishes the value.
simulate-Posted :
    (q : Request) (w : World) → Posted q w → Answered q w.slot.value (simulate w.simulation w)
unfolding simulate
simulate-Posted q w h = ground (arith, h)

answered_value :
    (q : Request) (w : World) → Posted q w → (simulate w.simulation w).slot.value ≡ w.slot.value
unfolding simulate
answered_value q w h = ground (arith, h)

simulate-waiting :
    (q : Request) (w : World) → Stage (waiting q) w → Stage (waiting q) (simulate w.simulation w)
simulate-waiting q w (inl h) = elim (simulate-Published q w.simulation w h.3 refl h) [
  | inl p ↦ inl p
  | inr t ↦ inr (inl t)
]
simulate-waiting q w (inr (inl h)) =
    subst (Stage (waiting q)) (sym (simulate-quiet w h.2)) (inr (inl h))
simulate-waiting q w (inr (inr (inl h))) = inr (
    inr (
      inr (
        subst (λ v. Answered q v (simulate w.simulation w)) (sym (answered_value q w h))
          (simulate-Posted q w h))))
simulate-waiting q w (inr (inr (inr h))) =
    subst (Stage (waiting q)) (sym (simulate-quiet w h.2)) (inr (inr (inr h)))

pub poll-Stage : (q : Thread) (w : World) → Stage q w → Stage q (poll w.simulation w)
poll-Stage q w h = elim (Stage-Quiet q w h) [
  | inl f ↦ subst (Stage q) (sym (poll-quiet w f.0 f.2)) h
  | inr (r, e) ↦
      subst (λ x. Stage x (poll w.simulation w)) (sym e)
        (poll-waiting r w (subst (λ x. Stage x w) e h))
]

pub simulate-Stage : (q : Thread) (w : World) → Stage q w → Stage q (simulate w.simulation w)
simulate-Stage q w h = elim (Stage-Quiet q w h) [
  | inl f ↦ subst (Stage q) (sym (simulate-quiet w f.2)) h
  | inr (r, e) ↦
      subst (λ x. Stage x (simulate w.simulation w)) (sym e)
        (simulate-waiting r w (subst (λ x. Stage x w) e h))
]

-- An answer of the simulation is to a request that it has taken, where it is at rest.
abbrev pub Due : World → Type 0
Due w = w.simulation ≡ at_rest → w.serving ≢ []

post-Taken : (v : ℕ) (q : Request) (w : World) → Taken q w → Posted q (post_value v w.simulation w)
unfolding post_value others answer_to
post-Taken v q w h = ground (arith, h)

post-open : (v : ℕ) (w : World) → w.simulation ≢ at_rest → post_value v w.simulation w ≡ w
unfolding post_value
post-open v w n = by w.simulation refl
  where
    by : (x : Simulation) → w.simulation ≡ x → post_value v x w ≡ w
    by at_rest e = absurd (n e)
    by pending_seen e = refl
    by (cmd_loaded c) e = refl
    by (addr_loaded c a) e = refl
    by (size_loaded c a k) e = refl
    by (request_loaded r) e = refl
    by value_posted e = refl

post-waiting :
    (v : ℕ) (q : Request) (w : World)
    → Due w
    → Stage (waiting q) w
    → Stage (waiting q) (post_value v w.simulation w)
post-waiting v q w d (inl h) =
    subst (Stage (waiting q)) (sym (post-open v w (λ e. d e h.2))) (inl h)
post-waiting v q w d (inr (inl h)) = inr (inr (inl (post-Taken v q w h)))
post-waiting v q w d (inr (inr (inl h))) =
    subst (Stage (waiting q)) (sym (post-open v w (λ e. d e h.1))) (inr (inr (inl h)))
post-waiting v q w d (inr (inr (inr h))) = absurd (d h.2 h.1)

pub post-Stage :
    (v : ℕ) (q : Thread) (w : World) → Due w → Stage q w → Stage q (post_value v w.simulation w)
post-Stage v q w d h = elim (Stage-Quiet q w h) [
  | inl f ↦ absurd (d f.2 f.1)
  | inr (r, e) ↦
      subst (λ x. Stage x (post_value v w.simulation w)) (sym e)
        (post-waiting v r w d (subst (λ x. Stage x w) e h))
]

pub poll-Calm : (w : World) → Calm w → Calm (poll w.simulation w)
poll-Calm w h = subst Calm (sym (poll-quiet w h.0 h.2)) h

pub simulate-Calm : (w : World) → Calm w → Calm (simulate w.simulation w)
simulate-Calm w h = subst Calm (sym (simulate-quiet w h.2)) h
