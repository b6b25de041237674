-- ===== src/Balar/Fifo.antt =====
-- The posted submissions of the port as the queue of Queue.antt, what a forwarded doorbell and an
-- armed one do to it, and the walk of process.
use quetz.Base.{
  ◌-◌, ◌∙◌, ℕ, zero, suc, ◌+◌, ◌≡◌, ◌≤◌, Bool, true, false, none, some, List, [], ◌∷◌, ◌++◌, ◌==◌,
  length, refl, arith, if◌then◌else◌, Bool-cases, inl, inr, Ensures, Ensures-bind, ok, err,
  append-nil, append_assoc, Ensures-mono, Ensures-guard, not, ◌&&◌, sub64, fatal, sym, subst, ap,
  add32, add64, ltb, u32_mod, data_to_u64,
}
use quetz.Memory.{BalarFlushRange, compute_balar_flush_range, u64_max}
use quetz.Base.Tables.{has_key}
use quetz.Balar.Tagged.{marked, AllOf, AllOf-middle, marked_middle, marked_middle_other}
use quetz.Balar.State.{Config, Host, Doorbell, Forward, FlushCtx, Armed, Port, ack_if}
use quetz.Balar.Doorbell.{
  forward_doorbell, send_flush, send_flushes, await_flushes, flush_range, issue_doorbell_flushes,
  process_loop, process, flush_bytes,
}
use quetz.Balar.Queue.{Fifo, starts, Moves, stay, move, Moves-trans}

-- The ids of the posted doorbells that were forwarded, those that wait for flushes, and the armed.
abbrev pub forwarded : List (ℕ × Forward) → List ℕ
forwarded = marked (λ p. p.is_async) (λ id p. id)

abbrev pub flushing : List (ℕ × FlushCtx) → List Doorbell
flushing = marked (λ c. c.is_async) (λ u c. c.doorbell)

abbrev pub armed : List (ℕ × Armed) → List Doorbell
armed = marked (λ a. a.is_async) (λ u a. a.req)

abbrev pub ForwardedBy : ℕ → List (ℕ × Forward) → Type 0
ForwardedBy = AllOf (λ p. p.is_async) (λ id p. p.vcpu)

abbrev pub FlushingBy : ℕ → List (ℕ × FlushCtx) → Type 0
FlushingBy = AllOf (λ c. c.is_async) (λ u c. u)

abbrev pub ArmedBy : ℕ → List (ℕ × Armed) → Type 0
ArmedBy = AllOf (λ a. a.is_async) (λ u a. u)

-- The queue that a port stands for, with the armed doorbells `al`.
abbrev pub view : ℕ → List (ℕ × Armed) → Port → Fifo
view v al s = record {
  running = forwarded s.pending;
  waiting = s.submit_queue v ++ (flushing s.doorbell_flushes ++ armed al);
  submitted = s.submit_id v;
  completed = s.completed_id v;
  in_flight = s.async_in_flight;
}

-- The engine is `v`'s; it is busy while one posted doorbell is forwarded, the queue is empty when it
-- is not, and one submission at most is not yet acknowledged.
pub record Inv (v : ℕ) (al : List (ℕ × Armed)) (s : Port) : Type 0 where
  pub owner : s.async_vcpu ≡ some v
  pub busy : s.async_busy v ≡ true → length (forwarded s.pending) ≡ 1
  pub idle : s.async_busy v ≡ false → (forwarded s.pending ≡ []) × (s.submit_queue v ≡ [])
  pub by_forwarded : ForwardedBy v s.pending
  pub by_flushing : FlushingBy v s.doorbell_flushes
  pub by_armed : ArmedBy v al
  pub one : length (flushing s.doorbell_flushes) + length (armed al) ≤ 1

abbrev pub Refines : ℕ → ℕ → List (ℕ × Armed) → Fifo → Port → Type 0
Refines depth v al a s = Inv v al s × Moves depth a (view v al s)

-- A posted doorbell is forwarded that is the last to wait.
pub forward-Refines :
    (d : ℕ) (v : ℕ) (al : List (ℕ × Armed)) (w : Doorbell) (pre : Bool) (s : Port) (a : Fifo)
    → Inv v al s
    → flushing s.doorbell_flushes ≡ []
    → armed al ≡ []
    → a ≡ record (view v al s) { waiting = s.submit_queue v ++ (w ∷ []) }
    → Refines d v al a (forward_doorbell v w true pre s)
unfolding forward_doorbell ack_if
forward-Refines d v al w pre s a i hf ha e = elim (Bool-cases (s.async_busy v)) [
  | inl b ↦
      (ground (arith, i, b), stay (ground (arith, i, b, append-nil (s.submit_queue v ++ (w ∷ [])))))
  | inr b ↦ (
    ground (arith, i, b),
    move (starts w [] (ground (arith, i.idle b)) (ground (arith, i.idle b)) refl)
        (stay (ground (arith, i, b, i.idle b))),
  )
]

pub forward-sync :
    (v u : ℕ) (al : List (ℕ × Armed)) (w : Doorbell) (pre : Bool) (s : Port)
    → Inv v al s
    → Inv v al (forward_doorbell u w false pre s)
      × (view v al (forward_doorbell u w false pre s) ≡ view v al s)
unfolding forward_doorbell ack_if
forward-sync v u al w pre s i = (ground (arith, i), ground (arith, i))

-- What the flushes of a doorbell leave alone.
pub record Same (s t : Port) : Type 0 where
  pub pending : t.pending ≡ s.pending
  pub flushes : t.doorbell_flushes ≡ s.doorbell_flushes
  pub kept : t.armed_doorbells ≡ s.armed_doorbells
  pub queue : t.submit_queue ≡ s.submit_queue
  pub submit : t.submit_id ≡ s.submit_id
  pub completed : t.completed_id ≡ s.completed_id
  pub busy : t.async_busy ≡ s.async_busy
  pub vcpu : t.async_vcpu ≡ s.async_vcpu
  pub in_flight : t.async_in_flight ≡ s.async_in_flight

pub send_flushes-Same :
    (ls u n line rem : ℕ) (s : Port) → Ensures (λ p. Same s p.1) (send_flushes ls u n line rem s)
unfolding send_flushes send_flush
send_flushes-Same ls u zero line rem s = ground arith
send_flushes-Same ls u (suc n) line rem s =
    Ensures-guard _ (not (n == 0) && ltb (sub64 u64_max ls) line) fatal _ (
      Ensures-mono (λ p. Same (send_flush ls u line s) p.1) (λ p. Same s p.1) _
        (send_flushes-Same ls u n (add64 line ls) (add32 rem 1) (send_flush ls u line s))
        (λ p h. ground (arith, h)))

Same-Inv : (v : ℕ) (al : List (ℕ × Armed)) (s t : Port) → Same s t → Inv v al s → Inv v al t
Same-Inv v al s t e i = ground (arith, i, e)

Same-view : (v : ℕ) (al : List (ℕ × Armed)) (s t : Port) → Same s t → view v al t ≡ view v al s
Same-view v al s t e = ground (arith, e)

-- What is left when an armed entry is taken out.
record Taken (v u : ℕ) (ar : Armed) (before after : List (ℕ × Armed)) (s : Port) : Type 0 where
  pub inv : Inv v after s
  pub posted :
      ar.is_async ≡ true
      → (u ≡ v)
        × (flushing s.doorbell_flushes ≡ [])
        × (armed before ≡ ar.req ∷ [])
        × (armed after ≡ [])
  pub sync : ar.is_async ≡ false → armed before ≡ armed after

take_armed :
    (v u : ℕ) (ar : Armed) (xs t : List (ℕ × Armed)) (s : Port)
    → Inv v (xs ++ ((u, ar) ∷ t)) s
    → Taken v u ar (xs ++ ((u, ar) ∷ t)) (xs ++ t) s
take_armed v u ar xs t s i =
    let by =
      AllOf-middle (λ (a : Armed). a.is_async) (λ (k : ℕ) (a : Armed). k) v u ar xs t i.by_armed in
    let one = marked_middle (λ (a : Armed). a.is_async) (λ (k : ℕ) (a : Armed). a.req) u ar xs t in
    let other =
      marked_middle_other (λ (a : Armed). a.is_async) (λ (k : ℕ) (a : Armed). a.req) u ar xs t in
    elim (Bool-cases (ar.is_async)) [
      | inl m ↦
          let short = one m (omega (arith, i.one)) in
          record {
            inv = ground (arith, i, by.0, short);
            posted = λ e. (
              by.1 m,
              nil (flushing s.doorbell_flushes) (ground (arith, i.one, short)),
              short.0,
              short.1,
            );
            sync = λ e. absurd (cc);
          }
      | inr m ↦ record {
        inv = ground (arith, i, by.0, other m);
        posted = λ e. absurd (cc);
        sync = λ e. other m;
      }
    ]
  where
    nil : (l : List Doorbell) → length l ≤ 0 → l ≡ []
    nil [] h = refl
    nil (x ∷ l) h = absurd (omega arith)

-- The doorbell of an entry that was armed waits for its flushes, or is forwarded.
await-Refines :
    (d : ℕ) (h : Host) (v u : ℕ) (ar : Armed) (before after : List (ℕ × Armed)) (r : ℕ) (s : Port)
    → Taken v u ar before after s
    → Refines d v after (view v before s) (await_flushes h u ar (r, s))
unfolding await_flushes
await-Refines d h v u ar before after r s k = elim (Bool-cases (ar.is_async)) [
  | inl m ↦
      let q = k.posted m in
      elim (Bool-cases (r == 0)) [
        | inl z ↦
            subst (λ x. Refines d v after (view v before s) x) (sym (ground (arith, z, m, q.0)))
              (forward-Refines d v after ar.req ar.pre_acked s (view v before s) k.inv q.1 q.3
                (ground (arith, q)))
        | inr n ↦ (ground (arith, n, m, q, k.inv), stay (ground (arith, n, m, q)))
      ]
  | inr m ↦ elim (Bool-cases (r == 0)) [
    | inl z ↦
        let f = forward-sync v u after ar.req ar.pre_acked s k.inv in
        subst (λ x. Refines d v after (view v before s) x) (sym (ground (arith, z, m)))
          (f.0, stay (ground (arith, f.1, k.sync m)))
    | inr n ↦ (ground (arith, n, m, k.inv), stay (ground (arith, n, m, k.sync m)))
  ]
]

await-kept :
    (h : Host) (u : ℕ) (ar : Armed) (r : ℕ) (s : Port)
    → (await_flushes h u ar (r, s)).armed_doorbells ≡ s.armed_doorbells
unfolding await_flushes forward_doorbell ack_if
await-kept h u ar r s = ground arith

Same-Taken :
    (v u : ℕ) (ar : Armed) (before after : List (ℕ × Armed)) (s t : Port)
    → Same s t
    → Taken v u ar before after s
    → Taken v u ar before after t
Same-Taken v u ar before after s t e k = record {
  inv = Same-Inv v after s t e k.inv;
  posted = λ m. ground (arith, k.posted m, e);
  sync = k.sync;
}

-- What a step of the walk of process keeps.
abbrev Walks : ℕ → ℕ → List (ℕ × Armed) → List (ℕ × Armed) → Port → Port → Type 0
Walks d v before after s s' =
    Refines d v after (view v before s) s' × (s'.armed_doorbells ≡ s.armed_doorbells)

flush-Walks :
    (d : ℕ) (h : Host) (v u : ℕ) (ar : Armed) (before after : List (ℕ × Armed)) (s : Port)
    (r : BalarFlushRange)
    → Taken v u ar before after s
    → Ensures (Walks d v before after s) (flush_range h u ar s r)
unfolding flush_range
flush-Walks d h v u ar before after s r k =
    Ensures-guard (Walks d v before after s) (ltb (u32_mod - 1) r.line_count) fatal _ (
      Ensures-bind (λ (p : ℕ × Port). Same s p.1) (Walks d v before after s)
        (send_flushes h.cache_line_size u r.line_count r.first_line 0 s)
        (λ p. ok (await_flushes h u ar p))
        (send_flushes-Same h.cache_line_size u r.line_count r.first_line 0 s)
        (λ p e. (
          subst (λ a. Refines d v after a (await_flushes h u ar p)) (Same-view v before s p.1 e)
              (await-Refines d h v u ar before after p.0 p.1
                (Same-Taken v u ar before after s p.1 e k)),
          await-kept h u ar p.0 p.1 ∙ e.kept,
        )))

issue-Walks :
    (d : ℕ) (c : Config) (h : Host) (v u : ℕ) (ar : Armed) (before after : List (ℕ × Armed))
    (s : Port)
    → Taken v u ar before after s
    → Ensures (Walks d v before after s) (issue_doorbell_flushes c h u ar s)
unfolding issue_doorbell_flushes
issue-Walks d c h v u ar before after s k =
    Ensures-guard (Walks d v before after s) (has_key u s.doorbell_flushes) fatal _
      (elim (compute_balar_flush_range (data_to_u64 ar.req.payload) (flush_bytes c)
          h.cache_line_size)
        as (λ o.
          Ensures (Walks d v before after s)
            (elim o [ none ↦ err fatal | some r ↦ flush_range h u ar s r ])) [
              | none ↦ tt
              | some r ↦ flush-Walks d h v u ar before after s r k
            ])

-- One entry of the walk, drained or kept.
walk_entry-Refines :
    (d : ℕ) (c : Config) (h : Host) (v u : ℕ) (ar : Armed) (t : List (ℕ × Armed)) (s : Port)
    (drained : Bool)
    → Inv v (s.armed_doorbells ++ ((u, ar) ∷ t)) s
    → Ensures
        (λ s'.
          Refines d v (s'.armed_doorbells ++ t) (view v (s.armed_doorbells ++ ((u, ar) ∷ t)) s) s')
        (if drained
          then issue_doorbell_flushes c h u ar s
          else ok (record s { armed_doorbells = s.armed_doorbells ++ ((u, ar) ∷ []) }))
walk_entry-Refines d c h v u ar t s true i =
    let before = s.armed_doorbells ++ ((u, ar) ∷ t) in
    Ensures-mono (Walks d v before (s.armed_doorbells ++ t) s) _ (issue_doorbell_flushes c h u ar s)
      (issue-Walks d c h v u ar before (s.armed_doorbells ++ t) s
        (take_armed v u ar s.armed_doorbells t s i))
      (λ s' w. subst (λ l. Refines d v (l ++ t) (view v before s) s') (sym w.1) w.0)
walk_entry-Refines d c h v u ar t s false i =
    let e : s.armed_doorbells ++ ((u, ar) ∷ t) ≡ (s.armed_doorbells ++ ((u, ar) ∷ [])) ++ t =
      sym (append_assoc s.armed_doorbells ((u, ar) ∷ []) t) in
    let s' = record s { armed_doorbells = s.armed_doorbells ++ ((u, ar) ∷ []) } in
    let j : Inv v (s.armed_doorbells ++ ((u, ar) ∷ t)) s' = ground (arith, i) in
    (subst (λ l. Inv v l s') e j, stay (ap (λ l. view v l s) e))

process_loop-Refines :
    (d : ℕ) (c : Config) (h : Host) (v : ℕ) (t : List (ℕ × Armed)) (s : Port)
    → Inv v (s.armed_doorbells ++ t) s
    → Ensures
        (λ s'. Refines d v s'.armed_doorbells (view v (s.armed_doorbells ++ t) s) s')
        (process_loop c h t s)
unfolding process_loop
process_loop-Refines d c h v [] s i =
    let e = append-nil s.armed_doorbells in
    (subst (λ l. Inv v l s) e i, stay (ap (λ l. view v l s) e))
process_loop-Refines d c h v ((u, ar) ∷ t) s i =
    let before = s.armed_doorbells ++ ((u, ar) ∷ t) in
    Ensures-bind (λ s'. Refines d v (s'.armed_doorbells ++ t) (view v before s) s')
      (λ s'. Refines d v s'.armed_doorbells (view v before s) s')
      (if h.is_drained u
        then issue_doorbell_flushes c h u ar s
        else ok (record s { armed_doorbells = s.armed_doorbells ++ ((u, ar) ∷ []) }))
      (λ s'. process_loop c h t s') (walk_entry-Refines d c h v u ar t s (h.is_drained u) i)
      (λ s' r.
        Ensures-mono
          (λ s''. Refines d v s''.armed_doorbells (view v (s'.armed_doorbells ++ t) s') s'')
          (λ s''. Refines d v s''.armed_doorbells (view v before s) s'') (process_loop c h t s')
          (process_loop-Refines d c h v t s' r.0) (λ s'' q. (q.0, Moves-trans r.1 q.1)))

pub process-Refines :
    (d : ℕ) (c : Config) (h : Host) (v : ℕ) (s : Port)
    → Inv v s.armed_doorbells s
    → Ensures (λ s'. Refines d v s'.armed_doorbells (view v s.armed_doorbells s) s') (process c h s)
unfolding process
process-Refines d c h v s i =
    process_loop-Refines d c h v s.armed_doorbells (record s { armed_doorbells = [] })
      (ground (arith, i))
