-- ===== src/Balar/Answers.antt =====
-- The answers that the port takes, as moves of the queue of posted submissions.
use quetz.Base.{
  ◌-◌, ◌∙◌, ℕ, ◌+◌, ◌≡◌, ◌≤◌, Bool, true, false, none, some, List, [], ◌∷◌, ◌++◌, ◌==◌, length,
  refl, arith, if◌then◌else◌, Bool-cases, Option-cases, inl, inr, Ensures, Ensures-bind, Outcome,
  ok, err, fatal, sym, subst, ap, ◌>>=◌, add64, ltb,
}
use quetz.Base.Tables.{find, erase, update}
use quetz.Balar.Tagged.{marked-erase, marked-erase_other, AllOf-find, AllOf-erase}
use quetz.Balar.State.{Host, Doorbell, Forward, FlushCtx, Port, ack_if}
use quetz.Balar.Doorbell.{forward_doorbell}
use quetz.Balar.Response.{
  Response, read_resp, write_resp, flush_resp, end_flush, count_flush, take_flush, on_flush,
  dispatch_next, retire, on_forwarded, handle_response, response_value,
}
use quetz.Balar.Queue.{starts, completes, stay, move, Moves-trans}
use quetz.Balar.Fifo.{
  forwarded, flushing, armed, ForwardedBy, FlushingBy, ArmedBy, view, Inv, Refines, forward-Refines,
  forward-sync,
}
use quetz.Balar.Refine.{Steps, Holds}
use quetz.Balar.State.{Effect, record_async_completion}

-- What is left when the context of a flush is taken out.
record Cleared (v u : ℕ) (ctx : FlushCtx) (s t : Port) : Type 0 where
  pub inv : Inv v t.armed_doorbells t
  pub kept : t.armed_doorbells ≡ s.armed_doorbells
  pub posted :
      ctx.is_async ≡ true
      → (u ≡ v)
        × (armed s.armed_doorbells ≡ [])
        × (flushing t.doorbell_flushes ≡ [])
        × (view v s.armed_doorbells s ≡ record (view v s.armed_doorbells t) {
          waiting = t.submit_queue v ++ (ctx.doorbell ∷ []);
        })
  pub sync : ctx.is_async ≡ false → view v s.armed_doorbells s ≡ view v s.armed_doorbells t

clear_flush :
    (h : Host) (v u : ℕ) (ctx : FlushCtx) (s : Port) (l : List Effect)
    → Holds v s
    → find u s.doorbell_flushes ≡ some ctx
    → Cleared v u ctx s (record s { doorbell_flushes = erase u s.doorbell_flushes; log = l })
clear_flush h v u ctx s l i e =
    let by =
      AllOf-erase (λ (c : FlushCtx). c.is_async) (λ (k : ℕ) (c : FlushCtx). k) v u
        s.doorbell_flushes i.by_flushing in
    let key =
      AllOf-find (λ (c : FlushCtx). c.is_async) (λ (k : ℕ) (c : FlushCtx). k) v u s.doorbell_flushes
        {a = ctx} i.by_flushing e in
    let one =
      marked-erase (λ (c : FlushCtx). c.is_async) (λ (k : ℕ) (c : FlushCtx). c.doorbell) u
        s.doorbell_flushes {a = ctx} e in
    let other =
      marked-erase_other (λ (c : FlushCtx). c.is_async) (λ (k : ℕ) (c : FlushCtx). c.doorbell) u
        s.doorbell_flushes {a = ctx} e in
    elim (Bool-cases (ctx.is_async)) [
      | inl m ↦
          let o = one m (omega (arith, i.one)) in
          let na : armed s.armed_doorbells ≡ [] =
            nil (armed s.armed_doorbells) (ground (arith, i.one, o)) in
          record {
            inv = ground (arith, i, by, o);
            kept = refl;
            posted = λ k. (key m, na, o.1, ground (arith, o, na));
            sync = λ k. absurd (cc);
          }
      | inr m ↦ record {
        inv = ground (arith, i, by, other m);
        kept = refl;
        posted = λ k. absurd (cc);
        sync = λ k. ground (arith, other m);
      }
    ]
  where
    nil : (l : List Doorbell) → length l ≤ 0 → l ≡ []
    nil [] h = refl
    nil (x ∷ l) h = absurd (omega arith)

forward-kept :
    (u : ℕ) (w : Doorbell) (a pre : Bool) (s : Port)
    → (forward_doorbell u w a pre s).armed_doorbells ≡ s.armed_doorbells
unfolding forward_doorbell ack_if
forward-kept u w a pre s = ground arith

end-Steps :
    (d : ℕ) (v u : ℕ) (ctx : FlushCtx) (s t : Port)
    → Cleared v u ctx s t
    → Steps d v s (forward_doorbell u ctx.doorbell ctx.is_async ctx.pre_acked t)
end-Steps d v u ctx s t k =
    subst
      (λ l.
        Refines d v l (view v s.armed_doorbells s)
          (forward_doorbell u ctx.doorbell ctx.is_async ctx.pre_acked t))
      (sym (forward-kept u ctx.doorbell ctx.is_async ctx.pre_acked t))
      (elim (Bool-cases (ctx.is_async)) [
        | inl m ↦
            let q = k.posted m in
            let r : Refines d v t.armed_doorbells (view v s.armed_doorbells s)
                (forward_doorbell v ctx.doorbell true ctx.pre_acked t) =
              forward-Refines d v t.armed_doorbells ctx.doorbell ctx.pre_acked t
                (view v s.armed_doorbells s) k.inv q.2 (ap armed k.kept ∙ q.1)
                (ground (arith, q.3, k.kept)) in
            subst (λ x. Refines d v t.armed_doorbells (view v s.armed_doorbells s) x)
              (ground (arith, m, q.0)) r
        | inr m ↦
            let f = forward-sync v u t.armed_doorbells ctx.doorbell ctx.pre_acked t k.inv in
            subst (λ x. Refines d v t.armed_doorbells (view v s.armed_doorbells s) x)
              (ground (arith, m)) (f.0, stay (ground (arith, f.1, k.sync m, k.kept)))
      ])

count-Steps :
    (d : ℕ) (h : Host) (v u : ℕ) (ctx : FlushCtx) (s : Port)
    → Holds v s
    → find u s.doorbell_flushes ≡ some ctx
    → Steps d v s (count_flush h u ctx s)
unfolding count_flush end_flush
count-Steps d h v u ctx s i e = elim (Bool-cases (ctx.remaining - 1 == 0)) [
  | inl z ↦ rw z (end-Steps d v u ctx s _ (clear_flush h v u ctx s _ i e))
  | inr n ↦
      let k = clear_flush h v u ctx s s.log i e in
      rw n (elim (Bool-cases (ctx.is_async)) [
        | inl m ↦ (ground (arith, k.posted m, k.inv, m), stay (ground (arith, k.posted m, m)))
        | inr m ↦ (ground (arith, k.inv, m), stay (ground (arith, k.sync m, m)))
      ])
]

take-Steps :
    (d : ℕ) (h : Host) (v u : ℕ) (ctx : FlushCtx) (r : Response) (s : Port)
    → Holds v s
    → find u s.doorbell_flushes ≡ some ctx
    → Ensures (Steps d v s) (take_flush h u ctx r s)
unfolding take_flush
take-Steps d h v u ctx (read_resp b) s i e = tt
take-Steps d h v u ctx write_resp s i e = tt
take-Steps d h v u ctx flush_resp s i e = count-Steps d h v u ctx s i e

on_flush-none :
    (h : Host) (u : ℕ) (r : Response) (s : Port)
    → find u s.doorbell_flushes ≡ none
    → on_flush h u r s ≡ err fatal
unfolding on_flush
on_flush-none h u r s e = ground (arith, e)

on_flush-some :
    (h : Host) (u : ℕ) (r : Response) (s : Port) {ctx : FlushCtx}
    → find u s.doorbell_flushes ≡ some ctx
    → on_flush h u r s ≡ take_flush h u ctx r s
unfolding on_flush
on_flush-some h u r s e = ground (arith, e)

flush-Steps :
    (d : ℕ) (h : Host) (v u : ℕ) (r : Response) (s : Port)
    → Holds v s
    → Ensures (Steps d v s) (on_flush h u r s)
flush-Steps d h v u r s i = elim (Option-cases (find u s.doorbell_flushes)) [
  | inl e ↦ subst (Ensures (Steps d v s)) (sym (on_flush-none h u r s e)) tt
  | inr (ctx, e) ↦
      subst (Ensures (Steps d v s)) (sym (on_flush-some h u r s e)) (take-Steps d h v u ctx r s i e)
]

-- The port once the operation ahead of the queue is over.
abbrev over : ℕ → ℕ → Port → Port
over v value s = record s {
  completed_id = update v (add64 (s.completed_id v) 1) s.completed_id;
  last_result = update v value s.last_result;
  async_in_flight = if ltb 0 s.async_in_flight then s.async_in_flight - 1 else s.async_in_flight;
  async_busy = update v false s.async_busy;
  log = record_async_completion v ∷ s.log;
}

-- `s` is the port before, `t` the one whose answered request is taken out.
record Answered (v id : ℕ) (s t : Port) : Type 0 where
  pub owner : t.async_vcpu ≡ some v
  pub before : forwarded s.pending ≡ id ∷ []
  pub after : forwarded t.pending ≡ []
  pub by_forwarded : ForwardedBy v t.pending
  pub by_flushing : FlushingBy v t.doorbell_flushes
  pub by_armed : ArmedBy v t.armed_doorbells
  pub one : length (flushing t.doorbell_flushes) + length (armed t.armed_doorbells) ≤ 1
  pub same :
      view v s.armed_doorbells s
      ≡ record (view v t.armed_doorbells t) { running = forwarded s.pending }

dispatch-Steps :
    (d : ℕ) (v value id : ℕ) (q : List Doorbell) (s t : Port)
    → Answered v id s t
    → t.submit_queue v ≡ q
    → Steps d v s (dispatch_next v q (over v value t))
unfolding dispatch_next forward_doorbell ack_if
dispatch-Steps d v value id [] s t a e = (
  ground (arith, a, e),
  move (completes id (ground (arith, a.before)) refl) (stay (ground (arith, a))),
)
dispatch-Steps d v value id (w ∷ ws) s t a e = (
  ground (arith, a, e),
  move (completes id (ground (arith, a.before)) refl) (
      move
        (starts w (ws ++ (flushing t.doorbell_flushes ++ armed t.armed_doorbells)) refl
          (ground (arith, a.same, e)) refl)
        (stay (ground (arith, a, e)))),
)

answered :
    (v id : ℕ) (p : Forward) (s : Port)
    → Holds v s
    → find id s.pending ≡ some p
    → p.is_async ≡ true
    → Answered v id s (record s { pending = erase id s.pending })
answered v id p s i e m =
    let gone =
      marked-erase (λ (c : Forward). c.is_async) (λ (k : ℕ) (c : Forward). k) id s.pending {a = p} e
        m in
    let short : length (forwarded s.pending) ≤ 1 = elim (Bool-cases (s.async_busy v)) [
      | inl b ↦ omega (arith, i.busy b)
      | inr b ↦ ground (arith, i.idle b)
    ] in
    let by =
      AllOf-erase (λ (c : Forward). c.is_async) (λ (k : ℕ) (c : Forward). c.vcpu) v id s.pending
        i.by_forwarded in
    record {
      owner = i.owner;
      before = (gone short).0;
      after = (gone short).1;
      by_forwarded = by;
      by_flushing = i.by_flushing;
      by_armed = i.by_armed;
      one = i.one;
      same = refl;
    }

retire-Steps :
    (d : ℕ) (v value : ℕ) (id : ℕ) (p : Forward) (s : Port)
    → Holds v s
    → find id s.pending ≡ some p
    → p.is_async ≡ true
    → Steps d v s (retire v value (record s { pending = erase id s.pending }))
unfolding retire
retire-Steps d v value id p s i e m =
    let t = record s { pending = erase id s.pending } in
    dispatch-Steps d v value id (s.submit_queue v) s t (answered v id p s i e m) refl

posted-retires :
    (p : Forward) (r : Response) (s : Port)
    → p.is_async ≡ true
    → on_forwarded p r s ≡ retire p.vcpu (response_value p r) s
unfolding on_forwarded
posted-retires p r s m = ground (arith, m)

sync-answers :
    (d : ℕ) (v : ℕ) (p : Forward) (r : Response) (s : Port)
    → p.is_async ≡ false
    → Holds v s
    → Steps d v s (on_forwarded p r s)
unfolding on_forwarded
sync-answers d v p r s m i = (ground (arith, m, i), stay (ground (arith, m)))

forwarded-Steps :
    (d : ℕ) (v id : ℕ) (p : Forward) (r : Response) (s : Port)
    → Holds v s
    → find id s.pending ≡ some p
    → Steps d v s (on_forwarded p r (record s { pending = erase id s.pending }))
forwarded-Steps d v id p r s i e =
    let t = record s { pending = erase id s.pending } in
    elim (Bool-cases (p.is_async)) [
      | inl m ↦
          let q : v ≡ p.vcpu = sym (
            AllOf-find (λ (c : Forward). c.is_async) (λ (k : ℕ) (c : Forward). c.vcpu) v id
              s.pending {a = p} i.by_forwarded e m) in
          subst (Steps d v s) (sym (posted-retires p r t m)) (
            subst (λ x. Steps d v s (retire x (response_value p r) t)) q
              (retire-Steps d v (response_value p r) id p s i e m))
      | inr m ↦
          let other =
            marked-erase_other (λ (c : Forward). c.is_async) (λ (k : ℕ) (c : Forward). k) id
              s.pending {a = p} e m in
          let by =
            AllOf-erase (λ (c : Forward). c.is_async) (λ (k : ℕ) (c : Forward). c.vcpu) v id
              s.pending i.by_forwarded in
          let k = sync-answers d v p r t m (ground (arith, i, other, by)) in
          (k.0, Moves-trans (stay (ground (arith, other))) k.1)
    ]

response-other :
    (h : Host) (id : ℕ) (r : Response) (s : Port)
    → find id s.flush_to_vcpu ≡ none
    → find id s.pending ≡ none
    → handle_response h id r s ≡ ok (false, s)
unfolding handle_response
response-other h id r s e f = ground (arith, e, f)

response-forwarded :
    (h : Host) (id : ℕ) (r : Response) (s : Port) {p : Forward}
    → find id s.flush_to_vcpu ≡ none
    → find id s.pending ≡ some p
    → handle_response h id r s
      ≡ ok (true, on_forwarded p r (record s { pending = erase id s.pending }))
unfolding handle_response
response-forwarded h id r s e f = ground (arith, e, f)

response-flush :
    (h : Host) (id : ℕ) (r : Response) (s : Port) {u : ℕ}
    → find id s.flush_to_vcpu ≡ some u
    → handle_response h id r s ≡ (
        on_flush h u r (record s { flush_to_vcpu = erase id s.flush_to_vcpu })
        >>= (λ s'. ok (true, s')))
unfolding handle_response
response-flush h id r s e = ground (arith, e)

pub response-Steps :
    (d : ℕ) (h : Host) (v id : ℕ) (r : Response) (s : Port)
    → Holds v s
    → Ensures (λ (p : Bool × Port). Steps d v s p.1) (handle_response h id r s)
response-Steps d h v id r s i =
    let P : Outcome (Bool × Port) → Type 0 = Ensures (λ (p : Bool × Port). Steps d v s p.1) in
    elim (Option-cases (find id s.flush_to_vcpu)) [
      | inr (u, e) ↦
          let t = record s { flush_to_vcpu = erase id s.flush_to_vcpu } in
          let it : Holds v t = ground (arith, i) in
          subst P (sym (response-flush h id r s e)) (
            Ensures-bind (Steps d v s) (λ (p : Bool × Port). Steps d v s p.1) (on_flush h u r t)
              (λ s'. ok (true, s')) (flush-Steps d h v u r t it) (λ s' k. k))
      | inl e ↦ elim (Option-cases (find id s.pending)) [
        | inl f ↦ subst P (sym (response-other h id r s e f)) (i, stay refl)
        | inr (p, f) ↦
            subst P (sym (response-forwarded h id r s e f)) (forwarded-Steps d v id p r s i f)
      ]
    ]
