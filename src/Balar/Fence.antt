-- ===== src/Balar/Fence.antt =====
-- The fence over any calls of the port, and the answer that lifts it.
use quetz.Base.{
  ◌-◌, ◌<◌, ℕ, ◌≡◌, Bool, true, none, some, List, [], ◌∷◌, ◌==◌, refl, arith, if◌then◌else◌,
  Bool-cases, Option-cases, inl, inr, Ensures, Ensures-bind, Ensures-mono, Outcome, ok, sym, subst,
  sub64,
}
use quetz.Base.Tables.{find, erase, has_key}
use quetz.Balar.State.{record_doorbell_flush_cycles, Config, Host, FlushCtx, Port}
use quetz.Balar.Doorbell.{process, forward_doorbell}
use quetz.Balar.Aperture.{handle_command}
use quetz.Balar.Response.{
  Response, read_resp, write_resp, flush_resp, end_flush, count_flush, take_flush, on_flush,
  handle_response, Event, command, tick, response, step, run,
}
use quetz.Balar.Flush.{
  unanswered, remaining_of, Fenced, unanswered-erase, find-erase_ne, has_key-find, Distinct,
  Distinct-erase, has_key-erase, forward-Fenced, process_loop-Fenced,
}
use quetz.Balar.Apart.{Apart, command-Apart, other-Apart}

-- A port whose flushes and their contexts are those of another.
same-Fenced :
    (s t : Port)
    → t.flush_to_vcpu ≡ s.flush_to_vcpu
    → t.doorbell_flushes ≡ s.doorbell_flushes
    → Fenced s
    → Fenced t
same-Fenced s t a b f = record {
  counted = λ u. ground (arith, f.counted u, a, b);
  distinct = subst Distinct (sym b) f.distinct;
  waits = λ u ctx e. f.waits u ctx (ground (arith, b, e));
}

-- The state of a port whose flush `id` of `u` is answered, with the context `ctx`.
abbrev pub lifted : Host → ℕ → ℕ → FlushCtx → Port → Port
lifted h id u ctx s = record s {
  flush_to_vcpu = erase id s.flush_to_vcpu;
  doorbell_flushes = erase u s.doorbell_flushes;
  log = record_doorbell_flush_cycles u (sub64 h.cycles ctx.start_cycle) ∷ s.log;
}

abbrev pub lowered : ℕ → ℕ → FlushCtx → Port → Port
lowered id u ctx s = record s {
  flush_to_vcpu = erase id s.flush_to_vcpu;
  doorbell_flushes = (u, record ctx { remaining = ctx.remaining - 1 }) ∷ erase u s.doorbell_flushes;
}

answer_lem :
    (h : Host) (id u : ℕ) (ctx : FlushCtx) (s : Port)
    → find id s.flush_to_vcpu ≡ some u
    → find u s.doorbell_flushes ≡ some ctx
    → handle_response h id flush_resp s
      ≡ ok (
        true,
        if ctx.remaining - 1 == 0
            then forward_doorbell u ctx.doorbell ctx.is_async ctx.pre_acked (lifted h id u ctx s)
            else lowered id u ctx s,
      )
unfolding handle_response on_flush take_flush count_flush end_flush
answer_lem h id u ctx s e f = ground (arith, e, f)

held :
    (u id : ℕ) (s : Port)
    → Fenced s
    → find id s.flush_to_vcpu ≡ some u
    → (ctx : FlushCtx) × (find u s.doorbell_flushes ≡ some ctx)
held u id s f e = elim (Option-cases (find u s.doorbell_flushes)) [
  | inl n ↦ absurd (ground (arith, n, f.counted u, unanswered-erase u id s.flush_to_vcpu {v = u} e))
  | inr x ↦ x
]

find-erase_self : (u : ℕ) (s : Port) → Fenced s → find u (erase u s.doorbell_flushes) ≡ none
find-erase_self u s f =
    has_key-find u (erase u s.doorbell_flushes) (has_key-erase u s.doorbell_flushes f.distinct)

-- One answer less, of the one vCPU.
one_less :
    (id u v : ℕ) (ctx : FlushCtx) (s : Port)
    → Fenced s
    → find id s.flush_to_vcpu ≡ some u
    → find u s.doorbell_flushes ≡ some ctx
    → unanswered v (erase id s.flush_to_vcpu)
      ≡ (if u == v then ctx.remaining - 1 else remaining_of (find v s.doorbell_flushes))
one_less id u v ctx s f e k = elim (Bool-cases (u == v)) [
  | inl q ↦
      let uv : u ≡ v = ground (arith, q) in
      let kv : find v s.doorbell_flushes ≡ some ctx =
        subst (λ x. find x s.doorbell_flushes ≡ some ctx) uv k in
      ground (arith, q, kv, f.counted v, unanswered-erase v id s.flush_to_vcpu {v = u} e)
  | inr q ↦ ground (arith, q, f.counted v, unanswered-erase v id s.flush_to_vcpu {v = u} e)
]

lifted-Fenced :
    (h : Host) (id u : ℕ) (ctx : FlushCtx) (s : Port)
    → Fenced s
    → find id s.flush_to_vcpu ≡ some u
    → find u s.doorbell_flushes ≡ some ctx
    → ctx.remaining ≡ 1
    → Fenced (lifted h id u ctx s)
lifted-Fenced h id u ctx s f e k one = record {
  counted = λ v. elim (Bool-cases (u == v)) [
    | inl q ↦
        let uv : u ≡ v = ground (arith, q) in
        let gone : find v (erase u s.doorbell_flushes) ≡ none =
          subst (λ x. find x (erase u s.doorbell_flushes) ≡ none) uv (find-erase_self u s f) in
        ground (arith, q, one, gone, one_less id u v ctx s f e k)
    | inr q ↦ ground (arith, q, one_less id u v ctx s f e k, find-erase_ne v u s.doorbell_flushes q)
  ];
  distinct = Distinct-erase u s.doorbell_flushes f.distinct;
  waits = λ v x q. elim (Bool-cases (u == v)) [
    | inl r ↦
        let uv : u ≡ v = ground (arith, r) in
        let gone : find v (erase u s.doorbell_flushes) ≡ none =
          subst (λ x. find x (erase u s.doorbell_flushes) ≡ none) uv (find-erase_self u s f) in
        absurd (ground (arith, gone, q))
    | inr r ↦ f.waits v x (ground (arith, q, find-erase_ne v u s.doorbell_flushes r))
  ];
}

lowered-Fenced :
    (id u : ℕ) (ctx : FlushCtx) (s : Port)
    → Fenced s
    → find id s.flush_to_vcpu ≡ some u
    → find u s.doorbell_flushes ≡ some ctx
    → 1 < ctx.remaining
    → Fenced (lowered id u ctx s)
unfolding find has_key
lowered-Fenced id u ctx s f e k more = record {
  counted = λ v. ground (arith, one_less id u v ctx s f e k, find-erase_ne v u s.doorbell_flushes);
  distinct = (
    has_key-erase u s.doorbell_flushes f.distinct,
    Distinct-erase u s.doorbell_flushes f.distinct,
  );
  waits = λ v x q. ground (arith, q, more, f.waits v x, find-erase_ne v u s.doorbell_flushes);
}

-- A flush that is answered by anything else is fatal.
wrong_answer :
    (h : Host) (id u : ℕ) (r : Response) (s : Port)
    → find id s.flush_to_vcpu ≡ some u
    → ¬ (r ≡ flush_resp)
    → Ensures (λ (p : Bool × Port). Fenced p.1) (handle_response h id r s)
unfolding handle_response on_flush take_flush
wrong_answer h id u (read_resp b) s e n = ground (arith, e)
wrong_answer h id u write_resp s e n = ground (arith, e)
wrong_answer h id u flush_resp s e n = absurd (n refl)

flush_answer-Fenced :
    (h : Host) (id u : ℕ) (r : Response) (s : Port)
    → Fenced s
    → find id s.flush_to_vcpu ≡ some u
    → Ensures (λ (p : Bool × Port). Fenced p.1) (handle_response h id r s)
flush_answer-Fenced h id u (read_resp b) s f e = wrong_answer h id u (read_resp b) s e (λ q. cc)
flush_answer-Fenced h id u write_resp s f e = wrong_answer h id u write_resp s e (λ q. cc)
flush_answer-Fenced h id u flush_resp s f e =
    let (ctx, k) = held u id s f e in
    let P : Outcome (Bool × Port) → Type 0 = Ensures (λ (p : Bool × Port). Fenced p.1) in
    elim (Bool-cases (ctx.remaining - 1 == 0)) [
      | inl z ↦
          let one : ctx.remaining ≡ 1 = ground (arith, z, f.waits u ctx k) in
          let g =
            forward-Fenced u ctx.doorbell ctx.is_async ctx.pre_acked (lifted h id u ctx s)
              (lifted-Fenced h id u ctx s f e k one) in
          let eq : handle_response h id flush_resp s
              ≡ ok (
                true,
                forward_doorbell u ctx.doorbell ctx.is_async ctx.pre_acked (lifted h id u ctx s),
              ) =
            ground (arith, answer_lem h id u ctx s e k, z) in
          subst P (sym eq) g
      | inr n ↦
          let eq : handle_response h id flush_resp s ≡ ok (true, lowered id u ctx s) =
            ground (arith, answer_lem h id u ctx s e k, n) in
          subst P (sym eq) (lowered-Fenced id u ctx s f e k (ground (arith, n)))
    ]

response-Fenced :
    (h : Host) (id : ℕ) (r : Response) (s : Port)
    → Fenced s
    → Ensures (λ (p : Bool × Port). Fenced p.1) (handle_response h id r s)
response-Fenced h id r s f = elim (Option-cases (find id s.flush_to_vcpu)) [
  | inl n ↦
      Ensures-mono (λ (p : Bool × Port). Apart s p.1) (λ (p : Bool × Port). Fenced p.1)
        (handle_response h id r s) (other-Apart h id r s n)
        (λ p a. same-Fenced s p.1 a.table a.contexts f)
  | inr (u, e) ↦ flush_answer-Fenced h id u r s f e
]

step-Fenced :
    (c : Config) (h : Host) (e : Event) (s : Port) → Fenced s → Ensures Fenced (step c h e s)
unfolding step process
step-Fenced c h (command u cmd) s f =
    Ensures-mono (Apart s) Fenced (handle_command c h u cmd s) (command-Apart c h u cmd s)
      (λ t a. same-Fenced s t a.table a.contexts f)
step-Fenced c h tick s f =
    process_loop-Fenced c h s.armed_doorbells (record s { armed_doorbells = [] })
      (same-Fenced s _ refl refl f)
step-Fenced c h (response id r) s f =
    Ensures-bind (λ (p : Bool × Port). Fenced p.1) Fenced (handle_response h id r s) _
      (response-Fenced h id r s f) (λ p k. k)

pub run-Fenced :
    (c : Config) (es : List (Host × Event)) (s : Port) → Fenced s → Ensures Fenced (run c es s)
unfolding run
run-Fenced c [] s f = f
run-Fenced c ((h, e) ∷ es) s f =
    Ensures-bind Fenced Fenced (step c h e s) (λ s'. run c es s') (step-Fenced c h e s f)
      (λ s' g. run-Fenced c es s' g)

-- In a port where every doorbell that is held back waits for as many flushes as its vCPU has
-- unanswered, one at least: the answer to a flush finds the doorbell of its vCPU, and forwards it
-- exactly when it is the last unanswered flush of that vCPU, else it only counts it.
pub last_flush_forwards :
    (h : Host) (id u : ℕ) (s : Port)
    → Fenced s
    → find id s.flush_to_vcpu ≡ some u
    → (ctx : FlushCtx) × (find u s.doorbell_flushes ≡ some ctx)
      × (handle_response h id flush_resp s
          ≡ ok (
            true,
            if unanswered u s.flush_to_vcpu == 1
                then forward_doorbell u ctx.doorbell ctx.is_async ctx.pre_acked
                    (lifted h id u ctx s)
                else lowered id u ctx s,
          ))
last_flush_forwards h id u s f e =
    let (ctx, k) = held u id s f e in
    (ctx, k, ground (arith, answer_lem h id u ctx s e k, f.counted u, k, f.waits u ctx k))
