-- ===== src/Balar/Flush.antt =====
-- The fence of a doorbell: the flushes that it waits for, and the lines that they write back.
use quetz.Base.{
  ◌-◌, ◌<◌, ◌^◌, ℕ, zero, suc, ◌+◌, ◌≡◌, ◌≤◌, Bool, false, not, ◌&&◌, Option, none, some, List, [],
  ◌∷◌, ◌++◌, ◌==◌, refl, arith, if◌then◌else◌, Bool-cases, inl, inr, Ensures, Ensures-bind,
  Ensures-mono, Ensures-if, Ensures-guard, Ensures-guard_false, ok, err, fatal, sym, subst, add32,
  add64, sub64, ltb, data_to_u64, u32_mod,
}
use quetz.Memory.{compute_balar_flush_range, u64_max}
use quetz.Base.Tables.{find, erase, has_key}
use quetz.Balar.State.{Config, Host, Doorbell, FlushCtx, Armed, Port, ack_if}
use quetz.Balar.Doorbell.{
  forward_doorbell, send_flush, send_flushes, await_flushes, flush_range, issue_doorbell_flushes,
  flush_bytes, process_loop,
}

-- The flushes of a vCPU that are not answered.
abbrev pub unanswered : ℕ → List (ℕ × ℕ) → ℕ
unanswered u [] = 0
unanswered u ((id, v) ∷ t) = (if v == u then 1 else 0) + unanswered u t

-- What a vCPU's doorbell waits for.
abbrev pub remaining_of : Option FlushCtx → ℕ
remaining_of none = 0
remaining_of (some ctx) = ctx.remaining

abbrev pub Distinct : List (ℕ × FlushCtx) → Type 0
Distinct [] = Unit
Distinct ((u, c) ∷ t) = (has_key u t ≡ false) × Distinct t

-- Every doorbell that is held back waits for as many flushes as are not answered, one at least.
pub record Fenced (s : Port) : Type 0 where
  pub counted : (u : ℕ) → unanswered u s.flush_to_vcpu ≡ remaining_of (find u s.doorbell_flushes)
  pub distinct : Distinct s.doorbell_flushes
  pub waits : (u : ℕ) (ctx : FlushCtx) → find u s.doorbell_flushes ≡ some ctx → 1 ≤ ctx.remaining

pub unanswered-erase :
    (u id : ℕ) (t : List (ℕ × ℕ)) {v : ℕ}
    → find id t ≡ some v
    → unanswered u (erase id t) + (if v == u then 1 else 0) ≡ unanswered u t
unfolding find erase
unanswered-erase u id [] e = absurd (cc)
unanswered-erase u id ((j, w) ∷ t) {v} e = ground (arith, unanswered-erase u id t {v = v})

pub find-erase_ne :
    (u w : ℕ) (t : List (ℕ × FlushCtx)) → (w == u) ≡ false → find u (erase w t) ≡ find u t
unfolding find erase
find-erase_ne u w [] e = refl
find-erase_ne u w ((j, c) ∷ t) e = ground (arith, find-erase_ne u w t e)

pub has_key-erase_ne :
    (u w : ℕ) (t : List (ℕ × FlushCtx)) → has_key u t ≡ false → has_key u (erase w t) ≡ false
unfolding has_key erase
has_key-erase_ne u w [] e = refl
has_key-erase_ne u w ((j, c) ∷ t) e = ground (arith, has_key-erase_ne u w t)

pub has_key-erase : (u : ℕ) (t : List (ℕ × FlushCtx)) → Distinct t → has_key u (erase u t) ≡ false
unfolding has_key erase
has_key-erase u [] d = refl
has_key-erase u ((j, c) ∷ t) d = elim (Bool-cases (j == u)) [
  | inl e ↦ let ju : j ≡ u = ground (arith, e) in rw e (subst (λ x. has_key x t ≡ false) ju d.0)
  | inr e ↦ ground (arith, e, has_key-erase u t d.1)
]

pub Distinct-erase : (u : ℕ) (t : List (ℕ × FlushCtx)) → Distinct t → Distinct (erase u t)
unfolding erase
Distinct-erase u [] d = tt
Distinct-erase u ((j, c) ∷ t) d =
    ground (arith, d, Distinct-erase u t d.1, has_key-erase_ne j u t d.0)

pub has_key-find : (u : ℕ) (t : List (ℕ × FlushCtx)) → has_key u t ≡ false → find u t ≡ none
unfolding find has_key
has_key-find u [] e = refl
has_key-find u ((j, c) ∷ t) e = ground (arith, has_key-find u t)

-- What the loop of flushes does to the table of flushes.
record Sent (u n rem : ℕ) (s : Port) (p : ℕ × Port) : Type 0 where
  pub total : p.0 ≡ rem + n
  pub more :
      (w : ℕ)
      → unanswered w p.1.flush_to_vcpu ≡ (if u == w then n else 0) + unanswered w s.flush_to_vcpu
  pub flushes : p.1.doorbell_flushes ≡ s.doorbell_flushes

send_flushes-Sent :
    (ls u n line rem : ℕ) (s : Port)
    → rem + n < 2 ^ 32
    → Ensures (Sent u n rem s) (send_flushes ls u n line rem s)
unfolding send_flushes send_flush
send_flushes-Sent ls u zero line rem s h = record {
  total = omega arith;
  more = λ w. ground arith;
  flushes = refl;
}
send_flushes-Sent ls u (suc n) line rem s h =
    Ensures-guard (Sent u (suc n) rem s) (not (n == 0) && ltb (sub64 u64_max ls) line) fatal _ (
      Ensures-mono (Sent u n (add32 rem 1) (send_flush ls u line s)) (Sent u (suc n) rem s) _
        (send_flushes-Sent ls u n (add64 line ls) (add32 rem 1) (send_flush ls u line s)
          (omega (arith, h)))
        (λ p k. record {
          total = ground (arith, k.total, h);
          more = λ w. ground (arith, k.more w);
          flushes = k.flushes;
        }))

pub forward-Fenced :
    (u : ℕ) (w : Doorbell) (a pre : Bool) (s : Port)
    → Fenced s
    → Fenced (forward_doorbell u w a pre s)
unfolding forward_doorbell ack_if
forward-Fenced u w a pre s f = record {
  counted = λ v. ground (arith, f.counted v);
  distinct = ground (arith, f.distinct);
  waits = λ v ctx e. ground (arith, f.waits v ctx);
}

await-Fenced :
    (h : Host) (u : ℕ) (ar : Armed) (n r : ℕ) (s t : Port)
    → Fenced s
    → has_key u s.doorbell_flushes ≡ false
    → Sent u n 0 s (r, t)
    → Fenced (await_flushes h u ar (r, t))
unfolding await_flushes find
await-Fenced h u ar n r s t f key k =
    let e = has_key-find u s.doorbell_flushes key in
    elim (Bool-cases (r == 0)) [
      | inl z ↦
          let ft : Fenced t = record {
            counted = λ v. ground (arith, f.counted v, k.more v, k.total, k.flushes, z);
            distinct = subst Distinct (sym k.flushes) f.distinct;
            waits = λ v ctx q. f.waits v ctx (ground (arith, k.flushes, q));
          } in
          subst Fenced (ground (arith, z)) (forward-Fenced u ar.req ar.is_async ar.pre_acked t ft)
      | inr m ↦ record {
        counted = λ v. elim (Bool-cases (u == v)) [
          | inl q ↦
              let uv : u ≡ v = ground (arith, q) in
              let none_v : find v s.doorbell_flushes ≡ none =
                subst (λ x. find x s.doorbell_flushes ≡ none) uv e in
              ground (arith, m, q, k.more v, k.total, f.counted v, none_v)
          | inr q ↦ ground (arith, m, q, k.more v, k.flushes, f.counted v)
        ];
        distinct = ground (arith, m, k.flushes, key, f.distinct);
        waits = λ v ctx q. ground (arith, m, k.flushes, f.waits v ctx, q);
      }
    ]

issue-Fenced :
    (c : Config) (h : Host) (u : ℕ) (ar : Armed) (s : Port)
    → Fenced s
    → Ensures Fenced (issue_doorbell_flushes c h u ar s)
unfolding issue_doorbell_flushes flush_range
issue-Fenced c h u ar s f = Ensures-guard_false Fenced (has_key u s.doorbell_flushes) fatal _ (λ k.
    elim (compute_balar_flush_range (data_to_u64 ar.req.payload) (flush_bytes c) h.cache_line_size)
      as (λ o. Ensures Fenced (elim o [ none ↦ err fatal | some r ↦ flush_range h u ar s r ])) [
        | none ↦ tt
        | some r ↦ Ensures-guard_false Fenced (ltb (u32_mod - 1) r.line_count) fatal _ (λ l.
            Ensures-bind (Sent u r.line_count 0 s) Fenced
              (send_flushes h.cache_line_size u r.line_count r.first_line 0 s)
              (λ p. ok (await_flushes h u ar p))
              (send_flushes-Sent h.cache_line_size u r.line_count r.first_line 0 s
                (ground (arith, l)))
              (λ p q. await-Fenced h u ar r.line_count p.0 s p.1 f k q))
      ])

pub process_loop-Fenced :
    (c : Config) (h : Host) (t : List (ℕ × Armed)) (s : Port)
    → Fenced s
    → Ensures Fenced (process_loop c h t s)
unfolding process_loop
process_loop-Fenced c h [] s f = f
process_loop-Fenced c h ((u, ar) ∷ t) s f =
    Ensures-bind Fenced Fenced
      (if h.is_drained u
        then issue_doorbell_flushes c h u ar s
        else ok (record s { armed_doorbells = s.armed_doorbells ++ ((u, ar) ∷ []) }))
      (λ s'. process_loop c h t s')
      (Ensures-if Fenced (h.is_drained u) _ _ (issue-Fenced c h u ar s f) (kept f))
      (λ s' f'. process_loop-Fenced c h t s' f')
  where
    kept : {l : List (ℕ × Armed)} → Fenced s → Fenced (record s { armed_doorbells = l })
    kept g = record { counted = g.counted; distinct = g.distinct; waits = g.waits }
