-- ===== src/Balar/Lines.antt =====
-- The lines that the flushes before a doorbell name.
use quetz.Base.{
  ◌*◌, ◌∙◌, ◌<◌, ◌^◌, ℕ, zero, suc, ◌+◌, ◌≡◌, ◌≤◌, false, some, List, [], ◌∷◌, ◌++◌, ◌==◌, refl,
  arith, if◌then◌else◌, ok, sym, ap, add32, add64, data_to_u64, append_assoc,
}
use quetz.Memory.{BalarFlushRange, compute_balar_flush_range}
use quetz.Memory.Spans.{compute_balar_flush_range_covers, div-mul-bounds}
use quetz.Base.Tables.{find, has_key}
use quetz.Balar.State.{
  Config, Host, Armed, Port, Effect, post_response, mmio_read, mmio_write, flush_line,
  record_sync_request, record_doorbell_flush, record_doorbell_flush_cycles, record_async_submit,
  record_async_completion,
}
use quetz.Balar.Doorbell.{
  send_flush, send_flushes, await_flushes, flush_range, issue_doorbell_flushes, flush_bytes,
}

-- The lines that the flushes in a log name, newest first.
unfoldable pub lines_of : ℕ → List Effect → List ℕ
lines_of u [] = []
lines_of u (flush_line v id line size ∷ l) = if v == u then line ∷ lines_of u l else lines_of u l
lines_of u (post_response a b ∷ l) = lines_of u l
lines_of u (mmio_read a b d e ∷ l) = lines_of u l
lines_of u (mmio_write a b ∷ l) = lines_of u l
lines_of u (record_sync_request a b ∷ l) = lines_of u l
lines_of u (record_doorbell_flush a ∷ l) = lines_of u l
lines_of u (record_doorbell_flush_cycles a b ∷ l) = lines_of u l
lines_of u (record_async_submit a ∷ l) = lines_of u l
lines_of u (record_async_completion a ∷ l) = lines_of u l

-- `n` lines of `size` bytes from `first` on, the last one first.
unfoldable pub lines_from : ℕ → ℕ → ℕ → List ℕ
lines_from size zero first = []
lines_from size (suc n) first = (first + n * size) ∷ lines_from size n first

lines_from_end :
    (size n first : ℕ)
    → lines_from size (suc n) first ≡ lines_from size n (first + size) ++ (first ∷ [])
unfolding lines_from
lines_from_end size zero first = ground arith
lines_from_end size (suc n) first = ground (arith, lines_from_end size n first)

-- The loop of flushes sends all its lines where they end below 2^64.
send_flushes_lines :
    (size u n first rem : ℕ) (s : Port)
    → 0 < size
    → first + n * size < 2 ^ 64
    → rem + n < 2 ^ 32
    → (t : Port) × (send_flushes size u n first rem s ≡ ok (rem + n, t))
      × (lines_of u t.log ≡ lines_from size n first ++ lines_of u s.log)
unfolding send_flushes send_flush lines_of lines_from
send_flushes_lines size u zero first rem s p h r = (s, ground arith, refl)
send_flushes_lines size u (suc n) first rem s p h r =
    let more : first + size + n * size < 2 ^ 64 = grind arith in
    let s1 = send_flush size u first s in
    let (t, e, l) =
      send_flushes_lines size u n (first + size) (rem + 1) s1 p more (omega (arith, r)) in
    let fits : first + size < 2 ^ 64 = omega (arith, more) in
    let a : add64 first size ≡ first + size = omega (arith, fits) in
    let b : add32 rem 1 ≡ rem + 1 = omega (arith, r) in
    let g : send_flushes size u n (add64 first size) (add32 rem 1) s1 ≡ ok (rem + 1 + n, t) =
      ap2 a b ∙ e in
    let k : lines_of u s1.log ≡ first ∷ lines_of u s.log = ground arith in
    (
      t,
      ground (arith, g, fits),
      l
          ∙ ap (λ x. lines_from size n (first + size) ++ x) k
          ∙ sym (append_assoc (lines_from size n (first + size)) (first ∷ []) (lines_of u s.log))
          ∙ ap (λ x. x ++ lines_of u s.log) (sym (lines_from_end size n first)),
    )
  where
    ap2 :
        {x y z w : ℕ}
        → x ≡ y
        → z ≡ w
        → send_flushes size u n x z (send_flush size u first s)
          ≡ send_flushes size u n y w (send_flush size u first s)
    ap2 p q = cc

-- The doorbell of a vCPU that waits for no flush, whose packet has a size and an address below
-- 2^64, with cache lines that are not empty, and where its range is computed and has fewer than
-- 2^32 lines: the flushes are issued without an error, they name exactly the lines from the first
-- on, these cover the packet, and the doorbell is held back for as many answers.
pub doorbell_waits_for_lines :
    (c : Config) (h : Host) (u : ℕ) (ar : Armed) (s : Port) {r : BalarFlushRange}
    → has_key u s.doorbell_flushes ≡ false
    → data_to_u64 ar.req.payload < 2 ^ 64
    → 0 < flush_bytes c
    → flush_bytes c < 2 ^ 64
    → 0 < h.cache_line_size
    → h.cache_line_size < 2 ^ 64
    → compute_balar_flush_range (data_to_u64 ar.req.payload) (flush_bytes c) h.cache_line_size
      ≡ some r
    → r.line_count < 2 ^ 32
    → (t : Port) × (issue_doorbell_flushes c h u ar s ≡ ok t)
      × (lines_of u t.log
          ≡ lines_from h.cache_line_size r.line_count r.first_line ++ lines_of u s.log)
      × (find u t.doorbell_flushes
          ≡ some (record {
            vcpu = u;
            remaining = r.line_count;
            start_cycle = h.cycles;
            doorbell = ar.req;
            is_async = ar.is_async;
            pre_acked = ar.pre_acked;
          }))
      × (r.first_line ≤ data_to_u64 ar.req.payload)
      × (data_to_u64 ar.req.payload + flush_bytes c
          ≤ r.first_line + r.line_count * h.cache_line_size)
unfolding issue_doorbell_flushes flush_range await_flushes find
doorbell_waits_for_lines c h u ar s {r} k hs hb hb2 hl hl2 e hc =
    let scratch = data_to_u64 ar.req.payload in
    let size = h.cache_line_size in
    let cover =
      compute_balar_flush_range_covers scratch (flush_bytes c) size {r = r} hs hb2 hl2 e in
    let start = div-mul-bounds scratch size hl in
    let some_line : 0 < r.line_count = ground (arith, cover, start) in
    let fits : r.first_line + r.line_count * size < 2 ^ 64 = ground (arith, cover, some_line) in
    let (t, g, l) =
      send_flushes_lines size u r.line_count r.first_line 0 s hl fits (omega (arith, hc)) in
    let sent : send_flushes size u r.line_count r.first_line 0 s ≡ ok (r.line_count, t) =
      g ∙ ap (λ x. ok (x, t)) (omega arith) in
    let t' = record t {
      doorbell_flushes =
          (
            u,
            record {
              vcpu = u;
              remaining = r.line_count;
              start_cycle = h.cycles;
              doorbell = ar.req;
              is_async = ar.is_async;
              pre_acked = ar.pre_acked;
            },
          )
          ∷ t.doorbell_flushes;
    } in
    (
      t',
      ground (arith, k, e, hc, sent, some_line),
      l,
      ground arith,
      ground (arith, start, cover),
      ground (arith, cover, some_line),
    )
