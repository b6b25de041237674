-- ===== src/Mailbox/Delivery.antt =====
-- A drain that nothing interrupts delivers every change.
use quetz.Base.{
  ℕ, zero, suc, ◌+◌, ◌-◌, ◌*◌, ◌^◌, ◌≡◌, ◌≤◌, ◌<◌, List, [], ◌∷◌, ◌++◌, ◌==◌, ltb, refl, sym, subst,
  ap, ◌∙◌, arith, Bool-cases, inl, inr, length, replicate, length-append, length-replicate,
}
use quetz.Mailbox.Irq.{
  update2, idle, outside, scanning, changed, Args, cores, lines, Sys, start, advance, drain_begin,
  drain_step, Turn, read_on, turn, turns,
}
use quetz.Mailbox.Lossless.{no_level_lost}

-- The slots that a scan has before it, this one among them.
abbrev left : Args → ℕ → ℕ → ℕ
left a v l = (cores a - suc v) * lines a + (lines a - l)

abbrev pub alone : Args → ℕ → Sys → Sys
alone a j s = turns a (replicate j read_on) s

record Finished (g : ℕ) (s t : Sys) : Type 0 where
  pub reader : t.reader ≡ outside
  pub shadow : t.irq_gen ≡ g
  pub slots : t.slots ≡ s.slots
  pub writer : t.writer ≡ s.writer

abbrev Finishes : Args → ℕ → ℕ → Type 0
Finishes a g m =
    (v l n : ℕ) (s : Sys)
    → s.reader ≡ scanning g v l n
    → v < cores a
    → l < lines a
    → left a v l ≤ m
    → n + left a v l < a.max_out
    → (j : ℕ) × (j ≤ m + m) × Finished g s (alone a j s)

row : (k n : ℕ) → k * n + (n - 0) ≡ suc k * n
row k n = omega arith

next_row : (a : Args) (v : ℕ) → suc v < cores a → left a (suc v) 0 ≡ (cores a - suc v) * lines a
next_row a v h =
    let e : suc (cores a - suc (suc v)) ≡ cores a - suc v = omega (arith, h) in
    row (cores a - suc (suc v)) (lines a) ∙ ap (λ k. k * lines a) e

-- The drain goes on to the next slot, in a state with the slots and the writer of `s`.
advance-Finishes :
    (a : Args) (g m : ℕ) (v l n : ℕ) (s t : Sys)
    → Finishes a g m
    → t.slots ≡ s.slots
    → t.writer ≡ s.writer
    → v < cores a
    → l < lines a
    → left a v l ≤ suc m
    → n + left a v l < suc a.max_out
    → (j : ℕ) × (j ≤ m + m) × Finished g s (alone a j (advance a g v l n t))
unfolding advance turns
advance-Finishes a g m v l n s t ih es ew hv hl hm hn = elim (Bool-cases (ltb (suc l) (lines a))) [
  | inl c ↦
      let t' = record t { reader = scanning g v (suc l) n } in
      let (j, b, f) =
        ih v (suc l) n t' refl hv (ground (arith, c)) (omega (arith, hm)) (omega (arith, hn)) in
      rw c (
        j,
        b,
        record {
          reader = f.reader;
          shadow = f.shadow;
          slots = f.slots ∙ es;
          writer = f.writer ∙ ew;
        },
      )
  | inr c ↦ elim (Bool-cases (ltb (suc v) (cores a))) [
    | inl d ↦
        let r = next_row a v (ground (arith, d)) in
        let t' = record t { reader = scanning g (suc v) 0 n } in
        let (j, b, f) =
          ih (suc v) 0 n t' refl (ground (arith, d)) (omega (arith, hl)) (omega (arith, r, hm, hl))
            (omega (arith, r, hn, hl)) in
        rw (c, d)
          (
            j,
            b,
            record {
              reader = f.reader;
              shadow = f.shadow;
              slots = f.slots ∙ es;
              writer = f.writer ∙ ew;
            },
          )
    | inr d ↦
        rw (c, d) (0, omega arith, record { reader = refl; shadow = refl; slots = es; writer = ew })
  ]
]

finishes : (a : Args) (g m : ℕ) → Finishes a g m
unfolding turns turn drain_step
finishes a g zero v l n s e hv hl hm hn = absurd (omega (arith, hm, hl))
finishes a g (suc m) v l n s e hv hl hm hn = elim (Bool-cases (s.slots.seq v l == s.irq_seq v l)) [
  | inl c ↦
      let (j, b, f) =
        advance-Finishes a g m v l n s s (finishes a g m) refl refl hv hl hm (omega (arith, hn)) in
      let first : turn a read_on s ≡ advance a g v l n s = ground (arith, e, c) in
      (suc j, omega (arith, b), subst (λ x. Finished g s (alone a j x)) (sym first) f)
  | inr c ↦
      let s1 = record s {
        irq_seq = update2 v l (s.slots.seq v l) s.irq_seq;
        reader = changed g v l n;
      } in
      let s2 = record s1 { applied = update2 v l (s.slots.level v l) s.applied } in
      let (j, b, f) =
        advance-Finishes a g m v l (suc n) s s2 (finishes a g m) refl refl hv hl hm
          (omega (arith, hn)) in
      let first : turn a read_on s ≡ s1 = ground (arith, e, c) in
      let second : turn a read_on s1 ≡ advance a g v l (suc n) s2 = ground (arith, hn, hl) in
      let both : turn a read_on (turn a read_on s) ≡ advance a g v l (suc n) s2 =
        ap (turn a read_on) first ∙ second in
      (suc (suc j), omega (arith, b), subst (λ x. Finished g s (alone a j x)) (sym both) f)
]

turns-append :
    (a : Args) (ts us : List Turn) (s : Sys) → turns a (ts ++ us) s ≡ turns a us (turns a ts s)
unfolding turns
turns-append a [] us s = refl
turns-append a (t ∷ ts) us s = turns-append a ts us (turn a t s)

-- A drain from outside, with enough room for all changes.
drain_finishes :
    (a : Args) (s : Sys)
    → s.reader ≡ outside
    → 0 < cores a
    → 0 < lines a
    → cores a * lines a < a.max_out
    → (j : ℕ) × (j ≤ 1 + (cores a * lines a + cores a * lines a))
      × Finished s.slots.irq_generation s (alone a j s)
unfolding turns turn drain_step drain_begin
drain_finishes a s e hc hl hm = elim (Bool-cases (s.slots.irq_generation == s.irq_gen)) [
  | inl c ↦ (
    0,
    omega arith,
    record { reader = e; shadow = ground (arith, c); slots = refl; writer = refl },
  )
  | inr c ↦
      let g = s.slots.irq_generation in
      let s1 = record s { reader = scanning g 0 0 0 } in
      let all : left a 0 0 ≡ cores a * lines a =
        row (cores a - 1) (lines a) ∙ ap (λ k. k * lines a) (omega (arith, hc)) in
      let (j, b, f) =
        finishes a g (cores a * lines a) 0 0 0 s1 refl hc hl (omega (arith, all))
          (omega (arith, all, hm)) in
      let first : turn a read_on s ≡ s1 = ground (arith, e, c, hc, hl, hm) in
      (
        suc j,
        omega (arith, b),
        subst (λ x. Finished g s (alone a j x)) (sym first)
            (record { reader = f.reader; shadow = f.shadow; slots = f.slots; writer = f.writer }),
      )
]

-- After any such interleaving, between two posts and outside a drain, a drain that runs alone,
-- over at least one core and line and with room for more changes than it has slots, where the
-- accesses and twice that room are fewer than 2^32: it ends within one access and two for each
-- slot, and then each line of its range has been written out at its posted level.
pub drain_delivers :
    (a : Args) (ts : List Turn)
    → length ts + 2 * a.max_out < 2 ^ 32
    → (turns a ts start).writer ≡ idle
    → (turns a ts start).reader ≡ outside
    → 0 < cores a
    → 0 < lines a
    → cores a * lines a < a.max_out
    → (j : ℕ) × (j ≤ 1 + (cores a * lines a + cores a * lines a))
      × ((alone a j (turns a ts start)).reader ≡ outside)
      × ((v l : ℕ)
          → v < cores a
          → l < lines a
          → (alone a j (turns a ts start)).applied v l ≡ (turns a ts start).slots.level v l)
drain_delivers a ts h w r hc hl hm =
    let s = turns a ts start in
    let (j, b, f) = drain_finishes a s r hc hl hm in
    let us = replicate j read_on in
    let e = turns-append a ts us start in
    let n : length (ts ++ us) < 2 ^ 32 =
      omega (arith, h, b, hm, length-append ts us, length-replicate j read_on) in
    let lossless : (v l : ℕ)
        → v < cores a
        → l < lines a
        → (alone a j s).applied v l ≡ (alone a j s).slots.level v l =
      λ v l hv hl.
        subst (λ x. x.applied v l ≡ x.slots.level v l) e
          (no_level_lost a (ts ++ us) v l n (ap (λ x. x.writer) e ∙ f.writer ∙ w)
            (ap (λ x. x.reader) e ∙ f.reader)
            (ap (λ x. x.irq_gen) e
              ∙ f.shadow
              ∙ ap (λ x. x.irq_generation) (sym f.slots)
              ∙ ap (λ x. x.slots.irq_generation) (sym e))
            hv hl) in
    (j, b, f.reader, λ v l hv hl. lossless v l hv hl ∙ ap (λ x. x.level v l) f.slots)
