-- ===== src/Mailbox/Scan.antt =====
-- The drain keeps what the interrupt mailbox keeps.
use quetz.Base.{
  ℕ, suc, ◌≡◌, ◌≤◌, ◌<◌, true, false, ◌&&◌, ◌||◌, ◌==◌, ltb, leb, sym, subst, arith, Bool-cases,
  inl, inr,
}
use quetz.Mailbox.Irq.{
  update2, Reader, outside, scanning, changed, Args, cores, lines, Sys, advance, drain_begin,
  drain_step,
}
use quetz.Mailbox.Seqlock.{stores_level, stores_seq, Inv}

-- A scan of the generation `g` that is done with the slot (v, l).
record Swept (a : Args) (k g v l : ℕ) (s : Sys) : Type 0 where
  pub generation_small : s.slots.irq_generation ≤ k
  pub seq_small : (w m : ℕ) → s.slots.seq w m ≤ k
  pub shadow : s.irq_gen ≤ s.slots.irq_generation
  pub scan_shadow : g ≤ s.slots.irq_generation
  pub seq_shadow : (w m : ℕ) → s.irq_seq w m ≤ s.slots.seq w m
  pub current :
      (w m : ℕ)
      → s.irq_seq w m ≡ s.slots.seq w m
      → stores_level w m s.writer ≡ false
      → s.applied w m ≡ s.slots.level w m
  pub scanned :
      (w m : ℕ)
      → w < cores a
      → m < lines a
      → (ltb w v || ((w == v) && leb m l)) ≡ true
      → g ≡ s.slots.irq_generation
      → stores_seq w m s.writer ≡ false
      → s.irq_seq w m ≡ s.slots.seq w m
  pub complete :
      (w m : ℕ)
      → w < cores a
      → m < lines a
      → s.irq_gen ≡ s.slots.irq_generation
      → stores_seq w m s.writer ≡ false
      → s.irq_seq w m ≡ s.slots.seq w m

advance-Inv :
    (a : Args) (k g v l n : ℕ) (s : Sys) → Swept a k g v l s → Inv a (suc k) (advance a g v l n s)
unfolding advance
advance-Inv a k g v l n s i = record {
  generation_small = ground (arith, i.generation_small);
  seq_small = λ w m. ground (arith, i.seq_small w m);
  shadow = ground (arith, i.shadow, i.scan_shadow);
  scan_shadow = ground (arith, i.scan_shadow);
  seq_shadow = λ w m. ground (arith, i.seq_shadow w m);
  current = λ w m. ground (arith, i.current w m);
  scanned = λ w m. ground (arith, i.scanned w m);
  complete = λ w m. ground (arith, i.scanned w m, i.complete w m);
}

drain_begin-Inv :
    (a : Args) (k : ℕ) (s : Sys) → Inv a k s → s.reader ≡ outside → Inv a (suc k) (drain_begin a s)
unfolding drain_begin
drain_begin-Inv a k s i e = record {
  generation_small = ground (arith, i.generation_small);
  seq_small = λ w m. ground (arith, i.seq_small w m);
  shadow = ground (arith, i.shadow);
  scan_shadow = ground (arith, i.scan_shadow);
  seq_shadow = λ w m. ground (arith, i.seq_shadow w m);
  current = λ w m. ground (arith, i.current w m, e);
  scanned = λ w m. ground (arith, e);
  complete = λ w m. ground (arith, i.complete w m);
}

same_slot : (v l w m : ℕ) → ((w == v) && (m == l)) ≡ true → (w ≡ v) × (m ≡ l)
same_slot v l w m e = ground arith

unchanged-Swept :
    (a : Args) (k g v l n : ℕ) (s : Sys)
    → Inv a k s
    → s.reader ≡ scanning g v l n
    → s.slots.seq v l ≡ s.irq_seq v l
    → Swept a k g v l s
unchanged-Swept a k g v l n s i e q = record {
  generation_small = i.generation_small;
  seq_small = i.seq_small;
  shadow = i.shadow;
  scan_shadow = ground (arith, i.scan_shadow, e);
  seq_shadow = i.seq_shadow;
  current = λ w m. ground (arith, i.current w m, e);
  scanned = λ w m. elim (Bool-cases ((w == v) && (m == l))) [
    | inl c ↦
        let r = same_slot v l w m c in
        let qw : s.irq_seq w m ≡ s.slots.seq w m =
          subst (λ y. s.irq_seq y m ≡ s.slots.seq y m) (sym r.0)
            (subst (λ y. s.irq_seq v y ≡ s.slots.seq v y) (sym r.1) (sym q)) in
        λ hv hl p gen ws. qw
    | inr c ↦ ground (arith, i.scanned w m, e, c)
  ];
  complete = i.complete;
}

changed-Inv :
    (a : Args) (k g v l n : ℕ) (s : Sys)
    → Inv a k s
    → s.reader ≡ scanning g v l n
    → Inv a
        (suc k)
        (record s { irq_seq = update2 v l (s.slots.seq v l) s.irq_seq; reader = changed g v l n })
changed-Inv a k g v l n s i e = record {
  generation_small = ground (arith, i.generation_small);
  seq_small = λ w m. ground (arith, i.seq_small w m);
  shadow = i.shadow;
  scan_shadow = ground (arith, i.scan_shadow, e);
  seq_shadow = λ w m. elim (Bool-cases ((w == v) && (m == l))) [
    | inl c ↦ let r = same_slot v l w m c in ground (arith, r, c, seq_at r.0 r.1)
    | inr c ↦ ground (arith, i.seq_shadow w m, c)
  ];
  current = λ w m. ground (arith, i.current w m, e);
  scanned = λ w m. elim (Bool-cases ((w == v) && (m == l))) [
    | inl c ↦ let r = same_slot v l w m c in ground (arith, r, c, seq_at r.0 r.1)
    | inr c ↦ ground (arith, i.scanned w m, e, c)
  ];
  complete = λ w m. elim (Bool-cases ((w == v) && (m == l))) [
    | inl c ↦ let r = same_slot v l w m c in ground (arith, r, c, seq_at r.0 r.1)
    | inr c ↦ ground (arith, i.complete w m, c)
  ];
}
  where
    seq_at : {w m : ℕ} → w ≡ v → m ≡ l → s.slots.seq v l ≡ s.slots.seq w m
    seq_at p q = cc

applied-Swept :
    (a : Args) (k g v l n : ℕ) (s : Sys)
    → Inv a k s
    → s.reader ≡ changed g v l n
    → Swept a k g v l (record s { applied = update2 v l (s.slots.level v l) s.applied })
applied-Swept a k g v l n s i e = record {
  generation_small = i.generation_small;
  seq_small = i.seq_small;
  shadow = i.shadow;
  scan_shadow = ground (arith, i.scan_shadow, e);
  seq_shadow = i.seq_shadow;
  current = λ w m. elim (Bool-cases ((w == v) && (m == l))) [
    | inl c ↦ let r = same_slot v l w m c in ground (arith, c, level_at r.0 r.1)
    | inr c ↦ ground (arith, i.current w m, e, c)
  ];
  scanned = λ w m. ground (arith, i.scanned w m, e);
  complete = i.complete;
}
  where
    level_at : {w m : ℕ} → w ≡ v → m ≡ l → s.slots.level v l ≡ s.slots.level w m
    level_at p q = cc

Swept-outside :
    (a : Args) (k g v l : ℕ) (s : Sys)
    → Swept a k g v l s
    → Inv a (suc k) (record s { reader = outside })
Swept-outside a k g v l s i = record {
  generation_small = ground (arith, i.generation_small);
  seq_small = λ w m. ground (arith, i.seq_small w m);
  shadow = i.shadow;
  scan_shadow = omega arith;
  seq_shadow = i.seq_shadow;
  current = λ w m e ws r. i.current w m e ws;
  scanned = λ w m. ground arith;
  complete = i.complete;
}

pub drain_step-Inv :
    (a : Args) (k : ℕ) (q : Reader) (s : Sys)
    → Inv a k s
    → s.reader ≡ q
    → Inv a (suc k) (drain_step a q s)
unfolding drain_step
drain_step-Inv a k outside s i e = drain_begin-Inv a k s i e
drain_step-Inv a k (scanning g v l n) s i e = elim (Bool-cases (s.slots.seq v l == s.irq_seq v l)) [
  | inl c ↦ rw c (advance-Inv a k g v l n s (unchanged-Swept a k g v l n s i e (ground (arith, c))))
  | inr c ↦ rw c (changed-Inv a k g v l n s i e)
]
drain_step-Inv a k (changed g v l n) s i e =
    let swept = applied-Swept a k g v l n s i e in
    elim (Bool-cases (suc n == a.max_out)) [
      | inl c ↦ rw c (Swept-outside a k g v l _ swept)
      | inr c ↦ rw c (advance-Inv a k g v l (suc n) _ swept)
    ]
