-- ===== src/Mailbox/Seqlock.antt =====
-- What the interrupt mailbox keeps between any two accesses, and that postIrq keeps it.
use quetz.Base.{
  ℕ, suc, ◌^◌, ◌≡◌, ◌≤◌, ◌<◌, Bool, true, false, ◌&&◌, ◌||◌, ◌==◌, ltb, leb, refl, arith,
}
use quetz.Mailbox.Irq.{
  store_level, store_seq, store_generation, Writer, idle, level_stored, seq_stored, Reader, outside,
  scanning, changed, Args, cores, lines, Sys, start, post_begin, post_step,
}

-- postIrq has stored the level of this slot and not yet its `seq`, or its `seq` and not yet the
-- generation; the drain has loaded its `seq` and not yet its level.
abbrev pub stores_level : ℕ → ℕ → Writer → Bool
stores_level v l idle = false
stores_level v l (level_stored w m) = (v == w) && (l == m)
stores_level v l (seq_stored w m) = false

abbrev pub stores_seq : ℕ → ℕ → Writer → Bool
stores_seq v l idle = false
stores_seq v l (level_stored w m) = false
stores_seq v l (seq_stored w m) = (v == w) && (l == m)

abbrev pub loads_level : ℕ → ℕ → Reader → Bool
loads_level v l outside = false
loads_level v l (scanning g w m n) = false
loads_level v l (changed g w m n) = (v == w) && (l == m)

-- The generation of a scan, and the slots that it has passed.
abbrev pub generation_of : Reader → ℕ
generation_of outside = 0
generation_of (scanning g v l n) = g
generation_of (changed g v l n) = g

abbrev pub passed : ℕ → ℕ → Reader → Bool
passed v l outside = false
passed v l (scanning g w m n) = ltb v w || ((v == w) && ltb l m)
passed v l (changed g w m n) = ltb v w || ((v == w) && leb l m)

pub record Inv (a : Args) (k : ℕ) (s : Sys) : Type 0 where
  pub generation_small : s.slots.irq_generation ≤ k
  pub seq_small : (v l : ℕ) → s.slots.seq v l ≤ k
  pub shadow : s.irq_gen ≤ s.slots.irq_generation
  pub scan_shadow : generation_of s.reader ≤ s.slots.irq_generation
  pub seq_shadow : (v l : ℕ) → s.irq_seq v l ≤ s.slots.seq v l
  pub current :
      (v l : ℕ)
      → s.irq_seq v l ≡ s.slots.seq v l
      → stores_level v l s.writer ≡ false
      → loads_level v l s.reader ≡ false
      → s.applied v l ≡ s.slots.level v l
  pub scanned :
      (v l : ℕ)
      → v < cores a
      → l < lines a
      → passed v l s.reader ≡ true
      → generation_of s.reader ≡ s.slots.irq_generation
      → stores_seq v l s.writer ≡ false
      → s.irq_seq v l ≡ s.slots.seq v l
  pub complete :
      (v l : ℕ)
      → v < cores a
      → l < lines a
      → s.irq_gen ≡ s.slots.irq_generation
      → stores_seq v l s.writer ≡ false
      → s.irq_seq v l ≡ s.slots.seq v l

pub start-Inv : (a : Args) → Inv a 0 start
start-Inv a = record {
  generation_small = omega arith;
  seq_small = λ v l. omega arith;
  shadow = omega arith;
  scan_shadow = omega arith;
  seq_shadow = λ v l. omega arith;
  current = λ v l e w r. refl;
  scanned = λ v l hv hl p g w. refl;
  complete = λ v l hv hl g w. refl;
}

pub post_begin-Inv :
    (a : Args) (k v l x : ℕ) (s : Sys)
    → Inv a k s
    → s.writer ≡ idle
    → Inv a (suc k) (post_begin v l x s)
unfolding post_begin store_level
post_begin-Inv a k v l x s i e = record {
  generation_small = ground (arith, i.generation_small);
  seq_small = λ w m. ground (arith, i.seq_small w m);
  shadow = ground (arith, i.shadow);
  scan_shadow = ground (arith, i.scan_shadow);
  seq_shadow = λ w m. ground (arith, i.seq_shadow w m);
  current = λ w m. ground (arith, i.current w m, e);
  scanned = λ w m. ground (arith, i.scanned w m, e);
  complete = λ w m. ground (arith, i.complete w m, e);
}

pub post_step-Inv :
    (a : Args) (k : ℕ) (q : Writer) (s : Sys)
    → suc k < 2 ^ 32
    → Inv a k s
    → s.writer ≡ q
    → Inv a (suc k) (post_step q s)
unfolding post_step store_seq store_generation
post_step-Inv a k idle s h i e = record {
  generation_small = ground (arith, i.generation_small);
  seq_small = λ w m. ground (arith, i.seq_small w m);
  shadow = i.shadow;
  scan_shadow = i.scan_shadow;
  seq_shadow = i.seq_shadow;
  current = i.current;
  scanned = i.scanned;
  complete = i.complete;
}
post_step-Inv a k (level_stored v l) s h i e = record {
  generation_small = ground (arith, i.generation_small);
  seq_small = λ w m. ground (arith, i.seq_small w m, h);
  shadow = ground (arith, i.shadow);
  scan_shadow = ground (arith, i.scan_shadow);
  seq_shadow = λ w m. ground (arith, i.seq_shadow w m, i.seq_small w m, h);
  current = λ w m. ground (arith, i.current w m, i.seq_shadow w m, i.seq_small w m, h, e);
  scanned = λ w m. ground (arith, i.scanned w m, e);
  complete = λ w m. ground (arith, i.complete w m, e);
}
post_step-Inv a k (seq_stored v l) s h i e = record {
  generation_small = ground (arith, i.generation_small, h);
  seq_small = λ w m. ground (arith, i.seq_small w m);
  shadow = ground (arith, i.shadow, i.generation_small, h);
  scan_shadow = ground (arith, i.scan_shadow, i.generation_small, h);
  seq_shadow = λ w m. ground (arith, i.seq_shadow w m);
  current = λ w m. ground (arith, i.current w m, e);
  scanned = λ w m. ground (arith, i.scan_shadow, i.generation_small, h);
  complete = λ w m. ground (arith, i.shadow, i.generation_small, h);
}
