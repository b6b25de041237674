-- ===== src/Mailbox/Lossless.antt =====
-- No level is lost between postIrq and the drain, however their accesses interleave.
use quetz.Base.{ℕ, suc, ◌+◌, ◌^◌, ◌≡◌, ◌<◌, false, List, [], ◌∷◌, refl, sym, subst, arith, length}
use quetz.Mailbox.Irq.{
  Writer, idle, level_stored, seq_stored, outside, Args, cores, lines, Sys, start, post_turn, Turn,
  post, write_on, read_on, turn, turns,
}
use quetz.Mailbox.Seqlock.{
  stores_level, stores_seq, loads_level, Inv, start-Inv, post_begin-Inv, post_step-Inv,
}
use quetz.Mailbox.Scan.{drain_step-Inv}

later-Inv : (a : Args) (k : ℕ) (s : Sys) → Inv a k s → Inv a (suc k) s
later-Inv a k s i = record {
  generation_small = ground (arith, i.generation_small);
  seq_small = λ w m. ground (arith, i.seq_small w m);
  shadow = i.shadow;
  scan_shadow = i.scan_shadow;
  seq_shadow = i.seq_shadow;
  current = i.current;
  scanned = i.scanned;
  complete = i.complete;
}

post_turn-Inv :
    (a : Args) (k v l x : ℕ) (q : Writer) (s : Sys)
    → Inv a k s
    → s.writer ≡ q
    → Inv a (suc k) (post_turn q v l x s)
unfolding post_turn
post_turn-Inv a k v l x idle s i e = post_begin-Inv a k v l x s i e
post_turn-Inv a k v l x (level_stored w m) s i e = later-Inv a k s i
post_turn-Inv a k v l x (seq_stored w m) s i e = later-Inv a k s i

turn-Inv :
    (a : Args) (k : ℕ) (t : Turn) (s : Sys)
    → suc k < 2 ^ 32
    → Inv a k s
    → Inv a (suc k) (turn a t s)
unfolding turn
turn-Inv a k (post v l x) s h i = post_turn-Inv a k v l x s.writer s i refl
turn-Inv a k write_on s h i = post_step-Inv a k s.writer s h i refl
turn-Inv a k read_on s h i = drain_step-Inv a k s.reader s i refl

pub turns-Inv :
    (a : Args) (k : ℕ) (ts : List Turn) (s : Sys)
    → k + length ts < 2 ^ 32
    → Inv a k s
    → Inv a (k + length ts) (turns a ts s)
unfolding turns
turns-Inv a k [] s h i = subst (λ n. Inv a n s) (omega arith) i
turns-Inv a k (t ∷ ts) s h i =
    subst (λ n. Inv a n (turns a ts (turn a t s))) (omega arith)
      (turns-Inv a (suc k) ts (turn a t s) (omega (arith, h))
        (turn-Inv a k t s (omega (arith, h)) i))

-- Any interleaving, of fewer than 2^32 accesses from the cleared mailbox, of a simulation that
-- posts levels one after another and a client that drains them. Between two posts and outside a
-- drain, where the client's generation is the mailbox's, so that the next drain would skip its
-- scan: what the drains have written out leaves each line of their range at its posted level.
pub no_level_lost :
    (a : Args) (ts : List Turn) (v l : ℕ)
    → length ts < 2 ^ 32
    → (turns a ts start).writer ≡ idle
    → (turns a ts start).reader ≡ outside
    → (turns a ts start).irq_gen ≡ (turns a ts start).slots.irq_generation
    → v < cores a
    → l < lines a
    → (turns a ts start).applied v l ≡ (turns a ts start).slots.level v l
no_level_lost a ts v l h w r g hv hl =
    let i = turns-Inv a 0 ts start (omega (arith, h)) (start-Inv a) in
    i.current v l (i.complete v l hv hl g (subst (λ q. stores_seq v l q ≡ false) (sym w) refl))
      (subst (λ q. stores_level v l q ≡ false) (sym w) refl)
      (subst (λ q. loads_level v l q ≡ false) (sym r) refl)
