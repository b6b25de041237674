-- ===== src/Mailbox/Examples.antt =====
-- A mailbox of two cores with four lines each, and a post that comes in the middle of a scan.
use quetz.Base.{ℕ, suc, ◌+◌, ◌*◌, ◌≡◌, ◌≤◌, ◌<◌, List, [], ◌∷◌, ◌++◌, refl, arith, replicate}
use quetz.Mailbox.Irq.{
  Args, cores, lines, Sys, Turn, post, write_on, read_on, turns, turn, post_turn, post_begin,
  post_step, advance, drain_begin, drain_step, store_level, store_seq, store_generation, outside,
  idle, start, post_irq,
}
use quetz.Mailbox.Lossless.{no_level_lost}
use quetz.Mailbox.Delivery.{drain_delivers, alone}

abbrev args : Args
args = record { num_cores = 2; max_lines = 4; max_out = 16 }

-- Line 2 of core 1 goes up; the scan has passed line 1 of core 0 when that goes up as well, so a
-- second scan delivers it.
abbrev history : List Turn
history =
    post 1 2 1
      ∷ write_on
      ∷ write_on
      ∷ read_on
      ∷ read_on
      ∷ read_on
      ∷ read_on
      ∷ post 0 1 1
      ∷ write_on
      ∷ write_on
      ∷ replicate 7 read_on
    ++ replicate 10 read_on

after : Sys
unfolding turns turn post_turn post_begin post_step advance drain_begin drain_step store_level
    store_seq store_generation
after = turns args history start

delivered : (after.applied 0 1 ≡ suc 0) × (after.applied 1 2 ≡ suc 0)
unfolding after
delivered = (refl, refl)

no_level_lost_example :
    (turns args history start).applied 0 1 ≡ (turns args history start).slots.level 0 1
unfolding turns turn post_turn post_begin post_step advance drain_begin drain_step store_level
    store_seq store_generation
no_level_lost_example =
    no_level_lost args history 0 1 (omega arith) refl refl refl (omega arith) (omega arith)

abbrev posted : List Turn
posted = post 1 2 1 ∷ write_on ∷ write_on ∷ []

drain_delivers_example :
    (j : ℕ) × (j ≤ 1 + (cores args * lines args + cores args * lines args))
    × ((alone args j (turns args posted start)).reader ≡ outside)
    × ((v l : ℕ)
        → v < cores args
        → l < lines args
        → (alone args j (turns args posted start)).applied v l
          ≡ (turns args posted start).slots.level v l)
unfolding turns turn post_turn post_begin post_step store_level store_seq store_generation
drain_delivers_example =
    drain_delivers args posted (omega arith) refl refl (omega arith) (omega arith) (omega arith)

-- The three turns of a post are postIrq.
post_irq-turns :
    (v l x : ℕ) (s : Sys)
    → s.writer ≡ idle
    → (turns args (post v l x ∷ write_on ∷ write_on ∷ []) s).slots ≡ post_irq v l x s.slots
unfolding turns turn post_turn post_begin post_step post_irq
post_irq-turns v l x s e = ground (arith, e)
