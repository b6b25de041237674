-- ===== src/Stream/Irq.antt =====
-- The stream device's invariant: the pop cursor, the pacing budget and the data-ready interrupt,
-- whose level follows the bytes that are available.
use quetz.Base.{
  ℕ, ◌+◌, ◌≤◌, ◌<◌, ◌^◌, ◌≡◌, Bool, false, Option, none, some, List, [], ◌∷◌, ltb, ◌==◌,
  if◌then◌else◌, length, arith, ◌⊎◌,
}
use quetz.Device.{IrqEvent, Write}
use quetz.Stream.{
  Stream, Event, reads, writes, ticks, init, raise_data_ready_irq, tick_pace, handle_read,
  handle_write, step, run, paced,
}

-- The level of the line at its receiver: that of the last message.
abbrev line_level : List IrqEvent → Bool
line_level [] = false
line_level (e ∷ es) = e.level == 1

-- An enabled line is raised exactly while bytes are available; a disabled one never is.
abbrev FollowsData : Option ℕ → Bool → ℕ → Type 0
FollowsData none pending avail = pending ≡ false
FollowsData (some line) pending avail = pending ≡ ltb 0 avail

pub record Inv (d : Stream) : Type 0 where
  pub cursor : d.pos + d.avail ≡ d.budget_given
  pub budget : d.budget_given ≤ length d.stream
  pub size : length d.stream < 2 ^ 64
  pub unpaced : (d.pace_bytes ≡ 0) → d.budget_given ≡ length d.stream
  pub level : FollowsData d.irq_line d.irq_pending d.avail
  pub sent : line_level d.irq_sent ≡ d.irq_pending

raise-Inv :
    (d : Stream)
    → d.pos + d.avail ≡ d.budget_given
    → d.budget_given ≤ length d.stream
    → length d.stream < 2 ^ 64
    → (d.pace_bytes ≡ 0 → d.budget_given ≡ length d.stream)
    → FollowsData d.irq_line d.irq_pending d.avail ⊎ (d.irq_pending ≡ false)
    → 0 < d.avail
    → line_level d.irq_sent ≡ d.irq_pending
    → Inv (raise_data_ready_irq d)
unfolding raise_data_ready_irq
raise-Inv d c b s u l a t = ground arith

read-Inv : (d : Stream) (addr size : ℕ) → Inv d → Inv (handle_read d addr size).0
unfolding handle_read
read-Inv d addr size v = ground arith

write-Inv : (d : Stream) (w : Write) → Inv d → Inv (handle_write d w).0
unfolding handle_write
write-Inv d w v = ground arith

tick-Inv : (d : Stream) → Inv d → Inv (if paced d then tick_pace d else d)
unfolding tick_pace
tick-Inv d v = ground arith

-- Every access and every refill keeps the cursor within the budget, the budget within the stream,
-- and an enabled interrupt line raised exactly while bytes are available, as its receiver sees it.
pub step-Inv : (d : Stream) (e : Event) → Inv d → Inv (step d e)
unfolding step
step-Inv d (reads addr size) v = read-Inv d addr size v
step-Inv d (writes w) v = write-Inv d w v
step-Inv d ticks v = tick-Inv d v

run-Inv : (d : Stream) (es : List Event) → Inv d → Inv (run d es)
unfolding run
run-Inv d [] v = v
run-Inv d (e ∷ es) v = run-Inv (step d e) es (step-Inv d e v)

pub init-Inv :
    (base : ℕ) (stream : List ℕ) (pace : ℕ) (line : Option ℕ) (vcpu : ℕ) {d : Stream}
    → length stream < 2 ^ 64
    → init base stream pace line vcpu ≡ some d
    → Inv d
unfolding init
init-Inv base [] pace line vcpu h e = ground arith
init-Inv base (b ∷ bs) pace none vcpu h e = ground arith
init-Inv base (b ∷ bs) pace (some l) vcpu h e = ground arith

-- After any history of reads, writes and refills of a device as it was configured, the bytes
-- popped and the bytes available make up the pacing budget, the budget lies within the stream and
-- is all of it in an unpaced device, and an enabled interrupt line is high exactly while bytes are
-- available, by the messages that its receiver got.
pub history-Inv :
    (base : ℕ) (stream : List ℕ) (pace : ℕ) (line : Option ℕ) (vcpu : ℕ) (es : List Event)
    {d : Stream}
    → length stream < 2 ^ 64
    → init base stream pace line vcpu ≡ some d
    → Inv (run d es)
history-Inv base stream pace line vcpu es {d} h e =
    run-Inv d es (init-Inv base stream pace line vcpu h e)
