-- ===== src/Mailbox/SlotExamples.antt =====
-- A call that is served while another thread spins on the lock.
use quetz.Base.{◌≡◌, true, List, [], ◌∷◌, refl}
use quetz.Ipc.{mmio_read_req}
use quetz.Mailbox.Slot.{
  Request, Turn, calls, goes_on, polls, posts, simulates, turns, turn, call, lock, go_on, wait,
  poll, post_value, simulate, others, answer_to, start,
}
use quetz.Mailbox.Exclusive.{due, all_due, Delivered, turns-Delivered}

abbrev request : Request
request = record { cmd = mmio_read_req; addr = 4096; size = 4; write_val = 0 }

abbrev other : Request
other = record { cmd = mmio_read_req; addr = 4100; size = 4; write_val = 0 }

-- Thread 3 asks, thread 5 finds the slot taken, the simulation takes the request and answers 7, and
-- thread 3 returns.
abbrev schedule : List Turn
schedule =
    calls 3 request
    ∷ goes_on 3
    ∷ calls 5 other
    ∷ goes_on 3
    ∷ goes_on 3
    ∷ goes_on 3
    ∷ goes_on 3
    ∷ goes_on 3
    ∷ goes_on 3
    ∷ polls
    ∷ simulates
    ∷ simulates
    ∷ goes_on 3
    ∷ simulates
    ∷ simulates
    ∷ simulates
    ∷ posts 7
    ∷ goes_on 3
    ∷ simulates
    ∷ goes_on 3
    ∷ goes_on 3
    ∷ goes_on 3
    ∷ goes_on 3
    ∷ []

returned : (turns schedule start).results ≡ (request, 7) ∷ []
unfolding turns turn call lock go_on wait poll post_value simulate others answer_to
returned = refl

schedule_due : all_due schedule start ≡ true
unfolding all_due due turn call lock go_on wait poll post_value simulate others answer_to
schedule_due = refl

turns-Delivered_example : Delivered (turns schedule start)
turns-Delivered_example = turns-Delivered schedule schedule_due
