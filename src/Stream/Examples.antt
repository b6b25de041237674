-- ===== src/Stream/Examples.antt =====
-- A paced device of six bytes with an interrupt line, as the theorems' witnesses run it.
use quetz.Base.{
  ℕ, ◌+◌, ◌*◌, ◌-◌, ◌≤◌, ◌<◌, min, ◌≡◌, refl, true, false, some, List, [], ◌∷◌, ◌⊎◌, length,
  replicate, arith, subst,
}
use quetz.Stream.{
  Stream, Event, reads, ticks, init, no_stats, handle_read, want, run, tick_pace,
  raise_data_ready_irq, step,
}
use quetz.Stream.Irq.{Inv, history-Inv, init-Inv, step-Inv}
use quetz.Stream.Delivery.{read_data_lem, padded, AllBytes}
use quetz.Stream.Pacing.{budget-ticks}

abbrev bytes : List ℕ
bytes = 11 ∷ 22 ∷ 33 ∷ 44 ∷ 55 ∷ 66 ∷ []

abbrev device : Stream
device = record {
  base_addr = 4096;
  stream = bytes;
  pos = 0;
  pace_bytes = 4;
  budget_given = 0;
  avail = 0;
  irq_line = some 5;
  irq_vcpu = 0;
  irq_pending = false;
  irq_sent = [];
  stats = no_stats;
}

device-init : init 4096 bytes 4 (some 5) 0 ≡ some device
unfolding init
device-init = refl

device-Inv : Inv device
device-Inv = init-Inv 4096 bytes 4 (some 5) 0 (omega arith) device-init

-- The device after its first refill.
abbrev ready : Stream
ready = record device {
  budget_given = 4;
  avail = 4;
  irq_pending = true;
  irq_sent = record { vcpu = 0; line = 5; level = 1 } ∷ [];
  stats = record no_stats { paced_refills = 1; irqs_raised = 1 };
}

ready-step : step device ticks ≡ ready
unfolding step tick_pace raise_data_ready_irq
ready-step = refl

ready-Inv : Inv ready
ready-Inv = subst Inv ready-step (step-Inv device ticks device-Inv)

abbrev history : List Event
history = ticks ∷ reads 4104 4 ∷ reads 4096 8 ∷ ticks ∷ []

history-Inv_example : Inv (run device history)
history-Inv_example =
    history-Inv 4096 bytes 4 (some 5) 0 history {d = device} (omega arith) device-init

budget-ticks_example :
    ((run device (replicate 2 ticks)).budget_given ≡ min (length bytes) (0 + 2 * 4))
    × ((run device (replicate 2 ticks)).pos ≡ 0)
    × ((run device (replicate 2 ticks)).avail ≡ (run device (replicate 2 ticks)).budget_given - 0)
budget-ticks_example = budget-ticks 2 device device-Inv (λ e. absurd (omega (arith, e)))

bytes_ok : AllBytes bytes
bytes_ok =
    (omega arith, (omega arith, (omega arith, (omega arith, (omega arith, (omega arith, tt))))))

read_data_lem_example :
    ((0 < want ready)
      × (want ready ≤ ready.avail)
      × ((handle_read ready 4104 4).1 ≡ padded ready.stream ready.pos (want ready))
      × ((handle_read ready 4104 4).0.pos ≡ ready.pos + want ready)
      × ((handle_read ready 4104 4).0.avail + want ready ≡ ready.avail))
    ⊎ (((want ready ≡ 0) ⊎ (ready.avail < want ready))
        × ((handle_read ready 4104 4).1 ≡ 0 ∷ 0 ∷ 0 ∷ 0 ∷ [])
        × ((handle_read ready 4104 4).0.pos ≡ ready.pos)
        × ((handle_read ready 4104 4).0.avail ≡ ready.avail))
read_data_lem_example = read_data_lem ready 4104 ready-Inv bytes_ok refl (omega arith)

-- The first refill makes four bytes available, and the next read pops them.
first_pop : (handle_read ready 4104 4).1 ≡ 11 ∷ 22 ∷ 33 ∷ 44 ∷ []
unfolding handle_read
first_pop = refl
