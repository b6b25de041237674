-- ===== src/Mailbox/Slot.antt =====
-- The request and the response slot of one vCPU: quetz_ipc_mmio_read and quetz_ipc_mmio_write of
-- qemu-overlay/quetz_ipc_client.c with the lock of include/quetz/quetz_ipc_lock.h, and on the other
-- side the polling of src/quetzcpu_mmio_sync.cc and postResponse of src/quetz_mmio_sync.h. All
-- threads of QEMU and the simulation take turns, one access to the shared memory each.
use quetz.Base.{ℕ, List, [], ◌∷◌, ◌++◌, ◌==◌, if◌then◌else◌}
use quetz.Ipc.{ShmemCmd, nop}

-- What a thread asks for.
pub record Request : Type 0 where
  pub cmd : ShmemCmd
  pub addr : ℕ
  pub size : ℕ
  pub write_val : ℕ

-- QuetzMmioSyncRequest and QuetzMmioResponseSlot; `fields` are cmd, addr, size and write_val.
pub record Slot : Type 0 where
  pub pending : ℕ
  pub busy : ℕ
  pub fields : Request
  pub ready : ℕ
  pub value : ℕ

-- Where a thread of QEMU is: away, or past one of the accesses of a request. `ready_seen` has left
-- the waiting loop, `loaded` has the value, and `consumed` has cleared the flag again.
pub data Thread : Type 0 where
  away : Thread
  locked ready_cleared cleared addr_written size_written value_written written : Request → Thread
  waiting ready_seen : Request → Thread
  loaded consumed : Request → ℕ → Thread

-- Where the simulation is, with what it has loaded: at rest, past one of the accesses of
-- pollMmioSyncMailbox that takes the request, or, with `value_posted`, between the two stores of
-- postResponse.
pub data Simulation : Type 0 where
  at_rest pending_seen : Simulation
  cmd_loaded : ShmemCmd → Simulation
  addr_loaded : ShmemCmd → ℕ → Simulation
  size_loaded : ShmemCmd → ℕ → ℕ → Simulation
  request_loaded : Request → Simulation
  value_posted : Simulation

-- The slot, the threads and the simulation. The rest are histories: the requests that the simulation
-- has taken and not answered, oldest first; its answers, each with the request that it is to, and
-- what the threads got, newest first.
pub record World : Type 0 where
  pub slot : Slot
  pub threads : ℕ → Thread
  pub simulation : Simulation
  pub serving : List Request
  pub answers : List (Request × ℕ)
  pub results : List (Request × ℕ)

abbrev pub no_request : Request
no_request = record { cmd = nop; addr = 0; size = 0; write_val = 0 }

abbrev pub start : World
start = record {
  slot = record { pending = 0; busy = 0; fields = no_request; ready = 0; value = 0 };
  threads = λ t. away;
  simulation = at_rest;
  serving = [];
  answers = [];
  results = [];
}

abbrev pub at_thread : ℕ → Thread → (ℕ → Thread) → ℕ → Thread
at_thread t q f u = if u == t then q else f u

-- quetz_ipc_lock: an attempt, which another one follows where it fails.
unfoldable pub lock : ℕ → Request → World → World
lock t q w =
    if w.slot.busy == 0
    then record w {
      slot = record (w.slot) { busy = 1 };
      threads = at_thread t (locked q) w.threads;
    }
    else w

-- wait_slot, the test of its loop
unfoldable pub wait : ℕ → Request → World → World
wait t q w =
    if w.slot.ready == 0 then w else record w { threads = at_thread t (ready_seen q) w.threads }

-- A thread goes on by one access: clear_slot, the request's fields one by one, its flag, wait_slot, and
-- quetz_ipc_unlock, after which the call returns.
unfoldable pub go_on : ℕ → Thread → World → World
go_on t away w = w
go_on t (locked q) w = record w {
  slot = record (w.slot) { ready = 0 };
  threads = at_thread t (ready_cleared q) w.threads;
}
go_on t (ready_cleared q) w = record w {
  slot = record (w.slot) { value = 0 };
  threads = at_thread t (cleared q) w.threads;
}
go_on t (cleared q) w = record w {
  slot = record (w.slot) { fields = record (w.slot.fields) { addr = q.addr } };
  threads = at_thread t (addr_written q) w.threads;
}
go_on t (addr_written q) w = record w {
  slot = record (w.slot) { fields = record (w.slot.fields) { size = q.size } };
  threads = at_thread t (size_written q) w.threads;
}
go_on t (size_written q) w = record w {
  slot = record (w.slot) { fields = record (w.slot.fields) { write_val = q.write_val } };
  threads = at_thread t (value_written q) w.threads;
}
go_on t (value_written q) w = record w {
  slot = record (w.slot) { fields = record (w.slot.fields) { cmd = q.cmd } };
  threads = at_thread t (written q) w.threads;
}
go_on t (written q) w = record w {
  slot = record (w.slot) { pending = 1 };
  threads = at_thread t (waiting q) w.threads;
}
go_on t (waiting q) w = wait t q w
go_on t (ready_seen q) w = record w { threads = at_thread t (loaded q w.slot.value) w.threads }
go_on t (loaded q v) w = record w {
  slot = record (w.slot) { ready = 0 };
  threads = at_thread t (consumed q v) w.threads;
}
go_on t (consumed q v) w = record w {
  slot = record (w.slot) { busy = 0 };
  threads = at_thread t away w.threads;
  results = (q, v) ∷ w.results;
}

-- A thread calls quetz_ipc_mmio_read or quetz_ipc_mmio_write, when it is in neither.
unfoldable pub call : ℕ → Request → Thread → World → World
call t q away w = lock t q w
call t q _ w = w

-- pollMmioSyncMailbox, the load of the flag, when the simulation is in no other call.
unfoldable pub poll : Simulation → World → World
poll at_rest w = if w.slot.pending == 0 then w else record w { simulation = pending_seen }
poll _ w = w

-- The request that an answer is to: the oldest that is open, if there is one.
unfoldable pub answer_to : List Request → ℕ → List (Request × ℕ) → List (Request × ℕ)
answer_to [] v answers = answers
answer_to (q ∷ qs) v answers = (q, v) ∷ answers

unfoldable pub others : List Request → List Request
others [] = []
others (q ∷ qs) = qs

-- postResponse, the store of the value, when the simulation is in no other call.
unfoldable pub post_value : ℕ → Simulation → World → World
post_value v at_rest w = record w {
  slot = record (w.slot) { value = v };
  simulation = value_posted;
  serving = others w.serving;
  answers = answer_to w.serving v w.answers;
}
post_value v _ w = w

-- The simulation goes on by one access: pollMmioSyncMailbox loads the fields of the request and
-- clears its flag, and postResponse stores the flag that publishes the value.
unfoldable pub simulate : Simulation → World → World
simulate at_rest w = w
simulate pending_seen w = record w { simulation = cmd_loaded w.slot.fields.cmd }
simulate (cmd_loaded c) w = record w { simulation = addr_loaded c w.slot.fields.addr }
simulate (addr_loaded c a) w = record w { simulation = size_loaded c a w.slot.fields.size }
simulate (size_loaded c a n) w = record w {
  simulation =
      request_loaded (record { cmd = c; addr = a; size = n; write_val = w.slot.fields.write_val });
}
simulate (request_loaded q) w = record w {
  slot = record (w.slot) { pending = 0 };
  simulation = at_rest;
  serving = w.serving ++ (q ∷ []);
}
simulate value_posted w = record w { slot = record (w.slot) { ready = 1 }; simulation = at_rest }

pub data Turn : Type 0 where
  calls : ℕ → Request → Turn
  goes_on : ℕ → Turn
  polls : Turn
  posts : ℕ → Turn
  simulates : Turn

unfoldable pub turn : Turn → World → World
turn (calls t q) w = call t q (w.threads t) w
turn (goes_on t) w = go_on t (w.threads t) w
turn polls w = poll w.simulation w
turn (posts v) w = post_value v w.simulation w
turn simulates w = simulate w.simulation w

unfoldable pub turns : List Turn → World → World
turns [] w = w
turns (t ∷ ts) w = turns ts (turn t w)
