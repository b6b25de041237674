-- ===== src/Stream.antt =====
-- src/quetz_stream_device.cc and .h: QuetzStreamDevice, a byte stream that the guest pops through
-- MMIO registers, with pacing and a data-ready interrupt. The stream file's bytes are a list, and
-- the responses and interrupt messages that the device sends are returned or logged.
pub mod Irq
pub mod Delivery
pub mod Pacing
mod Examples
use quetz.Base.{
  ℕ, zero, suc, ◌+◌, ◌-◌, ◌*◌, ◌%◌, ◌^◌, Bool, true, false, not, ◌&&◌, ◌||◌, Option, none, some,
  List, [], ◌∷◌, ltb, leb, ◌==◌, if◌then◌else◌, length, get_or, sub64, add64, u64_to_data,
  data_to_u64,
}
use quetz.Device.{IrqEvent, Write}

abbrev reg_status : ℕ
reg_status = 0x00

abbrev pub reg_data : ℕ
reg_data = 0x08

abbrev reg_seq : ℕ
reg_seq = 0x10

abbrev reg_ctrl : ℕ
reg_ctrl = 0x18

abbrev reg_eos : ℕ
reg_eos = 0x20

abbrev reg_irq_ack : ℕ
reg_irq_ack = 0x28

-- The registered statistics.
pub record Stats : Type 0 where
  pub data_reads : ℕ
  pub bytes_delivered : ℕ
  pub status_polls : ℕ
  pub underruns : ℕ
  pub not_ready_reads : ℕ
  pub paced_refills : ℕ
  pub rewinds : ℕ
  pub irqs_raised : ℕ
  pub wrong_direction_accesses : ℕ
  pub bad_offset_accesses : ℕ

-- `irq_line` is `none` for the negative values of the source, which disable the interrupt;
-- `irq_sent` logs what went over `irq_link_`, newest first.
pub record Stream : Type 0 where
  pub base_addr : ℕ
  pub stream : List ℕ
  pub pos : ℕ
  pub pace_bytes : ℕ
  pub budget_given : ℕ
  pub avail : ℕ
  pub irq_line : Option ℕ
  pub irq_vcpu : ℕ
  pub irq_pending : Bool
  pub irq_sent : List IrqEvent
  pub stats : Stats

abbrev pub no_stats : Stats
no_stats = record {
  data_reads = 0;
  bytes_delivered = 0;
  status_polls = 0;
  underruns = 0;
  not_ready_reads = 0;
  paced_refills = 0;
  rewinds = 0;
  irqs_raised = 0;
  wrong_direction_accesses = 0;
  bad_offset_accesses = 0;
}

abbrev pub paced : Stream → Bool
paced d = not (d.pace_bytes == 0)

-- The constructor, given its parameters and the bytes of the stream file. `none` stands for its
-- fatal() calls: an empty stream, and an interrupt line without pacing.
pub init : ℕ → List ℕ → ℕ → Option ℕ → ℕ → Option Stream
init base stream pace irq_line irq_vcpu = elim stream [
  | [] ↦ none
  | _ ↦ elim irq_line [
    | some l ↦ if pace == 0 then none else some (fresh (some l))
    | none ↦ some (fresh none)
  ]
]
  where
    budget : ℕ
    budget = if pace == 0 then length stream else 0

    fresh : Option ℕ → Stream
    fresh line = record {
      base_addr = base;
      stream = stream;
      pos = 0;
      pace_bytes = pace;
      budget_given = budget;
      avail = budget;
      irq_line = line;
      irq_vcpu = irq_vcpu;
      irq_pending = false;
      irq_sent = [];
      stats = no_stats;
    }

-- raiseDataReadyIrq
pub raise_data_ready_irq : Stream → Stream
raise_data_ready_irq d = elim d.irq_line [
  | none ↦ d
  | some line ↦ if d.irq_pending then d else record d {
    irq_pending = true;
    irq_sent = record { vcpu = d.irq_vcpu; line = line; level = 1 } ∷ d.irq_sent;
    stats = record (d.stats) { irqs_raised = d.stats.irqs_raised + 1 };
  }
]

-- ackIrq
ack_irq : Stream → Stream
ack_irq d = elim d.irq_line [
  | none ↦ d
  | some line ↦ if not d.irq_pending then d else if ltb 0 d.avail then d else record d {
    irq_pending = false;
    irq_sent = record { vcpu = d.irq_vcpu; line = line; level = 0 } ∷ d.irq_sent;
  }
]

-- tickPace
pub tick_pace : Stream → Stream
unfolding raise_data_ready_irq
tick_pace d =
    if ltb d.budget_given (length d.stream)
    then (if ltb 0 taken then raise_data_ready_irq refilled else refilled)
    else d
  where
    rest : ℕ
    rest = length d.stream - d.budget_given

    taken : ℕ
    taken = if ltb d.pace_bytes rest then d.pace_bytes else rest

    refilled : Stream
    refilled = record d {
      budget_given = add64 d.budget_given taken;
      avail = add64 d.avail taken;
      stats = record (d.stats) { paced_refills = d.stats.paced_refills + 1 };
    }

-- The loop `value |= stream_[pos_++] << (8 * n)` over the rounds left. The bytes do not overlap, so
-- `|` is a sum.
pub pop_loop : List ℕ → ℕ → ℕ → ℕ → ℕ → ℕ
pop_loop stream zero n pos value = value
pop_loop stream (suc left) n pos value =
    pop_loop stream left (n + 1) (pos + 1) (value + get_or stream pos 0 * 256 ^ n)

-- The bytes of the next pop: four, or the stream's tail.
abbrev pub want : Stream → ℕ
want d = let rest = length d.stream - d.pos in if ltb 4 rest then 4 else rest

-- The REG_DATA branch of the read handler: the new state and the value.
read_data : Stream → Stream × ℕ
unfolding pop_loop ack_irq
read_data d =
    if leb (length d.stream) d.pos
    then (record d { stats = record counted { underruns = counted.underruns + 1 } }, 0)
    else if ltb d.avail (want d)
    then (record d { stats = record counted { not_ready_reads = counted.not_ready_reads + 1 } }, 0)
    else (
      (if popped.avail == 0 then ack_irq popped else popped),
      pop_loop d.stream (want d) 0 d.pos 0,
    )
  where
    counted : Stats
    counted = record (d.stats) { data_reads = d.stats.data_reads + 1 }

    popped : Stream
    popped = record d {
      pos = d.pos + want d;
      avail = d.avail - want d;
      stats = record counted { bytes_delivered = counted.bytes_delivered + want d };
    }

-- The value of each register, and the state after the read.
read_value : Stream → ℕ → Stream × ℕ
unfolding read_data
read_value d offset =
    if offset == reg_status
    then (record d { stats = record stats { status_polls = stats.status_polls + 1 } }, d.avail)
    else if offset == reg_data
    then read_data d
    else if offset == reg_seq
    then (d, d.pos)
    else if offset == reg_eos
    then (d, (if leb (length d.stream) d.pos then 1 else 0))
    else if offset == reg_irq_ack
    then (d, (if d.irq_pending then 1 else 0))
    else if offset == reg_ctrl
    then (
      record d {
        stats = record stats { wrong_direction_accesses = stats.wrong_direction_accesses + 1 };
      },
      0,
    )
    else (
      record d { stats = record stats { bad_offset_accesses = stats.bad_offset_accesses + 1 } },
      0,
    )
  where
    open d use {stats}

-- mmioHandlers::handle(Read): the new state and the response's payload.
pub handle_read : Stream → ℕ → ℕ → Stream × List ℕ
unfolding read_value u64_to_data
handle_read d addr size =
    let (d', value) = read_value d (sub64 addr d.base_addr) in (d', u64_to_data value size)

-- The rewind of REG_CTRL.
rewind : Stream → Stream
unfolding ack_irq raise_data_ready_irq
rewind d =
    let moved =
      (if restarted.avail == 0 then ack_irq restarted else raise_data_ready_irq restarted) in
    record moved { stats = record (moved.stats) { rewinds = moved.stats.rewinds + 1 } }
  where
    budget : ℕ
    budget = if d.pace_bytes == 0 then length d.stream else 0

    restarted : Stream
    restarted = record d { pos = 0; budget_given = budget; avail = budget }

-- mmioHandlers::handle(Write): the new state, and whether a response is sent.
pub handle_write : Stream → Write → Stream × Bool
unfolding rewind ack_irq data_to_u64
handle_write d w = (
  (if offset == reg_ctrl
      then (if data_to_u64 w.payload == 1 then rewind d else d)
      else if offset == reg_irq_ack
      then (if data_to_u64 w.payload == 0 then d else ack_irq d)
      else if offset == reg_status || offset == reg_data || offset == reg_seq || offset == reg_eos
      then record d {
        stats = record stats { wrong_direction_accesses = stats.wrong_direction_accesses + 1 };
      }
      else record d {
        stats = record stats { bad_offset_accesses = stats.bad_offset_accesses + 1 };
      }),
  not w.posted,
)
  where
    open d use {stats}

    offset : ℕ
    offset = sub64 w.addr d.base_addr

-- What drives the device: MMIO accesses and, where the device is paced, the refill clock.
pub data Event : Type 0 where
  reads : ℕ → ℕ → Event
  writes : Write → Event
  ticks : Event

pub step : Stream → Event → Stream
unfolding handle_read handle_write tick_pace
step d (reads addr size) = (handle_read d addr size).0
step d (writes w) = (handle_write d w).0
step d ticks = if paced d then tick_pace d else d

pub run : Stream → List Event → Stream
run d [] = d
run d (e ∷ es) = run (step d e) es
