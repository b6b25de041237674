-- ===== src/Mailbox/Irq.antt =====
-- postIrq of src/quetz_mmio_sync.h and quetz_ipc_irq_drain of qemu-overlay/quetz_ipc_client.c, as
-- programs that take turns. A turn is one access to the shared memory; the release and acquire pairs
-- of the code order these as they are ordered here.
use quetz.Base.{ℕ, suc, ◌&&◌, ◌||◌, List, [], ◌∷◌, ◌==◌, ltb, leb, if◌then◌else◌, min, add32}

-- QUETZ_MAX_MMIO_VCORES and QUETZ_MAX_IRQ_LINES
abbrev pub max_mmio_vcores : ℕ
max_mmio_vcores = 256

abbrev pub max_irq_lines : ℕ
max_irq_lines = 64

-- The interrupt slots of QuetzSharedData: `irq_slot[v][l]` is `seq v l` and `level v l`.
pub record Slots : Type 0 where
  pub seq : ℕ → ℕ → ℕ
  pub level : ℕ → ℕ → ℕ
  pub irq_generation : ℕ

-- A store to one slot.
abbrev pub update2 : ℕ → ℕ → ℕ → (ℕ → ℕ → ℕ) → ℕ → ℕ → ℕ
update2 v l x f w m = if (w == v) && (m == l) then x else f w m

-- clearIrqSlots, over all lines of a vCPU
unfoldable pub clear_irq_slots : ℕ → Slots → Slots
clear_irq_slots vcpu s = if leb max_mmio_vcores vcpu then s else record s {
  seq = λ w m. if (w == vcpu) && ltb m max_irq_lines then 0 else s.seq w m;
  level = λ w m. if (w == vcpu) && ltb m max_irq_lines then 0 else s.level w m;
}

-- The three stores of postIrq.
unfoldable pub store_level : ℕ → ℕ → ℕ → Slots → Slots
store_level v l x s = record s { level = update2 v l x s.level }

unfoldable pub store_seq : ℕ → ℕ → Slots → Slots
store_seq v l s = record s { seq = update2 v l (add32 (s.seq v l) 1) s.seq }

unfoldable pub store_generation : Slots → Slots
store_generation s = record s { irq_generation = add32 s.irq_generation 1 }

-- Where postIrq is between its stores.
pub data Writer : Type 0 where
  idle : Writer
  level_stored seq_stored : ℕ → ℕ → Writer

-- Where quetz_ipc_irq_drain is: outside, about to load the `seq` of a slot, or about to load the
-- level of a slot that changed. `g` is the generation that it loaded, `n` the changes written so far.
pub data Reader : Type 0 where
  outside : Reader
  scanning : (g v l n : ℕ) → Reader
  changed : (g v l n : ℕ) → Reader

-- The arguments of a drain, and the number of cores.
pub record Args : Type 0 where
  pub num_cores : ℕ
  pub max_lines : ℕ
  pub max_out : ℕ

-- The bounds of the two loops.
abbrev pub cores : Args → ℕ
cores a = min a.num_cores max_mmio_vcores

abbrev pub lines : Args → ℕ
lines a = min a.max_lines max_irq_lines

-- The shared slots, both programs, the client's shadows `irq_seq` and `irq_gen`, and `applied`: the
-- level that the changes written so far leave each line at.
pub record Sys : Type 0 where
  pub slots : Slots
  pub writer : Writer
  pub reader : Reader
  pub irq_seq : ℕ → ℕ → ℕ
  pub irq_gen : ℕ
  pub applied : ℕ → ℕ → ℕ

-- Cleared slots, and a client that calloc cleared.
abbrev pub start : Sys
start = record {
  slots = record { seq = λ v l. 0; level = λ v l. 0; irq_generation = 0 };
  writer = idle;
  reader = outside;
  irq_seq = λ v l. 0;
  irq_gen = 0;
  applied = λ v l. 0;
}

-- postIrq begins: its guards, and the store of the level.
unfoldable pub post_begin : ℕ → ℕ → ℕ → Sys → Sys
post_begin v l x s =
    if leb max_mmio_vcores v || leb max_irq_lines l
    then s
    else record s { slots = store_level v l x s.slots; writer = level_stored v l }

-- postIrq goes on.
unfoldable pub post_step : Writer → Sys → Sys
post_step idle s = s
post_step (level_stored v l) s = record s { slots = store_seq v l s.slots; writer = seq_stored v l }
post_step (seq_stored v l) s = record s { slots = store_generation s.slots; writer = idle }

-- The loops of the drain go to the next slot, or end with a complete scan.
unfoldable pub advance : Args → ℕ → ℕ → ℕ → ℕ → Sys → Sys
advance a g v l n s =
    if ltb (suc l) (lines a)
    then record s { reader = scanning g v (suc l) n }
    else if ltb (suc v) (cores a)
    then record s { reader = scanning g (suc v) 0 n }
    else record s { irq_gen = g; reader = outside }

-- The drain begins.
unfoldable pub drain_begin : Args → Sys → Sys
drain_begin a s =
    if a.max_out == 0 || (s.slots.irq_generation == s.irq_gen)
    then s
    else if cores a == 0 || (lines a == 0)
    then record s { irq_gen = s.slots.irq_generation }
    else record s { reader = scanning s.slots.irq_generation 0 0 0 }

-- The drain goes on.
unfoldable pub drain_step : Args → Reader → Sys → Sys
drain_step a outside s = drain_begin a s
drain_step a (scanning g v l n) s =
    if s.slots.seq v l == s.irq_seq v l
    then advance a g v l n s
    else record s { irq_seq = update2 v l (s.slots.seq v l) s.irq_seq; reader = changed g v l n }
drain_step a (changed g v l n) s =
    let out = record s { applied = update2 v l (s.slots.level v l) s.applied } in
    if suc n == a.max_out then record out { reader = outside } else advance a g v l (suc n) out

-- postIrq begins where no other call of it is under way: the simulation posts serially.
unfoldable pub post_turn : Writer → ℕ → ℕ → ℕ → Sys → Sys
post_turn idle v l x s = post_begin v l x s
post_turn (level_stored w m) v l x s = s
post_turn (seq_stored w m) v l x s = s

-- A turn: the simulation posts a level when it posts nothing else, it goes on, or the drain does.
pub data Turn : Type 0 where
  post : ℕ → ℕ → ℕ → Turn
  write_on read_on : Turn

unfoldable pub turn : Args → Turn → Sys → Sys
turn a (post v l x) s = post_turn s.writer v l x s
turn a write_on s = post_step s.writer s
turn a read_on s = drain_step a s.reader s

unfoldable pub turns : Args → List Turn → Sys → Sys
turns a [] s = s
turns a (t ∷ ts) s = turns a ts (turn a t s)

-- postIrq as one operation.
unfoldable pub post_irq : ℕ → ℕ → ℕ → Slots → Slots
post_irq v l x s =
    if leb max_mmio_vcores v || leb max_irq_lines l
    then s
    else store_generation (store_seq v l (store_level v l x s))
