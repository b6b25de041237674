-- ===== src/Device.antt =====
-- What the MMIO devices share: the write requests of SST's StandardMem interface, as far as the
-- handlers read them, and the messages of src/quetz_irq_event.h that they send to the CPU.
use quetz.Base.{ℕ, Bool, List}

-- StandardMem::Write: the address, the bytes, and whether the requester wants no response.
pub record Write : Type 0 where
  pub addr : ℕ
  pub payload : List ℕ
  pub posted : Bool

-- QuetzIrqEvent
pub record IrqEvent : Type 0 where
  pub vcpu : ℕ
  pub line : ℕ
  pub level : ℕ
