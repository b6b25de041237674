-- ===== src/Ipc.antt =====
-- include/quetz/quetz_ipc_types.h: the commands of the QEMU plugin's tunnel.
use quetz.Base.{ℕ, List}

-- QuetzShmemCmd
pub data ShmemCmd : Type 0 where
  nop read write exit mmio_read_req mmio_write_req compute_run cache_op : ShmemCmd

-- QuetzCommand; `payload` is its field `data` of 64 bytes.
pub record Command : Type 0 where
  pub cmd : ShmemCmd
  pub size : ℕ
  pub pc : ℕ
  pub addr : ℕ
  pub insn_class : ℕ
  pub payload : List ℕ

-- QUETZ_CMD_DATA_BYTES
abbrev pub cmd_data_bytes : ℕ
cmd_data_bytes = 64

-- QUETZ_INSN_CLASS_COUNT
abbrev pub insn_class_count : ℕ
insn_class_count = 8
